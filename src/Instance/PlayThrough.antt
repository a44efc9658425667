-- ===== src/Instance/PlayThrough.antt =====
-- A song from its start over its pauses to its end.
use mpdscribble.Base.{
  ℕ, ◌+◌, ◌<◌, ◌≡◌, refl, Bool, List, [], ◌∷◌, Option, none, some, arith, ◌>>=◌, subst, ◌∙◌,
}
use mpdscribble.Instance.{
  Instance, Now, on_mpd_started, on_mpd_paused, on_mpd_resumed, on_mpd_ended,
}
use mpdscribble.Instance.Played.{IsPlayed}
use mpdscribble.MultiScrobbler.Each.{
  AllSound, Pairwise, DoesAll, Gets, Waits, Waits-Gets, Pairwise-compose, Pairwise-refl,
}
use mpdscribble.Scrobbler.State.{Scrobbler}
use mpdscribble.Song.{Song, song_duration}
use mpdscribble.Stopwatch.{
  Stopwatch, get_duration, start_watch, resume_watch, stop_watch, pause_all, InOrder, paused_for,
  get_duration-start_watch,
}
use mpdscribble.Instance.Submission.{
  IsNamed, scrobble, Leaves, on_mpd_ended-played, on_mpd_ended-skipped, now_playing-DoesAll,
}

-- OnMpdPaused() and OnMpdResumed(), at the times of each pause
abbrev pub pause_each : Now → List (ℕ × ℕ) → Instance → Instance
pause_each now [] i = i
pause_each now ((from, till) ∷ pauses) i =
    pause_each now pauses
      (on_mpd_resumed (record now { time = till }) (on_mpd_paused (record now { time = from }) i))

pause_each-pause_all :
    (now : Now) (pauses : List (ℕ × ℕ)) (i : Instance)
    → pause_each now pauses i ≡ record i { stopwatch = pause_all pauses i.stopwatch }
unfolding on_mpd_resumed on_mpd_paused
pause_each-pause_all now [] i = refl
pause_each-pause_all now ((from, till) ∷ pauses) i =
    pause_each-pause_all now pauses
      (record i { stopwatch = resume_watch till (stop_watch from i.stopwatch) })

-- A song from its start over its pauses to its end.
abbrev pub play_through : Now → Song → List (ℕ × ℕ) → Now → Bool → Instance → Option Instance
play_through begin song pauses finish love i =
    on_mpd_started begin song i >>= (λ j. on_mpd_ended finish song love (pause_each begin pauses j))

then-Leaves :
    (R : Scrobbler → Scrobbler → Type 0)
    → ((ss ts us : List Scrobbler) → Pairwise Waits ss ts → Pairwise R ts us → Pairwise R ss us)
    → (i : Instance) (w : Stopwatch) (k : Instance → Option Instance)
    → ((scrobblers : List Scrobbler)
        → AllSound scrobblers
        → let j = record i { stopwatch = w; scrobblers = scrobblers } in Leaves R j (k j))
    → (m : Option (List Scrobbler)) → DoesAll Waits i.scrobblers m
    → Leaves R i ((m >>= (λ ss. some (record i { stopwatch = w; scrobblers = ss }))) >>= k)
then-Leaves R c i w k h none d = d
then-Leaves R c i w k h (some scrobblers) (v, p) = go (k j) (h scrobblers v)
  where
    j : Instance
    j = record i { stopwatch = w; scrobblers = scrobblers }

    go : (r : Option Instance) → Leaves R j r → Leaves R i r
    go none e = e
    go (some t) (u, q) = (u, c i.scrobblers scrobblers t.scrobblers p q)

ended-Gets :
    (finish : Now) (song : Song) (love : Bool) (i : Instance) (elapsed : ℕ)
    → get_duration finish.time i.stopwatch ≡ elapsed
    → IsNamed song
    → AllSound i.scrobblers
    → IsPlayed elapsed (song_duration song)
    → Leaves
        (Gets finish.date (scrobble finish song love elapsed))
        i
        (on_mpd_ended finish song love i)
ended-Gets finish song love i elapsed e n v =
    subst
      (λ x.
        IsPlayed x (song_duration song)
        → Leaves (Gets finish.date (scrobble finish song love x)) i
            (on_mpd_ended finish song love i))
      e (on_mpd_ended-played finish song love i n v)

module _ (begin : Now) (song : Song) (pauses : List (ℕ × ℕ)) (finish : Now) (love : Bool)
    (i : Instance) (named : IsNamed song) (sound : AllSound i.scrobblers) (running : 0 < begin.time)
    (ordered : InOrder begin.time pauses finish.time) (elapsed : ℕ)
    (total : elapsed + paused_for pauses + begin.time ≡ finish.time) where
  watched :
      get_duration finish.time (pause_all pauses (start_watch begin.time i.stopwatch)) ≡ elapsed
  watched =
      omega
        (arith, get_duration-start_watch i.stopwatch begin.time pauses finish.time running ordered)

  -- A named song that ran long enough, its pauses not counted, is got exactly once by every scrobbler, with
  -- its tags and its length, or the time it ran if MPD knows no length; no assertion fails.
  pub play_through-Gets :
      IsPlayed elapsed (song_duration song)
      → Leaves
          (Gets finish.date (scrobble finish song love elapsed))
          i
          (play_through begin song pauses finish love i)
  unfolding on_mpd_started
  play_through-Gets p =
      let R = Gets finish.date (scrobble finish song love elapsed) in
      then-Leaves R
        (Pairwise-compose Waits R R (Waits-Gets finish.date (scrobble finish song love elapsed))) i
        (start_watch begin.time i.stopwatch)
        (λ j. on_mpd_ended finish song love (pause_each begin pauses j))
        (λ scrobblers v.
          let j = record i {
            stopwatch = start_watch begin.time i.stopwatch;
            scrobblers = scrobblers;
          } in
          rw (pause_each-pause_all begin pauses j) (
            ended-Gets finish song love (record j { stopwatch = pause_all pauses j.stopwatch })
              elapsed watched named v p))
        _ (now_playing-DoesAll song i.scrobblers named sound)

  -- A named song that did not run long enough is got by no scrobbler; no assertion fails.
  pub play_through-Waits :
      ¬ IsPlayed elapsed (song_duration song)
      → Leaves Waits i (play_through begin song pauses finish love i)
  unfolding on_mpd_started
  play_through-Waits p =
      then-Leaves Waits (Pairwise-compose Waits Waits Waits (λ s t u a b. (b.0 ∙ a.0, b.1 ∙ a.1))) i
        (start_watch begin.time i.stopwatch)
        (λ j. on_mpd_ended finish song love (pause_each begin pauses j))
        (λ scrobblers v.
          let j = record i {
            stopwatch = start_watch begin.time i.stopwatch;
            scrobblers = scrobblers;
          } in
          rw (pause_each-pause_all begin pauses j) (
            rw
              (on_mpd_ended-skipped finish song love
                (record j { stopwatch = pause_all pauses j.stopwatch }) (rw watched p))
              (v, Pairwise-refl scrobblers)))
        _ (now_playing-DoesAll song i.scrobblers named sound)
