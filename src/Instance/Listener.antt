-- ===== src/Instance/Listener.antt =====
-- The calls that the observer makes of the instance, all of them.
use mpdscribble.Base.{
  ℕ, ◌-◌, ◌<◌, ◌≡◌, Bool, true, false, Option, none, some, arith, ◌>>=◌, inl, inr, Bool-cases,
}
use mpdscribble.Instance.{
  Instance, Now, song_repeated, on_mpd_started, on_mpd_paused, on_mpd_resumed, on_mpd_ended,
  on_mpd_playing, on_submit_signal, played_long_enough,
}
use mpdscribble.Instance.Played.{IsPlayed, played_long_enough_iff}
use mpdscribble.Instance.Submission.{
  IsNamed, scrobble, Leaves, on_mpd_started-Leaves, on_mpd_ended-played, Leaves-scrobblers,
}
use mpdscribble.MultiScrobbler.{submit_all_now}
use mpdscribble.MultiScrobbler.Each.{
  AllSound, Gets, Waits, Gets-Waits, Pairwise-compose, for_each-DoesAll, submit_now-Does,
}
use mpdscribble.Observer.{Notification, started, playing, ended, paused, resumed}
use mpdscribble.Scrobbler.Operations.{submit_now}
use mpdscribble.Scrobbler.State.{Scrobbler}
use mpdscribble.Song.{Song, song_duration}
use mpdscribble.Stopwatch.{get_duration}

-- The song is back near its start, and it ran long enough before.
abbrev pub IsRepeated : ℕ → ℕ → ℕ → Type 0
IsRepeated elapsed previous length =
    (elapsed < 60_000_000_000) × (elapsed < previous) × IsPlayed (previous - elapsed) length

song_repeated_iff :
    (song : Song) (elapsed previous : ℕ)
    → IsRepeated elapsed previous (song_duration song)
    → song_repeated song elapsed previous ≡ true
unfolding song_repeated
song_repeated_iff song elapsed previous (h, k, p) =
    ground (arith, (played_long_enough_iff (previous - elapsed) (song_duration song)).1 p)

IsPlayed-minus :
    (elapsed previous length : ℕ) → IsPlayed (previous - elapsed) length → IsPlayed previous length
IsPlayed-minus elapsed previous length (inl h) = inl (ground arith)
IsPlayed-minus elapsed previous length (inr (h, k)) = inr (h, ground arith)

then-Waits :
    (R : Scrobbler → Scrobbler → Type 0) (f : Instance → Option Instance)
    → ((s t u : Scrobbler) → R s t → Waits t u → R s u)
    → ((j : Instance) → AllSound j.scrobblers → Leaves Waits j (f j))
    → (i : Instance) (m : Option Instance) → Leaves R i m
    → Leaves R i (m >>= f)
then-Waits R f c h i none l = l
then-Waits R f c h i (some j) (v, p) = go (f j) (h j v)
  where
    go : (r : Option Instance) → Leaves Waits j r → Leaves R i r
    go none e = e
    go (some k) (w, q) =
        (w, Pairwise-compose R Waits R c i.scrobblers j.scrobblers k.scrobblers p q)

-- A named song that is back near its start after it ran long enough is got once by every scrobbler,
-- with the time it ran before; no assertion fails.
pub on_mpd_playing-repeated :
    (now : Now) (song : Song) (elapsed : ℕ) (i : Instance)
    → IsNamed song
    → AllSound i.scrobblers
    → let previous = get_duration now.time i.stopwatch in
      IsRepeated elapsed previous (song_duration song)
      → Leaves
          (Gets now.date (scrobble now song false previous))
          i
          (on_mpd_playing now song elapsed i)
unfolding on_mpd_playing
on_mpd_playing-repeated now song elapsed i n v r =
    let previous = get_duration now.time i.stopwatch in
    rw (song_repeated_iff song elapsed previous r) (
      then-Waits (Gets now.date (scrobble now song false previous)) (on_mpd_started now song)
        (Gets-Waits now.date (scrobble now song false previous))
        (λ j w. on_mpd_started-Leaves now song j n w) i (on_mpd_ended now song false i)
        (on_mpd_ended-played now song false i n v
          (IsPlayed-minus elapsed previous (song_duration song) r.2)))

-- MpdObserverListener, as Instance implements it
unfoldable pub listen : Now → Notification → Instance → Option Instance
listen now (started song) i = on_mpd_started now song i
listen now (playing song elapsed) i = on_mpd_playing now song elapsed i
listen now (ended song love) i = on_mpd_ended now song love i
listen now paused i = some (on_mpd_paused now i)
listen now resumed i = some (on_mpd_resumed now i)

abbrev pub NamesSong : Notification → Type 0
NamesSong (started song) = IsNamed song
NamesSong (playing song elapsed) = IsNamed song
NamesSong (ended song love) = IsNamed song
NamesSong paused = Unit
NamesSong resumed = Unit

abbrev pub StaysSound : Option Instance → Type 0
StaysSound none = ⊥
StaysSound (some i) = AllSound i.scrobblers

StaysSound-Leaves :
    (R : Scrobbler → Scrobbler → Type 0) (i : Instance) (m : Option Instance)
    → Leaves R i m
    → StaysSound m
StaysSound-Leaves R i none l = l
StaysSound-Leaves R i (some j) l = l.0

on_mpd_ended-StaysSound :
    (now : Now) (song : Song) (love : Bool) (i : Instance)
    → IsNamed song
    → AllSound i.scrobblers
    → StaysSound (on_mpd_ended now song love i)
unfolding on_mpd_ended
on_mpd_ended-StaysSound now song love i n v =
    let elapsed = get_duration now.time i.stopwatch in
    let length = song_duration song in
    elim (Bool-cases (played_long_enough elapsed length)) [
      | inl e ↦
          StaysSound-Leaves (Gets now.date (scrobble now song love elapsed)) i _
            (on_mpd_ended-played now song love i n v ((played_long_enough_iff elapsed length).0 e))
      | inr e ↦ rw e v
    ]

StaysSound-bind :
    (f : Instance → Option Instance)
    → ((j : Instance) → AllSound j.scrobblers → StaysSound (f j))
    → (m : Option Instance) → StaysSound m
    → StaysSound (m >>= f)
StaysSound-bind f h none v = v
StaysSound-bind f h (some j) v = h j v

on_mpd_started-StaysSound :
    (now : Now) (song : Song) (i : Instance)
    → IsNamed song
    → AllSound i.scrobblers
    → StaysSound (on_mpd_started now song i)
on_mpd_started-StaysSound now song i n v =
    StaysSound-Leaves Waits i (on_mpd_started now song i) (on_mpd_started-Leaves now song i n v)

on_mpd_playing-StaysSound :
    (now : Now) (song : Song) (elapsed : ℕ) (i : Instance)
    → IsNamed song
    → AllSound i.scrobblers
    → StaysSound (on_mpd_playing now song elapsed i)
unfolding on_mpd_playing
on_mpd_playing-StaysSound now song elapsed i n v =
    elim (Bool-cases (song_repeated song elapsed (get_duration now.time i.stopwatch))) [
      | inl e ↦ rw e (
          StaysSound-bind (on_mpd_started now song) (λ j. on_mpd_started-StaysSound now song j n) _
            (on_mpd_ended-StaysSound now song false i n v))
      | inr e ↦ rw e v
    ]

-- Whatever the observer tells of named songs, the instance fails no assertion, and all its scrobblers
-- stay sound.
pub listen-StaysSound :
    (now : Now) (n : Notification) (i : Instance)
    → NamesSong n
    → AllSound i.scrobblers
    → StaysSound (listen now n i)
unfolding listen on_mpd_paused on_mpd_resumed
listen-StaysSound now (started song) i n v = on_mpd_started-StaysSound now song i n v
listen-StaysSound now (playing song elapsed) i n v =
    on_mpd_playing-StaysSound now song elapsed i n v
listen-StaysSound now (ended song love) i n v = on_mpd_ended-StaysSound now song love i n v
listen-StaysSound now paused i n v = v
listen-StaysSound now resumed i n v = v

-- SIGUSR1 fails no assertion, and nothing is submitted or written before a timer expires.
pub on_submit_signal-Leaves :
    (i : Instance) → AllSound i.scrobblers → Leaves Waits i (on_submit_signal i)
unfolding on_submit_signal submit_all_now
on_submit_signal-Leaves i v =
    Leaves-scrobblers Waits i i.stopwatch _
      (for_each-DoesAll Waits submit_now submit_now-Does i.scrobblers v)
