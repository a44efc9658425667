-- ===== src/Observer/Protocol.antt =====
-- The notifications of MpdObserver as a protocol: which song the listener takes to be playing.
use mpdscribble.Base.{
  ℕ, ◌≡◌, ◌≢◌, refl, Bool, true, false, List, [], ◌∷◌, Option, none, some, arith, is_some,
  Bool-cases, inl, inr, if◌then◌else◌, ◌>>=◌, ◌==◌,
}
use mpdscribble.Observer.{
  MpdState, state_play, state_pause, state_other, Notification, started, playing, ended, paused,
  resumed, MpdObserver, no_id, schedule_idle, schedule_connect, handle_error, reconnect,
}
use mpdscribble.Observer.Query.{
  QueryAnswers, Outcome, update, update_in, query_state, query_status, query_song, finish_update,
  notify, notify_current, notify_ended, notify_resumed, drop_untagged,
}
use mpdscribble.Song.{Song, tags_missing}

-- The song that is playing for the listener after a notification; `none` outside if the notification is
-- out of place: a start while a song plays, or anything of a song that is not the one that plays.
abbrev pub hear : Option Song → Notification → Option (Option Song)
hear none (started song) = some (some song)
hear (some active) (started song) = none
hear none (playing song elapsed) = none
hear (some active) (playing song elapsed) = if active.id == song.id then some (some song) else none
hear none (ended song love) = none
hear (some active) (ended song love) = if active.id == song.id then some none else none
hear active paused = some active
hear none resumed = none
hear (some active) resumed = some (some active)

abbrev pub hear_all : Option Song → List Notification → Option (Option Song)
hear_all active [] = some active
hear_all active (n ∷ ns) = hear active n >>= (λ next. hear_all next ns)

-- The current song is the last one that was detected.
abbrev pub Tracks : Option Song → ℕ → Type 0
Tracks none last_id = Unit
Tracks (some song) last_id = last_id ≡ song.id

-- After the notifications the listener takes the current song of the observer to be playing.
abbrev pub Follows : Option Song → MpdObserver × List Notification → Type 0
Follows active (o, ns) =
    (hear_all active ns ≡ some o.current_song) × Tracks o.current_song o.last_id

-- Without a current song, a tagged song that is found is not the one that was detected last.
abbrev pub IsFresh : Option Song → ℕ → Song → Type 0
IsFresh prev last_id song = tags_missing song ≡ false → prev ≡ none → song.id ≢ last_id

notify-none :
    (prev : Option Song) (elapsed : ℕ) (o : MpdObserver)
    → o.current_song ≡ none
    → Follows prev (notify prev elapsed o)
unfolding notify notify_resumed notify_ended notify_current
notify-none none elapsed o e = ground arith
notify-none (some prev) elapsed o e = ground arith

notify-some :
    (prev : Option Song) (song : Song) (elapsed : ℕ) (o : MpdObserver)
    → o.current_song ≡ some song
    → Tracks prev o.last_id
    → (prev ≡ none → song.id ≢ o.last_id)
    → Follows prev (notify prev elapsed o)
unfolding notify notify_resumed notify_ended notify_current
notify-some none song elapsed o e v f = ground arith
notify-some (some prev) song elapsed o e v f = ground arith

abbrev pub FollowsAll : Option Song → Outcome → Type 0
FollowsAll active none = ⊥
FollowsAll active (some r) = Follows active r

finish_update-FollowsAll :
    (active : Option Song) (sent : Bool) (r : MpdObserver × List Notification)
    → Follows active r
    → FollowsAll active (finish_update sent r)
unfolding finish_update schedule_connect schedule_idle reconnect handle_error
finish_update-FollowsAll active sent (o, ns) v = ground arith

drop_untagged-missing :
    (song : Song) (o : MpdObserver)
    → tags_missing song ≡ true
    → drop_untagged (some song) o ≡ record o { last_id = song.id; current_song = none }
unfolding drop_untagged
drop_untagged-missing song o e = ground arith

drop_untagged-present :
    (song : Song) (o : MpdObserver)
    → tags_missing song ≡ false
    → drop_untagged (some song) o ≡ record o { current_song = some song }
unfolding drop_untagged
drop_untagged-present song o e = ground arith

drop_untagged-Follows :
    (prev : Option Song) (song : Song) (elapsed : ℕ) (o : MpdObserver)
    → Tracks prev o.last_id
    → IsFresh prev o.last_id song
    → Follows prev (notify prev elapsed (drop_untagged (some song) o))
drop_untagged-Follows prev song elapsed o v f = elim (Bool-cases (tags_missing song)) [
  | inl e ↦
      rw (drop_untagged-missing song o e)
        (notify-none prev elapsed (record o { last_id = song.id; current_song = none }) refl)
  | inr e ↦
      rw (drop_untagged-present song o e)
        (notify-some prev song elapsed (record o { current_song = some song }) refl v (f e))
]

-- what a query has left, for an observer that had the song `prev` before it
record IsAnswered (prev : Option Song) (state : MpdState) (o : MpdObserver) : Type 0 where
  tracks : Tracks prev o.last_id
  connected_still : state ≡ state_pause → o.connected ≡ true
  kept : state ≡ state_pause → o.current_song ≡ prev
  found : state ≡ state_play → is_some o.current_song ≡ true
  fresh :
      state ≡ state_play → (song : Song) → o.current_song ≡ some song → IsFresh prev o.last_id song

play-Follows :
    (prev current : Option Song) (elapsed : ℕ) (o : MpdObserver)
    → is_some current ≡ true
    → Tracks prev o.last_id
    → ((song : Song) → current ≡ some song → IsFresh prev o.last_id song)
    → Follows prev (notify prev elapsed (drop_untagged current o))
play-Follows prev none elapsed o e v f = ground arith
play-Follows prev (some song) elapsed o e v f =
    drop_untagged-Follows prev song elapsed o v (f song refl)

pause-FollowsAll :
    (sent : Bool) (prev : Option Song) (elapsed : ℕ) (o : MpdObserver)
    → o.current_song ≡ prev
    → Tracks prev o.last_id
    → o.connected ≡ true
    → FollowsAll prev (update_in state_pause sent prev elapsed o)
unfolding update_in schedule_idle reconnect schedule_connect handle_error
pause-FollowsAll sent none elapsed o e v c = ground arith
pause-FollowsAll sent (some prev) elapsed o e v c = ground arith

update_in-FollowsAll :
    (state : MpdState) (sent : Bool) (prev : Option Song) (elapsed : ℕ) (o : MpdObserver)
    → IsAnswered prev state o
    → FollowsAll prev (update_in state sent prev elapsed o)
unfolding update_in
update_in-FollowsAll state_pause sent prev elapsed o v =
    pause-FollowsAll sent prev elapsed o (v.kept refl) v.tracks (v.connected_still refl)
update_in-FollowsAll state_play sent prev elapsed o v =
    finish_update-FollowsAll prev sent _
      (play-Follows prev o.current_song elapsed o (v.found refl) v.tracks (v.fresh refl))
update_in-FollowsAll state_other sent prev elapsed o v = finish_update-FollowsAll prev sent _ (
    notify-none prev elapsed (record o { current_song = none; last_id = no_id; was_paused = false })
      refl)

query_status-IsAnswered :
    (a : QueryAnswers) (status : Option (MpdState × ℕ)) (o : MpdObserver)
    → Tracks o.current_song o.last_id
    → o.connected ≡ true
    → ((song : Song) → a.song ≡ some song → IsFresh o.current_song o.last_id song)
    → let q = query_status a status o in IsAnswered o.current_song q.state q.observer
unfolding query_status query_song handle_error
query_status-IsAnswered a none o v c f = ground arith
query_status-IsAnswered a (some (state_play, ms)) o v c f = ground arith
query_status-IsAnswered a (some (state_pause, ms)) o v c f = ground arith
query_status-IsAnswered a (some (state_other, ms)) o v c f = ground arith

pub update-FollowsAll :
    (a : QueryAnswers) (sent : Bool) (o : MpdObserver)
    → Tracks o.current_song o.last_id
    → o.connected ≡ true
    → ((song : Song) → a.song ≡ some song → IsFresh o.current_song o.last_id song)
    → FollowsAll o.current_song (update a sent o)
unfolding update query_state
update-FollowsAll a sent o v c f =
    let q = query_status a a.status o in
    ground (
      arith,
      update_in-FollowsAll q.state sent o.current_song q.elapsed q.observer
          (query_status-IsAnswered a a.status o v c f),
    )
