-- ===== src/Program/Naming.antt =====
-- The observer only tells of songs that have an artist and a title.
use mpdscribble.Base.{
  ℕ, ◌≡◌, Bool, true, false, List, [], ◌∷◌, ◌++◌, Option, none, some, arith, is_some, Bool-cases,
  inl, inr,
}
use mpdscribble.Instance.Listener.{NamesSong}
use mpdscribble.Instance.Submission.{IsNamed}
use mpdscribble.Observer.{
  MpdState, state_play, state_pause, state_other, Notification, MpdObserver, no_id, schedule_idle,
  schedule_connect, handle_error, reconnect,
}
use mpdscribble.Observer.Query.{
  QueryAnswers, Outcome, update, update_in, query_state, query_status, query_song, finish_update,
  notify, notify_current, notify_ended, notify_resumed, drop_untagged,
}
use mpdscribble.Song.{Song, artist, tags_missing}
use mpdscribble.Program.{HasText}

IsNamed-tags : (song : Song) → HasText song → tags_missing song ≡ false → IsNamed song
unfolding artist
IsNamed-tags song t h = ground arith

abbrev pub NamedIf : Option Song → Type 0
NamedIf none = Unit
NamedIf (some song) = IsNamed song

abbrev pub NamesAll : List Notification → Type 0
NamesAll [] = Unit
NamesAll (n ∷ ns) = NamesSong n × NamesAll ns

NamesAll-++ : (ns ms : List Notification) → NamesAll ns → NamesAll ms → NamesAll (ns ++ ms)
NamesAll-++ [] ms v w = w
NamesAll-++ (n ∷ ns) ms (u, v) w = (u, NamesAll-++ ns ms v w)

abbrev pub Names : MpdObserver × List Notification → Type 0
Names (o, ns) = NamedIf o.current_song × NamesAll ns

abbrev pub NamesIf : Outcome → Type 0
NamesIf none = Unit
NamesIf (some r) = Names r

notify_ended-Names :
    (prev : Option Song) (o : MpdObserver)
    → NamedIf prev
    → NamedIf o.current_song
    → Names (notify_ended prev o)
unfolding notify_ended
notify_ended-Names none o p c = (c, tt)
notify_ended-Names (some prev) o p c = ground arith

notify_current-Names :
    (current : Option Song) (elapsed : ℕ) (o : MpdObserver)
    → NamedIf current
    → NamedIf o.current_song
    → Names (notify_current current elapsed o)
unfolding notify_current
notify_current-Names none elapsed o p c = (c, tt)
notify_current-Names (some song) elapsed o p c = ground arith

notify_resumed-Names : (o : MpdObserver) → NamedIf o.current_song → Names (notify_resumed o)
unfolding notify_resumed
notify_resumed-Names o c = ground arith

notify-Names :
    (prev : Option Song) (elapsed : ℕ) (o : MpdObserver)
    → NamedIf prev
    → NamedIf o.current_song
    → Names (notify prev elapsed o)
unfolding notify
notify-Names prev elapsed o p c =
    let (o1, n1) = notify_resumed o in
    let (c1, v1) = notify_resumed-Names o c in
    let (o2, n2) = notify_ended prev o1 in
    let (c2, v2) = notify_ended-Names prev o1 p c1 in
    let (o3, n3) = notify_current o2.current_song elapsed o2 in
    let (c3, v3) = notify_current-Names o2.current_song elapsed o2 c2 c2 in
    (c3, NamesAll-++ n1 (n2 ++ n3) v1 (NamesAll-++ n2 n3 v2 v3))

-- what is known of the song that a query has returned
abbrev pub TextsIf : Option Song → Type 0
TextsIf none = Unit
TextsIf (some song) = HasText song

drop_untagged-named :
    (song : Song) (o : MpdObserver)
    → HasText song
    → NamedIf (drop_untagged (some song) o).current_song
unfolding drop_untagged
drop_untagged-named song o t = elim (Bool-cases (tags_missing song)) [
  | inl e ↦ rw e tt
  | inr e ↦ rw e (IsNamed-tags song t e)
]

finish_update-NamesIf :
    (sent : Bool) (r : MpdObserver × List Notification) → Names r → NamesIf (finish_update sent r)
unfolding finish_update schedule_idle schedule_connect handle_error reconnect
finish_update-NamesIf sent (o, ns) v = ground arith

-- what a query has left
abbrev Answered : Option Song → MpdState → MpdObserver → Type 0
Answered prev state_play o = (is_some o.current_song ≡ true) × TextsIf o.current_song
Answered prev state_pause o = o.current_song ≡ prev
Answered prev state_other o = Unit

play-NamesIf :
    (sent : Bool) (prev current : Option Song) (elapsed : ℕ) (o : MpdObserver)
    → NamedIf prev
    → is_some current ≡ true
    → TextsIf current
    → NamesIf (finish_update sent (notify prev elapsed (drop_untagged current o)))
play-NamesIf sent prev none elapsed o p e t = absurd (ground arith)
play-NamesIf sent prev (some song) elapsed o p e t =
    finish_update-NamesIf sent _
      (notify-Names prev elapsed (drop_untagged (some song) o) p (drop_untagged-named song o t))

pause-NamesIf :
    (sent : Bool) (prev : Option Song) (elapsed : ℕ) (o : MpdObserver)
    → NamedIf o.current_song
    → NamesIf (update_in state_pause sent prev elapsed o)
unfolding update_in schedule_idle schedule_connect handle_error reconnect
pause-NamesIf sent prev elapsed o p = ground arith

update_in-NamesIf :
    (state : MpdState) (sent : Bool) (prev : Option Song) (elapsed : ℕ) (o : MpdObserver)
    → NamedIf prev
    → Answered prev state o
    → NamesIf (update_in state sent prev elapsed o)
unfolding update_in
update_in-NamesIf state_play sent prev elapsed o p (e, t) =
    play-NamesIf sent prev o.current_song elapsed o p e t
update_in-NamesIf state_pause sent prev elapsed o p e = pause-NamesIf sent prev elapsed o (rw e p)
update_in-NamesIf state_other sent prev elapsed o p e = finish_update-NamesIf sent _ (
    notify-Names prev elapsed
      (record o { current_song = none; last_id = no_id; was_paused = false }) p tt)

query_status-Answered :
    (a : QueryAnswers) (status : Option (MpdState × ℕ)) (o : MpdObserver)
    → TextsIf a.song
    → let q = query_status a status o in Answered o.current_song q.state q.observer
unfolding query_status query_song handle_error
query_status-Answered a none o t = ground arith
query_status-Answered a (some (state_play, ms)) o t = ground arith
query_status-Answered a (some (state_pause, ms)) o t = ground arith
query_status-Answered a (some (state_other, ms)) o t = ground arith

pub update-NamesIf :
    (a : QueryAnswers) (sent : Bool) (o : MpdObserver)
    → TextsIf a.song
    → NamedIf o.current_song
    → NamesIf (update a sent o)
unfolding update query_state
update-NamesIf a sent o t c =
    let q = query_status a a.status o in
    ground (
      arith,
      update_in-NamesIf q.state sent o.current_song q.elapsed q.observer c
          (query_status-Answered a a.status o t),
    )
