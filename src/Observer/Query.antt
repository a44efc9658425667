-- ===== src/Observer/Query.antt =====
-- MpdObserver::QueryState() and MpdObserver::Update().
use mpdscribble.Base.{
  ℕ, ◌*◌, Bool, true, false, not, List, [], ◌∷◌, ◌++◌, Option, none, some, ◌==◌, if◌then◌else◌,
  ◌>>=◌, ◌>>◌, check,
}
use mpdscribble.Observer.{
  MpdState, state_play, state_pause, state_other, Notification, started, playing, ended, paused,
  resumed, MpdObserver, no_id, handle_error, schedule_connect, schedule_idle,
}
use mpdscribble.Song.{Song, tags_missing}

-- The answers to one query: mpd_recv_status() with the state and the elapsed time in milliseconds,
-- mpd_response_next(), mpd_recv_song() and mpd_response_finish().
pub record QueryAnswers : Type 0 where
  pub status : Option (MpdState × ℕ)
  pub next : Bool
  pub song : Option Song
  pub finish : Bool

-- What QueryState() leaves: the observer with `*song_r` written, its return value and `elapsed_r`.
pub record Queried : Type 0 where
  pub observer : MpdObserver
  pub state : MpdState
  pub elapsed : ℕ

abbrev failed_query : MpdObserver → ℕ → Queried
failed_query o elapsed = record {
  observer = handle_error o;
  state = state_other;
  elapsed = elapsed;
}

-- from mpd_response_next() on
unfoldable pub query_song : QueryAnswers → ℕ → MpdObserver → Queried
unfolding handle_error
query_song a elapsed o = if not a.next then failed_query o elapsed else elim a.song [
  | none ↦
      if not a.finish
      then failed_query o elapsed
      else record { observer = o; state = state_other; elapsed = elapsed }
  | some song ↦ if not a.finish then failed_query o elapsed else record {
    observer = record o { current_song = some song };
    state = state_play;
    elapsed = elapsed;
  }
]

-- from the received status on; the time is in nanoseconds
unfoldable pub query_status : QueryAnswers → Option (MpdState × ℕ) → MpdObserver → Queried
unfolding query_song handle_error
query_status a none o = failed_query o 0
query_status a (some (state_play, ms)) o = query_song a (ms * 1_000_000) o
query_status a (some (state_pause, ms)) o =
    if not a.finish
    then failed_query o (ms * 1_000_000)
    else record { observer = o; state = state_pause; elapsed = ms * 1_000_000 }
query_status a (some (state_other, ms)) o =
    if not a.finish
    then failed_query o (ms * 1_000_000)
    else record { observer = o; state = state_other; elapsed = ms * 1_000_000 }

-- MpdObserver::QueryState()
unfoldable pub query_state : QueryAnswers → MpdObserver → Option Queried
query_state a o = do check o.connected; some (query_status a a.status o)

-- the branch of Update() for a state other than PAUSE that leaves `current_song`, on that member
unfoldable pub drop_untagged : Option Song → MpdObserver → MpdObserver
drop_untagged none o = o
drop_untagged (some song) o =
    if tags_missing song
    then record o { last_id = song.id; current_song = none }
    else record o { current_song = some song }

abbrev is_last : Option Song → ℕ → Bool
is_last none id = false
is_last (some song) id = song.id == id

-- "if (was_paused)"
unfoldable pub notify_resumed : MpdObserver → MpdObserver × List Notification
notify_resumed o =
    if o.was_paused
    then (
      record o { was_paused = false },
      if is_last o.current_song o.last_id then resumed ∷ [] else [],
    )
    else (o, [])

-- "submit the previous song"
unfoldable pub notify_ended : Option Song → MpdObserver → MpdObserver × List Notification
notify_ended none o = (o, [])
notify_ended (some prev) o =
    if not (is_last o.current_song prev.id)
    then (record o { love = false }, ended prev o.love ∷ [])
    else (o, [])

-- "if (current_song != nullptr)", on that member
unfoldable pub notify_current : Option Song → ℕ → MpdObserver → MpdObserver × List Notification
notify_current none elapsed o = (o, [])
notify_current (some song) elapsed o =
    if not (song.id == o.last_id)
    then (record o { last_id = song.id }, started song ∷ [])
    else (o, playing song elapsed ∷ [])

-- the three in their order
unfoldable pub notify : Option Song → ℕ → MpdObserver → MpdObserver × List Notification
unfolding notify_resumed notify_ended notify_current
notify prev elapsed o =
    let (o1, n1) = notify_resumed o in
    let (o2, n2) = notify_ended prev o1 in
    let (o3, n3) = notify_current o2.current_song elapsed o2 in (o3, n1 ++ (n2 ++ n3))

abbrev pub Outcome : Type 0
Outcome = Option (MpdObserver × List Notification)

abbrev with_notifications : List Notification → Option MpdObserver → Outcome
with_notifications ns none = none
with_notifications ns (some o) = some (o, ns)

-- the end of Update(): ScheduleConnect() without a connection, else ScheduleIdle()
unfoldable pub finish_update : Bool → MpdObserver × List Notification → Outcome
unfolding schedule_connect schedule_idle
finish_update sent (o, ns) =
    with_notifications ns (if o.connected then schedule_idle sent o else schedule_connect o)

-- the branches of Update() on the state; `prev` is the song before the query
unfoldable pub update_in : MpdState → Bool → Option Song → ℕ → MpdObserver → Outcome
unfolding finish_update notify drop_untagged
update_in state_pause sent prev elapsed o =
    with_notifications (if not o.was_paused then paused ∷ [] else [])
      (schedule_idle sent (record o { was_paused = true }))
update_in state_play sent prev elapsed o =
    finish_update sent (notify prev elapsed (drop_untagged o.current_song o))
update_in state_other sent prev elapsed o =
    finish_update sent
      (notify prev elapsed (record o { current_song = none; last_id = no_id; was_paused = false }))

-- MpdObserver::Update(), on the answers to the query and on what mpd_send_idle_mask() returns
unfoldable pub update : QueryAnswers → Bool → MpdObserver → Outcome
unfolding query_state
update a sent o = do q ← query_state a o; update_in q.state sent o.current_song q.elapsed q.observer

-- MpdObserver::OnUpdateTimer(); the event loop has taken the event from its list.
unfoldable pub on_update_timer : QueryAnswers → Bool → MpdObserver → Outcome
on_update_timer a sent o = update a sent (record o { update_timer = false })
