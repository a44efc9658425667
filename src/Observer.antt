-- ===== src/Observer.antt =====
-- MpdObserver.hxx and MpdObserver.cxx: the client of MPD. What libmpdclient answers is an argument of
-- each handler, the calls of the listener are part of its result, and a failed assertion is `none`.
pub mod Query
pub mod Timers
pub mod Protocol
pub mod Runs
mod Tests
use mpdscribble.Base.{
  ℕ, zero, suc, Bool, true, false, not, ◌&&◌, ◌||◌, List, [], ◌∷◌, ◌++◌, Option, none, some, Bytes,
  ltb, leb, ◌==◌, if◌then◌else◌, is_some, ◌>>=◌, ◌>>◌, check, codes, same,
}
use mpdscribble.Song.{Song, tags_missing}

-- `enum mpd_state`; the last stands for the values that are neither PAUSE nor PLAY
pub data MpdState : Type 0 where
  state_play state_pause state_other : MpdState

-- A call of the listener.
pub data Notification : Type 0 where
  started : Song → Notification
  playing : Song → ℕ → Notification
  ended : Song → Bool → Notification
  paused resumed : Notification

-- `connected` tells whether `connection` is not null, `update_timer` and `socket` whether the event is
-- pending and whether the socket is watched; the connect timer holds its delay in seconds.
pub record MpdObserver : Type 0 where
  pub connected : Bool
  pub idle_notified : Bool
  pub last_id : ℕ
  pub current_song : Option Song
  pub was_paused : Bool
  pub love : Bool
  pub subscribed : Bool
  pub connect_timer : Option ℕ
  pub update_timer : Bool
  pub socket : Bool

-- `unsigned last_id = -1`
abbrev pub no_id : ℕ
no_id = 4_294_967_295

-- MpdObserver::MpdObserver()
abbrev pub first_observer : MpdObserver
first_observer = record {
  connected = false;
  idle_notified = false;
  last_id = no_id;
  current_song = none;
  was_paused = false;
  love = false;
  subscribed = false;
  connect_timer = some 0;
  update_timer = false;
  socket = false;
}

-- MpdObserver::HandleError()
unfoldable pub handle_error : MpdObserver → MpdObserver
handle_error o = record o { connected = false; socket = false }

-- MpdObserver::ScheduleConnect()
unfoldable pub schedule_connect : MpdObserver → Option MpdObserver
schedule_connect o = do check (not o.connected); some (record o { connect_timer = some 15 })

-- HandleError() and ScheduleConnect(), as in OnIdleResponse() and ScheduleIdle()
unfoldable pub reconnect : MpdObserver → Option MpdObserver
unfolding handle_error schedule_connect
reconnect o = schedule_connect (handle_error o)

-- MpdObserver::ScheduleUpdate()
abbrev pub schedule_update : MpdObserver → MpdObserver
schedule_update o = record o { update_timer = true }

-- MpdObserver::ScheduleIdle(), on what mpd_send_idle_mask() returns
unfoldable pub schedule_idle : Bool → MpdObserver → Option MpdObserver
unfolding reconnect
schedule_idle sent o = do
  check o.connected
  let p = record o { idle_notified = false }
  elim sent [ true ↦ some p | false ↦ reconnect p ]

-- The answers while a connection is made: whether mpd_connection_new() succeeds, whether the server is
-- at version 0.16.0 or later, what mpd_run_subscribe() returns, and whether an error of it is cleared.
pub record ConnectAnswers : Type 0 where
  pub success : Bool
  pub new_enough : Bool
  pub subscribes : Bool
  pub cleared : Bool

-- MpdObserver::Connect(); the flag is what it returns
unfoldable pub connect : ConnectAnswers → MpdObserver → Option (MpdObserver × Bool)
unfolding handle_error
connect a o = do
  check (not o.connected)
  if not a.success
      then some (handle_error (record o { connected = true }), false)
      else if not a.new_enough
      then some (record o { connected = false }, false)
      else let p = record o { connected = true; socket = true; subscribed = a.subscribes } in
        if not a.subscribes && not a.cleared then some (handle_error p, false) else some (p, true)

-- MpdObserver::OnConnectTimer(); the event loop has taken the timer from its list.
unfoldable pub on_connect_timer : ConnectAnswers → MpdObserver → Option MpdObserver
unfolding connect schedule_connect
on_connect_timer a o =
    connect a (record o { connect_timer = none })
    >>= (λ (p, connected). if connected then some (schedule_update p) else schedule_connect p)
