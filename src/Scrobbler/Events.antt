-- ===== src/Scrobbler/Events.antt =====
-- What happens to a scrobbler: calls of its public methods, expired timers, and the server's answers.
use mpdscribble.Base.{Bool, true, Option, none, Bytes, is_some}
use mpdscribble.Record.{Record, record_is_defined}
use mpdscribble.Scrobbler.Operations.{
  push, schedule_now_playing, submit_now, on_handshake_timer, on_submit_timer, on_http_response,
  on_http_error,
}
use mpdscribble.Scrobbler.State.{Scrobbler, Env}

pub data Event : Type 0 where
  pushes : Bytes → Record → Event
  plays : Record → Event
  hurries : Event
  handshake_due : Bytes → Event
  submit_due : Event
  answers : Bytes → Event
  fails : Event

-- Which events can come: a timer expires while it is pending, an answer comes for a request, and
-- the song that is playing has an artist and a title.
abbrev pub enabled : Event → Scrobbler → Bool
enabled (pushes date song) s = true
enabled (plays song) s = record_is_defined song
enabled hurries s = true
enabled (handshake_due timestr) s = is_some s.handshake_timer
enabled submit_due s = is_some s.submit_timer
enabled (answers body) s = is_some s.http_request
enabled fails s = is_some s.http_request

module _ (env : Env) where
  -- CoarseTimerEvent: TimerWheel::Run() takes a timer from its list before the callback.
  unfoldable pub step : Event → Scrobbler → Option Scrobbler
  unfolding push schedule_now_playing submit_now on_handshake_timer on_submit_timer on_http_response
      on_http_error
  step (pushes date song) s = push date song s
  step (plays song) s = schedule_now_playing song s
  step hurries s = submit_now s
  step (handshake_due timestr) s =
      on_handshake_timer env timestr (record s { handshake_timer = none })
  step submit_due s = on_submit_timer env (record s { submit_timer = none })
  step (answers body) s = on_http_response env body s
  step fails s = on_http_error env s
