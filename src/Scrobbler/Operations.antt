-- ===== src/Scrobbler/Operations.antt =====
-- The operations of class Scrobbler.
use mpdscribble.Base.{
  ℕ, Bool, List, [], ◌∷◌, ◌++◌, Option, none, some, Bytes, if◌then◌else◌, not, ◌&&◌, ◌||◌, is_some,
  is_empty, ltb, drop, length, codes, c_str, check, ◌>>=◌, ◌>>◌,
}
use mpdscribble.Record.{Record, blank, record_is_defined}
use mpdscribble.Scrobbler.Requests.{handshake_request, now_playing_request, submission}
use mpdscribble.Scrobbler.Response.{
  SubmitResponseType, accepted, failed, handshake, parse_submit_response, parse_handshake_response,
  next_line, first_line,
}
use mpdscribble.Scrobbler.State.{
  Scrobbler, ScrobblerConfig, State, nothing, handshaking, ready, submitting, is_nothing,
  is_handshaking, is_ready, is_submitting, first_interval, increase_interval, Env,
}

-- Scrobbler::ScheduleHandshake()
unfoldable pub schedule_handshake : Scrobbler → Option Scrobbler
schedule_handshake s = do
  check (is_empty s.config.file)
  check (is_nothing s.state)
  check (not (is_some s.handshake_timer))
  some (record s { handshake_timer = some s.interval })

-- Scrobbler::ScheduleSubmit()
unfoldable pub schedule_submit : Scrobbler → Option Scrobbler
schedule_submit s = do
  check (not (is_some s.submit_timer))
  check (not (is_empty s.queue) || record_is_defined s.now_playing)
  some (record s { submit_timer = some s.interval })

-- The constructor, on the songs that journal_read() returned (none without a journal) and on whether
-- fopen() opened the log file. The outer `none` is a failed assertion, the inner one the exception.
unfoldable pub construct : ScrobblerConfig → List Record → Bool → Option (Option Scrobbler)
unfolding schedule_handshake
construct config loaded opened =
    let s : Scrobbler = record {
      config = config;
      file = none;
      state = nothing;
      interval = first_interval;
      http_request = none;
      handshake_timer = none;
      submit_timer = none;
      session = [];
      nowplay_url = [];
      submit_url = [];
      now_playing = blank;
      queue = if is_empty config.journal then [] else loaded;
      pending = 0;
    } in
    if is_empty config.file
    then schedule_handshake s >>= (λ t. some (some t))
    else if opened
    then some (some (record s { file = some [] }))
    else some none

-- scrobbler_queue_remove_oldest(): pop_front() on an empty list is a failed assertion here.
unfoldable pub remove_oldest : List Record → ℕ → Option (List Record)
remove_oldest queue count = do
  check (ltb 0 count)
  check (not (ltb (length queue) count))
  some (drop count queue)

module _ (env : Env) where
  -- Scrobbler::Handshake(), on what as_timestamp() returns
  unfoldable pub start_handshake : Bytes → Scrobbler → Option Scrobbler
  start_handshake timestr s = do
    check (is_empty s.config.file)
    some (record s {
      state = handshaking;
      http_request = some (handshake_request env s.config timestr);
    })

  -- Scrobbler::OnHandshakeTimer(); the event loop has taken the timer from its list.
  unfoldable pub on_handshake_timer : Bytes → Scrobbler → Option Scrobbler
  unfolding start_handshake
  on_handshake_timer timestr s = do
    check (is_empty s.config.file)
    check (is_nothing s.state)
    start_handshake timestr s

  -- Scrobbler::SendNowPlaying()
  unfoldable pub send_now_playing : Record → Scrobbler → Option Scrobbler
  send_now_playing song s = do
    check (is_empty s.config.file)
    check (is_ready s.state)
    some (record s { state = submitting; http_request = some (now_playing_request env s song) })

  -- the part of Scrobbler::Submit() behind its assertions, on the queue
  unfoldable pub submit_queue : List Record → Scrobbler → Option Scrobbler
  unfolding send_now_playing
  submit_queue [] s =
      if record_is_defined s.now_playing then send_now_playing s.now_playing s else some s
  submit_queue (song ∷ songs) s =
      let (post_data, count) = submission env s.session (song ∷ songs) in
      some (record s {
        state = submitting;
        pending = count;
        http_request = some (record { url = c_str s.submit_url; body = post_data.s });
      })

  -- Scrobbler::Submit()
  unfoldable pub submit : Scrobbler → Option Scrobbler
  submit s = do
    check (is_empty s.config.file)
    check (is_ready s.state)
    check (not (is_some s.submit_timer))
    submit_queue s.queue s

  -- Scrobbler::OnSubmitTimer(); the event loop has taken the timer from its list.
  unfoldable pub on_submit_timer : Scrobbler → Option Scrobbler
  on_submit_timer s = do check (is_ready s.state); submit s

  -- the part of Scrobbler::OnHandshakeResponse() behind a successful first line
  unfoldable pub open_session : Bytes → Scrobbler → Option Scrobbler
  unfolding schedule_handshake
  open_session response s =
      let (session, rest1) = next_line response in
      let (nowplay_url, rest2) = next_line rest1 in
      let (submit_url, rest3) = next_line rest2 in
      if is_empty nowplay_url || is_empty submit_url
      then schedule_handshake
          (increase_interval (record s { session = []; nowplay_url = []; submit_url = [] }))
      else submit (record s {
        session = session;
        nowplay_url = nowplay_url;
        submit_url = submit_url;
        state = ready;
        interval = first_interval;
      })

  -- the part of Scrobbler::OnHandshakeResponse() from its first line on
  unfoldable pub handshake_answered : Bytes × Bytes → Scrobbler → Option Scrobbler
  unfolding schedule_handshake
  handshake_answered (line, response) s =
      if parse_handshake_response line
      then open_session response s
      else schedule_handshake (increase_interval s)

  -- Scrobbler::OnHandshakeResponse()
  unfoldable pub on_handshake_response : Bytes → Scrobbler → Option Scrobbler
  on_handshake_response body s = do
    check (is_empty s.config.file)
    check (is_handshaking s.state)
    handshake_answered (next_line body) (record s { http_request = none; state = nothing })

  -- Scrobbler::OnHandshakeError()
  unfoldable pub on_handshake_error : Scrobbler → Option Scrobbler
  unfolding schedule_handshake
  on_handshake_error s = do
    check (is_empty s.config.file)
    check (is_handshaking s.state)
    schedule_handshake (increase_interval (record s { http_request = none; state = nothing }))

  -- what Scrobbler::OnSubmitResponse() drops when the server has accepted
  unfoldable pub forget_accepted : Scrobbler → Option Scrobbler
  unfolding remove_oldest
  forget_accepted s =
      if ltb 0 s.pending
      then remove_oldest s.queue s.pending
        >>= (λ rest. some (record s { queue = rest; pending = 0 }))
      else check (record_is_defined s.now_playing) >> some (record s { now_playing = blank })

  -- the cases of Scrobbler::OnSubmitResponse()
  unfoldable pub on_submit_result : SubmitResponseType → Scrobbler → Option Scrobbler
  unfolding schedule_submit schedule_handshake
  on_submit_result accepted s = do
    t ← forget_accepted (record s { interval = first_interval })
    submit t
  on_submit_result failed s = schedule_submit (increase_interval s)
  on_submit_result handshake s = schedule_handshake (record s { state = nothing })

  -- Scrobbler::OnSubmitResponse()
  unfoldable pub on_submit_response : Bytes → Scrobbler → Option Scrobbler
  on_submit_response body s = do
    check (is_empty s.config.file)
    check (is_submitting s.state)
    on_submit_result (parse_submit_response (first_line body))
        (record s { http_request = none; state = ready })

  -- Scrobbler::OnSubmitError()
  unfoldable pub on_submit_error : Scrobbler → Option Scrobbler
  unfolding schedule_submit
  on_submit_error s = do
    check (is_empty s.config.file)
    check (is_submitting s.state)
    schedule_submit (increase_interval (record s { http_request = none; state = ready }))

  unfoldable pub on_http_response_in : State → Bytes → Scrobbler → Option Scrobbler
  unfolding on_handshake_response on_submit_response
  on_http_response_in nothing body s = none
  on_http_response_in ready body s = none
  on_http_response_in handshaking body s = on_handshake_response body s
  on_http_response_in submitting body s = on_submit_response body s

  -- Scrobbler::OnHttpResponse()
  unfoldable pub on_http_response : Bytes → Scrobbler → Option Scrobbler
  unfolding on_http_response_in
  on_http_response body s = on_http_response_in s.state body s

  unfoldable pub on_http_error_in : State → Scrobbler → Option Scrobbler
  unfolding on_handshake_error on_submit_error
  on_http_error_in nothing s = none
  on_http_error_in ready s = none
  on_http_error_in handshaking s = on_handshake_error s
  on_http_error_in submitting s = on_submit_error s

  -- Scrobbler::OnHttpError()
  unfoldable pub on_http_error : Scrobbler → Option Scrobbler
  unfolding on_http_error_in
  on_http_error s = on_http_error_in s.state s

-- Scrobbler::ScheduleNowPlaying()
unfoldable pub schedule_now_playing : Record → Scrobbler → Option Scrobbler
unfolding schedule_submit
schedule_now_playing song s =
    if is_some s.file
    then some s
    else let t = record s { now_playing = song } in
      if is_ready s.state && not (is_some s.submit_timer) then schedule_submit t else some t

-- the line that Scrobbler::Push() prints, on what log_date() returns
unfoldable pub log_line : Bytes → Record → Bytes
log_line date song =
    date ++ (codes " " ++ (c_str song.artist ++ (codes " - " ++ (c_str song.track ++ b'\n' ∷ []))))

-- Scrobbler::Push() once `file` is known not to be open
unfoldable pub enqueue : Record → Scrobbler → Option Scrobbler
unfolding schedule_submit
enqueue song s =
    let t = record s { queue = s.queue ++ song ∷ [] } in
    if is_ready s.state && not (is_some s.submit_timer) then schedule_submit t else some t

-- Scrobbler::Push()
unfoldable pub push : Bytes → Record → Scrobbler → Option Scrobbler
unfolding enqueue
push date song s = elim s.file [
  | none ↦ enqueue song s
  | some written ↦ some (record s { file = some (written ++ log_line date song) })
]

-- the two halves of Scrobbler::SubmitNow() behind its assignment
unfoldable pub hurry_handshake : Scrobbler → Option Scrobbler
unfolding schedule_handshake
hurry_handshake s =
    if is_some s.handshake_timer
    then schedule_handshake (record s { handshake_timer = none })
    else some s

unfoldable pub hurry_submit : Scrobbler → Option Scrobbler
unfolding schedule_submit
hurry_submit s =
    if is_some s.submit_timer then schedule_submit (record s { submit_timer = none }) else some s

-- Scrobbler::SubmitNow()
unfoldable pub submit_now : Scrobbler → Option Scrobbler
unfolding hurry_handshake hurry_submit
submit_now s = do t ← hurry_handshake (record s { interval = first_interval }); hurry_submit t
