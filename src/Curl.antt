-- ===== src/Curl.antt =====
-- lib/curl/Request.cxx, lib/curl/Request.hxx, lib/curl/Handler.hxx and what lib/curl/Global.cxx does
-- with a finished request. libcurl itself is not modelled: it calls write_function() with what comes in,
-- and reports a code.
pub mod Transfer
mod Tests
use mpdscribble.Base.{
  ℕ, ◌*◌, Bool, true, false, List, [], ◌∷◌, ◌++◌, Option, none, some, Bytes, length, is_empty, ltb,
  if◌then◌else◌, not, ◌&&◌,
}
use mpdscribble.Base.Int.{ℤ, pos, negsuc}
use mpdscribble.Event.Loop.{Command, schedule_coarse, cancel_coarse, schedule_defer}
use mpdscribble.Scrobbler.Events.{Event, answers, fails}

-- MAX_RESPONSE_BODY
abbrev pub max_response_body : ℕ
max_response_body = 8192

-- class CurlRequest, without the handle of libcurl; `error` is what libcurl writes to the buffer
pub record CurlRequest : Type 0 where
  pub request_body : Bytes
  pub response_body : Bytes
  pub error : Bytes

-- `CURLcode`, as far as the code tells them apart
pub data CurlCode : Type 0 where
  curle_ok curle_write_error curle_other : CurlCode

abbrev pub is_ok : CurlCode → Bool
is_ok curle_ok = true
is_ok curle_write_error = false
is_ok curle_other = false

abbrev is_write_error : CurlCode → Bool
is_write_error curle_ok = false
is_write_error curle_write_error = true
is_write_error curle_other = false

-- The exceptions of CheckResponse().
pub data HttpError : Type 0 where
  body_too_large : HttpError
  curl_failed : Bytes → HttpError

-- class HttpResponseHandler: the call of one of its methods
pub data HandlerCall : Type 0 where
  on_http_response : Bytes → HandlerCall
  on_http_error : HttpError → HandlerCall

-- the constructor, and whether it makes a POST request
unfoldable pub make_request : Bytes → CurlRequest × Bool
make_request body =
    (record { request_body = body; response_body = []; error = [] }, not (is_empty body))

-- WriteFunction(): what it returns, and the request; `chunk` has `size * nmemb` bytes
unfoldable pub write_function : Bytes → CurlRequest → ℕ × CurlRequest
write_function chunk request =
    let body = request.response_body ++ chunk in
    (
      if ltb max_response_body (length body) then 0 else length chunk,
      record request { response_body = body },
    )

-- CheckResponse(): the exception it throws
unfoldable pub check_response : CurlCode → CurlRequest → Option HttpError
check_response result request =
    if is_write_error result && ltb max_response_body (length request.response_body)
    then some body_too_large
    else if not (is_ok result)
    then some (curl_failed request.error)
    else none

-- Done(): the one call of the handler
unfoldable pub done : CurlCode → CurlRequest → HandlerCall
unfolding check_response
done result request = elim (check_response result request) [
  | none ↦ on_http_response request.response_body
  | some e ↦ on_http_error e
]

-- The handler is a scrobbler.
abbrev pub event_of : HandlerCall → Event
event_of (on_http_response body) = answers body
event_of (on_http_error e) = fails

-- The timer and the deferred event of class CurlGlobal.
abbrev pub timeout_event : ℕ
timeout_event = 0

abbrev pub defer_read_info : ℕ
defer_read_info = 0

-- UpdateTimeout(): what it asks of the event loop
unfoldable pub update_timeout : ℤ → List Command
update_timeout (negsuc n) = cancel_coarse timeout_event ∷ []
update_timeout (pos timeout_ms) =
    schedule_coarse timeout_event ((if ltb timeout_ms 1 then 1 else timeout_ms) * 1000000) ∷ []

-- SocketAction(): libcurl calls TimerFunction() with some timeouts, then ReadInfo() is deferred.
unfoldable pub socket_action : List ℤ → List Command
unfolding update_timeout
socket_action [] = schedule_defer defer_read_info ∷ []
socket_action (timeout ∷ timeouts) = update_timeout timeout ++ socket_action timeouts
