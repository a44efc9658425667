-- ===== src/Scrobbler/State.antt =====
-- The members of class Scrobbler, ScrobblerConfig.hxx and the constants of the retry interval.
use mpdscribble.Base.{ℕ, ◌*◌, Bool, true, false, List, Option, Bytes, ltb, if◌then◌else◌}
use mpdscribble.Record.{Record, nanoseconds_per_second}

pub record ScrobblerConfig : Type 0 where
  pub name : Bytes
  pub url : Bytes
  pub username : Bytes
  pub password : Bytes
  pub journal : Bytes
  pub file : Bytes

pub data State : Type 0 where
  nothing handshaking ready submitting : State

abbrev pub is_nothing : State → Bool
is_nothing nothing = true
is_nothing handshaking = false
is_nothing ready = false
is_nothing submitting = false

abbrev pub is_handshaking : State → Bool
is_handshaking nothing = false
is_handshaking handshaking = true
is_handshaking ready = false
is_handshaking submitting = false

abbrev pub is_ready : State → Bool
is_ready nothing = false
is_ready handshaking = false
is_ready ready = true
is_ready submitting = false

abbrev pub is_submitting : State → Bool
is_submitting nothing = false
is_submitting handshaking = false
is_submitting ready = false
is_submitting submitting = true

abbrev pub seconds : ℕ → ℕ
seconds n = n * nanoseconds_per_second

abbrev pub min_interval : ℕ
min_interval = 60_000_000_000

abbrev pub max_interval : ℕ
max_interval = 480_000_000_000

abbrev pub first_interval : ℕ
first_interval = 1_000_000_000

-- MAX_SUBMIT_COUNT
abbrev pub max_submit_count : ℕ
max_submit_count = 10

-- A request to the server that has not been answered.
pub record Request : Type 0 where
  pub url : Bytes
  pub body : Bytes

-- `file` holds what was written to the log file, if that is open; a timer that is pending holds the
-- delay that it was scheduled with, in nanoseconds.
pub record Scrobbler : Type 0 where
  pub config : ScrobblerConfig
  pub file : Option Bytes
  pub state : State
  pub interval : ℕ
  pub http_request : Option Request
  pub handshake_timer : Option ℕ
  pub submit_timer : Option ℕ
  pub session : Bytes
  pub nowplay_url : Bytes
  pub submit_url : Bytes
  pub now_playing : Record
  pub queue : List Record
  pub pending : ℕ

-- Scrobbler::IncreaseInterval(), on the interval
unfoldable pub next_interval : ℕ → ℕ
next_interval i =
    let longer = if ltb i min_interval then min_interval else i * 2 in
    if ltb max_interval longer then max_interval else longer

abbrev pub increase_interval : Scrobbler → Scrobbler
increase_interval s = record s { interval = next_interval s.interval }

-- What the program gets from elsewhere: MD5 of libgcrypt, the escape of libcurl, and the version that
-- the build writes into config.h.
pub record Env : Type 0 where
  pub md5 : Bytes → Bytes
  pub curl_escape : Bytes → Option Bytes
  pub client_version : Bytes
