-- ===== src/Scrobbler/Session.antt =====
-- How a session begins and ends: the constructor, the answer to a handshake, and a notification that is
-- overtaken.
use mpdscribble.Base.{
  ◌≡◌, refl, Bool, true, false, ◌||◌, List, [], ◌∷◌, ◌++◌, none, some, arith, Bytes, if◌then◌else◌,
  is_empty, starts_with, codes, c_str, ◌>>=◌, ◌==◌,
}
use mpdscribble.Record.{Record, blank, record_is_defined}
use mpdscribble.Scrobbler.Delivery.{InFlight}
use mpdscribble.Scrobbler.Events.{plays, answers, step}
use mpdscribble.Scrobbler.Invariant.{IsOnline}
use mpdscribble.Scrobbler.Operations.{
  construct, on_handshake_response, handshake_answered, open_session, submit, on_submit_result,
  forget_accepted, submit_queue,
}
use mpdscribble.Scrobbler.Response.{
  next_line, first_line, parse_submit_response, parse_handshake_response, accepted,
}
use mpdscribble.Scrobbler.State.{
  Scrobbler, ScrobblerConfig, Env, nothing, ready, handshaking, submitting, first_interval,
  next_interval,
}
use mpdscribble.Text.Strip.{split}

-- Without a log file the constructor fails no assertion; it queues the songs of the journal, if there
-- is one, waits a second for its first handshake, and starts in a state of the invariant.
pub construct-IsOnline :
    (env : Env) (config : ScrobblerConfig) (loaded : List Record) (opened : Bool)
    → config.file ≡ []
    → (s : Scrobbler) × (construct config loaded opened ≡ some (some s))
      × (s.queue ≡ (if is_empty config.journal then [] else loaded))
      × (s.handshake_timer ≡ some first_interval)
      × IsOnline s
      × InFlight env s
unfolding construct
construct-IsOnline env config loaded opened e = (
  record {
    config = config;
    file = none;
    state = nothing;
    interval = first_interval;
    http_request = none;
    handshake_timer = some first_interval;
    submit_timer = none;
    session = [];
    nowplay_url = [];
    submit_url = [];
    now_playing = blank;
    queue = if is_empty config.journal then [] else loaded;
    pending = 0;
  },
  ground arith,
  refl,
  refl,
  ground arith,
  ground arith,
)

-- the bytes of a line have no newline
abbrev pub IsLine : Bytes → Type 0
IsLine [] = Unit
IsLine (c ∷ line) = ((c == b'\n') ≡ false) × IsLine line

split-IsLine :
    (line rest : Bytes) → IsLine line → split (line ++ (b'\n' ∷ rest)) b'\n' ≡ some (line, rest)
unfolding split
split-IsLine [] rest h = refl
split-IsLine (c ∷ line) rest h = ground (arith, split-IsLine line rest h.1)

next_line-IsLine :
    (line rest : Bytes) → IsLine line → next_line (line ++ (b'\n' ∷ rest)) ≡ (line, rest)
unfolding next_line
next_line-IsLine line rest h = rw (split-IsLine line rest h, next_line)

-- The answer to a handshake, of four lines, the first of which begins with "OK", opens the session
-- that the other three name, resets the delay, and submits at once; if one of the two URLs is empty,
-- the session is dropped and the next handshake is scheduled with a longer delay.
pub on_handshake_response_session :
    (env : Env) (s : Scrobbler) (status session nowplay_url submit_url rest : Bytes)
    → s.config.file ≡ []
    → s.state ≡ handshaking
    → s.handshake_timer ≡ none
    → IsLine status
    → IsLine session
    → IsLine nowplay_url
    → IsLine submit_url
    → starts_with (c_str status) (codes "OK") ≡ true
    → on_handshake_response env
        (status
          ++ (b'\n'
              ∷ (session ++ (b'\n' ∷ (nowplay_url ++ (b'\n' ∷ (submit_url ++ (b'\n' ∷ rest))))))))
        s
      ≡ (if is_empty nowplay_url || is_empty submit_url
          then some (record s {
            http_request = none;
            state = nothing;
            session = [];
            nowplay_url = [];
            submit_url = [];
            interval = next_interval s.interval;
            handshake_timer = some (next_interval s.interval);
          })
          else submit env (record s {
            http_request = none;
            state = ready;
            session = session;
            nowplay_url = nowplay_url;
            submit_url = submit_url;
            interval = first_interval;
          }))
unfolding on_handshake_response handshake_answered open_session parse_handshake_response
on_handshake_response_session env s status session nowplay_url submit_url rest e h t l0 l1 l2 l3
      ok =
    ground (
      arith,
      next_line-IsLine status
          (session ++ (b'\n' ∷ (nowplay_url ++ (b'\n' ∷ (submit_url ++ (b'\n' ∷ rest)))))) l0,
      next_line-IsLine session (nowplay_url ++ (b'\n' ∷ (submit_url ++ (b'\n' ∷ rest)))) l1,
      next_line-IsLine nowplay_url (submit_url ++ (b'\n' ∷ rest)) l2,
      next_line-IsLine submit_url rest l3,
    )

-- A "now playing" song that is set while the notification of an earlier one is under way, with no
-- song to submit, is forgotten when that earlier one is accepted: it has been sent to nobody, and no
-- timer is left to send it.
pub now_playing_forgotten :
    (env : Env) (s : Scrobbler) (song : Record) (body : Bytes)
    → IsOnline s
    → s.state ≡ submitting
    → s.pending ≡ 0
    → s.queue ≡ []
    → record_is_defined song ≡ true
    → parse_submit_response (first_line body) ≡ accepted
    → (step env (plays song) s >>= step env (answers body))
      ≡ some (record s {
        state = ready;
        http_request = none;
        interval = first_interval;
        now_playing = blank;
      })
unfolding step on_submit_result forget_accepted submit submit_queue
now_playing_forgotten env s song body v e p q d a = ground arith
