-- ===== src/Scrobbler/Tests.antt =====
-- Runs of a scrobbler, and its theorems at concrete inputs.
use mpdscribble.Base.{Bytes, ◌≡◌, refl, false, [], ◌∷◌, ◌++◌, none, some, arith, codes, ◌>>=◌, ◌≤◌}
use mpdscribble.Base.Int.{pos}
use mpdscribble.Record.{Record, blank}
use mpdscribble.Scrobbler.Backoff.{next_interval_backoff}
use mpdscribble.Scrobbler.Batch.{batch_request, submit_queue_sends}
use mpdscribble.Scrobbler.Delivery.{InFlight, Run, here, next, history_fifo, step-fifo}
use mpdscribble.Scrobbler.Drain.{Greets, Drained, serve_all, serve_all_drains}
use mpdscribble.Scrobbler.Events.{pushes, plays, answers, step}
use mpdscribble.Scrobbler.Invariant.{IsOnline, Returns, step-IsOnline}
use mpdscribble.Scrobbler.LogFile.{IsLogging, step-IsLogging}
use mpdscribble.Scrobbler.Operations.{
  construct, on_handshake_response, submit, submit_queue, log_line,
}
use mpdscribble.Scrobbler.Response.{
  parse_submit_response, first_line, parse_handshake_response, next_line,
}
use mpdscribble.Scrobbler.Session.{
  construct-IsOnline, on_handshake_response_session, now_playing_forgotten,
}
use mpdscribble.Scrobbler.State.{
  Scrobbler, ScrobblerConfig, Env, nothing, ready, handshaking, submitting, first_interval,
  next_interval, max_interval,
}

abbrev env : Env
env = record { md5 = λ s. s; curl_escape = λ s. some s; client_version = codes "0.25" }

abbrev config : ScrobblerConfig
config = record {
  name = codes "last.fm";
  url = codes "http://post/";
  username = codes "u";
  password = codes "p";
  journal = codes "/j";
  file = [];
}

abbrev song : Record
song = record blank { artist = codes "A"; track = codes "T"; length = pos 200_000_000_000 }

abbrev other_song : Record
other_song = record blank { artist = codes "B"; track = codes "U" }

abbrev waiting : Scrobbler
waiting = record {
  config = config;
  file = none;
  state = nothing;
  interval = first_interval;
  http_request = none;
  handshake_timer = some first_interval;
  submit_timer = none;
  session = [];
  nowplay_url = [];
  submit_url = [];
  now_playing = blank;
  queue = song ∷ [];
  pending = 0;
}

abbrev shaking : Scrobbler
shaking = record waiting {
  state = handshaking;
  handshake_timer = none;
  http_request = some (record { url = codes "http://post/"; body = [] });
}

abbrev sending : Scrobbler
sending = record shaking {
  state = submitting;
  session = codes "sid";
  nowplay_url = codes "np";
  submit_url = codes "sub";
  pending = 1;
  http_request = some (batch_request env (codes "sub") (codes "sid") (song ∷ []));
}

abbrev notifying : Scrobbler
notifying = record sending { queue = []; pending = 0; now_playing = song }

waiting-IsOnline : IsOnline waiting
waiting-IsOnline = ground arith

sending-IsOnline : IsOnline sending
sending-IsOnline = ground arith

notifying-IsOnline : IsOnline notifying
notifying-IsOnline = ground arith

sending-InFlight : InFlight env sending
sending-InFlight h = refl

step-IsOnline_example : Returns IsOnline (step env (answers (codes "BADSESSION\n")) sending)
step-IsOnline_example =
    step-IsOnline env (answers (codes "BADSESSION\n")) sending sending-IsOnline refl

construct-IsOnline_example :
    (s : Scrobbler) × (construct config (song ∷ []) false ≡ some (some s))
    × (s.queue ≡ song ∷ [])
    × (s.handshake_timer ≡ some first_interval)
    × IsOnline s
    × InFlight env s
construct-IsOnline_example = construct-IsOnline env config (song ∷ []) false refl

next_interval_backoff_example :
    (first_interval ≤ next_interval first_interval)
    × (60_000_000_000 ≤ next_interval first_interval)
    × (next_interval first_interval ≤ max_interval)
    × (next_interval (next_interval (next_interval (next_interval first_interval))) ≡ max_interval)
next_interval_backoff_example = next_interval_backoff first_interval (omega arith) (omega arith)

submit_queue_sends_example :
    submit_queue env (song ∷ []) (record waiting { state = ready })
    ≡ some (record waiting {
      state = submitting;
      pending = 1;
      http_request = some (batch_request env [] [] (song ∷ []));
    })
submit_queue_sends_example = submit_queue_sends env song [] (record waiting { state = ready })

abbrev drained : Scrobbler
drained = record sending { state = ready; http_request = none; queue = []; pending = 0 }

step_accepted : step env (answers (codes "OK\n")) sending ≡ some drained
unfolding step submit parse_submit_response first_line
    mpdscribble.Scrobbler.Operations.on_submit_result mpdscribble.Scrobbler.Operations.submit_queue
    mpdscribble.Scrobbler.Operations.forget_accepted mpdscribble.Text.Strip.split
step_accepted = refl

step-fifo_example : (song ∷ [] ≡ (song ∷ []) ++ []) × InFlight env drained
unfolding parse_submit_response first_line mpdscribble.Text.Strip.split
step-fifo_example =
    step-fifo env (answers (codes "OK\n")) sending drained sending-IsOnline sending-InFlight
      step_accepted

sending_history : Run env sending [] (song ∷ []) drained
unfolding parse_submit_response first_line mpdscribble.Text.Strip.split
sending_history = next (answers (codes "OK\n")) here refl step_accepted

history_fifo_example :
    ((song ∷ []) ++ [] ≡ (song ∷ []) ++ []) × IsOnline drained × InFlight env drained
history_fifo_example = history_fifo env sending-IsOnline sending-InFlight sending_history

on_handshake_response_session_example :
    on_handshake_response env (codes "OK\nsid\nnp\nsub\n") shaking
    ≡ submit env (record shaking {
      http_request = none;
      state = ready;
      session = codes "sid";
      nowplay_url = codes "np";
      submit_url = codes "sub";
    })
on_handshake_response_session_example =
    on_handshake_response_session env shaking (codes "OK") (codes "sid") (codes "np") (codes "sub")
      [] refl refl refl (ground arith) (ground arith) (ground arith) (ground arith) refl

now_playing_forgotten_example :
    (step env (plays other_song) notifying >>= step env (answers (codes "OK\n")))
    ≡ some (record notifying { state = ready; http_request = none; now_playing = blank })
unfolding parse_submit_response first_line mpdscribble.Text.Strip.split
now_playing_forgotten_example =
    now_playing_forgotten env notifying other_song (codes "OK\n") notifying-IsOnline refl refl refl
      refl refl

abbrev logging : Scrobbler
logging = record waiting { file = some []; handshake_timer = none }

step-IsLogging_example :
    (t : Scrobbler) × (step env (pushes (codes "now") song) logging ≡ some t)
    × IsLogging t (log_line (codes "now") song)
    × (t.queue ≡ song ∷ [])
step-IsLogging_example =
    step-IsLogging env (pushes (codes "now") song) logging []
      (record { open_file = refl; no_handshake = refl; no_submission = refl; no_request = refl })
      refl

abbrev welcome : Bytes
welcome = codes "OK\nsid\nhttp://np/\nhttp://sub/\n"

welcome-Greets : Greets welcome
unfolding parse_handshake_response next_line mpdscribble.Text.Strip.split
welcome-Greets = (refl, refl, refl)

serve_all_drains_example :
    Returns (Drained env (codes "0") welcome waiting) (serve_all env (codes "0") welcome 5 waiting)
serve_all_drains_example =
    serve_all_drains env (codes "0") welcome waiting waiting-IsOnline (λ h. absurd (ground arith))
      welcome-Greets
