-- ===== src/Scrobbler/LogFile.antt =====
-- A scrobbler that writes to a log file instead of a server.
use mpdscribble.Base.{◌≡◌, refl, true, [], ◌++◌, none, some, arith, Bytes, append-nil}
use mpdscribble.Scrobbler.Events.{
  Event, pushes, plays, hurries, handshake_due, submit_due, answers, fails, enabled, step,
}
use mpdscribble.Scrobbler.Operations.{log_line}
use mpdscribble.Scrobbler.State.{Scrobbler, Env, first_interval}

pub record IsLogging (s : Scrobbler) (written : Bytes) : Type 0 where
  pub open_file : s.file ≡ some written
  pub no_handshake : s.handshake_timer ≡ none
  pub no_submission : s.submit_timer ≡ none
  pub no_request : s.http_request ≡ none

abbrev logged : Event → Bytes
logged (pushes date song) = log_line date song
logged _ = []

-- Over a log file no event fails an assertion; each pushed song is one line behind what the file
-- holds, nothing else is written, and no timer or request is ever started.
pub step-IsLogging :
    (env : Env) (e : Event) (s : Scrobbler) (written : Bytes)
    → IsLogging s written
    → enabled e s ≡ true
    → (t : Scrobbler) × (step env e s ≡ some t)
      × IsLogging t (written ++ logged e)
      × (t.queue ≡ s.queue)
unfolding step
step-IsLogging env (pushes date song) s written v h =
    (record s { file = some (written ++ log_line date song) }, ground arith, ground arith, refl)
step-IsLogging env (plays song) s written v h =
    (s, ground arith, ground (arith, append-nil written), refl)
step-IsLogging env hurries s written v h =
    (record s { interval = first_interval }, ground arith, ground (arith, append-nil written), refl)
step-IsLogging env (handshake_due timestr) s written v h = absurd (ground arith)
step-IsLogging env submit_due s written v h = absurd (ground arith)
step-IsLogging env (answers body) s written v h = absurd (ground arith)
step-IsLogging env fails s written v h = absurd (ground arith)
