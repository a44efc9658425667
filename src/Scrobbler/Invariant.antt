-- ===== src/Scrobbler/Invariant.antt =====
-- The state machine of a scrobbler never fails an assertion, and never gets stuck with songs to send.
use mpdscribble.Base.{
  ℕ, suc, ◌+◌, ◌≤◌, ◌<◌, ◌≡◌, refl, Bool, true, not, ◌&&◌, ◌||◌, List, [], ◌∷◌, Option, none, some,
  arith, Bytes, is_some, is_empty, ltb, length, length-append, length-drop, codes, ◌>>=◌,
}
use mpdscribble.Form.{FormDataBuilder, empty_form, append}
use mpdscribble.Record.{Record, record_is_defined}
use mpdscribble.Scrobbler.Events.{
  Event, pushes, plays, hurries, handshake_due, submit_due, answers, fails, enabled, step,
}
use mpdscribble.Scrobbler.Operations.{
  submit_queue, submit, hurry_handshake, hurry_submit, open_session, on_http_response_in,
  handshake_answered, forget_accepted, on_submit_result,
}
use mpdscribble.Scrobbler.Requests.{add_song, add_songs, submission}
use mpdscribble.Scrobbler.Response.{
  next_line, first_line, parse_submit_response, SubmitResponseType, accepted, failed, handshake,
}
use mpdscribble.Scrobbler.State.{
  Scrobbler, Env, State, nothing, ready, handshaking, submitting, is_nothing, is_handshaking,
  is_ready, is_submitting, first_interval, max_interval, next_interval,
}

abbrev pub has_work : Scrobbler → Bool
has_work s = not (is_empty s.queue) || record_is_defined s.now_playing

-- A scrobbler that submits to a server.
pub record IsOnline (s : Scrobbler) : Type 0 where
  pub no_file : is_empty s.config.file ≡ true
  pub not_open : s.file ≡ none
  pub pending_le : s.pending ≤ length s.queue
  pub pending_max : s.pending ≤ 10
  pub interval_min : first_interval ≤ s.interval
  pub interval_max : s.interval ≤ max_interval
  -- the handshake timer runs exactly when there is no session and no attempt at one
  pub shakes : is_some s.handshake_timer ≡ is_nothing s.state
  -- a request is under way in exactly the two states that wait for one
  pub requests : is_some s.http_request ≡ (is_handshaking s.state || is_submitting s.state)
  -- the submit timer runs exactly when there is a session, no request, and something to send
  pub submits : is_some s.submit_timer ≡ (is_ready s.state && has_work s)
  pub sends :
      (not (is_submitting s.state) || ltb 0 s.pending || record_is_defined s.now_playing) ≡ true

abbrev pub Returns : (Scrobbler → Type 0) → Option Scrobbler → Type 0
Returns P none = ⊥
Returns P (some t) = P t

pub Returns-bind :
    {P : Scrobbler → Type 0} (Q : Scrobbler → Type 0) (m : Option Scrobbler)
    (f : Scrobbler → Option Scrobbler)
    → Returns P m
    → ((t : Scrobbler) → P t → Returns Q (f t))
    → Returns Q (m >>= f)
Returns-bind Q none f h k = h
Returns-bind Q (some t) f h k = k t h

-- A scrobbler that has just got into state READY, before Submit().
record IsIdle (s : Scrobbler) : Type 0 where
  no_file : is_empty s.config.file ≡ true
  not_open : s.file ≡ none
  pending_le : s.pending ≤ length s.queue
  pending_max : s.pending ≤ 10
  interval_min : first_interval ≤ s.interval
  interval_max : s.interval ≤ max_interval
  shakes : s.handshake_timer ≡ none
  requests : s.http_request ≡ none
  submits : s.submit_timer ≡ none
  is_idle : s.state ≡ ready

-- A scrobbler whose handshake has just been answered.
record IsFresh (s : Scrobbler) : Type 0 where
  no_file : is_empty s.config.file ≡ true
  not_open : s.file ≡ none
  pending_le : s.pending ≤ length s.queue
  pending_max : s.pending ≤ 10
  interval_min : first_interval ≤ s.interval
  interval_max : s.interval ≤ max_interval
  shakes : s.handshake_timer ≡ none
  requests : s.http_request ≡ none
  submits : s.submit_timer ≡ none
  is_fresh : s.state ≡ nothing

hurry_handshake-IsOnline : (s : Scrobbler) → IsOnline s → Returns IsOnline (hurry_handshake s)
unfolding hurry_handshake
hurry_handshake-IsOnline s v = ground arith

hurry_submit-IsOnline : (s : Scrobbler) → IsOnline s → Returns IsOnline (hurry_submit s)
unfolding hurry_submit
hurry_submit-IsOnline s v = ground arith

next_interval_bounds :
    (i : ℕ)
    → first_interval ≤ i
    → (first_interval ≤ next_interval i) × (next_interval i ≤ max_interval)
unfolding next_interval
next_interval_bounds i h = ground arith

module _ (env : Env) where
  add_songs_count :
      (count : ℕ) (post_data : FormDataBuilder) (songs : List Record)
      → count ≤ 10
      → let n = (add_songs env count post_data songs).1 in
        (count ≤ n) × (n ≤ 10) × (n ≤ count + length songs)
  unfolding add_songs
  add_songs_count count post_data [] h = omega arith
  add_songs_count count post_data (song ∷ songs) h =
      ground (arith, add_songs_count (count + 1) (add_song env post_data count song) songs)

  forget_accepted-IsIdle :
      (s : Scrobbler)
      → IsIdle s
      → (ltb 0 s.pending || record_is_defined s.now_playing) ≡ true
      → Returns IsIdle (forget_accepted env (record s { interval = first_interval }))
  unfolding forget_accepted
  forget_accepted-IsIdle s v h = ground (arith, length-drop s.pending s.queue)

  submission_count :
      (session : Bytes) (song : Record) (songs : List Record)
      → let n = (submission env session (song ∷ songs)).1 in
        (0 < n) × (n ≤ 10) × (n ≤ suc (length songs))
  unfolding submission add_songs
  submission_count session song songs = ground (
    arith,
    add_songs_count (0 + 1)
        (add_song env (append env.curl_escape empty_form (codes "s") session) 0 song) songs,
  )

  submit_queue-IsOnline :
      (songs : List Record) (s : Scrobbler)
      → s.queue ≡ songs
      → IsIdle s
      → Returns IsOnline (submit_queue env songs s)
  unfolding submit_queue
  submit_queue-IsOnline [] s e v = ground arith
  submit_queue-IsOnline (song ∷ songs) s e v = ground (arith, submission_count s.session song songs)

  submit-IsOnline : (s : Scrobbler) → IsIdle s → Returns IsOnline (submit env s)
  unfolding submit
  submit-IsOnline s v = ground (arith, submit_queue-IsOnline s.queue s refl v)

  open_session-IsOnline :
      (response : Bytes) (s : Scrobbler)
      → IsFresh s
      → Returns IsOnline (open_session env response s)
  unfolding open_session
  open_session-IsOnline response s v =
      let (session, rest1) = next_line response in
      let (nowplay_url, rest2) = next_line rest1 in
      let (submit_url, rest3) = next_line rest2 in
      ground (
        arith,
        next_interval_bounds s.interval,
        submit-IsOnline (record s {
          session = session;
          nowplay_url = nowplay_url;
          submit_url = submit_url;
          state = ready;
          interval = first_interval;
        }),
      )

  handshake_answered-IsOnline :
      (answer : Bytes × Bytes) (s : Scrobbler)
      → IsFresh s
      → Returns IsOnline (handshake_answered env answer s)
  unfolding handshake_answered
  handshake_answered-IsOnline (line, response) s v =
      ground (arith, next_interval_bounds s.interval, open_session-IsOnline response s v)

  on_submit_result-IsOnline :
      (r : SubmitResponseType) (s : Scrobbler)
      → IsIdle s
      → (ltb 0 s.pending || record_is_defined s.now_playing) ≡ true
      → Returns IsOnline (on_submit_result env r s)
  unfolding on_submit_result
  on_submit_result-IsOnline accepted s v h =
      Returns-bind {P = IsIdle} IsOnline _ (submit env) (forget_accepted-IsIdle s v h)
        submit-IsOnline
  on_submit_result-IsOnline failed s v h = ground (arith, next_interval_bounds s.interval)
  on_submit_result-IsOnline handshake s v h = ground arith

  answered-IsOnline :
      (body : Bytes) (s : Scrobbler)
      → IsOnline s
      → (state : State) → s.state ≡ state
      → is_some s.http_request ≡ true
      → Returns IsOnline (on_http_response_in env state body s)
  unfolding on_http_response_in
  answered-IsOnline body s v nothing e h = ground arith
  answered-IsOnline body s v ready e h = ground arith
  answered-IsOnline body s v handshaking e h = ground (
    arith,
    handshake_answered-IsOnline (next_line body)
        (record s { http_request = none; state = nothing }),
  )
  answered-IsOnline body s v submitting e h = ground (
    arith,
    on_submit_result-IsOnline (parse_submit_response (first_line body))
        (record s { http_request = none; state = ready }),
  )

  -- A scrobbler that submits to a server fails no assertion, whatever comes next, and stays in a state
  -- where exactly what it waits for is pending.
  pub step-IsOnline :
      (e : Event) (s : Scrobbler)
      → IsOnline s
      → enabled e s ≡ true
      → Returns IsOnline (step env e s)
  unfolding step
  step-IsOnline (pushes date song) s v h = ground (arith, length-append s.queue (song ∷ []))
  step-IsOnline (plays song) s v h = ground arith
  step-IsOnline hurries s v h =
      Returns-bind {P = IsOnline} IsOnline (hurry_handshake t) hurry_submit
        (hurry_handshake-IsOnline t (ground arith)) hurry_submit-IsOnline
    where
      t : Scrobbler
      t = record s { interval = first_interval }
  step-IsOnline (handshake_due timestr) s v h = ground arith
  step-IsOnline submit_due s v h =
      ground (arith, submit-IsOnline (record s { submit_timer = none }))
  step-IsOnline (answers body) s v h = answered-IsOnline body s v s.state refl h
  step-IsOnline fails s v h = ground (arith, next_interval_bounds s.interval)
