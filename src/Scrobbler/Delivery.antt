-- ===== src/Scrobbler/Delivery.antt =====
-- The queue of a scrobbler against its promise: a first-in first-out buffer from which only the songs of
-- an accepted submission are taken.
use mpdscribble.Base.{
  ◌≤◌, ◌≡◌, refl, sym, ap, ◌∙◌, Bool, true, false, ◌&&◌, List, [], ◌∷◌, ◌++◌, arith, Bytes, length,
  take, drop, Option, some, none, ltb, if◌then◌else◌, append-nil, append_assoc, take-append-drop,
  take-append_left, ◌>>=◌, subst,
}
use mpdscribble.Record.{Record}
use mpdscribble.Scrobbler.Batch.{batch_request, submit_queue_sends}
use mpdscribble.Scrobbler.Events.{
  Event, pushes, plays, hurries, handshake_due, submit_due, answers, fails, enabled, step,
}
use mpdscribble.Scrobbler.Invariant.{IsOnline, Returns, step-IsOnline}
use mpdscribble.Scrobbler.Operations.{
  submit_queue, submit, hurry_handshake, hurry_submit, submit_now, open_session,
  on_http_response_in, handshake_answered, forget_accepted, on_submit_result,
}
use mpdscribble.Scrobbler.Response.{
  next_line, first_line, parse_submit_response, SubmitResponseType, accepted, failed, handshake,
}
use mpdscribble.Scrobbler.State.{
  Scrobbler, Env, State, nothing, ready, handshaking, submitting, is_submitting, first_interval,
}

-- What an event adds to the queue.
abbrev pub added : Event → List Record
added (pushes date song) = song ∷ []
added _ = []

abbrev is_accepted : SubmitResponseType → Bool
is_accepted accepted = true
is_accepted failed = false
is_accepted handshake = false

abbrev says_ok : Event → Bool
says_ok (answers body) = is_accepted (parse_submit_response (first_line body))
says_ok _ = false

-- The songs that the server has accepted with an event: those of the submission under way, if the
-- event is the answer "OK" to it.
abbrev pub taken : Event → Scrobbler → List Record
taken e s = if says_ok e && is_submitting s.state then take s.pending s.queue else []

abbrev Ensures : (Scrobbler → Type 0) → Option Scrobbler → Type 0
Ensures P none = Unit
Ensures P (some t) = P t

Ensures-bind :
    {P : Scrobbler → Type 0} (Q : Scrobbler → Type 0) (m : Option Scrobbler)
    (f : Scrobbler → Option Scrobbler)
    → Ensures P m
    → ((t : Scrobbler) → P t → Ensures Q (f t))
    → Ensures Q (m >>= f)
Ensures-bind Q none f h k = tt
Ensures-bind Q (some t) f h k = k t h

Ensures-map :
    {P Q : Scrobbler → Type 0} (m : Option Scrobbler)
    → Ensures P m
    → ((t : Scrobbler) → P t → Q t)
    → Ensures Q m
Ensures-map none h k = tt
Ensures-map (some t) h k = k t h

Ensures-some :
    (P : Scrobbler → Type 0) (m : Option Scrobbler) {t : Scrobbler} → Ensures P m → m ≡ some t → P t
Ensures-some P none h e = cc
Ensures-some P (some t) h e = subst P (cc) h

Returns-some :
    (P : Scrobbler → Type 0) (m : Option Scrobbler) {t : Scrobbler} → Returns P m → m ≡ some t → P t
Returns-some P none h e = absurd h
Returns-some P (some t) h e = subst P (cc) h

module _ (env : Env) where
  -- A submission that is under way carries the songs at the head of the queue that an "OK" would
  -- take from it.
  abbrev pub InFlight : Scrobbler → Type 0
  InFlight s =
      (is_submitting s.state && ltb 0 s.pending) ≡ true
      → s.http_request ≡ some (batch_request env s.submit_url s.session (take s.pending s.queue))

  -- The queue is `queue`, and the songs under way are right.
  record Holds (queue : List Record) (t : Scrobbler) : Type 0 where
    keeps : t.queue ≡ queue
    in_flight : InFlight t
    pending_le : t.pending ≤ length t.queue

  submit_songs-Holds :
      (song : Record) (songs : List Record) (s : Scrobbler)
      → s.queue ≡ song ∷ songs
      → Ensures (Holds (song ∷ songs)) (submit_queue env (song ∷ songs) s)
  submit_songs-Holds song songs s e =
      rw (submit_queue_sends env song songs s)
        (record { keeps = e; in_flight = λ _. rw e; pending_le = rw e (omega arith) })

  submit_queue-Holds :
      (queue : List Record) (s : Scrobbler)
      → s.queue ≡ queue
      → s.pending ≤ length s.queue
      → Ensures (Holds queue) (submit_queue env queue s)
  unfolding submit_queue
  submit_queue-Holds [] s e h = ground arith
  submit_queue-Holds (song ∷ songs) s e h = submit_songs-Holds song songs s e

  submit-Holds :
      (s : Scrobbler) → s.pending ≤ length s.queue → Ensures (Holds s.queue) (submit env s)
  unfolding submit
  submit-Holds s h = ground (arith, submit_queue-Holds s.queue s refl h)

  open_session-Holds :
      (response : Bytes) (s : Scrobbler)
      → s.state ≡ nothing
      → s.pending ≤ length s.queue
      → Ensures (Holds s.queue) (open_session env response s)
  unfolding open_session
  open_session-Holds response s e h =
      let (session, rest1) = next_line response in
      let (nowplay_url, rest2) = next_line rest1 in
      let (submit_url, rest3) = next_line rest2 in
      ground (
        arith,
        submit-Holds (record s {
          session = session;
          nowplay_url = nowplay_url;
          submit_url = submit_url;
          state = ready;
          interval = first_interval;
        }),
      )

  handshake_answered-Holds :
      (answer : Bytes × Bytes) (s : Scrobbler)
      → s.state ≡ nothing
      → s.pending ≤ length s.queue
      → Ensures (Holds s.queue) (handshake_answered env answer s)
  unfolding handshake_answered
  handshake_answered-Holds (line, response) s e h =
      ground (arith, open_session-Holds response s e h)

  -- What an accepted submission leaves of the queue.
  abbrev left : Scrobbler → List Record
  left s = drop s.pending s.queue

  forget_accepted-left :
      (s : Scrobbler) → Ensures (λ t. (t.queue ≡ left s) × (t.pending ≡ 0)) (forget_accepted env s)
  unfolding forget_accepted
  forget_accepted-left s = ground arith

  on_submit_result-Holds :
      (r : SubmitResponseType) (s : Scrobbler)
      → s.state ≡ ready
      → s.pending ≤ length s.queue
      → Ensures (Holds (if is_accepted r then left s else s.queue)) (on_submit_result env r s)
  unfolding on_submit_result
  on_submit_result-Holds accepted s e h =
      Ensures-bind (Holds (left s)) _ (submit env)
        (forget_accepted-left (record s { interval = first_interval }))
        (λ t (same_queue, nothing_pending).
          subst (λ q. Ensures (Holds q) (submit env t)) same_queue
            (submit-Holds t (rw nothing_pending (omega arith))))
  on_submit_result-Holds failed s e h = ground arith
  on_submit_result-Holds handshake s e h = ground arith

  -- What a step owes to the queue.
  abbrev Delivers : List Record → List Record → List Record → Scrobbler → Type 0
  Delivers gone queue more t = (gone ++ t.queue ≡ queue ++ more) × InFlight t

  answered-Delivers :
      (body : Bytes) (s : Scrobbler) (state : State)
      → s.state ≡ state
      → s.pending ≤ length s.queue
      → Ensures
          (Delivers (taken (answers body) s) s.queue [])
          (on_http_response_in env state body s)
  unfolding on_http_response_in
  answered-Delivers body s nothing e h = tt
  answered-Delivers body s ready e h = tt
  answered-Delivers body s handshaking e h = ground (
    arith,
    append-nil s.queue,
    handshake_answered-Holds (next_line body) (record s { http_request = none; state = nothing })
        refl,
  )
  answered-Delivers body s submitting e h = ground (
    arith,
    append-nil s.queue,
    take-append-drop s.pending s.queue,
    on_submit_result-Holds (parse_submit_response (first_line body))
        (record s { http_request = none; state = ready }) refl,
  )

  hurry_handshake_left :
      (s : Scrobbler)
      → InFlight s
      → Ensures (λ t. (t.queue ≡ s.queue) × InFlight t) (hurry_handshake s)
  unfolding hurry_handshake
  hurry_handshake_left s f = ground arith

  hurry_submit_left :
      (s : Scrobbler)
      → InFlight s
      → Ensures (λ t. (t.queue ≡ s.queue) × InFlight t) (hurry_submit s)
  unfolding hurry_submit
  hurry_submit_left s f = ground arith

  submit_now_left :
      (s : Scrobbler) → InFlight s → Ensures (λ t. (t.queue ≡ s.queue) × InFlight t) (submit_now s)
  unfolding submit_now
  submit_now_left s f =
      Ensures-bind (λ t. (t.queue ≡ s.queue) × InFlight t) (hurry_handshake t0) hurry_submit
        (hurry_handshake_left t0 f)
        (λ t (e, g).
          subst (λ q. Ensures (λ u. (u.queue ≡ q) × InFlight u) (hurry_submit t)) e
            (hurry_submit_left t g))
    where
      t0 : Scrobbler
      t0 = record s { interval = first_interval }

  step-Delivers :
      (e : Event) (s : Scrobbler)
      → s.pending ≤ length s.queue
      → s.file ≡ none
      → InFlight s
      → Ensures (Delivers (taken e s) s.queue (added e)) (step env e s)
  unfolding step
  step-Delivers (pushes date song) s h o f =
      ground (arith, take-append_left s.pending s.queue (song ∷ []))
  step-Delivers (plays song) s h o f = ground (arith, append-nil s.queue)
  step-Delivers hurries s h o f =
      Ensures-map (submit_now s) (submit_now_left s f)
        (λ t (e, g). (e ∙ sym (append-nil s.queue), g))
  step-Delivers (handshake_due timestr) s h o f = ground (arith, append-nil s.queue)
  step-Delivers submit_due s h o f =
      ground (arith, append-nil s.queue, submit-Holds (record s { submit_timer = none }))
  step-Delivers (answers body) s h o f = answered-Delivers body s s.state refl h
  step-Delivers fails s h o f = ground (arith, append-nil s.queue)

  -- A step from a state of the invariant keeps the songs of the submission under way at the head of
  -- the queue, and the songs that leave the queue are those that the server has accepted: they are
  -- taken from its head, and pushed songs go to its end.
  pub step-fifo :
      (e : Event) (s t : Scrobbler)
      → IsOnline s
      → InFlight s
      → step env e s ≡ some t
      → (taken e s ++ t.queue ≡ s.queue ++ added e) × InFlight t
  step-fifo e s t v f h =
      Ensures-some _ (step env e s) (step-Delivers e s v.pending_le v.not_open f) h

  -- The histories of a scrobbler, with the songs pushed and the songs accepted on the way.
  pub data Run (s : Scrobbler) : List Record → List Record → Scrobbler → Type 0 where
    here : Run s [] [] s
    next :
        {pushed gone : List Record} {t u : Scrobbler} (e : Event)
        → Run s pushed gone t
        → enabled e t ≡ true
        → step env e t ≡ some u
        → Run s (pushed ++ added e) (gone ++ taken e t) u

  regroup :
      (gone batch rest queue0 pushed more queue : List Record)
      → gone ++ queue ≡ queue0 ++ pushed
      → batch ++ rest ≡ queue ++ more
      → (gone ++ batch) ++ rest ≡ queue0 ++ (pushed ++ more)
  regroup gone batch rest queue0 pushed more queue h k =
      append_assoc gone batch rest
      ∙ ap (◌++◌ gone) k
      ∙ sym (append_assoc gone queue more)
      ∙ ap (λ l. l ++ more) h
      ∙ append_assoc queue0 pushed more

  -- Over every history the accepted songs followed by the queue are the songs queued at the start
  -- followed by the songs pushed: none is lost, made up, reordered or taken twice.
  pub history_fifo :
      {s t : Scrobbler} {pushed gone : List Record}
      → IsOnline s
      → InFlight s
      → Run s pushed gone t
      → (gone ++ t.queue ≡ s.queue ++ pushed) × IsOnline t × InFlight t
  history_fifo v f here = (sym (append-nil _), v, f)
  history_fifo {s} v f (next {pushed} {gone} {t} {u} e r h k) =
      let (order, w, g) = history_fifo v f r in
      let (moved, g') = step-fifo e t u w g k in
      (
        regroup gone (taken e t) u.queue s.queue pushed (added e) t.queue order moved,
        Returns-some IsOnline (step env e t) (step-IsOnline env e t w h) k,
        g',
      )
