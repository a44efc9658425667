-- ===== src/Scrobbler/Drain.antt =====
-- With a server that answers each request, a scrobbler submits all its songs.
use mpdscribble.Base.{
  ℕ, zero, suc, ◌+◌, ◌≤◌, ◌<◌, ◌≡◌, ◌∙◌, ap, sym, refl, Bool, true, false, not, ◌&&◌, ◌||◌, List,
  [], ◌∷◌, ◌++◌, Option, none, some, arith, Bytes, is_empty, ltb, length, length-drop, codes, ◌>>=◌,
  ◌>>◌, check, if◌then◌else◌, Bool-cases, inl, inr, ◌⊎◌, append-nil, subst,
}
use mpdscribble.Record.{Record, record_is_defined}
use mpdscribble.Scrobbler.Batch.{submit_queue_sends}
use mpdscribble.Scrobbler.Delivery.{added, taken, InFlight, Run, next, here, history_fifo}
use mpdscribble.Scrobbler.Events.{Event, handshake_due, submit_due, answers, enabled, step}
use mpdscribble.Scrobbler.Invariant.{IsOnline, Returns, has_work, Returns-bind}
use mpdscribble.Scrobbler.Operations.{
  submit_queue, submit, open_session, handshake_answered, forget_accepted, on_submit_result,
}
use mpdscribble.Scrobbler.Response.{
  next_line, first_line, parse_submit_response, parse_handshake_response,
}
use mpdscribble.Text.Strip.{split}
use mpdscribble.Scrobbler.State.{
  Scrobbler, Env, State, nothing, ready, handshaking, submitting, is_ready, first_interval,
}

-- A session is open and nothing is left to send.
abbrev pub is_done : Scrobbler → Bool
is_done s = is_ready s.state && not (has_work s)

-- What is left: the songs, the one that is playing, and the steps to the next request.
abbrev playing : Scrobbler → ℕ
playing s = if record_is_defined s.now_playing then 1 else 0

abbrev steps_to_request : State → ℕ
steps_to_request nothing = 3
steps_to_request handshaking = 2
steps_to_request ready = 1
steps_to_request submitting = 0

abbrev pub effort : Scrobbler → ℕ
effort s = length s.queue + playing s + steps_to_request s.state

-- An answer that opens a session: its first line says "OK", and the two URLs are not empty.
abbrev pub Greets : Bytes → Type 0
Greets body =
    let (status, rest0) = next_line body in
    let (session, rest1) = next_line rest0 in
    let (nowplay_url, rest2) = next_line rest1 in
    let (submit_url, rest3) = next_line rest2 in
    (parse_handshake_response status ≡ true)
    × (is_empty nowplay_url ≡ false)
    × (is_empty submit_url ≡ false)

module _ (env : Env) (timestr greeting : Bytes) where
  -- What comes next if the timers expire and the server answers each request: the greeting to a
  -- handshake, "OK" to a submission.
  abbrev answer_to : State → Event
  answer_to nothing = handshake_due timestr
  answer_to handshaking = answers greeting
  answer_to ready = submit_due
  answer_to submitting = answers (codes "OK")

  -- One such event, if it can come.
  abbrev serve : Scrobbler → Option Scrobbler
  serve s = check (enabled (answer_to s.state) s) >> step env (answer_to s.state) s

  abbrev pub serve_all : ℕ → Scrobbler → Option Scrobbler
  serve_all zero s = some s
  serve_all (suc n) s = let more = serve s >>= serve_all n in if is_done s then some s else more

  -- The scrobbler is done or has less to do.
  abbrev Advances : Scrobbler → Scrobbler → Type 0
  Advances s t = (is_done t ≡ true) ⊎ (effort t < effort s)

  submit_songs-Advances :
      (song : Record) (songs : List Record) (s : Scrobbler) (n : ℕ)
      → s.queue ≡ song ∷ songs
      → length (song ∷ songs) + playing s < n
      → Returns (λ t. (is_done t ≡ true) ⊎ (effort t < n)) (submit_queue env (song ∷ songs) s)
  submit_songs-Advances song songs s n e h =
      rw (submit_queue_sends env song songs s) (inr (rw e (omega arith)))

  submit_queue-Advances :
      (songs : List Record) (s : Scrobbler) (n : ℕ)
      → is_empty s.config.file ≡ true
      → s.queue ≡ songs
      → s.state ≡ ready
      → length songs + playing s < n
      → Returns (λ t. (is_done t ≡ true) ⊎ (effort t < n)) (submit_queue env songs s)
  unfolding submit_queue
  submit_queue-Advances [] s n f e r h = ground arith
  submit_queue-Advances (song ∷ songs) s n f e r h = submit_songs-Advances song songs s n e h

  submit-Advances :
      (s : Scrobbler) (n : ℕ)
      → is_empty s.config.file ≡ true
      → s.state ≡ ready
      → s.submit_timer ≡ none
      → length s.queue + playing s < n
      → Returns (λ t. (is_done t ≡ true) ⊎ (effort t < n)) (submit env s)
  unfolding submit
  submit-Advances s n f r t h = ground (arith, submit_queue-Advances s.queue s n f refl r h)

  greeted-Advances :
      (s : Scrobbler)
      → IsOnline s
      → s.state ≡ handshaking
      → Greets greeting
      → Returns (Advances s) (step env (answers greeting) s)
  unfolding step handshake_answered open_session
  greeted-Advances s v e g =
      let (status, rest0) = next_line greeting in
      let (session, rest1) = next_line rest0 in
      let (nowplay_url, rest2) = next_line rest1 in
      let (submit_url, rest3) = next_line rest2 in
      ground (
        arith,
        submit-Advances
            (record s {
              http_request = none;
              session = session;
              nowplay_url = nowplay_url;
              submit_url = submit_url;
              state = ready;
              interval = first_interval;
            })
            (effort s),
      )

  forgotten :
      (s : Scrobbler)
      → s.pending ≤ length s.queue
      → (ltb 0 s.pending || record_is_defined s.now_playing) ≡ true
      → Returns
          (λ t.
            (length t.queue + playing t < length s.queue + playing s)
            × (t.state ≡ s.state)
            × (t.submit_timer ≡ s.submit_timer)
            × (t.config ≡ s.config))
          (forget_accepted env s)
  unfolding forget_accepted
  forgotten s h w = ground (arith, length-drop s.pending s.queue)

  accept-Advances :
      (s : Scrobbler)
      → is_empty s.config.file ≡ true
      → s.state ≡ ready
      → s.submit_timer ≡ none
      → s.pending ≤ length s.queue
      → (ltb 0 s.pending || record_is_defined s.now_playing) ≡ true
      → Returns
          (λ t. (is_done t ≡ true) ⊎ (effort t < length s.queue + playing s))
          (forget_accepted env s >>= submit env)
  accept-Advances s f r t h w =
      Returns-bind _ (forget_accepted env s) (submit env) (forgotten s h w)
        (λ u (less, same_state, same_timer, same_config).
          submit-Advances u (length s.queue + playing s)
            (subst (λ c. is_empty c.file ≡ true) (sym same_config) f) (same_state ∙ r)
            (same_timer ∙ t) less)

  accepted-Advances :
      (s : Scrobbler)
      → IsOnline s
      → s.state ≡ submitting
      → Returns (Advances s) (step env (answers (codes "OK")) s)
  unfolding step on_submit_result parse_submit_response first_line split
  accepted-Advances s v e = ground (
    arith,
    accept-Advances (record s { http_request = none; state = ready; interval = first_interval }),
  )

  serve-Advances :
      (s : Scrobbler)
      → IsOnline s
      → is_done s ≡ false
      → Greets greeting
      → (state : State) → s.state ≡ state
      → (enabled (answer_to state) s ≡ true) × Returns (Advances s) (step env (answer_to state) s)
  unfolding step
  serve-Advances s v d g nothing e = (ground arith, ground arith)
  serve-Advances s v d g handshaking e = (ground arith, greeted-Advances s v e g)
  serve-Advances s v d g ready e =
      (ground arith, ground (arith, submit-Advances (record s { submit_timer = none }) (effort s)))
  serve-Advances s v d g submitting e = (ground arith, accepted-Advances s v e)

  -- At the end the queue is empty, and the server has accepted just the songs that were in it.
  abbrev pub Drained : Scrobbler → Scrobbler → Type 0
  Drained s t = (t.queue ≡ []) × ((gone : List Record) × Run env s [] gone t × (gone ≡ s.queue))

  added_nothing : (state : State) → added (answer_to state) ≡ []
  added_nothing nothing = refl
  added_nothing handshaking = refl
  added_nothing ready = refl
  added_nothing submitting = refl

  done_empty : (s : Scrobbler) → is_done s ≡ true → s.queue ≡ []
  done_empty s d = ground arith

  done-Drained :
      (s t : Scrobbler) (gone : List Record)
      → IsOnline s
      → InFlight env s
      → Run env s [] gone t
      → is_done t ≡ true
      → Drained s t
  done-Drained s t gone v f r d =
      let empty = done_empty t d in
      let (order, w, g) = history_fifo env v f r in
      (
        empty,
        (gone, r, sym (append-nil gone) ∙ sym (ap (◌++◌ gone) empty) ∙ order ∙ append-nil s.queue),
      )

  never_idle : (s : Scrobbler) → IsOnline s → 0 < effort s
  never_idle s v = ground arith

  serve-step :
      (t : Scrobbler)
      → enabled (answer_to t.state) t ≡ true
      → serve t ≡ step env (answer_to t.state) t
  serve-step t e = rw e refl

  -- one more event of a history without songs pushed
  next_served :
      (s t u : Scrobbler) (gone : List Record)
      → Run env s [] gone t
      → enabled (answer_to t.state) t ≡ true
      → step env (answer_to t.state) t ≡ some u
      → Run env s [] (gone ++ taken (answer_to t.state) t) u
  next_served s t u gone r h k =
      subst (λ pushed. Run env s pushed (gone ++ taken (answer_to t.state) t) u)
        (added_nothing t.state) (next (answer_to t.state) r h k)

  serve_all-Drained :
      (n : ℕ) (s t : Scrobbler) (gone : List Record)
      → IsOnline s
      → InFlight env s
      → Greets greeting
      → Run env s [] gone t
      → (is_done t ≡ true) ⊎ (effort t ≤ n)
      → Returns (Drained s) (serve_all n t)
  serve_all-Drained zero s t gone v f g r (inl d) = done-Drained s t gone v f r d
  serve_all-Drained zero s t gone v f g r (inr h) =
      let (order, w, k) = history_fifo env v f r in absurd (ground (arith, never_idle t w))
  serve_all-Drained (suc n) s t gone v f g r h = elim (Bool-cases (is_done t)) [
    | inl d ↦ rw d (done-Drained s t gone v f r d)
    | inr d ↦
        let (e, w) = serve-Advances t (history_fifo env v f r).1 d g t.state refl in
        rw (d, serve-step t e)
          (go (step env (answer_to t.state) t) refl w
            (λ u m a. serve_all-Drained n s u _ v f g (next_served s t u gone r e m) (still u a d)))
  ]
    where
      still :
          (u : Scrobbler) → Advances t u → is_done t ≡ false → (is_done u ≡ true) ⊎ (effort u ≤ n)
      still u (inl a) d = inl a
      still u (inr a) d = inr (enough h)
        where
          enough : (is_done t ≡ true) ⊎ (effort t ≤ suc n) → effort u ≤ n
          enough (inl b) = absurd (ground arith)
          enough (inr b) = omega arith

      go :
          (r : Option Scrobbler)
          → step env (answer_to t.state) t ≡ r
          → Returns (Advances t) r
          → ((u : Scrobbler)
              → step env (answer_to t.state) t ≡ some u
              → Advances t u
              → Returns (Drained s) (serve_all n u))
          → Returns (Drained s) (r >>= serve_all n)
      go none m w k = w
      go (some u) m w k = k u m w

  -- From any state of the invariant, if the timers that are pending expire and the server answers each
  -- request, a handshake with a session and a submission with "OK", then in no more steps than there are
  -- songs, and four more, each of which can come, the queue gets empty, and the songs that the server
  -- has accepted on the way are just those of the queue, in their order.
  pub serve_all_drains :
      (s : Scrobbler)
      → IsOnline s
      → InFlight env s
      → Greets greeting
      → Returns (Drained s) (serve_all (length s.queue + 4) s)
  serve_all_drains s v f g = serve_all-Drained (length s.queue + 4) s s [] v f g here (inr (most s))
    where
      most : (s : Scrobbler) → effort s ≤ length s.queue + 4
      most s = ground arith
