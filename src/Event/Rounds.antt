-- ===== src/Event/Rounds.antt =====
-- A round of EventLoop::Run().
use mpdscribble.Base.{
  ℕ, zero, suc, ◌≤◌, ◌%◌, ◌≡◌, refl, Bool, true, false, List, [], ◌∷◌, Option, none, some, arith,
  if◌then◌else◌,
}
use mpdscribble.Event.Types.{resolution}
use mpdscribble.Event.Loop.{EventLoop, Callback, Command, deferred}
use mpdscribble.Event.Closed.{invoke-P}
use mpdscribble.Event.Keeps.{Kept, run_deferred-P}
use mpdscribble.Event.Quiet.{Quiet, Quiet-IsClosed, both-IsClosed}
use mpdscribble.Event.Rest.{
  InTime, InTime-IsLess, IsSound, PlacedAt, PlacedAt-IsClosed, PlacedAt-IsSound, IsSound-PlacedAt,
}
use mpdscribble.Event.Run.{
  invoke, run_deferred, run_one_idle, Round, waits, continues, breaks, endless, round,
  after_deferred, after_timers,
}
use mpdscribble.Event.Handled.{TimersRun, handle_timers-TimersRun}

module _ {W : Type 0} where
  module _ (callback : Callback → ℕ → EventLoop W → W × List Command) (now : ℕ) where
    run_deferred-Done :
        (fuel : ℕ) (l : EventLoop W)
        → Kept (λ l. l.quit ≡ false → l.defer ≡ []) (run_deferred callback fuel now l)
    unfolding run_deferred
    run_deferred-Done zero l = tt
    run_deferred-Done (suc fuel) l = go l.defer refl l.quit refl (λ e es. run_deferred-Done fuel _)
      where
        go :
            (es : List ℕ)
            → l.defer ≡ es
            → (b : Bool) → l.quit ≡ b
            → ((e : ℕ) (ds : List ℕ)
                → Kept
                    (λ l. l.quit ≡ false → l.defer ≡ [])
                    (run_deferred callback fuel now
                      (invoke callback now (deferred e) (record l { defer = ds }))))
            → Kept
                (λ l. l.quit ≡ false → l.defer ≡ [])
                (elim es [
                  | [] ↦ some l
                  | e ∷ ds ↦
                      (let more =
                          run_deferred callback fuel now
                            (invoke callback now (deferred e) (record l { defer = ds })) in
                        if b then some l else more)
                ])
        go [] m b q f = λ g. m
        go (e ∷ ds) m true q f = λ g. absurd (ground arith)
        go (e ∷ ds) m false q f = f e ds

  -- The loop waits only if no timer is ready, no event is deferred or idle, and no timer is due long
  -- before the end of the wait.
  abbrev pub Rests : ℕ → Round W → Type 0
  Rests now (waits d l) =
      IsSound now l
      × InTime now d l.timers l.coarse_timers.ready l.coarse_timers.buckets
      × (l.defer ≡ [])
      × (l.idle ≡ [])
  Rests now (continues l) = IsSound now l
  Rests now (breaks l) = IsSound now l
  Rests now endless = Unit

  Rests-if :
      (now : ℕ) (b : Bool) (r q : Round W)
      → (b ≡ true → Rests now r)
      → (b ≡ false → Rests now q)
      → Rests now (if b then r else q)
  Rests-if now true r q u v = u refl
  Rests-if now false r q u v = v refl

  -- what is kept behind HandleTimers() with the result `d`
  abbrev Handled : ℕ → ℕ → Option ℕ → EventLoop W → Type 0
  Handled now c d l = PlacedAt c l × Quiet now (InTime now d) l

  module _ (callback : Callback → ℕ → EventLoop W → W × List Command) (now : ℕ) where
    run_one_idle-Rests :
        (c : ℕ) (d : Option ℕ) (l : EventLoop W)
        → c ≤ now
        → c % resolution ≡ 0
        → Handled now c d l
        → l.defer ≡ []
        → Rests now (run_one_idle callback now d l)
    unfolding run_one_idle
    run_one_idle-Rests c d l h a (p, q) n = go l.idle refl
      where
        go :
            (es : List ℕ)
            → l.idle ≡ es
            → Rests now (elim es [
              | [] ↦ if l.again then continues l else waits d l
              | e ∷ es ↦ continues (invoke callback now (deferred e) (record l { idle = es }))
            ])
        go [] m =
            Rests-if now l.again _ _ (λ g. PlacedAt-IsSound now c l h a p)
              (λ g. (PlacedAt-IsSound now c l h a p, q g, n, m))
        go (e ∷ es) m =
            PlacedAt-IsSound now c _ h a (
              invoke-P (PlacedAt-IsClosed now c h) callback (deferred e) (record l { idle = es }) p)

    after_deferred-Rests :
        (c : ℕ) (d : Option ℕ) (r : Option (EventLoop W))
        → c ≤ now
        → c % resolution ≡ 0
        → Kept (Handled now c d) r
        → Kept (λ l. l.quit ≡ false → l.defer ≡ []) r
        → Rests now (after_deferred callback now d r)
    after_deferred-Rests c d none h a p n = tt
    after_deferred-Rests c d (some l) h a (p, q) n =
        Rests-if now l.quit _ _ (λ g. PlacedAt-IsSound now c l h a p)
          (λ g. run_one_idle-Rests c d l h a (p, q) (n g))

    after_timers-Rests :
        (fuel : ℕ) (r : Option (Option ℕ × EventLoop W))
        → TimersRun now r
        → Rests now (after_timers callback fuel now r)
    after_timers-Rests fuel none t = tt
    after_timers-Rests fuel (some (d, l)) (s, q) =
        Rests-if now l.quit _ _ (λ g. s)
          (λ g.
            after_deferred-Rests l.coarse_timers.last_time d _ s.started s.aligned
              (run_deferred-P callback now
                (both-IsClosed now _ _ (PlacedAt-IsClosed now l.coarse_timers.last_time s.started)
                  (Quiet-IsClosed now (InTime now d) (InTime-IsLess now d)))
                fuel l (IsSound-PlacedAt now l s, q))
              (run_deferred-Done callback now fuel l))

    -- Whatever the callbacks do, a round of the event loop that begins in a sound state and does not run
    -- out of fuel ends in one, where each timer of the wheel stands in its bucket, none is due before the
    -- last run, which is not in the future, and the fine timers are sorted; and the round waits only if
    -- no timer is ready and no event is deferred or idle, not past the time of a fine timer, not more
    -- than 250 ms past that of a coarse one, and without end only if there is no timer.
    pub round-Rests :
        (fuel : ℕ) (l : EventLoop W) → IsSound now l → Rests now (round callback fuel now l)
    unfolding round
    round-Rests fuel l s = after_timers-Rests fuel _ (
        handle_timers-TimersRun callback now fuel (record l { again = false })
          (PlacedAt-IsSound now l.coarse_timers.last_time (record l { again = false }) s.started
            s.aligned (IsSound-PlacedAt now l s)))
