-- ===== src/Event/Finish.antt =====
-- A round of EventLoop::Run() ends.
use mpdscribble.Base.{
  ℕ, zero, suc, ◌≤◌, ◌<◌, ◌≡◌, refl, ap, Bool, true, false, List, [], ◌∷◌, Option, none, some,
  arith, if◌then◌else◌, length,
}
use mpdscribble.Event.Loop.{EventLoop, Callback, Command, deferred}
use mpdscribble.Event.Ends.{todo, Settles, budget, budget-invoke}
use mpdscribble.Event.Run.{
  invoke, run_deferred, run_one_idle, Round, waits, continues, breaks, endless, round,
  after_deferred, after_timers,
}
use mpdscribble.Event.Budget.{Leaves, LeavesTimed, handle_timers-Leaves}

module _ {W : Type 0} where
  abbrev pub HasEnded : Round W → Type 0
  HasEnded (waits d l) = Unit
  HasEnded (continues l) = Unit
  HasEnded (breaks l) = Unit
  HasEnded endless = ⊥

  HasEnded-if : (b : Bool) (r q : Round W) → HasEnded r → HasEnded q → HasEnded (if b then r else q)
  HasEnded-if true r q u v = u
  HasEnded-if false r q u v = v

  module _ (now : ℕ) (callback : Callback → ℕ → EventLoop W → W × List Command) (rank : W → ℕ)
      (settles : Settles now callback rank) where
    budget-set_defer :
        (e : ℕ) (es : List ℕ) (l : EventLoop W)
        → l.defer ≡ e ∷ es
        → suc (budget now rank (record l { defer = es })) ≤ budget now rank l
    unfolding todo
    budget-set_defer e es l m = omega (arith, ap length m)

    run_deferred-Leaves :
        (fuel n : ℕ) (l : EventLoop W)
        → budget now rank l ≤ n
        → budget now rank l < fuel
        → Leaves rank now n (run_deferred callback fuel now l)
    unfolding run_deferred
    run_deferred-Leaves zero n l h k = elim k [ ]
    run_deferred-Leaves (suc fuel) n l h k = go l.defer refl l.quit (λ e es m.
        let less = budget-set_defer e es l m in
        let kept = budget-invoke now callback rank settles (deferred e) (record l { defer = es }) in
        run_deferred-Leaves fuel n _ (omega arith) (omega arith))
      where
        go :
            (es : List ℕ)
            → l.defer ≡ es
            → (b : Bool)
            → ((e : ℕ) (ds : List ℕ)
                → l.defer ≡ e ∷ ds
                → Leaves rank now n (
                    run_deferred callback fuel now
                      (invoke callback now (deferred e) (record l { defer = ds }))))
            → Leaves rank now n (elim es [
              | [] ↦ some l
              | e ∷ ds ↦
                  (let more =
                      run_deferred callback fuel now
                        (invoke callback now (deferred e) (record l { defer = ds })) in
                    if b then some l else more)
            ])
        go [] m b f = h
        go (e ∷ ds) m true f = h
        go (e ∷ ds) m false f = f e ds m

    run_one_idle-HasEnded :
        (d : Option ℕ) (l : EventLoop W) → HasEnded (run_one_idle callback now d l)
    unfolding run_one_idle
    run_one_idle-HasEnded d l = go l.idle
      where
        go :
            (es : List ℕ)
            → HasEnded (elim es [
              | [] ↦ if l.again then continues l else waits d l
              | e ∷ es ↦ continues (invoke callback now (deferred e) (record l { idle = es }))
            ])
        go [] = HasEnded-if l.again _ _ tt tt
        go (e ∷ es) = tt

    after_deferred-HasEnded :
        (n : ℕ) (d : Option ℕ) (r : Option (EventLoop W))
        → Leaves rank now n r
        → HasEnded (after_deferred callback now d r)
    after_deferred-HasEnded n d none q = q
    after_deferred-HasEnded n d (some l) q = HasEnded-if l.quit _ _ tt (run_one_idle-HasEnded d l)

    after_timers-HasEnded :
        (fuel n : ℕ) (r : Option (Option ℕ × EventLoop W))
        → LeavesTimed rank now n r
        → n < fuel
        → HasEnded (after_timers callback fuel now r)
    after_timers-HasEnded fuel n none q k = q
    after_timers-HasEnded fuel n (some (d, l)) q k =
        HasEnded-if l.quit _ _ tt
          (after_deferred-HasEnded n d _ (run_deferred-Leaves fuel n l q (omega arith)))

    pub round-HasEnded :
        (fuel : ℕ) (l : EventLoop W)
        → budget now rank l < fuel
        → HasEnded (round callback fuel now l)
    unfolding round todo
    round-HasEnded fuel l h =
        after_timers-HasEnded fuel (budget now rank l) _
          (handle_timers-Leaves now callback rank settles fuel (budget now rank l)
            (record l { again = false }) (omega arith) h)
          h
