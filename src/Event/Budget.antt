-- ===== src/Event/Budget.antt =====
-- The loops over the timers end, with no more left to do than before.
use mpdscribble.Base.{
  ℕ, zero, suc, ◌-◌, ◌≤◌, ◌<◌, ◌≡◌, refl, ap, ◌∙◌, false, List, [], ◌∷◌, Option, none, some, arith,
  Bool-cases, inl, inr, ◌>>=◌, if◌then◌else◌, ltb, length,
}
use mpdscribble.Event.Types.{Timer}
use mpdscribble.Event.Loop.{EventLoop, Callback, Command, coarse_timer, fine_timer}
use mpdscribble.Event.Keeps.{IsRunStable, run_span-P}
use mpdscribble.Event.Sleep.{sleep-P}
use mpdscribble.Event.Ends.{todo, count_due, Settles, budget, budget-invoke}
use mpdscribble.Event.Run.{
  invoke, run_ready, run_span, run_wheel, run_timers, sleep, handle_timers, set_ready, set_timers,
  with_fine, move_bucket, push_back,
}

module _ {W : Type 0} where
  -- There is a result, with no more left than a number.
  abbrev pub Leaves : (W → ℕ) → ℕ → ℕ → Option (EventLoop W) → Type 0
  Leaves rank now n none = ⊥
  Leaves rank now n (some l) = budget now rank l ≤ n

  abbrev pub LeavesTimed : (W → ℕ) → ℕ → ℕ → Option (Option ℕ × EventLoop W) → Type 0
  LeavesTimed rank now n none = ⊥
  LeavesTimed rank now n (some (d, l)) = budget now rank l ≤ n

  module _ (now : ℕ) (callback : Callback → ℕ → EventLoop W → W × List Command) (rank : W → ℕ)
      (settles : Settles now callback rank) where
    -- a fine timer that is due and taken from the list
    budget-set_timers :
        (t : Timer) (ts : List Timer) (l : EventLoop W)
        → l.timers ≡ t ∷ ts
        → ltb now t.due ≡ false
        → suc (budget now rank (set_timers ts l)) ≤ budget now rank l
    unfolding todo count_due
    budget-set_timers t ts l m e =
        let before : count_due now l.timers ≡ suc (count_due now ts) =
          ap (count_due now) m ∙ due_first in
        omega (arith, before)
      where
        due_first : count_due now (t ∷ ts) ≡ suc (count_due now ts)
        due_first = ground arith

    run_timers-Leaves :
        (fuel n : ℕ) (l : EventLoop W)
        → budget now rank l ≤ n
        → budget now rank l < fuel
        → LeavesTimed rank now n (run_timers callback fuel now l)
    unfolding run_timers
    run_timers-Leaves zero n l h k = elim k [ ]
    run_timers-Leaves (suc fuel) n l h k = go l.timers refl (λ t ts m e.
        let less = budget-set_timers t ts l m e in
        let kept = budget-invoke now callback rank settles (fine_timer t) (set_timers ts l) in
        run_timers-Leaves fuel n _ (omega arith) (omega arith))
      where
        go :
            (ts : List Timer)
            → l.timers ≡ ts
            → ((t : Timer) (us : List Timer)
                → l.timers ≡ t ∷ us
                → ltb now t.due ≡ false
                → LeavesTimed rank now n (
                    run_timers callback fuel now
                      (invoke callback now (fine_timer t) (set_timers us l))))
            → LeavesTimed rank now n (elim ts [
              | [] ↦ some (none, l)
              | t ∷ us ↦
                  (let more =
                      run_timers callback fuel now
                        (invoke callback now (fine_timer t) (set_timers us l)) in
                    if ltb now t.due then some (some (t.due - now), l) else more)
            ])
        go [] m f = h
        go (t ∷ us) m f = elim (Bool-cases (ltb now t.due)) [
          | inl e ↦ rw e h
          | inr e ↦ rw e (f t us m e)
        ]

    budget-set_ready :
        (t : Timer) (ts : List Timer) (l : EventLoop W)
        → l.coarse_timers.ready ≡ t ∷ ts
        → suc (budget now rank (set_ready ts l)) ≤ budget now rank l
    unfolding todo
    budget-set_ready t ts l m = omega (arith, ap length m)

    run_ready-Leaves :
        (fuel n : ℕ) (l : EventLoop W)
        → budget now rank l ≤ n
        → budget now rank l < fuel
        → Leaves rank now n (run_ready callback fuel now l)
    unfolding run_ready
    run_ready-Leaves zero n l h k = elim k [ ]
    run_ready-Leaves (suc fuel) n l h k = go l.coarse_timers.ready refl (λ t ts m.
        let less = budget-set_ready t ts l m in
        let kept = budget-invoke now callback rank settles (coarse_timer t) (set_ready ts l) in
        run_ready-Leaves fuel n _ (omega arith) (omega arith))
      where
        go :
            (ts : List Timer)
            → l.coarse_timers.ready ≡ ts
            → ((t : Timer) (us : List Timer)
                → l.coarse_timers.ready ≡ t ∷ us
                → Leaves rank now n (
                    run_ready callback fuel now
                      (invoke callback now (coarse_timer t) (set_ready us l))))
            → Leaves rank now n (elim ts [
              | [] ↦ some l
              | t ∷ us ↦
                  run_ready callback fuel now
                    (invoke callback now (coarse_timer t) (set_ready us l))
            ])
        go [] m f = h
        go (t ∷ us) m f = f t us m

    budget-IsRunStable : (n : ℕ) → IsRunStable callback now (λ l. budget now rank l ≤ n)
    unfolding todo move_bucket push_back
    budget-IsRunStable n = record {
      invoked = λ c l d h. omega (arith, budget-invoke now callback rank settles c l);
      bucket_moved = λ i l h. h;
      pushed_back = λ i t l h. h;
      moved_set = λ ts l h. h;
      last_time_set = λ l h. h;
    }

    sleep-budget :
        (n : ℕ) (l : EventLoop W) → budget now rank l ≤ n → budget now rank (sleep now l).1 ≤ n
    unfolding todo
    sleep-budget n l h = sleep-P (λ m. budget now rank m ≤ n) now l h h

    run_wheel-Leaves :
        (fuel n : ℕ) (l : EventLoop W)
        → budget now rank l ≤ n
        → n < fuel
        → LeavesTimed rank now n (run_wheel callback fuel now l)
    unfolding run_wheel
    run_wheel-Leaves fuel n l h k =
        go (run_ready callback fuel now l) (run_ready-Leaves fuel n l h (omega arith))
      where
        go :
            (r : Option (EventLoop W))
            → Leaves rank now n r
            → LeavesTimed rank now n (r >>= (λ l. some (sleep now (run_span callback now l))))
        go none q = q
        go (some m) q =
            sleep-budget n (run_span callback now m)
              (run_span-P callback now (budget-IsRunStable n) m q)

    pub handle_timers-Leaves :
        (fuel n : ℕ) (l : EventLoop W)
        → budget now rank l ≤ n
        → n < fuel
        → LeavesTimed rank now n (handle_timers callback fuel now l)
    unfolding handle_timers
    handle_timers-Leaves fuel n l h k =
        go (run_timers callback fuel now l) (run_timers-Leaves fuel n l h (omega arith))
      where
        combined :
            (d : Option ℕ) (r : Option (Option ℕ × EventLoop W))
            → LeavesTimed rank now n r
            → LeavesTimed rank now n (r >>= (λ q. some (with_fine callback d q)))
        combined d none q = q
        combined d (some (e, m)) q = q

        go :
            (r : Option (Option ℕ × EventLoop W))
            → LeavesTimed rank now n r
            → LeavesTimed rank now n (
                r >>= (λ (d, m).
                  run_wheel callback fuel now m >>= (λ q. some (with_fine callback d q))))
        go none q = q
        go (some (d, m)) q =
            combined d (run_wheel callback fuel now m) (run_wheel-Leaves fuel n m q k)
