-- ===== src/Event/Due.antt =====
-- A timer is run only when it is due.
use mpdscribble.Base.{
  ℕ, zero, suc, ◌≤◌, ◌≡◌, false, List, [], ◌∷◌, Option, none, some, arith, Bool-cases, inl, inr,
  subst, sym, ◌>>=◌, if◌then◌else◌, ltb, ◌-◌,
}
use mpdscribble.Event.Types.{Timer}
use mpdscribble.Event.Wheel.{insert_wheel}
use mpdscribble.Event.Loop.{
  EventLoop, Callback, Command, coarse_timer, fine_timer, unlink_coarse, unlink_fine, insert_coarse,
  insert_fine,
}
use mpdscribble.Event.All.{All, All-append, All-unlink}
use mpdscribble.Event.Closed.{IsClosed, invoke-P}
use mpdscribble.Event.Ends.{world-perform_all}
use mpdscribble.Event.Keeps.{IsDue, IsRunStable, run_span-P}
use mpdscribble.Event.Sleep.{sleep-P}
use mpdscribble.Event.Run.{
  invoke, run_ready, run_span, run_wheel, run_timers, sleep, handle_timers, set_ready, set_timers,
  with_fine, move_bucket, push_back,
}

module _ {W : Type 0} (now : ℕ) (callback : Callback → ℕ → EventLoop W → W × List Command) where
  -- The timers of the list `ready` are due.
  abbrev pub ReadyDue : EventLoop W → Type 0
  ReadyDue l = All (λ t. t.due ≤ now) l.coarse_timers.ready

  ReadyDue-IsClosed : IsClosed now ReadyDue
  unfolding unlink_coarse unlink_fine insert_coarse insert_fine insert_wheel
  ReadyDue-IsClosed = record {
    coarse_unlinked = λ id l p. All-unlink (λ t. t.due ≤ now) id _ p;
    fine_unlinked = λ id l p. p;
    coarse_inserted = λ t l h p. elim (Bool-cases (ltb now t.due)) [
      | inl e ↦ rw e p
      | inr e ↦ rw e (All-append (λ t. t.due ≤ now) _ _ p (ground arith, tt))
    ];
    fine_inserted = λ t l h p. p;
    deferred_set = λ ds es l p. p;
    again_set = λ l p. p;
    quit_set = λ l p. p;
    world_set = λ w l p. p;
  }

  -- The property of the rest of the program that the callbacks keep when they are due.
  abbrev pub KeptWhenDue : (W → Type 0) → Type 0
  KeptWhenDue Q =
      (c : Callback) (l : EventLoop W) → IsDue now c → Q l.world → Q (callback c now l).0

  abbrev pub KeptTimed : (W → Type 0) → Option (Option ℕ × EventLoop W) → Type 0
  KeptTimed Q none = Unit
  KeptTimed Q (some (d, l)) = Q l.world × ReadyDue l

  abbrev KeptLoop : (W → Type 0) → Option (EventLoop W) → Type 0
  KeptLoop Q none = Unit
  KeptLoop Q (some l) = Q l.world × ReadyDue l

  module _ (Q : W → Type 0) (kept : KeptWhenDue Q) where
    invoke-kept :
        (c : Callback) (l : EventLoop W)
        → IsDue now c
        → Q l.world × ReadyDue l
        → Q (invoke callback now c l).world × ReadyDue (invoke callback now c l)
    unfolding invoke
    invoke-kept c l d (q, r) = (
      subst Q (sym (world-perform_all now (callback c now l).1 _)) (kept c l d q),
      invoke-P ReadyDue-IsClosed callback c l r,
    )

    run_timers-kept :
        (fuel : ℕ) (l : EventLoop W)
        → Q l.world × ReadyDue l
        → KeptTimed Q (run_timers callback fuel now l)
    unfolding run_timers
    run_timers-kept zero l p = tt
    run_timers-kept (suc fuel) l p = go l.timers (λ t ts e.
        run_timers-kept fuel _ (invoke-kept (fine_timer t) (set_timers ts l) (ground arith) p))
      where
        go :
            (ts : List Timer)
            → ((t : Timer) (us : List Timer)
                → ltb now t.due ≡ false
                → KeptTimed Q (
                    run_timers callback fuel now
                      (invoke callback now (fine_timer t) (set_timers us l))))
            → KeptTimed Q (elim ts [
              | [] ↦ some (none, l)
              | t ∷ us ↦
                  (let more =
                      run_timers callback fuel now
                        (invoke callback now (fine_timer t) (set_timers us l)) in
                    if ltb now t.due then some (some (t.due - now), l) else more)
            ])
        go [] f = p
        go (t ∷ us) f = elim (Bool-cases (ltb now t.due)) [
          | inl e ↦ rw e p
          | inr e ↦ rw e (f t us e)
        ]

    run_ready-kept :
        (fuel : ℕ) (l : EventLoop W)
        → Q l.world × ReadyDue l
        → KeptLoop Q (run_ready callback fuel now l)
    unfolding run_ready
    run_ready-kept zero l p = tt
    run_ready-kept (suc fuel) l (q, r) = go l.coarse_timers.ready r (λ t ts d rs.
        run_ready-kept fuel _ (invoke-kept (coarse_timer t) (set_ready ts l) d (q, rs)))
      where
        go :
            (ts : List Timer)
            → All (λ t. t.due ≤ now) ts
            → ((t : Timer) (us : List Timer)
                → t.due ≤ now
                → All (λ t. t.due ≤ now) us
                → KeptLoop Q (
                    run_ready callback fuel now
                      (invoke callback now (coarse_timer t) (set_ready us l))))
            → KeptLoop Q (elim ts [
              | [] ↦ some l
              | t ∷ us ↦
                  run_ready callback fuel now
                    (invoke callback now (coarse_timer t) (set_ready us l))
            ])
        go [] d f = (q, r)
        go (t ∷ us) (d, ds) f = f t us d ds

    kept-IsRunStable : IsRunStable callback now (λ l. Q l.world × ReadyDue l)
    unfolding move_bucket push_back
    kept-IsRunStable = record {
      invoked = invoke-kept;
      bucket_moved = λ i l p. p;
      pushed_back = λ i t l p. p;
      moved_set = λ ts l p. p;
      last_time_set = λ l p. p;
    }

    run_wheel-kept :
        (fuel : ℕ) (l : EventLoop W)
        → Q l.world × ReadyDue l
        → KeptTimed Q (run_wheel callback fuel now l)
    unfolding run_wheel
    run_wheel-kept fuel l p = go (run_ready callback fuel now l) (run_ready-kept fuel l p)
      where
        go :
            (r : Option (EventLoop W))
            → KeptLoop Q r
            → KeptTimed Q (r >>= (λ l. some (sleep now (run_span callback now l))))
        go none k = tt
        go (some m) k =
            let k2 = run_span-P callback now kept-IsRunStable m k in
            sleep-P (λ l. Q l.world × ReadyDue l) now (run_span callback now m) k2 k2

    -- The event loop calls a timer only when it is due: whatever property of the rest of the program the
    -- callbacks keep when they are called for a timer that is due, HandleTimers() keeps. It needs that
    -- the timers in the list `ready` are due at the start, and leaves it so.
    pub handle_timers-kept :
        (fuel : ℕ) (l : EventLoop W)
        → Q l.world
        → ReadyDue l
        → KeptTimed Q (handle_timers callback fuel now l)
    unfolding handle_timers
    handle_timers-kept fuel l q r =
        go (run_timers callback fuel now l) (run_timers-kept fuel l (q, r))
      where
        combined :
            (d : Option ℕ) (r : Option (Option ℕ × EventLoop W))
            → KeptTimed Q r
            → KeptTimed Q (r >>= (λ q. some (with_fine callback d q)))
        combined d none k = tt
        combined d (some (e, m)) k = k

        go :
            (r : Option (Option ℕ × EventLoop W))
            → KeptTimed Q r
            → KeptTimed Q (
                r >>= (λ (d, m).
                  run_wheel callback fuel now m >>= (λ q. some (with_fine callback d q))))
        go none k = tt
        go (some (d, m)) k = combined d (run_wheel callback fuel now m) (run_wheel-kept fuel m k)
