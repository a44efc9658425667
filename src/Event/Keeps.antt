-- ===== src/Event/Keeps.antt =====
-- Properties of the loop that hold after the loops that run callbacks.
use mpdscribble.Base.{
  ◌≤◌, Bool-cases, inl, inr, arith, ℕ, zero, suc, ◌+◌, Bool, true, false, List, [], ◌∷◌, Option,
  none, some, if◌then◌else◌, leb, ltb, ◌==◌, ◌||◌, ◌-◌,
}
use mpdscribble.Event.Types.{
  Timer, next_bucket_index, bucket_index_at, n_buckets, span, resolution, get_bucket_start_time,
}
use mpdscribble.Event.Loop.{EventLoop, Callback, coarse_timer, fine_timer, deferred, Command}
use mpdscribble.Event.Closed.{IsClosed, invoke-P}
use mpdscribble.Event.Run.{
  invoke, run_or_keep, run_moved, run_list, run_buckets, run_ready, run_span, push_back,
  move_bucket, set_moved, set_ready, set_last_time, run_deferred,
}

-- A timer is run only when it is due.
abbrev pub IsDue : ℕ → Callback → Type 0
IsDue now (coarse_timer t) = t.due ≤ now
IsDue now (fine_timer t) = t.due ≤ now
IsDue now (deferred e) = Unit

module _ {W : Type 0} where
  -- The property if there is a loop.
  abbrev pub Kept : (EventLoop W → Type 0) → Option (EventLoop W) → Type 0
  Kept P none = Unit
  Kept P (some l) = P l

  -- What the wheel does between the callbacks keeps the property.
  pub record IsStable (now : ℕ) (P : EventLoop W → Type 0) : Type 0 where
    pub closed : IsClosed now P
    pub bucket_moved : (i : ℕ) (l : EventLoop W) → P l → P (move_bucket i l)
    pub pushed_back : (i : ℕ) (t : Timer) (l : EventLoop W) → P l → P (push_back i t l)
    pub moved_set : (ts : List Timer) (l : EventLoop W) → P l → P (set_moved ts l)
    pub last_time_set : (l : EventLoop W) → P l → P (set_last_time (get_bucket_start_time now) l)

  -- The same for the callbacks of one program.
  pub record IsRunStable (callback : Callback → ℕ → EventLoop W → W × List Command) (now : ℕ)
      (P : EventLoop W → Type 0) : Type 0 where
    pub invoked : (c : Callback) (l : EventLoop W) → IsDue now c → P l → P (invoke callback now c l)
    pub bucket_moved : (i : ℕ) (l : EventLoop W) → P l → P (move_bucket i l)
    pub pushed_back : (i : ℕ) (t : Timer) (l : EventLoop W) → P l → P (push_back i t l)
    pub moved_set : (ts : List Timer) (l : EventLoop W) → P l → P (set_moved ts l)
    pub last_time_set : (l : EventLoop W) → P l → P (set_last_time (get_bucket_start_time now) l)

  module _ (callback : Callback → ℕ → EventLoop W → W × List Command) (now : ℕ) where
    pub stable-IsRunStable :
        {P : EventLoop W → Type 0} → IsStable now P → IsRunStable callback now P
    stable-IsRunStable stable = record {
      invoked = λ c l d p. invoke-P stable.closed callback c l p;
      bucket_moved = stable.bucket_moved;
      pushed_back = stable.pushed_back;
      moved_set = stable.moved_set;
      last_time_set = stable.last_time_set;
    }

    module _ {P : EventLoop W → Type 0} (stable : IsRunStable callback now P) where
      keeps-if : (b : Bool) (l m : EventLoop W) → P l → P m → P (if b then l else m)
      keeps-if true l m p q = p
      keeps-if false l m p q = q

      run_or_keep-P :
          (i : ℕ) (t : Timer) (l : EventLoop W) → P l → P (run_or_keep callback now i t l)
      unfolding run_or_keep
      run_or_keep-P i t l p = elim (Bool-cases (leb t.due now)) [
        | inl e ↦ rw e (stable.invoked (coarse_timer t) l (ground arith) p)
        | inr e ↦ rw e (stable.pushed_back i t l p)
      ]

      run_moved-P : (count i : ℕ) (l : EventLoop W) → P l → P (run_moved callback count now i l)
      unfolding run_moved
      run_moved-P zero i l p = p
      run_moved-P (suc count) i l p =
          go l.moved (λ t ts. run_moved-P count i _ (run_or_keep-P i t _ (stable.moved_set ts l p)))
        where
          go :
              (ts : List Timer)
              → ((t : Timer) (us : List Timer)
                  → P (
                      run_moved callback count now i
                        (run_or_keep callback now i t (set_moved us l))))
              → P (elim ts [
                | [] ↦ l
                | t ∷ us ↦
                    run_moved callback count now i (run_or_keep callback now i t (set_moved us l))
              ])
          go [] f = p
          go (t ∷ us) f = f t us

      pub run_list-P : (i : ℕ) (l : EventLoop W) → P l → P (run_list callback now i l)
      unfolding run_list
      run_list-P i l p = run_moved-P _ i _ (stable.bucket_moved i l p)

      pub run_buckets-P :
          (count i last : ℕ) (l : EventLoop W) → P l → P (run_buckets callback count now i last l)
      unfolding run_buckets
      run_buckets-P zero i last l p = p
      run_buckets-P (suc count) i last l p =
          keeps-if (next_bucket_index i == last) _ _ (run_list-P i l p)
            (run_buckets-P count (next_bucket_index i) last _ (run_list-P i l p))

      pub run_span-P : (l : EventLoop W) → P l → P (run_span callback now l)
      unfolding run_span
      run_span-P l p =
          let last = l.coarse_timers.last_time in
          keeps-if (ltb now last || leb (last + span - resolution) now) _ _
            (run_buckets-P n_buckets _ _ _ (stable.last_time_set l p))
            (keeps-if (bucket_index_at last == bucket_index_at now) _ _ p
              (run_buckets-P n_buckets _ _ _ (stable.last_time_set l p)))

    module _ {P : EventLoop W → Type 0} (closed : IsClosed now P) where
      pub run_ready-P :
          (fuel : ℕ)
          → ((ts : List Timer) (l : EventLoop W) → P l → P (set_ready ts l))
          → (l : EventLoop W) → P l
          → Kept P (run_ready callback fuel now l)
      unfolding run_ready
      run_ready-P zero s l p = tt
      run_ready-P (suc fuel) s l p =
          go l.coarse_timers.ready
            (λ t ts. run_ready-P fuel s _ (invoke-P closed callback (coarse_timer t) _ (s ts l p)))
        where
          go :
              (ts : List Timer)
              → ((t : Timer) (us : List Timer)
                  → Kept P (
                      run_ready callback fuel now
                        (invoke callback now (coarse_timer t) (set_ready us l))))
              → Kept P (elim ts [
                | [] ↦ some l
                | t ∷ us ↦
                    run_ready callback fuel now
                      (invoke callback now (coarse_timer t) (set_ready us l))
              ])
          go [] f = p
          go (t ∷ us) f = f t us

      pub run_deferred-P :
          (fuel : ℕ) (l : EventLoop W) → P l → Kept P (run_deferred callback fuel now l)
      unfolding run_deferred
      run_deferred-P zero l p = tt
      run_deferred-P (suc fuel) l p = go l.defer l.quit (λ e es.
          run_deferred-P fuel _
            (invoke-P closed callback (deferred e) _ (closed.deferred_set es l.idle l p)))
        where
          go :
              (es : List ℕ) (b : Bool)
              → ((e : ℕ) (ds : List ℕ)
                  → Kept P (
                      run_deferred callback fuel now
                        (invoke callback now (deferred e) (record l { defer = ds }))))
              → Kept P (elim es [
                | [] ↦ some l
                | e ∷ ds ↦
                    (if b
                      then some l
                      else run_deferred callback fuel now
                          (invoke callback now (deferred e) (record l { defer = ds })))
              ])
          go [] b f = p
          go (e ∷ ds) true f = p
          go (e ∷ ds) false f = f e ds
