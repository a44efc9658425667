-- ===== src/Event/Rest.antt =====
-- EventLoop::Run() does not wait while there is something to do, and not past a timer.
use mpdscribble.Base.{
  ℕ, zero, suc, ◌+◌, ◌-◌, ◌≤◌, ◌%◌, ◌≡◌, refl, true, List, [], ◌∷◌, Option, none, some, arith, ltb,
  Bool-cases, inl, inr, ltb→lt, subst, sym, if◌then◌else◌,
}
use mpdscribble.Event.Types.{Timer, resolution}
use mpdscribble.Event.Loop.{EventLoop, Callback, Command, fine_timer}
use mpdscribble.Event.All.{All, All-map, All-unlink, Ordered}
use mpdscribble.Event.Closed.{IsClosed, invoke-P}
use mpdscribble.Event.Coarse.{Never, Holds, Holds-IsClosed}
use mpdscribble.Event.Quiet.{IsLess, Ordered-IsStable, LastTime-IsClosed, both-IsClosed}
use mpdscribble.Event.Sleep.{LaterCoarse}
use mpdscribble.Event.Buckets.{Placed}
use mpdscribble.Event.Run.{invoke, earlier, run_timers, set_timers}

-- A fine timer is not due before the end of the sleep from the time `now`, and a coarse timer not more
-- than RESOLUTION before it.
abbrev pub FineInTime : ℕ → Option ℕ → Timer → Type 0
FineInTime now none t = ⊥
FineInTime now (some d) t = now + d ≤ t.due

abbrev pub CoarseInTime : ℕ → Option ℕ → Timer → Type 0
CoarseInTime now none t = ⊥
CoarseInTime now (some d) t = now + d ≤ t.due + resolution

pub LaterCoarse-InTime :
    (now : ℕ) (d : Option ℕ) (t : Timer) → LaterCoarse now d t → CoarseInTime now d t
LaterCoarse-InTime now none t p = p
LaterCoarse-InTime now (some d) t (p, q) = p

pub earlier-FineInTime :
    (now : ℕ) (fine coarse : Option ℕ) (t : Timer)
    → FineInTime now fine t
    → FineInTime now (earlier fine coarse) t
unfolding earlier
earlier-FineInTime now none coarse t p = absurd p
earlier-FineInTime now (some f) none t p = p
earlier-FineInTime now (some f) (some c) t p = elim (Bool-cases (ltb c f)) [
  | inl e ↦ rw e (let h = ltb→lt c f e in omega arith)
  | inr e ↦ rw e p
]

pub earlier-CoarseInTime :
    (now : ℕ) (fine coarse : Option ℕ) (t : Timer)
    → CoarseInTime now coarse t
    → CoarseInTime now (earlier fine coarse) t
unfolding earlier
earlier-CoarseInTime now none coarse t p = p
earlier-CoarseInTime now (some f) none t p = absurd p
earlier-CoarseInTime now (some f) (some c) t p = elim (Bool-cases (ltb c f)) [
  | inl e ↦ rw e p
  | inr e ↦ rw e (ground arith)
]

abbrev pub FinesInTime : ℕ → Option ℕ → List Timer → List Timer → Type 0
FinesInTime now d ts rs = All (FineInTime now d) ts

pub FinesInTime-IsLess : (now : ℕ) (d : Option ℕ) → IsLess (λ ts rs b. FinesInTime now d ts rs)
FinesInTime-IsLess now d = record {
  fine_less = λ id ts rs b p. All-unlink (FineInTime now d) id ts p;
  coarse_less = λ id ts rs b p. p;
}

abbrev pub NoneReady : List Timer → List Timer → Type 0
NoneReady ts rs = All Never rs

pub NoneReady-IsLess : IsLess (λ ts rs b. NoneReady ts rs)
NoneReady-IsLess = record {
  fine_less = λ id ts rs b p. p;
  coarse_less = λ id ts rs b p. All-unlink Never id rs p;
}

-- No timer is ready, and none is due long before the end of the sleep.
abbrev pub InTime : ℕ → Option ℕ → List Timer → List Timer → (ℕ → List Timer) → Type 0
InTime now d ts rs b =
    All (FineInTime now d) ts × All Never rs × ((j : ℕ) → All (CoarseInTime now d) (b j))

pub InTime-IsLess : (now : ℕ) (d : Option ℕ) → IsLess (InTime now d)
InTime-IsLess now d = record {
  fine_less = λ id ts rs b (p, q, r). (All-unlink (FineInTime now d) id ts p, q, r);
  coarse_less = λ id ts rs b (p, q, r).
      (p, All-unlink Never id rs q, λ j. All-unlink (CoarseInTime now d) id (b j) (r j));
}

module _ {W : Type 0} where
  -- The timers of the wheel stand in their buckets, it did not run in the future, and the list of the
  -- other timers is sorted.
  pub record IsSound (now : ℕ) (l : EventLoop W) : Type 0 where
    pub placed : Holds (Placed l.coarse_timers.last_time) Never l
    pub started : l.coarse_timers.last_time ≤ now
    pub aligned : l.coarse_timers.last_time % resolution ≡ 0
    pub ordered : Ordered l.timers

  -- outside of the run of the wheel, for its last time `c`
  abbrev pub PlacedAt : ℕ → EventLoop W → Type 0
  PlacedAt c l = (Holds (Placed c) Never l × (l.coarse_timers.last_time ≡ c)) × Ordered l.timers

  pub PlacedAt-IsClosed : (now c : ℕ) → c ≤ now → IsClosed now (PlacedAt c)
  PlacedAt-IsClosed now c h =
      both-IsClosed now _ _
        (both-IsClosed now _ _ (Holds-IsClosed now (Placed c) Never (λ t k. (refl, omega arith)))
          (LastTime-IsClosed now c))
        (Ordered-IsStable now).closed

  pub IsSound-PlacedAt :
      (now : ℕ) (l : EventLoop W) → IsSound now l → PlacedAt l.coarse_timers.last_time l
  IsSound-PlacedAt now l s = ((s.placed, refl), s.ordered)

  pub PlacedAt-IsSound :
      (now c : ℕ) (l : EventLoop W) → c ≤ now → c % resolution ≡ 0 → PlacedAt c l → IsSound now l
  PlacedAt-IsSound now c l h a ((p, e), o) = record {
    placed = subst (λ n. Holds (Placed n) Never l) (sym e) p;
    started = omega (arith, e);
    aligned = subst (λ n. n % resolution ≡ 0) (sym e) a;
    ordered = o;
  }

  -- TimerList::Run() ends without a timer, or with the time up to the first one.
  abbrev pub FineRun : ℕ → ℕ → Option (Option ℕ × EventLoop W) → Type 0
  FineRun now c none = Unit
  FineRun now c (some (d, l)) = PlacedAt c l × All (FineInTime now d) l.timers

  module _ (callback : Callback → ℕ → EventLoop W → W × List Command) (now : ℕ) where
    pub run_timers-FineRun :
        (c fuel : ℕ) (l : EventLoop W)
        → c ≤ now
        → PlacedAt c l
        → FineRun now c (run_timers callback fuel now l)
    unfolding run_timers
    run_timers-FineRun c zero l h p = tt
    run_timers-FineRun c (suc fuel) l h (p, o) = go l.timers refl (λ t ts q.
        run_timers-FineRun c fuel _ h
          (invoke-P (PlacedAt-IsClosed now c h) callback (fine_timer t) (set_timers ts l) (p, q)))
      where
        first_due :
            (t : Timer) (ts : List Timer)
            → ltb now t.due ≡ true
            → Ordered (t ∷ ts)
            → All (FineInTime now (some (t.due - now))) (t ∷ ts)
        first_due t ts e (a, q) =
            let h = ltb→lt now t.due e in
            (omega arith, All-map (λ u. t.due ≤ u.due) _ ts (λ u k. omega arith) a)

        go :
            (ts : List Timer)
            → l.timers ≡ ts
            → ((t : Timer) (us : List Timer)
                → Ordered us
                → FineRun now c (
                    run_timers callback fuel now
                      (invoke callback now (fine_timer t) (set_timers us l))))
            → FineRun now c (elim ts [
              | [] ↦ some (none, l)
              | t ∷ us ↦
                  (let more =
                      run_timers callback fuel now
                        (invoke callback now (fine_timer t) (set_timers us l)) in
                    if ltb now t.due then some (some (t.due - now), l) else more)
            ])
        go [] m f = ((p, o), subst (All (FineInTime now none)) (sym m) tt)
        go (t ∷ us) m f =
            let q : Ordered (t ∷ us) = subst Ordered m o in
            elim (Bool-cases (ltb now t.due)) [
              | inl e ↦ rw e (
                (p, o),
                subst (All (FineInTime now (some (t.due - now)))) (sym m) (first_due t us e q),
              )
              | inr e ↦ rw e (f t us q.1)
            ]
