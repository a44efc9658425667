-- ===== src/Event/Coarse.antt =====
-- Where the timers of the wheel stand while it runs.
use mpdscribble.Base.{
  ℕ, zero, suc, ◌≤◌, ◌<◌, ◌≡◌, ◌≢◌, refl, ap, sym, subst, Bool, true, List, [], ◌∷◌, arith, leb,
  ltb, length, Bool-cases, inl, inr, ltb→lt,
}
use mpdscribble.Event.Types.{Timer, bucket_index_at}
use mpdscribble.Event.Wheel.{insert_wheel}
use mpdscribble.Event.Loop.{
  EventLoop, Callback, coarse_timer, Command, insert_coarse, insert_fine, unlink_coarse,
  unlink_fine,
}
use mpdscribble.Event.All.{
  All, All-map, All-append, All-clear_bucket, All-unlink, length-unlink, All-set_bucket,
}
use mpdscribble.Event.Closed.{IsClosed, invoke-P}
use mpdscribble.Event.Run.{run_or_keep, run_moved, run_list, push_back, move_bucket, set_moved}

-- No timer.
abbrev pub Never : Timer → Type 0
Never t = ⊥

-- If the wheel is marked empty then it is, and so is the list that moves.
abbrev EmptyIf : Bool → (ℕ → List Timer) → List Timer → Type 0
EmptyIf empty buckets moved = empty ≡ true → ((j : ℕ) → All Never (buckets j)) × All Never moved

-- The timers of the bucket `j` have the property `B j`, those of the list that moves `C`.
abbrev pub Holds : {W : Type 0} → (ℕ → Timer → Type 0) → (Timer → Type 0) → EventLoop W → Type 0
Holds B C l =
    ((j : ℕ) → All (B j) (l.coarse_timers.buckets j))
    × All C l.moved
    × EmptyIf l.coarse_timers.empty l.coarse_timers.buckets l.moved

-- A timer that is not yet due may be put in its bucket.
abbrev pub Accepts : ℕ → (ℕ → Timer → Type 0) → Type 0
Accepts now B = (t : Timer) → now < t.due → B (bucket_index_at t.due) t

module _ {W : Type 0} (now : ℕ) where
  module _ (B : ℕ → Timer → Type 0) (C : Timer → Type 0) (accepts : Accepts now B) where
    insert_wheel-Holds :
        (t : Timer) (l : EventLoop W) → Holds B C l → Holds B C (insert_coarse now t l)
    unfolding insert_coarse insert_wheel
    insert_wheel-Holds t l (f, c, e) = elim (Bool-cases (ltb now t.due)) [
      | inl h ↦ rw h (
        All-set_bucket B _ _ l.coarse_timers.buckets
            (All-append (B (bucket_index_at t.due)) _ _ (f _) (accepts t (ltb→lt _ _ h), tt)) f,
        c,
        λ g. absurd (ground arith),
      )
      | inr h ↦ rw h (f, c, λ g. absurd (ground arith))
    ]

    pub Holds-IsClosed : IsClosed {W = W} now (Holds B C)
    unfolding unlink_coarse unlink_fine insert_fine
    Holds-IsClosed = record {
      coarse_unlinked = λ id l (f, c, e). (
        (λ j. All-unlink (B j) id _ (f j)),
        All-unlink C id _ c,
        λ g. ((λ j. All-unlink Never id _ ((e g).0 j)), All-unlink Never id _ (e g).1),
      );
      fine_unlinked = λ id l p. p;
      coarse_inserted = λ t l h p. insert_wheel-Holds t l p;
      fine_inserted = λ t l h p. p;
      deferred_set = λ ds es l p. p;
      again_set = λ l p. p;
      quit_set = λ l p. p;
      world_set = λ w l p. p;
    }

  -- The list that moves does not get longer.
  AtMost-IsClosed : (n : ℕ) → IsClosed {W = W} now (λ l. length l.moved ≤ n)
  unfolding unlink_coarse unlink_fine insert_fine insert_coarse
  AtMost-IsClosed n = record {
    coarse_unlinked = λ id l p. omega (arith, length-unlink id l.moved);
    fine_unlinked = λ id l p. p;
    coarse_inserted = λ t l h p. p;
    fine_inserted = λ t l h p. p;
    deferred_set = λ ds es l p. p;
    again_set = λ l p. p;
    quit_set = λ l p. p;
    world_set = λ w l p. p;
  }

  module _ (callback : Callback → ℕ → EventLoop W → W × List Command) where
    module _ (B : ℕ → Timer → Type 0) (i : ℕ) (accepts : Accepts now B) where
      -- a timer that is moved may stay in the bucket if it is not yet due
      abbrev Stays : Timer → Type 0
      Stays t = now < t.due → B i t

      set_moved-Holds :
          (t : Timer) (ts : List Timer) (l : EventLoop W)
          → Holds B Stays l
          → l.moved ≡ t ∷ ts
          → Stays t × Holds B Stays (set_moved ts l)
      set_moved-Holds t ts l (f, c, e) m =
          let (s, cs) : All Stays (t ∷ ts) = subst (All Stays) m c in
          (s, (f, cs, λ g. absurd (subst (All Never) m (e g).1).0))

      run_or_keep-Holds :
          (t : Timer) (l : EventLoop W)
          → Stays t
          → Holds B Stays l
          → (l.coarse_timers.empty ≡ true → ⊥)
          → Holds B Stays (run_or_keep callback now i t l)
      unfolding run_or_keep push_back
      run_or_keep-Holds t l s (f, c, e) g = elim (Bool-cases (leb t.due now)) [
        | inl h ↦
            rw h (invoke-P (Holds-IsClosed B Stays accepts) callback (coarse_timer t) l (f, c, e))
        | inr h ↦ rw h (
          All-set_bucket B i _ l.coarse_timers.buckets
              (All-append (B i) _ _ (f i) (s (ground arith), tt)) f,
          c,
          λ k. absurd (g k),
        )
      ]

      length-run_or_keep :
          (n : ℕ) (t : Timer) (l : EventLoop W)
          → length l.moved ≤ n
          → length (run_or_keep callback now i t l).moved ≤ n
      unfolding run_or_keep push_back
      length-run_or_keep n t l h = elim (Bool-cases (leb t.due now)) [
        | inl k ↦ rw k (invoke-P (AtMost-IsClosed n) callback (coarse_timer t) l h)
        | inr k ↦ rw k h
      ]

      run_moved-Holds :
          (n : ℕ) (l : EventLoop W)
          → Holds B Stays l
          → length l.moved ≤ n
          → Holds B Never (run_moved callback n now i l)
      unfolding run_moved
      run_moved-Holds zero l (f, c, e) h = (f, none_left l.moved h, e)
        where
          none_left : (ts : List Timer) → length ts ≤ 0 → All Never ts
          none_left [] k = tt
          none_left (t ∷ ts) k = absurd (omega arith)
      run_moved-Holds (suc n) l p h = go l.moved refl (λ t ts m.
          let (s, q) = set_moved-Holds t ts l p m in
          run_moved-Holds n _
            (run_or_keep-Holds t (set_moved ts l) s q (λ g. (subst (All Never) m (p.2 g).1).0))
            (length-run_or_keep n t (set_moved ts l) (shorter t ts m)))
        where
          shorter : (t : Timer) (ts : List Timer) → l.moved ≡ t ∷ ts → length ts ≤ n
          shorter t ts m = omega (arith, ap length m)

          go :
              (ts : List Timer)
              → l.moved ≡ ts
              → ((t : Timer) (us : List Timer)
                  → l.moved ≡ t ∷ us
                  → Holds B Never
                      (run_moved callback n now i (run_or_keep callback now i t (set_moved us l))))
              → Holds B Never (elim ts [
                | [] ↦ l
                | t ∷ us ↦
                    run_moved callback n now i (run_or_keep callback now i t (set_moved us l))
              ])
          go [] m f = (p.0, subst (All Never) (sym m) tt, p.2)
          go (t ∷ us) m f = f t us m

    -- A bucket that is run: what was in it and is not yet due may stay, all else was run.
    pub run_list-Holds :
        (A B : ℕ → Timer → Type 0) (i : ℕ) (l : EventLoop W)
        → Accepts now B
        → ((t : Timer) → A i t → now < t.due → B i t)
        → ((j : ℕ) (t : Timer) → j ≢ i → A j t → B j t)
        → Holds A Never l
        → Holds B Never (run_list callback now i l)
    unfolding run_list move_bucket
    run_list-Holds A B i l accepts stay other (f, c, e) =
        run_moved-Holds B i accepts _ (move_bucket i l)
          (
            All-clear_bucket A B i l.coarse_timers.buckets other f,
            All-map (A i) _ _ stay (f i),
            λ g. (All-set_bucket (λ k. Never) i [] l.coarse_timers.buckets tt (e g).0, (e g).0 i),
          )
          (omega arith)
