-- ===== src/Event/Quiet.antt =====
-- What holds as long as nothing was scheduled.
use mpdscribble.Base.{ℕ, ◌≡◌, false, List, arith, ltb, Bool-cases, inl, inr}
use mpdscribble.Event.Types.{Timer, unlink}
use mpdscribble.Event.Wheel.{insert_wheel}
use mpdscribble.Event.Loop.{EventLoop, unlink_coarse, unlink_fine, insert_coarse, insert_fine}
use mpdscribble.Event.All.{Ordered, unlink-Ordered, insert_sorted-Ordered}
use mpdscribble.Event.Closed.{IsClosed}
use mpdscribble.Event.Keeps.{IsStable}
use mpdscribble.Event.Run.{move_bucket, push_back}

-- A property of the timers, the list `ready` and the buckets that holds with fewer timers.
pub record IsLess (F : List Timer → List Timer → (ℕ → List Timer) → Type 0) : Type 0 where
  pub fine_less :
      (id : ℕ) (ts rs : List Timer) (b : ℕ → List Timer) → F ts rs b → F (unlink id ts) rs b
  pub coarse_less :
      (id : ℕ) (ts rs : List Timer) (b : ℕ → List Timer)
      → F ts rs b
      → F ts (unlink id rs) (λ j. unlink id (b j))

module _ {W : Type 0} (now : ℕ) where
  -- A property of the timers, the list `ready` and the buckets, while nothing was scheduled.
  abbrev pub Quiet : (List Timer → List Timer → (ℕ → List Timer) → Type 0) → EventLoop W → Type 0
  Quiet F l = l.again ≡ false → F l.timers l.coarse_timers.ready l.coarse_timers.buckets

  pub Quiet-IsClosed :
      (F : List Timer → List Timer → (ℕ → List Timer) → Type 0) → IsLess F → IsClosed now (Quiet F)
  unfolding unlink_coarse unlink_fine insert_coarse insert_fine
  Quiet-IsClosed F less = record {
    coarse_unlinked = λ id l p e. less.coarse_less id _ _ _ (p e);
    fine_unlinked = λ id l p e. less.fine_less id _ _ _ (p e);
    coarse_inserted = λ t l h p e. absurd (ground arith);
    fine_inserted = λ t l h p e. absurd (ground arith);
    deferred_set = λ ds es l p. p;
    again_set = λ l p e. absurd (ground arith);
    quit_set = λ l p. p;
    world_set = λ w l p. p;
  }

  pub Quiet-IsStable :
      (F : List Timer → List Timer → Type 0)
      → IsLess (λ ts rs b. F ts rs)
      → IsStable now (Quiet (λ ts rs b. F ts rs))
  unfolding move_bucket push_back
  Quiet-IsStable F less = record {
    closed = Quiet-IsClosed (λ ts rs b. F ts rs) less;
    bucket_moved = λ i l p. p;
    pushed_back = λ i t l p. p;
    moved_set = λ ts l p. p;
    last_time_set = λ l p. p;
  }

  pub Ordered-IsStable : IsStable {W = W} now (λ l. Ordered l.timers)
  unfolding unlink_coarse unlink_fine insert_coarse insert_fine move_bucket push_back
  Ordered-IsStable = record {
    closed = record {
      coarse_unlinked = λ id l p. p;
      fine_unlinked = λ id l p. unlink-Ordered id l.timers p;
      coarse_inserted = λ t l h p. p;
      fine_inserted = λ t l h p. insert_sorted-Ordered t l.timers p;
      deferred_set = λ ds es l p. p;
      again_set = λ l p. p;
      quit_set = λ l p. p;
      world_set = λ w l p. p;
    };
    bucket_moved = λ i l p. p;
    pushed_back = λ i t l p. p;
    moved_set = λ ts l p. p;
    last_time_set = λ l p. p;
  }

  -- The last time of the wheel does not change outside of its run.
  pub LastTime-IsClosed : (c : ℕ) → IsClosed {W = W} now (λ l. l.coarse_timers.last_time ≡ c)
  unfolding unlink_coarse unlink_fine insert_coarse insert_fine insert_wheel
  LastTime-IsClosed c = record {
    coarse_unlinked = λ id l p. p;
    fine_unlinked = λ id l p. p;
    coarse_inserted =
        λ t l h p. elim (Bool-cases (ltb now t.due)) [ inl e ↦ rw e p | inr e ↦ rw e p ];
    fine_inserted = λ t l h p. p;
    deferred_set = λ ds es l p. p;
    again_set = λ l p. p;
    quit_set = λ l p. p;
    world_set = λ w l p. p;
  }

  pub both-IsClosed :
      (P Q : EventLoop W → Type 0) → IsClosed now P → IsClosed now Q → IsClosed now (λ l. P l × Q l)
  both-IsClosed P Q a b = record {
    coarse_unlinked = λ id l (p, q). (a.coarse_unlinked id l p, b.coarse_unlinked id l q);
    fine_unlinked = λ id l (p, q). (a.fine_unlinked id l p, b.fine_unlinked id l q);
    coarse_inserted = λ t l h (p, q). (a.coarse_inserted t l h p, b.coarse_inserted t l h q);
    fine_inserted = λ t l h (p, q). (a.fine_inserted t l h p, b.fine_inserted t l h q);
    deferred_set = λ ds es l (p, q). (a.deferred_set ds es l p, b.deferred_set ds es l q);
    again_set = λ l (p, q). (a.again_set l p, b.again_set l q);
    quit_set = λ l (p, q). (a.quit_set l p, b.quit_set l q);
    world_set = λ w l (p, q). (a.world_set w l p, b.world_set w l q);
  }
