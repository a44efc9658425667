-- ===== src/Event/Ends.antt =====
-- The loops of a round end, if the callbacks do not ask for ever more at once.
use mpdscribble.Base.{
  ℕ, suc, ◌+◌, ◌≤◌, ◌≡◌, refl, ap, ◌∙◌, Bool, true, false, List, [], ◌∷◌, arith, Bool-cases, inl,
  inr, if◌then◌else◌, ltb, leb, ◌==◌, length, length-append, ◌||◌,
}
use mpdscribble.Event.Types.{Timer, unlink}
use mpdscribble.Event.Wheel.{insert_sorted, insert_wheel}
use mpdscribble.Event.Loop.{
  EventLoop, Callback, Command, perform, perform_all, unlink_coarse, unlink_fine, unlink_defer,
  insert_coarse, insert_fine, add_defer, add_idle, keeps_due, coarse_due, find_due, contains,
  remove, schedule_coarse, schedule_coarse_earlier, cancel_coarse, schedule_fine,
  schedule_fine_earlier, cancel_fine, schedule_defer, schedule_idle, cancel_defer, break_loop,
}
use mpdscribble.Event.All.{length-unlink}
use mpdscribble.Event.Run.{invoke}

-- How much a command asks for at once.
abbrev cost : Command → ℕ
cost (schedule_coarse id d) = if d == 0 then 1 else 0
cost (schedule_coarse_earlier id d) = if d == 0 then 1 else 0
cost (schedule_fine id d) = if d == 0 then 1 else 0
cost (schedule_fine_earlier id d) = if d == 0 then 1 else 0
cost (schedule_defer id) = 1
cost _ = 0

abbrev pub costs : List Command → ℕ
costs [] = 0
costs (c ∷ cs) = cost c + costs cs

-- The timers that are due at the time `now`.
unfoldable pub count_due : ℕ → List Timer → ℕ
count_due now [] = 0
count_due now (t ∷ ts) = let rest = count_due now ts in if leb t.due now then suc rest else rest

count_due-unlink : (now id : ℕ) (ts : List Timer) → count_due now (unlink id ts) ≤ count_due now ts
unfolding count_due unlink
count_due-unlink now id [] = omega arith
count_due-unlink now id (t ∷ ts) = ground (arith, count_due-unlink now id ts)

count_due-insert_sorted :
    (now : ℕ) (t : Timer) (ts : List Timer)
    → count_due now (insert_sorted t ts) ≤ (if leb t.due now then 1 else 0) + count_due now ts
unfolding count_due insert_sorted
count_due-insert_sorted now t [] = ground arith
count_due-insert_sorted now t (u ∷ ts) = ground (arith, count_due-insert_sorted now t ts)

length-remove : (id : ℕ) (es : List ℕ) → length (remove id es) ≤ length es
unfolding remove
length-remove id [] = omega arith
length-remove id (e ∷ es) = ground (arith, length-remove id es)

module _ {W : Type 0} (now : ℕ) where
  -- What is left to run at once.
  unfoldable pub todo : EventLoop W → ℕ
  unfolding count_due
  todo l = count_due now l.timers + length l.coarse_timers.ready + length l.defer

  todo-unlink_coarse : (id : ℕ) (l : EventLoop W) → todo (unlink_coarse id l) ≤ todo l
  unfolding todo unlink_coarse
  todo-unlink_coarse id l = omega (arith, length-unlink id l.coarse_timers.ready)

  todo-unlink_fine : (id : ℕ) (l : EventLoop W) → todo (unlink_fine id l) ≤ todo l
  unfolding todo unlink_fine
  todo-unlink_fine id l = omega (arith, count_due-unlink now id l.timers)

  todo-insert_coarse :
      (id d : ℕ) (l : EventLoop W)
      → todo (insert_coarse now (record { id = id; due = now + d }) l)
        ≤ (if d == 0 then 1 else 0) + todo l
  unfolding todo insert_coarse insert_wheel
  todo-insert_coarse id d l = elim (Bool-cases (ltb now (now + d))) [
    | inl e ↦ rw e (omega arith)
    | inr e ↦ rw e (
        ground
          (arith, length-append l.coarse_timers.ready (record { id = id; due = now + d } ∷ [])))
  ]

  todo-insert_fine :
      (id d : ℕ) (l : EventLoop W)
      → todo (insert_fine (record { id = id; due = now + d }) l)
        ≤ (if d == 0 then 1 else 0) + todo l
  unfolding todo insert_fine
  todo-insert_fine id d l =
      ground (arith, count_due-insert_sorted now (record { id = id; due = now + d }) l.timers)

  todo-if :
      (b : Bool) (l m : EventLoop W) (n : ℕ)
      → todo l ≤ n
      → todo m ≤ n
      → todo (if b then l else m) ≤ n
  todo-if true l m n p q = p
  todo-if false l m n p q = q

  todo-add_defer : (id : ℕ) (l : EventLoop W) → todo (add_defer id l) ≤ 1 + todo l
  unfolding todo add_defer
  todo-add_defer id l = omega (arith, length-append l.defer (id ∷ []))

  todo-unlink_defer : (id : ℕ) (l : EventLoop W) → todo (unlink_defer id l) ≤ todo l
  unfolding todo unlink_defer
  todo-unlink_defer id l = omega (arith, length-remove id l.defer)

  todo-perform : (c : Command) (l : EventLoop W) → todo (perform now c l) ≤ cost c + todo l
  unfolding perform todo add_idle
  todo-perform (schedule_coarse id d) l =
      omega (arith, todo-insert_coarse id d (unlink_coarse id l), todo-unlink_coarse id l)
  todo-perform (schedule_coarse_earlier id d) l =
      todo-if (keeps_due (now + d) (coarse_due id l)) _ _ _ (omega arith)
        (omega (arith, todo-insert_coarse id d (unlink_coarse id l), todo-unlink_coarse id l))
  todo-perform (cancel_coarse id) l = omega (arith, todo-unlink_coarse id l)
  todo-perform (schedule_fine id d) l =
      omega (arith, todo-insert_fine id d (unlink_fine id l), todo-unlink_fine id l)
  todo-perform (schedule_fine_earlier id d) l =
      todo-if (keeps_due (now + d) (find_due id l.timers)) _ _ _ (omega arith)
        (omega (arith, todo-insert_fine id d (unlink_fine id l), todo-unlink_fine id l))
  todo-perform (cancel_fine id) l = omega (arith, todo-unlink_fine id l)
  todo-perform (schedule_defer id) l =
      todo-if (contains id l.defer || contains id l.idle) _ _ _ (omega arith) (todo-add_defer id l)
  todo-perform (schedule_idle id) l =
      todo-if (contains id l.defer || contains id l.idle) _ _ _ (omega arith) (omega arith)
  todo-perform (cancel_defer id) l = omega (arith, todo-unlink_defer id l)
  todo-perform break_loop l = omega arith

  todo-perform_all :
      (cs : List Command) (l : EventLoop W) → todo (perform_all now cs l) ≤ costs cs + todo l
  unfolding perform_all
  todo-perform_all [] l = omega arith
  todo-perform_all (c ∷ cs) l =
      omega (arith, todo-perform_all cs (perform now c l), todo-perform c l)

  world-if :
      (b : Bool) (l m : EventLoop W) → m.world ≡ l.world → (if b then l else m).world ≡ l.world
  world-if true l m e = refl
  world-if false l m e = e

  world-perform : (c : Command) (l : EventLoop W) → (perform now c l).world ≡ l.world
  unfolding perform unlink_coarse unlink_fine unlink_defer insert_coarse insert_fine add_defer
      add_idle
  world-perform (schedule_coarse_earlier id d) l =
      world-if (keeps_due (now + d) (coarse_due id l)) l _ refl
  world-perform (schedule_fine_earlier id d) l =
      world-if (keeps_due (now + d) (find_due id l.timers)) l _ refl
  world-perform (schedule_defer id) l =
      world-if (contains id l.defer || contains id l.idle) l _ refl
  world-perform (schedule_idle id) l = world-if (contains id l.defer || contains id l.idle) l _ refl
  world-perform (schedule_coarse id d) l = refl
  world-perform (cancel_coarse id) l = refl
  world-perform (schedule_fine id d) l = refl
  world-perform (cancel_fine id) l = refl
  world-perform (cancel_defer id) l = refl
  world-perform break_loop l = refl

  pub world-perform_all :
      (cs : List Command) (l : EventLoop W) → (perform_all now cs l).world ≡ l.world
  unfolding perform_all
  world-perform_all [] l = refl
  world-perform_all (c ∷ cs) l = world-perform_all cs (perform now c l) ∙ world-perform c l

  -- The callbacks ask at once for no more than a number that goes down with each request.
  abbrev pub Settles : (Callback → ℕ → EventLoop W → W × List Command) → (W → ℕ) → Type 0
  Settles callback rank =
      (c : Callback) (l : EventLoop W)
      → rank (callback c now l).0 + costs (callback c now l).1 ≤ rank l.world

  -- what is left to run at once, with what may come
  abbrev pub budget : (W → ℕ) → EventLoop W → ℕ
  budget rank l = todo l + rank l.world

  module _ (callback : Callback → ℕ → EventLoop W → W × List Command) (rank : W → ℕ)
      (settles : Settles callback rank) where
    pub budget-invoke :
        (c : Callback) (l : EventLoop W) → budget rank (invoke callback now c l) ≤ budget rank l
    unfolding invoke todo
    budget-invoke c l =
        let cs = (callback c now l).1 in
        let m = record l { world = (callback c now l).0 } in
        let same_world : rank (perform_all now cs m).world ≡ rank m.world =
          ap rank (world-perform_all cs m) in
        omega (arith, same_world, todo-perform_all cs m, settles c l)
