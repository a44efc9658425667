-- ===== src/Event/Closed.antt =====
-- Properties of the loop that hold after what a callback asks for.
use mpdscribble.Base.{ℕ, ◌+◌, ◌≤◌, Bool, true, false, List, [], ◌∷◌, arith, if◌then◌else◌, ◌||◌}
use mpdscribble.Event.Types.{Timer}
use mpdscribble.Event.Loop.{
  EventLoop, Callback, Command, perform, perform_all, unlink_coarse, unlink_fine, unlink_defer,
  insert_coarse, insert_fine, add_defer, add_idle, keeps_due, coarse_due, find_due, contains,
  schedule_coarse, schedule_coarse_earlier, cancel_coarse, schedule_fine, schedule_fine_earlier,
  cancel_fine, schedule_defer, schedule_idle, cancel_defer, break_loop,
}
use mpdscribble.Event.Run.{invoke}

module _ {W : Type 0} where
  pub record IsClosed (now : ℕ) (P : EventLoop W → Type 0) : Type 0 where
    pub coarse_unlinked : (id : ℕ) (l : EventLoop W) → P l → P (unlink_coarse id l)
    pub fine_unlinked : (id : ℕ) (l : EventLoop W) → P l → P (unlink_fine id l)
    pub coarse_inserted :
        (t : Timer) (l : EventLoop W) → now ≤ t.due → P l → P (insert_coarse now t l)
    pub fine_inserted : (t : Timer) (l : EventLoop W) → now ≤ t.due → P l → P (insert_fine t l)
    pub deferred_set :
        (ds es : List ℕ) (l : EventLoop W) → P l → P (record l { defer = ds; idle = es })
    pub again_set : (l : EventLoop W) → P l → P (record l { again = true })
    pub quit_set : (l : EventLoop W) → P l → P (record l { quit = true })
    pub world_set : (w : W) (l : EventLoop W) → P l → P (record l { world = w })

  module _ {now : ℕ} {P : EventLoop W → Type 0} (closed : IsClosed now P) where
    keeps-if : (b : Bool) (l m : EventLoop W) → P l → P m → P (if b then l else m)
    keeps-if true l m p q = p
    keeps-if false l m p q = q

    schedule_coarse-P :
        (id d : ℕ) (l : EventLoop W)
        → P l
        → P (insert_coarse now (record { id = id; due = now + d }) (unlink_coarse id l))
    schedule_coarse-P id d l p =
        closed.coarse_inserted _ _ (omega arith) (closed.coarse_unlinked id l p)

    schedule_fine-P :
        (id d : ℕ) (l : EventLoop W)
        → P l
        → P (insert_fine (record { id = id; due = now + d }) (unlink_fine id l))
    schedule_fine-P id d l p = closed.fine_inserted _ _ (omega arith) (closed.fine_unlinked id l p)

    perform-P : (c : Command) (l : EventLoop W) → P l → P (perform now c l)
    unfolding perform unlink_defer add_defer add_idle
    perform-P (schedule_coarse id d) l p = schedule_coarse-P id d l p
    perform-P (schedule_coarse_earlier id d) l p =
        keeps-if (keeps_due (now + d) (coarse_due id l)) _ _ p (schedule_coarse-P id d l p)
    perform-P (cancel_coarse id) l p = closed.coarse_unlinked id l p
    perform-P (schedule_fine id d) l p = schedule_fine-P id d l p
    perform-P (schedule_fine_earlier id d) l p =
        keeps-if (keeps_due (now + d) (find_due id l.timers)) _ _ p (schedule_fine-P id d l p)
    perform-P (cancel_fine id) l p = closed.fine_unlinked id l p
    perform-P (schedule_defer id) l p =
        keeps-if (contains id l.defer || contains id l.idle) _ _ p
          (closed.deferred_set _ _ _ (closed.again_set l p))
    perform-P (schedule_idle id) l p =
        keeps-if (contains id l.defer || contains id l.idle) _ _ p
          (closed.deferred_set _ _ _ (closed.again_set l p))
    perform-P (cancel_defer id) l p = closed.deferred_set _ _ l p
    perform-P break_loop l p = closed.quit_set l p

    perform_all-P : (cs : List Command) (l : EventLoop W) → P l → P (perform_all now cs l)
    unfolding perform_all
    perform_all-P [] l p = p
    perform_all-P (c ∷ cs) l p = perform_all-P cs (perform now c l) (perform-P c l p)

    -- A callback keeps what its commands keep.
    pub invoke-P :
        (callback : Callback → ℕ → EventLoop W → W × List Command) (c : Callback) (l : EventLoop W)
        → P l
        → P (invoke callback now c l)
    unfolding invoke
    invoke-P callback c l p =
        perform_all-P (callback c now l).1 _ (closed.world_set (callback c now l).0 l p)
