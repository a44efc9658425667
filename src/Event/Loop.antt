-- ===== src/Event/Loop.antt =====
-- event/Loop.cxx, with what its callbacks ask of it, and the two Run() of the timers.
use mpdscribble.Base.{
  ℕ, zero, suc, ◌+◌, Bool, true, false, ◌||◌, List, [], ◌∷◌, ◌++◌, Option, none, some, leb, ◌==◌,
  if◌then◌else◌,
}
use mpdscribble.Event.Types.{Timer, TimerWheel, n_buckets, unlink}
use mpdscribble.Event.Wheel.{insert_wheel, insert_sorted}

-- class EventLoop; `moved` is the local list of TimerWheel::Run(List &), and `world` all else that
-- the callbacks read and write
pub record EventLoop (W : Type 0) : Type 0 where
  pub timers : List Timer
  pub coarse_timers : TimerWheel
  pub moved : List Timer
  pub defer : List ℕ
  pub idle : List ℕ
  pub again : Bool
  pub quit : Bool
  pub world : W

-- What runs: CoarseTimerEvent::Run(), FineTimerEvent::Run() and DeferEvent::Run().
pub data Callback : Type 0 where
  coarse_timer fine_timer : Timer → Callback
  deferred : ℕ → Callback

-- What a callback asks of the loop: Schedule(), ScheduleEarlier(), Cancel() of a timer, Schedule(),
-- ScheduleIdle(), Cancel() of a DeferEvent, and Break().
pub data Command : Type 0 where
  schedule_coarse schedule_coarse_earlier : ℕ → ℕ → Command
  cancel_coarse : ℕ → Command
  schedule_fine schedule_fine_earlier : ℕ → ℕ → Command
  cancel_fine : ℕ → Command
  schedule_defer schedule_idle cancel_defer : ℕ → Command
  break_loop : Command

-- the time of a pending timer
unfoldable pub find_due : ℕ → List Timer → Option ℕ
find_due id [] = none
find_due id (t ∷ ts) = let rest = find_due id ts in if t.id == id then some t.due else rest

-- the timers in the first buckets
unfoldable pub first_buckets : ℕ → (ℕ → List Timer) → List Timer
first_buckets zero buckets = []
first_buckets (suc n) buckets = first_buckets n buckets ++ buckets n

unfoldable pub contains : ℕ → List ℕ → Bool
contains id [] = false
contains id (e ∷ es) = e == id || contains id es

unfoldable pub remove : ℕ → List ℕ → List ℕ
remove id [] = []
remove id (e ∷ es) = let rest = remove id es in if e == id then rest else e ∷ rest

-- ScheduleEarlier(): whether a timer that is pending keeps its time
abbrev pub keeps_due : ℕ → Option ℕ → Bool
keeps_due new_due none = false
keeps_due new_due (some due) = leb due new_due

module _ {W : Type 0} where
  -- CoarseTimerEvent::Cancel()
  unfoldable pub unlink_coarse : ℕ → EventLoop W → EventLoop W
  unlink_coarse id l = record l {
    coarse_timers = record l.coarse_timers {
      buckets = λ i. unlink id (l.coarse_timers.buckets i);
      ready = unlink id l.coarse_timers.ready;
    };
    moved = unlink id l.moved;
  }

  -- FineTimerEvent::Cancel()
  unfoldable pub unlink_fine : ℕ → EventLoop W → EventLoop W
  unlink_fine id l = record l { timers = unlink id l.timers }

  -- DeferEvent::Cancel()
  unfoldable pub unlink_defer : ℕ → EventLoop W → EventLoop W
  unlink_defer id l = record l { defer = remove id l.defer; idle = remove id l.idle }

  -- EventLoop::Insert()
  unfoldable pub insert_coarse : ℕ → Timer → EventLoop W → EventLoop W
  insert_coarse now t l = record l {
    coarse_timers = insert_wheel t now l.coarse_timers;
    again = true;
  }

  unfoldable pub insert_fine : Timer → EventLoop W → EventLoop W
  insert_fine t l = record l { timers = insert_sorted t l.timers; again = true }

  -- AddDefer(), AddIdle()
  unfoldable pub add_defer : ℕ → EventLoop W → EventLoop W
  add_defer id l = record l { defer = l.defer ++ id ∷ []; again = true }

  unfoldable pub add_idle : ℕ → EventLoop W → EventLoop W
  add_idle id l = record l { idle = id ∷ l.idle; again = true }

  abbrev is_deferred : ℕ → EventLoop W → Bool
  is_deferred id l = contains id l.defer || contains id l.idle

  abbrev pub coarse_due : ℕ → EventLoop W → Option ℕ
  coarse_due id l =
      find_due id
        (first_buckets n_buckets l.coarse_timers.buckets ++ l.coarse_timers.ready ++ l.moved)

  -- CoarseTimerEvent::Schedule(), CoarseTimerEvent::ScheduleEarlier()
  abbrev pub coarse_schedule : ℕ → ℕ → ℕ → EventLoop W → EventLoop W
  coarse_schedule now id d l =
      insert_coarse now (record { id = id; due = now + d }) (unlink_coarse id l)

  abbrev coarse_schedule_earlier : ℕ → ℕ → ℕ → EventLoop W → EventLoop W
  coarse_schedule_earlier now id d l =
      if keeps_due (now + d) (coarse_due id l) then l else coarse_schedule now id d l

  -- FineTimerEvent::Schedule(), FineTimerEvent::ScheduleEarlier()
  abbrev pub fine_schedule : ℕ → ℕ → ℕ → EventLoop W → EventLoop W
  fine_schedule now id d l = insert_fine (record { id = id; due = now + d }) (unlink_fine id l)

  abbrev fine_schedule_earlier : ℕ → ℕ → ℕ → EventLoop W → EventLoop W
  fine_schedule_earlier now id d l =
      if keeps_due (now + d) (find_due id l.timers) then l else fine_schedule now id d l

  -- DeferEvent::Schedule(), DeferEvent::ScheduleIdle()
  abbrev defer_schedule : ℕ → EventLoop W → EventLoop W
  defer_schedule id l = if is_deferred id l then l else add_defer id l

  abbrev defer_schedule_idle : ℕ → EventLoop W → EventLoop W
  defer_schedule_idle id l = if is_deferred id l then l else add_idle id l

  -- EventLoop::Break()
  abbrev break_now : EventLoop W → EventLoop W
  break_now l = record l { quit = true }

  -- What a command does at a time.
  unfoldable pub perform : ℕ → Command → EventLoop W → EventLoop W
  perform now (schedule_coarse id d) l = coarse_schedule now id d l
  perform now (schedule_coarse_earlier id d) l = coarse_schedule_earlier now id d l
  perform now (cancel_coarse id) l = unlink_coarse id l
  perform now (schedule_fine id d) l = fine_schedule now id d l
  perform now (schedule_fine_earlier id d) l = fine_schedule_earlier now id d l
  perform now (cancel_fine id) l = unlink_fine id l
  perform now (schedule_defer id) l = defer_schedule id l
  perform now (schedule_idle id) l = defer_schedule_idle id l
  perform now (cancel_defer id) l = unlink_defer id l
  perform now break_loop l = break_now l

  unfoldable pub perform_all : ℕ → List Command → EventLoop W → EventLoop W
  perform_all now [] l = l
  perform_all now (c ∷ cs) l = perform_all now cs (perform now c l)
