-- ===== src/Event/Tests.antt =====
-- Tests of the event loop.
use mpdscribble.Base.{
  ◌>>=◌, if◌then◌else◌, leb, ℕ, ◌+◌, ◌≤◌, zero, suc, ◌≡◌, refl, true, false, List, [], ◌∷◌, Option,
  some, none, arith,
}
use mpdscribble.Event.Types.{
  bucket_index_at, set_bucket, unlink, next_bucket_index, get_bucket_start_time,
}
use mpdscribble.Event.Wheel.{insert_wheel, get_sleep, get_next_due}
use mpdscribble.Event.Loop.{
  EventLoop, Callback, Command, schedule_coarse, schedule_fine, coarse_timer, deferred, fine_timer,
  insert_coarse, perform_all, perform, unlink_coarse,
}
use mpdscribble.Event.Coarse.{Holds, Never}
use mpdscribble.Event.All.{All-set_bucket}
use mpdscribble.Event.Buckets.{Placed}
use mpdscribble.Event.Span.{run_span-Holds}
use mpdscribble.Event.Rest.{IsSound}
use mpdscribble.Event.Rounds.{Rests, round-Rests}
use mpdscribble.Event.Ends.{costs, Settles, todo, count_due}
use mpdscribble.Event.Due.{KeptWhenDue, KeptTimed, handle_timers-kept}
use mpdscribble.Event.Socket.{
  Flags, no_flags, SocketEvent, SocketLists, succeeds, gone, schedule, call_loop, set_event,
}
use mpdscribble.Event.Linked.{
  IsLinked, Returned, SocketStep, schedules, socket_step, socket_step-IsLinked, count,
}
use mpdscribble.Event.Finish.{HasEnded, round-HasEnded}
use mpdscribble.Event.Run.{
  handle_timers, round, run_span, run_list, Round, waits, continues, breaks, endless,
  export_timeout_ms,
}

-- Timer 1 is coarse and comes again in a second; timer 2 is fine and asks for timer 1 at once, as
-- often as the world says.
abbrev again_at_once : ℕ → ℕ × List Command
again_at_once zero = (zero, schedule_fine 2 5000000 ∷ [])
again_at_once (suc n) = (n, schedule_coarse 1 0 ∷ [])

abbrev ticks : Callback → ℕ → EventLoop ℕ → ℕ × List Command
ticks (coarse_timer t) now l = (l.world, schedule_coarse 1 1000000000 ∷ [])
ticks (fine_timer t) now l = again_at_once l.world
ticks (deferred e) now l = (l.world, [])

abbrev idle_loop : EventLoop ℕ
idle_loop = record {
  timers = record { id = 2; due = 900000000 } ∷ [];
  coarse_timers = record { buckets = λ i. []; ready = []; last_time = 500000000; empty = true };
  moved = [];
  defer = [];
  idle = [];
  again = false;
  quit = false;
  world = 1;
}

idle_loop-IsSound : IsSound 900000001 idle_loop
idle_loop-IsSound = record {
  placed = ((λ j. tt), tt, λ e. ((λ j. tt), tt));
  started = omega arith;
  aligned = refl;
  ordered = (tt, tt);
}

round-Rests_example : Rests 900000001 (round ticks 10 900000001 idle_loop)
round-Rests_example = round-Rests ticks 900000001 10 idle_loop idle_loop-IsSound

-- The bucket of a timer that is due long ago is run, a minute and a half after the last run.
abbrev late_loop : EventLoop ℕ
late_loop = record idle_loop {
  coarse_timers = record {
    buckets =
        set_bucket (bucket_index_at 2600000000) (record { id = 1; due = 2600000000 } ∷ [])
          (λ i. []);
    ready = [];
    last_time = 500000000;
    empty = false;
  };
}

late_loop-Holds : Holds (Placed 500000000) Never late_loop
late_loop-Holds = (
  All-set_bucket (Placed 500000000) _ _ (λ i. []) ((refl, omega arith), tt) (λ j. tt),
  tt,
  λ e. absurd (ground arith),
)

run_span-Holds_example :
    Holds (Placed (get_bucket_start_time 90500000000)) Never (run_span ticks 90500000000 late_loop)
run_span-Holds_example = run_span-Holds 90500000000 ticks late_loop late_loop-Holds

again_at_once_settles : (n : ℕ) → (again_at_once n).0 + costs (again_at_once n).1 ≤ n
again_at_once_settles zero = omega arith
again_at_once_settles (suc n) = omega arith

ticks-Settles : Settles 900000001 ticks (λ n. n)
ticks-Settles (coarse_timer t) l = omega arith
ticks-Settles (fine_timer t) l = again_at_once_settles l.world
ticks-Settles (deferred e) l = omega arith

round-HasEnded_example : HasEnded (round ticks 10 900000001 idle_loop)
unfolding todo count_due
round-HasEnded_example =
    round-HasEnded 900000001 ticks (λ n. n) ticks-Settles 10 idle_loop (omega arith)

-- how long a second round waits, behind a first one that does not
abbrev second_wait : Round ℕ → Option ℕ
second_wait (continues l) = elim (round ticks 10 900000001 l) [
  | waits d m ↦ d
  | continues m ↦ none
  | breaks m ↦ none
  | endless ↦ none
]
second_wait r = none

-- The coarse timer is due at 1900000001 ns, and its bucket ends at 2 s.
waits_for_coarse : second_wait (round ticks 10 900000001 idle_loop) ≡ some 1099999999
unfolding round perform_all perform insert_coarse unlink_coarse insert_wheel unlink bucket_index_at
    next_bucket_index run_list set_bucket get_sleep get_next_due get_bucket_start_time
waits_for_coarse = refl

rounds_up : export_timeout_ms (some 1099999999) ≡ some 1100
unfolding export_timeout_ms
rounds_up = refl

-- A program that remembers a call for a timer that is not due.
abbrev watches : Callback → ℕ → EventLoop ℕ → ℕ × List Command
watches (coarse_timer t) now l = (if leb t.due now then l.world else 1, schedule_fine 2 0 ∷ [])
watches (fine_timer t) now l = (if leb t.due now then l.world else 1, [])
watches (deferred e) now l = (l.world, [])

watches-KeptWhenDue : KeptWhenDue 90500000000 watches (λ n. n ≡ 0)
watches-KeptWhenDue (coarse_timer t) l d q = ground arith
watches-KeptWhenDue (fine_timer t) l d q = ground arith
watches-KeptWhenDue (deferred e) l d q = q

abbrev watched_loop : EventLoop ℕ
watched_loop = record late_loop { world = 0 }

handle_timers-kept_example :
    KeptTimed 90500000000 watches (λ n. n ≡ 0) (handle_timers watches 10 90500000000 watched_loop)
handle_timers-kept_example =
    handle_timers-kept 90500000000 watches (λ n. n ≡ 0) watches-KeptWhenDue 10 watched_loop refl tt

abbrev read_only : Flags
read_only = record no_flags { read = true }

abbrev closed_event : SocketEvent
closed_event = record { fd = some 5; scheduled_flags = no_flags; ready_flags = no_flags }

abbrev no_sockets : SocketLists
no_sockets = record { events = λ id. closed_event; sockets = []; ready_sockets = [] }

no_sockets-IsLinked : IsLinked no_sockets
unfolding count
no_sockets-IsLinked id = (refl, λ e. refl)

socket_step-IsLinked_example : Returned (socket_step (schedules succeeds 3 read_only) no_sockets)
socket_step-IsLinked_example =
    socket_step-IsLinked (schedules succeeds 3 read_only) no_sockets (refl, tt) no_sockets-IsLinked

abbrev then_step : SocketStep → Option SocketLists → Option SocketLists
then_step s l = l >>= socket_step s

-- How often a socket is linked in the list `sockets`.
abbrev linked : ℕ → Option SocketLists → ℕ
linked id none = 0
linked id (some l) = count id l.sockets

-- A failed change of the flags leaves the socket linked with nothing scheduled; scheduled again, it is
-- linked twice.
linked_twice :
    linked 3 (
      then_step (schedules succeeds 3 read_only) (
        then_step
          (schedules gone 3 (record read_only { write = true }))
          (socket_step (schedules succeeds 3 read_only) no_sockets)))
    ≡ 2
unfolding socket_step schedule call_loop set_event count
linked_twice = refl
