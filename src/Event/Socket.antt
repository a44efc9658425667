-- ===== src/Event/Socket.antt =====
-- event/SocketEvent.cxx, event/SocketEvent.hxx, event/EpollEvents.hxx, and the lists of sockets of
-- event/Loop.cxx.
use mpdscribble.Base.{
  ◌>>=◌, ℕ, Bool, true, false, not, ◌&&◌, ◌||◌, List, [], ◌∷◌, ◌++◌, Option, none, some, is_some,
  ◌==◌, if◌then◌else◌, check, ◌>>◌,
}
use mpdscribble.Event.Loop.{remove}

-- A bit mask of READ, WRITE, ERROR and HANGUP.
pub record Flags : Type 0 where
  pub read : Bool
  pub write : Bool
  pub error : Bool
  pub hangup : Bool

abbrev pub no_flags : Flags
no_flags = record { read = false; write = false; error = false; hangup = false }

-- `flags != 0`
abbrev pub any_flag : Flags → Bool
any_flag f = f.read || f.write || f.error || f.hangup

-- `IMPLICIT_FLAGS`
abbrev pub implicit_flags : Flags
implicit_flags = record { read = false; write = false; error = true; hangup = true }

abbrev pub flags_or : Flags → Flags → Flags
flags_or f g = record {
  read = f.read || g.read;
  write = f.write || g.write;
  error = f.error || g.error;
  hangup = f.hangup || g.hangup;
}

abbrev pub flags_and : Flags → Flags → Flags
flags_and f g = record {
  read = f.read && g.read;
  write = f.write && g.write;
  error = f.error && g.error;
  hangup = f.hangup && g.hangup;
}

abbrev same_bit : Bool → Bool → Bool
same_bit true b = b
same_bit false b = not b

abbrev pub same_flags : Flags → Flags → Bool
same_flags f g =
    same_bit f.read g.read
    && same_bit f.write g.write
    && same_bit f.error g.error
    && same_bit f.hangup g.hangup

-- class SocketEvent
pub record SocketEvent : Type 0 where
  pub fd : Option ℕ
  pub scheduled_flags : Flags
  pub ready_flags : Flags

-- The events, each known by a number, and the two lists of class EventLoop.
pub record SocketLists : Type 0 where
  pub events : ℕ → SocketEvent
  pub sockets : List ℕ
  pub ready_sockets : List ℕ

-- What the poll backend answers: success, an error that is EBADF or ENOENT, or another one.
pub data Backend : Type 0 where
  succeeds gone refuses : Backend

abbrev is_success : Backend → Bool
is_success succeeds = true
is_success gone = false
is_success refuses = false

unfoldable pub set_event : ℕ → SocketEvent → SocketLists → SocketLists
set_event id e l = record l { events = λ j. if j == id then e else l.events j }

-- unlink()
unfoldable pub unlink_socket : ℕ → SocketLists → SocketLists
unlink_socket id l = record l {
  sockets = remove id l.sockets;
  ready_sockets = remove id l.ready_sockets;
}

abbrev push_socket : ℕ → SocketLists → SocketLists
push_socket id l = record l { sockets = l.sockets ++ id ∷ [] }

abbrev pub set_scheduled : ℕ → Flags → SocketLists → SocketLists
set_scheduled id flags l = set_event id (record (l.events id) { scheduled_flags = flags }) l

-- EventLoop::AddFD(), EventLoop::RemoveFD()
abbrev add_fd : Backend → ℕ → SocketLists → SocketLists
add_fd r id l = if is_success r then push_socket id l else l

abbrev remove_fd : ℕ → SocketLists → SocketLists
remove_fd id l = unlink_socket id l

-- Schedule() by what the backend answers: the flags that are scheduled in the end
abbrev pub flags_after : Backend → Flags → Flags → Flags
flags_after succeeds flags old = flags
flags_after gone flags old = no_flags
flags_after refuses flags old = old

-- `flags |= IMPLICIT_FLAGS` if there are any
abbrev pub with_implicit : Flags → Flags
with_implicit flags = if any_flag flags then flags_or flags implicit_flags else flags

-- the three calls of the loop in Schedule()
unfoldable pub call_loop : Backend → ℕ → Flags → SocketLists → SocketLists
call_loop r id flags l =
    if not (any_flag (l.events id).scheduled_flags)
    then add_fd r id l
    else if not (any_flag flags)
    then remove_fd id l
    else l

-- SocketEvent::Schedule(); `none` is a failed assertion
unfoldable pub schedule : Backend → ℕ → Flags → SocketLists → Option SocketLists
unfolding call_loop
schedule r id flags l =
    let new_flags = with_implicit flags in
    let old_flags = (l.events id).scheduled_flags in
    if same_flags new_flags old_flags
    then some l
    else check (is_some (l.events id).fd)
      >> some (set_scheduled id (flags_after r new_flags old_flags) (call_loop r id new_flags l))

-- SocketEvent::Abandon(); EventLoop::AbandonFD() asserts that the socket is defined
unfoldable pub abandon : ℕ → SocketLists → Option SocketLists
unfolding unlink_socket
abandon id l =
    let e = l.events id in
    let closed = record e { fd = none; scheduled_flags = no_flags } in
    if any_flag e.scheduled_flags
    then check (is_some e.fd) >> some (set_event id closed (unlink_socket id l))
    else some (set_event id closed l)

-- SocketEvent::Close(), but for closing the descriptor
unfoldable pub close_socket : ℕ → SocketLists → Option SocketLists
close_socket id l = if is_some (l.events id).fd then abandon id l else some l

-- Cancel(), ScheduleRead(), ScheduleWrite(), CancelRead(), CancelWrite(), ScheduleImplicit(): the flags
-- that they pass to Schedule(), for those that are scheduled
abbrev cancel_flags : Flags → Flags
cancel_flags scheduled = no_flags

abbrev schedule_read_flags : Flags → Flags
schedule_read_flags scheduled = record scheduled { read = true }

abbrev schedule_write_flags : Flags → Flags
schedule_write_flags scheduled = record scheduled { write = true }

abbrev cancel_read_flags : Flags → Flags
cancel_read_flags scheduled = record scheduled { read = false }

abbrev cancel_write_flags : Flags → Flags
cancel_write_flags scheduled = record scheduled { write = false }

abbrev schedule_implicit_flags : Flags → Flags
schedule_implicit_flags scheduled = implicit_flags

abbrev set_fd : ℕ → Option ℕ → SocketLists → SocketLists
set_fd id fd l = set_event id (record (l.events id) { fd = fd }) l

-- SocketEvent::ReleaseSocket(), for what the backend answers to Cancel()
unfoldable pub release_socket : Backend → ℕ → SocketLists → Option SocketLists
unfolding schedule
release_socket r id l =
    schedule r id (cancel_flags (l.events id).scheduled_flags) l >>= (λ m. some (set_fd id none m))

-- SocketEvent::Open()
unfoldable pub open_socket : ℕ → ℕ → SocketLists → Option SocketLists
open_socket id fd l = do
  check (not (is_some (l.events id).fd))
  check (not (any_flag (l.events id).scheduled_flags))
  some (set_event id (record (l.events id) { fd = some fd }) l)

-- the body of the loop in EventLoop::Wait(), for a socket that the backend reports
unfoldable pub report : ℕ → Flags → SocketLists → SocketLists
unfolding unlink_socket
report id flags l =
    let m = unlink_socket id (set_event id (record (l.events id) { ready_flags = flags }) l) in
    record m { ready_sockets = m.ready_sockets ++ id ∷ [] }

-- `std::exchange(ready_flags, 0) & GetScheduledFlags()` in SocketEvent::Dispatch()
abbrev pub dispatched_flags : SocketEvent → Flags
dispatched_flags e = flags_and e.ready_flags e.scheduled_flags

-- "move from ready_sockets back to sockets", and the end of Dispatch() but for the callback
unfoldable pub back_to_sockets : ℕ → SocketLists → SocketLists
unfolding set_event unlink_socket
back_to_sockets id l =
    let m = unlink_socket id l in
    set_event id (record (l.events id) { ready_flags = no_flags })
      (record m { sockets = m.sockets ++ id ∷ [] })

-- the call of a callback in Dispatch(), if there is one
abbrev pub dispatched_call : ℕ → SocketEvent → Option (ℕ × Flags)
dispatched_call id e = if any_flag (dispatched_flags e) then some (id, dispatched_flags e) else none

-- the body of the loop over `ready_sockets` in EventLoop::Run(), on that list: the call of a callback,
-- and the lists before that call
unfoldable pub dispatch_in : List ℕ → SocketLists → Option (ℕ × Flags) × SocketLists
unfolding back_to_sockets
dispatch_in [] l = (none, l)
dispatch_in (id ∷ ids) l = (dispatched_call id (l.events id), back_to_sockets id l)

unfoldable pub dispatch : SocketLists → Option (ℕ × Flags) × SocketLists
unfolding dispatch_in
dispatch l = dispatch_in l.ready_sockets l
