-- ===== src/Event/Linked.antt =====
-- A socket is linked in one list of the loop exactly while it has scheduled flags.
use mpdscribble.Base.{
  Bool, ℕ, ◌+◌, ◌<◌, ◌≡◌, ◌≢◌, refl, sym, subst, true, false, not, List, [], ◌∷◌, ◌++◌, Option,
  none, some, arith, ◌==◌, ==_iff, Bool-cases, inl, inr, if◌then◌else◌, is_some, ◌&&◌,
}
use mpdscribble.Event.Loop.{remove}
use mpdscribble.Event.Socket.{
  Flags, SocketEvent, SocketLists, Backend, succeeds, gone, refuses, any_flag, set_event,
  unlink_socket, with_implicit, same_flags, schedule, call_loop, set_scheduled, abandon,
  open_socket, close_socket, report, dispatch, dispatch_in, back_to_sockets, flags_after,
}

-- How often a number stands in a list.
unfoldable pub count : ℕ → List ℕ → ℕ
count id [] = 0
count id (j ∷ js) = (if j == id then 1 else 0) + count id js

count-append : (id : ℕ) (xs ys : List ℕ) → count id (xs ++ ys) ≡ count id xs + count id ys
unfolding count
count-append id [] ys = omega arith
count-append id (x ∷ xs) ys = omega (arith, count-append id xs ys)

count-remove : (id : ℕ) (xs : List ℕ) → count id (remove id xs) ≡ 0
unfolding count remove
count-remove id [] = refl
count-remove id (x ∷ xs) = ground (arith, count-remove id xs)

count-remove_other : (id j : ℕ) (xs : List ℕ) → j ≢ id → count j (remove id xs) ≡ count j xs
unfolding count remove
count-remove_other id j [] d = refl
count-remove_other id j (x ∷ xs) d = ground (arith, count-remove_other id j xs d)

pushed :
    (j id : ℕ) (xs : List ℕ) → count j (xs ++ id ∷ []) ≡ count j xs + (if j == id then 1 else 0)
unfolding count
pushed j id xs = ground (arith, count-append j xs (id ∷ []))

removed : (j id : ℕ) (xs : List ℕ) → count j (remove id xs) ≡ (if j == id then 0 else count j xs)
removed j id xs = elim (Bool-cases (j == id)) [
  | inl e ↦
      rw e (subst (λ k. count k (remove id xs) ≡ 0) (sym ((==_iff j id).0 e)) (count-remove id xs))
  | inr e ↦ rw e (count-remove_other id j xs (λ k. absurd (ground arith)))
]

-- The socket `id` stands in the two lists as often as it should.
abbrev pub LinkedAt : ℕ → SocketEvent → SocketLists → Type 0
LinkedAt id e l =
    (count id l.sockets + count id l.ready_sockets ≡ (if any_flag e.scheduled_flags then 1 else 0))
    × (any_flag e.scheduled_flags ≡ true → is_some e.fd ≡ true)

abbrev pub IsLinked : SocketLists → Type 0
IsLinked l = (id : ℕ) → LinkedAt id (l.events id) l

-- The poll backend does not answer EBADF or ENOENT to a change of the flags of a socket that is
-- scheduled, nor another error when it is to forget one.
abbrev pub Behaves : Backend → Flags → Flags → Type 0
Behaves succeeds old_flags new_flags = Unit
Behaves gone old_flags new_flags = (any_flag old_flags && any_flag new_flags) ≡ false
Behaves refuses old_flags new_flags = (any_flag old_flags && not (any_flag new_flags)) ≡ false

-- What happens to the sockets.
pub data SocketStep : Type 0 where
  schedules : Backend → ℕ → Flags → SocketStep
  abandons closes : ℕ → SocketStep
  opens : ℕ → ℕ → SocketStep
  reports : ℕ → Flags → SocketStep
  dispatches : SocketStep

-- When it can: a socket that is scheduled is defined, one that is opened is not, and the backend reports
-- only sockets that are scheduled.
abbrev pub Allowed : SocketStep → SocketLists → Type 0
Allowed (schedules r id flags) l =
    (is_some (l.events id).fd ≡ true)
    × Behaves r (l.events id).scheduled_flags (with_implicit flags)
Allowed (abandons id) l = Unit
Allowed (closes id) l = Unit
Allowed (opens id fd) l =
    (is_some (l.events id).fd ≡ false) × (any_flag (l.events id).scheduled_flags ≡ false)
Allowed (reports id flags) l = any_flag (l.events id).scheduled_flags ≡ true
Allowed dispatches l = Unit

unfoldable pub socket_step : SocketStep → SocketLists → Option SocketLists
socket_step (schedules r id flags) l = schedule r id flags l
socket_step (abandons id) l = abandon id l
socket_step (closes id) l = close_socket id l
socket_step (opens id fd) l = open_socket id fd l
socket_step (reports id flags) l = some (report id flags l)
socket_step dispatches l = some (dispatch l).1

abbrev pub Returned : Option SocketLists → Type 0
Returned none = ⊥
Returned (some l) = IsLinked l

-- To set the event `id` is right if it is so for `id`, and the lists did not change for the others.
set_event-IsLinked :
    (id : ℕ) (e : SocketEvent) (l : SocketLists)
    → LinkedAt id e l
    → ((j : ℕ) → (j == id) ≡ false → LinkedAt j (l.events j) l)
    → IsLinked (set_event id e l)
unfolding set_event
set_event-IsLinked id e l h k j = elim (Bool-cases (j == id)) [
  | inl g ↦ rw g (subst (λ i. LinkedAt i e l) (sym ((==_iff j id).0 g)) h)
  | inr g ↦ rw g (k j g)
]

report-IsLinked :
    (id : ℕ) (flags : Flags) (l : SocketLists)
    → any_flag (l.events id).scheduled_flags ≡ true
    → IsLinked l
    → IsLinked (report id flags l)
unfolding report unlink_socket set_event
report-IsLinked id flags l h v j = ground (
  arith,
  v j,
  pushed j id (remove id l.ready_sockets),
  removed j id l.ready_sockets,
  removed j id l.sockets,
)

abandon-IsLinked : (id : ℕ) (l : SocketLists) → IsLinked l → Returned (abandon id l)
unfolding abandon unlink_socket
abandon-IsLinked id l v = elim (Bool-cases (any_flag (l.events id).scheduled_flags)) [
  | inl e ↦
      rw (e, (v id).1 e)
        (set_event-IsLinked id _ (unlink_socket id l)
          (omega (arith, count-remove id l.sockets, count-remove id l.ready_sockets), λ k. k)
          (λ j g. ground (arith, v j, removed j id l.sockets, removed j id l.ready_sockets)))
  | inr e ↦ rw e (set_event-IsLinked id _ l (ground (arith, v id), λ k. k) (λ j g. v j))
]

back_to_sockets-IsLinked :
    (id : ℕ) (l : SocketLists)
    → any_flag (l.events id).scheduled_flags ≡ true
    → IsLinked l
    → IsLinked (back_to_sockets id l)
unfolding back_to_sockets unlink_socket set_event
back_to_sockets-IsLinked id l h v j = ground (
  arith,
  v j,
  pushed j id (remove id l.sockets),
  removed j id l.ready_sockets,
  removed j id l.sockets,
)

in_list : (id : ℕ) (ids : List ℕ) → 0 < count id (id ∷ ids)
unfolding count
in_list id ids = ground arith

dispatch_in-IsLinked :
    (ids : List ℕ) (l : SocketLists)
    → l.ready_sockets ≡ ids
    → IsLinked l
    → IsLinked (dispatch_in ids l).1
unfolding dispatch_in
dispatch_in-IsLinked [] l e v = v
dispatch_in-IsLinked (id ∷ ids) l e v =
    let ready : 0 < count id l.ready_sockets =
      subst (λ js. 0 < count id js) (sym e) (in_list id ids) in
    back_to_sockets-IsLinked id l (ground (arith, (v id).0)) v

open_socket-IsLinked :
    (id fd : ℕ) (l : SocketLists)
    → is_some (l.events id).fd ≡ false
    → any_flag (l.events id).scheduled_flags ≡ false
    → IsLinked l
    → Returned (open_socket id fd l)
unfolding open_socket
open_socket-IsLinked id fd l h k v =
    rw (h, k) (set_event-IsLinked id _ l (ground (arith, v id), λ g. refl) (λ j g. v j))

-- the two lists and the flags after Schedule() has made a call of the loop
call_loop-IsLinked :
    (r : Backend) (id : ℕ) (flags : Flags) (l : SocketLists)
    → is_some (l.events id).fd ≡ true
    → Behaves r (l.events id).scheduled_flags flags
    → same_flags flags (l.events id).scheduled_flags ≡ false
    → IsLinked l
    → IsLinked (
        set_scheduled id
          (flags_after r flags (l.events id).scheduled_flags)
          (call_loop r id flags l))
unfolding call_loop unlink_socket set_event
call_loop-IsLinked succeeds id flags l h b d v j =
    ground (
      arith,
      v j,
      v id,
      pushed j id l.sockets,
      removed j id l.sockets,
      removed j id l.ready_sockets,
    )
call_loop-IsLinked gone id flags l h b d v j =
    ground (
      arith,
      v j,
      v id,
      pushed j id l.sockets,
      removed j id l.sockets,
      removed j id l.ready_sockets,
    )
call_loop-IsLinked refuses id flags l h b d v j =
    ground (
      arith,
      v j,
      v id,
      pushed j id l.sockets,
      removed j id l.sockets,
      removed j id l.ready_sockets,
    )

schedule-IsLinked :
    (r : Backend) (id : ℕ) (flags : Flags) (l : SocketLists)
    → is_some (l.events id).fd ≡ true
    → Behaves r (l.events id).scheduled_flags (with_implicit flags)
    → IsLinked l
    → Returned (schedule r id flags l)
unfolding schedule
schedule-IsLinked r id flags l h b v =
    elim (Bool-cases (same_flags (with_implicit flags) (l.events id).scheduled_flags)) [
      | inl e ↦ rw e v
      | inr e ↦ rw (e, h) (call_loop-IsLinked r id (with_implicit flags) l h b e v)
    ]

Returned-if :
    (b : Bool) (r q : Option SocketLists) → Returned r → Returned q → Returned (if b then r else q)
Returned-if true r q u v = u
Returned-if false r q u v = v

close_socket-IsLinked : (id : ℕ) (l : SocketLists) → IsLinked l → Returned (close_socket id l)
unfolding close_socket
close_socket-IsLinked id l v =
    Returned-if (is_some (l.events id).fd) (abandon id l) (some l) (abandon-IsLinked id l v) v

-- Whatever happens to the sockets, no assertion fails, and a socket is linked in one of the two lists of
-- the event loop, and in it once, exactly while it has scheduled flags; it is defined then. It needs
-- that a socket that is scheduled is defined and one that is opened is not, that the poll backend
-- reports only scheduled sockets, and that it does not answer EBADF or ENOENT to a change of the flags
-- of a scheduled socket, nor another error when it is to forget one.
pub socket_step-IsLinked :
    (s : SocketStep) (l : SocketLists) → Allowed s l → IsLinked l → Returned (socket_step s l)
unfolding socket_step dispatch
socket_step-IsLinked (schedules r id flags) l (h, b) v = schedule-IsLinked r id flags l h b v
socket_step-IsLinked (abandons id) l a v = abandon-IsLinked id l v
socket_step-IsLinked (closes id) l a v = close_socket-IsLinked id l v
socket_step-IsLinked (opens id fd) l (h, k) v = open_socket-IsLinked id fd l h k v
socket_step-IsLinked (reports id flags) l h v = report-IsLinked id flags l h v
socket_step-IsLinked dispatches l a v = dispatch_in-IsLinked l.ready_sockets l refl v
