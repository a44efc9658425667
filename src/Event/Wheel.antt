-- ===== src/Event/Wheel.antt =====
-- event/TimerWheel.cxx and event/TimerList.cxx: where a timer is put, and when the next one is due.
use mpdscribble.Base.{
  ℕ, zero, suc, ◌+◌, ◌-◌, true, false, not, List, [], ◌∷◌, ◌++◌, Option, none, some, is_empty, ltb,
  leb, ◌==◌, if◌then◌else◌,
}
use mpdscribble.Event.Types.{
  Timer, TimerWheel, resolution, next_bucket_index, bucket_index_at, set_bucket,
  get_bucket_start_time,
}

-- TimerWheel::Insert()
unfoldable pub insert_wheel : Timer → ℕ → TimerWheel → TimerWheel
insert_wheel t now wheel =
    let i = bucket_index_at t.due in
    if ltb now t.due
    then record wheel {
      buckets = set_bucket i (wheel.buckets i ++ t ∷ []) wheel.buckets;
      empty = false;
    }
    else record wheel { ready = wheel.ready ++ t ∷ []; empty = false }

-- TimerList::Insert(): before the first timer that is not due earlier
unfoldable pub insert_sorted : Timer → List Timer → List Timer
insert_sorted t [] = t ∷ []
insert_sorted t (u ∷ us) =
    let rest = insert_sorted t us in if leb t.due u.due then t ∷ u ∷ us else u ∷ rest

-- the loop of GetNextDue(), from bucket `i` on, with `count` rounds to go
unfoldable pub next_due_from : ℕ → ℕ → ℕ → (ℕ → List Timer) → ℕ → Option ℕ
next_due_from zero i first buckets t = none
next_due_from (suc count) i first buckets t =
    let more = next_due_from count (next_bucket_index i) first buckets (t + resolution) in
    if not (is_empty (buckets i))
    then some (t + resolution)
    else if next_bucket_index i == first
    then none
    else more

-- GetNextDue(); `none` is TimePoint::max()
unfoldable pub get_next_due : ℕ → ℕ → (ℕ → List Timer) → Option ℕ
unfolding next_due_from
get_next_due bucket_index bucket_start_time buckets =
    next_due_from 240 bucket_index bucket_index buckets bucket_start_time

-- The end of GetSleep(), for the time of GetNextDue(); `none` is a negative duration.
abbrev pub sleep_until : Option ℕ → ℕ → TimerWheel → Option ℕ × TimerWheel
sleep_until none now wheel = (none, record wheel { empty = true })
sleep_until (some t) now wheel = (some (t - now), wheel)

-- GetSleep()
unfoldable pub get_sleep : ℕ → TimerWheel → Option ℕ × TimerWheel
get_sleep now wheel =
    if wheel.empty
    then (none, wheel)
    else sleep_until (get_next_due (bucket_index_at now) (get_bucket_start_time now) wheel.buckets)
        now wheel
