-- ===== src/Event/Sleep.antt =====
-- GetSleep() and GetNextDue(): the loop does not sleep past a timer.
use mpdscribble.Base.{
  ℕ, zero, suc, ◌+◌, ◌*◌, ◌≤◌, ◌<◌, ◌≡◌, ◌≢◌, ◌/◌, ◌%◌, refl, ◌∙◌, sym, subst, Bool, true, false,
  not, List, [], ◌∷◌, Option, none, some, arith, if◌then◌else◌, ◌==◌, ◌-◌, Bool-cases, inl, inr,
  ==_iff, is_empty,
}
use mpdscribble.Event.Types.{
  Timer, TimerWheel, next_bucket_index, bucket_index_at, resolution, get_bucket_start_time,
}
use mpdscribble.Event.Wheel.{next_due_from, get_next_due, get_sleep, sleep_until}
use mpdscribble.Event.Loop.{EventLoop}
use mpdscribble.Event.All.{All, All-map}
use mpdscribble.Event.Coarse.{Holds, Never}
use mpdscribble.Event.Buckets.{Placed}
use mpdscribble.Event.Run.{sleep, with_sleep}

-- The time of GetNextDue() is there, and is from `low` to `high`.
abbrev Between : ℕ → ℕ → Option ℕ → Type 0
Between low high none = ⊥
Between low high (some t) = (low ≤ t) × (t ≤ high)

Between-if :
    (low high : ℕ) (b : Bool) (r q : Option ℕ)
    → (b ≡ true → Between low high r)
    → (b ≡ false → Between low high q)
    → Between low high (if b then r else q)
Between-if low high true r q u v = u refl
Between-if low high false r q u v = v refl

Between-wider :
    (low high low2 high2 : ℕ) (r : Option ℕ)
    → low2 ≤ low
    → high ≤ high2
    → Between low high r
    → Between low2 high2 r
Between-wider low high low2 high2 none h k b = b
Between-wider low high low2 high2 (some t) h k (p, q) = (omega arith, omega arith)

wrapped : (i first k : ℕ) → i ≡ (first + k) % 240 → next_bucket_index i ≡ (first + suc k) % 240
unfolding next_bucket_index
wrapped i first k e = omega arith

not_first : (first k : ℕ) → first < 240 → 0 < k → k < 240 → (first + k) % 240 ≢ first
not_first first k h p q e = omega arith

-- The `m`-th bucket from here has a timer: the time found is the end of it, or of one before it.
next_due_from-Between :
    (count first k m : ℕ) (i : ℕ) (buckets : ℕ → List Timer) (t : ℕ)
    → first < 240
    → m < count
    → k + m < 240
    → i ≡ (first + k) % 240
    → is_empty (buckets ((first + (k + m)) % 240)) ≡ false
    → Between (t + resolution) (t + suc m * resolution) (next_due_from count i first buckets t)
unfolding next_due_from
next_due_from-Between zero first k m i buckets t b h g e f = absurd (omega arith)
next_due_from-Between (suc count) first k zero i buckets t b h g e f =
    let here : (first + (k + 0)) % 240 ≡ i = omega (arith, e) in
    let full : is_empty (buckets i) ≡ false = subst (λ j. is_empty (buckets j) ≡ false) here f in
    Between-if (t + resolution) (t + 1 * resolution) (not (is_empty (buckets i))) _ _
      (λ c. (omega arith, omega arith)) (λ c. absurd (ground arith))
next_due_from-Between (suc count) first k (suc m) i buckets t b h g e f =
    let behind : (first + (k + suc m)) % 240 ≡ (first + (suc k + m)) % 240 = omega arith in
    let wraps : next_bucket_index i ≡ (first + suc k) % 240 = wrapped i first k e in
    Between-if (t + resolution) (t + suc (suc m) * resolution) (not (is_empty (buckets i))) _ _
      (λ c. (omega arith, omega arith))
      (λ c.
        Between-if (t + resolution) (t + suc (suc m) * resolution) (next_bucket_index i == first) _
          _
          (λ d.
            absurd (
              not_first first (suc k) b (omega arith) (omega arith) (sym wraps ∙ (==_iff _ _).0 d)))
          (λ d. Between-wider _ _ _ _ _ (omega arith) (omega arith) (
            next_due_from-Between count first (suc k) m (next_bucket_index i) buckets
              (t + resolution) b (omega arith) (omega arith) wraps
              (subst (λ j. is_empty (buckets j) ≡ false) behind f))))

-- The end of the sleep from the time `now` is behind it, and not more than RESOLUTION behind the timer.
abbrev pub LaterCoarse : ℕ → Option ℕ → Timer → Type 0
LaterCoarse now none t = ⊥
LaterCoarse now (some d) t = (now + d ≤ t.due + resolution) × (0 < d)

abbrev until : ℕ → Option ℕ → Option ℕ
until now none = none
until now (some t) = some (t - now)

Between-LaterCoarse :
    (now : ℕ) (t : Timer) (m : ℕ) (r : Option ℕ)
    → get_bucket_start_time now + m * resolution ≤ t.due
    → Between
        (get_bucket_start_time now + resolution)
        (get_bucket_start_time now + suc m * resolution)
        r
    → LaterCoarse now (until now r) t
unfolding get_bucket_start_time
Between-LaterCoarse now t m none h b = b
Between-LaterCoarse now t m (some r) h (p, q) = (omega arith, omega arith)

get_next_due-LaterCoarse :
    (now : ℕ) (buckets : ℕ → List Timer) (j : ℕ) (t : Timer)
    → is_empty (buckets j) ≡ false
    → Placed (get_bucket_start_time now) j t
    → LaterCoarse now
        (until now (get_next_due (bucket_index_at now) (get_bucket_start_time now) buckets))
        t
unfolding get_next_due bucket_index_at get_bucket_start_time
get_next_due-LaterCoarse now buckets j t f (e, h) =
    let m = (t.due / 250000000 - now / 250000000) % 240 in
    let index : (now / 250000000 % 240 + (0 + m)) % 240 ≡ j = omega (arith, e, h) in
    Between-LaterCoarse now t m _ (omega (arith, h)) (
      next_due_from-Between 240 (bucket_index_at now) 0 m (bucket_index_at now) buckets
        (get_bucket_start_time now) (omega arith) (omega arith) (omega arith) (omega arith)
        (subst (λ j. is_empty (buckets j) ≡ false) (sym index) f))

-- Each timer of a bucket is late enough.
bucket-LaterCoarse :
    (now : ℕ) (buckets : ℕ → List Timer)
    → ((j : ℕ) → All (Placed (get_bucket_start_time now) j) (buckets j))
    → (j : ℕ)
    → All
        (LaterCoarse now
          (until now (get_next_due (bucket_index_at now) (get_bucket_start_time now) buckets)))
        (buckets j)
bucket-LaterCoarse now buckets f j = elim (Bool-cases (is_empty (buckets j))) [
  | inl e ↦ none_in _ (buckets j) e
  | inr e ↦
      All-map (Placed (get_bucket_start_time now) j) _ (buckets j)
        (λ t. get_next_due-LaterCoarse now buckets j t e) (f j)
]
  where
    none_in : (P : Timer → Type 0) (ts : List Timer) → is_empty ts ≡ true → All P ts
    none_in P [] e = tt
    none_in P (t ∷ ts) e = absurd (ground arith)

-- What the wheel is behind TimerWheel::Run(), at the time `now`.
abbrev pub HasRun : {W : Type 0} → ℕ → EventLoop W → Type 0
HasRun now l =
    Holds (Placed (get_bucket_start_time now)) Never l
    × (l.coarse_timers.last_time ≤ get_bucket_start_time now)
    × (l.coarse_timers.last_time % resolution ≡ 0)

-- No timer of the wheel is due long before the end of the sleep.
abbrev pub SleepsWell : {W : Type 0} → ℕ → Option ℕ × EventLoop W → Type 0
SleepsWell now (timeout, l) =
    ((j : ℕ) → All (LaterCoarse now timeout) (l.coarse_timers.buckets j)) × HasRun now l

sleep_until-SleepsWell :
    {W : Type 0} (now : ℕ) (l : EventLoop W) (r : Option ℕ)
    → ((j : ℕ) → All (LaterCoarse now (until now r)) (l.coarse_timers.buckets j))
    → HasRun now l
    → SleepsWell now (with_sleep l (sleep_until r now l.coarse_timers))
sleep_until-SleepsWell now l none a ((f, c, e), h, k) = (a, ((f, c, λ g. (a, c)), h, k))
sleep_until-SleepsWell now l (some t) a p = (a, p)

-- A property of both ways of GetSleep().
with_sleep-if :
    {W : Type 0} (P : Option ℕ × EventLoop W → Type 0) (l : EventLoop W) (b : Bool)
    (r q : Option ℕ × TimerWheel)
    → (b ≡ true → P (with_sleep l r))
    → P (with_sleep l q)
    → P (with_sleep l (if b then r else q))
with_sleep-if P l true r q u v = u refl
with_sleep-if P l false r q u v = v

pub sleep-SleepsWell :
    {W : Type 0} (now : ℕ) (l : EventLoop W) → HasRun now l → SleepsWell now (sleep now l)
unfolding sleep get_sleep
sleep-SleepsWell now l ((f, c, e), h, k) =
    with_sleep-if (SleepsWell now) l l.coarse_timers.empty _ _ (λ g. ((e g).0, ((f, c, e), h, k)))
      (sleep_until-SleepsWell now l _ (bucket-LaterCoarse now l.coarse_timers.buckets f)
        ((f, c, e), h, k))

sleep_until-P :
    {W : Type 0} (P : EventLoop W → Type 0) (now : ℕ) (l : EventLoop W) (r : Option ℕ)
    → P l
    → P (record l { coarse_timers = record l.coarse_timers { empty = true } })
    → P (with_sleep l (sleep_until r now l.coarse_timers)).1
sleep_until-P P now l none p q = q
sleep_until-P P now l (some t) p q = p

-- GetSleep() changes but the mark of an empty wheel.
pub sleep-P :
    {W : Type 0} (P : EventLoop W → Type 0) (now : ℕ) (l : EventLoop W)
    → P l
    → P (record l { coarse_timers = record l.coarse_timers { empty = true } })
    → P (sleep now l).1
unfolding sleep get_sleep
sleep-P P now l p q =
    with_sleep-if (λ r. P r.1) l l.coarse_timers.empty _ _ (λ g. p) (sleep_until-P P now l _ p q)
