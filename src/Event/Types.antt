-- ===== src/Event/Types.antt =====
-- event/CoarseTimerEvent.hxx, event/FineTimerEvent.hxx and the timers of event/TimerWheel.hxx.
use mpdscribble.Base.{ℕ, ◌+◌, ◌-◌, ◌/◌, ◌%◌, Bool, List, [], ◌∷◌, ◌==◌, if◌then◌else◌}

-- A timer that is pending: the object, and its member `due` in nanoseconds.
pub record Timer : Type 0 where
  pub id : ℕ
  pub due : ℕ

-- `RESOLUTION`, `SPAN` and `N_BUCKETS`
abbrev pub resolution : ℕ
resolution = 250000000

abbrev pub span : ℕ
span = 60000000000

abbrev pub n_buckets : ℕ
n_buckets = 240

-- NextBucketIndex(), BucketIndexAt(), GetBucketStartTime()
unfoldable pub next_bucket_index : ℕ → ℕ
next_bucket_index i = (i + 1) % n_buckets

unfoldable pub bucket_index_at : ℕ → ℕ
bucket_index_at t = t / resolution % n_buckets

unfoldable pub get_bucket_start_time : ℕ → ℕ
get_bucket_start_time t = t - t % resolution

-- class TimerWheel; there are N_BUCKETS buckets
pub record TimerWheel : Type 0 where
  pub buckets : ℕ → List Timer
  pub ready : List Timer
  pub last_time : ℕ
  pub empty : Bool

-- unlink() of a timer, in a list that it may stand in
unfoldable pub unlink : ℕ → List Timer → List Timer
unlink id [] = []
unlink id (t ∷ ts) = let rest = unlink id ts in if t.id == id then rest else t ∷ rest

unfoldable pub set_bucket : ℕ → List Timer → (ℕ → List Timer) → ℕ → List Timer
set_bucket i list buckets j = if j == i then list else buckets j
