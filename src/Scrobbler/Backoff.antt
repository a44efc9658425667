-- ===== src/Scrobbler/Backoff.antt =====
-- The delays between attempts: Scrobbler::IncreaseInterval().
use mpdscribble.Base.{ℕ, ◌≤◌, ◌≡◌, arith}
use mpdscribble.Scrobbler.State.{next_interval, first_interval, min_interval, max_interval}

-- From any delay of one second to eight minutes, the next one is at least as long, is at least a
-- minute and at most eight, and four failures in a row end at exactly eight minutes.
pub next_interval_backoff :
    (i : ℕ)
    → first_interval ≤ i
    → i ≤ max_interval
    → (i ≤ next_interval i)
      × (min_interval ≤ next_interval i)
      × (next_interval i ≤ max_interval)
      × (next_interval (next_interval (next_interval (next_interval i))) ≡ max_interval)
unfolding next_interval
next_interval_backoff i lo hi = ground arith
