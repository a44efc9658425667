-- ===== src/Instance/Played.antt =====
-- When a song counts as played.
use mpdscribble.Base.{ℕ, ◌*◌, ◌≤◌, ◌<◌, ◌≡◌, ◌↔◌, ◌⊎◌, true, false, arith}
use mpdscribble.Instance.{played_long_enough}

-- more than four minutes, or at least half a minute long and played for more than half its length
abbrev pub IsPlayed : ℕ → ℕ → Type 0
IsPlayed elapsed length =
    (240_000_000_000 < elapsed) ⊎ ((30_000_000_000 ≤ length) × (length < 2 * elapsed))

pub played_long_enough_iff :
    (elapsed length : ℕ) → (played_long_enough elapsed length ≡ true) ↔ IsPlayed elapsed length
unfolding played_long_enough
played_long_enough_iff elapsed length = (λ h. ground arith, λ h. ground arith)

pub played_long_enough-false :
    (elapsed length : ℕ) → ¬ IsPlayed elapsed length → played_long_enough elapsed length ≡ false
played_long_enough-false elapsed length h = ground (arith, played_long_enough_iff elapsed length)
