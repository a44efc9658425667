-- ===== src/Event/Buckets.antt =====
-- The buckets of the timer wheel as numbers: which ones are between two times.
use mpdscribble.Base.{
  ℕ, suc, ◌+◌, ◌*◌, ◌≤◌, ◌<◌, ◌≡◌, ◌≢◌, ◌/◌, ◌%◌, refl, ap, ◌∙◌, sym, false, arith, leb, ltb, ◌==◌,
  ◌||◌, ◌-◌, inl, inr, ◌⊎◌,
}
use mpdscribble.Event.Types.{
  Timer, next_bucket_index, bucket_index_at, span, resolution, get_bucket_start_time,
}
use mpdscribble.Event.Coarse.{Accepts}

-- A timer stands in the bucket of its due time, which is not before the last run.
abbrev pub Placed : ℕ → ℕ → Timer → Type 0
Placed last_time j t = (bucket_index_at t.due ≡ j) × (last_time ≤ t.due)

-- While the buckets are checked, from the `k`-th to the `n`-th behind the bucket `s`: a timer stands in
-- its bucket, and if that is of the past then it is still to be checked.
abbrev pub Waiting : ℕ → ℕ → ℕ → ℕ → ℕ → Timer → Type 0
Waiting now s n k j t =
    (bucket_index_at t.due ≡ j)
    × ((get_bucket_start_time now ≤ t.due) ⊎ ((m : ℕ) × (k ≤ m) × (m < n) × ((s + m) % 240 ≡ j)))

pub start_time_le : (now : ℕ) → get_bucket_start_time now ≤ now
unfolding get_bucket_start_time
start_time_le now = omega arith

pub Waiting-Accepts : (now s n k : ℕ) → Accepts now (Waiting now s n k)
Waiting-Accepts now s n k t h = (refl, inl (omega (arith, start_time_le now)))

pub Waiting-stay :
    (now s n k i : ℕ) (t : Timer)
    → Waiting now s n k i t
    → now < t.due
    → Waiting now s n (suc k) i t
Waiting-stay now s n k i t (e, w) h = (e, inl (omega (arith, start_time_le now)))

pub Waiting-other :
    (now s n k j : ℕ) (t : Timer)
    → j ≢ (s + k) % 240
    → Waiting now s n k j t
    → Waiting now s n (suc k) j t
Waiting-other now s n k j t d (e, inl h) = (e, inl h)
Waiting-other now s n k j t d (e, inr (m, p, q, r)) = (e, inr (m, later, q, r))
  where
    differs : k ≢ m
    differs g = d (sym r ∙ ap (λ x. (s + x) % 240) (sym g))

    later : suc k ≤ m
    later = omega (arith, differs)

pub Waiting-end :
    (now s n j : ℕ) (t : Timer) → Waiting now s n n j t → Placed (get_bucket_start_time now) j t
Waiting-end now s n j t (e, inl h) = (e, h)
Waiting-end now s n j t (e, inr (m, p, q, r)) = absurd (omega arith)

pub next_bucket : (s k : ℕ) → next_bucket_index ((s + k) % 240) ≡ (s + suc k) % 240
unfolding next_bucket_index
next_bucket s k = omega arith

pub same_bucket : (s k n : ℕ) → k ≤ n → n < k + 240 → (s + k) % 240 ≡ (s + n) % 240 → k ≡ n
same_bucket s k n p q e = omega arith

pub index_mod :
    (last n q : ℕ) → n ≡ 240 * q → bucket_index_at last ≡ (bucket_index_at last + n) % 240
unfolding bucket_index_at
index_mod last n q e = omega arith

pub index_of_now :
    (now last : ℕ)
    → last ≤ now
    → bucket_index_at now ≡ (bucket_index_at last + (now / 250000000 - last / 250000000)) % 240
unfolding bucket_index_at
index_of_now now last h = omega arith

pub later_bucket :
    (now last : ℕ)
    → last ≤ now
    → bucket_index_at last ≢ bucket_index_at now
    → 0 < now / 250000000 - last / 250000000
unfolding bucket_index_at
later_bucket now last h d = omega (arith, d)

-- In a minute less a bucket, the same index is the same bucket.
pub still_here :
    (now last : ℕ)
    → last ≤ now
    → now < last + 59750000000
    → bucket_index_at last ≡ bucket_index_at now
    → (j : ℕ) (t : Timer) → Placed last j t
    → Placed (get_bucket_start_time now) j t
unfolding bucket_index_at get_bucket_start_time
still_here now last h k e j t (p, q) = (p, omega (arith, e, h, k, q))

pub in_span :
    (now last : ℕ)
    → (ltb now last || leb (last + span - resolution) now) ≡ false
    → (last ≤ now) × (now < last + 59750000000)
in_span now last e = (ground arith, ground arith)

pub differ : (a b : ℕ) → (a == b) ≡ false → a ≢ b
differ a b e h = ground arith
