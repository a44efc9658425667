-- ===== src/Event/Span.antt =====
-- The buckets that TimerWheel::Run() checks are those with the timers that are due.
use mpdscribble.Base.{
  ℕ, zero, suc, ◌+◌, ◌≤◌, ◌<◌, ◌≡◌, ◌≢◌, ◌/◌, ◌%◌, ap, ◌∙◌, sym, subst, false, List, arith, leb,
  ltb, ◌==◌, ◌||◌, ◌-◌, Bool-cases, inl, inr, ltb→lt, ==_iff,
}
use mpdscribble.Event.Types.{
  Timer, next_bucket_index, bucket_index_at, span, resolution, get_bucket_start_time,
}
use mpdscribble.Event.Loop.{EventLoop, Callback, Command}
use mpdscribble.Event.All.{All-map}
use mpdscribble.Event.Coarse.{Holds, Never, run_list-Holds}
use mpdscribble.Event.Run.{run_list, run_buckets, run_span, set_last_time}
use mpdscribble.Event.Buckets.{
  Placed, Waiting, Waiting-Accepts, Waiting-stay, Waiting-other, Waiting-end, next_bucket,
  same_bucket, index_mod, index_of_now, later_bucket, still_here, in_span, differ,
}

module _ {W : Type 0} (now : ℕ) (callback : Callback → ℕ → EventLoop W → W × List Command) where
  run_one-Holds :
      (s n k i : ℕ) (l : EventLoop W)
      → i ≡ (s + k) % 240
      → Holds (Waiting now s n k) Never l
      → Holds (Waiting now s n (suc k)) Never (run_list callback now i l)
  run_one-Holds s n k i l e p =
      run_list-Holds now callback (Waiting now s n k) (Waiting now s n (suc k)) i l
        (Waiting-Accepts now s n (suc k)) (Waiting-stay now s n k i)
        (λ j t d. Waiting-other now s n k j t (λ g. d (g ∙ sym e))) p

  Holds-end :
      (s n k : ℕ) (l : EventLoop W)
      → k ≡ n
      → Holds (Waiting now s n k) Never l
      → Holds (Placed (get_bucket_start_time now)) Never l
  Holds-end s n k l e (f, c, g) = (
    λ j.
        All-map _ _ _ (λ t w. Waiting-end now s n j t (subst (λ m. Waiting now s n m j t) e w))
          (f j),
    c,
    g,
  )

  -- The loop over the buckets checks each of them.
  run_buckets-Holds :
      (count s n k i last : ℕ) (l : EventLoop W)
      → k < n
      → n ≤ k + count
      → n ≤ 240
      → i ≡ (s + k) % 240
      → last ≡ (s + n) % 240
      → Holds (Waiting now s n k) Never l
      → Holds (Placed (get_bucket_start_time now)) Never (run_buckets callback count now i last l)
  unfolding run_buckets
  run_buckets-Holds zero s n k i last l a b c e g p = absurd (omega arith)
  run_buckets-Holds (suc count) s n k i last l a b c e g p =
      elim (Bool-cases (next_bucket_index i == last)) [
        | inl h ↦ rw h (
            Holds-end s n (suc k) (run_list callback now i l)
              (same_bucket s (suc k) n (omega arith) (omega arith)
                (sym next_is ∙ (==_iff _ _).0 h ∙ g))
              (run_one-Holds s n k i l e p))
        | inr h ↦ rw h (
            run_buckets-Holds count s n (suc k) (next_bucket_index i) last _ (not_last h)
              (omega arith) c next_is g (run_one-Holds s n k i l e p))
      ]
    where
      next_is : next_bucket_index i ≡ (s + suc k) % 240
      next_is = ap next_bucket_index e ∙ next_bucket s k

      not_last : (next_bucket_index i == last) ≡ false → suc k < n
      not_last h = omega (arith, differs)
        where
          differs : suc k ≢ n
          differs q =
              let here : next_bucket_index i ≡ last = next_is ∙ ap (λ x. (s + x) % 240) q ∙ sym g in
              ground arith

  -- Before the loop: all buckets are to be checked, or those up to that of the time `now`.
  all_Waiting :
      (last j : ℕ) (t : Timer) → Placed last j t → Waiting now (bucket_index_at last) 240 0 j t
  unfolding bucket_index_at
  all_Waiting last j t (e, h) = (
    e,
    inr ((j + 240 - last / 250000000 % 240) % 240, omega arith, omega arith, omega (arith, e)),
  )

  some_Waiting :
      (last n j : ℕ) (t : Timer)
      → last / 250000000 + n ≡ now / 250000000
      → Placed last j t
      → Waiting now (bucket_index_at last) n 0 j t
  unfolding bucket_index_at get_bucket_start_time
  some_Waiting last n j t d (e, h) = elim (Bool-cases (ltb (t.due / 250000000) (now / 250000000))) [
    | inl k ↦
        let before = ltb→lt _ _ k in
        (e, inr (t.due / 250000000 - last / 250000000, omega arith, omega arith, omega (arith, e)))
    | inr k ↦
        let behind : now / 250000000 ≤ t.due / 250000000 = ground arith in (e, inl (omega arith))
  ]

  Holds-map :
      (A B : ℕ → Timer → Type 0) (l : EventLoop W)
      → ((j : ℕ) (t : Timer) → A j t → B j t)
      → Holds A Never l
      → Holds B Never l
  Holds-map A B l m (f, c, g) = (λ j. All-map (A j) (B j) _ (m j) (f j), c, g)

  run_all-Holds :
      (last : ℕ) (l : EventLoop W)
      → Holds (Placed last) Never l
      → Holds
          (Placed (get_bucket_start_time now))
          Never
          (run_buckets callback 240 now (bucket_index_at last) (bucket_index_at last) l)
  run_all-Holds last l p =
      run_buckets-Holds 240 (bucket_index_at last) 240 0 (bucket_index_at last)
        (bucket_index_at last) l (omega arith) (omega arith) (omega arith)
        (index_mod last 0 0 (omega arith)) (index_mod last 240 1 (omega arith))
        (Holds-map (Placed last) _ l (all_Waiting last) p)

  run_some-Holds :
      (last : ℕ) (l : EventLoop W)
      → last ≤ now
      → now < last + 59750000000
      → bucket_index_at last ≢ bucket_index_at now
      → Holds (Placed last) Never l
      → Holds
          (Placed (get_bucket_start_time now))
          Never
          (run_buckets callback 240 now (bucket_index_at last) (bucket_index_at now) l)
  run_some-Holds last l h k d p =
      run_buckets-Holds 240 (bucket_index_at last) (now / 250000000 - last / 250000000) 0
        (bucket_index_at last) (bucket_index_at now) l (later_bucket now last h d) (omega arith)
        (omega arith) (index_mod last 0 0 (omega arith)) (index_of_now now last h)
        (Holds-map (Placed last) _ l (λ j t. some_Waiting last _ j t (omega arith)) p)

  -- If each timer of the wheel stands in its bucket and is not due before the last run, TimerWheel::Run()
  -- leaves only timers that stand in their buckets and are not due before the start of the bucket of the
  -- time `now`, however much time has passed and whatever the callbacks do.
  pub run_span-Holds :
      (l : EventLoop W)
      → Holds (Placed l.coarse_timers.last_time) Never l
      → Holds (Placed (get_bucket_start_time now)) Never (run_span callback now l)
  unfolding run_span
  run_span-Holds l p =
      let last = l.coarse_timers.last_time in
      elim (Bool-cases (ltb now last || leb (last + span - resolution) now)) [
        | inl e ↦ rw e (run_all-Holds last (set_last_time (get_bucket_start_time now) l) p)
        | inr e ↦ elim (Bool-cases (bucket_index_at last == bucket_index_at now)) [
          | inl g ↦
              rw (e, g)
                (Holds-map (Placed last) _ l
                  (still_here now last (in_span now last e).0 (in_span now last e).1
                    ((==_iff _ _).0 g))
                  p)
          | inr g ↦
              rw (e, g)
                (run_some-Holds last (set_last_time (get_bucket_start_time now) l)
                  (in_span now last e).0 (in_span now last e).1 (differ _ _ g) p)
        ]
      ]
