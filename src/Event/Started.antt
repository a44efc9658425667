-- ===== src/Event/Started.antt =====
-- The last time of the timer wheel.
use mpdscribble.Base.{
  ℕ, ◌+◌, ◌≤◌, ◌≡◌, ◌%◌, List, arith, leb, ltb, ◌==◌, ◌||◌, ◌-◌, Bool-cases, inl, inr,
}
use mpdscribble.Event.Types.{bucket_index_at, n_buckets, span, resolution, get_bucket_start_time}
use mpdscribble.Event.Loop.{
  EventLoop, Callback, Command, unlink_coarse, unlink_fine, insert_coarse, insert_fine,
}
use mpdscribble.Event.Keeps.{stable-IsRunStable, IsStable, run_buckets-P}
use mpdscribble.Event.Wheel.{insert_wheel}
use mpdscribble.Event.Run.{run_span, set_last_time, move_bucket, push_back}
use mpdscribble.Event.Buckets.{in_span}

-- The wheel has a last time of the start of a bucket, which is not behind the time `now`.
abbrev pub Started : {W : Type 0} → ℕ → EventLoop W → Type 0
Started now l =
    (l.coarse_timers.last_time ≤ get_bucket_start_time now)
    × (l.coarse_timers.last_time % resolution ≡ 0)

Started-IsStable : {W : Type 0} (now : ℕ) → IsStable {W = W} now (Started now)
unfolding get_bucket_start_time unlink_coarse unlink_fine insert_coarse insert_fine insert_wheel
    move_bucket push_back
Started-IsStable now = record {
  closed = record {
    coarse_unlinked = λ id l p. p;
    fine_unlinked = λ id l p. p;
    coarse_inserted =
        λ t l h p. elim (Bool-cases (ltb now t.due)) [ inl e ↦ rw e p | inr e ↦ rw e p ];
    fine_inserted = λ t l h p. p;
    deferred_set = λ ds es l p. p;
    again_set = λ l p. p;
    quit_set = λ l p. p;
    world_set = λ w l p. p;
  };
  bucket_moved = λ i l p. p;
  pushed_back = λ i t l p. p;
  moved_set = λ ts l p. p;
  last_time_set = λ l p. (omega arith, omega arith);
}

module _ {W : Type 0} (now : ℕ) (callback : Callback → ℕ → EventLoop W → W × List Command) where
  -- It also leaves the last time at the start of a bucket.
  pub run_span-Started :
      (l : EventLoop W)
      → l.coarse_timers.last_time % resolution ≡ 0
      → Started now (run_span callback now l)
  unfolding run_span get_bucket_start_time
  run_span-Started l p =
      let last = l.coarse_timers.last_time in
      let start : Started now (set_last_time (get_bucket_start_time now) l) =
        (omega arith, omega arith) in
      let run =
        run_buckets-P callback now (stable-IsRunStable callback now (Started-IsStable now))
          n_buckets (bucket_index_at last) in
      elim (Bool-cases (ltb now last || leb (last + span - resolution) now)) [
        | inl e ↦ rw e (run (bucket_index_at last) _ start)
        | inr e ↦ elim (Bool-cases (bucket_index_at last == bucket_index_at now)) [
          | inl g ↦ rw (e, g) (let h = (in_span now last e).0 in omega arith, p)
          | inr g ↦ rw (e, g) (run (bucket_index_at now) _ start)
        ]
      ]
