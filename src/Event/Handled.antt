-- ===== src/Event/Handled.antt =====
-- HandleTimers(): what is left, and how long the loop may sleep.
use mpdscribble.Base.{
  ℕ, zero, suc, ◌≤◌, ◌%◌, ◌≡◌, refl, false, List, [], ◌∷◌, Option, none, some, arith, subst, sym,
  ◌>>=◌,
}
use mpdscribble.Event.Types.{Timer, resolution}
use mpdscribble.Event.Loop.{EventLoop, Callback, Command, coarse_timer}
use mpdscribble.Event.All.{All, All-map, Ordered}
use mpdscribble.Event.Coarse.{Never, Holds}
use mpdscribble.Event.Keeps.{stable-IsRunStable, Kept, run_ready-P, run_span-P}
use mpdscribble.Event.Quiet.{Quiet, Quiet-IsStable, Ordered-IsStable}
use mpdscribble.Event.Rest.{
  FineInTime, CoarseInTime, FinesInTime, FinesInTime-IsLess, NoneReady, NoneReady-IsLess, InTime,
  LaterCoarse-InTime, earlier-FineInTime, earlier-CoarseInTime, IsSound, PlacedAt,
  PlacedAt-IsClosed, IsSound-PlacedAt, FineRun, run_timers-FineRun,
}
use mpdscribble.Event.Sleep.{HasRun, SleepsWell, sleep-SleepsWell, sleep-P}
use mpdscribble.Event.Buckets.{Placed, start_time_le}
use mpdscribble.Event.Started.{run_span-Started, Started}
use mpdscribble.Event.Span.{run_span-Holds}
use mpdscribble.Event.Run.{
  invoke, run_ready, run_span, run_wheel, run_timers, sleep, handle_timers, set_ready, with_fine,
}

module _ {W : Type 0} where
  -- TimerWheel::Run() behind TimerList::Run() with the result `d`.
  abbrev WheelRun : ℕ → Option ℕ → Option (Option ℕ × EventLoop W) → Type 0
  WheelRun now d none = Unit
  WheelRun now d (some (e, l)) =
      IsSound now l
      × (l.again ≡ false
          → All (FineInTime now d) l.timers
            × All Never l.coarse_timers.ready
            × ((j : ℕ) → All (CoarseInTime now e) (l.coarse_timers.buckets j)))

  -- HandleTimers()
  abbrev pub TimersRun : ℕ → Option (Option ℕ × EventLoop W) → Type 0
  TimersRun now none = Unit
  TimersRun now (some (d, l)) = IsSound now l × Quiet now (InTime now d) l

  HasRun-IsSound : (now : ℕ) (l : EventLoop W) → HasRun now l → Ordered l.timers → IsSound now l
  HasRun-IsSound now l ((f, c, e), h, a) o = record {
    placed = (λ j. All-map _ _ _ (λ t (p, q). (p, omega arith)) (f j), c, e);
    started = omega (arith, start_time_le now);
    aligned = a;
    ordered = o;
  }

  module _ (callback : Callback → ℕ → EventLoop W → W × List Command) (now : ℕ) where
    run_ready-NoneReady :
        (fuel : ℕ) (l : EventLoop W)
        → Kept (λ l. All Never l.coarse_timers.ready) (run_ready callback fuel now l)
    unfolding run_ready
    run_ready-NoneReady zero l = tt
    run_ready-NoneReady (suc fuel) l =
        go l.coarse_timers.ready refl (λ t ts. run_ready-NoneReady fuel _)
      where
        go :
            (ts : List Timer)
            → l.coarse_timers.ready ≡ ts
            → ((t : Timer) (us : List Timer)
                → Kept
                    (λ l. All Never l.coarse_timers.ready)
                    (run_ready callback fuel now
                      (invoke callback now (coarse_timer t) (set_ready us l))))
            → Kept
                (λ l. All Never l.coarse_timers.ready)
                (elim ts [
                  | [] ↦ some l
                  | t ∷ us ↦
                      run_ready callback fuel now
                        (invoke callback now (coarse_timer t) (set_ready us l))
                ])
        go [] m f = subst (All Never) (sym m) tt
        go (t ∷ us) m f = f t us

    slept :
        (d : Option ℕ) (m : EventLoop W)
        → HasRun now m
        → Ordered m.timers
        → Quiet now (λ ts rs b. FinesInTime now d ts rs) m
        → Quiet now (λ ts rs b. NoneReady ts rs) m
        → WheelRun now d (some (sleep now m))
    slept d m h o f n =
        let (later, has_run) : SleepsWell now (sleep now m) = sleep-SleepsWell now m h in
        (
          HasRun-IsSound now _ has_run (sleep-P (λ l. Ordered l.timers) now m o o),
          λ e. (
            sleep-P (Quiet now (λ ts rs b. FinesInTime now d ts rs)) now m f f e,
            sleep-P (Quiet now (λ ts rs b. NoneReady ts rs)) now m n n e,
            λ j. All-map _ _ _ (λ t. LaterCoarse-InTime now _ t) (later j),
          ),
        )

    -- after the first loop of TimerWheel::Run()
    span_and_sleep :
        (c : ℕ) (d : Option ℕ) (l : EventLoop W)
        → c % resolution ≡ 0
        → PlacedAt c l
        → Quiet now (λ ts rs b. FinesInTime now d ts rs) l
        → All Never l.coarse_timers.ready
        → WheelRun now d (some (sleep now (run_span callback now l)))
    span_and_sleep c d l a ((p, e), o) f n =
        let (h, k) : Started now (run_span callback now l) =
          run_span-Started now callback l (subst (λ x. x % resolution ≡ 0) (sym e) a) in
        slept d (run_span callback now l)
          (run_span-Holds now callback l (subst (λ x. Holds (Placed x) Never l) (sym e) p), h, k)
          (run_span-P callback now (stable-IsRunStable callback now (Ordered-IsStable now)) l o)
          (run_span-P callback now
            (stable-IsRunStable callback now
              (Quiet-IsStable now (FinesInTime now d) (FinesInTime-IsLess now d)))
            l f)
          (run_span-P callback now
            (stable-IsRunStable callback now (Quiet-IsStable now NoneReady NoneReady-IsLess)) l
            (λ g. n))

    run_wheel-WheelRun :
        (fuel c : ℕ) (d : Option ℕ) (l : EventLoop W)
        → c ≤ now
        → c % resolution ≡ 0
        → PlacedAt c l
        → All (FineInTime now d) l.timers
        → WheelRun now d (run_wheel callback fuel now l)
    unfolding run_wheel
    run_wheel-WheelRun fuel c d l h a p f =
        go (run_ready callback fuel now l)
          (run_ready-P callback now (PlacedAt-IsClosed now c h) fuel (λ ts l q. q) l p)
          (run_ready-P callback now
            (Quiet-IsStable now (FinesInTime now d) (FinesInTime-IsLess now d)).closed fuel
            (λ ts l q. q) l (λ e. f))
          (run_ready-NoneReady fuel l)
      where
        go :
            (r : Option (EventLoop W))
            → Kept (PlacedAt c) r
            → Kept (Quiet now (λ ts rs b. FinesInTime now d ts rs)) r
            → Kept (λ l. All Never l.coarse_timers.ready) r
            → WheelRun now d (r >>= (λ l. some (sleep now (run_span callback now l))))
        go none p q n = tt
        go (some m) p q n = span_and_sleep c d m a p q n

    pub handle_timers-TimersRun :
        (fuel : ℕ) (l : EventLoop W)
        → IsSound now l
        → TimersRun now (handle_timers callback fuel now l)
    unfolding handle_timers
    handle_timers-TimersRun fuel l s = go (run_timers callback fuel now l) (
        run_timers-FineRun callback now l.coarse_timers.last_time fuel l s.started
          (IsSound-PlacedAt now l s))
      where
        combined :
            (d : Option ℕ) (r : Option (Option ℕ × EventLoop W))
            → WheelRun now d r
            → TimersRun now (r >>= (λ q. some (with_fine callback d q)))
        combined d none w = tt
        combined d (some (e, m)) (s, q) = (
          s,
          λ g. (
            All-map _ _ _ (λ t. earlier-FineInTime now d e t) (q g).0,
            (q g).1,
            λ j. All-map _ _ _ (λ t. earlier-CoarseInTime now d e t) ((q g).2 j),
          ),
        )

        go :
            (r : Option (Option ℕ × EventLoop W))
            → FineRun now l.coarse_timers.last_time r
            → TimersRun now (
                r >>= (λ (d, m).
                  run_wheel callback fuel now m >>= (λ q. some (with_fine callback d q))))
        go none f = tt
        go (some (d, m)) (p, f) =
            combined d (run_wheel callback fuel now m)
              (run_wheel-WheelRun fuel l.coarse_timers.last_time d m s.started s.aligned p f)
