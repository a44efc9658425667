-- ===== src/Event/Run.antt =====
-- event/TimerWheel.cxx, event/TimerList.cxx, event/Loop.cxx: the loops that run callbacks.
use mpdscribble.Base.{
  ℕ, zero, suc, ◌+◌, ◌-◌, ◌/◌, false, ◌||◌, List, [], ◌∷◌, ◌++◌, Option, none, some, ltb, leb,
  length, ◌==◌, if◌then◌else◌, ◌>>=◌,
}
use mpdscribble.Event.Types.{
  Timer, TimerWheel, resolution, span, n_buckets, next_bucket_index, bucket_index_at,
  get_bucket_start_time, set_bucket,
}
use mpdscribble.Event.Wheel.{get_sleep}
use mpdscribble.Event.Loop.{
  EventLoop, Callback, coarse_timer, fine_timer, deferred, Command, perform_all,
}

-- the comparison of HandleTimers(); `none` is a negative duration
unfoldable pub earlier : Option ℕ → Option ℕ → Option ℕ
earlier none coarse = coarse
earlier (some fine) none = some fine
earlier (some fine) (some coarse) = if ltb coarse fine then some coarse else some fine

-- How one round of EventLoop::Run() goes on; `endless` is that the fuel has run out.
pub data Round (W : Type 0) : Type 0 where
  waits : Option ℕ → EventLoop W → Round W
  continues breaks : EventLoop W → Round W
  endless : Round W

module _ {W : Type 0} where
  abbrev pub with_sleep : EventLoop W → Option ℕ × TimerWheel → Option ℕ × EventLoop W
  with_sleep l (timeout, wheel) = (timeout, record l { coarse_timers = wheel })

  -- GetSleep() on the wheel of the loop
  unfoldable pub sleep : ℕ → EventLoop W → Option ℕ × EventLoop W
  sleep now l = with_sleep l (get_sleep now l.coarse_timers)

  -- `auto tmp = std::move(list)` for a bucket
  unfoldable pub move_bucket : ℕ → EventLoop W → EventLoop W
  move_bucket i l = record l {
    coarse_timers = record l.coarse_timers { buckets = set_bucket i [] l.coarse_timers.buckets };
    moved = l.coarse_timers.buckets i;
  }

  -- `list.push_back(*t)` for a bucket
  unfoldable pub push_back : ℕ → Timer → EventLoop W → EventLoop W
  push_back i t l = record l {
    coarse_timers = record l.coarse_timers {
      buckets = set_bucket i (l.coarse_timers.buckets i ++ t ∷ []) l.coarse_timers.buckets;
    };
  }

  abbrev pub set_moved : List Timer → EventLoop W → EventLoop W
  set_moved ts l = record l { moved = ts }

  abbrev pub set_ready : List Timer → EventLoop W → EventLoop W
  set_ready ts l = record l { coarse_timers = record l.coarse_timers { ready = ts } }

  abbrev pub set_timers : List Timer → EventLoop W → EventLoop W
  set_timers ts l = record l { timers = ts }

  abbrev pub set_last_time : ℕ → EventLoop W → EventLoop W
  set_last_time t l = record l { coarse_timers = record l.coarse_timers { last_time = t } }

  -- A callback: the new state of all else, and what it asks of the loop, one after another.
  module _ (callback : Callback → ℕ → EventLoop W → W × List Command) where
    abbrev apply_result : ℕ → EventLoop W → W × List Command → EventLoop W
    apply_result now l (world, commands) = perform_all now commands (record l { world = world })

    -- the call of a callback
    unfoldable pub invoke : ℕ → Callback → EventLoop W → EventLoop W
    invoke now c l = apply_result now l (callback c now l)

    -- the body of the loop of TimerWheel::Run(List &)
    unfoldable pub run_or_keep : ℕ → ℕ → Timer → EventLoop W → EventLoop W
    unfolding invoke push_back
    run_or_keep now i t l = if leb t.due now then invoke now (coarse_timer t) l else push_back i t l

    -- the loop of TimerWheel::Run(List &), for a number of rounds
    unfoldable pub run_moved : ℕ → ℕ → ℕ → EventLoop W → EventLoop W
    run_moved zero now i l = l
    run_moved (suc count) now i l = elim l.moved [
      | [] ↦ l
      | t ∷ ts ↦ run_moved count now i (run_or_keep now i t (set_moved ts l))
    ]

    -- TimerWheel::Run(List &) on a bucket
    unfoldable pub run_list : ℕ → ℕ → EventLoop W → EventLoop W
    unfolding run_moved move_bucket
    run_list now i l = run_moved (length (l.coarse_timers.buckets i)) now i (move_bucket i l)

    -- the loop of TimerWheel::Run() over the buckets, for a number of rounds at most
    unfoldable pub run_buckets : ℕ → ℕ → ℕ → ℕ → EventLoop W → EventLoop W
    run_buckets zero now i last l = l
    run_buckets (suc count) now i last l =
        let rest = run_buckets count now (next_bucket_index i) last (run_list now i l) in
        if next_bucket_index i == last then run_list now i l else rest

    -- the first loop of TimerWheel::Run()
    unfoldable pub run_ready : ℕ → ℕ → EventLoop W → Option (EventLoop W)
    unfolding invoke
    run_ready zero now l = none
    run_ready (suc fuel) now l = elim l.coarse_timers.ready [
      | [] ↦ some l
      | t ∷ ts ↦ run_ready fuel now (invoke now (coarse_timer t) (set_ready ts l))
    ]

    -- what TimerWheel::Run() does behind its first loop
    unfoldable pub run_span : ℕ → EventLoop W → EventLoop W
    unfolding run_buckets
    run_span now l =
        let last = l.coarse_timers.last_time in
        let start_bucket = bucket_index_at last in
        if ltb now last || leb (last + span - resolution) now
        then run_buckets n_buckets now start_bucket start_bucket
            (set_last_time (get_bucket_start_time now) l)
        else if start_bucket == bucket_index_at now
        then l
        else run_buckets n_buckets now start_bucket (bucket_index_at now)
            (set_last_time (get_bucket_start_time now) l)

    -- TimerWheel::Run()
    unfoldable pub run_wheel : ℕ → ℕ → EventLoop W → Option (Option ℕ × EventLoop W)
    unfolding run_ready run_span sleep
    run_wheel fuel now l = run_ready fuel now l >>= (λ l. some (sleep now (run_span now l)))

    -- TimerList::Run()
    unfoldable pub run_timers : ℕ → ℕ → EventLoop W → Option (Option ℕ × EventLoop W)
    unfolding invoke
    run_timers zero now l = none
    run_timers (suc fuel) now l = elim l.timers [
      | [] ↦ some (none, l)
      | t ∷ ts ↦
          (let more = run_timers fuel now (invoke now (fine_timer t) (set_timers ts l)) in
            if ltb now t.due then some (some (t.due - now), l) else more)
    ]

    abbrev pub with_fine : Option ℕ → Option ℕ × EventLoop W → Option ℕ × EventLoop W
    with_fine fine (coarse, l) = (earlier fine coarse, l)

    -- HandleTimers()
    unfoldable pub handle_timers : ℕ → ℕ → EventLoop W → Option (Option ℕ × EventLoop W)
    unfolding run_timers run_wheel earlier
    handle_timers fuel now l =
        run_timers fuel now l
        >>= (λ (fine, l). run_wheel fuel now l >>= (λ r. some (with_fine fine r)))

    -- RunDeferred()
    unfoldable pub run_deferred : ℕ → ℕ → EventLoop W → Option (EventLoop W)
    unfolding invoke
    run_deferred zero now l = none
    run_deferred (suc fuel) now l = elim l.defer [
      | [] ↦ some l
      | e ∷ es ↦
          (let more = run_deferred fuel now (invoke now (deferred e) (record l { defer = es })) in
            if l.quit then some l else more)
    ]

    -- RunOneIdle(), and what the loop does behind it up to Wait()
    unfoldable pub run_one_idle : ℕ → Option ℕ → EventLoop W → Round W
    unfolding invoke
    run_one_idle now timeout l = elim l.idle [
      | [] ↦ if l.again then continues l else waits timeout l
      | e ∷ es ↦ continues (invoke now (deferred e) (record l { idle = es }))
    ]

    abbrev pub after_deferred : ℕ → Option ℕ → Option (EventLoop W) → Round W
    after_deferred now timeout none = endless
    after_deferred now timeout (some l) = if l.quit then breaks l else run_one_idle now timeout l

    abbrev pub after_timers : ℕ → ℕ → Option (Option ℕ × EventLoop W) → Round W
    after_timers fuel now none = endless
    after_timers fuel now (some (timeout, l)) =
        if l.quit then breaks l else after_deferred now timeout (run_deferred fuel now l)

    -- the loop of EventLoop::Run() up to Wait(), at the cached time `now`
    unfoldable pub round : ℕ → ℕ → EventLoop W → Round W
    unfolding handle_timers run_deferred run_one_idle
    round fuel now l = after_timers fuel now (handle_timers fuel now (record l { again = false }))

-- ExportTimeoutMS()
unfoldable pub export_timeout_ms : Option ℕ → Option ℕ
export_timeout_ms none = none
export_timeout_ms (some timeout) = some ((timeout + 999999) / 1000000)
