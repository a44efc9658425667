-- ===== src/Stopwatch.antt =====
-- time/Stopwatch.hxx. A time point counts nanoseconds from the epoch of the clock; the time at which
-- a method is called is its argument.
use mpdscribble.Base.{ℕ, ◌+◌, ◌-◌, ◌≤◌, ◌<◌, ◌≡◌, Bool, List, [], ◌∷◌, arith, ltb, if◌then◌else◌}

pub record Stopwatch : Type 0 where
  pub duration : ℕ
  pub start : ℕ

-- Stopwatch()
abbrev pub stopped : Stopwatch
stopped = record { duration = 0; start = 0 }

-- Stopwatch::IsRunning()
abbrev pub is_running : Stopwatch → Bool
is_running w = ltb 0 w.start

-- Stopwatch::GetDuration()
unfoldable pub get_duration : ℕ → Stopwatch → ℕ
get_duration now w = if is_running w then w.duration + (now - w.start) else w.duration

-- Stopwatch::Start()
unfoldable pub start_watch : ℕ → Stopwatch → Stopwatch
start_watch now w = record { duration = 0; start = now }

-- Stopwatch::Resume()
unfoldable pub resume_watch : ℕ → Stopwatch → Stopwatch
resume_watch now w = if is_running w then w else record w { start = now }

-- Stopwatch::Stop()
unfoldable pub stop_watch : ℕ → Stopwatch → Stopwatch
stop_watch now w =
    if is_running w then record { duration = w.duration + (now - w.start); start = 0 } else w

-- Pauses, each from a time to a later one.
abbrev pub pause_all : List (ℕ × ℕ) → Stopwatch → Stopwatch
pause_all [] w = w
pause_all ((from, till) ∷ pauses) w = pause_all pauses (resume_watch till (stop_watch from w))

-- The pauses follow one another between two times.
abbrev pub InOrder : ℕ → List (ℕ × ℕ) → ℕ → Type 0
InOrder t [] end_time = t ≤ end_time
InOrder t ((from, till) ∷ pauses) end_time =
    (t ≤ from) × (from ≤ till) × InOrder till pauses end_time

-- The length of the pauses.
abbrev pub paused_for : List (ℕ × ℕ) → ℕ
paused_for [] = 0
paused_for ((from, till) ∷ pauses) = (till - from) + paused_for pauses

get_duration-pause_all :
    (pauses : List (ℕ × ℕ)) (w : Stopwatch) (end_time : ℕ)
    → 0 < w.start
    → InOrder w.start pauses end_time
    → get_duration end_time (pause_all pauses w) + paused_for pauses + w.start
      ≡ w.duration + end_time
unfolding get_duration resume_watch stop_watch
get_duration-pause_all [] w end_time h o = ground arith
get_duration-pause_all ((from, till) ∷ pauses) w end_time h o =
    ground (arith, get_duration-pause_all pauses (resume_watch till (stop_watch from w)) end_time)

-- A stopwatch that is started, paused and resumed any number of times, at times in order, shows the
-- time since its start less that of the pauses.
pub get_duration-start_watch :
    (w : Stopwatch) (begin : ℕ) (pauses : List (ℕ × ℕ)) (end_time : ℕ)
    → 0 < begin
    → InOrder begin pauses end_time
    → get_duration end_time (pause_all pauses (start_watch begin w)) + paused_for pauses + begin
      ≡ end_time
unfolding start_watch
get_duration-start_watch w begin pauses end_time h o =
    omega
      (arith, get_duration-pause_all pauses (record { duration = 0; start = begin }) end_time h o)
