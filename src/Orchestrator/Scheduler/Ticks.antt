-- ===== src/Orchestrator/Scheduler/Ticks.antt =====
-- The ticks of src/orchestrator/scheduler.py.
use xray_vision.Base.{
  ℕ, zero, suc, ◌+◌, ◌-◌, ◌*◌, ◌/◌, ◌≤◌, ◌<◌, ◌≡◌, refl, Option, none, some, List, [], ◌∷◌, ok,
  arith, str_eq, eq_iff, get_or, if◌then◌else◌, false, length, map,
}
use xray_vision.Orchestrator.Config.{SchedulerConfig}
use xray_vision.Orchestrator.Scheduler.{
  Scheduler, next_timer_tick, next_boundary_tick, next_tick_ms, ticks, engine_timestamp_ms, ticked,
}

boundary_bounds :
    (base i : ℕ) → 0 < i → (base < (base / i + 1) * i) × ((base / i + 1) * i ≤ base + i)
boundary_bounds base i p = grind arith

div_lt_of : (base i k : ℕ) → 0 < i → base < k * i → base / i + 1 ≤ k
div_lt_of base i k p h = grind arith

boundary_least : (base i k : ℕ) → 0 < i → base < k * i → (base / i + 1) * i ≤ k * i
boundary_least base i k p h = grind (arith, div_lt_of base i k p h)

-- The number of the first boundary after the clock, less the delay.
abbrev pub next_boundary : ℕ → ℕ → ℕ → ℕ
next_boundary now d i = ((now - d) / i + 1) * i

first_tick :
    (s : Scheduler) (now i d : ℕ)
    → str_eq s.config.mode "timer" ≡ false
    → s.config.boundary_interval_ms ≡ some i
    → get_or s.config.boundary_delay_ms 0 ≡ d
    → 0 < i
    → s.last_tick_ms ≡ none
    → next_tick_ms s now ≡ ok (ticked s (next_boundary now d i + d))
unfolding next_tick_ms next_boundary_tick
first_tick s now i d m e f p l = ground arith

-- The first tick of a boundary schedule: with a positive interval there is one, it comes after the
-- clock, and less the delay it is a multiple of the interval. Once the clock has reached the
-- delay, it is the least such number after the clock, so at most one interval away.
pub first_boundary_tick :
    (s : Scheduler) (now i d : ℕ)
    → str_eq s.config.mode "timer" ≡ false
    → s.config.boundary_interval_ms ≡ some i
    → get_or s.config.boundary_delay_ms 0 ≡ d
    → 0 < i
    → s.last_tick_ms ≡ none
    → (t : ℕ) × (next_tick_ms s now ≡ ok (ticked s t))
      × (now < t)
      × ((k : ℕ) × (t ≡ k * i + d))
      × (d ≤ now → t ≤ now + i)
      × ((k : ℕ) → d ≤ now → now < k * i + d → t ≤ k * i + d)
first_boundary_tick s now i d m e f p l = (
  next_boundary now d i + d,
  first_tick s now i d m e f p l,
  omega (arith, (boundary_bounds (now - d) i p).0),
  ((now - d) / i + 1, refl),
  λ h. omega (arith, (boundary_bounds (now - d) i p).1),
  λ k h g. omega (arith, boundary_least (now - d) i k p (omega arith)),
)

-- `n` numbers from `start` on, `i` apart.
abbrev pub progression : ℕ → ℕ → ℕ → List ℕ
progression start i zero = []
progression start i (suc n) = start ∷ progression (start + i) i n

-- The interval that the mode selects.
abbrev pub interval_of : SchedulerConfig → Option ℕ
interval_of c = if str_eq c.mode "timer" then c.timer_interval_ms else c.boundary_interval_ms

later_tick :
    (s : Scheduler) (now l i : ℕ)
    → interval_of s.config ≡ some i
    → s.last_tick_ms ≡ some l
    → next_tick_ms s now ≡ ok (ticked s (l + i))
unfolding next_tick_ms next_boundary_tick next_timer_tick
later_tick s now l i e h = ground arith

ticks_later :
    (s : Scheduler) (nows : List ℕ) (l i : ℕ)
    → interval_of s.config ≡ some i
    → s.last_tick_ms ≡ some l
    → ticks s nows ≡ ok (progression (l + i) i (length nows))
unfolding ticks
ticks_later s [] l i e h = refl
ticks_later s (now ∷ nows) l i e h =
    rw (later_tick s now l i e h, ticks)
      (rw (ticks_later (ticked s (l + i)).0 nows (l + i) i e refl) refl)

-- Where the mode has an interval and the first tick succeeds, the ticks that follow it are exactly
-- one interval apart, in both modes and however the clock runs, and none of them fails.
pub ticks-progression :
    (s : Scheduler) (now : ℕ) (nows : List ℕ) (t i : ℕ)
    → interval_of s.config ≡ some i
    → next_tick_ms s now ≡ ok (ticked s t)
    → ticks s (now ∷ nows) ≡ ok (progression t i (suc (length nows)))
unfolding ticks
ticks-progression s now nows t i e h =
    rw (h, ticks) (rw (ticks_later (ticked s t).0 nows t i e refl) refl)

engine_timestamps :
    (c : SchedulerConfig) (a d i n : ℕ)
    → c.mode ≡ "boundary"
    → get_or c.boundary_delay_ms 0 ≡ d
    → map (engine_timestamp_ms c) (progression (a + d) i n) ≡ progression a i n
unfolding engine_timestamp_ms
engine_timestamps c a d i zero m f = refl
engine_timestamps c a d i (suc n) m f =
    let here : engine_timestamp_ms c (a + d) ≡ a = ground (arith, eq_iff c.mode "boundary") in
    let same : a + d + i ≡ a + i + d = omega arith in
    rw same (cc (here, engine_timestamps c (a + i) d i n m f))

-- In boundary mode with a positive interval, from the first tick on, the engine timestamps of the
-- runs are the multiples of the interval, one after the other, whatever the delay and however late
-- the clock is read.
pub boundary_timestamps :
    (s : Scheduler) (now : ℕ) (nows : List ℕ) (i d : ℕ)
    → s.config.mode ≡ "boundary"
    → s.config.boundary_interval_ms ≡ some i
    → get_or s.config.boundary_delay_ms 0 ≡ d
    → 0 < i
    → s.last_tick_ms ≡ none
    → (ts : List ℕ) × (ticks s (now ∷ nows) ≡ ok ts)
      × (map (engine_timestamp_ms s.config) ts
          ≡ progression (next_boundary now d i) i (suc (length nows)))
boundary_timestamps s now nows i d m e f p l =
    let b : str_eq s.config.mode "timer" ≡ false = rw m refl in
    (
      progression (next_boundary now d i + d) i (suc (length nows)),
      ticks-progression s now nows (next_boundary now d i + d) i (ground arith)
          (first_tick s now i d b e f p l),
      engine_timestamps s.config (next_boundary now d i) d i (suc (length nows)) m f,
    )
