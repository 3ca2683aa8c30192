-- ===== src/Orchestrator/Scheduler.antt =====
-- src/orchestrator/scheduler.py, and `_engine_timestamp_ms` of src/runtime/wiring.py.
pub mod Ticks
use xray_vision.Base.{
  ℕ, suc, ◌+◌, ◌-◌, ◌*◌, ◌/◌, String, Option, none, some, List, [], ◌∷◌, Result, ok, err, str_eq,
  ◌==◌, if◌then◌else◌, get_or, ◌>>=◌, ◌>>◌, raise_if,
}
use xray_vision.Orchestrator.Errors.{Error, interval_required, division_by_zero}
use xray_vision.Orchestrator.Config.{SchedulerConfig}

pub record Scheduler : Type 0 where
  pub config : SchedulerConfig
  pub last_tick_ms : Option ℕ

abbrev pub require : Option ℕ → Result Error ℕ
require none = err interval_required
require (some v) = ok v

-- The tick is the new `last_tick_ms`, which is what the code returns.
abbrev pub ticked : Scheduler → ℕ → Scheduler × ℕ
ticked s t = (record s { last_tick_ms = some t }, t)

unfoldable pub next_timer_tick : Scheduler → ℕ → Result Error (Scheduler × ℕ)
next_timer_tick s now_ms = do
  interval_ms ← require s.config.timer_interval_ms
  elim s.last_tick_ms [
    | none ↦ ok (ticked s now_ms)
    | some last ↦ ok (ticked s (last + interval_ms))
  ]

-- `((base // interval_ms) + 1) * interval_ms + delay_ms`; `//` by zero raises.
abbrev pub first_boundary : ℕ → ℕ → ℕ → Result Error ℕ
first_boundary base interval_ms delay_ms =
    if interval_ms == 0
    then err division_by_zero
    else ok ((base / interval_ms + 1) * interval_ms + delay_ms)

-- `now_ms - delay_ms`, set to 0 where it is negative, is the subtraction of the naturals.
unfoldable pub next_boundary_tick : Scheduler → ℕ → Result Error (Scheduler × ℕ)
next_boundary_tick s now_ms = do
  interval_ms ← require s.config.boundary_interval_ms
  elim s.last_tick_ms [
    | some last ↦ ok (ticked s (last + interval_ms))
    | none ↦ do
      t ←
          first_boundary (now_ms - get_or s.config.boundary_delay_ms 0) interval_ms
            (get_or s.config.boundary_delay_ms 0)
      ok (ticked s t)
  ]

unfoldable pub next_tick_ms : Scheduler → ℕ → Result Error (Scheduler × ℕ)
next_tick_ms s now_ms =
    if str_eq s.config.mode "timer" then next_timer_tick s now_ms else next_boundary_tick s now_ms

-- The ticks that a run of the scheduler's loop plans, one for each reading of the clock.
unfoldable pub ticks : Scheduler → List ℕ → Result Error (List ℕ)
ticks s [] = ok []
ticks s (now ∷ nows) = elim (next_tick_ms s now) [
  | err e ↦ err e
  | ok (s', t) ↦ do ts ← ticks s' nows; ok (t ∷ ts)
]

unfoldable pub engine_timestamp_ms : SchedulerConfig → ℕ → ℕ
engine_timestamp_ms c planned_ts_ms =
    if str_eq c.mode "boundary" then planned_ts_ms - get_or c.boundary_delay_ms 0 else planned_ts_ms
