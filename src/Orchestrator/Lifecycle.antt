-- ===== src/Orchestrator/Lifecycle.antt =====
-- src/orchestrator/lifecycle.py: the states of the orchestrator and the calls that change them.
pub mod Ends
use xray_vision.Base.{List, [], ◌∷◌, Bool, true, false, Result, ok, err}
use xray_vision.Orchestrator.Errors.{Error, cannot_start, cannot_drain}

pub data OrchestratorState : Type 0 where
  init running drained stopped degraded : OrchestratorState

unfoldable pub start : OrchestratorState → Result Error OrchestratorState
start init = ok running
start drained = ok running
start _ = err cannot_start

unfoldable pub drain : OrchestratorState → Result Error OrchestratorState
drain running = ok drained
drain _ = err cannot_drain

-- `stop` returns at once where the state is already `stopped`.
unfoldable pub stop : OrchestratorState → OrchestratorState
stop s = stopped

unfoldable pub degrade : OrchestratorState → OrchestratorState
degrade s = degraded

pub data Call : Type 0 where
  starts drains stops degrades : Call

unfoldable pub step : OrchestratorState → Call → Result Error OrchestratorState
step s starts = start s
step s drains = drain s
step s stops = ok (stop s)
step s degrades = ok (degrade s)

-- A call that raises leaves the state as it was.
abbrev pub after : OrchestratorState → Result Error OrchestratorState → OrchestratorState
after s (ok t) = t
after s (err e) = s

unfoldable pub run : OrchestratorState → List Call → OrchestratorState
run s [] = s
run s (c ∷ cs) = run (after s (step s c)) cs
