-- ===== src/Orchestrator/Lifecycle/Ends.antt =====
-- The last states of src/orchestrator/lifecycle.py.
use xray_vision.Base.{◌≡◌, ◌⊎◌, List, [], ◌∷◌, ok, err, arith}
use xray_vision.Orchestrator.Errors.{cannot_start}
use xray_vision.Orchestrator.Lifecycle.{
  OrchestratorState, init, running, drained, stopped, degraded, start, drain, stop, degrade, Call,
  starts, drains, stops, degrades, step, after, run,
}

abbrev pub HasEnded : OrchestratorState → Type 0
HasEnded s = (s ≡ stopped) ⊎ (s ≡ degraded)

step-HasEnded : (s : OrchestratorState) (c : Call) → HasEnded s → HasEnded (after s (step s c))
unfolding step start drain stop degrade
step-HasEnded s starts h = ground arith
step-HasEnded s drains h = ground arith
step-HasEnded s stops h = ground arith
step-HasEnded s degrades h = ground arith

run-HasEnded : (s : OrchestratorState) (cs : List Call) → HasEnded s → HasEnded (run s cs)
unfolding run
run-HasEnded s [] h = h
run-HasEnded s (c ∷ cs) h = run-HasEnded (after s (step s c)) cs (step-HasEnded s c h)

start_ended : (s : OrchestratorState) → HasEnded s → start s ≡ err cannot_start
unfolding start
start_ended s h = ground arith

-- From a stopped or a degraded state no sequence of calls brings the orchestrator back: it stays
-- stopped or degraded, and every later `start` raises.
pub ends_for_good :
    (s : OrchestratorState) (cs : List Call)
    → HasEnded s
    → HasEnded (run s cs) × (start (run s cs) ≡ err cannot_start)
ends_for_good s cs h = (run-HasEnded s cs h, start_ended (run s cs) (run-HasEnded s cs h))

-- A call leads into `running` only as a `start` from `init` or `drained`.
pub running_only_by_start :
    (s : OrchestratorState) (c : Call)
    → step s c ≡ ok running
    → (c ≡ starts) × ((s ≡ init) ⊎ (s ≡ drained))
unfolding step start drain stop degrade
running_only_by_start s starts h = ground arith
running_only_by_start s drains h = ground arith
running_only_by_start s stops h = ground arith
running_only_by_start s degrades h = ground arith
