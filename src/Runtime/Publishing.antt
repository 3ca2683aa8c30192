-- ===== src/Runtime/Publishing.antt =====
-- src/runtime/wiring.py: the events that `_run_due` publishes for one cut, by what the snapshot's
-- construction and the engine give. The scheduler stops on the two errors that mean the stored
-- hysteresis state can no longer be trusted.
pub mod Gate
use xray_vision.Base.{ℕ, String, Option, none, some, List, [], ◌∷◌, Bool, true, false}
use xray_vision.Base.Dict.{Dict}
use xray_vision.RegimeEngine.Contracts.{RegimeOutput, HysteresisState}
use xray_vision.Orchestrator.Contracts.{EngineMode, OrchestratorEvent}
use xray_vision.Orchestrator.Publisher.{
  RunFields, build_engine_run_started, build_engine_run_completed, build_engine_run_failed,
  build_hysteresis_state_published,
}

-- How a run goes: the snapshot cannot be built, the engine raises one of the two errors that stop the
-- scheduler, it raises another, or it returns.
pub data RunOutcome : Type 0 where
  snapshot_failed : String → RunOutcome
  untrusted : RunOutcome
  engine_failed : String → RunOutcome
  returned : RegimeOutput → Option HysteresisState → RunOutcome

abbrev pub decision_events :
    RunFields
    → Option (Dict ℕ)
    → Option HysteresisState
    → List OrchestratorEvent
    → List OrchestratorEvent
decision_events f counts none events = events
decision_events f counts (some h) events = build_hysteresis_state_published f h counts ∷ events

-- What follows the start of the run.
unfoldable pub outcome_events :
    RunFields → EngineMode → Option (Dict ℕ) → RunOutcome → List OrchestratorEvent
outcome_events f mode counts (snapshot_failed detail) =
    build_engine_run_failed f mode "snapshot_build_failure" detail counts ∷ []
outcome_events f mode counts untrusted = []
outcome_events f mode counts (engine_failed detail) =
    build_engine_run_failed f mode "engine_failure" detail counts ∷ []
outcome_events f mode counts (returned output h) =
    decision_events f counts h (build_engine_run_completed f mode output counts ∷ [])

unfoldable pub run_events :
    RunFields → EngineMode → Option (Dict ℕ) → RunOutcome → List OrchestratorEvent
run_events f mode counts outcome =
    build_engine_run_started f mode ∷ outcome_events f mode counts outcome
