-- ===== src/Runtime/Due/Session.antt =====
-- Ticks and raw events of src/runtime/wiring.py in any order, and the replay of their run log.
use xray_vision.Base.{◌≡◌}
use xray_vision.Orchestrator.Contracts.{EngineMode}
use xray_vision.Orchestrator.Buffer
use xray_vision.Orchestrator.Buffer.{new_record}
use xray_vision.Runtime.Due.{OrchestratorRuntime, Flow, goes_on, Services}
use xray_vision.Runtime.Due.Replayed.{IsFit}
use xray_vision.Runtime.Due.Steps.{IsSession}

module _ {S Snapshot : Type 0} (services : Services S Snapshot) (initial : S) where
  module _ (mode : EngineMode)
      (fit : (s : S) (x : Snapshot) → IsFit mode (services.run_engine s x).1) where
    -- A step of the session that goes on.
    abbrev IsEntered : OrchestratorRuntime S × Flow → Type 0
    IsEntered x = x.1 ≡ goes_on → IsSession services initial mode fit x.0
