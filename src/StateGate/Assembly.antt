-- ===== src/StateGate/Assembly.antt =====
-- src/consumers/state_gate/assembly.py: `RunAssembler` and `_RunAssembly`. A call that raises
-- keeps what it has written to the assembly before.
pub mod Effect
pub mod Once
use xray_vision.Base.{
  ℕ, String, Option, none, some, List, [], ◌∷◌, Bool, true, false, not, Result, ok, err, leb,
  str_eq, ◌==◌, if◌then◌else◌, ◌>>=◌, ◌>>◌, raise_if, contains, add,
}
use xray_vision.Base.Dict
use xray_vision.Base.Dict.{Dict}
use xray_vision.RegimeEngine.Contracts.{RegimeOutput, HysteresisState}
use xray_vision.Orchestrator.Contracts.{
  EngineMode, truth, hysteresis, mode_eq, EventType, engine_run_started, engine_run_completed,
  engine_run_failed, hysteresis_state_published, Payload, run_failed, run_completed,
  hysteresis_payload, foreign, OrchestratorEvent,
}
use xray_vision.StateGate.Contracts.{
  InputEventType, completed_input, failed_input, hysteresis_input, GateError, inconsistent_symbol,
  inconsistent_engine_timestamp_ms, inconsistent_engine_mode, unexpected_payload,
}

pub record AssembledRunInput : Type 0 where
  pub run_id : String
  pub symbol : String
  pub engine_timestamp_ms : ℕ
  pub engine_mode : Option EngineMode
  pub input_event_type : InputEventType
  pub regime_output : Option RegimeOutput
  pub hysteresis_state : Option HysteresisState

pub record RunAssembly : Type 0 where
  pub symbol : String
  pub engine_timestamp_ms : ℕ
  pub engine_mode : Option EngineMode
  pub regime_output : Option RegimeOutput
  pub hysteresis_state : Option HysteresisState
  pub failed : Bool

pub record RunAssembler : Type 0 where
  pub assemblies : Dict RunAssembly
  pub processed_run_ids : List String
  pub latest_engine_timestamp_ms : Dict ℕ

abbrev pub new_assembly : OrchestratorEvent → RunAssembly
new_assembly event = record {
  symbol = event.symbol;
  engine_timestamp_ms = event.engine_timestamp_ms;
  engine_mode = event.engine_mode;
  regime_output = none;
  hysteresis_state = none;
  failed = false;
}

unfoldable pub ensure_consistent : RunAssembly → String → ℕ → Result GateError Unit
ensure_consistent x symbol ts = do
  raise_if (not (str_eq symbol x.symbol)) inconsistent_symbol
  raise_if (not (ts == x.engine_timestamp_ms)) inconsistent_engine_timestamp_ms

abbrev pub merge_mode : Option EngineMode → Option EngineMode → Result GateError (Option EngineMode)
merge_mode old none = ok old
merge_mode none (some m) = ok (some m)
merge_mode (some n) (some m) = if mode_eq n m then ok (some n) else err inconsistent_engine_mode

unfoldable pub update_engine_mode : RunAssembly → Option EngineMode → Result GateError RunAssembly
update_engine_mode x mode = do m ← merge_mode x.engine_mode mode; ok (record x { engine_mode = m })

unfoldable pub apply_event : RunAssembly → EventType → Option Payload → Result GateError RunAssembly
apply_event x engine_run_started p = ok x
apply_event x engine_run_completed (some (run_completed output)) =
    ok (record x { regime_output = some output })
apply_event x engine_run_completed _ = err unexpected_payload
apply_event x engine_run_failed none = ok (record x { failed = true })
apply_event x engine_run_failed (some (run_failed kind detail)) = ok (record x { failed = true })
apply_event x engine_run_failed _ = err unexpected_payload
apply_event x hysteresis_state_published (some (hysteresis_payload h)) =
    ok (record x { hysteresis_state = some h })
apply_event x hysteresis_state_published _ = err unexpected_payload

abbrev pub ready_output : Option RegimeOutput → Option EngineMode → Option InputEventType
ready_output none mode = none
ready_output (some output) (some hysteresis) = none
ready_output (some output) _ = some completed_input

abbrev pub ready_unpublished : Bool → RunAssembly → Option InputEventType
ready_unpublished true x = some failed_input
ready_unpublished false x = ready_output x.regime_output x.engine_mode

abbrev pub ready_of : Option HysteresisState → RunAssembly → Option InputEventType
ready_of (some h) x = some hysteresis_input
ready_of none x = ready_unpublished x.failed x

unfoldable pub ready_event_type : RunAssembly → Option InputEventType
ready_event_type x = ready_of x.hysteresis_state x

abbrev pub output_of : InputEventType → RunAssembly → Option RegimeOutput
output_of failed_input x = none
output_of _ x = x.regime_output

abbrev pub hysteresis_of : InputEventType → RunAssembly → Option HysteresisState
hysteresis_of hysteresis_input x = x.hysteresis_state
hysteresis_of _ x = none

abbrev pub assembled : String → RunAssembly → InputEventType → AssembledRunInput
assembled run_id x t = record {
  run_id = run_id;
  symbol = x.symbol;
  engine_timestamp_ms = x.engine_timestamp_ms;
  engine_mode = x.engine_mode;
  input_event_type = t;
  regime_output = output_of t x;
  hysteresis_state = hysteresis_of t x;
}

abbrev pub Ingested : Type 0
Ingested = RunAssembler × Result GateError (Option AssembledRunInput)

abbrev pub is_input : EventType → Bool
is_input engine_run_started = false
is_input _ = true

abbrev pub not_after : ℕ → Option ℕ → Bool
not_after ts none = false
not_after ts (some last) = leb ts last

-- `_assemblies.get` with the checks on an assembly that is there.
abbrev pub assembly_for : Option RunAssembly → OrchestratorEvent → Result GateError RunAssembly
assembly_for none event = ok (new_assembly event)
assembly_for (some x) event = do
  ensure_consistent x event.symbol event.engine_timestamp_ms
  update_engine_mode x event.engine_mode

abbrev pub store_assembly : RunAssembler → String → RunAssembly → RunAssembler
store_assembly a run_id x = record a { assemblies = Dict.put a.assemblies run_id x }

abbrev pub release : RunAssembler → String → RunAssembly → Option InputEventType → Ingested
release a run_id x none = (store_assembly a run_id x, ok none)
release a run_id x (some t) = (
  record {
    assemblies = Dict.remove a.assemblies run_id;
    processed_run_ids = add run_id a.processed_run_ids;
    latest_engine_timestamp_ms =
        Dict.put a.latest_engine_timestamp_ms x.symbol x.engine_timestamp_ms;
  },
  ok (some (assembled run_id x t)),
)

abbrev pub apply_to : RunAssembler → OrchestratorEvent → RunAssembly → Ingested
apply_to a event x = elim (apply_event x event.event_type event.payload) [
  | err e ↦ (store_assembly a event.run_id x, err e)
  | ok y ↦ release a event.run_id y (ready_event_type y)
]

abbrev pub assemble : RunAssembler → OrchestratorEvent → Ingested
assemble a event = elim (assembly_for (Dict.get a.assemblies event.run_id) event) [
  | err e ↦ (a, err e)
  | ok x ↦ apply_to a event x
]

-- An event of a run that is not processed.
abbrev pub ingest_new : RunAssembler → OrchestratorEvent → Ingested
ingest_new a event =
    if not_after event.engine_timestamp_ms (Dict.get a.latest_engine_timestamp_ms event.symbol)
    then (record a { processed_run_ids = add event.run_id a.processed_run_ids }, ok none)
    else assemble a event

unfoldable pub ingest : RunAssembler → OrchestratorEvent → Ingested
ingest a event =
    if not (is_input event.event_type)
    then (a, ok none)
    else if contains event.run_id a.processed_run_ids
    then (a, ok none)
    else ingest_new a event

-- The runs assembled from a sequence of events; a call that raises gives none.
abbrev pub and_then : Ingested → (RunAssembler → List AssembledRunInput) → List AssembledRunInput
and_then (a, ok (some run)) rest = run ∷ rest a
and_then (a, _) rest = rest a

unfoldable pub ingest_all : RunAssembler → List OrchestratorEvent → List AssembledRunInput
ingest_all a [] = []
ingest_all a (e ∷ es) = and_then (ingest a e) (λ b. ingest_all b es)
