-- ===== src/StateGate/Store.antt =====
-- src/consumers/state_gate/state_store.py. The processor is given its store, so whether an append
-- raises is a field of the store: none, or the text of the exception and whether the record has been
-- kept. The store of the program never raises.
use xray_vision.Base.{ℕ, String, Option, none, some, List, [], ◌∷◌, ◌++◌, map, Bool, true, false}
use xray_vision.Base.Dict
use xray_vision.Base.Dict.{Dict}
use xray_vision.RegimeEngine.Contracts.{RegimeOutput, HysteresisState}
use xray_vision.StateGate.Contracts.{
  StateGateEvent, StateGateStateRecord, StateGateSnapshot, gate_evaluated, state_reset,
  state_gate_halted, bootstrap, gate_closed, ResetReason, GatePayload, evaluated_payload,
  reset_payload, halted_payload,
}

pub record StateStore : Type 0 where
  pub records : List StateGateStateRecord
  pub snapshots : Dict StateGateSnapshot
  pub fault : StateGateEvent → List StateGateStateRecord → Option (String × Bool)

abbrev pub payload_output : Option GatePayload → Option RegimeOutput
payload_output (some (evaluated_payload output h)) = output
payload_output _ = none

abbrev pub payload_hysteresis : Option GatePayload → Option HysteresisState
payload_hysteresis (some (evaluated_payload output h)) = h
payload_hysteresis _ = none

abbrev pub payload_reset : Option GatePayload → Option ResetReason
payload_reset (some (reset_payload reason)) = some reason
payload_reset _ = none

abbrev pub payload_kind : Option GatePayload → Option String
payload_kind (some (halted_payload kind detail)) = some kind
payload_kind _ = none

abbrev pub payload_detail : Option GatePayload → Option String
payload_detail (some (halted_payload kind detail)) = some detail
payload_detail _ = none

-- What all records take from the event.
abbrev pub plain_record : StateGateEvent → StateGateStateRecord
plain_record event = record {
  symbol = event.symbol;
  engine_timestamp_ms = event.engine_timestamp_ms;
  run_id = event.run_id;
  state_status = event.state_status;
  gate_status = event.gate_status;
  reasons = event.reasons;
  engine_mode = event.engine_mode;
  source_event_type = event.input_event_type;
  regime_output = none;
  hysteresis_state = none;
  reset_reason = none;
  error_kind = none;
  error_detail = none;
}

-- The exception for another event type cannot arise: these three are all that there are.
unfoldable pub record_from_event : StateGateEvent → StateGateStateRecord
record_from_event event = elim event.event_type [
  | gate_evaluated ↦ record (plain_record event) {
    regime_output = payload_output event.payload;
    hysteresis_state = payload_hysteresis event.payload;
  }
  | state_reset ↦ record (plain_record event) {
    state_status = bootstrap;
    gate_status = gate_closed;
    reset_reason = payload_reset event.payload;
  }
  | state_gate_halted ↦ record (plain_record event) {
    error_kind = payload_kind event.payload;
    error_detail = payload_detail event.payload;
  }
]

abbrev pub snapshot_of_record : StateGateStateRecord → StateGateSnapshot
snapshot_of_record r = record {
  symbol = r.symbol;
  last_run_id = some r.run_id;
  last_engine_timestamp_ms = some r.engine_timestamp_ms;
  state_status = r.state_status;
  gate_status = r.gate_status;
  reasons = r.reasons;
  engine_mode = r.engine_mode;
  source_event_type = r.source_event_type;
}

abbrev pub update_snapshot : Dict StateGateSnapshot → StateGateStateRecord → Dict StateGateSnapshot
update_snapshot d r = Dict.put d r.symbol (snapshot_of_record r)

unfoldable pub append_record : StateStore → StateGateStateRecord → StateStore
append_record s r = record s {
  records = s.records ++ r ∷ [];
  snapshots = update_snapshot s.snapshots r;
}

abbrev pub if_kept : Bool → StateStore → StateStore → StateStore
if_kept true s t = t
if_kept false s t = s

-- The store after the call, and the text of what it raised.
unfoldable pub append_event : StateStore → StateGateEvent → StateStore × Option String
append_event s event = elim (s.fault event s.records) [
  | none ↦ (append_record s (record_from_event event), none)
  | some (detail, kept) ↦ (if_kept kept s (append_record s (record_from_event event)), some detail)
]

unfoldable pub snapshots_of :
    Dict StateGateSnapshot → List StateGateStateRecord → Dict StateGateSnapshot
snapshots_of d [] = d
snapshots_of d (r ∷ rs) = snapshots_of (update_snapshot d r) rs

-- The constructor, over the records that are there.
unfoldable pub open_store : List StateGateStateRecord → StateStore
open_store records = record {
  records = records;
  snapshots = snapshots_of [] records;
  fault = λ event records. none;
}

abbrev pub processed_run_ids : StateStore → List String
processed_run_ids s = map (λ r. r.run_id) s.records

abbrev pub with_timestamp : Option ℕ → String → Dict ℕ → Dict ℕ
with_timestamp none symbol d = d
with_timestamp (some ts) symbol d = (symbol, ts) ∷ d

-- `latest_engine_timestamps`; the symbols are distinct, so the assignments only append.
unfoldable pub latest_engine_timestamps : Dict StateGateSnapshot → Dict ℕ
latest_engine_timestamps [] = []
latest_engine_timestamps ((symbol, snapshot) ∷ d) =
    with_timestamp snapshot.last_engine_timestamp_ms symbol (latest_engine_timestamps d)
