-- ===== src/Orchestrator/Sequencing.antt =====
-- src/orchestrator/sequencing.py and the publisher of publisher.py, whose sink is the list of what
-- it was given.
pub mod Order
use xray_vision.Base.{
  ℕ, String, Option, none, some, List, [], ◌∷◌, ◌++◌, Bool, false, Result, ok, err, ltb, ◌>>=◌,
  ◌>>◌, raise_if,
}
use xray_vision.Base.Dict
use xray_vision.Base.Dict.{Dict}
use xray_vision.Orchestrator.Errors.{Error, timestamp_not_monotonic}
use xray_vision.Orchestrator.Contracts.{OrchestratorEvent}

pub record SymbolSequencer : Type 0 where
  pub last_timestamp_by_symbol : Dict ℕ

abbrev pub empty_sequencer : SymbolSequencer
empty_sequencer = record { last_timestamp_by_symbol = [] }

abbrev pub goes_back : Option ℕ → ℕ → Bool
goes_back none ts = false
goes_back (some last) ts = ltb ts last

unfoldable pub ensure_next : SymbolSequencer → String → ℕ → Result Error SymbolSequencer
ensure_next s symbol ts = do
  raise_if (goes_back (Dict.get s.last_timestamp_by_symbol symbol) ts) timestamp_not_monotonic
  ok (record { last_timestamp_by_symbol = Dict.put s.last_timestamp_by_symbol symbol ts })

pub record Publisher : Type 0 where
  pub sink : List OrchestratorEvent
  pub sequencer : SymbolSequencer

unfoldable pub publish : Publisher → OrchestratorEvent → Result Error Publisher
publish p event = do
  s ← ensure_next p.sequencer event.symbol event.engine_timestamp_ms
  ok (record { sink = p.sink ++ event ∷ []; sequencer = s })

-- The publisher after some calls, of which those that raise leave it as it was.
unfoldable pub publish_all : Publisher → List OrchestratorEvent → Publisher
publish_all p [] = p
publish_all p (e ∷ es) = elim (publish p e) [ ok q ↦ publish_all q es | err x ↦ publish_all p es ]
