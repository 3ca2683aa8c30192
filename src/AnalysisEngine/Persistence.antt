-- ===== src/AnalysisEngine/Persistence.antt =====
-- src/consumers/analysis_engine/persistence.py: the processed runs and the states of the modules.
use xray_vision.Base.{
  String, Option, List, [], ◌∷◌, ◌++◌, Bool, ◌&&◌, str_eq, contains, keep, add, last?,
}
use xray_vision.AnalysisEngine.Contracts.{AnalysisModuleStateRecord}

abbrev pub IdempotencyStore : Type 0
IdempotencyStore = List String

unfoldable pub has_processed : IdempotencyStore → String → Bool
has_processed s run_id = contains run_id s

unfoldable pub mark_processed : IdempotencyStore → String → IdempotencyStore
mark_processed s run_id = add run_id s

abbrev pub ModuleStateStore : Type 0
ModuleStateStore = List AnalysisModuleStateRecord

unfoldable pub append : ModuleStateStore → AnalysisModuleStateRecord → ModuleStateStore
append records r = records ++ (r ∷ [])

unfoldable pub by_symbol : ModuleStateStore → String → List AnalysisModuleStateRecord
by_symbol records symbol = keep (λ r. str_eq r.symbol symbol) records

unfoldable pub latest_by_symbol_and_module :
    ModuleStateStore → String → String → Option AnalysisModuleStateRecord
latest_by_symbol_and_module records symbol module_id =
    last? (keep (λ r. str_eq r.symbol symbol && str_eq r.module_id module_id) records)
