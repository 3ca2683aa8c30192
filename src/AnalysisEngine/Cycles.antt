-- ===== src/AnalysisEngine/Cycles.antt =====
-- `ModuleRegistry.validate_dependencies` of src/consumers/analysis_engine/registry.py. The recursion
-- of `dfs` is on fuel, one unit for each enabled id and one more. The set `visiting` is an argument:
-- a call that returns has removed what it added to it.
pub mod Members
pub mod Verdict
use xray_vision.Base.{
  ℕ, zero, suc, String, List, [], ◌∷◌, true, false, contains, add, Result, ok, err, ◌>>=◌, ◌>>◌,
  length,
}
use xray_vision.Base.Sorting.{sorted_by}
use xray_vision.Base.Dict
use xray_vision.AnalysisEngine.Contracts.{
  ModuleDependency, AnalysisError, dependency_cycle, out_of_fuel,
}
use xray_vision.AnalysisEngine.Registry.{ModuleRegistry, found, validate_missing_dependencies}

-- A visit of an id, with the set `visited` before and after.
abbrev pub Visit : Type 0
Visit = List String → String → Result AnalysisError (List String)

unfoldable pub visit_dependencies :
    Visit → List String → List ModuleDependency → List String → Result AnalysisError (List String)
visit_dependencies visit enabled [] visited = ok visited
visit_dependencies visit enabled (d ∷ ds) visited = elim (contains d.module_id enabled) [
  | true ↦ visit visited d.module_id >>= λ s. visit_dependencies visit enabled ds s
  | false ↦ visit_dependencies visit enabled ds visited
]

module _ (registry : ModuleRegistry) (enabled : List String) where
  unfoldable pub dfs : ℕ → List String → Visit
  dfs zero visiting visited current = err out_of_fuel
  dfs (suc n) visiting visited current = elim (contains current visited) [
    | true ↦ ok visited
    | false ↦ elim (contains current visiting) [
      | true ↦ err (dependency_cycle current)
      | false ↦ found current (Dict.get registry current) >>= λ m.
          visit_dependencies (dfs n (add current visiting)) enabled m.definition.dependencies
            visited
          >>= λ s. ok (add current s)
    ]
  ]

  unfoldable pub visit_ids : List String → List String → Result AnalysisError (List String)
  visit_ids [] visited = ok visited
  visit_ids (k ∷ ks) visited = dfs (suc (length enabled)) [] visited k >>= λ s. visit_ids ks s

  unfoldable pub validate_cycles : Result AnalysisError (List String)
  validate_cycles = visit_ids (sorted_by (λ k. k) enabled) []

  unfoldable pub validate_dependencies : Result AnalysisError Unit
  validate_dependencies =
      validate_missing_dependencies registry enabled >> (validate_cycles >>= λ _. ok tt)
