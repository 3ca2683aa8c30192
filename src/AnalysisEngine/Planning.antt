-- ===== src/AnalysisEngine/Planning.antt =====
-- src/consumers/analysis_engine/planning.py. The queue of `_order_stage` is worked off on fuel, one
-- unit for each module of the stage.
pub mod Queue
pub mod Registered
use xray_vision.Base.{
  ℕ, zero, suc, String, Option, none, some, List, [], ◌∷◌, ◌++◌, map, Bool, true, false, not, add,
  keep, to_set, if◌then◌else◌, is_some, get_or, Result, ok, err, ◌>>=◌, ◌>>◌, raise_if, length, ltb,
  ◌==◌,
}
use xray_vision.Base.Int.{ℤ, pos, negsuc}
use xray_vision.Base.Sorting.{sorted_by}
use xray_vision.Base.Dict
use xray_vision.Base.Dict.{Dict}
use xray_vision.AnalysisEngine.Contracts.{
  AnalysisModule, ModuleDefinition, ModuleDependency, ModuleKind, signal, detector, rule, output,
  ArtifactSchema, AnalysisError, invalid_ordering, stage_cycle, out_of_fuel,
}
use xray_vision.AnalysisEngine.Registry.{ModuleRegistry, found}
use xray_vision.AnalysisEngine.Cycles.{validate_dependencies}

abbrev pub stage_order : List ModuleKind
stage_order = signal ∷ detector ∷ rule ∷ output ∷ []

pub record ExecutionStep : Type 0 where
  pub module_id : String
  pub module_kind : ModuleKind
  pub artifact_schemas : List ArtifactSchema
  pub dependencies : List String

pub record ExecutionPlan : Type 0 where
  pub steps_by_stage : ModuleKind → List ExecutionStep

-- `kind_precedence`, the place of a kind in the order of the stages.
abbrev pub kind_precedence : ModuleKind → ℕ
kind_precedence signal = 0
kind_precedence detector = 1
kind_precedence rule = 2
kind_precedence output = 3

abbrev sorted : List String → List String
sorted ks = sorted_by (λ k. k) ks

unfoldable pub artifact_ordering : List ArtifactSchema → List ArtifactSchema
artifact_ordering schemas = sorted_by (λ s. s.artifact_name) schemas

-- The modules of the ids, as a dictionary.
unfoldable pub select :
    ModuleRegistry → Dict AnalysisModule → List String → Result AnalysisError (Dict AnalysisModule)
select registry modules [] = ok modules
select registry modules (k ∷ ks) =
    found k (Dict.get registry k) >>= λ m. select registry (Dict.put modules k m) ks

-- The stage of a dependency against the stage of a module.
abbrev check_stage : ModuleDefinition → Option AnalysisModule → Result AnalysisError Unit
check_stage definition none = ok tt
check_stage definition (some dep) =
    raise_if
      (ltb (kind_precedence definition.module_kind) (kind_precedence dep.definition.module_kind))
      (invalid_ordering definition.module_id dep.definition.module_id)

unfoldable pub check_stages :
    Dict AnalysisModule → ModuleDefinition → List ModuleDependency → Result AnalysisError Unit
check_stages modules definition [] = ok tt
check_stages modules definition (d ∷ ds) =
    check_stage definition (Dict.get modules d.module_id) >> check_stages modules definition ds

unfoldable pub validate_stage_dependencies :
    Dict AnalysisModule → Dict AnalysisModule → Result AnalysisError Unit
validate_stage_dependencies modules [] = ok tt
validate_stage_dependencies modules ((k, m) ∷ rest) =
    check_stages modules m.definition m.definition.dependencies
    >> validate_stage_dependencies modules rest

-- The dictionary `definitions`, by the declared ids.
unfoldable pub by_id : Dict ModuleDefinition → List AnalysisModule → Dict ModuleDefinition
by_id d [] = d
by_id d (m ∷ ms) = by_id (Dict.put d m.definition.module_id m.definition) ms

-- The set of the dependencies that are of the stage.
unfoldable pub stage_dependencies : Dict ModuleDefinition → ModuleDefinition → List String
stage_dependencies definitions d =
    to_set (keep (λ k. is_some (Dict.get definitions k)) (map (λ x. x.module_id) d.dependencies))

abbrev pub dependencies_of : Dict ModuleDefinition → Dict (List String)
dependencies_of definitions = map (λ e. (e.0, stage_dependencies definitions e.1)) definitions

unfoldable pub indegree_of : Dict (List String) → Dict ℤ
indegree_of [] = []
indegree_of ((k, deps) ∷ rest) = (k, pos (length deps)) ∷ indegree_of rest

-- `dependents[dep].add(module_id)`; each dependency is a key, since it is of the stage.
abbrev add_dependent : Dict (List String) → String → List String → Dict (List String)
add_dependent dependents k [] = dependents
add_dependent dependents k (dep ∷ deps) =
    add_dependent (Dict.put dependents dep (add k (get_or (Dict.get dependents dep) []))) k deps

unfoldable pub dependents_of : Dict (List String) → Dict (List String) → Dict (List String)
dependents_of dependents [] = dependents
dependents_of dependents ((k, deps) ∷ rest) = dependents_of (add_dependent dependents k deps) rest

abbrev pub pred : ℤ → ℤ
pred (pos zero) = negsuc 0
pred (pos (suc n)) = pos n
pred (negsuc n) = negsuc (suc n)

abbrev pub is_zero : ℤ → Bool
is_zero (pos zero) = true
is_zero (pos (suc n)) = false
is_zero (negsuc n) = false

unfoldable pub free_ids : Dict ℤ → List String
free_ids [] = []
free_ids ((k, n) ∷ g) = let rest = free_ids g in if is_zero n then k ∷ rest else rest

-- The loop over the dependents of a module that has been placed.
unfoldable pub release : List String → Dict ℤ → List String → Dict ℤ × List String
release [] g q = (g, q)
release (d ∷ ds) g q =
    let n = pred (get_or (Dict.get g d) (pos 0)) in
    release ds (Dict.put g d n) (if is_zero n then q ++ (d ∷ []) else q)

unfoldable pub order_loop :
    ℕ → Dict (List String) → Dict ℤ → List String → List String → Result AnalysisError (List String)
order_loop fuel dependents g [] ordered = ok ordered
order_loop zero dependents g (c ∷ q) ordered = err out_of_fuel
order_loop (suc n) dependents g (c ∷ q) ordered =
    let (h, r) = release (sorted (get_or (Dict.get dependents c) [])) g q in
    order_loop n dependents h (sorted r) (ordered ++ (c ∷ []))

-- The definitions of the ids, `definitions[current]`.
unfoldable pub lookup_all :
    Dict ModuleDefinition → List String → Result AnalysisError (List ModuleDefinition)
lookup_all definitions [] = ok []
lookup_all definitions (k ∷ ks) =
    found k (Dict.get definitions k) >>= λ d. lookup_all definitions ks >>= λ ds. ok (d ∷ ds)

unfoldable pub order_ids : Dict ModuleDefinition → Result AnalysisError (List String)
order_ids definitions =
    let deps = dependencies_of definitions in
    let g = indegree_of deps in
    order_loop (length definitions) (dependents_of (map (λ e. (e.0, [])) definitions) deps) g
      (sorted (free_ids g)) []

unfoldable pub order_stage : List AnalysisModule → Result AnalysisError (List ModuleDefinition)
order_stage modules =
    let definitions = by_id [] modules in
    order_ids definitions >>= λ ids. lookup_all definitions ids >>= λ ordered.
    raise_if (not (length ordered == length definitions)) stage_cycle >> ok ordered

unfoldable pub step_of : ModuleDefinition → ExecutionStep
step_of d = record {
  module_id = d.module_id;
  module_kind = d.module_kind;
  artifact_schemas = d.artifact_schemas;
  dependencies = map (λ x. x.module_id) d.dependencies;
}

abbrev pub same_kind : ModuleKind → ModuleKind → Bool
same_kind a b = kind_precedence a == kind_precedence b

unfoldable pub build_stage :
    Dict AnalysisModule → ModuleKind → Result AnalysisError (List ExecutionStep)
build_stage modules stage =
    order_stage (keep (λ m. same_kind m.definition.module_kind stage) (map (λ e. e.1) modules))
    >>= λ ordered. ok (map step_of ordered)

abbrev pub stages :
    List ExecutionStep
    → List ExecutionStep
    → List ExecutionStep
    → List ExecutionStep
    → ModuleKind
    → List ExecutionStep
stages a b c d signal = a
stages a b c d detector = b
stages a b c d rule = c
stages a b c d output = d

unfoldable pub build_stages : Dict AnalysisModule → Result AnalysisError ExecutionPlan
build_stages modules = build_stage modules signal >>= λ a. build_stage modules detector >>= λ b.
    build_stage modules rule >>= λ c.
    build_stage modules output >>= λ d. ok (record { steps_by_stage = stages a b c d })

unfoldable pub build_execution_plan :
    ModuleRegistry → List String → Result AnalysisError ExecutionPlan
build_execution_plan registry enabled =
    validate_dependencies registry (to_set enabled)
    >> (select registry [] enabled >>= λ modules.
        validate_stage_dependencies modules modules >> build_stages modules)
