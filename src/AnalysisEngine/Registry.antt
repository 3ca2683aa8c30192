-- ===== src/AnalysisEngine/Registry.antt =====
-- src/consumers/analysis_engine/registry.py.
use xray_vision.Base.{
  String, Option, none, some, List, [], ◌∷◌, map, contains, keep, if◌then◌else◌, is_some, Result,
  ok, err, ◌>>=◌, ◌>>◌,
}
use xray_vision.Base.Sorting.{sorted_by}
use xray_vision.Base.Dict
use xray_vision.Base.Dict.{Dict}
use xray_vision.AnalysisEngine.Contracts.{
  AnalysisModule, ModuleDefinition, ModuleDependency, AnalysisError, duplicate_module_id,
  unknown_module_id, key_error, unmet_dependency,
}

abbrev pub ModuleRegistry : Type 0
ModuleRegistry = Dict AnalysisModule

unfoldable pub register_all :
    ModuleRegistry → List AnalysisModule → Result AnalysisError ModuleRegistry
register_all modules [] = ok modules
register_all modules (m ∷ ms) =
    let k = m.definition.module_id in
    let rest = register_all (Dict.put modules k m) ms in
    if is_some (Dict.get modules k) then err (duplicate_module_id k) else rest

-- The constructor: the entries in the order of their keys.
unfoldable pub build_registry : List AnalysisModule → Result AnalysisError ModuleRegistry
build_registry ms = register_all [] ms >>= λ modules. ok (sorted_by (λ e. e.0) modules)

-- `self.modules[module_id]`.
abbrev pub found : {A : Type 0} → String → Option A → Result AnalysisError A
found k none = err (key_error k)
found k (some a) = ok a

unfoldable pub definitions : ModuleRegistry → List ModuleDefinition
definitions modules = map (λ e. e.1.definition) modules

-- The ids that are enabled by default, in the order of the registry.
unfoldable pub default_ids : ModuleRegistry → List String
default_ids modules = map (λ e. e.0) (keep (λ e. e.1.definition.enabled_by_default) modules)

-- `module_id not in enabled_set` for each dependency of a module.
unfoldable pub check_dependencies :
    List String → String → List ModuleDependency → Result AnalysisError Unit
check_dependencies enabled k [] = ok tt
check_dependencies enabled k (d ∷ ds) =
    let rest = check_dependencies enabled k ds in
    if contains d.module_id enabled
    then rest
    else err (unmet_dependency k d.module_id d.artifact_name)

abbrev check_module : List String → String → Option AnalysisModule → Result AnalysisError Unit
check_module enabled k none = err (unknown_module_id k)
check_module enabled k (some m) = check_dependencies enabled k m.definition.dependencies

-- Each of the ids is known, and all that it depends on is enabled.
unfoldable pub check_ids : ModuleRegistry → List String → List String → Result AnalysisError Unit
check_ids modules enabled [] = ok tt
check_ids modules enabled (k ∷ ks) =
    check_module enabled k (Dict.get modules k) >> check_ids modules enabled ks

unfoldable pub validate_missing_dependencies :
    ModuleRegistry → List String → Result AnalysisError Unit
validate_missing_dependencies modules enabled = check_ids modules enabled enabled
