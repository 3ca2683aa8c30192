-- ===== src/AnalysisEngine/Config.antt =====
-- src/consumers/analysis_engine/config.py. A module's own configuration is a mapping or absent.
use xray_vision.Base.{
  String, Option, List, [], ◌∷◌, Bool, not, contains, add, is_some, get_or, Result, ok, ◌>>◌,
  raise_if,
}
use xray_vision.Base.Dict
use xray_vision.Base.Values.{Fields}
use xray_vision.AnalysisEngine.Contracts.{
  AnalysisError, unknown_enabled, unknown_configured, duplicate_config, duplicate_symbol,
  unknown_symbol_module,
}
use xray_vision.AnalysisEngine.Registry.{ModuleRegistry}

pub record ModuleConfig : Type 0 where
  pub module_id : String
  pub config : Option Fields

pub record SymbolConfig : Type 0 where
  pub symbol : String
  pub enabled_modules : List String

pub record AnalysisEngineConfig : Type 0 where
  pub enabled_modules : List String
  pub module_configs : List ModuleConfig
  pub symbols : Option (List SymbolConfig)

abbrev is_known : ModuleRegistry → String → Bool
is_known registry k = is_some (Dict.get registry k)

module _ (registry : ModuleRegistry) where
  -- The check of `enabled_modules` and, with another error, of the modules of a symbol.
  unfoldable pub require_known : (String → AnalysisError) → List String → Result AnalysisError Unit
  require_known error [] = ok tt
  require_known error (k ∷ ks) =
      raise_if (not (is_known registry k)) (error k) >> require_known error ks

  unfoldable pub validate_module_configs :
      List String → List ModuleConfig → Result AnalysisError Unit
  validate_module_configs seen [] = ok tt
  validate_module_configs seen (c ∷ cs) =
      raise_if (not (is_known registry c.module_id)) (unknown_configured c.module_id)
      >> raise_if (contains c.module_id seen) (duplicate_config c.module_id)
      >> validate_module_configs (add c.module_id seen) cs

  unfoldable pub validate_symbol_configs :
      List String → List SymbolConfig → Result AnalysisError Unit
  validate_symbol_configs seen [] = ok tt
  validate_symbol_configs seen (c ∷ cs) =
      raise_if (contains c.symbol seen) (duplicate_symbol c.symbol)
      >> require_known unknown_symbol_module c.enabled_modules
      >> validate_symbol_configs (add c.symbol seen) cs

  unfoldable pub validate_config : AnalysisEngineConfig → Result AnalysisError Unit
  validate_config config =
      require_known unknown_enabled config.enabled_modules
      >> validate_module_configs [] config.module_configs
      >> validate_symbol_configs [] (get_or config.symbols [])
