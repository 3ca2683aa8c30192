-- ===== src/StateGate/Config.antt =====
-- src/consumers/state_gate/config.py.
pub mod Sound
use xray_vision.Base.{
  ℕ, String, Option, none, some, List, Bool, Result, ok, ltb, not, ◌>>=◌, ◌>>◌, raise_if,
}

pub record OperationLimits : Type 0 where
  pub max_pending : ℕ
  pub max_block_ms : Option ℕ
  pub max_failures : Option ℕ

pub record StateGateConfig : Type 0 where
  pub max_gap_ms : ℕ
  pub denylisted_invalidations : List String
  pub block_during_transition : Bool
  pub input_limits : OperationLimits
  pub persistence_limits : OperationLimits
  pub publish_limits : OperationLimits

-- The name of the field in the message.
unfoldable pub require_positive : ℕ → String → Result String Unit
require_positive value field_name = raise_if (not (ltb 0 value)) field_name

abbrev pub require_optional : Option ℕ → String → Result String Unit
require_optional none field_name = ok tt
require_optional (some value) field_name = require_positive value field_name

unfoldable pub validate_limits : OperationLimits → String → Result String Unit
validate_limits limits field_name = do
  require_positive limits.max_pending field_name
  require_optional limits.max_block_ms field_name
  require_optional limits.max_failures field_name

unfoldable pub validate_config : StateGateConfig → Result String Unit
validate_config config = do
  require_positive config.max_gap_ms "max_gap_ms"
  validate_limits config.input_limits "input_limits"
  validate_limits config.persistence_limits "persistence_limits"
  validate_limits config.publish_limits "publish_limits"
