-- ===== src/RegimeEngine/Hysteresis/Store.antt =====
-- `HysteresisStore` of src/regime_engine/hysteresis/state.py and `process_state` of __init__.py,
-- without its log lines.
use xray_vision.Base.{ℕ, String, Option, [], get_or}
use xray_vision.Base.Dict
use xray_vision.Base.Dict.{Dict}
use xray_vision.Base.Floats.{FloatOps}
use xray_vision.RegimeEngine.Contracts.{HysteresisState}
use xray_vision.RegimeEngine.Hysteresis.Rules.{
  RegimeState, HysteresisConfig, default_config, advance_hysteresis,
}

pub record HysteresisStore : Type 0 where
  pub states : Dict HysteresisState

abbrev pub empty_store : HysteresisStore
empty_store = record { states = [] }

abbrev pub state_for : HysteresisStore → String → Option HysteresisState
state_for store symbol = Dict.get store.states symbol

abbrev pub update : HysteresisStore → String → HysteresisState → HysteresisStore
update store symbol state = record { states = Dict.put store.states symbol state }

-- The store after the call, and the state that it returns.
unfoldable pub process_state :
    FloatOps
    → ℕ
    → RegimeState
    → HysteresisStore
    → Option HysteresisConfig
    → HysteresisStore × HysteresisState
process_state ops now_ms s store config =
    let next =
      advance_hysteresis ops now_ms (state_for store s.symbol) s (get_or config default_config) in
    (update store s.symbol next, next)
