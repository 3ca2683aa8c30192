-- ===== src/Examples/Data.antt =====
-- Inputs that the examples share.
use xray_vision.Base.{ℕ, String, none, some, List, [], ◌∷◌, Bool, true, ltb, leb, ◌-◌}
use xray_vision.Base.Int.{pos}
use xray_vision.Base.Values.{end}
use xray_vision.Base.Floats.{Float, FloatOps, IsOrdered}
use xray_vision.Base.{arith}
use xray_vision.MarketData.Contracts.{RawMarketEvent, str}
use xray_vision.RegimeEngine.Contracts.{chop_balanced, squeeze_up, RegimeOutput, HysteresisState}
use xray_vision.RegimeEngine.Hysteresis.Rules.{RegimeState, HysteresisConfig}
use xray_vision.Orchestrator.Contracts.{timer}
use xray_vision.Orchestrator.Publisher.{RunFields}

abbrev pub trade : String → RawMarketEvent
trade symbol = record {
  schema = "raw_market_event";
  schema_version = "1";
  event_type = "TradeTick";
  source_id = "feed";
  symbol = symbol;
  exchange_ts_ms = none;
  recv_ts_ms = pos 7;
  raw_payload = str "{}";
  normalized = end;
  source_event_id = none;
  source_seq = none;
  channel = none;
  payload_content_type = none;
  payload_hash = none;
}

-- Floats compared by their bits, which is the order of the doubles that are not negative.
abbrev pub by_bits : FloatOps
by_bits = record {
  flt = λ a b. ltb a.bits b.bits;
  fle = λ a b. leb a.bits b.bits;
  fsub = λ a b. record { bits = a.bits - b.bits };
}

abbrev pub all_numbers : Float → Bool
all_numbers a = true

pub by_bits-IsOrdered : IsOrdered by_bits all_numbers
by_bits-IsOrdered = record {
  irrefl = λ a. ground arith;
  trans = λ a b c h k. ground arith;
  cotrans = λ a b c n h. ground arith;
}

abbrev pub float : ℕ → Float
float n = record { bits = n }

abbrev pub output_with : List String → RegimeOutput
output_with invalidations = record {
  symbol = "BTC";
  timestamp = 100;
  regime = squeeze_up;
  confidence = float 5;
  drivers = [];
  invalidations = invalidations;
  permissions = [];
}

abbrev pub state_at : ℕ → ℕ → HysteresisState
state_at ts progress = record {
  schema = "hysteresis_state";
  schema_version = "1";
  symbol = "BTC";
  engine_timestamp_ms = ts;
  anchor_regime = chop_balanced;
  candidate_regime = some squeeze_up;
  progress_current = progress;
  progress_required = 2;
  last_commit_timestamp_ms = none;
  reason_codes = [];
  debug = none;
}

abbrev pub window_two : HysteresisConfig
window_two = record {
  window_updates = 2;
  enter_threshold = float 10;
  commit_threshold = float 10;
  min_lead_over_anchor = none;
  decay_step = 1;
  allowed_regimes = none;
}

abbrev pub squeeze_at : ℕ → RegimeState
squeeze_at ts = record {
  schema = "regime_state";
  schema_version = "1";
  symbol = "BTC";
  engine_timestamp_ms = ts;
  belief_by_regime = (squeeze_up, float 20) ∷ (chop_balanced, float 4) ∷ [];
  anchor_regime = chop_balanced;
}

abbrev pub fields_of : String → ℕ → RunFields
fields_of run_id ts = record {
  run_id = run_id;
  symbol = "BTC";
  engine_timestamp_ms = ts;
  cut_start_ingest_seq = 1;
  cut_end_ingest_seq = 4;
  cut_kind = timer;
  attempt = some 1;
  published_ts_ms = none;
}
