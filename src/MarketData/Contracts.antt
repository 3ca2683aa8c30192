-- ===== src/MarketData/Contracts.antt =====
-- src/market_data/contracts.py: the raw market event.
use xray_vision.Base.{ℕ, String, Option, List}
use xray_vision.Base.Int.{ℤ}
use xray_vision.Base.Values.{Fields}

-- `bytes | str`.
pub data RawPayload : Type 0 where
  bytes : List ℕ → RawPayload
  str : String → RawPayload

pub record RawMarketEvent : Type 0 where
  pub schema : String
  pub schema_version : String
  pub event_type : String
  pub source_id : String
  pub symbol : String
  pub exchange_ts_ms : Option ℤ
  pub recv_ts_ms : ℤ
  pub raw_payload : RawPayload
  pub normalized : Fields
  pub source_event_id : Option String
  pub source_seq : Option ℤ
  pub channel : Option String
  pub payload_content_type : Option String
  pub payload_hash : Option String
