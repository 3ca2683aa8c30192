-- ===== src/RegimeEngine/Hysteresis/Persistence/RoundTrip.antt =====
-- Serializing and parsing in src/regime_engine/hysteresis/persistence.py.
use xray_vision.Base.{
  ℕ, ◌≡◌, ◌≢◌, refl, String, Option, none, some, false, ok, str_eq, eq_iff, Bool-cases, inl, inr,
}
use xray_vision.Base.Values.{Fields, field_get}
use xray_vision.RegimeEngine.Contracts.{Regime, value, all_regimes}
use xray_vision.RegimeEngine.Hysteresis.Persistence.{
  HysteresisStoreRecord, serialize_record, parse_record, find_regime, parse_candidate,
  candidate_value, optional_int, parse_last_commit,
}

find_regime-value : (r : Regime) → find_regime all_regimes (value r) ≡ ok r
unfolding find_regime
find_regime-value Regime.chop_balanced = refl
find_regime-value _ = refl

parse_candidate-value : (o : Option Regime) → parse_candidate (candidate_value o) ≡ ok o
parse_candidate-value none = refl
parse_candidate-value (some r) = rw (find_regime-value r)

parse_last_commit-value : (o : Option ℕ) → parse_last_commit (optional_int o) ≡ ok o
parse_last_commit-value none = refl
parse_last_commit-value (some n) = refl

pub nonempty : (s : String) → s ≢ "" → str_eq s "" ≡ false
nonempty s h = elim (Bool-cases (str_eq s "")) [
  | inl e ↦ absurd (h ((eq_iff s "").0 e))
  | inr e ↦ e
]

-- Any mapping with the fields of a serialized record, in whatever order, parses to the record, if
-- its symbol is not empty.
pub parse_record-serialize :
    (r : HysteresisStoreRecord) (d : Fields)
    → r.symbol ≢ ""
    → ((k : String) → field_get d k ≡ field_get (serialize_record r) k)
    → parse_record d ≡ ok r
unfolding parse_record serialize_record field_get
parse_record-serialize r d ne same = rw (
  same "schema",
  same "schema_version",
  same "symbol",
  same "engine_timestamp_ms",
  same "anchor_regime",
  same "candidate_regime",
  same "progress_current",
  same "last_commit_timestamp_ms",
  nonempty r.symbol ne,
  find_regime-value r.anchor_regime,
  parse_candidate-value r.candidate_regime,
  parse_last_commit-value r.last_commit_timestamp_ms,
)
