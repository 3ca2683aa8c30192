-- ===== src/StateGate/Config/Sound.antt =====
-- `validate_config` of src/consumers/state_gate/config.py, read as a predicate.
use mathlib.Core.Logic.{◌↔◌}
use xray_vision.Base.{◌>>◌, refl, ℕ, ◌<◌, ◌≡◌, String, Option, none, some, Result, ok, err, arith}
use xray_vision.StateGate.Config.{
  OperationLimits, StateGateConfig, require_positive, require_optional, validate_limits,
  validate_config,
}

abbrev pub IsPositive? : Option ℕ → Type 0
IsPositive? none = Unit {0}
IsPositive? (some n) = 0 < n

abbrev pub IsValidLimits : OperationLimits → Type 0
IsValidLimits l = (0 < l.max_pending) × IsPositive? l.max_block_ms × IsPositive? l.max_failures

abbrev pub IsValidConfig : StateGateConfig → Type 0
IsValidConfig c =
    (0 < c.max_gap_ms)
    × IsValidLimits c.input_limits
    × IsValidLimits c.persistence_limits
    × IsValidLimits c.publish_limits

require_positive_iff : (n : ℕ) (name : String) → (require_positive n name ≡ ok tt) ↔ (0 < n)
unfolding require_positive
require_positive_iff n name = (λ h. ground arith, λ h. ground arith)

require_optional_iff :
    (o : Option ℕ) (name : String) → (require_optional o name ≡ ok tt) ↔ IsPositive? o
require_optional_iff none name = (λ _. tt, λ _. refl)
require_optional_iff (some n) name = require_positive_iff n name

then-ok : (m k : Result String Unit) → ((m >> k) ≡ ok tt) ↔ ((m ≡ ok tt) × (k ≡ ok tt))
then-ok (ok u) k = (λ h. (refl, h), λ (_, h). h)
then-ok (err e) k = (λ h. cc, λ (h, _). cc)

validate_limits_iff :
    (l : OperationLimits) (name : String) → (validate_limits l name ≡ ok tt) ↔ IsValidLimits l
unfolding validate_limits
validate_limits_iff l name =
    let rest =
      then-ok (require_optional l.max_block_ms name) (require_optional l.max_failures name) in
    let whole =
      then-ok (require_positive l.max_pending name)
        (require_optional l.max_block_ms name >> require_optional l.max_failures name) in
    (
      λ h.
          let (p, h1) = whole.0 h in
          let (b, f) = rest.0 h1 in
          (
            (require_positive_iff l.max_pending name).0 p,
            (require_optional_iff l.max_block_ms name).0 b,
            (require_optional_iff l.max_failures name).0 f,
          ),
      λ (p, b, f). whole.1 (
        (require_positive_iff l.max_pending name).1 p,
        rest.1 (
          (require_optional_iff l.max_block_ms name).1 b,
          (require_optional_iff l.max_failures name).1 f,
        ),
      ),
    )

-- The gate's configuration is accepted exactly if the greatest gap and every limit that is set are
-- positive.
pub gate_config_iff : (c : StateGateConfig) → (validate_config c ≡ ok tt) ↔ IsValidConfig c
unfolding validate_config
gate_config_iff c =
    let gap = require_positive_iff c.max_gap_ms "max_gap_ms" in
    let i = validate_limits_iff c.input_limits "input_limits" in
    let s = validate_limits_iff c.persistence_limits "persistence_limits" in
    let p = validate_limits_iff c.publish_limits "publish_limits" in
    let checks =
      validate_limits c.persistence_limits "persistence_limits"
      >> validate_limits c.publish_limits "publish_limits" in
    let first =
      then-ok (require_positive c.max_gap_ms "max_gap_ms")
        (validate_limits c.input_limits "input_limits" >> checks) in
    let second = then-ok (validate_limits c.input_limits "input_limits") checks in
    let third =
      then-ok (validate_limits c.persistence_limits "persistence_limits")
        (validate_limits c.publish_limits "publish_limits") in
    (
      λ h.
          let (g, h1) = first.0 h in
          let (a, h2) = second.0 h1 in let (b, d) = third.0 h2 in (gap.0 g, i.0 a, s.0 b, p.0 d),
      λ (g, a, b, d). first.1 (gap.1 g, second.1 (i.1 a, third.1 (s.1 b, p.1 d))),
    )
