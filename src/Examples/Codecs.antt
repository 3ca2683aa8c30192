-- ===== src/Examples/Codecs.antt =====
-- A codec for the records of the hysteresis store of which the laws hold: the numbers of a record as
-- runs of one letter, and then its symbol.
use Prim.Native.String.{[] as nil_str, ◌∷◌ as cons_str}
use Prim.Native.Char.{code}
use xray_vision.Base.{
  ℕ, zero, suc, ◌≡◌, ◌≢◌, refl, ap, String, Option, none, some, Result, ok, err, ◌==◌,
  if◌then◌else◌,
}
use xray_vision.Base.Values.{mapping}
use xray_vision.RegimeEngine.Contracts.{Regime, index, of_index, of_index-index}
use xray_vision.RegimeEngine.Hysteresis.Persistence.{
  Codec, HysteresisStoreRecord, serialize_record, parse_record, ParseError,
}
use xray_vision.RegimeEngine.Hysteresis.Persistence.RoundTrip.{parse_record-serialize}
use xray_vision.RegimeEngine.Hysteresis.Persistence.Restore.{IsCodec}

-- `n` letters `a` and one `b`.
unary : ℕ → String → String
unary zero t = cons_str "b" t
unary (suc n) t = cons_str "a" (unary n t)

one_more : ℕ × String → ℕ × String
one_more (n, t) = (suc n, t)

read : String → ℕ × String
read nil_str = (zero, nil_str)
read (cons_str c t) = let rest = read t in if code c == 97 then (suc rest.0, rest.1) else (zero, t)

read-unary : (n : ℕ) (t : String) → read (unary n t) ≡ (n, t)
unfolding read unary
read-unary zero t = refl
read-unary (suc n) t = rw (read-unary n t) refl

-- One more than the number, or 0 where there is none.
optional_code : Option ℕ → ℕ
optional_code none = 0
optional_code (some n) = suc n

optional_of : ℕ → Option ℕ
optional_of zero = none
optional_of (suc n) = some n

candidate_code : Option Regime → ℕ
candidate_code none = 0
candidate_code (some r) = suc (index r)

candidate_of : ℕ → Option Regime
candidate_of zero = none
candidate_of (suc n) = some (of_index n)

candidate_of-code : (c : Option Regime) → candidate_of (candidate_code c) ≡ c
unfolding candidate_of candidate_code
candidate_of-code none = refl
candidate_of-code (some r) = ap some (of_index-index r)

optional_of-code : (c : Option ℕ) → optional_of (optional_code c) ≡ c
unfolding optional_of optional_code
optional_of-code none = refl
optional_of-code (some n) = refl

write : HysteresisStoreRecord → String
write r = unary r.engine_timestamp_ms (
    unary (index r.anchor_regime) (
      unary (candidate_code r.candidate_regime)
        (unary r.progress_current (unary (optional_code r.last_commit_timestamp_ms) r.symbol))))

read_back : String → HysteresisStoreRecord
read_back s =
    let (ts, s1) = read s in
    let (anchor, s2) = read s1 in
    let (candidate, s3) = read s2 in
    let (progress, s4) = read s3 in
    let (commit, symbol) = read s4 in
    record {
      symbol = symbol;
      engine_timestamp_ms = ts;
      anchor_regime = of_index anchor;
      candidate_regime = candidate_of candidate;
      progress_current = progress;
      last_commit_timestamp_ms = optional_of commit;
    }

read_back-write : (r : HysteresisStoreRecord) → read_back (write r) ≡ r
unfolding read_back write
read_back-write r =
    let s5 = r.symbol in
    let s4 = unary (optional_code r.last_commit_timestamp_ms) s5 in
    let s3 = unary r.progress_current s4 in
    let s2 = unary (candidate_code r.candidate_regime) s3 in
    let s1 = unary (index r.anchor_regime) s2 in
    rw
      (
        read-unary r.engine_timestamp_ms s1,
        read-unary (index r.anchor_regime) s2,
        read-unary (candidate_code r.candidate_regime) s3,
        read-unary r.progress_current s4,
        read-unary (optional_code r.last_commit_timestamp_ms) s5,
        of_index-index r.anchor_regime,
        candidate_of-code r.candidate_regime,
        optional_of-code r.last_commit_timestamp_ms,
      )
      refl

dumped : Result ParseError HysteresisStoreRecord → String
dumped (ok r) = write r
dumped (err e) = ""

pub letters : Codec
letters = record {
  dumps = λ f. dumped (parse_record f);
  loads = λ s. some (mapping (serialize_record (read_back s)));
  strip = λ s. s;
}

unary-nonempty : (n : ℕ) (t : String) → unary n t ≢ ""
unfolding unary
unary-nonempty zero t h = cc
unary-nonempty (suc n) t h = cc

write-nonempty : (r : HysteresisStoreRecord) → write r ≢ ""
unfolding write
write-nonempty r = unary-nonempty r.engine_timestamp_ms _

dumped-serialize :
    (r : HysteresisStoreRecord)
    → r.symbol ≢ ""
    → dumped (parse_record (serialize_record r)) ≡ write r
unfolding dumped
dumped-serialize r ne = rw (parse_record-serialize r (serialize_record r) ne (λ k. refl)) refl

pub letters-IsCodec : IsCodec letters
unfolding letters
letters-IsCodec = record {
  round =
      λ r ne. (serialize_record r, rw (dumped-serialize r ne, read_back-write r) refl, λ k. refl);
  printed = λ r ne. rw (dumped-serialize r ne) (write-nonempty r);
}
