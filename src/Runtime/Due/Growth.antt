-- ===== src/Runtime/Due/Growth.antt =====
-- The ranges of src/orchestrator/buffer.py that replay reads, after further appends.
use xray_vision.Base.{
  ◌≡◌, refl, ap, ℕ, ◌<◌, ◌+◌, String, Option, List, [], ◌∷◌, ◌++◌, Result, ok, All, arith, keep,
  keep-append, leb, Bool-cases, Holds, Holds-ok, length, Result-cases, inl, inr,
}
use xray_vision.MarketData.Contracts.{RawMarketEvent}
use xray_vision.Orchestrator.Contracts.{EngineRunRecord}
use xray_vision.Orchestrator.Buffer.{
  RawInputBuffer, RawInputBufferRecord, append, in_range, range_by_seq, range_by_symbol,
}
use xray_vision.Orchestrator.EngineRunner.{RunError}
use xray_vision.Orchestrator.Replay.{
  EngineReturn, Replayed, raw_events_for_cut, replay_record, replay_from,
}

-- The buffer with one more record.
abbrev pub grown : RawInputBuffer → RawInputBufferRecord → RawInputBuffer
grown b r = record b { records = b.records ++ (r ∷ []); next_seq = b.next_seq + 1 }

append_nil : {A : Type 0} (xs : List A) → xs ++ [] ≡ xs
append_nil [] = refl
append_nil (x ∷ xs) = ap (λ ys. x ∷ ys) (append_nil xs)

-- What an append that succeeds gives.
abbrev pub IsGrown : RawInputBuffer → RawInputBuffer × RawInputBufferRecord → Type 0
IsGrown b (c, r) = (c ≡ grown b r) × (r.ingest_seq ≡ b.next_seq)

append-Holds :
    (b : RawInputBuffer) (event : RawMarketEvent) (ts : Option ℕ) (now : ℕ)
    → Holds (IsGrown b) (append b event ts now)
unfolding append
append-Holds b event ts now = elim (Bool-cases (leb b.max_records (length b.records))) [
  | inl q ↦ rw q tt
  | inr q ↦ rw q (refl, refl)
]

pub append-IsGrown :
    (b : RawInputBuffer) (event : RawMarketEvent) (ts : Option ℕ) (now : ℕ)
    (x : RawInputBuffer × RawInputBufferRecord)
    → append b event ts now ≡ ok x
    → IsGrown b x
append-IsGrown b event ts now x q =
    Holds-ok (IsGrown b) (append b event ts now) x (append-Holds b event ts now) q

beyond : (s e : ℕ) (r : RawInputBufferRecord) → e < r.ingest_seq → keep (in_range s e) (r ∷ []) ≡ []
unfolding keep
beyond s e r lt = ground arith

range_by_seq-grown :
    (b : RawInputBuffer) (r : RawInputBufferRecord) (s e : ℕ)
    → e < r.ingest_seq
    → range_by_seq (grown b r) s e ≡ range_by_seq b s e
unfolding range_by_seq
range_by_seq-grown b r s e lt =
    rw
      (
        keep-append (in_range s e) b.records (r ∷ []),
        beyond s e r lt,
        append_nil (keep (in_range s e) b.records),
      )
      refl

raw_events-grown :
    (b : RawInputBuffer) (r : RawInputBufferRecord) (symbol : String) (s e : ℕ)
    → e < r.ingest_seq
    → raw_events_for_cut (grown b r) symbol s e ≡ raw_events_for_cut b symbol s e
unfolding raw_events_for_cut range_by_symbol
raw_events-grown b r symbol s e lt = rw (range_by_seq-grown b r s e lt) refl

module _ {S Snapshot : Type 0}
    (build_snapshot : List RawMarketEvent → String → ℕ → Result String Snapshot)
    (engine : S → Snapshot → S × Result RunError EngineReturn) where
  replay_record-grown :
      (b : RawInputBuffer) (r : RawInputBufferRecord) (x : Replayed S) (y : EngineRunRecord)
      → y.cut_end_ingest_seq < r.ingest_seq
      → replay_record build_snapshot engine (grown b r) x y
        ≡ replay_record build_snapshot engine b x y
  unfolding replay_record
  replay_record-grown b r x y lt =
      rw (raw_events-grown b r y.symbol y.cut_start_ingest_seq y.cut_end_ingest_seq lt) refl

  pub replay_from-grown :
      (b : RawInputBuffer) (r : RawInputBufferRecord) (log : List EngineRunRecord) (x : Replayed S)
      → All (λ y. y.cut_end_ingest_seq < r.ingest_seq) log
      → replay_from build_snapshot engine (grown b r) x log
        ≡ replay_from build_snapshot engine b x log
  unfolding replay_from
  replay_from-grown b r [] x h = refl
  replay_from-grown b r (y ∷ ys) x h =
      elim (Result-cases (replay_record build_snapshot engine b x y)) [
        | inl (z, q) ↦ rw (replay_record-grown b r x y h.0, q) (replay_from-grown b r ys z h.1)
        | inr (e, q) ↦ rw (replay_record-grown b r x y h.0, q) refl
      ]
