-- ===== src/Orchestrator/Cuts.antt =====
-- src/orchestrator/cuts.py: the contiguous ranges of sequence numbers that runs read. A call that
-- raises writes nothing, so its result is the new selector with the cut, or the error.
pub mod Coverage
pub mod Refusal
use xray_vision.Base.{
  ℕ, ◌+◌, String, Option, none, some, List, [], ◌∷◌, Result, ok, err, ltb, leb, str_eq,
  if◌then◌else◌, ◌>>=◌, ◌>>◌, raise_if,
}
use xray_vision.Base.Dict
use xray_vision.Base.Dict.{Dict}
use xray_vision.Orchestrator.Errors.{
  Error, cut_end_not_positive, no_buffered_records, cut_start_after_end,
}
use xray_vision.Orchestrator.Buffer.{
  RawInputBuffer, RawInputBufferRecord, range_by_seq, has_symbol, last_ingest_seq,
}

pub record Cut : Type 0 where
  pub symbol : String
  pub cut_start_ingest_seq : ℕ
  pub cut_end_ingest_seq : ℕ
  pub cut_kind : String

pub record CutSelector : Type 0 where
  pub last_end_by_symbol : Dict ℕ

abbrev pub empty_selector : CutSelector
empty_selector = record { last_end_by_symbol = [] }

-- The `for` loop of `_first_seq_for_symbol`.
unfoldable pub first_seq : String → List RawInputBufferRecord → Option ℕ
first_seq symbol [] = none
first_seq symbol (r ∷ rs) = if has_symbol symbol r then some r.ingest_seq else first_seq symbol rs

unfoldable pub first_seq_for_symbol : RawInputBuffer → String → ℕ → Result Error (Option ℕ)
first_seq_for_symbol b symbol cut_end = do
  records ← range_by_seq b 1 cut_end
  ok (first_seq symbol records)

-- `last_end + 1` where the symbol was cut before, and else the first record of the symbol.
unfoldable pub start_of : CutSelector → RawInputBuffer → String → ℕ → Result Error (Option ℕ)
start_of sel b symbol cut_end = elim (Dict.get sel.last_end_by_symbol symbol) [
  | some last_end ↦ ok (some (last_end + 1))
  | none ↦ first_seq_for_symbol b symbol cut_end
]

abbrev require_start : Option ℕ → Result Error ℕ
require_start none = err no_buffered_records
require_start (some n) = ok n

unfoldable pub next_cut :
    CutSelector → RawInputBuffer → String → ℕ → String → Result Error (CutSelector × Cut)
next_cut sel b symbol cut_end cut_kind = do
  raise_if (leb cut_end 0) cut_end_not_positive
  found ← start_of sel b symbol cut_end
  start_seq ← require_start found
  raise_if (ltb cut_end start_seq) cut_start_after_end
  ok (
    record { last_end_by_symbol = Dict.put sel.last_end_by_symbol symbol cut_end },
    record {
      symbol = symbol;
      cut_start_ingest_seq = start_seq;
      cut_end_ingest_seq = cut_end;
      cut_kind = cut_kind;
    },
  )

unfoldable pub latest_ingest_seq : RawInputBuffer → Option ℕ
latest_ingest_seq b = last_ingest_seq b
