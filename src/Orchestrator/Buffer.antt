-- ===== src/Orchestrator/Buffer.antt =====
-- src/orchestrator/buffer.py: the bounded buffer of raw market events, numbered from 1 as they
-- come in. The wall clock `_now_ms` is the argument `now_ms`.
pub mod Numbering
use xray_vision.Base.{
  ℕ, ◌+◌, Bool, ◌&&◌, String, Option, none, some, List, [], ◌∷◌, ◌++◌, Result, ok, err, ltb, leb,
  str_eq, if◌then◌else◌, length, keep, last?, get_or, ◌>>=◌,
}
use xray_vision.MarketData.Contracts.{RawMarketEvent}
use xray_vision.Orchestrator.Errors.{Error, max_records_not_positive, buffer_full, start_after_end}

pub record RawInputBufferRecord : Type 0 where
  pub ingest_seq : ℕ
  pub ingest_ts_ms : ℕ
  pub event : RawMarketEvent

pub record RawInputBuffer : Type 0 where
  pub max_records : ℕ
  pub records : List RawInputBufferRecord
  pub next_seq : ℕ

unfoldable pub create : ℕ → Result Error RawInputBuffer
create max_records =
    if leb max_records 0
    then err max_records_not_positive
    else ok (record { max_records = max_records; records = []; next_seq = 1 })

abbrev pub new_record : RawInputBuffer → RawMarketEvent → Option ℕ → ℕ → RawInputBufferRecord
new_record b event ingest_ts_ms now_ms = record {
  ingest_seq = b.next_seq;
  ingest_ts_ms = get_or ingest_ts_ms now_ms;
  event = event;
}

unfoldable pub append :
    RawInputBuffer
    → RawMarketEvent
    → Option ℕ
    → ℕ
    → Result Error (RawInputBuffer × RawInputBufferRecord)
append b event ingest_ts_ms now_ms =
    if leb b.max_records (length b.records)
    then err buffer_full
    else let r = new_record b event ingest_ts_ms now_ms in
      ok (record b { records = b.records ++ r ∷ []; next_seq = b.next_seq + 1 }, r)

-- `start_seq <= record.ingest_seq <= end_seq`.
abbrev pub in_range : ℕ → ℕ → RawInputBufferRecord → Bool
in_range start_seq end_seq r = leb start_seq r.ingest_seq && leb r.ingest_seq end_seq

unfoldable pub range_by_seq : RawInputBuffer → ℕ → ℕ → Result Error (List RawInputBufferRecord)
range_by_seq b start_seq end_seq =
    if ltb end_seq start_seq
    then err start_after_end
    else ok (keep (in_range start_seq end_seq) b.records)

abbrev pub has_symbol : String → RawInputBufferRecord → Bool
has_symbol symbol r = str_eq r.event.symbol symbol

unfoldable pub range_by_symbol :
    RawInputBuffer → String → ℕ → ℕ → Result Error (List RawInputBufferRecord)
range_by_symbol b symbol start_seq end_seq = do
  records ← range_by_seq b start_seq end_seq
  ok (keep (has_symbol symbol) records)

unfoldable pub last_ingest_seq : RawInputBuffer → Option ℕ
last_ingest_seq b = elim (last? b.records) [ none ↦ none | some r ↦ some r.ingest_seq ]
