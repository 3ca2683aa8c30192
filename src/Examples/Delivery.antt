-- ===== src/Examples/Delivery.antt =====
-- Two trades are ingested, cut and delivered.
use xray_vision.Base.{ℕ, ◌≡◌, refl, String, some, [], ◌∷◌, ok, map, keep, arith, add, contains}
use xray_vision.Orchestrator.Buffer.{
  RawInputBuffer, RawInputBufferRecord, create, append, has_symbol, last_ingest_seq,
}
use xray_vision.Orchestrator.Cuts.{latest_ingest_seq}
use xray_vision.Runtime.{
  Orchestrator, started, handle_raw_event, collect, or_skip, Reach, here, next, ingest, cut,
  delivered,
}
use xray_vision.Runtime.Delivery.Complete.{delivered_all}
use xray_vision.Examples.Data.{trade}

abbrev empty : RawInputBuffer
empty = record { max_records = 10; records = []; next_seq = 1 }

abbrev numbered : ℕ → String → RawInputBufferRecord
numbered n symbol = record { ingest_seq = n; ingest_ts_ms = 5; event = trade symbol }

abbrev one : Orchestrator
one = record (started empty) {
  buffer = record { max_records = 10; records = numbered 1 "BTC" ∷ []; next_seq = 2 };
  symbols = "BTC" ∷ [];
}

abbrev two : Orchestrator
two = record (started empty) {
  buffer = record {
    max_records = 10;
    records = numbered 1 "BTC" ∷ numbered 2 "ETH" ∷ [];
    next_seq = 3;
  };
  symbols = "ETH" ∷ "BTC" ∷ [];
}

created : create 10 ≡ ok empty
unfolding create
created = refl

first : handle_raw_event (started empty) (trade "BTC") 5 ≡ ok one
unfolding handle_raw_event append add contains
first = refl

second : handle_raw_event one (trade "ETH") 5 ≡ ok two
unfolding handle_raw_event append add contains
second = refl

reached : Reach (started empty) two
reached = next (next here (ingest (trade "BTC") 5 first)) (ingest (trade "ETH") 5 second)

latest_two : latest_ingest_seq two.buffer ≡ some 2
unfolding latest_ingest_seq last_ingest_seq
latest_two = refl

reached_cut : Reach (started empty) (or_skip two (collect two "BTC" 1 "timer"))
reached_cut = next reached (cut "BTC" 1 "timer" (omega arith))

delivered_all_example :
    delivered "BTC" (or_skip two (collect two "BTC" 2 "timer")).runs
    ≡ map (λ r. r.event) (keep (has_symbol "BTC") two.buffer.records)
delivered_all_example = delivered_all 10 empty two "BTC" "timer" 2 created reached latest_two
