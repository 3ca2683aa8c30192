-- ===== src/Examples/Cutting.antt =====
-- The buffer, the cuts and the publisher on concrete records.
use xray_vision.Base.{
  ℕ, ◌≡◌, ◌≤◌, refl, String, none, some, List, [], ◌∷◌, ◌++◌, ok, err, arith, keep,
}
use xray_vision.Base.Dict
use xray_vision.Orchestrator.Errors.{cut_start_after_end}
use xray_vision.Orchestrator.Contracts.{truth, OrchestratorEvent}
use xray_vision.Orchestrator.Publisher.{build_engine_run_started}
use xray_vision.Orchestrator.Buffer.{RawInputBuffer, RawInputBufferRecord, append, range_by_seq}
use xray_vision.Orchestrator.Buffer.Numbering.{IsValid}
use xray_vision.Orchestrator.Cuts.{
  Cut, CutSelector, empty_selector, next_cut, start_of, first_seq, first_seq_for_symbol,
}
use xray_vision.Orchestrator.Cuts.Coverage.{covered, covered_to, slice, next_cut-covered}
use xray_vision.Orchestrator.Cuts.Refusal.{next_cut_refused}
use xray_vision.Orchestrator.Sequencing.{empty_sequencer, publish_all}
use xray_vision.Orchestrator.Sequencing.Order.{InOrder, publish_all-InOrder}
use xray_vision.Examples.Data.{trade, fields_of}

abbrev numbered : ℕ → String → RawInputBufferRecord
numbered n symbol = record { ingest_seq = n; ingest_ts_ms = 5; event = trade symbol }

abbrev buffer : RawInputBuffer
buffer = record {
  max_records = 10;
  records = numbered 1 "BTC" ∷ numbered 2 "ETH" ∷ [];
  next_seq = 3;
}

abbrev longer : RawInputBuffer
longer = record {
  max_records = 10;
  records = numbered 1 "BTC" ∷ numbered 2 "ETH" ∷ numbered 3 "BTC" ∷ [];
  next_seq = 4;
}

buffer-IsValid : IsValid buffer
buffer-IsValid = record { numbered = ground arith; next = refl; bounded = omega arith }

appended : append buffer (trade "BTC") none 5 ≡ ok (longer, numbered 3 "BTC")
unfolding append
appended = refl

abbrev cut_to : ℕ → CutSelector
cut_to e = record { last_end_by_symbol = ("BTC", e) ∷ [] }

abbrev first_cut : Cut
first_cut = record {
  symbol = "BTC";
  cut_start_ingest_seq = 1;
  cut_end_ingest_seq = 2;
  cut_kind = "timer";
}

cut_found : next_cut empty_selector buffer "BTC" 2 "timer" ≡ ok (cut_to 2, first_cut)
unfolding next_cut start_of first_seq_for_symbol first_seq range_by_seq Dict.get Dict.put keep
cut_found = refl

next_cut-covered_example :
    (1 ≤ 2)
    × (first_cut.cut_end_ingest_seq ≡ 2)
    × (Dict.get (cut_to 2).last_end_by_symbol "BTC" ≡ some 2)
    × (covered (cut_to 2) buffer "BTC"
        ≡ covered empty_selector buffer "BTC" ++ slice buffer "BTC" 1 2)
next_cut-covered_example =
    next_cut-covered empty_selector buffer "BTC" "timer" 2 buffer-IsValid cut_found

cut_refused : next_cut (cut_to 2) buffer "BTC" 2 "timer" ≡ err cut_start_after_end
unfolding next_cut start_of Dict.get
cut_refused = refl

covers_no_more : (l : ℕ) → Dict.get (cut_to 2).last_end_by_symbol "BTC" ≡ some l → l ≤ 2
unfolding Dict.get
covers_no_more l h = ground arith

next_cut_refused_example :
    covered_to (Dict.get (cut_to 2).last_end_by_symbol "BTC") buffer "BTC" ≡ slice buffer "BTC" 1 2
next_cut_refused_example =
    next_cut_refused (cut_to 2) buffer "BTC" "timer" 2 buffer-IsValid.numbered (omega arith)
      covers_no_more cut_refused

abbrev events : List OrchestratorEvent
events =
    build_engine_run_started (fields_of "r1" 100) truth
    ∷ build_engine_run_started (fields_of "r0" 90) truth
    ∷ build_engine_run_started (fields_of "r2" 110) truth
    ∷ []

publish_all-InOrder_example :
    InOrder (publish_all (record { sink = []; sequencer = empty_sequencer }) events).sink
publish_all-InOrder_example = publish_all-InOrder events
