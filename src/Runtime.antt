-- ===== src/Runtime.antt =====
-- src/runtime/wiring.py: how `OrchestratorRuntime` fills the buffer and cuts it. Raw events come in
-- on one thread while the scheduler's thread cuts, so a cut may end at a number that was read
-- before further events came in.
pub mod Delivery
pub mod Publishing
pub mod Due
pub mod Subscriptions
use xray_vision.Base.{
  ℕ, ◌≤◌, ◌≡◌, String, Option, List, [], ◌∷◌, ◌++◌, map, Result, ok, err, str_eq, if◌then◌else◌,
  length, add, ◌>>=◌, none, some,
}
use xray_vision.MarketData.Contracts.{RawMarketEvent}
use xray_vision.Orchestrator.Errors.{Error}
use xray_vision.Orchestrator.Buffer.{RawInputBuffer, append, range_by_symbol}
use xray_vision.Orchestrator.Cuts.{Cut, CutSelector, empty_selector, next_cut}

-- The raw events that one run gets, with the cut that names them.
pub record Run : Type 0 where
  pub cut : Cut
  pub raw_events : List RawMarketEvent

pub record Orchestrator : Type 0 where
  pub buffer : RawInputBuffer
  pub cut_selector : CutSelector
  pub symbols : List String
  pub runs : List Run

abbrev pub started : RawInputBuffer → Orchestrator
started b = record { buffer = b; cut_selector = empty_selector; symbols = []; runs = [] }

-- `handle_raw_event`; the wall clock is `now_ms`.
unfoldable pub handle_raw_event : Orchestrator → RawMarketEvent → ℕ → Result Error Orchestrator
handle_raw_event o event now_ms = do
  (b, r) ← append o.buffer event none now_ms
  ok (record o { buffer = b; symbols = add event.symbol o.symbols })

unfoldable pub raw_events_for_cut : RawInputBuffer → Cut → Result Error (List RawMarketEvent)
raw_events_for_cut b c = do
  records ← range_by_symbol b c.symbol c.cut_start_ingest_seq c.cut_end_ingest_seq
  ok (map (λ r. r.event) records)

-- The part of `_run_due` that cuts for one symbol and collects the run's events.
-- The append to the run log and the publish of the start, which stand between the two and can raise,
-- are in Runtime/Due.
unfoldable pub collect : Orchestrator → String → ℕ → String → Result Error Orchestrator
collect o symbol latest_seq cut_kind = do
  (sel, c) ← next_cut o.cut_selector o.buffer symbol latest_seq cut_kind
  events ← raw_events_for_cut o.buffer c
  ok (record o {
    cut_selector = sel;
    runs = o.runs ++ record { cut = c; raw_events = events } ∷ [];
  })

-- `except ValueError: continue`.
abbrev pub or_skip : Orchestrator → Result Error Orchestrator → Orchestrator
or_skip o (ok o') = o'
or_skip o (err e) = o

-- What the two threads do, in any order.
pub data Step : Orchestrator → Orchestrator → Type 0 where
  ingest :
      {o o' : Orchestrator} (event : RawMarketEvent) (now_ms : ℕ)
      → handle_raw_event o event now_ms ≡ ok o'
      → Step o o'
  cut :
      {o : Orchestrator} (symbol : String) (latest_seq : ℕ) (cut_kind : String)
      → latest_seq ≤ length o.buffer.records
      → Step o (or_skip o (collect o symbol latest_seq cut_kind))

pub data Reach (o : Orchestrator) : Orchestrator → Type 0 where
  here : Reach o o
  next : {p q : Orchestrator} → Reach o p → Step p q → Reach o q

-- All that the runs of the symbol have been given, in order.
unfoldable pub delivered : String → List Run → List RawMarketEvent
delivered symbol [] = []
delivered symbol (r ∷ rs) =
    let rest = delivered symbol rs in
    if str_eq r.cut.symbol symbol then r.raw_events ++ rest else rest
