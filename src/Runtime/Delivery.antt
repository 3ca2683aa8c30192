-- ===== src/Runtime/Delivery.antt =====
-- The steps of src/runtime/wiring.py beside what the cuts hold.
pub mod Complete
use mathlib.Core.Path.{subst}
use mathlib.Core.List.{map-append, append-nil, append_assoc}
use xray_vision.Base.{
  add, ℕ, suc, ◌+◌, ◌≤◌, ◌<◌, ◌≡◌, refl, sym, ap, ◌∙◌, String, Option, none, some, List, [], ◌∷◌,
  ◌++◌, map, Result, ok, err, arith, str_eq, eq_iff, if◌then◌else◌, length, length-append, keep,
  ◌>>=◌, Result-cases, Bool-cases, inl, inr, keep-append, true, false, str_refl,
}
use xray_vision.Base.Dict
use xray_vision.Base.Dict.{get-put}
use xray_vision.MarketData.Contracts.{RawMarketEvent}
use xray_vision.Orchestrator.Errors.{Error}
use xray_vision.Orchestrator.Buffer.{
  RawInputBuffer, RawInputBufferRecord, append, new_record, in_range, has_symbol, range_by_seq,
  range_by_symbol,
}
use xray_vision.Orchestrator.Buffer.Numbering.{NumberedFrom, IsValid, append-IsValid, keep-beyond}
use xray_vision.Orchestrator.Cuts.{Cut, CutSelector, next_cut}
use xray_vision.Orchestrator.Cuts.Coverage.{
  CutFrom, next_cut-CutFrom, CutFrom-covered, slice, covered, covered_to,
}
use xray_vision.Runtime.{
  Orchestrator, Run, started, handle_raw_event, raw_events_for_cut, collect, or_skip, Step, ingest,
  cut, Reach, here, next, delivered,
}

pub record Inv (o : Orchestrator) : Type 0 where
  pub buffer : IsValid o.buffer
  pub behind :
      (symbol : String) (last : ℕ)
      → Dict.get o.cut_selector.last_end_by_symbol symbol ≡ some last
      → last ≤ length o.buffer.records
  pub exact :
      (symbol : String)
      → delivered symbol o.runs ≡ map (λ r. r.event) (covered o.cut_selector o.buffer symbol)

delivered-snoc :
    (symbol : String) (rs : List Run) (r : Run)
    → delivered symbol (rs ++ r ∷ [])
      ≡ delivered symbol rs ++ (if str_eq r.cut.symbol symbol then r.raw_events else [])
unfolding delivered
delivered-snoc symbol [] r = ground (arith, append-nil r.raw_events)
delivered-snoc symbol (x ∷ rs) r = ground (
  arith,
  delivered-snoc symbol rs r,
  append_assoc x.raw_events (delivered symbol rs)
      (if str_eq r.cut.symbol symbol then r.raw_events else []),
)

-- New records lie beyond the range.
keep-snoc :
    (e : ℕ) (rs : List RawInputBufferRecord) (r : RawInputBufferRecord)
    → e < r.ingest_seq
    → keep (in_range 1 e) (rs ++ r ∷ []) ≡ keep (in_range 1 e) rs
unfolding keep
keep-snoc e [] r h = ground arith
keep-snoc e (x ∷ rs) r h = ground (arith, keep-snoc e rs r h)

covered-append :
    (b : RawInputBuffer) (r : RawInputBufferRecord) (m : ℕ) (symbol : String) (last : Option ℕ)
    → ((l : ℕ) → last ≡ some l → l < r.ingest_seq)
    → covered_to last (record b { records = b.records ++ r ∷ []; next_seq = m }) symbol
      ≡ covered_to last b symbol
covered-append b r m symbol none h = refl
covered-append b r m symbol (some l) h =
    ap (keep (has_symbol symbol)) (keep-snoc l b.records r (h l refl))

abbrev grown : Orchestrator → RawMarketEvent → ℕ → Orchestrator
grown o event now = record o {
  buffer = record o.buffer {
    records = o.buffer.records ++ new_record o.buffer event none now ∷ [];
    next_seq = o.buffer.next_seq + 1;
  };
  symbols = add event.symbol o.symbols;
}

handle_raw_event-eq :
    (o : Orchestrator) {o' : Orchestrator} (event : RawMarketEvent) (now : ℕ)
    → handle_raw_event o event now ≡ ok o'
    → (o' ≡ grown o event now) × (length o.buffer.records < o.buffer.max_records)
unfolding handle_raw_event append
handle_raw_event-eq o event now h = ground arith

grown-Inv :
    (o : Orchestrator) (event : RawMarketEvent) (now : ℕ)
    → length o.buffer.records < o.buffer.max_records
    → Inv o
    → Inv (grown o event now)
grown-Inv o event now room v = record {
  buffer =
      append-IsValid o.buffer event none now {c = (grown o event now).buffer}
        {r = new_record o.buffer event none now} v.buffer (unfold append in ground arith);
  behind = λ symbol last e. omega (
    arith,
    v.behind symbol last e,
    length-append o.buffer.records (new_record o.buffer event none now ∷ []),
  );
  exact = λ symbol.
      v.exact symbol
      ∙ ap (map (λ r. r.event)) (
          sym (
            covered-append o.buffer (new_record o.buffer event none now) (o.buffer.next_seq + 1)
              symbol (Dict.get o.cut_selector.last_end_by_symbol symbol)
              (λ l e. omega (arith, v.behind symbol l e, v.buffer.next))));
}

handle_raw_event-Inv :
    {o o' : Orchestrator} (event : RawMarketEvent) (now : ℕ)
    → Inv o
    → handle_raw_event o event now ≡ ok o'
    → Inv o'
handle_raw_event-Inv {o} {o'} event now v h =
    let (e, room) = handle_raw_event-eq o event now h in rw e (grown-Inv o event now room v)

abbrev events_of : Orchestrator → Cut → List RawMarketEvent
events_of o c =
    map (λ r. r.event) (slice o.buffer c.symbol c.cut_start_ingest_seq c.cut_end_ingest_seq)

pub raw_events_for_cut-slice :
    (o : Orchestrator) (c : Cut)
    → c.cut_start_ingest_seq ≤ c.cut_end_ingest_seq
    → raw_events_for_cut o.buffer c ≡ ok (events_of o c)
unfolding raw_events_for_cut range_by_symbol range_by_seq
raw_events_for_cut-slice o c h = ground arith

abbrev after_cut : Orchestrator → CutSelector → Cut → Orchestrator
after_cut o sel c = record o {
  cut_selector = sel;
  runs = o.runs ++ record { cut = c; raw_events = events_of o c } ∷ [];
}

module _ (o : Orchestrator) (symbol kind : String) (e : ℕ) (sel : CutSelector) (c : Cut) (v : Inv o)
    (f : CutFrom o.cut_selector o.buffer symbol kind e sel c) where
  last_end :
      (s : String)
      → Dict.get sel.last_end_by_symbol s
        ≡ (if str_eq symbol s then some e else Dict.get o.cut_selector.last_end_by_symbol s)
  last_end s = rw f.selector (get-put o.cut_selector.last_end_by_symbol symbol s e)

  cut_symbol : c.symbol ≡ symbol
  cut_symbol = ap (λ d. d.symbol) f.cut

  exact_self :
      delivered symbol (after_cut o sel c).runs ≡ map (λ r. r.event) (covered sel o.buffer symbol)
  exact_self =
      rw
        (
          delivered-snoc symbol o.runs (record { cut = c; raw_events = events_of o c }),
          cut_symbol,
          str_refl symbol,
          v.exact symbol,
          (CutFrom-covered v.buffer f).3,
        )
        (sym (map-append _ _ _))

  exact_other :
      (s : String)
      → str_eq symbol s ≡ false
      → delivered s (after_cut o sel c).runs ≡ map (λ r. r.event) (covered sel o.buffer s)
  exact_other s q =
      rw
        (
          delivered-snoc s o.runs (record { cut = c; raw_events = events_of o c }),
          cut_symbol,
          q,
          last_end s,
          q,
          append-nil (delivered s o.runs),
        )
        (v.exact s)

  after_cut-Inv : e ≤ length o.buffer.records → Inv (after_cut o sel c)
  after_cut-Inv le = record {
    buffer = v.buffer;
    behind = λ s last g. ground (arith, last_end s, v.behind s last);
    exact = λ s. elim (Bool-cases (str_eq symbol s)) [
      | inl q ↦
          subst
            (λ t.
              delivered t (after_cut o sel c).runs ≡ map (λ r. r.event) (covered sel o.buffer t))
            ((eq_iff symbol s).0 q) exact_self
      | inr q ↦ exact_other s q
    ];
  }

pub collect-Inv :
    (o : Orchestrator) (symbol kind : String) (e : ℕ)
    → e ≤ length o.buffer.records
    → Inv o
    → Inv (or_skip o (collect o symbol e kind))
unfolding collect
collect-Inv o symbol kind e le v =
    elim (Result-cases (next_cut o.cut_selector o.buffer symbol e kind)) [
      | inl ((sel, c), q) ↦
          let f = next_cut-CutFrom o.cut_selector o.buffer symbol kind e q in
          rw (q, raw_events_for_cut-slice o c (CutFrom-covered v.buffer f).0)
            (after_cut-Inv o symbol kind e sel c v f le)
      | inr (x, q) ↦ rw q v
    ]

pub Step-Inv : {p q : Orchestrator} → Step p q → Inv p → Inv q
Step-Inv (ingest event now h) v = handle_raw_event-Inv event now v h
Step-Inv (cut symbol e kind h) v = collect-Inv _ symbol kind e h v
