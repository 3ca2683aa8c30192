-- ===== src/Runtime/Delivery/Complete.antt =====
-- What the runs of src/runtime/wiring.py are given.
use xray_vision.Base.{
  ℕ, ◌≤◌, ◌≡◌, refl, ap, ◌∙◌, String, some, map, ok, arith, length, keep, Result-cases, inl, inr,
}
use xray_vision.Base.Dict
use xray_vision.Orchestrator.Buffer.{RawInputBuffer, create, has_symbol}
use xray_vision.Orchestrator.Buffer.Numbering.{create-IsValid, last_ingest_seq-length, keep_all}
use xray_vision.Orchestrator.Cuts.{next_cut, latest_ingest_seq}
use xray_vision.Orchestrator.Cuts.Coverage.{slice, covered, next_cut-CutFrom, CutFrom-covered}
use xray_vision.Orchestrator.Cuts.Refusal.{next_cut_refused}
use xray_vision.Runtime.{Orchestrator, started, collect, or_skip, Reach, here, next, delivered}
use xray_vision.Runtime.Delivery.{Inv, Step-Inv, collect-Inv, raw_events_for_cut-slice}

started-Inv : (n : ℕ) (b : RawInputBuffer) → create n ≡ ok b → Inv (started b)
unfolding delivered
started-Inv n b h = record {
  buffer = create-IsValid n b h;
  behind = λ symbol last e. unfold Dict.get in absurd (cc e);
  exact = λ symbol. unfold Dict.get in refl;
}

Reach-Inv : {o p : Orchestrator} → Inv o → Reach o p → Inv p
Reach-Inv v here = v
Reach-Inv v (next r s) = Step-Inv s (Reach-Inv v r)

-- However the ingesting and the cutting thread interleave from a new buffer, what the runs of a
-- symbol were given is exactly the events of the symbol up to the end of its last cut, each once
-- and in the order of ingestion.
pub delivered_once :
    (n : ℕ) (b : RawInputBuffer) (o : Orchestrator) (symbol : String)
    → create n ≡ ok b
    → Reach (started b) o
    → delivered symbol o.runs ≡ map (λ r. r.event) (covered o.cut_selector o.buffer symbol)
delivered_once n b o symbol h r = (Reach-Inv (started-Inv n b h) r).exact symbol

slice_all :
    (o : Orchestrator) (symbol : String)
    → Inv o
    → slice o.buffer symbol 1 (length o.buffer.records) ≡ keep (has_symbol symbol) o.buffer.records
slice_all o symbol v = ap (keep (has_symbol symbol)) (
    keep_all 1 o.buffer.records (length o.buffer.records) v.buffer.numbered (omega arith)
      (omega arith))

collect-covers :
    (o : Orchestrator) (symbol kind : String)
    → Inv o
    → 1 ≤ length o.buffer.records
    → let p = or_skip o (collect o symbol (length o.buffer.records) kind) in
      covered p.cut_selector p.buffer symbol ≡ keep (has_symbol symbol) o.buffer.records
unfolding collect
collect-covers o symbol kind v pos =
    elim (Result-cases (next_cut o.cut_selector o.buffer symbol (length o.buffer.records) kind)) [
      | inl ((sel, c), q) ↦
          let f =
            next_cut-CutFrom o.cut_selector o.buffer symbol kind (length o.buffer.records) q in
          rw
            (
              q,
              raw_events_for_cut-slice o c (CutFrom-covered v.buffer f).0,
              (CutFrom-covered v.buffer f).2,
            )
            (slice_all o symbol v)
      | inr (x, q) ↦ rw q (
          next_cut_refused o.cut_selector o.buffer symbol kind (length o.buffer.records)
            v.buffer.numbered pos (v.behind symbol) q
          ∙ slice_all o symbol v)
    ]

-- However the ingesting and the cutting thread interleave from a new buffer: once a run of the
-- symbol has been cut at the latest number, the runs of the symbol have been given every event of
-- the symbol that is in the buffer, each once and in order. This holds whether that cut succeeds
-- or is skipped.
pub delivered_all :
    (n : ℕ) (b : RawInputBuffer) (o : Orchestrator) (symbol kind : String) (latest : ℕ)
    → create n ≡ ok b
    → Reach (started b) o
    → latest_ingest_seq o.buffer ≡ some latest
    → delivered symbol (or_skip o (collect o symbol latest kind)).runs
      ≡ map (λ r. r.event) (keep (has_symbol symbol) o.buffer.records)
unfolding latest_ingest_seq
delivered_all n b o symbol kind latest h r l =
    let v = Reach-Inv (started-Inv n b h) r in
    elim (last_ingest_seq-length o.buffer v.buffer) [
      | inl (e, _) ↦ absurd (cc (l, e))
      | inr (e, pos) ↦
          let same : latest ≡ length o.buffer.records = ground arith in
          rw same (
            (collect-Inv o symbol kind (length o.buffer.records) (omega arith) v).exact symbol
            ∙ ap (map (λ r. r.event)) (collect-covers o symbol kind v pos))
    ]
