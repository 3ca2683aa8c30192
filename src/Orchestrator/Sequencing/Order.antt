-- ===== src/Orchestrator/Sequencing/Order.antt =====
-- The order in which src/orchestrator/publisher.py writes to its sink.
use xray_vision.Base.{
  sym, Bool-cases, Result-cases, inl, inr, str_refl, ℕ, ◌≤◌, ◌≡◌, String, some, List, [], ◌∷◌, ◌++◌,
  ok, arith, str_eq, eq_iff, All, All-append, All-imp, if◌then◌else◌,
}
use xray_vision.Base.Dict
use xray_vision.Base.Dict.{get-put}
use xray_vision.Orchestrator.Contracts.{OrchestratorEvent}
use xray_vision.Orchestrator.Sequencing.{
  Publisher, SymbolSequencer, empty_sequencer, ensure_next, publish, publish_all,
}

-- `f` does not go back behind `e`, if they are of one symbol.
abbrev pub NotBefore : OrchestratorEvent → OrchestratorEvent → Type 0
NotBefore e f = e.symbol ≡ f.symbol → e.engine_timestamp_ms ≤ f.engine_timestamp_ms

abbrev pub InOrder : List OrchestratorEvent → Type 0
InOrder [] = Unit {0}
InOrder (e ∷ es) = All (NotBefore e) es × InOrder es

-- The sequencer holds at least the timestamp of the event.
abbrev Reached : SymbolSequencer → OrchestratorEvent → Type 0
Reached s e =
    (l : ℕ) × (Dict.get s.last_timestamp_by_symbol e.symbol ≡ some l) × (e.engine_timestamp_ms ≤ l)

record Inv (p : Publisher) : Type 0 where
  ordered : InOrder p.sink
  reached : All (Reached p.sequencer) p.sink

InOrder-snoc :
    (es : List OrchestratorEvent) (f : OrchestratorEvent)
    → All (λ e. NotBefore e f) es
    → InOrder es
    → InOrder (es ++ f ∷ [])
InOrder-snoc [] f h o = (tt, tt)
InOrder-snoc (e ∷ es) f h o =
    (All-append (NotBefore e) es (f ∷ []) o.0 (h.0, tt), InOrder-snoc es f h.1 o.1)

module _ (s s' : SymbolSequencer) (f : OrchestratorEvent)
    (h : ensure_next s f.symbol f.engine_timestamp_ms ≡ ok s') where
  NotBefore-of_Reached : (e : OrchestratorEvent) → Reached s e → NotBefore e f
  unfolding ensure_next
  NotBefore-of_Reached e (l, g, le) = λ same.
      let g' : Dict.get s.last_timestamp_by_symbol f.symbol ≡ some l = rw (← same) g in ground arith

  last_timestamp :
      (j : String)
      → Dict.get s'.last_timestamp_by_symbol j ≡ (
          if str_eq f.symbol j
          then some f.engine_timestamp_ms
          else Dict.get s.last_timestamp_by_symbol j)
  unfolding ensure_next
  last_timestamp j =
      ground (arith, get-put s.last_timestamp_by_symbol f.symbol j f.engine_timestamp_ms)

  Reached-self : Reached s' f
  Reached-self = (
    f.engine_timestamp_ms,
    ground (arith, last_timestamp f.symbol, str_refl f.symbol),
    omega arith,
  )

  Reached-keeps : (e : OrchestratorEvent) → Reached s e → Reached s' e
  Reached-keeps e (l, g, le) = elim (Bool-cases (str_eq f.symbol e.symbol)) [
    | inl q ↦ (
      f.engine_timestamp_ms,
      ground (arith, last_timestamp e.symbol),
      NotBefore-of_Reached e (l, g, le) (sym ((eq_iff f.symbol e.symbol).0 q)),
    )
    | inr q ↦ (l, ground (arith, last_timestamp e.symbol), le)
  ]

published-Inv :
    (p : Publisher) (s : SymbolSequencer) (f : OrchestratorEvent)
    → ensure_next p.sequencer f.symbol f.engine_timestamp_ms ≡ ok s
    → Inv p
    → Inv (record { sink = p.sink ++ f ∷ []; sequencer = s })
published-Inv p s f h v = record {
  ordered =
      InOrder-snoc p.sink f (All-imp p.sink (NotBefore-of_Reached p.sequencer s f h) v.reached)
        v.ordered;
  reached =
      All-append (Reached s) p.sink (f ∷ [])
        (All-imp p.sink (Reached-keeps p.sequencer s f h) v.reached)
        (Reached-self p.sequencer s f h, tt);
}

publish-Inv : (p q : Publisher) (f : OrchestratorEvent) → publish p f ≡ ok q → Inv p → Inv q
unfolding publish
publish-Inv p q f h v =
    elim (Result-cases (ensure_next p.sequencer f.symbol f.engine_timestamp_ms)) [
      | inl (s, e) ↦
          let same : q ≡ record { sink = p.sink ++ f ∷ []; sequencer = s } = ground arith in
          rw same (published-Inv p s f e v)
      | inr (x, e) ↦ absurd (ground arith)
    ]

publish_all-Inv : (p : Publisher) (es : List OrchestratorEvent) → Inv p → Inv (publish_all p es)
unfolding publish_all
publish_all-Inv p [] v = v
publish_all-Inv p (f ∷ es) v = elim (Result-cases (publish p f)) [
  | inl (q, e) ↦ rw (e, publish_all) (publish_all-Inv q es (publish-Inv p q f e v))
  | inr (x, e) ↦ rw (e, publish_all) (publish_all-Inv p es v)
]

-- Whatever is published from an empty publisher on, also after calls that raise, the events of one
-- symbol reach the sink in the order of their engine timestamps.
pub publish_all-InOrder :
    (es : List OrchestratorEvent)
    → InOrder (publish_all (record { sink = []; sequencer = empty_sequencer }) es).sink
publish_all-InOrder es =
    (publish_all-Inv (record { sink = []; sequencer = empty_sequencer }) es
      (record { ordered = tt; reached = tt })).ordered
