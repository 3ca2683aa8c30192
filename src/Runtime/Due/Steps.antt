-- ===== src/Runtime/Due/Steps.antt =====
-- One tick of src/runtime/wiring.py, and the replay of the run log after it.
use mathlib.Core.Path.{subst}
use xray_vision.Base.{
  ◌≡◌, ◌≢◌, refl, sym, ap, ◌∙◌, ℕ, ◌<◌, String, List, [], ◌∷◌, Result, ok, err, inl, inr,
  Bool-cases, ◌>>=◌, ◌⊎◌, All, All-append, arith, length,
}
use xray_vision.Base.Sorting.{sorted_by}
use xray_vision.Orchestrator.Errors.{Error}
use xray_vision.Orchestrator.Contracts.{EngineMode}
use xray_vision.Orchestrator.Cuts.{Cut, CutSelector, next_cut, latest_ingest_seq}
use xray_vision.Orchestrator.Buffer.Numbering.{IsValid, last_ingest_seq-length}
use xray_vision.Orchestrator.Cuts.Coverage.{next_cut-CutFrom}
use xray_vision.Orchestrator.Publisher.{build_engine_run_started}
use xray_vision.Orchestrator.Scheduler.{engine_timestamp_ms}
use xray_vision.Orchestrator.Sequencing.{Publisher, publish}
use xray_vision.Orchestrator.RunLog.{append}
use xray_vision.Orchestrator.Replay.{Replayed, fields_of, replay_record, replay_events}
use xray_vision.Runtime.Due.{
  OrchestratorRuntime, Flow, goes_on, returns, raises, Services, cut_kind_of, cut_kind_text,
  run_cut, or_continue, run_symbol, and_next, run_symbols, run_record_of,
  guard_hysteresis_monotonic, run_due,
}
use xray_vision.Runtime.Due.Failures.{HasFailed, or_continue-HasFailed}
use xray_vision.Runtime.Due.Replayed.{IsFit, callable, started-Follows}
use xray_vision.Runtime.Due.Frame.{with_started-SameFrame, replay_from-append}

stopped : returns ≢ goes_on
stopped h = cc

raised : (x : Error) → raises x ≢ goes_on
raised x h = cc

module _ {S Snapshot : Type 0} (services : Services S Snapshot) (initial : S) where
  abbrev replayed_to : Publisher → S → Replayed S
  replayed_to p s = record { engine = s; published = p }

  -- The replay of the log comes to the publisher and the engine of the runtime.
  abbrev pub IsReplayed : OrchestratorRuntime S → Type 0
  IsReplayed o =
      replay_events services.build_snapshot (callable services) o.buffer initial o.run_log
      ≡ ok (replayed_to o.publisher o.engine)

  abbrev pub IsGood : EngineMode → OrchestratorRuntime S → Type 0
  IsGood mode o = (o.engine_mode ≡ mode) × (IsReplayed o ⊎ HasFailed o.publisher)

  module _ (mode : EngineMode)
      (fit : (s : S) (x : Snapshot) → IsFit mode (services.run_engine s x).1) where
    cut-IsReplayed :
        (o : OrchestratorRuntime S) (c : Cut) (planned now : ℕ)
        → o.engine_mode ≡ mode
        → IsReplayed o
        → (run_cut services o (run_record_of services o c planned now)).1 ≡ goes_on
        → IsReplayed (run_cut services o (run_record_of services o c planned now)).0
          ⊎ HasFailed (run_cut services o (run_record_of services o c planned now)).0.publisher
    unfolding run_cut run_record_of replay_events replay_record append
    cut-IsReplayed o c planned now m h g =
        let r = run_record_of services o c planned now in
        let o' = record o { run_log = append o.run_log r } in
        let p = publish o.publisher (build_engine_run_started (fields_of r) r.engine_mode) in
        let (b, l, _) = with_started-SameFrame services o' r p in
        elim (started-Follows services o' r p
          (λ y. subst (λ k. IsFit k (services.run_engine o.engine y).1) (sym m) (fit o.engine y))
          g) [
            | inr f ↦ inr f
            | inl e ↦ inl (
                ap
                  (λ k.
                    replay_events services.build_snapshot (callable services) k initial
                      (run_cut services o r).0.run_log)
                  b
                ∙ ap
                    (λ k.
                      replay_events services.build_snapshot (callable services) o.buffer initial k)
                    l
                ∙ replay_from-append services o.buffer o.run_log _ r
                ∙ ap
                    (λ z. z >>= λ y.
                      replay_record services.build_snapshot (callable services) o.buffer y r)
                    h
                ∙ e)
          ]

    continue-IsGood :
        (o : OrchestratorRuntime S) (planned now : ℕ) (c : Result Error (CutSelector × Cut))
        → o.engine_mode ≡ mode
        → IsReplayed o
        → (or_continue services o planned now c).1 ≡ goes_on
        → IsReplayed (or_continue services o planned now c).0
          ⊎ HasFailed (or_continue services o planned now c).0.publisher
    continue-IsGood o planned now (err x) m h g = inl h
    continue-IsGood o planned now (ok (sel, c)) m h g =
        cut-IsReplayed (record o { cut_selector = sel }) c planned now m h g

    -- The runtime keeps its mode and a valid buffer, its log names records that are there, and its
    -- replay has come to its state, unless the engine has failed.
    abbrev pub IsSession : OrchestratorRuntime S → Type 0
    IsSession o =
        (o.engine_mode ≡ mode)
        × IsValid o.buffer
        × All (λ r. r.cut_end_ingest_seq < o.buffer.next_seq) o.run_log
        × (IsReplayed o ⊎ HasFailed o.publisher)

    -- A part of `_run_due` that goes on.
    abbrev pub Continues : OrchestratorRuntime S → OrchestratorRuntime S × Flow → Type 0
    Continues o x = x.1 ≡ goes_on → IsSession x.0 × (x.0.buffer ≡ o.buffer)

    continue-IsSession :
        (o : OrchestratorRuntime S) (symbol kind : String) (latest planned now : ℕ)
        (x : Result Error (CutSelector × Cut))
        → next_cut o.cut_selector o.buffer symbol latest kind ≡ x
        → latest < o.buffer.next_seq
        → IsSession o
        → Continues o (or_continue services o planned now x)
    unfolding run_cut append run_record_of
    continue-IsSession o symbol kind latest planned now (err y) q lt v g = (v, refl)
    continue-IsSession o symbol kind latest planned now (ok (sel, c)) q lt (m, valid, below, good)
          g =
        let f = next_cut-CutFrom o.cut_selector o.buffer symbol kind latest q in
        let o' = record o { cut_selector = sel } in
        let r = run_record_of services o' c planned now in
        let end = run_cut services o' r in
        let (b, l, k) =
          with_started-SameFrame services (record o' { run_log = append o.run_log r }) r
            (publish o.publisher (build_engine_run_started (fields_of r) r.engine_mode)) in
        let grown : All (λ y. y.cut_end_ingest_seq < o.buffer.next_seq) end.0.run_log =
          subst (λ log. All (λ y. y.cut_end_ingest_seq < o.buffer.next_seq) log) (sym l)
            (All-append _ o.run_log _ below
              (omega (arith, lt, ap (λ z. z.cut_end_ingest_seq) f.cut), tt)) in
        (
          (
            k ∙ m,
            subst IsValid (sym b) valid,
            subst (λ u. All (λ y. y.cut_end_ingest_seq < u.next_seq) end.0.run_log) (sym b) grown,
            elim good [
              | inr h ↦ inr (or_continue-HasFailed services o planned now (ok (sel, c)) h)
              | inl h ↦ continue-IsGood o planned now (ok (sel, c)) m h g
            ],
          ),
          b,
        )

    run_symbol-IsSession :
        (o : OrchestratorRuntime S) (latest planned now : ℕ) (symbol : String)
        → latest < o.buffer.next_seq
        → IsSession o
        → Continues o (run_symbol services o latest planned now symbol)
    unfolding run_symbol
    run_symbol-IsSession o latest planned now symbol lt v =
        elim (Bool-cases (
          guard_hysteresis_monotonic services o symbol
            (engine_timestamp_ms o.scheduler_config planned))) [
              | inl b ↦ rw b (λ g. absurd (stopped g))
              | inr b ↦ rw b (
                  continue-IsSession o symbol (cut_kind_text (cut_kind_of o.scheduler_config))
                    latest planned now _ refl lt v)
            ]

    next-Continues :
        (o : OrchestratorRuntime S) (next : OrchestratorRuntime S → OrchestratorRuntime S × Flow)
        (x : OrchestratorRuntime S × Flow)
        → Continues o x
        → ((q : OrchestratorRuntime S) → IsSession q → q.buffer ≡ o.buffer → Continues q (next q))
        → Continues o (and_next services next x)
    next-Continues o next (q, goes_on) h f =
        λ g. let (v, b) = h refl in let (v', b') = f q v b g in (v', b' ∙ b)
    next-Continues o next (q, returns) h f = λ g. absurd (stopped g)
    next-Continues o next (q, raises x) h f = λ g. absurd (raised x g)

    run_symbols-IsSession :
        (ks : List String) (o : OrchestratorRuntime S) (latest planned : ℕ) (clock : String → ℕ)
        → latest < o.buffer.next_seq
        → IsSession o
        → Continues o (run_symbols services o latest planned clock ks)
    unfolding run_symbols
    run_symbols-IsSession [] o latest planned clock lt v = λ _. (v, refl)
    run_symbols-IsSession (k ∷ ks) o latest planned clock lt v =
        next-Continues o (λ q. run_symbols services q latest planned clock ks)
          (run_symbol services o latest planned (clock k) k)
          (run_symbol-IsSession o latest planned (clock k) k lt v)
          (λ q w b.
            run_symbols-IsSession ks q latest planned clock
              (subst (λ u. latest < u.next_seq) (sym b) lt) w)

    pub run_due-IsSession :
        (o : OrchestratorRuntime S) (planned : ℕ) (clock : String → ℕ)
        → IsSession o
        → Continues o (run_due services o planned clock)
    unfolding run_due latest_ingest_seq
    run_due-IsSession o planned clock (m, valid, below, good) =
        elim (last_ingest_seq-length o.buffer valid) [
          | inl (q, _) ↦ rw q (λ _. ((m, valid, below, good), refl))
          | inr (q, _) ↦ rw q (
              run_symbols-IsSession (sorted_by (λ k. k) o.symbols) o (length o.buffer.records)
                planned clock (omega (arith, valid.next)) (m, valid, below, good))
        ]
