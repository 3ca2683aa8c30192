-- ===== src/Runtime/Due/Failures.antt =====
-- Engine failures among the events that src/runtime/wiring.py has published.
use xray_vision.Base.{
  ◌≡◌, refl, ℕ, String, Option, none, some, List, [], ◌∷◌, ◌++◌, Bool, true, false, Result, ok, err,
  inl, inr, Bool-cases, Result-cases, Holds-ok, bind-Holds, any-Holds, str_eq, if◌then◌else◌, arith,
}
use xray_vision.MarketData.Contracts.{RawMarketEvent}
use xray_vision.Orchestrator.Errors.{Error}
use xray_vision.Orchestrator.Contracts.{
  OrchestratorEvent, Payload, run_failed, run_completed, hysteresis_payload, foreign,
  EngineRunRecord,
}
use xray_vision.Orchestrator.Cuts.{Cut, CutSelector}
use xray_vision.Orchestrator.Scheduler.{engine_timestamp_ms}
use xray_vision.Orchestrator.Sequencing.{Publisher, ensure_next, publish}
use xray_vision.Runtime.Publishing.{RunOutcome, snapshot_failed, untrusted, engine_failed, returned}
use xray_vision.Runtime.Due.{
  guard_hysteresis_monotonic, OrchestratorRuntime, Flow, goes_on, returns, raises, Services,
  publish_each, end_run, finish_run, with_raw, with_started, run_cut, or_continue, run_symbol,
  and_next, run_symbols, snapshot_outcome,
}

abbrev is_engine_failure : Option Payload → Bool
is_engine_failure none = false
is_engine_failure (some (run_failed kind detail)) = str_eq kind "engine_failure"
is_engine_failure (some (run_completed output)) = false
is_engine_failure (some (hysteresis_payload h)) = false
is_engine_failure (some (foreign v)) = false

-- One of the events reports that the engine has failed.
unfoldable pub has_engine_failure : List OrchestratorEvent → Bool
has_engine_failure [] = false
has_engine_failure (e ∷ es) = if is_engine_failure e.payload then true else has_engine_failure es

pub failure-left :
    (xs ys : List OrchestratorEvent)
    → has_engine_failure xs ≡ true
    → has_engine_failure (xs ++ ys) ≡ true
unfolding has_engine_failure
failure-left [] ys h = absurd cc
failure-left (x ∷ xs) ys h = ground (arith, failure-left xs ys)

pub failure-right :
    (xs ys : List OrchestratorEvent)
    → has_engine_failure ys ≡ true
    → has_engine_failure (xs ++ ys) ≡ true
unfolding has_engine_failure
failure-right [] ys h = h
failure-right (x ∷ xs) ys h = ground (arith, failure-right xs ys)

-- A call that succeeds adds its event to the sink.
pub sink-publish :
    (p : Publisher) (e : OrchestratorEvent) (q : Publisher)
    → publish p e ≡ ok q
    → q.sink ≡ p.sink ++ (e ∷ [])
unfolding publish
sink-publish p e q h =
    Holds-ok (λ x. x.sink ≡ p.sink ++ (e ∷ [])) (publish p e) q
      (bind-Holds (λ _. Unit {0}) (λ x. x.sink ≡ p.sink ++ (e ∷ []))
        (ensure_next p.sequencer e.symbol e.engine_timestamp_ms) _
        (any-Holds (ensure_next p.sequencer e.symbol e.engine_timestamp_ms)) (λ s _. refl))
      h

abbrev pub HasFailed : Publisher → Type 0
HasFailed p = has_engine_failure p.sink ≡ true

pub publish-HasFailed :
    (p : Publisher) (e : OrchestratorEvent) (q : Publisher)
    → publish p e ≡ ok q
    → HasFailed p
    → HasFailed q
publish-HasFailed p e q h f = rw (sink-publish p e q h) (failure-left p.sink (e ∷ []) f)

publish_each-HasFailed :
    (es : List OrchestratorEvent) (p : Publisher) → HasFailed p → HasFailed (publish_each p es).0
unfolding publish_each
publish_each-HasFailed [] p f = f
publish_each-HasFailed (e ∷ es) p f = elim (Result-cases (publish p e)) [
  | inl (q, h) ↦ rw (h, publish_each) (publish_each-HasFailed es q (publish-HasFailed p e q h f))
  | inr (x, h) ↦ rw (h, publish_each) f
]

module _ {S Snapshot : Type 0} (services : Services S Snapshot) where
  end_run-HasFailed :
      (o : OrchestratorRuntime S) (outcome : RunOutcome) (r : Publisher × Option Error)
      → HasFailed r.0
      → HasFailed (end_run services o outcome r).0.publisher
  end_run-HasFailed o (snapshot_failed d) (p, none) f = f
  end_run-HasFailed o untrusted (p, none) f = f
  end_run-HasFailed o (engine_failed d) (p, none) f = f
  end_run-HasFailed o (returned x h) (p, none) f = f
  end_run-HasFailed o (snapshot_failed d) (p, some x) f = f
  end_run-HasFailed o untrusted (p, some x) f = f
  end_run-HasFailed o (engine_failed d) (p, some x) f = f
  end_run-HasFailed o (returned y h) (p, some x) f = f

  with_raw-HasFailed :
      (o : OrchestratorRuntime S) (r : EngineRunRecord) (raw : Result Error (List RawMarketEvent))
      → HasFailed o.publisher
      → HasFailed (with_raw services o r raw).0.publisher
  unfolding finish_run
  with_raw-HasFailed o r (err x) f = f
  with_raw-HasFailed o r (ok raw) f =
      let (s, outcome) =
        snapshot_outcome services o.engine
          (services.build_snapshot raw r.symbol r.engine_timestamp_ms) in
      end_run-HasFailed (record o { engine = s }) outcome _ (publish_each-HasFailed _ o.publisher f)

  with_started-HasFailed :
      (o : OrchestratorRuntime S) (r : EngineRunRecord) (e : OrchestratorEvent)
      (p : Result Error Publisher)
      → publish o.publisher e ≡ p
      → HasFailed o.publisher
      → HasFailed (with_started services o r p).0.publisher
  with_started-HasFailed o r e (err x) q f = f
  with_started-HasFailed o r e (ok p) q f =
      with_raw-HasFailed (record o { publisher = p }) r _ (publish-HasFailed o.publisher e p q f)

  pub or_continue-HasFailed :
      (o : OrchestratorRuntime S) (planned now : ℕ) (c : Result Error (CutSelector × Cut))
      → HasFailed o.publisher
      → HasFailed (or_continue services o planned now c).0.publisher
  unfolding run_cut
  or_continue-HasFailed o planned now (err x) f = f
  or_continue-HasFailed o planned now (ok (sel, c)) f = with_started-HasFailed _ _ _ _ refl f

  pub run_symbol-HasFailed :
      (o : OrchestratorRuntime S) (latest planned now : ℕ) (symbol : String)
      → HasFailed o.publisher
      → HasFailed (run_symbol services o latest planned now symbol).0.publisher
  unfolding run_symbol
  run_symbol-HasFailed o latest planned now symbol f =
      elim (Bool-cases (
        guard_hysteresis_monotonic services o symbol
          (engine_timestamp_ms o.scheduler_config planned))) [
            | inl b ↦ rw b f
            | inr b ↦ rw b (or_continue-HasFailed o planned now _ f)
          ]

  next-HasFailed :
      (next : OrchestratorRuntime S → OrchestratorRuntime S × Flow)
      (r : OrchestratorRuntime S × Flow)
      → ((o : OrchestratorRuntime S) → HasFailed o.publisher → HasFailed (next o).0.publisher)
      → HasFailed r.0.publisher
      → HasFailed (and_next services next r).0.publisher
  next-HasFailed next (o, goes_on) g f = g o f
  next-HasFailed next (o, returns) g f = f
  next-HasFailed next (o, raises x) g f = f

  pub run_symbols-HasFailed :
      (ks : List String) (o : OrchestratorRuntime S) (latest planned : ℕ) (clock : String → ℕ)
      → HasFailed o.publisher
      → HasFailed (run_symbols services o latest planned clock ks).0.publisher
  unfolding run_symbols
  run_symbols-HasFailed [] o latest planned clock f = f
  run_symbols-HasFailed (k ∷ ks) o latest planned clock f =
      next-HasFailed (λ q. run_symbols services q latest planned clock ks)
        (run_symbol services o latest planned (clock k) k)
        (λ q g. run_symbols-HasFailed ks q latest planned clock g)
        (run_symbol-HasFailed o latest planned (clock k) k f)
