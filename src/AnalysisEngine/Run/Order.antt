-- ===== src/AnalysisEngine/Run/Order.antt =====
-- The kinds of the artifacts of a run under src/consumers/analysis_engine/engine.py, against the
-- order of the stages.
use xray_vision.Base.{
  ◌≡◌, refl, ℕ, ◌≤◌, String, Option, none, some, List, [], ◌∷◌, ◌++◌, Bool, true, false, arith, inl,
  inr, Bool-cases, if◌then◌else◌, Result, ok, err, ◌>>=◌, ◌>>◌, Result-cases, All, All-imp,
  All-append,
}
use xray_vision.Base.Sorting.{sorted_by, sorted_by-All}
use xray_vision.Base.Values.{Value}
use xray_vision.StateGate.Contracts.{StateGateEvent}
use xray_vision.StateGate.Assembly.Once.{Pairwise}
use xray_vision.AnalysisEngine.Contracts.{
  ArtifactEmittedPayload, ArtifactKind, ModuleKind, signal, detector, rule, output,
  ModuleDefinition, ModuleResult, AnalysisModule, AnalysisError, ErrorKind, exception,
  missing_dependency,
}
use xray_vision.AnalysisEngine.Artifacts.{dependencies_available}
use xray_vision.AnalysisEngine.Registry.{ModuleRegistry}
use xray_vision.AnalysisEngine.Persistence.{ModuleStateStore}
use xray_vision.AnalysisEngine.Planning.{ExecutionPlan, kind_precedence, stage_order}
use xray_vision.AnalysisEngine.Run.{
  Run, fail_module, emit_artifact, emit_artifacts, is_kind, kind_index, expected_artifact_kind,
  validate_artifacts, execute_module, after_execute, run_module, run_steps, next_stages, run_stages,
  start_run, store_state,
}
use xray_vision.AnalysisEngine.Run.Closed.{run_steps-kept}
use xray_vision.AnalysisEngine.Run.Log.{emitted, append_nil, emitted-append}

abbrev pub IsOfStage : ℕ → ArtifactEmittedPayload → Type 0
IsOfStage n a = kind_index a.artifact_kind ≡ n

abbrev pub NotLater : ArtifactEmittedPayload → ArtifactEmittedPayload → Type 0
NotLater a b = kind_index a.artifact_kind ≤ kind_index b.artifact_kind

abbrev IsOrdered : ℕ → List ArtifactEmittedPayload → Type 0
IsOrdered n xs = Pairwise NotLater xs × All (λ a. kind_index a.artifact_kind ≤ n) xs

Pairwise-snoc :
    (xs : List ArtifactEmittedPayload) (b : ArtifactEmittedPayload)
    → Pairwise NotLater xs
    → All (λ a. NotLater a b) xs
    → Pairwise NotLater (xs ++ (b ∷ []))
Pairwise-snoc [] b p q = (tt, tt)
Pairwise-snoc (x ∷ xs) b p q =
    (All-append (NotLater x) xs (b ∷ []) p.0 (q.0, tt), Pairwise-snoc xs b p.1 q.1)

IsOrdered-snoc :
    (n : ℕ) (xs : List ArtifactEmittedPayload) (b : ArtifactEmittedPayload)
    → IsOfStage n b
    → IsOrdered n xs
    → IsOrdered n (xs ++ (b ∷ []))
IsOrdered-snoc n xs b h (p, q) = (
  Pairwise-snoc xs b p (All-imp xs (λ a le. omega (arith, h, le)) q),
  All-append (λ a. kind_index a.artifact_kind ≤ n) xs (b ∷ []) q (omega (arith, h), tt),
)

kind_lem :
    (stage : ModuleKind) (k : ArtifactKind)
    → is_kind k (expected_artifact_kind stage) ≡ true
    → kind_index k ≡ kind_precedence stage
kind_lem signal k h = ground arith
kind_lem detector k h = ground arith
kind_lem rule k h = ground arith
kind_lem output k h = ground arith

passed :
    (b : Bool) (r : Result String Unit) (x : String)
    → (if b then r else err x) ≡ ok tt
    → (b ≡ true) × (r ≡ ok tt)
passed true r x h = (refl, h)
passed false r x h = absurd cc

validated :
    (stage : ModuleKind) (xs : List ArtifactEmittedPayload) (id : String)
    → validate_artifacts stage xs id ≡ ok tt
    → All (IsOfStage (kind_precedence stage)) xs
unfolding validate_artifacts
validated stage [] id h = tt
validated stage (a ∷ xs) id h =
    let (b, rest) = passed (is_kind a.artifact_kind (expected_artifact_kind stage)) _ _ h in
    (kind_lem stage a.artifact_kind b, validated stage xs id rest)

-- The invariant within a stage.
abbrev IsAt : ℕ → Run → Type 0
IsAt n run = IsOrdered n (emitted run.events)

fail_module-IsAt :
    (n : ℕ) (e : StateGateEvent) (d : ModuleDefinition) (k : ErrorKind) (detail : String)
    (run : Run)
    → IsAt n run
    → IsAt n (fail_module e d k detail run)
unfolding fail_module emitted
fail_module-IsAt n e d k detail run p =
    rw (emitted-append run.events _, append_nil (emitted run.events)) p

emit_artifacts-IsAt :
    (n : ℕ) (e : StateGateEvent) (xs : List ArtifactEmittedPayload) (run : Run)
    → All (IsOfStage n) xs
    → IsAt n run
    → IsAt n (emit_artifacts e xs run)
unfolding emit_artifacts emit_artifact emitted
emit_artifacts-IsAt n e [] run h p = p
emit_artifacts-IsAt n e (a ∷ xs) run h p =
    emit_artifacts-IsAt n e xs (emit_artifact e a run) h.1
      (rw (emitted-append run.events _) (IsOrdered-snoc n (emitted run.events) a h.0 p))

store_state-IsAt :
    (n : ℕ) (e : StateGateEvent) (d : ModuleDefinition) (i : Option String) (v : Option Value)
    (run : Run)
    → IsAt n run
    → IsAt n (store_state e d i v run)
store_state-IsAt n e d none v run p = p
store_state-IsAt n e d (some i) none run p = p
store_state-IsAt n e d (some i) (some v) run p = p

module _ (e : StateGateEvent) (stage : ModuleKind) where
  checked-IsAt :
      (d : ModuleDefinition) (o : Result String ModuleResult) (run : Run)
      → IsAt (kind_precedence stage) run
      → IsAt (kind_precedence stage) (
          after_execute e d
            (o >>= λ r. validate_artifacts stage r.artifacts d.module_id >> ok r)
            run)
  unfolding after_execute
  checked-IsAt d (err detail) run p = fail_module-IsAt _ e d exception detail run p
  checked-IsAt d (ok r) run p =
      elim (Result-cases (validate_artifacts stage r.artifacts d.module_id)) [
        | inr (x, q) ↦ rw q (fail_module-IsAt _ e d exception x run p)
        | inl (u, q) ↦ rw q (
            store_state-IsAt _ e d d.state_schema_id r.state_payload _ (
              emit_artifacts-IsAt _ e (sorted_by (λ a. a.artifact_name) r.artifacts) run
                (sorted_by-All (λ a. a.artifact_name) (IsOfStage (kind_precedence stage))
                  r.artifacts (validated stage r.artifacts d.module_id q))
                p))
      ]

  run_module-IsAt :
      (m : AnalysisModule) (run : Run)
      → IsAt (kind_precedence stage) run
      → IsAt (kind_precedence stage) (run_module e stage m run)
  unfolding run_module execute_module
  run_module-IsAt m run p =
      elim (Bool-cases (dependencies_available run.artifact_store m.definition.dependencies)) [
        | inl b ↦ rw b (checked-IsAt m.definition _ run p)
        | inr b ↦ rw b (fail_module-IsAt _ e m.definition missing_dependency _ run p)
      ]

-- Stages in ascending order, from a place on.
abbrev From : ℕ → List ModuleKind → Type 0
From n [] = Unit
From n (s ∷ ss) = (n ≤ kind_precedence s) × From (kind_precedence s) ss

module _ (registry : ModuleRegistry) (e : StateGateEvent) (plan : ExecutionPlan) where
  abbrev IsInOrder : Run → Type 0
  IsInOrder run = Pairwise NotLater (emitted run.events)

  next-IsInOrder :
      (n : ℕ) (next : Run → Run × Option AnalysisError) (o : Run × Option AnalysisError)
      → ((r : Run) → IsAt n r → IsInOrder (next r).0)
      → IsAt n o.0
      → IsInOrder (next_stages registry e next o).0
  next-IsInOrder n next (run, none) f p = f run p
  next-IsInOrder n next (run, some error) f p = p.0

  stages-IsInOrder :
      (n : ℕ) (stages : List ModuleKind) (run : Run)
      → From n stages
      → IsAt n run
      → IsInOrder (run_stages registry e plan stages run).0
  unfolding run_stages
  stages-IsInOrder n [] run h p = p.0
  stages-IsInOrder n (s ∷ ss) run h p =
      next-IsInOrder (kind_precedence s) (run_stages registry e plan ss)
        (run_steps registry e s (plan.steps_by_stage s) run)
        (λ r. stages-IsInOrder (kind_precedence s) ss r h.1)
        (run_steps-kept registry e (IsAt (kind_precedence s)) s (plan.steps_by_stage s) run
          (run_module-IsAt e s)
          (p.0, All-imp (emitted run.events) (λ a le. omega (arith, le, h.0)) p.1))

  -- Whatever the modules return, the artifacts that a run emits are in the order of the stages: no
  -- signal after a detection, no detection after an evaluation, and no evaluation after an output.
  pub emitted-in_order :
      (records : ModuleStateStore)
      → Pairwise NotLater
          (emitted (run_stages registry e plan stage_order (start_run e records)).0.events)
  unfolding emitted
  emitted-in_order records =
      stages-IsInOrder 0 stage_order (start_run e records)
        (omega arith, (omega arith, (omega arith, (omega arith, tt)))) (tt, tt)
