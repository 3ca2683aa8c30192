-- ===== src/AnalysisEngine/Run/Log.antt =====
-- What the events of a run under src/consumers/analysis_engine/engine.py say, as an observer reads
-- them: the ids of the modules that failed, and the artifacts in order.
use xray_vision.Base.{
  ◌≡◌, refl, sym, ap, keep-append, ◌∙◌, String, Option, none, some, List, [], ◌∷◌, ◌++◌, Bool,
  last?, keep, inl, inr, Bool-cases, if◌then◌else◌,
}
use xray_vision.AnalysisEngine.Contracts.{
  AnalysisEngineEvent, AnalysisEnginePayload, artifact_payload, failure_payload, status_payload,
  ArtifactEmittedPayload, ModuleKind,
}
use xray_vision.AnalysisEngine.Artifacts
use xray_vision.AnalysisEngine.Artifacts.{same_key, get-put}
use xray_vision.StateGate.Contracts.{StateGateEvent}
use xray_vision.AnalysisEngine.Registry.{ModuleRegistry}
use xray_vision.AnalysisEngine.Persistence.{ModuleStateStore}
use xray_vision.AnalysisEngine.Planning.{ExecutionPlan}
use xray_vision.AnalysisEngine.Run.{Run, fail_module, emit_artifact, start_run, run_stages}
use xray_vision.AnalysisEngine.Run.Closed.{IsClosed, run_module-closed, run_stages-kept}

abbrev add_failed : Option AnalysisEnginePayload → List String → List String
add_failed none ids = ids
add_failed (some (artifact_payload a)) ids = ids
add_failed (some (failure_payload p)) ids = p.module_id ∷ ids
add_failed (some (status_payload s)) ids = ids

unfoldable pub failed_ids : List AnalysisEngineEvent → List String
failed_ids [] = []
failed_ids (x ∷ xs) = add_failed x.payload (failed_ids xs)

abbrev add_artifact :
    Option AnalysisEnginePayload → List ArtifactEmittedPayload → List ArtifactEmittedPayload
add_artifact none xs = xs
add_artifact (some (artifact_payload a)) xs = a ∷ xs
add_artifact (some (failure_payload p)) xs = xs
add_artifact (some (status_payload s)) xs = xs

unfoldable pub emitted : List AnalysisEngineEvent → List ArtifactEmittedPayload
emitted [] = []
emitted (x ∷ xs) = add_artifact x.payload (emitted xs)

add_failed-append :
    (p : Option AnalysisEnginePayload) (xs ys : List String)
    → add_failed p (xs ++ ys) ≡ add_failed p xs ++ ys
add_failed-append none xs ys = refl
add_failed-append (some (artifact_payload a)) xs ys = refl
add_failed-append (some (failure_payload a)) xs ys = refl
add_failed-append (some (status_payload a)) xs ys = refl

pub failed_ids-append :
    (xs ys : List AnalysisEngineEvent) → failed_ids (xs ++ ys) ≡ failed_ids xs ++ failed_ids ys
unfolding failed_ids
failed_ids-append [] ys = refl
failed_ids-append (x ∷ xs) ys =
    rw (failed_ids-append xs ys) (add_failed-append x.payload (failed_ids xs) (failed_ids ys))

add_artifact-append :
    (p : Option AnalysisEnginePayload) (xs ys : List ArtifactEmittedPayload)
    → add_artifact p (xs ++ ys) ≡ add_artifact p xs ++ ys
add_artifact-append none xs ys = refl
add_artifact-append (some (artifact_payload a)) xs ys = refl
add_artifact-append (some (failure_payload a)) xs ys = refl
add_artifact-append (some (status_payload a)) xs ys = refl

pub emitted-append :
    (xs ys : List AnalysisEngineEvent) → emitted (xs ++ ys) ≡ emitted xs ++ emitted ys
unfolding emitted
emitted-append [] ys = refl
emitted-append (x ∷ xs) ys =
    rw (emitted-append xs ys) (add_artifact-append x.payload (emitted xs) (emitted ys))

-- The last artifact of the module and the name among the events.
unfoldable pub last_emitted :
    List AnalysisEngineEvent → String → String → Option ArtifactEmittedPayload
last_emitted events m n =
    last? (keep (λ a. same_key (a.module_id, a.artifact_name) m n) (emitted events))

pub append_nil : {A : Type 0} (xs : List A) → xs ++ [] ≡ xs
append_nil [] = refl
append_nil (x ∷ xs) = ap (λ ys. x ∷ ys) (append_nil xs)

last?-snoc : {A : Type 0} (xs : List A) (x : A) → last? (xs ++ (x ∷ [])) ≡ some x
last?-snoc [] x = refl
last?-snoc (y ∷ []) x = refl
last?-snoc (y ∷ z ∷ xs) x = last?-snoc (z ∷ xs) x

last?-keep_snoc :
    {A : Type 0} (p : A → Bool) (xs : List A) (x : A)
    → last? (keep p (xs ++ (x ∷ []))) ≡ (if p x then some x else last? (keep p xs))
unfolding keep
last?-keep_snoc p xs x = elim (Bool-cases (p x)) [
  | inl b ↦ rw (keep-append p xs (x ∷ []), b) (last?-snoc (keep p xs) x)
  | inr b ↦ rw (keep-append p xs (x ∷ []), b) (ap last? (append_nil (keep p xs)))
]

last_emitted-other :
    (xs : List AnalysisEngineEvent) (x : AnalysisEngineEvent) (m n : String)
    → emitted (x ∷ []) ≡ []
    → last_emitted (xs ++ (x ∷ [])) m n ≡ last_emitted xs m n
unfolding last_emitted
last_emitted-other xs x m n h =
    ap (λ ys. last? (keep (λ a. same_key (a.module_id, a.artifact_name) m n) ys))
      (emitted-append xs (x ∷ []) ∙ ap (λ ys. emitted xs ++ ys) h ∙ append_nil (emitted xs))

last_emitted-artifact :
    (xs : List AnalysisEngineEvent) (x : AnalysisEngineEvent) (a : ArtifactEmittedPayload)
    (m n : String)
    → emitted (x ∷ []) ≡ a ∷ []
    → last_emitted (xs ++ (x ∷ [])) m n
      ≡ (if same_key (a.module_id, a.artifact_name) m n then some a else last_emitted xs m n)
unfolding last_emitted
last_emitted-artifact xs x a m n h =
    rw (emitted-append xs (x ∷ []), h)
      (last?-keep_snoc (λ b. same_key (b.module_id, b.artifact_name) m n) (emitted xs) a)

-- The store holds what the log of the run says.
abbrev pub IsLogged : Run → Type 0
IsLogged run = (m n : String) → Artifacts.get run.artifact_store m n ≡ last_emitted run.events m n

IsLogged-closed : (e : StateGateEvent) → IsClosed e IsLogged
unfolding fail_module emit_artifact Artifacts.add emitted
IsLogged-closed e = record {
  on_fail = λ d kind detail run p m n. p m n ∙ sym (last_emitted-other run.events _ m n refl);
  on_emit = λ a run p m n.
      rw (get-put run.artifact_store a.module_id a.artifact_name m n a, p m n)
        (sym (last_emitted-artifact run.events _ a m n refl));
  on_store = λ s run p. p;
}

-- After any stages of any plan, the artifact store, from which the dependencies of the modules are
-- taken, answers each lookup as a search of the events of the run does: with the last artifact
-- emitted under that module and name.
pub run_stages-IsLogged :
    (registry : ModuleRegistry) (e : StateGateEvent) (plan : ExecutionPlan)
    (stages : List ModuleKind) (records : ModuleStateStore)
    → IsLogged (run_stages registry e plan stages (start_run e records)).0
unfolding last_emitted emitted Artifacts.get keep
run_stages-IsLogged registry e plan stages records =
    run_stages-kept registry e IsLogged (run_module-closed e IsLogged (IsLogged-closed e)) plan
      stages (start_run e records) (λ m n. refl)
