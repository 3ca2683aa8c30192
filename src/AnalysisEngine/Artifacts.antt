-- ===== src/AnalysisEngine/Artifacts.antt =====
-- src/consumers/analysis_engine/artifacts.py: the artifacts of a run, by the module and the name.
use Prim.Native.String.{◌++◌ as append_str}
use xray_vision.Base.{
  ◌≡◌, refl, String, Option, none, some, List, [], ◌∷◌, Bool, true, ◌&&◌, str_eq, eq_iff, arith,
  if◌then◌else◌, is_some,
}
use xray_vision.Base.Dict
use xray_vision.Base.Dict.{Dict}
use xray_vision.AnalysisEngine.Contracts.{ArtifactEmittedPayload, ModuleDependency}

abbrev pub ArtifactStore : Type 0
ArtifactStore = List ((String × String) × ArtifactEmittedPayload)

unfoldable pub same_key : String × String → String → String → Bool
same_key (m, n) module_id artifact_name = str_eq m module_id && str_eq n artifact_name

unfoldable pub get : ArtifactStore → String → String → Option ArtifactEmittedPayload
get [] m n = none
get ((k, a) ∷ s) m n = if same_key k m n then some a else get s m n

unfoldable pub put : ArtifactStore → String → String → ArtifactEmittedPayload → ArtifactStore
put [] m n a = ((m, n), a) ∷ []
put ((k, b) ∷ s) m n a = if same_key k m n then (k, a) ∷ s else (k, b) ∷ put s m n a

unfoldable pub add : ArtifactStore → ArtifactEmittedPayload → ArtifactStore
add s a = put s a.module_id a.artifact_name a

unfoldable pub dependencies_available : ArtifactStore → List ModuleDependency → Bool
dependencies_available s [] = true
dependencies_available s (d ∷ ds) =
    is_some (get s d.module_id d.artifact_name) && dependencies_available s ds

abbrev pub dependency_key : ModuleDependency → String
dependency_key d = append_str d.module_id (append_str ":" d.artifact_name)

abbrev put_available :
    Dict ArtifactEmittedPayload
    → String
    → Option ArtifactEmittedPayload
    → Dict ArtifactEmittedPayload
put_available available k none = available
put_available available k (some a) = Dict.put available k a

abbrev payloads_from :
    ArtifactStore
    → Dict ArtifactEmittedPayload
    → List ModuleDependency
    → Dict ArtifactEmittedPayload
payloads_from s available [] = available
payloads_from s available (d ∷ ds) =
    payloads_from s (put_available available (dependency_key d) (get s d.module_id d.artifact_name))
      ds

unfoldable pub dependency_payloads :
    ArtifactStore → List ModuleDependency → Dict ArtifactEmittedPayload
dependency_payloads s ds = payloads_from s [] ds

pub get-put :
    (s : ArtifactStore) (m n i j : String) (a : ArtifactEmittedPayload)
    → get (put s m n a) i j ≡ (if same_key (m, n) i j then some a else get s i j)
unfolding get put same_key
get-put [] m n i j a = refl
get-put (((p, q), b) ∷ s) m n i j a = ground (
  arith,
  eq_iff p m,
  eq_iff q n,
  eq_iff p i,
  eq_iff q j,
  eq_iff m i,
  eq_iff n j,
  get-put s m n i j a,
)
