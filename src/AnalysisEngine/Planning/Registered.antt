-- ===== src/AnalysisEngine/Planning/Registered.antt =====
-- The modules of the plans that src/consumers/analysis_engine/planning.py builds.
use xray_vision.Base.{
  ◌≡◌, refl, String, Option, none, some, List, [], ◌∷◌, Bool, true, false, keep, map, to_set,
  Result, ok, err, All, All-imp, inl, inr, Bool-cases, arith, is_some, Holds, bind-Holds, any-Holds,
  then-Holds, if◌then◌else◌,
}
use xray_vision.Base.Sorting.{sorted_by-All}
use xray_vision.Base.Dict
use xray_vision.Base.Dict.{Dict, HoldsSome, get-All, put-All}
use xray_vision.AnalysisEngine.Contracts.{
  AnalysisModule, ModuleDefinition, ModuleKind, signal, detector, rule, output, AnalysisError,
}
use xray_vision.AnalysisEngine.Registry.{ModuleRegistry, found, register_all, build_registry}
use xray_vision.AnalysisEngine.Cycles.{validate_dependencies}
use xray_vision.AnalysisEngine.Planning.{
  ExecutionStep, ExecutionPlan, kind_precedence, same_kind, select, by_id, lookup_all, order_ids,
  order_stage, step_of, build_stage, stages, build_stages, validate_stage_dependencies,
  build_execution_plan,
}

-- Each module is under its own id.
abbrev pub IsKeyed : ModuleRegistry → Type 0
IsKeyed registry = All (λ e. e.1.definition.module_id ≡ e.0) registry

found-Holds :
    {A : Type 0} (P : A → Type 0) (k : String) (o : Option A) → HoldsSome P o → Holds P (found k o)
found-Holds P k none h = tt
found-Holds P k (some a) h = h

guarded-Holds :
    {A : Type 0} (P : A → Type 0) (b : Bool) (e : AnalysisError) (a : Result AnalysisError A)
    → Holds P a
    → Holds P (if b then err e else a)
guarded-Holds P true e a h = tt
guarded-Holds P false e a h = h

register_all-IsKeyed :
    (ms : List AnalysisModule) (modules : ModuleRegistry)
    → IsKeyed modules
    → Holds IsKeyed (register_all modules ms)
unfolding register_all
register_all-IsKeyed [] modules h = h
register_all-IsKeyed (m ∷ ms) modules h =
    guarded-Holds IsKeyed (is_some (Dict.get modules m.definition.module_id)) _ _ (
      register_all-IsKeyed ms (Dict.put modules m.definition.module_id m)
        (put-All (λ k v. v.definition.module_id ≡ k) modules m.definition.module_id m h refl))

pub build_registry-IsKeyed : (ms : List AnalysisModule) → Holds IsKeyed (build_registry ms)
unfolding build_registry
build_registry-IsKeyed ms =
    bind-Holds IsKeyed IsKeyed (register_all [] ms) _ (register_all-IsKeyed ms [] tt)
      (λ modules h. sorted_by-All (λ e. e.0) (λ e. e.1.definition.module_id ≡ e.0) modules h)

module _ (registry : ModuleRegistry) where
  -- The registry has a module under the id.
  abbrev pub IsRegistered : String → Type 0
  IsRegistered k = is_some (Dict.get registry k) ≡ true

  abbrev IsFound : AnalysisModule → Type 0
  IsFound m = IsRegistered m.definition.module_id

  registered :
      (k : String) (o : Option AnalysisModule)
      → Dict.get registry k ≡ o
      → HoldsSome (λ m. m.definition.module_id ≡ k) o
      → HoldsSome IsFound o
  registered k none g h = tt
  registered k (some m) g h = rw (h, g) refl

  select-IsFound :
      (ks : List String) (modules : Dict AnalysisModule)
      → IsKeyed registry
      → All (λ e. IsFound e.1) modules
      → Holds (λ out. All (λ e. IsFound e.1) out) (select registry modules ks)
  unfolding select
  select-IsFound [] modules keyed h = h
  select-IsFound (k ∷ ks) modules keyed h =
      bind-Holds IsFound (λ out. All (λ e. IsFound e.1) out) (found k (Dict.get registry k)) _
        (found-Holds IsFound k (Dict.get registry k) (
          registered k (Dict.get registry k) refl
            (get-All (λ j m. m.definition.module_id ≡ j) registry k keyed)))
        (λ m p.
          select-IsFound ks (Dict.put modules k m) keyed
            (put-All (λ _ x. IsFound x) modules k m h p))

-- What holds of the definitions of some modules holds of the definitions in their order.
module _ (P : ModuleDefinition → Type 0) where
  by_id-All :
      (ms : List AnalysisModule) (d : Dict ModuleDefinition)
      → All (λ m. P m.definition) ms
      → All (λ e. P e.1) d
      → All (λ e. P e.1) (by_id d ms)
  unfolding by_id
  by_id-All [] d h a = a
  by_id-All (m ∷ ms) d h a =
      by_id-All ms (Dict.put d m.definition.module_id m.definition) h.1
        (put-All (λ _ x. P x) d m.definition.module_id m.definition a h.0)

  lookup_all-All :
      (d : Dict ModuleDefinition) (ks : List String)
      → All (λ e. P e.1) d
      → Holds (λ ds. All P ds) (lookup_all d ks)
  unfolding lookup_all
  lookup_all-All d [] a = tt
  lookup_all-All d (k ∷ ks) a =
      bind-Holds P (λ ds. All P ds) (found k (Dict.get d k)) _
        (found-Holds P k (Dict.get d k) (get-All (λ _ x. P x) d k a))
        (λ x p.
          bind-Holds (λ ds. All P ds) (λ ds. All P ds) (lookup_all d ks) _ (lookup_all-All d ks a)
            (λ ds h. (p, h)))

  pub order_stage-All :
      (ms : List AnalysisModule)
      → All (λ m. P m.definition) ms
      → Holds (λ ds. All P ds) (order_stage ms)
  unfolding order_stage
  order_stage-All ms h =
      bind-Holds (λ _. Unit {0}) (λ ds. All P ds) (order_ids (by_id [] ms)) _
        (any-Holds (order_ids (by_id [] ms)))
        (λ ids _.
          bind-Holds (λ ds. All P ds) (λ ds. All P ds) (lookup_all (by_id [] ms) ids) _
            (lookup_all-All (by_id [] ms) ids (by_id-All ms [] h tt))
            (λ ordered a. then-Holds (λ ds. All P ds) _ (ok ordered) a))

All-map :
    {A B : Type 0} (P : B → Type 0) (f : A → B) (xs : List A)
    → All (λ a. P (f a)) xs
    → All P (map f xs)
All-map P f [] h = tt
All-map P f (x ∷ xs) h = (h.0, All-map P f xs h.1)

All-keep :
    {A : Type 0} (P : A → Type 0) (p : A → Bool) (xs : List A)
    → All P xs
    → All (λ x. P x × (p x ≡ true)) (keep p xs)
unfolding keep
All-keep P p [] h = tt
All-keep P p (x ∷ xs) h = elim (Bool-cases (p x)) [
  | inl b ↦ rw b ((h.0, b), All-keep P p xs h.1)
  | inr b ↦ rw b (All-keep P p xs h.1)
]

same_kind_lem : (a b : ModuleKind) → same_kind a b ≡ true → kind_precedence a ≡ kind_precedence b
same_kind_lem a b h = ground arith

module _ (registry : ModuleRegistry) where
  -- A step of the stage, by a module of the registry.
  abbrev pub IsStepOf : ModuleKind → ExecutionStep → Type 0
  IsStepOf stage s =
      IsRegistered registry s.module_id × (kind_precedence s.module_kind ≡ kind_precedence stage)

  abbrev pub IsPlan : ExecutionPlan → Type 0
  IsPlan plan = (stage : ModuleKind) → All (IsStepOf stage) (plan.steps_by_stage stage)

  build_stage-All :
      (modules : Dict AnalysisModule) (stage : ModuleKind)
      → All (λ e. IsRegistered registry e.1.definition.module_id) modules
      → Holds (λ ss. All (IsStepOf stage) ss) (build_stage modules stage)
  unfolding build_stage step_of
  build_stage-All modules stage h =
      let ms = map (λ e. e.1) modules in
      let P : ModuleDefinition → Type 0 = λ d.
        IsRegistered registry d.module_id
        × (kind_precedence d.module_kind ≡ kind_precedence stage) in
      bind-Holds (λ ds. All P ds) (λ ss. All (IsStepOf stage) ss) _ _
        (order_stage-All P (keep (λ m. same_kind m.definition.module_kind stage) ms) (
          All-imp _ (λ m q. (q.0, same_kind_lem m.definition.module_kind stage q.1))
            (All-keep (λ m. IsRegistered registry m.definition.module_id)
              (λ m. same_kind m.definition.module_kind stage) ms
              (All-map (λ m. IsRegistered registry m.definition.module_id) (λ e. e.1) modules h))))
        (λ ds a. All-map (IsStepOf stage) step_of ds a)

  staged :
      (a b c d : List ExecutionStep)
      → All (IsStepOf signal) a
      → All (IsStepOf detector) b
      → All (IsStepOf rule) c
      → All (IsStepOf output) d
      → (stage : ModuleKind) → All (IsStepOf stage) (stages a b c d stage)
  staged a b c d p q r s signal = p
  staged a b c d p q r s detector = q
  staged a b c d p q r s rule = r
  staged a b c d p q r s output = s

  build_stages-IsPlan :
      (modules : Dict AnalysisModule)
      → All (λ e. IsRegistered registry e.1.definition.module_id) modules
      → Holds IsPlan (build_stages modules)
  unfolding build_stages
  build_stages-IsPlan modules h =
      bind-Holds (λ ss. All (IsStepOf signal) ss) IsPlan _ _ (build_stage-All modules signal h)
        (λ a p.
          bind-Holds (λ ss. All (IsStepOf detector) ss) IsPlan _ _
            (build_stage-All modules detector h)
            (λ b q.
              bind-Holds (λ ss. All (IsStepOf rule) ss) IsPlan _ _ (build_stage-All modules rule h)
                (λ c r.
                  bind-Holds (λ ss. All (IsStepOf output) ss) IsPlan _ _
                    (build_stage-All modules output h)
                    (λ d s stage. staged a b c d p q r s stage))))

  pub build_execution_plan-IsPlan :
      (enabled : List String)
      → IsKeyed registry
      → Holds IsPlan (build_execution_plan registry enabled)
  unfolding build_execution_plan
  build_execution_plan-IsPlan enabled keyed =
      then-Holds IsPlan (validate_dependencies registry (to_set enabled)) _ (
        bind-Holds (λ out. All (λ e. IsRegistered registry e.1.definition.module_id) out) IsPlan
          (select registry [] enabled) _ (select-IsFound registry enabled [] keyed tt)
          (λ modules h.
            then-Holds IsPlan (validate_stage_dependencies modules modules) _
              (build_stages-IsPlan modules h)))
