-- ===== src/Orchestrator/EngineRunner/Writes.antt =====
-- One write of src/orchestrator/engine_runner.py, or one that fails, beside the file.
use mathlib.Core.Path.{subst}
use xray_vision.Base.{
  ℕ, ◌≤◌, ◌≡◌, ◌≢◌, refl, ap, ◌∙◌, String, Option, none, some, Bool, true, false, Result, arith,
  str_eq, eq_iff, if◌then◌else◌, Bool-cases, inl, inr,
}
use xray_vision.Base.Dict
use xray_vision.Base.Dict.{get-put, get-remove}
use xray_vision.RegimeEngine.Contracts.{Regime, regime_eq_iff, HysteresisState}
use xray_vision.RegimeEngine.Hysteresis.Store.{HysteresisStore, state_for, update}
use xray_vision.RegimeEngine.Hysteresis.Persistence.{
  Codec, StoreFile, HysteresisStoreRecord, build_record, append_record,
}
use xray_vision.RegimeEngine.Hysteresis.Persistence.Restore.{
  IsCodec, IsEnded, on_file, on_file-append, NotNewer,
}
use xray_vision.Orchestrator.EngineRunner.{
  HysteresisStatePersistence, EngineRunner, EngineRunResult, RunError, option_eq, state_advanced,
  put_back, goes_back,
}

-- A state in memory and a record on the file show one anchor, candidate and progress, and the record
-- is not newer.
abbrev pub Matches : Option HysteresisState → Option HysteresisStoreRecord → Type 0
Matches none none = Unit {0}
Matches none (some r) = ⊥
Matches (some h) none = ⊥
Matches (some h) (some r) =
    (r.anchor_regime ≡ h.anchor_regime)
    × (r.candidate_regime ≡ h.candidate_regime)
    × (r.progress_current ≡ h.progress_current)
    × (r.engine_timestamp_ms ≤ h.engine_timestamp_ms)

abbrev pub Agree : Codec → HysteresisStatePersistence → Type 0
Agree codec p =
    IsEnded p.file × ((j : String) → Matches (Dict.get p.store.states j) (on_file codec p.file j))

option_eq_eq : (a b : Option Regime) → option_eq a b ≡ true → a ≡ b
option_eq_eq none none h = refl
option_eq_eq none (some b) h = absurd (ground arith)
option_eq_eq (some a) none h = absurd (ground arith)
option_eq_eq (some a) (some b) h = ap some ((regime_eq_iff a b).0 h)

Matches-build : (h : HysteresisState) → Matches (some h) (some (build_record h))
unfolding build_record
Matches-build h = (refl, refl, refl, omega arith)

-- A state that has not advanced matches what its predecessor matched.
Matches-not_advanced :
    (prev : Option HysteresisState) (h : HysteresisState) (o : Option HysteresisStoreRecord)
    → state_advanced prev h ≡ false
    → goes_back prev h.engine_timestamp_ms ≡ false
    → Matches prev o
    → Matches (some h) o
unfolding state_advanced
Matches-not_advanced none h o a g m = absurd (ground arith)
Matches-not_advanced (some p) h none a g m = absurd m
Matches-not_advanced (some p) h (some r) a g (m0, m1, m2, m3) =
    let e0 = (regime_eq_iff p.anchor_regime h.anchor_regime).0 (ground arith) in
    let e1 = option_eq_eq p.candidate_regime h.candidate_regime (ground arith) in
    (m0 ∙ e0, m1 ∙ e1, ground arith, ground arith)

Matches-if :
    (b : Bool) (x y : Option HysteresisState) (r s : Option HysteresisStoreRecord)
    → (b ≡ true → Matches x r)
    → (b ≡ false → Matches y s)
    → Matches (if b then x else y) (if b then r else s)
Matches-if true x y r s m n = m refl
Matches-if false x y r s m n = n refl

pub NotNewer-Matches :
    (prev : Option HysteresisState) (ts : ℕ) (o : Option HysteresisStoreRecord)
    → Matches prev o
    → goes_back prev ts ≡ false
    → NotNewer o ts
NotNewer-Matches none ts none m g = m
NotNewer-Matches none ts (some r) m g = absurd m
NotNewer-Matches (some p) ts none m g = tt
NotNewer-Matches (some p) ts (some r) (m0, m1, m2, m3) g = ground arith

-- A failed run puts every entry back.
pub get-put_back :
    (store : HysteresisStore) (symbol : String) (h : HysteresisState) (j : String)
    (prev : Option HysteresisState)
    → Dict.get store.states symbol ≡ prev
    → Dict.get (put_back (update store symbol h) symbol prev).states j ≡ Dict.get store.states j
get-put_back store symbol h j none e = ground (
  arith,
  eq_iff symbol j,
  get-remove (Dict.put store.states symbol h) symbol j,
  get-put store.states symbol j h,
)
get-put_back store symbol h j (some p) e = ground (
  arith,
  eq_iff symbol j,
  get-put (Dict.put store.states symbol h) symbol j p,
  get-put store.states symbol j h,
)

abbrev pub StoreAgrees : Codec → Option HysteresisStatePersistence → Type 0
StoreAgrees codec none = Unit {0}
StoreAgrees codec (some p) = Agree codec p

abbrev pub AgreesIn : Codec → EngineRunner × Result RunError EngineRunResult → Type 0
AgreesIn codec (r, result) = StoreAgrees codec r.hysteresis_store

pub stay-Agree :
    (codec : Codec) (p : HysteresisStatePersistence) (symbol : String) (h : HysteresisState)
    → goes_back (state_for p.store symbol) h.engine_timestamp_ms ≡ false
    → state_advanced (state_for p.store symbol) h ≡ false
    → Agree codec p
    → Agree codec (record { store = update p.store symbol h; file = p.file })
stay-Agree codec p symbol h g e (ended, agree) = (
  ended,
  λ j. rw (get-put p.store.states symbol j h) (elim (Bool-cases (str_eq symbol j)) [
    | inl q ↦
        let same : symbol ≡ j = (eq_iff symbol j).0 q in
        rw q (
          subst (λ k. Matches (some h) (on_file codec p.file k)) same
            (Matches-not_advanced (state_for p.store symbol) h (on_file codec p.file symbol) e g
              (agree symbol)))
    | inr q ↦ rw q (agree j)
  ]),
)

append-IsEnded :
    (codec : Codec) (file : Option StoreFile) (s : HysteresisState)
    → IsEnded (append_record codec file s)
unfolding append_record
append-IsEnded codec file s = refl

pub written-Agree :
    (codec : Codec) (p : HysteresisStatePersistence) (symbol : String) (h : HysteresisState)
    → IsCodec codec
    → h.symbol ≡ symbol
    → symbol ≢ ""
    → goes_back (state_for p.store symbol) h.engine_timestamp_ms ≡ false
    → Agree codec p
    → Agree codec (record { store = update p.store symbol h; file = append_record codec p.file h })
written-Agree codec p symbol h laws same ne g (ended, agree) =
    let nn =
      NotNewer-Matches (state_for p.store symbol) h.engine_timestamp_ms
        (on_file codec p.file symbol) (agree symbol) g in
    let (lines, e, got) = on_file-append codec laws p.file h (rw same ne) ended (rw same nn) in
    let got' = λ (j : String).
      got j ∙ ap (λ k. if str_eq k j then some (build_record h) else on_file codec p.file j) same in
    (
      append-IsEnded codec p.file h,
      λ j.
          rw (e, get-put p.store.states symbol j h, got' j)
            (Matches-if (str_eq symbol j) (some h) (Dict.get p.store.states j)
              (some (build_record h)) (on_file codec p.file j) (λ _. Matches-build h)
              (λ _. agree j)),
    )

pub failed-Agree :
    (codec : Codec) (p : HysteresisStatePersistence) (symbol : String) (h : HysteresisState)
    → Agree codec p
    → Agree codec (record {
      store = put_back (update p.store symbol h) symbol (state_for p.store symbol);
      file = p.file;
    })
failed-Agree codec p symbol h (ended, agree) =
    (ended, λ j. rw (get-put_back p.store symbol h j (state_for p.store symbol) refl) (agree j))
