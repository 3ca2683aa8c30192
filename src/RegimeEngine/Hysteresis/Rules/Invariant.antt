-- ===== src/RegimeEngine/Hysteresis/Rules/Invariant.antt =====
-- The shape of the states of src/regime_engine/hysteresis/rules.py.
use xray_vision.Base.{ℕ, min, ◌≤◌, ◌<◌, ◌≡◌, refl, Option, none, some, Bool, true, false, arith}
use xray_vision.Base.Floats.{FloatOps}
use xray_vision.RegimeEngine.Contracts.{Regime, HysteresisState, regime_eq}
use xray_vision.RegimeEngine.Hysteresis.Rules.{
  Beliefs, RegimeState, HysteresisConfig, Progress, select_candidate, select_top_regime,
  unless_anchor, decayed, confirmed, progress_step, commit_candidate, commit_step, gate_of,
  progress_of, commit_of, advance_hysteresis, anchor_before, candidate_before, progress_before,
  last_commit_before,
}

-- A candidate and its progress, beside the window and the anchor. With no candidate the progress is
-- zero; a candidate is not the anchor, and has between one and `window` updates of progress.
abbrev pub IsShaped : ℕ → Regime → Option Regime → ℕ → Type 0
IsShaped window anchor none progress = progress ≡ 0
IsShaped window anchor (some c) progress =
    (regime_eq c anchor ≡ false) × (0 < progress) × (progress ≤ window)

abbrev pub IsWellFormed : HysteresisState → Type 0
IsWellFormed h = IsShaped h.progress_required h.anchor_regime h.candidate_regime h.progress_current

-- The state that an update starts from was made with the same window.
abbrev pub StartsWellFormed : Option HysteresisState → HysteresisConfig → Type 0
StartsWellFormed none config = Unit {0}
StartsWellFormed (some h) config = IsWellFormed h × (h.progress_required ≡ config.window_updates)

unless_anchor-other :
    (o : Option Regime) (anchor r : Regime)
    → unless_anchor o anchor ≡ some r
    → regime_eq r anchor ≡ false
unless_anchor-other none anchor r h = absurd (ground arith)
unless_anchor-other (some q) anchor r h = ground arith

decayed-IsShaped :
    (window : ℕ) (anchor : Regime) (c : Option Regime) (p decay : ℕ)
    → IsShaped window anchor c p
    → let d = decayed c p decay in IsShaped window anchor d.candidate d.progress
unfolding decayed
decayed-IsShaped window anchor none p decay v = ground arith
decayed-IsShaped window anchor (some c) p decay v = ground arith

confirmed-IsShaped :
    (window : ℕ) (anchor : Regime) (c : Option Regime) (p : ℕ) (r : Regime)
    → 0 < window
    → regime_eq r anchor ≡ false
    → IsShaped window anchor c p
    → let d = confirmed c p window r in IsShaped window anchor d.candidate d.progress
unfolding confirmed
confirmed-IsShaped window anchor none p r w n v = ground arith
confirmed-IsShaped window anchor (some c) p r w n v = ground arith

progress_step-IsShaped :
    (eligible : Bool) (found : Option Regime) (window decay : ℕ) (anchor : Regime)
    (c : Option Regime) (p : ℕ)
    → 0 < window
    → ((r : Regime) → found ≡ some r → regime_eq r anchor ≡ false)
    → IsShaped window anchor c p
    → let d = progress_step eligible found c p window decay in
      IsShaped window anchor d.candidate d.progress
unfolding progress_step
progress_step-IsShaped true (some r) window decay anchor c p w n v =
    confirmed-IsShaped window anchor c p r w (n r refl) v
progress_step-IsShaped true none window decay anchor c p w n v =
    decayed-IsShaped window anchor c p decay v
progress_step-IsShaped false found window decay anchor c p w n v =
    decayed-IsShaped window anchor c p decay v

commit_candidate-IsShaped :
    (ops : FloatOps) (bs : Beliefs) (config : HysteresisConfig) (now : ℕ) (anchor : Regime)
    (p : Progress) (last : Option ℕ) (o : Option Regime)
    → p.candidate ≡ o
    → IsShaped config.window_updates anchor p.candidate p.progress
    → let c = commit_candidate ops bs config now anchor p last o in
      IsShaped config.window_updates c.anchor c.candidate (min c.progress config.window_updates)
unfolding commit_candidate
commit_candidate-IsShaped ops bs config now anchor p last none e v = ground arith
commit_candidate-IsShaped ops bs config now anchor p last (some r) e v = ground arith

pub before-IsShaped :
    (prev : Option HysteresisState) (s : RegimeState) (config : HysteresisConfig)
    → StartsWellFormed prev config
    → IsShaped config.window_updates
        (anchor_before prev s)
        (candidate_before prev)
        (progress_before prev)
before-IsShaped none s config v = refl
before-IsShaped (some h) s config v = rw (← v.1) v.0

-- Every update with a positive window, from no state or from one that is well-formed for the
-- window, gives a well-formed state for that window: no candidate and no progress, or a candidate
-- other than the anchor with progress from one to the window.
pub advance-StartsWellFormed :
    (ops : FloatOps) (now : ℕ) (prev : Option HysteresisState) (s : RegimeState)
    (config : HysteresisConfig)
    → 0 < config.window_updates
    → StartsWellFormed prev config
    → StartsWellFormed (some (advance_hysteresis ops now prev s config)) config
unfolding advance_hysteresis commit_of commit_step progress_of select_candidate
advance-StartsWellFormed ops now prev s config w v =
    let anchor = anchor_before prev s in
    let p = progress_of ops prev s config in
    (
      commit_candidate-IsShaped ops s.belief_by_regime config now anchor p (last_commit_before prev)
          p.candidate refl
          (progress_step-IsShaped (gate_of ops prev s config).eligible
            (select_candidate ops s.belief_by_regime anchor config.allowed_regimes)
            config.window_updates config.decay_step anchor (candidate_before prev)
            (progress_before prev) w
            (λ r e.
              unless_anchor-other (select_top_regime ops s.belief_by_regime config.allowed_regimes)
                anchor r e)
            (before-IsShaped prev s config v)),
      refl,
    )
