-- ===== src/StateGate/Assembly/Once.antt =====
-- Sequences of calls of `RunAssembler.ingest` in src/consumers/state_gate/assembly.py.
use mathlib.Core.Path.{subst}
use xray_vision.Base.{
  ℕ, ◌≤◌, ◌<◌, ◌≡◌, ◌≢◌, refl, ◌⊎◌, inl, inr, String, Option, none, some, List, [], ◌∷◌, true,
  false, ok, err, arith, str_eq, str_refl, eq_iff, Bool-cases, contains, add, All,
}
use xray_vision.Base.Dict
use xray_vision.Base.Dict.{get-put}
use xray_vision.Orchestrator.Contracts.{OrchestratorEvent}
use xray_vision.StateGate.Assembly.{
  AssembledRunInput, RunAssembler, Ingested, not_after, ingest, and_then, ingest_all,
}
use xray_vision.StateGate.Assembly.Effect.{IsKept, IsEmitted, IsNew, ingest-effect}

-- Every element stands in the relation to all that come after it.
abbrev pub Pairwise {ℓ κ} : {A : Type ℓ} → (A → A → Type κ) → List A → Type κ
Pairwise R [] = Unit
Pairwise R (x ∷ xs) = All (R x) xs × Pairwise R xs

-- Another run, and a later one if it is of the same symbol.
abbrev pub Precedes : AssembledRunInput → AssembledRunInput → Type 0
Precedes x y =
    (x.run_id ≢ y.run_id) × (x.symbol ≡ y.symbol → x.engine_timestamp_ms < y.engine_timestamp_ms)

-- A run that the assembler is done with.
abbrev IsDone : RunAssembler → AssembledRunInput → Type 0
IsDone a x =
    (contains x.run_id a.processed_run_ids ≡ true)
    × ((ts : ℕ) × (Dict.get a.latest_engine_timestamp_ms x.symbol ≡ some ts)
        × (x.engine_timestamp_ms ≤ ts))

contains-add : (k j : String) (s : List String) → contains k s ≡ true → contains k (add j s) ≡ true
unfolding contains add
contains-add k j s h = ground (arith, eq_iff j k)

pub contains-add_self : (k : String) (s : List String) → contains k (add k s) ≡ true
unfolding contains add
contains-add_self k s = ground (arith, str_refl k)

kept-IsDone :
    (a : RunAssembler) (event : OrchestratorEvent) (p : Ingested) (x : AssembledRunInput)
    → IsKept a event p
    → IsDone a x
    → IsDone p.0 x
kept-IsDone a event (b, r) x (_, l, inl i) h = rw (i, l) h
kept-IsDone a event (b, r) x (_, l, inr i) (c, h) =
    rw (i, l) (contains-add x.run_id event.run_id a.processed_run_ids c, h)

earlier : (ts last : ℕ) (o : Option ℕ) → not_after ts o ≡ false → o ≡ some last → last < ts
earlier ts last o n e =
    let n' : not_after ts (some last) ≡ false = subst (λ p. not_after ts p ≡ false) e n in
    ground arith

latest-put :
    (d : Dict.Dict ℕ) (symbol j : String) (ts last n : ℕ)
    → not_after ts (Dict.get d symbol) ≡ false
    → Dict.get d j ≡ some last
    → n ≤ last
    → (m : ℕ) × (Dict.get (Dict.put d symbol ts) j ≡ some m) × (n ≤ m)
latest-put d symbol j ts last n na g le = elim (Bool-cases (str_eq symbol j)) [
  | inr q ↦ (last, rw (get-put d symbol j ts, q) g, le)
  | inl q ↦
      let same : symbol ≡ j = (eq_iff symbol j).0 q in
      let lt = earlier ts last (Dict.get d symbol) na (rw same g) in
      (ts, rw (get-put d symbol j ts, q) refl, omega (arith, lt))
]

emitted-IsDone :
    (a : RunAssembler) (event : OrchestratorEvent) (p : Ingested) (x : AssembledRunInput)
    → IsNew a event
    → IsEmitted a event p
    → IsDone a x
    → IsDone p.0 x
emitted-IsDone a event (b, r) x (c, n) (run, e, i, s, t, ids, l) (d, (ts, g, le)) =
    rw (ids, l)
      (
        contains-add x.run_id event.run_id a.processed_run_ids d,
        latest-put a.latest_engine_timestamp_ms event.symbol x.symbol event.engine_timestamp_ms ts
            x.engine_timestamp_ms n g le,
      )

emitted_self :
    (a : RunAssembler) (event : OrchestratorEvent) (b : RunAssembler) (run : AssembledRunInput)
    → run.run_id ≡ event.run_id
    → run.symbol ≡ event.symbol
    → run.engine_timestamp_ms ≡ event.engine_timestamp_ms
    → b.processed_run_ids ≡ add event.run_id a.processed_run_ids
    → b.latest_engine_timestamp_ms
      ≡ Dict.put a.latest_engine_timestamp_ms event.symbol event.engine_timestamp_ms
    → IsDone b run
emitted_self a event b run i s t ids l =
    rw (i, s, ids, l)
      (
        contains-add_self event.run_id a.processed_run_ids,
        (
          event.engine_timestamp_ms,
          Dict.get-put_self a.latest_engine_timestamp_ms event.symbol event.engine_timestamp_ms,
          omega (arith, t),
        ),
      )

done-Precedes :
    (a : RunAssembler) (event : OrchestratorEvent) (x run : AssembledRunInput)
    → IsNew a event
    → run.run_id ≡ event.run_id
    → run.symbol ≡ event.symbol
    → run.engine_timestamp_ms ≡ event.engine_timestamp_ms
    → IsDone a x
    → Precedes x run
done-Precedes a event x run (c, n) i s t (d, (ts, g, le)) = (
  (λ q.
      let c' : contains x.run_id a.processed_run_ids ≡ false = rw (q, i) c in
      absurd (ground arith)),
  λ q.
      let lt =
        earlier event.engine_timestamp_ms ts (Dict.get a.latest_engine_timestamp_ms event.symbol) n
          (rw (← s, ← q) g) in
      omega (arith, lt, t),
)

effect-IsDone :
    (a : RunAssembler) (e : OrchestratorEvent) (p : Ingested) (x : AssembledRunInput)
    → IsKept a e p ⊎ (IsNew a e × IsEmitted a e p)
    → IsDone a x
    → IsDone p.0 x
effect-IsDone a e p x (inl k) d = kept-IsDone a e p x k d
effect-IsDone a e p x (inr (n, m)) d = emitted-IsDone a e p x n m d

-- A run that is assembled is done afterwards, and stands after all that were done before.
emitted-run :
    (a : RunAssembler) (e : OrchestratorEvent) (b : RunAssembler) (run : AssembledRunInput)
    → IsKept a e (b, ok (some run)) ⊎ (IsNew a e × IsEmitted a e (b, ok (some run)))
    → IsDone b run × ((x : AssembledRunInput) → IsDone a x → Precedes x run)
emitted-run a e b run (inl k) = absurd k.0
emitted-run a e b run (inr (n, (y, q, i, s, t, ids, l))) =
    let same : y ≡ run = cc in
    subst (λ r. IsDone b r × ((x : AssembledRunInput) → IsDone a x → Precedes x r)) same
      (emitted_self a e b y i s t ids l, λ x d. done-Precedes a e x y n i s t d)

and_then-after :
    (rest : RunAssembler → List AssembledRunInput) (a : RunAssembler) (e : OrchestratorEvent)
    (p : Ingested) (x : AssembledRunInput)
    → IsKept a e p ⊎ (IsNew a e × IsEmitted a e p)
    → (IsDone p.0 x → All (Precedes x) (rest p.0))
    → IsDone a x
    → All (Precedes x) (and_then p rest)
and_then-after rest a e (b, err f) x h ih d = ih (effect-IsDone a e (b, err f) x h d)
and_then-after rest a e (b, ok none) x h ih d = ih (effect-IsDone a e (b, ok none) x h d)
and_then-after rest a e (b, ok (some run)) x h ih d =
    ((emitted-run a e b run h).1 x d, ih (effect-IsDone a e (b, ok (some run)) x h d))

-- All that is assembled from here on comes after what is done.
ingest_all-after :
    (es : List OrchestratorEvent) (a : RunAssembler) (x : AssembledRunInput)
    → IsDone a x
    → All (Precedes x) (ingest_all a es)
unfolding ingest_all
ingest_all-after [] a x h = tt
ingest_all-after (e ∷ es) a x h =
    and_then-after (λ b. ingest_all b es) a e (ingest a e) x (ingest-effect a e)
      (λ d. ingest_all-after es (ingest a e).0 x d) h

and_then-Pairwise :
    (es : List OrchestratorEvent) (a : RunAssembler) (e : OrchestratorEvent) (p : Ingested)
    → IsKept a e p ⊎ (IsNew a e × IsEmitted a e p)
    → Pairwise Precedes (ingest_all p.0 es)
    → Pairwise Precedes (and_then p (λ b. ingest_all b es))
and_then-Pairwise es a e (b, err f) h ih = ih
and_then-Pairwise es a e (b, ok none) h ih = ih
and_then-Pairwise es a e (b, ok (some run)) h ih =
    (ingest_all-after es b run (emitted-run a e b run h).0, ih)

-- From any state and for any sequence of events, those that are refused or raise included: of the
-- runs that the assembler gives, no two have one id, and of two runs of one symbol the one given
-- later has the greater timestamp.
pub ingest_all-Precedes :
    (es : List OrchestratorEvent) (a : RunAssembler) → Pairwise Precedes (ingest_all a es)
unfolding ingest_all
ingest_all-Precedes [] a = tt
ingest_all-Precedes (e ∷ es) a =
    and_then-Pairwise es a e (ingest a e) (ingest-effect a e)
      (ingest_all-Precedes es (ingest a e).0)
