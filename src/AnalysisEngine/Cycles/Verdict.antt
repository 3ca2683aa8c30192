-- ===== src/AnalysisEngine/Cycles/Verdict.antt =====
-- What `_validate_cycles` of src/consumers/analysis_engine/registry.py decides, and its fuel.
use mathlib.Core.Path.{subst}
use xray_vision.Base.{
  ◌≡◌, ◌≢◌, ◌<◌, sym, ◌∙◌, ℕ, zero, suc, String, some, List, [], ◌∷◌, true, false, not, contains,
  add, Result, ok, err, ◌>>=◌, length, All, inl, inr, Bool-cases, Option-cases, arith,
  keep-length-le,
}
use xray_vision.Base.Sorting.{sorted_by, sorted_by-All}
use xray_vision.Base.Dict
use xray_vision.AnalysisEngine.Contracts.{
  AnalysisModule, ModuleDependency, AnalysisError, out_of_fuel,
}
use xray_vision.AnalysisEngine.Registry.{ModuleRegistry}
use xray_vision.AnalysisEngine.Cycles.{Visit, visit_dependencies, dfs, visit_ids, validate_cycles}
use xray_vision.AnalysisEngine.Cycles.Members.{
  unseen, unseen-add-lt, IsWithin, same_some, IsWithin-add, add_self, cycle_lem, key_lem,
  contains-sorted_by, All-contains, contains-All,
}

module _ (registry : ModuleRegistry) (enabled : List String) where
  -- The enabled ones among some dependencies are in a list.
  abbrev pub IsMet : List ModuleDependency → List String → Type 0
  IsMet ds s = All (λ d. contains d.module_id enabled ≡ true → contains d.module_id s ≡ true) ds

  -- Each id of the list comes after all that it depends on, the last one first.
  abbrev pub IsTopological : List String → Type 0
  IsTopological [] = Unit
  IsTopological (c ∷ s) =
      IsTopological s
      × ((m : AnalysisModule) → Dict.get registry c ≡ some m → IsMet m.definition.dependencies s)

  abbrev IsVisited :
      List String → List ModuleDependency → Result AnalysisError (List String) → Type 0
  IsVisited visited ds (ok s) = IsTopological s × IsWithin visited s × IsMet ds s
  IsVisited visited ds (err x) = x ≢ out_of_fuel

  abbrev IsPlaced : List String → String → Result AnalysisError (List String) → Type 0
  IsPlaced visited c (ok s) = IsTopological s × IsWithin visited s × (contains c s ≡ true)
  IsPlaced visited c (err x) = x ≢ out_of_fuel

  abbrev IsSound : Visit → Type 0
  IsSound visit =
      (visited : List String) (c : String)
      → contains c enabled ≡ true
      → IsTopological visited
      → IsPlaced visited c (visit visited c)

  widen :
      (visited : List String) (d : ModuleDependency) (ds : List ModuleDependency) (s : List String)
      (r : Result AnalysisError (List String))
      → IsWithin visited s
      → contains d.module_id s ≡ true
      → IsVisited s ds r
      → IsVisited visited (d ∷ ds) r
  widen visited d ds s (err x) w c v = v
  widen visited d ds s (ok u) w c (t, w', met) =
      (t, (λ k h. w' k (w k h)), ((λ _. w' d.module_id c), met))

  then-IsVisited :
      (visited : List String) (d : ModuleDependency) (ds : List ModuleDependency)
      (r : Result AnalysisError (List String))
      (next : List String → Result AnalysisError (List String))
      → IsPlaced visited d.module_id r
      → ((s : List String) → IsTopological s → IsVisited s ds (next s))
      → IsVisited visited (d ∷ ds) (r >>= next)
  then-IsVisited visited d ds (err x) next p f = p
  then-IsVisited visited d ds (ok s) next (t, w, c) f = widen visited d ds s (next s) w c (f s t)

  skipped :
      (visited : List String) (d : ModuleDependency) (ds : List ModuleDependency)
      (r : Result AnalysisError (List String))
      → contains d.module_id enabled ≡ false
      → IsVisited visited ds r
      → IsVisited visited (d ∷ ds) r
  skipped visited d ds (err x) n v = v
  skipped visited d ds (ok s) n (t, w, met) = (t, w, ((λ h. absurd cc), met))

  visit_dependencies-IsVisited :
      (visit : Visit) (ds : List ModuleDependency) (visited : List String)
      → IsSound visit
      → IsTopological visited
      → IsVisited visited ds (visit_dependencies visit enabled ds visited)
  unfolding visit_dependencies
  visit_dependencies-IsVisited visit [] visited sound t = (t, (λ k h. h), tt)
  visit_dependencies-IsVisited visit (d ∷ ds) visited sound t =
      elim (Bool-cases (contains d.module_id enabled)) [
        | inl b ↦
            rw (b, visit_dependencies)
              (then-IsVisited visited d ds (visit visited d.module_id)
                (λ s. visit_dependencies visit enabled ds s) (sound visited d.module_id b t)
                (λ s t'. visit_dependencies-IsVisited visit ds s sound t'))
        | inr b ↦
            rw (b, visit_dependencies)
              (skipped visited d ds _ b (visit_dependencies-IsVisited visit ds visited sound t))
      ]

  place :
      (c : String) (m : AnalysisModule) (s : List String)
      → Dict.get registry c ≡ some m
      → IsTopological s
      → IsMet m.definition.dependencies s
      → IsTopological (add c s)
  unfolding add
  place c m s g t met = elim (Bool-cases (contains c s)) [
    | inl b ↦ rw b t
    | inr b ↦ rw b (
      t,
      (λ m' g'. subst (λ x. IsMet x.definition.dependencies s) (same_some m m' (sym g ∙ g')) met),
    )
  ]

  placed :
      (visited : List String) (c : String) (m : AnalysisModule)
      (r : Result AnalysisError (List String))
      → Dict.get registry c ≡ some m
      → IsVisited visited m.definition.dependencies r
      → IsPlaced visited c (r >>= λ s. ok (add c s))
  placed visited c m (err x) g v = v
  placed visited c m (ok s) g (t, w, met) =
      (place c m s g t met, (λ k h. IsWithin-add c s k (w k h)), add_self c s)

  dfs-IsPlaced :
      (n : ℕ) (visiting visited : List String) (c : String)
      → unseen enabled visiting < n
      → contains c enabled ≡ true
      → IsTopological visited
      → IsPlaced visited c (dfs registry enabled n visiting visited c)
  unfolding dfs
  dfs-IsPlaced zero visiting visited c u h t = absurd (omega (arith, u))
  dfs-IsPlaced (suc n) visiting visited c u h t = elim (Bool-cases (contains c visited)) [
    | inl b ↦ rw (b, dfs) (t, (λ k p. p), b)
    | inr b ↦ elim (Bool-cases (contains c visiting)) [
      | inl v ↦ rw (b, v, dfs) (cycle_lem c)
      | inr v ↦ elim (Option-cases (Dict.get registry c)) [
        | inl q ↦ rw (b, v, q, dfs) (key_lem c)
        | inr (m, q) ↦
            rw (b, v, q, dfs)
              (placed visited c m _ q (
                visit_dependencies-IsVisited (dfs registry enabled n (add c visiting))
                  m.definition.dependencies visited
                  (λ s k e' t'.
                    dfs-IsPlaced n (add c visiting) s k
                      (omega (arith, u, unseen-add-lt enabled c visiting h v)) e' t')
                  t))
      ]
    ]
  ]

  unseen-le : (visiting : List String) → unseen enabled visiting < suc (length enabled)
  unfolding unseen
  unseen-le visiting = omega (arith, keep-length-le (λ k. not (contains k visiting)) enabled)

  abbrev IsReached : List String → List String → Result AnalysisError (List String) → Type 0
  IsReached ks visited (ok s) =
      IsTopological s × IsWithin visited s × All (λ k. contains k s ≡ true) ks
  IsReached ks visited (err x) = x ≢ out_of_fuel

  reached :
      (visited : List String) (k : String) (ks : List String) (s : List String)
      (r : Result AnalysisError (List String))
      → IsWithin visited s
      → contains k s ≡ true
      → IsReached ks s r
      → IsReached (k ∷ ks) visited r
  reached visited k ks s (err x) w c h = h
  reached visited k ks s (ok u) w c (t, w', a) = (t, (λ j h. w' j (w j h)), (w' k c, a))

  then-IsReached :
      (visited : List String) (k : String) (ks : List String)
      (r : Result AnalysisError (List String))
      (next : List String → Result AnalysisError (List String))
      → IsPlaced visited k r
      → ((s : List String) → IsTopological s → IsReached ks s (next s))
      → IsReached (k ∷ ks) visited (r >>= next)
  then-IsReached visited k ks (err x) next p f = p
  then-IsReached visited k ks (ok s) next (t, w, c) f = reached visited k ks s (next s) w c (f s t)

  visit_ids-IsReached :
      (ks visited : List String)
      → All (λ k. contains k enabled ≡ true) ks
      → IsTopological visited
      → IsReached ks visited (visit_ids registry enabled ks visited)
  unfolding visit_ids
  visit_ids-IsReached [] visited h t = (t, (λ k p. p), tt)
  visit_ids-IsReached (k ∷ ks) visited h t =
      then-IsReached visited k ks _ _
        (dfs-IsPlaced (suc (length enabled)) [] visited k (unseen-le []) h.0 t)
        (λ s t'. visit_ids-IsReached ks s h.1 t')

  -- A topological order of all the enabled ids, or an error of the registry.
  abbrev pub IsVerdict : Result AnalysisError (List String) → Type 0
  IsVerdict (ok s) = IsTopological s × IsWithin enabled s
  IsVerdict (err x) = x ≢ out_of_fuel

  verdict :
      (r : Result AnalysisError (List String))
      → IsReached (sorted_by (λ k. k) enabled) [] r
      → IsVerdict r
  verdict (err x) h = h
  verdict (ok s) (t, w, a) = (
    t,
    (λ k h. contains-All k (sorted_by (λ j. j) enabled) s a (contains-sorted_by k enabled ∙ h)),
  )

  -- The search for cycles among enabled modules never runs out of its fuel. If it raises nothing,
  -- it has put all of them in an order in which each module comes after every enabled one that it
  -- depends on.
  pub validate_cycles-IsVerdict : IsVerdict (validate_cycles registry enabled)
  unfolding validate_cycles
  validate_cycles-IsVerdict = verdict _ (
      visit_ids-IsReached (sorted_by (λ k. k) enabled) []
        (sorted_by-All (λ k. k) (λ k. contains k enabled ≡ true) enabled (All-contains enabled)) tt)
