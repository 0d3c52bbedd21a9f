-- ===== src/Apps/Validation.antt =====
-- The validation of the modules' dependencies, src/core/apps/dependencies.py.
use fastapi_foundation.Base.{
  ℕ, String, ◌≡◌, ◌<◌, ◌↔◌, refl, sym, ap, subst, true, false, none, some, List, [], ◌∷◌, map,
  select_where, Dict, lookup, is_some, arith, Bool-cases, Option-cases, inl, inr, ◌==◌, eq_iff, All,
  Stands,
}
use fastapi_foundation.Topological.{is_in, Walk}
use fastapi_foundation.Topological.Order.{InOrder, joined, is_in-joined}
use fastapi_foundation.Topological.Acyclic.{Falls, Visits_acyclic, InOrder-Falls, height, Above}
use fastapi_foundation.Apps.{
  AppModule, AppDependencyValidation, Errors, no_errors, ok, label_of, report_circular,
  known_dependencies, validate_app_dependencies,
}
use fastapi_foundation.Apps.Checks.{keyed, complete, lookup-keyed}
use fastapi_foundation.Apps.Lookup.{
  lookup-Stands, Stands-lookup, Stands-is_in, known_dependencies-lookup,
}
use fastapi_foundation.Apps.Order.{checked, Walked}
use fastapi_foundation.Apps.Found.{LoadOrder, Ordered, InOrder-LoadOrder}
use fastapi_foundation.Apps.Outcome.{Outcome, validated, outcome_of}

-- The ranks of the labels fall along the dependencies.
unfoldable pub Ranked : (String → ℕ) → List AppModule → Type 0
Ranked rank ms = (m : AppModule) → Stands m ms → All (λ d. rank d < rank m.label) m.dependencies

found_Stands :
    (ms found : List AppModule) (m : AppModule)
    → All (λ x. lookup x.label (keyed ms) ≡ some x) found
    → lookup m.label (keyed ms) ≡ some m
    → is_in m.label (map label_of found) ≡ true
    → Stands m found
unfolding is_in
found_Stands ms [] m a h k = absurd (ground (arith, k))
found_Stands ms (x ∷ found) m (p, a) h k = elim (Bool-cases (x.label == m.label)) [
  | inl s ↦
      let other : lookup m.label (keyed ms) ≡ some x =
        subst (λ l. lookup l (keyed ms) ≡ some x) ((eq_iff x.label m.label).0 s) p in
      let same : x ≡ m = ground (arith, other, h) in
      subst (λ z. Stands m (z ∷ found)) (sym same) Stands.here
  | inr n ↦ Stands.there (found_Stands ms found m a h (ground (arith, k, n)))
]

All-Stands :
    (P : AppModule → Type 0) (ms : List AppModule) (m : AppModule) → All P ms → Stands m ms → P m
All-Stands P [] m a h = elim h [ ]
All-Stands P (x ∷ ms) m (p, a) Stands.here = p
All-Stands P (x ∷ ms) m (p, a) (Stands.there h) = All-Stands P ms m a h

absent_dependencies :
    (known : Dict AppModule) (l : String) → lookup l known ≡ none → known_dependencies known l ≡ []
unfolding known_dependencies select_where
absent_dependencies known l h = rw h refl

-- Ranks of the modules are ranks along what the walk goes into.
Ranked-Falls :
    (ms : List AppModule) (rank : String → ℕ)
    → complete (map label_of ms) ms ≡ true
    → Ranked rank ms
    → Falls (known_dependencies (keyed ms)) rank
unfolding Falls Ranked
Ranked-Falls ms rank c r l = elim (Option-cases (lookup l (keyed ms))) [
  | inl absent ↦ rw (absent_dependencies (keyed ms) l absent) tt
  | inr (m, present) ↦
      let (here, stands) = lookup-Stands ms l m present in
      rw (known_dependencies-lookup ms l m c present)
        (subst (λ k. All (λ d. rank d < rank k) m.dependencies) here (r m stands))
]

-- The validation of every list of modules returns: the walk comes to its end, and every label that it
-- orders is found.
pub validate_returns :
    (ms : List AppModule) → (v : AppDependencyValidation) × (validate_app_dependencies ms ≡ some v)
validate_returns ms = let (v, e, _) = validated ms in (v, e)

found-LoadOrder :
    (ms : List AppModule) (v : AppDependencyValidation) (ls : List String)
    → checked ms ≡ true
    → Ordered ms ls
    → map label_of v.ordered_modules ≡ ls
    → All (λ m. lookup m.label (keyed ms) ≡ some m) v.ordered_modules
    → LoadOrder [] v.ordered_modules × ((m : AppModule) → Stands m ms ↔ Stands m v.ordered_modules)
unfolding Ordered checked
found-LoadOrder ms v ls c (order, all, known) labels each = (
  InOrder-LoadOrder ms [] v.ordered_modules (ground (arith, c)) each
      (subst (InOrder (known_dependencies (keyed ms)) []) (sym labels) order),
  λ m. (
    λ h.
        found_Stands ms v.ordered_modules m each (Stands-lookup ms m [] (ground (arith, c)) h)
          (subst (λ k. is_in m.label k ≡ true) (sym labels) (all m.label (Stands-is_in ms m h))),
    λ h. (lookup-Stands ms m.label m (All-Stands _ v.ordered_modules m each h)).1,
  ),
)

-- A validation without errors orders exactly the modules that it is given, each once and after all of
-- its dependencies.
pub validate-LoadOrder :
    (ms : List AppModule) (v : AppDependencyValidation)
    → validate_app_dependencies ms ≡ some v
    → ok v ≡ true
    → LoadOrder [] v.ordered_modules × ((m : AppModule) → Stands m ms ↔ Stands m v.ordered_modules)
unfolding Outcome
validate-LoadOrder ms v e good = elim (outcome_of ms v e) [
  | inl (_, bad, _) ↦ absurd (ground (arith, good, bad))
  | inr (_, _, _, _, inl (bad, _)) ↦ absurd (ground (arith, good, bad))
  | inr (c, w, _, _, inr (_, o, labels, each)) ↦ found-LoadOrder ms v w.ordered c o labels each
]

outer_dependencies :
    (ms : List AppModule) (ls : List String)
    → ((l : String) → is_in l (map label_of ms) ≡ true → is_in l ls ≡ true)
    → (l : String) → is_in l (joined [] ls) ≡ false
    → known_dependencies (keyed ms) l ≡ []
outer_dependencies ms ls all l h = elim (Option-cases (lookup l (keyed ms))) [
  | inl absent ↦ absent_dependencies (keyed ms) l absent
  | inr (m, present) ↦
      absurd (ground (arith, lookup-keyed ms l, ap is_some present, all l, is_in-joined l [] ls, h))
]

Ordered-Ranked :
    (ms : List AppModule) (ls : List String)
    → checked ms ≡ true
    → Ordered ms ls
    → Ranked (height (joined [] ls)) ms
unfolding Ordered checked Ranked Falls
Ordered-Ranked ms ls c (order, all, known) m h =
    let falls =
      InOrder-Falls (known_dependencies (keyed ms)) ls order (outer_dependencies ms ls all) in
    subst (All _)
      (known_dependencies-lookup ms m.label m (ground (arith, c))
        (Stands-lookup ms m [] (ground (arith, c)) h))
      (falls m.label)

cycle_found :
    (ms : List AppModule) (w : Walk Errors) (rank : String → ℕ)
    → checked ms ≡ true
    → Walked ms w
    → Ranked rank ms
    → no_errors w.errors ≡ true
unfolding checked Walked no_errors Above is_in
cycle_found ms w rank c h r =
    let same =
      Visits_acyclic (known_dependencies (keyed ms)) report_circular rank
        (Ranked-Falls ms rank (ground (arith, c)) r) h (λ x k. absurd (ground (arith, k))) in
    ap no_errors same

-- A validation is without errors exactly when no label comes twice, every dependency is there, and
-- the modules can be ranked so that each is above its dependencies, that is, when there is no cycle.
pub validate_ok_iff :
    (ms : List AppModule) (v : AppDependencyValidation)
    → validate_app_dependencies ms ≡ some v
    → (ok v ≡ true) ↔ ((checked ms ≡ true) × (rank : String → ℕ) × Ranked rank ms)
unfolding Outcome
validate_ok_iff ms v e = elim (outcome_of ms v e) [
  | inl (n, bad, _) ↦
      (λ good. absurd (ground (arith, good, bad)), λ (c, _, _). absurd (ground (arith, c, n)))
  | inr (c, w, h, same, inl (bad, _)) ↦ (
    λ good. absurd (ground (arith, good, bad)),
    λ (_, rank, r). absurd (ground (arith, cycle_found ms w rank c h r, bad, ap no_errors same)),
  )
  | inr (c, w, _, _, inr (good, o, _, _)) ↦
      (λ _. (c, height (joined [] w.ordered), Ordered-Ranked ms w.ordered c o), λ _. good)
]
