-- ===== src/Apps/Found.antt =====
-- What the modules that `validate_app_dependencies` of src/core/apps/dependencies.py orders are like.
use fastapi_foundation.Base.{
  String, ◌≡◌, refl, sym, ap, ◌∙◌, subst, Bool, true, false, some, List, [], ◌∷◌, map, select_where,
  lookup, arith, Bool-cases, inl, inr, ◌==◌, eq_iff, All,
}
use fastapi_foundation.Topological.{is_in, Walk, nothing_visited}
use fastapi_foundation.Topological.Order.{
  visited_ordered, InOrder, joined, IsOrdered, Visits-IsOrdered, Visits_known,
}
use fastapi_foundation.Apps.{
  AppModule, Errors, no_errors, label_of, report_circular, known_dependencies,
}
use fastapi_foundation.Apps.Checks.{keyed, complete, lookup-keyed, no_errors-report_circular}
use fastapi_foundation.Apps.Walks.{keyed-Agree, known_inside, All-select}
use fastapi_foundation.Apps.Lookup.{known_dependencies-lookup}
use fastapi_foundation.Apps.Order.{Walked}

-- Each module comes after those that it depends on, and no label comes twice.
unfoldable pub LoadOrder : List String → List AppModule → Type 0
LoadOrder before [] = Unit
LoadOrder before (m ∷ ms) =
    All (λ d. is_in d before ≡ true) m.dependencies
    × (is_in m.label before ≡ false)
    × LoadOrder (m.label ∷ before) ms

unfoldable pub Ordered : List AppModule → List String → Type 0
Ordered ms ls =
    InOrder (known_dependencies (keyed ms)) [] ls
    × ((l : String) → is_in l (map label_of ms) ≡ true → is_in l ls ≡ true)
    × All (λ l. is_in l (map label_of ms) ≡ true) ls

All-is_in :
    (visited ls : List String) (p : String → Bool)
    → All (λ l. is_in l visited ≡ true) (select_where p ls)
    → (l : String) → p l ≡ true
    → is_in l ls ≡ true
    → is_in l visited ≡ true
unfolding is_in select_where
All-is_in visited [] p a l h k = absurd (ground (arith, k))
All-is_in visited (x ∷ ls) p a l h k = elim (Bool-cases (p x)) [
  | inl e ↦
      let b : (is_in x visited ≡ true) × All (λ l. is_in l visited ≡ true) (select_where p ls) =
        rw e at a in
      elim (Bool-cases (x == l)) [
        | inl s ↦ subst (λ z. is_in z visited ≡ true) ((eq_iff x l).0 s) b.0
        | inr n ↦ All-is_in visited ls p b.1 l h (ground (arith, k, n))
      ]
  | inr off ↦ elim (Bool-cases (x == l)) [
    | inl s ↦ absurd (ground (arith, off, h, ap p ((eq_iff x l).0 s)))
    | inr n ↦ All-is_in visited ls p (rw off at a) l h (ground (arith, k, n))
  ]
]

nothing-IsOrdered :
    (dependencies : String → List String)
    → IsOrdered dependencies report_circular no_errors no_errors-report_circular
        (nothing_visited [])
unfolding IsOrdered InOrder joined is_in
nothing-IsOrdered dependencies = (tt, refl, λ l h. absurd (ground (arith, h)))

pub walk-Ordered :
    (ms : List AppModule) (w : Walk Errors)
    → Walked ms w
    → no_errors w.errors ≡ true
    → Ordered ms w.ordered
unfolding Walked Ordered IsOrdered
walk-Ordered ms w h good =
    let ((order, same, _), all) =
      Visits-IsOrdered (known_dependencies (keyed ms)) report_circular no_errors
        no_errors-report_circular h good (nothing-IsOrdered (known_dependencies (keyed ms))) in
    (
      order,
      λ l k.
          visited_ordered l w.visited w.ordered same
            (All-is_in w.visited (map label_of ms) _ all l (lookup-keyed ms l ∙ k) k),
      Visits_known (known_dependencies (keyed ms)) report_circular _
          (known_inside (keyed ms) (map label_of ms) (keyed-Agree ms)) h
          (All-select _ _ (map label_of ms) (λ d k. sym (lookup-keyed ms d) ∙ k)) tt,
    )

pub InOrder-LoadOrder :
    (ms : List AppModule) (before : List String) (found : List AppModule)
    → complete (map label_of ms) ms ≡ true
    → All (λ m. lookup m.label (keyed ms) ≡ some m) found
    → InOrder (known_dependencies (keyed ms)) before (map label_of found)
    → LoadOrder before found
unfolding InOrder LoadOrder
InOrder-LoadOrder ms before [] c a h = tt
InOrder-LoadOrder ms before (m ∷ found) c (p, a) (d, n, h) = (
  subst (All (λ d. is_in d before ≡ true)) (known_dependencies-lookup ms m.label m c p) d,
  n,
  InOrder-LoadOrder ms (m.label ∷ before) found c a h,
)
