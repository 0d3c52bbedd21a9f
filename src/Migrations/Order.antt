-- ===== src/Migrations/Order.antt =====
-- What the plan of src/core/migrations/planner.py promises.
use fastapi_foundation.Base.{
  String, ◌≡◌, refl, sym, ap, ◌∙◌, true, false, Option, some, List, [], ◌∷◌, All, arith, subst,
}
use fastapi_foundation.Topological.{is_in, cycle, Walk, nothing_visited}
use fastapi_foundation.Topological.Visits.{visit_all-Visits}
use fastapi_foundation.Topological.Order.{
  InOrder, joined, IsOrdered, Visits-IsOrdered, Visits_known, Visits_errors, visited_ordered,
  All-member,
}
use fastapi_foundation.Apps.{AppModule}
use fastapi_foundation.Migrations.{
  MigrationPhase, MigrationManifest, MigrationPlan, PlanError, Graph, no_errors, by_key, found,
  sorted, keys, graph_dependencies, report_circular, graph_of, walk_graph, plan_of, plan_migrations,
  in_phase,
}
use fastapi_foundation.Migrations.Walks.{is_in-sorted, All-self, graph_inside, walk_graph_returns}

no_errors-report_circular :
    (l : String) (path : List String) (errors : List PlanError)
    → no_errors (report_circular (cycle l path) errors) ≡ false
unfolding report_circular
no_errors-report_circular l path [] = refl
no_errors-report_circular l path (e ∷ errors) = refl

nothing-IsOrdered :
    (dependencies : String → List String)
    → IsOrdered dependencies report_circular no_errors no_errors-report_circular
        (nothing_visited [])
unfolding IsOrdered InOrder joined is_in
nothing-IsOrdered dependencies = (tt, refl, λ l h. absurd (ground (arith, h)))

-- All keys are ordered, each after what it has an edge to, and no others.
unfoldable pub OrderedKeys : Graph → List String → Type 0
OrderedKeys g ks =
    InOrder (graph_dependencies g) [] ks
    × ((k : String) → is_in k (keys g) ≡ true → is_in k ks ≡ true)
    × All (λ k. is_in k (sorted (keys g)) ≡ true) ks

empty_errors : (errors : List PlanError) → no_errors errors ≡ true → errors ≡ []
empty_errors [] h = refl
empty_errors (e ∷ errors) h = absurd (ground (arith, h))

pub walk-OrderedKeys :
    (g : Graph) (errors : List PlanError) (w : Walk (List PlanError))
    → walk_graph (g, errors) ≡ some w
    → no_errors w.errors ≡ true
    → (errors ≡ []) × OrderedKeys g w.ordered
unfolding walk_graph OrderedKeys IsOrdered
walk-OrderedKeys g errors w h good =
    let visits = visit_all-Visits (graph_dependencies g) report_circular _ _ _ w h in
    let clean : errors ≡ [] = empty_errors errors (
      Visits_errors (graph_dependencies g) report_circular no_errors no_errors-report_circular
        visits good) in
    let start =
      subst
        (λ es.
          IsOrdered (graph_dependencies g) report_circular no_errors no_errors-report_circular
            (nothing_visited es))
        (sym clean) (nothing-IsOrdered (graph_dependencies g)) in
    let ((order, same, _), all) =
      Visits-IsOrdered (graph_dependencies g) report_circular no_errors no_errors-report_circular
        visits good start in
    (
      clean,
      (
        order,
        (λ k n.
            visited_ordered k w.visited w.ordered same
              (All-member _ (sorted (keys g)) k all (is_in-sorted k (keys g) ∙ n))),
        Visits_known (graph_dependencies g) report_circular _ (graph_inside g) visits
            (All-self (sorted (keys g))) tt,
      ),
    )

-- A plan is made for every list of manifests: the walk comes to its end, whether or not there is a cycle.
pub plan_returns :
    (ms : List MigrationManifest) (apps : Option (List AppModule)) (phase : Option MigrationPhase)
    → (p : MigrationPlan) × (plan_migrations ms apps phase ≡ some p)
unfolding plan_migrations
plan_returns ms apps phase =
    let (w, h) = walk_graph_returns (graph_of ms apps).0 (graph_of ms apps).1 in
    (
      record {
        migrations = in_phase phase (found (by_key ms []) w.ordered);
        errors = w.errors;
        phase = phase;
      },
      ap (plan_of (by_key ms []) phase) h,
    )
