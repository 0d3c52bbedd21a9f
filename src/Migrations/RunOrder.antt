-- ===== src/Migrations/RunOrder.antt =====
-- The order in which the plan of src/core/migrations/planner.py runs the migrations.
use fastapi_foundation.Base.{
  Dict, String, ◌≡◌, ap, true, false, Option, List, [], ◌∷◌, map, if◌then◌else◌, All, Stands,
  length, eqb, or_default, arith,
}
use fastapi_foundation.Topological.{is_in}
use fastapi_foundation.Apps.{AppModule}
use fastapi_foundation.Migrations.{
  MigrationManifest, PlanError, Graph, edges, key, dependency_key, no_errors, by_key, graph_of,
  link_manifests, link_modules, empty_graph,
}
use fastapi_foundation.Migrations.Graphs.{Kept, Nodes, Named, link_modules-Grows}
use fastapi_foundation.Migrations.Keys.{empty_graph-Nodes, keys-Named}
use fastapi_foundation.Migrations.Links.{IsLinked, link_manifests-Grows, link_manifests-IsLinked}
use fastapi_foundation.Migrations.AppLinks.{link_modules_added}

module _ (ms : List MigrationManifest) (apps : List AppModule) where
  -- What the migration depends on has been run: the migrations that it names, and those of every app
  -- that its app depends on.
  unfoldable pub IsReady : List String → MigrationManifest → Type 0
  IsReady before m =
      All (λ d. is_in (dependency_key m d) before ≡ true) m.depends_on
      × ((a : AppModule) (e : MigrationManifest)
          → Stands a apps
          → m.app_label ≡ a.label
          → Stands e ms
          → is_in e.app_label a.dependencies ≡ true
          → is_in (key e) before ≡ true)

  -- Each migration is ready when it comes, and comes once.
  unfoldable pub RunOrder : List String → List MigrationManifest → Type 0
  RunOrder before [] = Unit
  RunOrder before (m ∷ rest) =
      IsReady before m × (is_in (key m) before ≡ false) × RunOrder (key m ∷ before) rest

-- The graph has all the edges that there should be, between the keys of the manifests.
unfoldable pub IsComplete : List MigrationManifest → List AppModule → Graph → Type 0
IsComplete ms apps g =
    Nodes (map key ms) g
    × All (λ m. All (IsLinked (by_key ms []) m g) m.depends_on) ms
    × ((m e : MigrationManifest) (a : AppModule)
        → Stands m ms
        → Stands e ms
        → Stands a apps
        → m.app_label ≡ a.label
        → is_in e.app_label a.dependencies ≡ true
        → is_in (key e) (edges (key m) g) ≡ true)

Stands-Named :
    (names : List String) (ms : List MigrationManifest)
    → ((m : MigrationManifest) → Stands m ms → is_in (key m) names ≡ true)
    → Named names ms
Stands-Named names [] f = tt
Stands-Named names (m ∷ ms) f =
    (f m Stands.here, Stands-Named names ms (λ x h. f x (Stands.there h)))

IsLinked-later :
    (known : Dict MigrationManifest) (m : MigrationManifest) (g h : Graph) (ds : List String)
    → Kept g h
    → All (IsLinked known m g) ds
    → All (IsLinked known m h) ds
unfolding Kept
IsLinked-later known m g h [] k a = tt
IsLinked-later known m g h (d ∷ ds) k ((p, q), a) =
    ((p, k (key m) (dependency_key m d) q), IsLinked-later known m g h ds k a)

edges_later :
    (known : Dict MigrationManifest) (g h : Graph) (ms : List MigrationManifest)
    → Kept g h
    → All (λ m. All (IsLinked known m g) m.depends_on) ms
    → All (λ m. All (IsLinked known m h) m.depends_on) ms
edges_later known g h [] k a = tt
edges_later known g h (m ∷ ms) k (p, a) =
    (IsLinked-later known m g h m.depends_on k p, edges_later known g h ms k a)

-- Where the graph is built without errors, it is complete, and no key comes twice.
pub graph_of-IsComplete :
    (ms : List MigrationManifest) (apps : Option (List AppModule))
    → (graph_of ms apps).1 ≡ []
    → (length (by_key ms []) ≡ length ms) × IsComplete ms (or_default [] apps) (graph_of ms apps).0
unfolding graph_of IsComplete
graph_of-IsComplete ms apps h =
    let duplicates : List PlanError =
      if eqb (length (by_key ms [])) (length ms) then [] else PlanError.duplicate_keys ∷ [] in
    let named = Stands-Named (map key ms) ms (keys-Named ms) in
    let (clean, linked) =
      link_manifests-IsLinked (by_key ms []) (map key ms) ms (empty_graph ms []) duplicates named
        (ap no_errors h) in
    let g = (link_manifests (by_key ms []) ms (empty_graph ms [], duplicates)).0 in
    let (k1, n1) =
      link_manifests-Grows (by_key ms []) (map key ms) ms (empty_graph ms []) duplicates named in
    let (k2, n2) = link_modules-Grows (map key ms) ms named (or_default [] apps) g in
    (
      ground (arith, clean),
      (
        n2 (n1 (empty_graph-Nodes ms)),
        edges_later (by_key ms []) g (link_modules ms (or_default [] apps) g) ms k2 linked,
        (λ m e a hm he ha same d.
            link_modules_added (map key ms) ms named m e hm he (or_default [] apps) a g ha same d),
      ),
    )
