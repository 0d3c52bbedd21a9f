-- ===== src/Migrations/AppLinks.antt =====
-- The edges for the apps that an app depends on, in src/core/migrations/planner.py.
use fastapi_foundation.Base.{
  String, ◌≡◌, sym, true, List, [], ◌∷◌, Stands, select_where, arith, Bool-cases, inl, inr, ◌==◌,
  eq_iff,
}
use fastapi_foundation.Topological.{is_in}
use fastapi_foundation.Apps.{AppModule}
use fastapi_foundation.Migrations.{
  MigrationManifest, Graph, edges, key, add_edge, add_edges, link_apps, link_app, link_modules,
  manifests_of,
}
use fastapi_foundation.Migrations.Graphs.{
  Kept, edge_added, Named, add_edges-Grows, link_apps-Grows, link_app-Grows, link_modules-Grows,
  manifests_of-Named,
}

manifests_of-Stands :
    (label : String) (ms : List MigrationManifest) (m : MigrationManifest)
    → m.app_label ≡ label
    → Stands m ms
    → Stands m (manifests_of label ms)
unfolding select_where
manifests_of-Stands label [] m e h = elim h [ ]
manifests_of-Stands label (x ∷ ms) m e Stands.here = rw ((eq_iff m.app_label label).1 e) Stands.here
manifests_of-Stands label (x ∷ ms) m e (Stands.there h) = elim (Bool-cases (x.app_label == label)) [
  | inl named_so ↦ rw named_so (Stands.there (manifests_of-Stands label ms m e h))
  | inr other ↦ rw other (manifests_of-Stands label ms m e h)
]

module _ (names : List String) where
  add_edges_added :
      (k : String) (ms : List MigrationManifest) (m : MigrationManifest) (g : Graph)
      → is_in k names ≡ true
      → Stands m ms
      → is_in (key m) (edges k (add_edges k ms g)) ≡ true
  unfolding add_edges Kept
  add_edges_added k [] m g n h = elim h [ ]
  add_edges_added k (x ∷ ms) m g n Stands.here =
      (add_edges-Grows names k ms (add_edge k (key m) g) n).0 k (key m) (edge_added k (key m) g)
  add_edges_added k (x ∷ ms) m g n (Stands.there h) =
      add_edges_added k ms m (add_edge k (key x) g) n h

  link_apps_added :
      (ms earlier : List MigrationManifest) (m e : MigrationManifest) (g : Graph)
      → Named names ms
      → Stands m ms
      → Stands e earlier
      → is_in (key e) (edges (key m) (link_apps ms earlier g)) ≡ true
  unfolding link_apps Kept
  link_apps_added [] earlier m e g a h k = elim h [ ]
  link_apps_added (x ∷ ms) earlier m e g (p, a) Stands.here k =
      (link_apps-Grows names ms earlier (add_edges (key m) earlier g) a).0 (key m) (key e)
        (add_edges_added (key m) earlier e g p k)
  link_apps_added (x ∷ ms) earlier m e g (p, a) (Stands.there h) k =
      link_apps_added ms earlier m e (add_edges (key x) earlier g) a h k

  module _ (all : List MigrationManifest) (named : Named names all) (m e : MigrationManifest)
      (here : Stands m all) (there : Stands e all) where
    link_app_added :
        (label : String) (ds : List String) (g : Graph)
        → m.app_label ≡ label
        → is_in e.app_label ds ≡ true
        → is_in (key e) (edges (key m) (link_app all label ds g)) ≡ true
    unfolding link_app is_in Kept
    link_app_added label [] g a h = absurd (ground (arith, h))
    link_app_added label (d ∷ ds) g a h =
        let g' = link_apps (manifests_of label all) (manifests_of d all) g in
        elim (Bool-cases (d == e.app_label)) [
          | inl same ↦ (link_app-Grows names all named label ds g').0 (key m) (key e) (
              link_apps_added (manifests_of label all) (manifests_of d all) m e g
                (manifests_of-Named names label all named) (manifests_of-Stands label all m a here)
                (manifests_of-Stands d all e (sym ((eq_iff d e.app_label).0 same)) there))
          | inr other ↦ link_app_added label ds g' a (ground (arith, h, other))
        ]

    -- A manifest has an edge to each of those of the apps that its app depends on.
    pub link_modules_added :
        (apps : List AppModule) (a : AppModule) (g : Graph)
        → Stands a apps
        → m.app_label ≡ a.label
        → is_in e.app_label a.dependencies ≡ true
        → is_in (key e) (edges (key m) (link_modules all apps g)) ≡ true
    unfolding link_modules Kept
    link_modules_added [] a g h same d = elim h [ ]
    link_modules_added (x ∷ apps) a g Stands.here same d =
        (link_modules-Grows names all named apps (link_app all a.label a.dependencies g)).0 (key m)
          (key e) (link_app_added a.label a.dependencies g same d)
    link_modules_added (x ∷ apps) a g (Stands.there h) same d =
        link_modules_added apps a (link_app all x.label x.dependencies g) h same d
