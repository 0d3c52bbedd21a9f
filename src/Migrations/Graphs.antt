-- ===== src/Migrations/Graphs.antt =====
-- The edges and nodes of the graph that src/core/migrations/planner.py builds.
use fastapi_foundation.Base.{
  String, ◌≡◌, true, false, ◌||◌, List, [], ◌∷◌, ◌++◌, if◌then◌else◌, select_where, All, lookup,
  is_some, lookup-insert, arith, ◌==◌, eq_iff, eq_refl, Bool-cases, inl, inr,
}
use fastapi_foundation.Topological.{is_in}
use fastapi_foundation.Apps.{AppModule}
use fastapi_foundation.Migrations.{
  MigrationManifest, Graph, edges, key, add, add_edge, add_edges, link_apps, link_app, link_modules,
  manifests_of,
}

-- No edge goes away.
unfoldable pub Kept : Graph → Graph → Type 0
Kept g h = (k d : String) → is_in d (edges k g) ≡ true → is_in d (edges k h) ≡ true

-- The nodes are those names.
unfoldable pub Nodes : List String → Graph → Type 0
Nodes names g = (k : String) → is_some (lookup k g) ≡ is_in k names

is_in_snoc : (d x : String) (xs : List String) → is_in d (xs ++ x ∷ []) ≡ (is_in d xs || (x == d))
unfolding is_in
is_in_snoc d x [] = ground arith
is_in_snoc d x (y ∷ ys) = ground (arith, is_in_snoc d x ys)

is_in-add : (d x : String) (xs : List String) → is_in d (add x xs) ≡ (is_in d xs || (x == d))
unfolding add
is_in-add d x xs = ground (arith, is_in_snoc d x xs, eq_iff x d)

edges-add_edge :
    (k d j x : String) (g : Graph)
    → is_in x (edges j (add_edge k d g))
      ≡ (is_in x (edges j g) || (if k == j then d == x else false))
unfolding add_edge
edges-add_edge k d j x g =
    ground (arith, lookup-insert k j (add d (edges k g)) g, is_in-add x d (edges k g), eq_iff k j)

pub edge_added : (k d : String) (g : Graph) → is_in d (edges k (add_edge k d g)) ≡ true
edge_added k d g = ground (arith, edges-add_edge k d k d g, eq_refl k, eq_refl d)

pub edge-Kept : (k d : String) (g : Graph) → Kept g (add_edge k d g)
unfolding Kept
edge-Kept k d g j x h = ground (arith, edges-add_edge k d j x g, h)

pub edge-Nodes :
    (names : List String) (k d : String) (g : Graph)
    → is_in k names ≡ true
    → Nodes names g
    → Nodes names (add_edge k d g)
unfolding Nodes add_edge
edge-Nodes names k d g h n j =
    ground (arith, h, n j, eq_iff k j, lookup-insert k j (add d (edges k g)) g)

-- From one graph to the next, edges are added between the names.
abbrev pub Grows : List String → Graph → Graph → Type 0
Grows names g h = Kept g h × (Nodes names g → Nodes names h)

pub Grows-refl : (names : List String) (g : Graph) → Grows names g g
unfolding Kept
Grows-refl names g = ((λ k d h. h), (λ n. n))

pub Grows-trans :
    (names : List String) (g h i : Graph) → Grows names g h → Grows names h i → Grows names g i
unfolding Kept
Grows-trans names g h i (a, m) (b, n) = ((λ k d e. b k d (a k d e)), (λ x. n (m x)))

pub edge-Grows :
    (names : List String) (k d : String) (g : Graph)
    → is_in k names ≡ true
    → Grows names g (add_edge k d g)
edge-Grows names k d g h = (edge-Kept k d g, edge-Nodes names k d g h)

abbrev pub Named : List String → List MigrationManifest → Type 0
Named names ms = All (λ m. is_in (key m) names ≡ true) ms

module _ (names : List String) where
  pub add_edges-Grows :
      (k : String) (ms : List MigrationManifest) (g : Graph)
      → is_in k names ≡ true
      → Grows names g (add_edges k ms g)
  unfolding add_edges
  add_edges-Grows k [] g h = Grows-refl names g
  add_edges-Grows k (m ∷ ms) g h =
      Grows-trans names g (add_edge k (key m) g) (add_edges k ms (add_edge k (key m) g))
        (edge-Grows names k (key m) g h) (add_edges-Grows k ms (add_edge k (key m) g) h)

  pub link_apps-Grows :
      (ms earlier : List MigrationManifest) (g : Graph)
      → Named names ms
      → Grows names g (link_apps ms earlier g)
  unfolding link_apps
  link_apps-Grows [] earlier g a = Grows-refl names g
  link_apps-Grows (m ∷ ms) earlier g (p, a) =
      Grows-trans names g (add_edges (key m) earlier g)
        (link_apps ms earlier (add_edges (key m) earlier g)) (add_edges-Grows (key m) earlier g p)
        (link_apps-Grows ms earlier (add_edges (key m) earlier g) a)

  pub manifests_of-Named :
      (label : String) (ms : List MigrationManifest)
      → Named names ms
      → Named names (manifests_of label ms)
  unfolding select_where
  manifests_of-Named label [] a = tt
  manifests_of-Named label (m ∷ ms) (p, a) = elim (Bool-cases (m.app_label == label)) [
    | inl e ↦ rw e (p, manifests_of-Named label ms a)
    | inr n ↦ rw n (manifests_of-Named label ms a)
  ]

  module _ (all : List MigrationManifest) (named : Named names all) where
    pub link_app-Grows :
        (label : String) (ds : List String) (g : Graph) → Grows names g (link_app all label ds g)
    unfolding link_app
    link_app-Grows label [] g = Grows-refl names g
    link_app-Grows label (d ∷ ds) g =
        let h = link_apps (manifests_of label all) (manifests_of d all) g in
        Grows-trans names g h (link_app all label ds h)
          (link_apps-Grows (manifests_of label all) (manifests_of d all) g
            (manifests_of-Named label all named))
          (link_app-Grows label ds h)

    pub link_modules-Grows :
        (apps : List AppModule) (g : Graph) → Grows names g (link_modules all apps g)
    unfolding link_modules
    link_modules-Grows [] g = Grows-refl names g
    link_modules-Grows (a ∷ apps) g =
        let h = link_app all a.label a.dependencies g in
        Grows-trans names g h (link_modules all apps h) (link_app-Grows a.label a.dependencies g)
          (link_modules-Grows apps h)
