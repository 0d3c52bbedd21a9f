-- ===== src/Migrations/Plans.antt =====
-- A plan without errors, src/core/migrations/planner.py.
use fastapi_foundation.Base.{
  String, ◌≡◌, ◌↔◌, refl, sym, ap, ◌∙◌, Bool, true, Option, none, some, List, [], ◌∷◌, map, All,
  Stands, select_where, lookup, is_some, or_default, arith, Bool-cases, Option-cases, inl, inr,
  subst, ◌==◌, eq_iff,
}
use fastapi_foundation.Topological.{is_in, Walk}
use fastapi_foundation.Topological.Order.{InOrder, All-member}
use fastapi_foundation.Apps.{AppModule}
use fastapi_foundation.Migrations.{
  MigrationPhase, MigrationManifest, MigrationPlan, PlanError, Graph, edges, key, dependency_key,
  no_errors, by_key, found, put_found, sorted, keys, graph_dependencies, graph_of, walk_graph,
  plan_of, plan_migrations, in_phase,
}
use fastapi_foundation.Migrations.Graphs.{Nodes}
use fastapi_foundation.Migrations.Keys.{by_key_known, lookup-Stands, Stands-lookup, keys-Named}
use fastapi_foundation.Migrations.Walks.{is_in-sorted, is_in-keys, walk_graph_returns}
use fastapi_foundation.Migrations.Links.{IsLinked}
use fastapi_foundation.Migrations.Order.{OrderedKeys, walk-OrderedKeys}
use fastapi_foundation.Migrations.RunOrder.{IsReady, RunOrder, IsComplete, graph_of-IsComplete}

is_in-select_where :
    (p : String → Bool) (xs : List String) (d : String)
    → p d ≡ true
    → is_in d xs ≡ true
    → is_in d (select_where p xs) ≡ true
unfolding select_where is_in
is_in-select_where p [] d h k = absurd (ground (arith, k))
is_in-select_where p (x ∷ xs) d h k = elim (Bool-cases (x == d)) [
  | inl same ↦ ground (arith, h, same, ap p ((eq_iff x d).0 same))
  | inr other ↦ ground (arith, other, is_in-select_where p xs d h (ground (arith, k, other)))
]

All-Stands {κ} :
    (P : MigrationManifest → Type κ) (ms : List MigrationManifest) (m : MigrationManifest)
    → All P ms
    → Stands m ms
    → P m
All-Stands P [] m a h = elim h [ ]
All-Stands P (x ∷ ms) m (p, a) Stands.here = p
All-Stands P (x ∷ ms) m (p, a) (Stands.there h) = All-Stands P ms m a h

put_later :
    (o : Option MigrationManifest) (fs : List MigrationManifest) (m : MigrationManifest)
    → Stands m fs
    → Stands m (put_found o fs)
put_later none fs m h = h
put_later (some x) fs m h = Stands.there h

module _ (ms : List MigrationManifest) (apps : List AppModule) (g : Graph)
    (complete : IsComplete ms apps g) where
  edge_ready :
      (k d : String) (before : List String)
      → is_in d (edges k g) ≡ true
      → is_in d (map key ms) ≡ true
      → All (λ x. is_in x before ≡ true) (graph_dependencies g k)
      → is_in d before ≡ true
  unfolding graph_dependencies IsComplete Nodes
  edge_ready k d before e known a = All-member _ (graph_dependencies g k) d a (
      is_in-select_where (λ x. is_some (lookup x g)) (sorted (edges k g)) d (complete.0 d ∙ known)
        (is_in-sorted d (edges k g) ∙ e))

  named_ready :
      (m : MigrationManifest) (before ds : List String)
      → All (IsLinked (by_key ms []) m g) ds
      → All (λ x. is_in x before ≡ true) (graph_dependencies g (key m))
      → All (λ d. is_in (dependency_key m d) before ≡ true) ds
  named_ready m before [] l a = tt
  named_ready m before (d ∷ ds) ((known, edge), l) a = (
    edge_ready (key m) (dependency_key m d) before edge
        (sym (by_key_known ms (dependency_key m d)) ∙ known) a,
    named_ready m before ds l a,
  )

  dependencies-IsReady :
      (m : MigrationManifest) (before : List String)
      → Stands m ms
      → All (λ x. is_in x before ≡ true) (graph_dependencies g (key m))
      → IsReady ms apps before m
  unfolding IsReady IsComplete
  dependencies-IsReady m before s a = (
    named_ready m before m.depends_on (All-Stands _ ms m complete.1 s) a,
    (λ app e ha same he d.
        edge_ready (key m) (key e) before (complete.2 m e app s he ha same d) (keys-Named ms e he)
          a),
  )

  known_keys :
      (ks : List String)
      → All (λ k. is_in k (sorted (keys g)) ≡ true) ks
      → All (λ k. is_some (lookup k (by_key ms [])) ≡ true) ks
  unfolding IsComplete Nodes
  known_keys [] a = tt
  known_keys (k ∷ ks) (p, a) = (
    by_key_known ms k
        ∙ (sym (complete.0 k) ∙ (sym (is_in-keys k g) ∙ (sym (is_in-sorted k (keys g)) ∙ p))),
    known_keys ks a,
  )

  node_of : (m : MigrationManifest) → Stands m ms → is_in (key m) (keys g) ≡ true
  unfolding IsComplete Nodes
  node_of m s = is_in-keys (key m) g ∙ (complete.0 (key m) ∙ keys-Named ms m s)

  InOrder-RunOrder :
      (before : List String) (fs : List MigrationManifest)
      → All (λ m. Stands m ms) fs
      → InOrder (graph_dependencies g) before (map key fs)
      → RunOrder ms apps before fs
  unfolding InOrder RunOrder
  InOrder-RunOrder before [] s h = tt
  InOrder-RunOrder before (m ∷ fs) (p, s) (a, n, h) =
      (dependencies-IsReady m before p a, n, InOrder-RunOrder (key m ∷ before) fs s h)

module _ (ms : List MigrationManifest) where
  found_keys :
      (ks : List String)
      → All (λ k. is_some (lookup k (by_key ms [])) ≡ true) ks
      → (map key (found (by_key ms []) ks) ≡ ks) × All (λ m. Stands m ms) (found (by_key ms []) ks)
  unfolding found
  found_keys [] a = (refl, tt)
  found_keys (k ∷ ks) (p, a) = elim (Option-cases (lookup k (by_key ms []))) [
    | inl absent ↦ absurd (ground (arith, p, ap is_some absent))
    | inr (m, present) ↦
        let (same, stands) = found_keys ks a in
        let (here, stand) = lookup-Stands ms k m present in
        subst
          (λ o.
            (map key (put_found o (found (by_key ms []) ks)) ≡ k ∷ ks)
            × All (λ x. Stands x ms) (put_found o (found (by_key ms []) ks)))
          (sym present) (rw (here, same) refl, (stand, stands))
  ]

  found-Stands :
      (ks : List String) (m : MigrationManifest)
      → lookup (key m) (by_key ms []) ≡ some m
      → is_in (key m) ks ≡ true
      → Stands m (found (by_key ms []) ks)
  unfolding found is_in
  found-Stands [] m h k = absurd (ground (arith, k))
  found-Stands (x ∷ ks) m h k = elim (Bool-cases (x == key m)) [
    | inl same ↦
        subst (λ o. Stands m (put_found o (found (by_key ms []) ks)))
          (sym (ap (λ y. lookup y (by_key ms [])) ((eq_iff x (key m)).0 same) ∙ h)) Stands.here
    | inr other ↦
        put_later (lookup x (by_key ms [])) (found (by_key ms []) ks) m
          (found-Stands ks m h (ground (arith, k, other)))
  ]

plan_walk :
    (ms : List MigrationManifest) (apps : Option (List AppModule)) (phase : Option MigrationPhase)
    (p : MigrationPlan)
    → plan_migrations ms apps phase ≡ some p
    → (w : Walk (List PlanError)) × (walk_graph ((graph_of ms apps).0, (graph_of ms apps).1)
        ≡ some w)
      × (record {
        migrations = in_phase phase (found (by_key ms []) w.ordered);
        errors = w.errors;
        phase = phase;
      }
          ≡ p)
unfolding plan_migrations
plan_walk ms apps phase p h =
    let (w, e) = walk_graph_returns (graph_of ms apps).0 (graph_of ms apps).1 in
    let made = ap (plan_of (by_key ms []) phase) e in (w, e, ground (arith, sym made ∙ h))

-- A plan without errors comes from an order of exactly the manifests, in which each comes once, after the
-- migrations that it names and after those of every app that its app depends on; the plan has those of
-- the phase that it is for, or all, in that order.
pub plan-RunOrder :
    (ms : List MigrationManifest) (apps : Option (List AppModule)) (phase : Option MigrationPhase)
    (p : MigrationPlan)
    → plan_migrations ms apps phase ≡ some p
    → no_errors p.errors ≡ true
    → (all : List MigrationManifest) × (p.migrations ≡ in_phase phase all)
      × RunOrder ms (or_default [] apps) [] all
      × ((m : MigrationManifest) → Stands m ms ↔ Stands m all)
unfolding OrderedKeys
plan-RunOrder ms apps phase p h good =
    let g = (graph_of ms apps).0 in
    let (w, walked, same) = plan_walk ms apps phase p h in
    let (clean, (order, all, known)) =
      walk-OrderedKeys g (graph_of ms apps).1 w walked (ap (λ x. no_errors x.errors) same ∙ good) in
    let (unique, complete) = graph_of-IsComplete ms apps clean in
    let (labels, stands) =
      found_keys ms w.ordered (known_keys ms (or_default [] apps) g complete w.ordered known) in
    (
      found (by_key ms []) w.ordered,
      sym (ap (λ x. x.migrations) same),
      InOrder-RunOrder ms (or_default [] apps) g complete [] (found (by_key ms []) w.ordered) stands
          (subst (InOrder (graph_dependencies g) []) (sym labels) order),
      (λ m. (
        (λ s.
            found-Stands ms w.ordered m (Stands-lookup ms m unique s)
              (all (key m) (node_of ms (or_default [] apps) g complete m s))),
        (λ s. All-Stands _ (found (by_key ms []) w.ordered) m stands s),
      )),
    )
