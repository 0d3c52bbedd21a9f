-- ===== src/Migrations/Links.antt =====
-- The edges for what the manifests of src/core/migrations/planner.py depend on.
use fastapi_foundation.Base.{
  Dict, String, ◌≡◌, refl, sym, true, false, List, [], ◌∷◌, ◌++◌, All, lookup, is_some, arith,
  Bool-cases, inl, inr, subst,
}
use fastapi_foundation.Topological.{is_in}
use fastapi_foundation.Migrations.{
  MigrationManifest, PlanError, Graph, edges, key, dependency_key, add_edge, link_dependencies,
  link_manifests, no_errors,
}
use fastapi_foundation.Migrations.Graphs.{
  Kept, Grows, Grows-refl, Grows-trans, edge-Grows, edge_added, Named,
}

no_errors_snoc : (errors : List PlanError) (e : PlanError) → no_errors (errors ++ e ∷ []) ≡ false
no_errors_snoc [] e = refl
no_errors_snoc (x ∷ errors) e = refl

-- The dependency has a manifest and its edge.
abbrev pub IsLinked : Dict MigrationManifest → MigrationManifest → Graph → String → Type 0
IsLinked known m g d =
    (is_some (lookup (dependency_key m d) known) ≡ true)
    × (is_in (dependency_key m d) (edges (key m) g) ≡ true)

module _ (known : Dict MigrationManifest) (names : List String) where
  module _ (m : MigrationManifest) where
    link_known :
        (d : String) (ds : List String) (g : Graph) (errors : List PlanError)
        → is_some (lookup (dependency_key m d) known) ≡ true
        → link_dependencies known m (d ∷ ds) (g, errors)
          ≡ link_dependencies known m ds (add_edge (key m) (dependency_key m d) g, errors)
    unfolding link_dependencies
    link_known d ds g errors h = rw h refl

    link_missing :
        (d : String) (ds : List String) (g : Graph) (errors : List PlanError)
        → is_some (lookup (dependency_key m d) known) ≡ false
        → link_dependencies known m (d ∷ ds) (g, errors)
          ≡ link_dependencies known m ds
              (g, errors ++ PlanError.missing_migration (key m) (dependency_key m d) ∷ [])
    unfolding link_dependencies
    link_missing d ds g errors h = rw h refl

    link_nil :
        (g : Graph) (errors : List PlanError)
        → link_dependencies known m [] (g, errors) ≡ (g, errors)
    unfolding link_dependencies
    link_nil g errors = refl

    link_dirty :
        (ds : List String) (g : Graph) (errors : List PlanError)
        → no_errors errors ≡ false
        → no_errors (link_dependencies known m ds (g, errors)).1 ≡ false
    link_dirty [] g errors h = rw (link_nil g errors) h
    link_dirty (d ∷ ds) g errors h =
        elim (Bool-cases (is_some (lookup (dependency_key m d) known))) [
          | inl e ↦ rw (link_known d ds g errors e) (link_dirty ds _ errors h)
          | inr n ↦ rw (link_missing d ds g errors n) (link_dirty ds g _ (no_errors_snoc errors _))
        ]

    link-Grows :
        (ds : List String) (g : Graph) (errors : List PlanError)
        → is_in (key m) names ≡ true
        → Grows names g (link_dependencies known m ds (g, errors)).0
    link-Grows [] g errors h = rw (link_nil g errors) (Grows-refl names g)
    link-Grows (d ∷ ds) g errors h =
        elim (Bool-cases (is_some (lookup (dependency_key m d) known))) [
          | inl e ↦ rw (link_known d ds g errors e) (
              Grows-trans names g (add_edge (key m) (dependency_key m d) g) _
                (edge-Grows names (key m) (dependency_key m d) g h) (link-Grows ds _ errors h))
          | inr n ↦ rw (link_missing d ds g errors n) (link-Grows ds g _ h)
        ]

    link-IsLinked :
        (ds : List String) (g : Graph) (errors : List PlanError)
        → is_in (key m) names ≡ true
        → no_errors (link_dependencies known m ds (g, errors)).1 ≡ true
        → All (IsLinked known m (link_dependencies known m ds (g, errors)).0) ds
    unfolding Kept
    link-IsLinked [] g errors n h = tt
    link-IsLinked (d ∷ ds) g errors n h =
        elim (Bool-cases (is_some (lookup (dependency_key m d) known))) [
          | inl e ↦
              let g' = add_edge (key m) (dependency_key m d) g in
              let kept = (link-Grows ds g' errors n).0 in
              subst (λ st. All (IsLinked known m st.0) (d ∷ ds)) (sym (link_known d ds g errors e))
                (
                  (
                    e,
                    kept (key m) (dependency_key m d) (edge_added (key m) (dependency_key m d) g),
                  ),
                  link-IsLinked ds g' errors n (rw (link_known d ds g errors e) at h),
                )
          | inr lacks ↦ absurd (
              ground (
                arith,
                rw (link_missing d ds g errors lacks) at h,
                link_dirty ds g _ (
                    no_errors_snoc errors
                      (PlanError.missing_migration (key m) (dependency_key m d))),
              ))
        ]

  link_clean :
      (m : MigrationManifest) (ds : List String) (g : Graph) (errors : List PlanError)
      → no_errors (link_dependencies known m ds (g, errors)).1 ≡ true
      → no_errors errors ≡ true
  link_clean m ds g errors h = elim (Bool-cases (no_errors errors)) [
    | inl clean ↦ clean
    | inr dirty ↦ absurd (ground (arith, h, link_dirty m ds g errors dirty))
  ]

  pub link_manifests-Grows :
      (ms : List MigrationManifest) (g : Graph) (errors : List PlanError)
      → Named names ms
      → Grows names g (link_manifests known ms (g, errors)).0
  unfolding link_manifests
  link_manifests-Grows [] g errors a = Grows-refl names g
  link_manifests-Grows (m ∷ ms) g errors (p, a) =
      Grows-trans names g (link_dependencies known m m.depends_on (g, errors)).0 _
        (link-Grows m m.depends_on g errors p) (link_manifests-Grows ms _ _ a)

  IsLinked-Kept :
      (m : MigrationManifest) (g h : Graph) (ds : List String)
      → Kept g h
      → All (IsLinked known m g) ds
      → All (IsLinked known m h) ds
  unfolding Kept
  IsLinked-Kept m g h [] k a = tt
  IsLinked-Kept m g h (d ∷ ds) k ((p, q), a) =
      ((p, k (key m) (dependency_key m d) q), IsLinked-Kept m g h ds k a)

  -- Where the loop over the manifests reports nothing, every dependency has a manifest and its edge.
  pub link_manifests-IsLinked :
      (ms : List MigrationManifest) (g : Graph) (errors : List PlanError)
      → Named names ms
      → no_errors (link_manifests known ms (g, errors)).1 ≡ true
      → (no_errors errors ≡ true)
        × All (λ m. All (IsLinked known m (link_manifests known ms (g, errors)).0) m.depends_on) ms
  unfolding link_manifests
  link_manifests-IsLinked [] g errors a h = (h, tt)
  link_manifests-IsLinked (m ∷ ms) g errors (p, a) h =
      let st = link_dependencies known m m.depends_on (g, errors) in
      let (clean, rest) = link_manifests-IsLinked ms st.0 st.1 a h in
      let mine = link-IsLinked m m.depends_on g errors p clean in
      (
        link_clean m m.depends_on g errors clean,
        (IsLinked-Kept m st.0 _ m.depends_on (link_manifests-Grows ms st.0 st.1 a).0 mine, rest),
      )
