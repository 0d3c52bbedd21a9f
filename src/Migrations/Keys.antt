-- ===== src/Migrations/Keys.antt =====
-- The manifests by their keys, in src/core/migrations/planner.py.
use fastapi_foundation.Base.{
  Dict, suc, ◌+◌, ◌≤◌, String, ◌≡◌, ◌⊎◌, refl, true, false, ◌||◌, some, List, [], ◌∷◌, map,
  if◌then◌else◌, Stands, length, lookup, insert, lookup-insert, is_some, arith, Bool-cases, inl,
  inr, subst, ◌==◌, eq_iff, eq_refl,
}
use fastapi_foundation.Topological.{is_in}
use fastapi_foundation.Migrations.{MigrationManifest, Graph, key, by_key, empty_graph}
use fastapi_foundation.Migrations.Graphs.{Nodes}

lookup-empty_graph :
    (ms : List MigrationManifest) (g : Graph) (j : String)
    → is_some (lookup j (empty_graph ms g)) ≡ (is_in j (map key ms) || is_some (lookup j g))
unfolding empty_graph is_in
lookup-empty_graph [] g j = refl
lookup-empty_graph (m ∷ ms) g j =
    ground (arith, lookup-empty_graph ms (insert (key m) [] g) j, lookup-insert (key m) j [] g)

pub empty_graph-Nodes : (ms : List MigrationManifest) → Nodes (map key ms) (empty_graph ms [])
unfolding Nodes lookup
empty_graph-Nodes ms j = ground (arith, lookup-empty_graph ms [] j)

lookup-by_key :
    (ms : List MigrationManifest) (d : Dict MigrationManifest) (j : String)
    → is_some (lookup j (by_key ms d)) ≡ (is_in j (map key ms) || is_some (lookup j d))
unfolding by_key is_in
lookup-by_key [] d j = refl
lookup-by_key (m ∷ ms) d j =
    ground (arith, lookup-by_key ms (insert (key m) m d) j, lookup-insert (key m) j m d)

pub by_key_known :
    (ms : List MigrationManifest) (j : String)
    → is_some (lookup j (by_key ms [])) ≡ is_in j (map key ms)
unfolding lookup
by_key_known ms j = ground (arith, lookup-by_key ms [] j)

length-insert :
    (k : String) (v : MigrationManifest) (d : Dict MigrationManifest)
    → length (insert k v d) ≡ (if is_some (lookup k d) then length d else suc (length d))
unfolding insert lookup
length-insert k v [] = refl
length-insert k v ((j, w) ∷ d) = ground (arith, length-insert k v d)

length-by_key :
    (ms : List MigrationManifest) (d : Dict MigrationManifest)
    → length (by_key ms d) ≤ length d + length ms
unfolding by_key
length-by_key [] d = omega arith
length-by_key (m ∷ ms) d =
    ground (arith, length-by_key ms (insert (key m) m d), length-insert (key m) m d)

by_key_found :
    (m : MigrationManifest) (ms : List MigrationManifest) (d : Dict MigrationManifest)
    → ((j : String) (v : MigrationManifest)
        → lookup j (insert (key m) m d) ≡ some v
        → lookup j (by_key ms (insert (key m) m d)) ≡ some v)
    → ((x : MigrationManifest)
        → Stands x ms
        → lookup (key x) (by_key ms (insert (key m) m d)) ≡ some x)
    → (x : MigrationManifest) → Stands x (m ∷ ms)
    → lookup (key x) (by_key ms (insert (key m) m d)) ≡ some x
by_key_found m ms d kept found x Stands.here =
    kept (key m) m (ground (arith, lookup-insert (key m) (key m) m d, eq_refl (key m)))
by_key_found m ms d kept found x (Stands.there h) = found x h

-- Where no key comes twice, each manifest is found.
by_key_distinct :
    (ms : List MigrationManifest) (d : Dict MigrationManifest)
    → length (by_key ms d) ≡ length d + length ms
    → ((j : String) (v : MigrationManifest) → lookup j d ≡ some v → lookup j (by_key ms d) ≡ some v)
      × ((m : MigrationManifest) → Stands m ms → lookup (key m) (by_key ms d) ≡ some m)
unfolding by_key
by_key_distinct [] d e = ((λ j v h. h), (λ m h. elim h [ ]))
by_key_distinct (m ∷ ms) d e =
    let bound = length-by_key ms (insert (key m) m d) in
    let grown = length-insert (key m) m d in
    let fresh : is_some (lookup (key m) d) ≡ false = ground (arith, e, bound, grown) in
    let next : length (by_key ms (insert (key m) m d)) ≡ length (insert (key m) m d) + length ms =
      ground (arith, e, grown, fresh) in
    let (kept, found) = by_key_distinct ms (insert (key m) m d) next in
    (
      (λ j v h. kept j v (ground (arith, h, fresh, lookup-insert (key m) j m d, eq_iff (key m) j))),
      λ x h. by_key_found m ms d kept found x h,
    )

-- What is found stands among the manifests, under its key.
by_key-Stands :
    (ms : List MigrationManifest) (d : Dict MigrationManifest) (j : String) (v : MigrationManifest)
    → lookup j (by_key ms d) ≡ some v
    → (lookup j d ≡ some v) ⊎ ((key v ≡ j) × Stands v ms)
unfolding by_key
by_key-Stands [] d j v h = inl h
by_key-Stands (m ∷ ms) d j v h = elim (by_key-Stands ms (insert (key m) m d) j v h) [
  | inr (k, s) ↦ inr (k, Stands.there s)
  | inl e ↦ elim (Bool-cases (key m == j)) [
    | inr other ↦ inl (ground (arith, e, other, lookup-insert (key m) j m d))
    | inl same ↦
        let it : m ≡ v = ground (arith, e, same, lookup-insert (key m) j m d) in
        inr
          (subst (λ x. (key x ≡ j) × Stands x (m ∷ ms)) it ((eq_iff (key m) j).0 same, Stands.here))
  ]
]

pub lookup-Stands :
    (ms : List MigrationManifest) (j : String) (v : MigrationManifest)
    → lookup j (by_key ms []) ≡ some v
    → (key v ≡ j) × Stands v ms
unfolding lookup
lookup-Stands ms j v h = elim (by_key-Stands ms [] j v h) [
  | inl e ↦ absurd (ground (arith, e))
  | inr s ↦ s
]

pub Stands-lookup :
    (ms : List MigrationManifest) (m : MigrationManifest)
    → length (by_key ms []) ≡ length ms
    → Stands m ms
    → lookup (key m) (by_key ms []) ≡ some m
Stands-lookup ms m e h = (by_key_distinct ms [] (omega (arith, e))).1 m h

pub keys-Named :
    (ms : List MigrationManifest)
    → (m : MigrationManifest) → Stands m ms
    → is_in (key m) (map key ms) ≡ true
unfolding is_in
keys-Named [] m h = elim h [ ]
keys-Named (x ∷ ms) m Stands.here = ground (arith, eq_refl (key m))
keys-Named (x ∷ ms) m (Stands.there h) = ground (arith, keys-Named ms m h)
