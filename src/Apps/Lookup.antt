-- ===== src/Apps/Lookup.antt =====
-- The modules behind the labels, in src/core/apps/dependencies.py.
use fastapi_foundation.Base.{
  subst, sym, String, ◌≡◌, refl, ap, true, false, some, List, [], ◌∷◌, map, lookup, is_some, arith,
  Bool-cases, Option-cases, inl, inr, ◌==◌, eq_iff, eq_refl, All, Stands,
}
use fastapi_foundation.Topological.{is_in}
use fastapi_foundation.Apps.{AppModule, label_of, known_dependencies, modules_of}
use fastapi_foundation.Apps.Checks.{keyed, contains_all, complete, distinct, lookup-keyed}
use fastapi_foundation.Apps.Walks.{select_all, keyed-Agree}

-- A module that is found stands among the modules, under its own label.
pub lookup-Stands :
    (ms : List AppModule) (l : String) (m : AppModule)
    → lookup l (keyed ms) ≡ some m
    → (m.label ≡ l) × Stands m ms
unfolding keyed lookup
lookup-Stands [] l m h = absurd (ground (arith, h))
lookup-Stands (x ∷ ms) l m h = elim (Bool-cases (x.label == l)) [
  | inl e ↦
      let same : x ≡ m = ground (arith, h, e) in rw (← same) ((eq_iff x.label l).0 e, Stands.here)
  | inr n ↦ let (p, q) = lookup-Stands ms l m (ground (arith, h, n)) in (p, Stands.there q)
]

pub Stands-is_in :
    (ms : List AppModule) (m : AppModule) → Stands m ms → is_in m.label (map label_of ms) ≡ true
unfolding is_in
Stands-is_in [] m h = elim h [ ]
Stands-is_in (x ∷ ms) m Stands.here = rw (eq_refl x.label) refl
Stands-is_in (x ∷ ms) m (Stands.there h) = ground (arith, Stands-is_in ms m h)

distinct_seen :
    (ms : List AppModule) (m : AppModule) (seen : List String)
    → distinct seen ms ≡ true
    → Stands m ms
    → is_in m.label seen ≡ false
unfolding distinct is_in
distinct_seen [] m seen d h = elim h [ ]
distinct_seen (x ∷ ms) m seen d Stands.here = ground (arith, d)
distinct_seen (x ∷ ms) m seen d (Stands.there h) =
    ground (arith, distinct_seen ms m (x.label ∷ seen) (ground (arith, d)) h)

-- Where no label comes twice, each module is found.
pub Stands-lookup :
    (ms : List AppModule) (m : AppModule) (seen : List String)
    → distinct seen ms ≡ true
    → Stands m ms
    → lookup m.label (keyed ms) ≡ some m
unfolding keyed lookup distinct is_in
Stands-lookup [] m seen d h = elim h [ ]
Stands-lookup (x ∷ ms) m seen d Stands.here = rw (eq_refl x.label) refl
Stands-lookup (x ∷ ms) m seen d (Stands.there h) = ground (
  arith,
  distinct_seen ms m (x.label ∷ seen) (ground (arith, d)) h,
  Stands-lookup ms m (x.label ∷ seen) (ground (arith, d)) h,
)

complete-Stands :
    (labels : List String) (ms : List AppModule) (m : AppModule)
    → complete labels ms ≡ true
    → Stands m ms
    → contains_all labels m.dependencies ≡ true
unfolding complete
complete-Stands labels [] m c h = elim h [ ]
complete-Stands labels (x ∷ ms) m c Stands.here = ground (arith, c)
complete-Stands labels (x ∷ ms) m c (Stands.there h) =
    complete-Stands labels ms m (ground (arith, c)) h

-- Where none is missing, the walk goes into all dependencies of a module.
pub known_dependencies-lookup :
    (ms : List AppModule) (l : String) (m : AppModule)
    → complete (map label_of ms) ms ≡ true
    → lookup l (keyed ms) ≡ some m
    → known_dependencies (keyed ms) l ≡ m.dependencies
unfolding known_dependencies
known_dependencies-lookup ms l m c h = rw h (
    select_all (keyed ms) (map label_of ms) m.dependencies (keyed-Agree ms)
      (complete-Stands (map label_of ms) ms m c (lookup-Stands ms l m h).1))

-- What is looked up for labels of modules are modules with those labels, as they are found.
pub modules_of-labels :
    (ms : List AppModule) (ls : List String)
    → All (λ l. is_in l (map label_of ms) ≡ true) ls
    → (found : List AppModule) × (modules_of (keyed ms) ls ≡ some found)
      × (map label_of found ≡ ls)
      × All (λ m. lookup m.label (keyed ms) ≡ some m) found
unfolding modules_of
modules_of-labels ms [] a = ([], refl, refl, tt)
modules_of-labels ms (l ∷ ls) (p, a) = elim (Option-cases (lookup l (keyed ms))) [
  | inl absent ↦ absurd (ground (arith, lookup-keyed ms l, p, ap is_some absent))
  | inr (m, present) ↦
      let (found, e, labels, each) = modules_of-labels ms ls a in
      let (here, _) = lookup-Stands ms l m present in
      (
        m ∷ found,
        rw (present, e) refl,
        rw (here, labels) refl,
        ((subst (λ k. lookup k (keyed ms) ≡ some m) (sym here) present, each)),
      )
]
