-- ===== src/Topological.antt =====
-- The depth first walk that orders what depends on each other: `visit` in `_topological_order` of
-- src/core/apps/dependencies.py and in `plan_migrations` of src/core/migrations/planner.py, which differ
-- in the names, in the order of a node's dependencies and in what is reported of a cycle. The
-- recursion of `visit` runs on fuel, which the number of nodes bounds.
pub mod Visits
pub mod Fuel
pub mod Order
pub mod Acyclic
use fastapi_foundation.Base.{
  ℕ, zero, suc, String, Bool, true, false, ◌||◌, not, Option, none, some, List, [], ◌∷◌, ◌++◌,
  if◌then◌else◌, ◌==◌,
}

-- A set of labels, as the list of its members.
unfoldable pub is_in : String → List String → Bool
is_in l [] = false
is_in l (x ∷ xs) = (x == l) || is_in l xs

-- `set.remove`
unfoldable pub remove : String → List String → List String
remove l [] = []
remove l (x ∷ xs) = let rest = remove l xs in if x == l then rest else x ∷ rest

-- `[*path[path.index(label):], label]`
unfoldable pub cycle : String → List String → List String
cycle l [] = l ∷ []
cycle l (x ∷ xs) = let rest = cycle l xs in if x == l then (x ∷ xs) ++ l ∷ [] else rest

-- `path.pop()`
unfoldable pub pop : List String → List String
pop [] = []
pop (x ∷ []) = []
pop (x ∷ y ∷ ys) = x ∷ pop (y ∷ ys)

-- The variables that `visit` shares, with the errors, to which it reports each cycle.
pub record Walk (E : Type 0) : Type 0 where
  pub ordered : List String
  pub visiting : List String
  pub visited : List String
  pub path : List String
  pub errors : E

module _ {E : Type 0} where
  abbrev pub nothing_visited : E → Walk E
  nothing_visited errors = record {
    ordered = [];
    visiting = [];
    visited = [];
    path = [];
    errors = errors;
  }

  abbrev pub enter : String → Walk E → Walk E
  enter l w = record w { visiting = l ∷ w.visiting; path = w.path ++ l ∷ [] }

  abbrev pub leave : String → Walk E → Walk E
  leave l w = record w {
    path = pop w.path;
    visiting = remove l w.visiting;
    visited = l ∷ w.visited;
    ordered = w.ordered ++ l ∷ [];
  }

  module _ (dependencies : String → List String) (report : List String → E → E) where
    abbrev pub report_cycle : String → Walk E → Walk E
    report_cycle l w = record w { errors = report (cycle l w.path) w.errors }

    -- The calls of `visit` on the labels, one after another; `none` is for fuel that ran out.
    unfoldable pub visit_all : ℕ → List String → Walk E → Option (Walk E)
    visit_all n [] w = some w
    visit_all zero (l ∷ ls) w =
        let rest = visit_all zero ls w in
        let reported = visit_all zero ls (report_cycle l w) in
        if is_in l w.visited then rest else if is_in l w.visiting then reported else none
    visit_all (suc n) (l ∷ ls) w =
        let rest = visit_all (suc n) ls w in
        let reported = visit_all (suc n) ls (report_cycle l w) in
        let inner = visit_all n (dependencies l) (enter l w) in
        if is_in l w.visited
        then rest
        else if is_in l w.visiting
        then reported
        else elim inner [ none ↦ none | some w' ↦ visit_all (suc n) ls (leave l w') ]
