-- ===== src/Migrations.antt =====
-- The plan of the migrations: src/core/migrations/planner.py, with the attributes of
-- src/core/migrations/manifest.py that it reads. The registry of apps is the list of its modules.
pub mod Graphs
pub mod Keys
pub mod Links
pub mod AppLinks
pub mod Walks
pub mod Order
pub mod RunOrder
pub mod Plans
mod Tests
use Prim.Native.String.{◌++◌ as ◌<>◌, compare}
use Prim.Native.Nat.{Ordering}
use fastapi_foundation.Base.{
  ℕ, String, Bool, true, false, not, ◌&&◌, Option, none, some, List, [], ◌∷◌, ◌++◌, if◌then◌else◌,
  length, select_where, eqb, Dict, lookup, insert, is_some, or_default, has_char, ◌==◌,
}
use fastapi_foundation.Topological.{is_in, Walk, nothing_visited, visit_all}
use fastapi_foundation.Apps.{AppModule}

-- `MigrationPhase`
pub data MigrationPhase : Type 0 where
  expand backfill contract maintenance : MigrationPhase

abbrev pub same_phase : MigrationPhase → MigrationPhase → Bool
same_phase expand expand = true
same_phase backfill backfill = true
same_phase contract contract = true
same_phase maintenance maintenance = true
same_phase _ _ = false

pub record MigrationManifest : Type 0 where
  pub app_label : String
  pub migration_id : String
  pub phase : MigrationPhase
  pub depends_on : List String

-- `MigrationManifest.key`
unfoldable pub key : MigrationManifest → String
key m = m.app_label <> (":" <> m.migration_id)

-- The texts of the errors, by what they name.
pub data PlanError : Type 0 where
  duplicate_keys : PlanError
  missing_migration : String → String → PlanError
  circular_dependency : List String → PlanError

pub record MigrationPlan : Type 0 where
  pub migrations : List MigrationManifest
  pub errors : List PlanError
  pub phase : Option MigrationPhase

-- `MigrationPlan.ok`: `not self.errors`
abbrev pub no_errors : List PlanError → Bool
no_errors [] = true
no_errors (e ∷ es) = false

-- `_dependency_key`
unfoldable pub dependency_key : MigrationManifest → String → String
dependency_key m d = if has_char 58 d then d else m.app_label <> (":" <> d)

-- `{manifest.key: manifest for manifest in manifests}`
unfoldable pub by_key : List MigrationManifest → Dict MigrationManifest → Dict MigrationManifest
by_key [] known = known
by_key (m ∷ ms) known = by_key ms (insert (key m) m known)

-- The dependencies of each key, as sets.
abbrev pub Graph : Type 0
Graph = Dict (List String)

abbrev pub edges : String → Graph → List String
edges k g = or_default [] (lookup k g)

-- `{manifest.key: set() for manifest in manifests}`
unfoldable pub empty_graph : List MigrationManifest → Graph → Graph
empty_graph [] g = g
empty_graph (m ∷ ms) g = empty_graph ms (insert (key m) [] g)

-- `set.add`
unfoldable pub add : String → List String → List String
add d xs = if is_in d xs then xs else xs ++ d ∷ []

-- `graph[k].add(d)`
unfoldable pub add_edge : String → String → Graph → Graph
add_edge k d g = insert k (add d (edges k g)) g

-- The loop over one manifest's dependencies.
unfoldable pub link_dependencies :
    Dict MigrationManifest
    → MigrationManifest
    → List String
    → Graph × List PlanError
    → Graph × List PlanError
link_dependencies known m [] (g, errors) = (g, errors)
link_dependencies known m (d ∷ ds) (g, errors) =
    let k = dependency_key m d in
    let linked = link_dependencies known m ds (add_edge (key m) k g, errors) in
    let lacking =
      link_dependencies known m ds (g, errors ++ PlanError.missing_migration (key m) k ∷ []) in
    if is_some (lookup k known) then linked else lacking

-- The loop over the manifests.
unfoldable pub link_manifests :
    Dict MigrationManifest
    → List MigrationManifest
    → Graph × List PlanError
    → Graph × List PlanError
link_manifests known [] state = state
link_manifests known (m ∷ ms) state =
    link_manifests known ms (link_dependencies known m m.depends_on state)

-- `manifests_by_app.get(label, [])`
abbrev pub manifests_of : String → List MigrationManifest → List MigrationManifest
manifests_of label ms = select_where (λ m. m.app_label == label) ms

unfoldable pub add_edges : String → List MigrationManifest → Graph → Graph
add_edges k [] g = g
add_edges k (m ∷ ms) g = add_edges k ms (add_edge k (key m) g)

unfoldable pub link_apps : List MigrationManifest → List MigrationManifest → Graph → Graph
link_apps [] earlier g = g
link_apps (m ∷ ms) earlier g = link_apps ms earlier (add_edges (key m) earlier g)

-- The loop over an app's dependencies.
unfoldable pub link_app : List MigrationManifest → String → List String → Graph → Graph
link_app all label [] g = g
link_app all label (d ∷ ds) g =
    link_app all label ds (link_apps (manifests_of label all) (manifests_of d all) g)

unfoldable pub link_modules : List MigrationManifest → List AppModule → Graph → Graph
link_modules all [] g = g
link_modules all (a ∷ apps) g = link_modules all apps (link_app all a.label a.dependencies g)

-- The order of texts by their code points, and `sorted` of a set.
abbrev precedes : String → String → Bool
precedes a b = elim (compare a b) [ Ordering.gt ↦ false | _ ↦ true ]

unfoldable pub insert_sorted : String → List String → List String
insert_sorted x [] = x ∷ []
insert_sorted x (y ∷ ys) =
    let rest = insert_sorted x ys in if precedes x y then x ∷ y ∷ ys else y ∷ rest

unfoldable pub sorted : List String → List String
sorted [] = []
sorted (x ∷ xs) = insert_sorted x (sorted xs)

unfoldable pub keys : Graph → List String
keys [] = []
keys ((k, ds) ∷ g) = k ∷ keys g

-- The dependencies that `visit` goes into.
unfoldable pub graph_dependencies : Graph → String → List String
graph_dependencies g k = select_where (λ d. is_some (lookup d g)) (sorted (edges k g))

unfoldable pub report_circular : List String → List PlanError → List PlanError
report_circular c errors = errors ++ PlanError.circular_dependency c ∷ []

-- `[manifests_by_key[key] for key in ordered_keys if key in manifests_by_key]`
abbrev pub put_found : Option MigrationManifest → List MigrationManifest → List MigrationManifest
put_found none ms = ms
put_found (some m) ms = m ∷ ms

unfoldable pub found : Dict MigrationManifest → List String → List MigrationManifest
found known [] = []
found known (k ∷ ks) = put_found (lookup k known) (found known ks)

abbrev pub in_phase : Option MigrationPhase → List MigrationManifest → List MigrationManifest
in_phase none ms = ms
in_phase (some p) ms = select_where (λ m. same_phase m.phase p) ms

-- The graph with all its edges, and the errors before the walk.
unfoldable pub graph_of : List MigrationManifest → Option (List AppModule) → Graph × List PlanError
graph_of ms apps =
    let known = by_key ms [] in
    let duplicates = if eqb (length known) (length ms) then [] else PlanError.duplicate_keys ∷ [] in
    let (g, errors) = link_manifests known ms (empty_graph ms [], duplicates) in
    (link_modules ms (or_default [] apps) g, errors)

abbrev pub plan_of :
    Dict MigrationManifest
    → Option MigrationPhase
    → Option (Walk (List PlanError))
    → Option MigrationPlan
plan_of known phase none = none
plan_of known phase (some w) = some (record {
  migrations = in_phase phase (found known w.ordered);
  errors = w.errors;
  phase = phase;
})

-- The walk over the sorted keys.
unfoldable pub walk_graph : Graph × List PlanError → Option (Walk (List PlanError))
walk_graph (g, errors) =
    visit_all (graph_dependencies g) report_circular (length g) (sorted (keys g))
      (nothing_visited errors)

-- `none` is for fuel that ran out.
unfoldable pub plan_migrations :
    List MigrationManifest → Option (List AppModule) → Option MigrationPhase → Option MigrationPlan
plan_migrations ms apps phase = plan_of (by_key ms []) phase (walk_graph (graph_of ms apps))
