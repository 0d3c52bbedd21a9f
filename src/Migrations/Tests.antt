-- ===== src/Migrations/Tests.antt =====
-- src/core/migrations/planner.py: the statements about the plan, at concrete manifests.
use fastapi_foundation.Base.{
  ◌≡◌, ◌↔◌, refl, none, some, List, [], ◌∷◌, Stands, lookup, insert, select_where, has_char,
}
use fastapi_foundation.Topological.{is_in, visit_all, remove, pop}
use fastapi_foundation.Apps.{AppModule}
use fastapi_foundation.Migrations.{
  MigrationPhase, MigrationManifest, MigrationPlan, plan_migrations, in_phase, key, dependency_key,
  by_key, empty_graph, add, add_edge, link_dependencies, link_manifests, add_edges, link_apps,
  link_app, link_modules, insert_sorted, sorted, keys, graph_dependencies, found, graph_of,
  walk_graph,
}
use fastapi_foundation.Migrations.RunOrder.{RunOrder}
use fastapi_foundation.Migrations.Order.{plan_returns}
use fastapi_foundation.Migrations.Plans.{plan-RunOrder}

abbrev accounts : MigrationManifest
accounts = record {
  app_label = "accounts";
  migration_id = "0001";
  phase = MigrationPhase.expand;
  depends_on = [];
}

abbrev access : MigrationManifest
access = record {
  app_label = "access";
  migration_id = "0001";
  phase = MigrationPhase.expand;
  depends_on = [];
}

abbrev access_next : MigrationManifest
access_next = record {
  app_label = "access";
  migration_id = "0002";
  phase = MigrationPhase.contract;
  depends_on = "0001" ∷ [];
}

abbrev manifests : List MigrationManifest
manifests = access_next ∷ access ∷ accounts ∷ []

abbrev apps : List AppModule
apps = record { label = "access"; dependencies = "accounts" ∷ [] } ∷ []

abbrev plan : MigrationPlan
plan = record { migrations = accounts ∷ access ∷ access_next ∷ []; errors = []; phase = none }

planned : plan_migrations manifests (some apps) none ≡ some plan
unfolding plan_migrations graph_of walk_graph key dependency_key by_key empty_graph add add_edge
    link_dependencies link_manifests add_edges link_apps link_app link_modules insert_sorted sorted
    keys graph_dependencies found is_in visit_all remove pop lookup insert select_where has_char
planned = refl

plan_returns_example :
    (p : MigrationPlan) × (plan_migrations manifests none (some MigrationPhase.contract) ≡ some p)
plan_returns_example = plan_returns manifests none (some MigrationPhase.contract)

plan-RunOrder_example :
    (all : List MigrationManifest) × (plan.migrations ≡ in_phase none all)
    × RunOrder manifests apps [] all
    × ((m : MigrationManifest) → Stands m manifests ↔ Stands m all)
plan-RunOrder_example = plan-RunOrder manifests (some apps) none plan planned refl
