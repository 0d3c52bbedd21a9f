-- ===== src/Apps/Tests.antt =====
-- src/core/apps/dependencies.py: the statements about the validation, at concrete modules.
use fastapi_foundation.Base.{
  ℕ, String, ◌≡◌, ◌↔◌, refl, true, some, List, [], ◌∷◌, Stands, lookup, insert, select_where,
}
use fastapi_foundation.Apps.{
  AppModule, AppDependencyValidation, DependencyError, ok, validate_app_dependencies, check_known,
  order_checked, no_errors, check_missing, by_label, topological_order, known_dependencies,
  ordered_validation, modules_of, report_circular, add_error,
}
use fastapi_foundation.Topological.{visit_all, is_in, cycle, pop, remove}
use fastapi_foundation.Apps.Order.{checked}
use fastapi_foundation.Apps.Found.{LoadOrder}
use fastapi_foundation.Apps.Validation.{
  Ranked, validate_returns, validate-LoadOrder, validate_ok_iff,
}

abbrev accounts : AppModule
accounts = record { label = "accounts"; dependencies = [] }

abbrev tenants : AppModule
tenants = record { label = "tenants"; dependencies = "accounts" ∷ [] }

abbrev access : AppModule
access = record { label = "access"; dependencies = "tenants" ∷ "accounts" ∷ [] }

abbrev installed : List AppModule
installed = access ∷ accounts ∷ tenants ∷ []

abbrev in_order : AppDependencyValidation
in_order = record { ordered_modules = accounts ∷ tenants ∷ access ∷ []; errors_by_label = [] }

abbrev settings : AppModule
settings = record { label = "settings"; dependencies = "audit" ∷ [] }

abbrev audit : AppModule
audit = record { label = "audit"; dependencies = "settings" ∷ [] }

abbrev circular : AppDependencyValidation
circular = record {
  ordered_modules = [];
  errors_by_label =
      (
        "settings",
        DependencyError.circular_dependencies ("settings" ∷ "audit" ∷ "settings" ∷ []) ∷ [],
      )
      ∷ [];
}

installed_validated : validate_app_dependencies installed ≡ some in_order
unfolding validate_app_dependencies check_known order_checked no_errors check_missing by_label
    lookup insert select_where topological_order visit_all is_in known_dependencies
    ordered_validation modules_of report_circular cycle add_error pop remove
installed_validated = refl

circular_validated : validate_app_dependencies (settings ∷ audit ∷ []) ≡ some circular
unfolding validate_app_dependencies check_known order_checked no_errors check_missing by_label
    lookup insert select_where topological_order visit_all is_in known_dependencies
    ordered_validation modules_of report_circular cycle add_error pop remove
circular_validated = refl

validate_returns_example :
    (v : AppDependencyValidation) × (validate_app_dependencies installed ≡ some v)
validate_returns_example = validate_returns installed

validate-LoadOrder_example :
    LoadOrder [] (accounts ∷ tenants ∷ access ∷ [])
    × ((m : AppModule) → Stands m installed ↔ Stands m (accounts ∷ tenants ∷ access ∷ []))
unfolding no_errors
validate-LoadOrder_example = validate-LoadOrder installed in_order installed_validated refl

validate_ok_iff_example : (ok circular ≡ true) ↔ (
    (checked (settings ∷ audit ∷ []) ≡ true)
    × (rank : String → ℕ) × Ranked rank (settings ∷ audit ∷ []))
validate_ok_iff_example = validate_ok_iff (settings ∷ audit ∷ []) circular circular_validated
