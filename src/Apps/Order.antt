-- ===== src/Apps/Order.antt =====
-- What `validate_app_dependencies` of src/core/apps/dependencies.py promises.
use fastapi_foundation.Base.{
  ◌≡◌, refl, ap, ◌∙◌, Bool, true, false, ◌&&◌, some, List, [], map, if◌then◌else◌, length,
  select_where, lookup, is_some, arith, Bool-cases, inl, inr,
}
use fastapi_foundation.Topological.{Walk, nothing_visited, visit_all}
use fastapi_foundation.Topological.Visits.{Visits, visit_all-Visits}
use fastapi_foundation.Apps.{
  AppModule, AppDependencyValidation, Errors, no_errors, ok, label_of, report_circular,
  known_dependencies, topological_order, ordered_validation, validate_app_dependencies, check_known,
  order_checked, by_label, check_missing,
}
use fastapi_foundation.Apps.Checks.{
  keyed, Agree-nil, complete, distinct, by_label-distinct, by_label_again, check_missing_dirty,
  check_missing-complete, check_missing_lacks,
}
use fastapi_foundation.Apps.Walks.{keyed-Agree, walk_returns}

-- No label comes twice, and every dependency is there.
unfoldable pub checked : List AppModule → Bool
checked ms = distinct [] ms && complete (map label_of ms) ms

pub unchecked_fails :
    (ms : List AppModule)
    → checked ms ≡ false
    → (v : AppDependencyValidation) × (validate_app_dependencies ms ≡ some v)
      × (ok v ≡ false)
      × (v.ordered_modules ≡ [])
unfolding checked validate_app_dependencies check_known order_checked
unchecked_fails ms h =
    let errors = check_missing (by_label ms [] []).0 (by_label ms [] []).0 (by_label ms [] []).1 in
    let bad : no_errors errors ≡ false = elim (Bool-cases (distinct [] ms)) [
      | inl d ↦ rw (by_label-distinct ms [] [] [] Agree-nil d) (
          check_missing_lacks (keyed ms) (map label_of ms) ms [] (keyed-Agree ms)
            (ground (arith, h, d)))
      | inr n ↦
          check_missing_dirty (by_label ms [] []).0 (by_label ms [] []).0 (by_label ms [] []).1
            (by_label_again ms [] [] [] Agree-nil n)
    ] in
    (record { ordered_modules = []; errors_by_label = errors }, rw bad refl, bad, refl)

-- The walk of `_topological_order` from no errors.
unfoldable pub Walked : List AppModule → Walk Errors → Type 0
Walked ms w =
    Visits (known_dependencies (keyed ms)) report_circular
      (select_where (λ l. is_some (lookup l (keyed ms))) (map label_of ms)) (nothing_visited []) w

order_checked-walk :
    (ms : List AppModule) (w : Walk Errors)
    → visit_all
        (known_dependencies (keyed ms))
        report_circular
        (length (keyed ms))
        (select_where (λ l. is_some (lookup l (keyed ms))) (map label_of ms))
        (nothing_visited [])
      ≡ some w
    → order_checked (map label_of ms) (keyed ms) []
      ≡ ordered_validation (keyed ms) (if no_errors w.errors then w.ordered else [], w.errors)
unfolding order_checked topological_order no_errors
order_checked-walk ms w r = rw r refl

-- Where the checks pass, the walk over all labels decides.
pub walked :
    (ms : List AppModule)
    → checked ms ≡ true
    → (w : Walk Errors) × Walked ms w
      × (validate_app_dependencies ms
          ≡ ordered_validation (keyed ms) (if no_errors w.errors then w.ordered else [], w.errors))
unfolding checked validate_app_dependencies check_known Walked
walked ms h =
    let (w, r) = walk_returns ms [] in
    (
      w,
      visit_all-Visits (known_dependencies (keyed ms)) report_circular _ _ _ w r,
      ap (check_known (map label_of ms))
            (by_label-distinct ms [] [] [] Agree-nil (ground (arith, h)))
          ∙ (ap (order_checked (map label_of ms) (keyed ms)) (
                check_missing-complete (keyed ms) (map label_of ms) ms [] (keyed-Agree ms)
                  (ground (arith, h)))
              ∙ order_checked-walk ms w r),
    )
