-- ===== src/Apps.antt =====
-- The order of the application's modules by their dependencies: src/core/apps/dependencies.py, with
-- the attributes of src/core/apps/module.py that it reads.
pub mod Checks
pub mod Walks
pub mod Lookup
pub mod Order
pub mod Found
pub mod Outcome
pub mod Validation
mod Tests
use fastapi_foundation.Base.{
  ℕ, String, Bool, true, false, not, Option, none, some, List, [], ◌∷◌, ◌++◌, map, if◌then◌else◌,
  length, select_where, Dict, lookup, insert, is_some, or_default,
}
use fastapi_foundation.Topological.{Walk, nothing_visited, visit_all}

pub record AppModule : Type 0 where
  pub label : String
  pub dependencies : List String

-- The texts of the errors, by what they name.
pub data DependencyError : Type 0 where
  duplicate_label : String → DependencyError
  missing_dependencies : List String → DependencyError
  circular_dependencies : List String → DependencyError

abbrev pub Errors : Type 0
Errors = Dict (List DependencyError)

pub record AppDependencyValidation : Type 0 where
  pub ordered_modules : List AppModule
  pub errors_by_label : Errors

-- `not errors_by_label`
unfoldable pub no_errors : Errors → Bool
no_errors [] = true
no_errors (e ∷ es) = false

abbrev pub ok : AppDependencyValidation → Bool
ok v = no_errors v.errors_by_label

unfoldable pub add_error : Errors → String → DependencyError → Errors
add_error errors label error =
    insert label (or_default [] (lookup label errors) ++ error ∷ []) errors

-- The loop that fills `modules_by_label`.
unfoldable pub by_label : List AppModule → Dict AppModule → Errors → Dict AppModule × Errors
by_label [] known errors = (known, errors)
by_label (m ∷ ms) known errors =
    let again =
      by_label ms known (add_error errors m.label (DependencyError.duplicate_label m.label)) in
    let rest = by_label ms (insert m.label m known) errors in
    if is_some (lookup m.label known) then again else rest

abbrev pub missing : Dict AppModule → AppModule → List String
missing known m = select_where (λ d. not (is_some (lookup d known))) m.dependencies

abbrev pub is_empty : List String → Bool
is_empty [] = true
is_empty (x ∷ xs) = false

-- The loop over `modules_by_label.values()`.
unfoldable pub check_missing : Dict AppModule → Dict AppModule → Errors → Errors
check_missing known [] errors = errors
check_missing known ((l, m) ∷ ms) errors =
    let lacking = missing known m in
    let rest = check_missing known ms errors in
    let added =
      check_missing known ms
        (add_error errors m.label (DependencyError.missing_dependencies lacking)) in
    if is_empty lacking then rest else added

abbrev pub dependencies_of : Option AppModule → List String
dependencies_of none = []
dependencies_of (some m) = m.dependencies

-- The dependencies that `visit` goes into.
unfoldable pub known_dependencies : Dict AppModule → String → List String
known_dependencies known l =
    select_where (λ d. is_some (lookup d known)) (dependencies_of (lookup l known))

-- The cycle starts at the label under which it is reported.
unfoldable pub report_circular : List String → Errors → Errors
report_circular [] errors = errors
report_circular (l ∷ ls) errors =
    add_error errors l (DependencyError.circular_dependencies (l ∷ ls))

-- `none` is for fuel that ran out.
unfoldable pub topological_order :
    List String → Dict AppModule → Errors → Option (List String × Errors)
topological_order labels known errors =
    elim (visit_all (known_dependencies known) report_circular (length known)
      (select_where (λ l. is_some (lookup l known)) labels) (nothing_visited errors)) [
        | none ↦ none
        | some w ↦ some (if no_errors w.errors then w.ordered else [], w.errors)
      ]

abbrev pub put_first : Option AppModule → Option (List AppModule) → Option (List AppModule)
put_first none ms = none
put_first (some m) none = none
put_first (some m) (some ms) = some (m ∷ ms)

-- `[modules_by_label[label] for label in labels]`, where `none` is for a `KeyError`.
unfoldable pub modules_of : Dict AppModule → List String → Option (List AppModule)
modules_of known [] = some []
modules_of known (l ∷ ls) = put_first (lookup l known) (modules_of known ls)

abbrev pub label_of : AppModule → String
label_of m = m.label

abbrev pub validation_of : Errors → Option (List AppModule) → Option AppDependencyValidation
validation_of errors none = none
validation_of errors (some ms) = some (record { ordered_modules = ms; errors_by_label = errors })

unfoldable pub ordered_validation :
    Dict AppModule → List String × Errors → Option AppDependencyValidation
ordered_validation known (labels, errors) = validation_of errors (modules_of known labels)

-- The order is only looked for where there are no errors.
unfoldable pub order_checked :
    List String → Dict AppModule → Errors → Option AppDependencyValidation
order_checked labels known errors =
    if no_errors errors
    then elim (topological_order labels known errors) [
      | none ↦ none
      | some found ↦ ordered_validation known found
    ]
    else some (record { ordered_modules = []; errors_by_label = errors })

unfoldable pub check_known : List String → Dict AppModule × Errors → Option AppDependencyValidation
check_known labels (known, errors) = order_checked labels known (check_missing known known errors)

-- `none` is for fuel that ran out, or a `KeyError`.
unfoldable pub validate_app_dependencies : List AppModule → Option AppDependencyValidation
validate_app_dependencies modules = check_known (map label_of modules) (by_label modules [] [])
