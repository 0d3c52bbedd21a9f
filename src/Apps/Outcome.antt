-- ===== src/Apps/Outcome.antt =====
-- The ways in which the validation of src/core/apps/dependencies.py ends.
use fastapi_foundation.Base.{
  String, ◌≡◌, ◌⊎◌, refl, ap, ◌∙◌, subst, true, false, some, List, [], map, if◌then◌else◌, Dict,
  lookup, arith, Bool-cases, inl, inr, All,
}
use fastapi_foundation.Topological.{Walk}
use fastapi_foundation.Apps.{
  AppModule, AppDependencyValidation, Errors, no_errors, ok, label_of, modules_of,
  ordered_validation, validate_app_dependencies,
}
use fastapi_foundation.Apps.Checks.{keyed}
use fastapi_foundation.Apps.Lookup.{modules_of-labels}
use fastapi_foundation.Apps.Order.{checked, unchecked_fails, Walked, walked}
use fastapi_foundation.Apps.Found.{Ordered, walk-Ordered}

-- What a validation comes to: the checks fail, the walk finds a cycle, or it orders the modules.
unfoldable pub Outcome : List AppModule → AppDependencyValidation → Type 0
Outcome ms v =
    ((checked ms ≡ false) × (ok v ≡ false) × (v.ordered_modules ≡ []))
    ⊎ ((checked ms ≡ true)
        × (w : Walk Errors) × Walked ms w
        × (v.errors_by_label ≡ w.errors)
        × (((ok v ≡ false) × (v.ordered_modules ≡ []))
            ⊎ ((ok v ≡ true)
                × Ordered ms w.ordered
                × (map label_of v.ordered_modules ≡ w.ordered)
                × All (λ m. lookup m.label (keyed ms) ≡ some m) v.ordered_modules)))

cyclic_validation :
    (known : Dict AppModule) (w : Walk Errors)
    → no_errors w.errors ≡ false
    → ordered_validation known (if no_errors w.errors then w.ordered else [], w.errors)
      ≡ some (record { ordered_modules = []; errors_by_label = w.errors })
unfolding ordered_validation modules_of
cyclic_validation known w h = rw h refl

modules_validation :
    (known : Dict AppModule) (ls : List String) (errors : Errors) (found : List AppModule)
    → modules_of known ls ≡ some found
    → ordered_validation known (ls, errors)
      ≡ some (record { ordered_modules = found; errors_by_label = errors })
unfolding ordered_validation
modules_validation known ls errors found f = rw f refl

found_validation :
    (known : Dict AppModule) (w : Walk Errors) (found : List AppModule)
    → no_errors w.errors ≡ true
    → modules_of known w.ordered ≡ some found
    → ordered_validation known (if no_errors w.errors then w.ordered else [], w.errors)
      ≡ some (record { ordered_modules = found; errors_by_label = w.errors })
found_validation known w found h f =
    ap (λ b. ordered_validation known (if b then w.ordered else [], w.errors)) h
    ∙ modules_validation known w.ordered w.errors found f

Ordered-modules :
    (ms : List AppModule) (ls : List String)
    → Ordered ms ls
    → (found : List AppModule) × (modules_of (keyed ms) ls ≡ some found)
      × (map label_of found ≡ ls)
      × All (λ m. lookup m.label (keyed ms) ≡ some m) found
unfolding Ordered
Ordered-modules ms ls (_, _, a) = modules_of-labels ms ls a

pub validated :
    (ms : List AppModule)
    → (v : AppDependencyValidation) × (validate_app_dependencies ms ≡ some v) × Outcome ms v
unfolding Outcome
validated ms = elim (Bool-cases (checked ms)) [
  | inr n ↦ let (v, e, bad, empty) = unchecked_fails ms n in (v, e, inl (n, bad, empty))
  | inl c ↦
      let (w, h, e) = walked ms c in
      elim (Bool-cases (no_errors w.errors)) [
        | inr bad ↦ (
          record { ordered_modules = []; errors_by_label = w.errors },
          e ∙ cyclic_validation (keyed ms) w bad,
          inr (c, w, h, refl, inl (bad, refl)),
        )
        | inl good ↦
            let o = walk-Ordered ms w h good in
            let (found, f, labels, each) = Ordered-modules ms w.ordered o in
            (
              record { ordered_modules = found; errors_by_label = w.errors },
              e ∙ found_validation (keyed ms) w found good f,
              inr (c, w, h, refl, inr (good, o, labels, each)),
            )
      ]
]

pub outcome_of :
    (ms : List AppModule) (v : AppDependencyValidation)
    → validate_app_dependencies ms ≡ some v
    → Outcome ms v
outcome_of ms v h =
    let (u, e, o) = validated ms in
    let same : u ≡ v = ground (arith, e, h) in subst (Outcome ms) same o
