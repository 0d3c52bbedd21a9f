-- ===== src/Apps/Checks.antt =====
-- The checks before the walk, of src/core/apps/dependencies.py: duplicate labels and missing
-- dependencies.
use mathlib.Core.List.{append-nil, append_assoc}
use fastapi_foundation.Base.{
  String, ◌≡◌, refl, sym, ap, ◌∙◌, Bool, true, false, not, ◌&&◌, List, [], ◌∷◌, ◌++◌, map,
  select_where, Dict, lookup, insert, is_some, lookup-insert, arith, Bool-cases, inl, inr, ◌==◌,
}
use fastapi_foundation.Topological.{is_in, cycle}
use fastapi_foundation.Apps.{
  AppModule, is_empty, DependencyError, Errors, no_errors, add_error, by_label, missing,
  check_missing, label_of, report_circular,
}

-- No label comes twice, nor is it among the labels that were seen before.
unfoldable pub distinct : List String → List AppModule → Bool
distinct seen [] = true
distinct seen (m ∷ ms) = not (is_in m.label seen) && distinct (m.label ∷ seen) ms

unfoldable pub contains_all : List String → List String → Bool
contains_all labels [] = true
contains_all labels (d ∷ ds) = is_in d labels && contains_all labels ds

-- Every dependency is one of the labels.
unfoldable pub complete : List String → List AppModule → Bool
complete labels [] = true
complete labels (m ∷ ms) = contains_all labels m.dependencies && complete labels ms

unfoldable pub keyed : List AppModule → Dict AppModule
keyed [] = []
keyed (m ∷ ms) = (m.label, m) ∷ keyed ms

pub no_errors-add_error :
    (errors : Errors) (l : String) (e : DependencyError) → no_errors (add_error errors l e) ≡ false
unfolding no_errors add_error insert lookup
no_errors-add_error [] l e = refl
no_errors-add_error ((k, es) ∷ errors) l e = ground arith

pub no_errors-report_circular :
    (l : String) (path : List String) (errors : Errors)
    → no_errors (report_circular (cycle l path) errors) ≡ false
unfolding report_circular cycle
no_errors-report_circular l [] errors = no_errors-add_error errors l _
no_errors-report_circular l (x ∷ path) errors = elim (Bool-cases (x == l)) [
  | inl e ↦ rw e (no_errors-add_error errors x _)
  | inr n ↦ rw n (no_errors-report_circular l path errors)
]

insert_new :
    {V : Type 0} (k : String) (v : V) (d : Dict V)
    → is_some (lookup k d) ≡ false
    → insert k v d ≡ d ++ (k, v) ∷ []
unfolding insert lookup
insert_new k v [] h = refl
insert_new k v ((j, w) ∷ d) h = ground (arith, h, insert_new k v d)

-- The labels of the dictionary are those that were seen.
unfoldable pub Agree : Dict AppModule → List String → Type 0
Agree known seen = (l : String) → is_some (lookup l known) ≡ is_in l seen

pub Agree-nil : Agree [] []
unfolding Agree is_in lookup
Agree-nil l = refl

Agree-insert :
    (m : AppModule) (known : Dict AppModule) (seen : List String)
    → Agree known seen
    → Agree (insert m.label m known) (m.label ∷ seen)
unfolding Agree is_in
Agree-insert m known seen h l = ground (arith, lookup-insert m.label l m known, h l)

by_label_dirty :
    (ms : List AppModule) (known : Dict AppModule) (errors : Errors)
    → no_errors errors ≡ false
    → no_errors (by_label ms known errors).1 ≡ false
unfolding by_label
by_label_dirty [] known errors h = h
by_label_dirty (m ∷ ms) known errors h = elim (Bool-cases (is_some (lookup m.label known))) [
  | inl e ↦ rw e (by_label_dirty ms known _ (no_errors-add_error errors m.label _))
  | inr n ↦ rw n (by_label_dirty ms (insert m.label m known) errors h)
]

pub by_label-distinct :
    (ms : List AppModule) (known : Dict AppModule) (seen : List String) (errors : Errors)
    → Agree known seen
    → distinct seen ms ≡ true
    → by_label ms known errors ≡ (known ++ keyed ms, errors)
unfolding by_label distinct keyed Agree
by_label-distinct [] known seen errors a h = ap (λ d. (d, errors)) (sym (append-nil known))
by_label-distinct (m ∷ ms) known seen errors a h =
    let new : is_some (lookup m.label known) ≡ false = ground (arith, a m.label, h) in
    let next =
      by_label-distinct ms (insert m.label m known) (m.label ∷ seen) errors
        (Agree-insert m known seen a) (ground (arith, h)) in
    rw new (
      next
      ∙ rw (insert_new m.label m known new)
          (ap (λ d. (d, errors)) (append_assoc known ((m.label, m) ∷ []) (keyed ms))))

pub by_label_again :
    (ms : List AppModule) (known : Dict AppModule) (seen : List String) (errors : Errors)
    → Agree known seen
    → distinct seen ms ≡ false
    → no_errors (by_label ms known errors).1 ≡ false
unfolding by_label distinct Agree
by_label_again [] known seen errors a h = absurd (ground (arith, h))
by_label_again (m ∷ ms) known seen errors a h = elim (Bool-cases (is_some (lookup m.label known))) [
  | inl e ↦ rw e (by_label_dirty ms known _ (no_errors-add_error errors m.label _))
  | inr n ↦ rw n (
      by_label_again ms (insert m.label m known) (m.label ∷ seen) errors
        (Agree-insert m known seen a) (ground (arith, h, n, a m.label)))
]

pub lookup-keyed :
    (ms : List AppModule) (l : String) → is_some (lookup l (keyed ms)) ≡ is_in l (map label_of ms)
unfolding keyed lookup is_in
lookup-keyed [] l = refl
lookup-keyed (m ∷ ms) l = ground (arith, lookup-keyed ms l)

missing_none :
    (known : Dict AppModule) (labels ds : List String)
    → Agree known labels
    → is_empty (select_where (λ d. not (is_some (lookup d known))) ds) ≡ contains_all labels ds
unfolding select_where contains_all Agree
missing_none known labels [] a = refl
missing_none known labels (d ∷ ds) a = ground (arith, a d, missing_none known labels ds a)

pub check_missing_dirty :
    (known ms : Dict AppModule) (errors : Errors)
    → no_errors errors ≡ false
    → no_errors (check_missing known ms errors) ≡ false
unfolding check_missing
check_missing_dirty known [] errors h = h
check_missing_dirty known ((l, m) ∷ ms) errors h = elim (Bool-cases (is_empty (missing known m))) [
  | inl e ↦ rw e (check_missing_dirty known ms errors h)
  | inr n ↦ rw n (check_missing_dirty known ms _ (no_errors-add_error errors m.label _))
]

pub check_missing-complete :
    (known : Dict AppModule) (labels : List String) (ms : List AppModule) (errors : Errors)
    → Agree known labels
    → complete labels ms ≡ true
    → check_missing known (keyed ms) errors ≡ errors
unfolding check_missing keyed complete
check_missing-complete known labels [] errors a h = refl
check_missing-complete known labels (m ∷ ms) errors a h =
    let here : is_empty (missing known m) ≡ true =
      missing_none known labels m.dependencies a ∙ ground (arith, h) in
    rw here (check_missing-complete known labels ms errors a (ground (arith, h)))

pub check_missing_lacks :
    (known : Dict AppModule) (labels : List String) (ms : List AppModule) (errors : Errors)
    → Agree known labels
    → complete labels ms ≡ false
    → no_errors (check_missing known (keyed ms) errors) ≡ false
unfolding check_missing keyed complete
check_missing_lacks known labels [] errors a h = absurd (ground (arith, h))
check_missing_lacks known labels (m ∷ ms) errors a h =
    elim (Bool-cases (is_empty (missing known m))) [
      | inl e ↦ rw e (
          check_missing_lacks known labels ms errors a
            (ground (arith, h, missing_none known labels m.dependencies a, e)))
      | inr n ↦ rw n (check_missing_dirty known (keyed ms) _ (no_errors-add_error errors m.label _))
    ]
