-- ===== src/Apps/Walks.antt =====
-- The walk that `_topological_order` of src/core/apps/dependencies.py makes once the checks passed.
use fastapi_foundation.Base.{
  suc, String, ◌≡◌, refl, sym, ap, ◌∙◌, Bool, true, some, List, [], ◌∷◌, map, length, select_where,
  Dict, lookup, is_some, arith, Bool-cases, inl, inr, All,
}
use fastapi_foundation.Topological.{is_in, Walk, nothing_visited, visit_all}
use fastapi_foundation.Topological.Fuel.{visit_all-returns, outside_le}
use fastapi_foundation.Apps.{
  AppModule, Errors, label_of, report_circular, known_dependencies, dependencies_of,
}
use fastapi_foundation.Apps.Checks.{keyed, contains_all, lookup-keyed, Agree}

pub All-select :
    (p : String → Bool) (P : String → Type 0) (ls : List String)
    → ((l : String) → p l ≡ true → P l)
    → All P (select_where p ls)
unfolding select_where
All-select p P [] h = tt
All-select p P (l ∷ ls) h = elim (Bool-cases (p l)) [
  | inl e ↦ rw e (h l e, All-select p P ls h)
  | inr n ↦ rw n (All-select p P ls h)
]

pub select_all :
    (known : Dict AppModule) (labels ls : List String)
    → Agree known labels
    → contains_all labels ls ≡ true
    → select_where (λ l. is_some (lookup l known)) ls ≡ ls
unfolding select_where contains_all Agree
select_all known labels [] a h = refl
select_all known labels (l ∷ ls) a h =
    ground (arith, h, a l, select_all known labels ls a (ground (arith, h)))

-- The dependencies that the walk goes into are labels of modules.
pub known_inside :
    (known : Dict AppModule) (labels : List String)
    → Agree known labels
    → (l : String) → All (λ d. is_in d labels ≡ true) (known_dependencies known l)
unfolding known_dependencies Agree
known_inside known labels a l =
    All-select _ _ (dependencies_of (lookup l known)) (λ d h. sym (a d) ∙ h)

length-keyed : (ms : List AppModule) → length (keyed ms) ≡ length (map label_of ms)
unfolding keyed
length-keyed [] = refl
length-keyed (m ∷ ms) = ap suc (length-keyed ms)

pub keyed-Agree : (ms : List AppModule) → Agree (keyed ms) (map label_of ms)
unfolding Agree
keyed-Agree ms l = lookup-keyed ms l

-- The walk over all modules returns, and goes through the labels in their order.
pub walk_returns :
    (ms : List AppModule) (errors : Errors)
    → (w : Walk Errors) × (visit_all
          (known_dependencies (keyed ms))
          report_circular
          (length (keyed ms))
          (select_where (λ l. is_some (lookup l (keyed ms))) (map label_of ms))
          (nothing_visited errors)
        ≡ some w)
walk_returns ms errors =
    visit_all-returns (known_dependencies (keyed ms)) report_circular (map label_of ms)
      (known_inside (keyed ms) (map label_of ms) (keyed-Agree ms)) (length (keyed ms))
      (select_where (λ l. is_some (lookup l (keyed ms))) (map label_of ms)) (nothing_visited errors)
      (omega (arith, length-keyed ms, outside_le (map label_of ms) []))
      (All-select _ _ (map label_of ms) (λ d h. sym (lookup-keyed ms d) ∙ h))
