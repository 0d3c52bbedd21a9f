-- ===== src/Migrations/Walks.antt =====
-- The walk of src/core/migrations/planner.py comes to its end.
use fastapi_foundation.Base.{
  suc, String, ◌≡◌, refl, ap, ◌∙◌, true, ◌||◌, some, List, [], ◌∷◌, length, All, lookup, is_some,
  arith, ◌==◌,
}
use fastapi_foundation.Topological.{is_in, Walk, nothing_visited}
use fastapi_foundation.Topological.Fuel.{visit_all-returns, outside_le}
use fastapi_foundation.Topological.Order.{is_in_here, is_in_later}
use fastapi_foundation.Apps.Walks.{All-select}
use fastapi_foundation.Migrations.{
  PlanError, Graph, edges, insert_sorted, sorted, keys, graph_dependencies, report_circular,
  walk_graph,
}

is_in-insert_sorted :
    (l x : String) (xs : List String) → is_in l (insert_sorted x xs) ≡ is_in l (x ∷ xs)
unfolding is_in insert_sorted
is_in-insert_sorted l x [] = refl
is_in-insert_sorted l x (y ∷ ys) = ground (arith, is_in-insert_sorted l x ys)

pub is_in-sorted : (l : String) (xs : List String) → is_in l (sorted xs) ≡ is_in l xs
unfolding sorted is_in
is_in-sorted l [] = refl
is_in-sorted l (x ∷ xs) =
    is_in-insert_sorted l x (sorted xs) ∙ ap (λ b. (x == l) || b) (is_in-sorted l xs)

length-insert_sorted :
    (x : String) (xs : List String) → length (insert_sorted x xs) ≡ suc (length xs)
unfolding insert_sorted
length-insert_sorted x [] = refl
length-insert_sorted x (y ∷ ys) = ground (arith, length-insert_sorted x ys)

length-sorted : (xs : List String) → length (sorted xs) ≡ length xs
unfolding sorted
length-sorted [] = refl
length-sorted (x ∷ xs) = omega (arith, length-insert_sorted x (sorted xs), length-sorted xs)

length-keys : (g : Graph) → length (keys g) ≡ length g
unfolding keys
length-keys [] = refl
length-keys ((k, ds) ∷ g) = ap suc (length-keys g)

pub is_in-keys : (l : String) (g : Graph) → is_in l (keys g) ≡ is_some (lookup l g)
unfolding keys is_in lookup
is_in-keys l [] = refl
is_in-keys l ((k, ds) ∷ g) = ground (arith, is_in-keys l g)

All-weaken :
    (P Q : String → Type 0) (xs : List String) → ((x : String) → P x → Q x) → All P xs → All Q xs
All-weaken P Q [] f a = tt
All-weaken P Q (x ∷ xs) f (p, a) = (f x p, All-weaken P Q xs f a)

pub All-self : (xs : List String) → All (λ x. is_in x xs ≡ true) xs
All-self [] = tt
All-self (x ∷ xs) = (is_in_here x xs, All-weaken _ _ xs (λ y. is_in_later x y xs) (All-self xs))

-- The dependencies that the walk goes into are nodes.
pub graph_inside :
    (g : Graph) (k : String) → All (λ d. is_in d (sorted (keys g)) ≡ true) (graph_dependencies g k)
unfolding graph_dependencies
graph_inside g k =
    All-select _ _ (sorted (edges k g)) (λ d h. is_in-sorted d (keys g) ∙ (is_in-keys d g ∙ h))

pub walk_graph_returns :
    (g : Graph) (errors : List PlanError)
    → (w : Walk (List PlanError)) × (walk_graph (g, errors) ≡ some w)
unfolding walk_graph
walk_graph_returns g errors =
    visit_all-returns (graph_dependencies g) report_circular (sorted (keys g)) (graph_inside g)
      (length g) (sorted (keys g)) (nothing_visited errors)
      (omega (arith, outside_le (sorted (keys g)) [], length-sorted (keys g), length-keys g))
      (All-self (sorted (keys g)))
