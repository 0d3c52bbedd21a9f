-- ===== src/Topological/Fuel.antt =====
-- The recursion of `visit` ends: the number of the nodes is fuel enough. It is on the nodes that
-- are not being visited, of which each call that goes deeper takes one.
use fastapi_foundation.Base.{
  ℕ, length, zero, suc, ◌≤◌, ◌<◌, String, ◌≡◌, refl, sym, ap, ◌∙◌, true, false, not, some, List, [],
  ◌∷◌, arith, All, count_where, Bool-cases, inl, inr, ◌==◌, eq_iff, eq_refl,
}
use fastapi_foundation.Topological.{is_in, remove, Walk, enter, leave, report_cycle, visit_all}
use fastapi_foundation.Topological.Visits.{
  Visits, visit_all-Visits, step_seen, step_looped, step_entered, visit_nil,
}

pub remove_fresh : (l : String) (xs : List String) → is_in l xs ≡ false → remove l xs ≡ xs
unfolding is_in remove
remove_fresh l [] h = refl
remove_fresh l (x ∷ xs) h = ground (arith, remove_fresh l xs)

pub remove_entered : (l : String) (xs : List String) → is_in l xs ≡ false → remove l (l ∷ xs) ≡ xs
unfolding remove
remove_entered l xs h = rw (eq_refl l) (remove_fresh l xs h)

-- How many of the nodes are not in the set.
unfoldable pub outside : List String → List String → ℕ
outside nodes xs = count_where (λ x. not (is_in x xs)) nodes

outside_less : (l : String) (xs nodes : List String) → outside nodes (l ∷ xs) ≤ outside nodes xs
unfolding outside count_where is_in
outside_less l xs [] = omega arith
outside_less l xs (x ∷ nodes) = ground (arith, outside_less l xs nodes)

outside_enter :
    (l : String) (xs nodes : List String)
    → is_in l xs ≡ false
    → is_in l nodes ≡ true
    → outside nodes (l ∷ xs) < outside nodes xs
unfolding outside count_where is_in
outside_enter l xs [] h k = absurd (ground arith)
outside_enter l xs (x ∷ nodes) h k = elim (Bool-cases (x == l)) [
  | inl same ↦
      let e : x ≡ l = (eq_iff x l).0 same in
      ground (arith, rw (← e) at h, (eq_iff l x).1 (sym e), outside_less l xs nodes)
  | inr other ↦ ground (arith, outside_enter l xs nodes h, other)
]

outside_all :
    (nodes xs : List String)
    → outside nodes xs ≡ 0
    → (l : String) → is_in l nodes ≡ true
    → is_in l xs ≡ true
unfolding outside count_where is_in
outside_all [] xs h l k = absurd (ground arith)
outside_all (x ∷ nodes) xs h l k = elim (Bool-cases (x == l)) [
  | inl same ↦ let e : x ≡ l = (eq_iff x l).0 same in rw (← e) (ground (arith, h))
  | inr other ↦ outside_all nodes xs (ground (arith, h)) l (ground (arith, k, other))
]

module _ {E : Type 0} (dependencies : String → List String) (report : List String → E → E) where
  pub Visits-visiting :
      {ls : List String} {w w' : Walk E}
      → Visits dependencies report ls w w'
      → w'.visiting ≡ w.visiting
  Visits-visiting Visits.done = refl
  Visits-visiting (Visits.seen old rest) = Visits-visiting rest
  Visits-visiting (Visits.looped open_ rest) = Visits-visiting rest
  Visits-visiting {w = w} (Visits.entered {l = l} new fresh inner rest) =
      Visits-visiting rest
      ∙ (ap (remove l) (Visits-visiting inner) ∙ remove_entered l w.visiting fresh)

  -- With the nodes for fuel, and dependencies that are nodes, the walk returns.
  pub visit_all-returns :
      (nodes : List String)
      → ((l : String) → All (λ d. is_in d nodes ≡ true) (dependencies l))
      → (n : ℕ) (ls : List String) (w : Walk E) → outside nodes w.visiting ≤ n
      → All (λ l. is_in l nodes ≡ true) ls
      → (w' : Walk E) × (visit_all dependencies report n ls w ≡ some w')
  visit_all-returns nodes inside n [] w enough known = (w, visit_nil dependencies report n w)
  visit_all-returns nodes inside zero (l ∷ ls) w enough (here, known) =
      elim (Bool-cases (is_in l w.visited)) [
        | inl old ↦
            let (w', r) = visit_all-returns nodes inside zero ls w enough known in
            (w', step_seen dependencies report zero l ls w old ∙ r)
        | inr new ↦
            let open_ = outside_all nodes w.visiting (omega (arith, enough)) l here in
            let (w', r) =
              visit_all-returns nodes inside zero ls (report_cycle dependencies report l w) enough
                known in
            (w', step_looped dependencies report zero l ls w new open_ ∙ r)
      ]
  visit_all-returns nodes inside (suc n) (l ∷ ls) w enough (here, known) =
      elim (Bool-cases (is_in l w.visited)) [
        | inl old ↦
            let (w', r) = visit_all-returns nodes inside (suc n) ls w enough known in
            (w', step_seen dependencies report (suc n) l ls w old ∙ r)
        | inr new ↦ elim (Bool-cases (is_in l w.visiting)) [
          | inl open_ ↦
              let (w', r) =
                visit_all-returns nodes inside (suc n) ls (report_cycle dependencies report l w)
                  enough known in
              (w', step_looped dependencies report (suc n) l ls w new open_ ∙ r)
          | inr fresh ↦
              let less = outside_enter l w.visiting nodes fresh here in
              let (v, inner) =
                visit_all-returns nodes inside n (dependencies l) (enter l w)
                  (omega (arith, less, enough)) (inside l) in
              let back =
                Visits-visiting
                  (visit_all-Visits dependencies report n (dependencies l) (enter l w) v inner) in
              let left : (leave l v).visiting ≡ w.visiting =
                ap (remove l) back ∙ remove_entered l w.visiting fresh in
              let (w', r) =
                visit_all-returns nodes inside (suc n) ls (leave l v) (rw left enough) known in
              (w', step_entered dependencies report n l ls w v new fresh inner ∙ r)
        ]
      ]

-- No set leaves more nodes than there are.
pub outside_le : (nodes xs : List String) → outside nodes xs ≤ length nodes
unfolding outside count_where
outside_le [] xs = omega arith
outside_le (x ∷ nodes) xs = ground (arith, outside_le nodes xs)
