-- ===== src/Topological/Acyclic.antt =====
-- When `visit` reports a cycle: never if the labels have ranks that fall along the dependencies; and
-- an order gives such ranks.
use fastapi_foundation.Base.{
  ℕ, suc, ◌≤◌, ◌<◌, String, ◌≡◌, refl, ap, ◌∙◌, true, false, List, [], ◌∷◌, arith, if◌then◌else◌,
  All, Bool-cases, inl, inr, ◌==◌, eq_iff, eq_refl, length,
}
use fastapi_foundation.Topological.{is_in, remove, Walk, enter, leave}
use fastapi_foundation.Topological.Visits.{Visits}
use fastapi_foundation.Topological.Fuel.{Visits-visiting, remove_entered}
use fastapi_foundation.Topological.Order.{InOrder, joined, is_in_later}

-- Along the dependencies the rank falls.
unfoldable pub Falls : (String → List String) → (String → ℕ) → Type 0
Falls dependencies rank = (l : String) → All (λ d. rank d < rank l) (dependencies l)

-- Every label of the set has a rank above each of the list.
unfoldable pub Above : (String → ℕ) → List String → List String → Type 0
Above rank set ls = (x : String) → is_in x set ≡ true → All (λ l. rank l < rank x) ls

All-less :
    (rank : String → ℕ) (l x : String) (ds : List String)
    → rank l < rank x
    → All (λ d. rank d < rank l) ds
    → All (λ d. rank d < rank x) ds
All-less rank l x [] h a = tt
All-less rank l x (d ∷ ds) h (p, a) = (omega (arith, p, h), All-less rank l x ds h a)

module _ {E : Type 0} (dependencies : String → List String) (report : List String → E → E)
    (rank : String → ℕ) (falls : Falls dependencies rank) where
  Above-enter :
      (l : String) (ls : List String) (w : Walk E)
      → Above rank w.visiting (l ∷ ls)
      → Above rank (enter l w).visiting (dependencies l)
  unfolding Above is_in Falls
  Above-enter l ls w a x h = elim (Bool-cases (l == x)) [
    | inl e ↦ rw (← (eq_iff l x).0 e) (falls l)
    | inr other ↦ All-less rank l x (dependencies l) (a x (ground (arith, h, other))).0 (falls l)
  ]

  -- No walk below what is being visited reports a cycle.
  pub Visits_acyclic :
      {ls : List String} {w w' : Walk E}
      → Visits dependencies report ls w w'
      → Above rank w.visiting ls
      → w'.errors ≡ w.errors
  unfolding Above
  Visits_acyclic Visits.done a = refl
  Visits_acyclic (Visits.seen old rest) a = Visits_acyclic rest (λ x h. (a x h).1)
  Visits_acyclic (Visits.looped {l = l} open_ rest) a = absurd (omega (arith, (a l open_).0))
  Visits_acyclic {w = w} (Visits.entered {l = l} {ls = ls} {v = v} new fresh inner rest) a =
      let left : (leave l v).visiting ≡ w.visiting =
        ap (remove l) (Visits-visiting dependencies report inner)
        ∙ remove_entered l w.visiting fresh in
      Visits_acyclic rest (λ x h. (a x (rw (← left) h)).1)
      ∙ Visits_acyclic inner (Above-enter l ls w a)

-- The rank that an order gives: the place from the end of those that came before.
unfoldable pub height : List String → String → ℕ
height [] l = 0
height (x ∷ xs) l = if x == l then suc (length xs) else height xs l

height_le : (xs : List String) (l : String) → height xs l ≤ length xs
unfolding height
height_le [] l = omega arith
height_le (x ∷ xs) l = ground (arith, height_le xs l)

-- Of the labels of the list, later first, each has its dependencies among the earlier ones.
Closed : (String → List String) → List String → Type 0
Closed dependencies [] = Unit
Closed dependencies (l ∷ ls) =
    All (λ d. is_in d ls ≡ true) (dependencies l) × (is_in l ls ≡ false) × Closed dependencies ls

InOrder-Closed :
    (dependencies : String → List String) (before xs : List String)
    → Closed dependencies before
    → InOrder dependencies before xs
    → Closed dependencies (joined before xs)
unfolding InOrder joined Closed
InOrder-Closed dependencies before [] c h = c
InOrder-Closed dependencies before (x ∷ xs) c (a, b, h) =
    InOrder-Closed dependencies (x ∷ before) xs (a, b, c) h

-- A label of the list is no higher in the longer list, where it is not the new one.
height_old :
    (x : String) (xs : List String) (d : String)
    → is_in x xs ≡ false
    → is_in d xs ≡ true
    → height (x ∷ xs) d ≡ height xs d
unfolding height is_in
height_old x xs d new old = elim (Bool-cases (x == d)) [
  | inl e ↦ absurd (ground (arith, new, rw (← (eq_iff x d).0 e) at old))
  | inr other ↦ rw other refl
]

All-first :
    (x : String) (xs ds : List String)
    → is_in x xs ≡ false
    → All (λ d. is_in d xs ≡ true) ds
    → All (λ d. height (x ∷ xs) d < height (x ∷ xs) x) ds
unfolding height
All-first x xs [] new a = tt
All-first x xs (d ∷ ds) new (p, a) =
    (ground (arith, eq_refl x, height_old x xs d new p, height_le xs d), All-first x xs ds new a)

All-later :
    (x l : String) (xs ds : List String)
    → is_in x xs ≡ false
    → is_in l xs ≡ true
    → All (λ d. (height xs d < height xs l) × (is_in d xs ≡ true)) ds
    → All (λ d. (height (x ∷ xs) d < height (x ∷ xs) l) × (is_in d (x ∷ xs) ≡ true)) ds
All-later x l xs [] new old a = tt
All-later x l xs (d ∷ ds) new old ((p, q), a) = (
  (omega (arith, height_old x xs d new q, height_old x xs l new old, p), is_in_later x d xs q),
  All-later x l xs ds new old a,
)

All-fst {ℓ} : {A : Type ℓ} (P Q : A → Type 0) (xs : List A) → All (λ x. P x × Q x) xs → All P xs
All-fst P Q [] a = tt
All-fst P Q (x ∷ xs) ((p, q), a) = (p, All-fst P Q xs a)

All-both {ℓ} :
    {A : Type ℓ} (P Q : A → Type 0) (xs : List A) → All P xs → All Q xs → All (λ x. P x × Q x) xs
All-both P Q [] a b = tt
All-both P Q (x ∷ xs) (p, a) (q, b) = ((p, q), All-both P Q xs a b)

All-is_in_later :
    (x : String) (xs ds : List String)
    → All (λ d. is_in d xs ≡ true) ds
    → All (λ d. is_in d (x ∷ xs) ≡ true) ds
All-is_in_later x xs [] a = tt
All-is_in_later x xs (d ∷ ds) (p, a) = (is_in_later x d xs p, All-is_in_later x xs ds a)

Closed-height :
    (dependencies : String → List String) (xs : List String)
    → Closed dependencies xs
    → (l : String) → is_in l xs ≡ true
    → All (λ d. (height xs d < height xs l) × (is_in d xs ≡ true)) (dependencies l)
unfolding Closed is_in
Closed-height dependencies [] c l h = absurd (ground (arith, h))
Closed-height dependencies (x ∷ xs) (a, new, c) l h = elim (Bool-cases (x == l)) [
  | inl e ↦ rw (← (eq_iff x l).0 e) (
      All-both _ _ (dependencies x) (All-first x xs (dependencies x) new a)
        (All-is_in_later x xs (dependencies x) a))
  | inr other ↦
      let old : is_in l xs ≡ true = ground (arith, h, other) in
      All-later x l xs (dependencies l) new old (Closed-height dependencies xs c l old)
]

-- Labels in order have ranks that fall along the dependencies, if no other label has any.
pub InOrder-Falls :
    (dependencies : String → List String) (ls : List String)
    → InOrder dependencies [] ls
    → ((l : String) → is_in l (joined [] ls) ≡ false → dependencies l ≡ [])
    → Falls dependencies (height (joined [] ls))
unfolding Falls Closed
InOrder-Falls dependencies ls h outer l = elim (Bool-cases (is_in l (joined [] ls))) [
  | inl old ↦
      All-fst _ _ (dependencies l)
        (Closed-height dependencies (joined [] ls) (InOrder-Closed dependencies [] ls tt h) l old)
  | inr other ↦ rw (outer l other) tt
]
