-- ===== src/Base/Rows.antt =====
-- A table as the list of its rows, and what SQL's `UPDATE … WHERE` does to it.
use Prim.Native.Nat.{ℕ, ◌+◌}
use mathlib.Core.Path.{◌≡◌}
use mathlib.Core.Logic.{inl, inr}
use mathlib.Core.Bool.{Bool, true, false}
use mathlib.Core.List.{List, [], ◌∷◌, ◌++◌}
use fastapi_foundation.Base.Tests.{if◌then◌else◌, Bool-cases}
use fastapi_foundation.Base.Lists.{All}

-- The row stands in the table.
pub data Stands {ℓ} {R : Type ℓ} (r : R) : List R → Type ℓ where
  here : {t : List R} → Stands r (r ∷ t)
  there : {x : R} {t : List R} → Stands r t → Stands r (x ∷ t)

module _ {ℓ} {R : Type ℓ} where
  unfoldable pub update_where : (R → Bool) → (R → R) → List R → List R
  update_where c f [] = []
  update_where c f (r ∷ t) = (if c r then f r else r) ∷ update_where c f t

  -- `rowcount` of the same update.
  unfoldable pub count_where : (R → Bool) → List R → ℕ
  count_where c [] = 0
  count_where c (r ∷ t) = (if c r then 1 else 0) + count_where c t

  unfoldable pub select_where : (R → Bool) → List R → List R
  select_where c [] = []
  select_where c (r ∷ t) = let rest = select_where c t in if c r then r ∷ rest else rest

  pub Stands-append : {r : R} {t : List R} (u : List R) → Stands r t → Stands r (t ++ u)
  Stands-append u Stands.here = Stands.here
  Stands-append u (Stands.there h) = Stands.there (Stands-append u h)

  -- A row that the condition does not select stays.
  pub Stands-update_where :
      (c : R → Bool) (f : R → R) (r : R) (t : List R)
      → c r ≡ false
      → Stands r t
      → Stands r (update_where c f t)
  unfolding update_where
  Stands-update_where c f r [] n h = elim h [ ]
  Stands-update_where c f r (x ∷ t) n Stands.here = rw n Stands.here
  Stands-update_where c f r (x ∷ t) n (Stands.there h) =
      Stands.there (Stands-update_where c f r t n h)

  module _ {κ} (P : R → Type κ) where
    pub All-update_where :
        (c : R → Bool) (f : R → R) (t : List R)
        → ((r : R) → P r → c r ≡ true → P (f r))
        → All P t
        → All P (update_where c f t)
    unfolding update_where
    All-update_where c f [] h a = tt
    All-update_where c f (r ∷ t) h (p, a) = (
      elim (Bool-cases (c r)) [ inl at ↦ rw at (h r p at) | inr off ↦ rw off p ],
      All-update_where c f t h a,
    )

    pub All-add : (t : List R) (r : R) → All P t → P r → All P (t ++ r ∷ [])
    All-add [] r a p = (p, tt)
    All-add (x ∷ t) r (q, a) p = (q, All-add t r a p)
