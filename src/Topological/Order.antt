-- ===== src/Topological/Order.antt =====
-- The order that `visit` appends to, when no cycle is reported.
use fastapi_foundation.Base.{
  subst, String, ◌||◌, ◌≡◌, refl, ap, ◌∙◌, Bool, true, false, List, [], ◌∷◌, ◌++◌, arith, All,
  Bool-cases, inl, inr, ◌==◌, eq_iff, eq_refl,
}
use fastapi_foundation.Topological.{is_in, remove, cycle, Walk, enter, leave}
use fastapi_foundation.Topological.Visits.{Visits}
use fastapi_foundation.Topological.Fuel.{Visits-visiting, remove_entered}

-- The labels of a list join a set one by one.
unfoldable pub joined : List String → List String → List String
joined before [] = before
joined before (l ∷ ls) = joined (l ∷ before) ls

-- Each label comes after all of its dependencies, and once.
unfoldable pub InOrder : (String → List String) → List String → List String → Type 0
InOrder dependencies before [] = Unit
InOrder dependencies before (l ∷ ls) =
    All (λ d. is_in d before ≡ true) (dependencies l)
    × (is_in l before ≡ false)
    × InOrder dependencies (l ∷ before) ls

pub is_in_here : (l : String) (xs : List String) → is_in l (l ∷ xs) ≡ true
unfolding is_in
is_in_here l xs = rw (eq_refl l) refl

pub is_in_later : (x l : String) (xs : List String) → is_in l xs ≡ true → is_in l (x ∷ xs) ≡ true
unfolding is_in
is_in_later x l xs h = ground (arith, h)

joined_snoc :
    (before xs : List String) (l : String) → joined before (xs ++ l ∷ []) ≡ l ∷ joined before xs
unfolding joined
joined_snoc before [] l = refl
joined_snoc before (x ∷ xs) l = joined_snoc (x ∷ before) xs l

InOrder-snoc :
    (dependencies : String → List String) (before xs : List String) (l : String)
    → InOrder dependencies before xs
    → All (λ d. is_in d (joined before xs) ≡ true) (dependencies l)
    → is_in l (joined before xs) ≡ false
    → InOrder dependencies before (xs ++ l ∷ [])
unfolding InOrder joined
InOrder-snoc dependencies before [] l h k new = (k, new, tt)
InOrder-snoc dependencies before (x ∷ xs) l (a, b, h) k new =
    (a, b, InOrder-snoc dependencies (x ∷ before) xs l h k new)

module _ {E : Type 0} (dependencies : String → List String) (report : List String → E → E)
    (ok : E → Bool)
    (reported : (l : String) (path : List String) (errors : E)
      → ok (report (cycle l path) errors) ≡ false) where
  -- What is visited is what is ordered, which is in order; and what is being visited is not visited.
  unfoldable pub IsOrdered : Walk E → Type 0
  IsOrdered w =
      InOrder dependencies [] w.ordered
      × (w.visited ≡ joined [] w.ordered)
      × ((l : String) → is_in l w.visiting ≡ true → is_in l w.visited ≡ false)

  pub Visits_errors :
      {ls : List String} {w w' : Walk E}
      → Visits dependencies report ls w w'
      → ok w'.errors ≡ true
      → ok w.errors ≡ true
  Visits_errors Visits.done h = h
  Visits_errors (Visits.seen old rest) h = Visits_errors rest h
  Visits_errors {w = w} (Visits.looped {l = l} open_ rest) h =
      absurd (ground (arith, Visits_errors rest h, reported l w.path w.errors))
  Visits_errors (Visits.entered new fresh inner rest) h = Visits_errors inner (Visits_errors rest h)

  pub Visits_grow :
      {ls : List String} {w w' : Walk E}
      → Visits dependencies report ls w w'
      → (x : String) → is_in x w.visited ≡ true
      → is_in x w'.visited ≡ true
  Visits_grow Visits.done x h = h
  Visits_grow (Visits.seen old rest) x h = Visits_grow rest x h
  Visits_grow (Visits.looped open_ rest) x h = Visits_grow rest x h
  Visits_grow (Visits.entered {l = l} {v = v} new fresh inner rest) x h =
      Visits_grow rest x (is_in_later l x v.visited (Visits_grow inner x h))

  enter-IsOrdered :
      (l : String) (w : Walk E) → is_in l w.visited ≡ false → IsOrdered w → IsOrdered (enter l w)
  unfolding IsOrdered is_in
  enter-IsOrdered l w new (order, same, apart) = (
    order,
    same,
    λ x h. elim (Bool-cases (l == x)) [
      | inl e ↦ ground (arith, eq_iff l x, new)
      | inr other ↦ ground (arith, h, other, apart x)
    ],
  )

  leave-IsOrdered :
      (l : String) (w v : Walk E)
      → is_in l w.visiting ≡ false
      → v.visiting ≡ l ∷ w.visiting
      → All (λ d. is_in d v.visited ≡ true) (dependencies l)
      → IsOrdered v
      → IsOrdered (leave l v)
  unfolding IsOrdered is_in
  leave-IsOrdered l w v fresh back ready (order, same, apart) =
      let new : is_in l v.visited ≡ false = apart l (rw back (is_in_here l w.visiting)) in
      let left : (leave l v).visiting ≡ w.visiting =
        ap (remove l) back ∙ remove_entered l w.visiting fresh in
      (
        InOrder-snoc dependencies [] v.ordered l order (rw (← same) ready) (rw (← same) new),
        rw (joined_snoc [] v.ordered l) (ap (λ xs. l ∷ xs) same),
        λ x h. elim (Bool-cases (l == x)) [
          | inl e ↦ absurd (ground (arith, left, h, eq_iff l x, fresh))
          | inr other ↦
              ground (arith, other, apart x (rw back (is_in_later l x w.visiting (rw (← left) h))))
        ],
      )

  -- Where no cycle is reported, a walk in order goes on in order, and visits its labels.
  pub Visits-IsOrdered :
      {ls : List String} {w w' : Walk E}
      → Visits dependencies report ls w w'
      → ok w'.errors ≡ true
      → IsOrdered w
      → IsOrdered w' × All (λ l. is_in l w'.visited ≡ true) ls
  Visits-IsOrdered Visits.done h o = (o, tt)
  Visits-IsOrdered (Visits.seen {l = l} old rest) h o =
      let (p, all) = Visits-IsOrdered rest h o in (p, (Visits_grow rest l old, all))
  Visits-IsOrdered {w = w} (Visits.looped {l = l} open_ rest) h o =
      absurd (ground (arith, Visits_errors rest h, reported l w.path w.errors))
  Visits-IsOrdered {w = w} (Visits.entered {l = l} {v = v} new fresh inner rest) h o =
      let (p, ready) = Visits-IsOrdered inner (Visits_errors rest h) (enter-IsOrdered l w new o) in
      let q = leave-IsOrdered l w v fresh (Visits-visiting dependencies report inner) ready p in
      let (r, all) = Visits-IsOrdered rest h q in
      (r, (Visits_grow rest l (is_in_here l v.visited), all))

All-snoc :
    (P : String → Type 0) (xs : List String) (x : String) → All P xs → P x → All P (xs ++ x ∷ [])
All-snoc P [] x a p = (p, tt)
All-snoc P (y ∷ ys) x (q, a) p = (q, All-snoc P ys x a p)

-- The walk orders only nodes, if what it is called on and all dependencies are nodes.
pub Visits_known :
    {E : Type 0} (dependencies : String → List String) (report : List String → E → E)
    (P : String → Type 0)
    → ((l : String) → All P (dependencies l))
    → {ls : List String} {w w' : Walk E} → Visits dependencies report ls w w'
    → All P ls
    → All P w.ordered
    → All P w'.ordered
Visits_known dependencies report P inside Visits.done a o = o
Visits_known dependencies report P inside (Visits.seen old rest) (p, a) o =
    Visits_known dependencies report P inside rest a o
Visits_known dependencies report P inside (Visits.looped open_ rest) (p, a) o =
    Visits_known dependencies report P inside rest a o
Visits_known dependencies report P inside (Visits.entered {l = l} {v = v} new fresh inner rest)
      (p, a) o =
    let below = Visits_known dependencies report P inside inner (inside l) o in
    Visits_known dependencies report P inside rest a (All-snoc P v.ordered l below p)

pub is_in-joined :
    (l : String) (before xs : List String)
    → is_in l (joined before xs) ≡ (is_in l xs || is_in l before)
unfolding joined is_in
is_in-joined l before [] = refl
is_in-joined l before (x ∷ xs) = ground (arith, is_in-joined l (x ∷ before) xs)

-- What is visited is ordered.
pub visited_ordered :
    (l : String) (visited ordered : List String)
    → visited ≡ joined [] ordered
    → is_in l visited ≡ true
    → is_in l ordered ≡ true
unfolding is_in
visited_ordered l visited ordered e h = ground (arith, is_in-joined l [] ordered, rw e at h)

-- What holds of all labels holds of each.
pub All-member :
    (P : String → Type 0) (xs : List String) (l : String) → All P xs → is_in l xs ≡ true → P l
unfolding is_in
All-member P [] l a h = absurd (ground (arith, h))
All-member P (x ∷ xs) l (p, a) h = elim (Bool-cases (x == l)) [
  | inl e ↦ subst P ((eq_iff x l).0 e) p
  | inr n ↦ All-member P xs l a (ground (arith, h, n))
]
