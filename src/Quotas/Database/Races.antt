-- ===== src/Quotas/Database/Races.antt =====
-- src/core/quotas/usage.py: a reservation in the database beside other transactions.
use fastapi_foundation.Base.{
  ℕ, suc, String, ◌≡◌, ◌⊎◌, true, false, none, some, arith, ℤ, ◌+ℤ◌, ◌≤ℤ◌, is_some, insert, lookup,
  ok, Option-cases, Bool-cases, inl, inr,
}
use fastapi_foundation.Quotas.Usage.{Usage, used}
use fastapi_foundation.Quotas.Database.{Others, has_room, reserve_attempts, reserve}

-- The table that the insert of an attempt meets.
abbrev pub at_insert : Others → ℕ → Usage → Usage
at_insert others n s = others.inserting n (others.looking n (others.before n s))

-- The amount was added to the row of the key, which had room for it, and the usage that is reported
-- is that of the table as it is read after the commit.
abbrev pub UpdatedIn : Others → ℕ → String → ℤ → ℤ → ℤ → Usage → Usage → Type 0
UpdatedIn others n key amount limit v s t =
    let u = others.before n s in
    (is_some (lookup key u) ≡ true)
    × (used key u +ℤ amount ≤ℤ limit)
    × (t ≡ others.reading n (insert key (used key u +ℤ amount) u))
    × (v ≡ used key t)

-- There was no row of the key, and the amount, which is reported, was entered as the first usage.
abbrev pub InsertedIn : Others → ℕ → String → ℤ → ℤ → ℤ → Usage → Usage → Type 0
InsertedIn others n key amount limit v s t =
    let u = at_insert others n s in
    (lookup key u ≡ none) × (amount ≤ℤ limit) × (t ≡ insert key amount u) × (v ≡ amount)

-- The attempt with that number left granted the reservation.
abbrev pub GrantedIn : Others → ℕ → String → ℤ → ℤ → ℤ → Usage → Usage → Type 0
GrantedIn others n key amount limit v s t =
    UpdatedIn others n key amount limit v s t ⊎ InsertedIn others n key amount limit v s t

module _ (others : Others) (key : String) (amount limit v : ℤ) (t : Usage)
    (fits : amount ≤ℤ limit) where
  insert-GrantedIn :
      (n : ℕ) (s : Usage)
      → has_room amount limit (lookup key (others.before (suc n) s)) ≡ false
      → reserve_attempts (suc n) others key amount limit s ≡ (ok (some v), t)
      → GrantedIn others (suc n) key amount limit v s t
        ⊎ (reserve_attempts n others key amount limit (at_insert others (suc n) s)
            ≡ (ok (some v), t))
  unfolding reserve_attempts
  insert-GrantedIn n s full h =
      let look = others.looking (suc n) (others.before (suc n) s) in
      elim (Option-cases (lookup key look)) [
        | inr (w, seen) ↦ absurd (ground (arith, full, seen, h))
        | inl unseen ↦ elim (Option-cases (lookup key (at_insert others (suc n) s))) [
          | inl free ↦ inl (
              inr (
                free,
                fits,
                ground (arith, full, unseen, free, h),
                ground (arith, full, unseen, free, h),
              ))
          | inr (w, faster) ↦ inr (ground (arith, full, unseen, faster, h))
        ]
      ]

  attempt-GrantedIn :
      (n : ℕ) (s : Usage)
      → reserve_attempts (suc n) others key amount limit s ≡ (ok (some v), t)
      → GrantedIn others (suc n) key amount limit v s t
        ⊎ (reserve_attempts n others key amount limit (at_insert others (suc n) s)
            ≡ (ok (some v), t))
  unfolding reserve_attempts
  attempt-GrantedIn n s h =
      let u = others.before (suc n) s in
      elim (Bool-cases (has_room amount limit (lookup key u))) [
        | inr full ↦ insert-GrantedIn n s full h
        | inl room ↦ elim (Option-cases (lookup key u)) [
          | inl absent ↦ absurd (ground (arith, room, absent))
          | inr (w, row) ↦ inl (
              inl (
                ground (arith, row),
                ground (arith, row, room),
                ground (arith, row, room, h),
                ground (arith, row, room, h),
              ))
        ]
      ]

reserve_tries :
    (others : Others) (key : String) (amount limit v : ℤ) (s t : Usage)
    → reserve others key amount limit s ≡ (ok (some v), t)
    → (amount ≤ℤ limit) × (reserve_attempts 2 others key amount limit s ≡ (ok (some v), t))
unfolding reserve
reserve_tries others key amount limit v s t h = (ground (arith, h), ground (arith, h))

-- Whatever other transactions commit in between, a reservation that is granted kept to the limit in
-- the very table into which one of its two attempts wrote it: the row of the key had room for the
-- amount, which was added to it, and the usage that is reported is the one read after the commit, in
-- the table that is left; or there was no row, and the amount, which is within the limit, was entered
-- and is reported.
pub reserve-GrantedIn :
    (others : Others) (key : String) (amount limit v : ℤ) (s t : Usage)
    → reserve others key amount limit s ≡ (ok (some v), t)
    → GrantedIn others 2 key amount limit v s t
      ⊎ GrantedIn others 1 key amount limit v (at_insert others 2 s) t
reserve-GrantedIn others key amount limit v s t h =
    let (fits, tried) = reserve_tries others key amount limit v s t h in
    elim (attempt-GrantedIn others key amount limit v t fits 1 s tried) [
      | inl first ↦ inl first
      | inr again ↦
          elim (attempt-GrantedIn others key amount limit v t fits 0 (at_insert others 2 s) again) [
            | inl second ↦ inr second
            | inr over ↦ absurd (unfold reserve_attempts in ground (arith, over))
          ]
    ]
