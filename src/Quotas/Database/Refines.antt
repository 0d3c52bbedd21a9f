-- ===== src/Quotas/Database/Refines.antt =====
-- src/core/quotas/usage.py: a call of the store in the database does what the same call of the store in
-- memory does, as far as the usage can be seen.
use fastapi_foundation.Base.{
  String, ◌≡◌, true, none, some, if◌then◌else◌, arith, ℤ, pos, ◌+ℤ◌, ◌-ℤ◌, ◌≤ℤ◌, ltb_ℤ, max_ℤ,
  int_laws, +ℤ_parts, -ℤ_parts, lookup, insert, lookup-insert, eq_iff, eq_refl, ◌==◌, Result,
  Option-cases, inl, inr,
}
use fastapi_foundation.Quotas.Usage
use fastapi_foundation.Quotas.Usage.{Usage, used, QuotaUsageStore, memory_usage_store}
use fastapi_foundation.Quotas.Database.{get_usage, set_usage, reserve, release, alone}

-- Two tables show the same usage.
abbrev pub Same : Usage → Usage → Type 0
Same s s' = (k : String) → used k s ≡ used k s'

-- Two calls have the same answer and leave tables that show the same usage.
abbrev pub Alike : {A : Type 0} → Result A × Usage → Result A × Usage → Type 0
Alike (a, s) (b, s') = (a ≡ b) × Same s s'

pub used-insert :
    (key k : String) (v : ℤ) (s : Usage)
    → used k (insert key v s) ≡ (if key == k then v else used k s)
used-insert key k v s = ground (arith, lookup-insert key k v s)

over_limit :
    (u amount limit : ℤ) → pos 0 ≤ℤ u → ltb_ℤ limit amount ≡ true → ltb_ℤ limit (u +ℤ amount) ≡ true
over_limit u amount limit nonneg over = ground (arith, +ℤ_parts u amount)

zero_add : (a : ℤ) → pos 0 +ℤ a ≡ a
zero_add a = omega int_laws

zero_sub : (a : ℤ) → ltb_ℤ (pos 0) a ≡ true → max_ℤ (pos 0 -ℤ a) (pos 0) ≡ pos 0
zero_sub a h = ground (arith, -ℤ_parts (pos 0) a)

module _ (key : String) (s s' : Usage) (same : Same s s') where
  pub get-Alike : Alike (Usage.get_usage key s) (get_usage key s')
  unfolding Usage.get_usage get_usage
  get-Alike = (ground (arith, same key), λ k. ground (arith, same k))

  pub set-Alike : (value : ℤ) → Alike (Usage.set_usage key value s) (set_usage key value s')
  unfolding Usage.set_usage set_usage
  set-Alike value = (
    ground arith,
    λ k. ground (arith, same k, used-insert key k value s, used-insert key k value s'),
  )

  release_some :
      (amount u : ℤ)
      → lookup key s' ≡ some u
      → Alike (Usage.release key amount s) (release key amount s')
  unfolding Usage.release release
  release_some amount u row = (
    ground (arith, same key, row),
    λ k. ground (
      arith,
      same k,
      same key,
      row,
      used-insert key k (max_ℤ (u -ℤ amount) (pos 0)) s,
      used-insert key k (max_ℤ (u -ℤ amount) (pos 0)) s',
    ),
  )

  release_none :
      (amount : ℤ)
      → lookup key s' ≡ none
      → Alike (Usage.release key amount s) (release key amount s')
  unfolding Usage.release release
  release_none amount absent = (
    ground (arith, same key, absent, zero_sub amount),
    λ k. ground (
      arith,
      same k,
      same key,
      absent,
      zero_sub amount,
      eq_iff key k,
      used-insert key k (max_ℤ (pos 0 -ℤ amount) (pos 0)) s,
    ),
  )

  reserve_some :
      (amount limit u : ℤ)
      → pos 0 ≤ℤ used key s
      → lookup key s' ≡ some u
      → Alike (Usage.reserve key amount limit s) (reserve alone key amount limit s')
  unfolding Usage.reserve reserve
  reserve_some amount limit u nonneg row = (
    ground (
      arith,
      same key,
      row,
      over_limit u amount limit,
      lookup-insert key key (u +ℤ amount) s',
      eq_refl key,
    ),
    λ k. ground (
      arith,
      same k,
      same key,
      row,
      over_limit u amount limit,
      lookup-insert key key (u +ℤ amount) s',
      eq_refl key,
      used-insert key k (u +ℤ amount) s,
      used-insert key k (u +ℤ amount) s',
    ),
  )

  reserve_none :
      (amount limit : ℤ)
      → lookup key s' ≡ none
      → Alike (Usage.reserve key amount limit s) (reserve alone key amount limit s')
  unfolding Usage.reserve reserve
  reserve_none amount limit absent = (
    ground (arith, same key, absent, zero_add amount),
    λ k. ground (
      arith,
      same k,
      same key,
      absent,
      zero_add amount,
      used-insert key k amount s,
      used-insert key k amount s',
    ),
  )

  pub release-Alike : (amount : ℤ) → Alike (Usage.release key amount s) (release key amount s')
  release-Alike amount = elim (Option-cases (lookup key s')) [
    | inl absent ↦ release_none amount absent
    | inr (u, row) ↦ release_some amount u row
  ]

  pub reserve-Alike :
      (amount limit : ℤ)
      → pos 0 ≤ℤ used key s
      → Alike (Usage.reserve key amount limit s) (reserve alone key amount limit s')
  reserve-Alike amount limit nonneg = elim (Option-cases (lookup key s')) [
    | inl absent ↦ reserve_none amount limit absent
    | inr (u, row) ↦ reserve_some amount limit u nonneg row
  ]
