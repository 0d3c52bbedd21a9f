-- ===== src/Quotas/Gate/Charges.antt =====
-- src/core/quotas: what one reservation does to the quotas, over the store in memory.
use fastapi_foundation.Base.{
  String, ◌≡◌, refl, false, List, [], ◌∷◌, if◌then◌else◌, ℤ, pos, ◌+ℤ◌, ◌-ℤ◌, ◌≤ℤ◌, ◌<ℤ◌, max_ℤ,
  int_laws, arith, is_blank, insert, lookup-insert, eq_iff, ◌==◌, Result, ok, err, AppError, inl,
  inr, Result-cases,
}
use fastapi_foundation.Quotas.{key_for}
use fastapi_foundation.Quotas.Usage
use fastapi_foundation.Quotas.Usage.{Usage, used, memory_usage_store}
use fastapi_foundation.Quotas.Service.{
  QuotaDecision, QuotaService, decision_for, require_reserve, release,
}
use fastapi_foundation.Quotas.Gate.{QuotaReservation}

abbrev pub MemoryService : Type 0
MemoryService = QuotaService Usage

abbrev pub counted : String → ℤ → Result String → ℤ
counted k amount (ok key) = if key == k then amount else pos 0
counted k amount (err _) = pos 0

-- What a reservation takes of the quota under a key.
abbrev pub cost : String → QuotaReservation → ℤ
cost k r = counted k r.amount (key_for r.rule r.subject)

unfoldable pub total : String → List QuotaReservation → ℤ
total k [] = pos 0
total k (r ∷ rs) = cost k r +ℤ total k rs

-- The reservation has a key and a positive amount, as one that was granted has.
pub record IsGranted (r : QuotaReservation) : Type 0 where
  pub key : String
  pub named : key_for r.rule r.subject ≡ ok key
  pub not_blank : is_blank key ≡ false
  pub positive : pos 0 <ℤ r.amount

used-insert :
    (key k : String) (v : ℤ) (s : Usage)
    → used k (insert key v s) ≡ (if key == k then v else used k s)
used-insert key k v s = ground (arith, lookup-insert key k v s)

cost_at :
    (k : String) (r : QuotaReservation) (g : IsGranted r)
    → cost k r ≡ (if g.key == k then r.amount else pos 0)
cost_at k r g = rw g.named refl

pub cost_nonneg : (k : String) (r : QuotaReservation) → IsGranted r → pos 0 ≤ℤ cost k r
cost_nonneg k r g = rw (cost_at k r g) (ground (arith, g.positive))

pub add_zero : (a : ℤ) → a +ℤ pos 0 ≡ a
add_zero a = omega int_laws

sub_zero : (a : ℤ) → a -ℤ pos 0 ≡ a
sub_zero a = omega int_laws

max_sub : (a b : ℤ) → b ≤ℤ a → max_ℤ (a -ℤ b) (pos 0) ≡ a -ℤ b
unfolding ◌-ℤ◌
max_sub a b h = ground arith

-- The amount that was reserved comes back in the decision, which agrees with the store.
pub add_sub_add : (a b : ℤ) → a +ℤ b -ℤ b +ℤ b ≡ a +ℤ b
add_sub_add a b = omega int_laws

module _ (r : QuotaReservation) (q : MemoryService) where
  abbrev pub outcome : Result QuotaDecision × MemoryService
  outcome = require_reserve memory_usage_store r.rule r.subject r.amount q

  pub refused_usage : (e : AppError) → outcome.0 ≡ err e → outcome.1.usage ≡ q.usage
  unfolding require_reserve Usage.reserve Usage.get_usage decision_for
  refused_usage e h = elim (Result-cases (key_for r.rule r.subject)) [
    | inr (x, unnamed) ↦ ground arith
    | inl (key, named) ↦ ground (arith, add_sub_add (used key q.usage) r.amount)
  ]

  granted_usage :
      (key : String) (d : QuotaDecision)
      → key_for r.rule r.subject ≡ ok key
      → outcome.0 ≡ ok d
      → (pos 0 <ℤ r.amount)
        × (is_blank key ≡ false)
        × (outcome.1.usage ≡ insert key (used key q.usage +ℤ r.amount) q.usage)
  unfolding require_reserve Usage.reserve Usage.get_usage decision_for
  granted_usage key d named h =
      (ground arith, ground arith, ground (arith, add_sub_add (used key q.usage) r.amount))

  granted_named :
      (d : QuotaDecision) → outcome.0 ≡ ok d → (key : String) × (key_for r.rule r.subject ≡ ok key)
  unfolding require_reserve
  granted_named d h = elim (Result-cases (key_for r.rule r.subject)) [
    | inl named ↦ named
    | inr (x, unnamed) ↦ ground arith
  ]

  -- A granted reservation has charged its key, and only that.
  pub granted :
      (d : QuotaDecision)
      → outcome.0 ≡ ok d
      → IsGranted r × ((k : String) → used k outcome.1.usage ≡ used k q.usage +ℤ cost k r)
  granted d h =
      let (key, named) = granted_named d h in
      let (positive, not_blank, stored) = granted_usage key d named h in
      let g : IsGranted r = record {
        key = key;
        named = named;
        not_blank = not_blank;
        positive = positive;
      } in
      (
        g,
        λ k.
            rw (stored, used-insert key k (used key q.usage +ℤ r.amount) q.usage, cost_at k r g)
              (charged key k),
      )
    where
      charged :
          (key k : String)
          → (if key == k then used key q.usage +ℤ r.amount else used k q.usage)
            ≡ used k q.usage +ℤ (if key == k then r.amount else pos 0)
      charged key k = ground (arith, eq_iff key k, add_zero (used k q.usage))

  pub release_granted :
      (g : IsGranted r)
      → release memory_usage_store r.rule r.subject r.amount q ≡ (
        ok (max_ℤ (used g.key q.usage -ℤ r.amount) (pos 0)),
        record q { usage = insert g.key (max_ℤ (used g.key q.usage -ℤ r.amount) (pos 0)) q.usage },
      )
  unfolding release Usage.release
  release_granted g = ground (arith, g.named, g.not_blank, g.positive)

  -- Giving back a granted reservation, out of what is in use.
  pub released :
      (g : IsGranted r) (k : String)
      → cost k r ≤ℤ used k q.usage
      → used k (release memory_usage_store r.rule r.subject r.amount q).1.usage
        ≡ used k q.usage -ℤ cost k r
  released g k enough =
      rw
        (
          release_granted g,
          used-insert g.key k (max_ℤ (used g.key q.usage -ℤ r.amount) (pos 0)) q.usage,
          cost_at k r g,
        )
        (given_back g.key k (rw (cost_at k r g) at enough))
    where
      given_back :
          (key k : String)
          → (if key == k then r.amount else pos 0) ≤ℤ used k q.usage
          → (if key == k then max_ℤ (used key q.usage -ℤ r.amount) (pos 0) else used k q.usage)
            ≡ used k q.usage -ℤ (if key == k then r.amount else pos 0)
      given_back key k enough =
          ground
            (arith, eq_iff key k, sub_zero (used k q.usage), max_sub (used key q.usage) r.amount)
