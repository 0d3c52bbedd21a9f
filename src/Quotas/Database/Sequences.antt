-- ===== src/Quotas/Database/Sequences.antt =====
-- src/core/quotas/usage.py: the store in the database and the one in memory cannot be told apart.
use fastapi_foundation.Base.{
  String, List, [], ◌∷◌, ◌≡◌, refl, Option, none, some, arith, ℤ, pos, ◌+ℤ◌, ◌-ℤ◌, ◌≤ℤ◌, max_ℤ,
  +ℤ_parts, Result, ok, err,
}
use fastapi_foundation.Quotas.Usage
use fastapi_foundation.Quotas.Usage.{Usage, used, QuotaUsageStore, memory_usage_store}
use fastapi_foundation.Quotas.Database.{get_usage, set_usage, release, database_usage_store}
use fastapi_foundation.Quotas.Database.Refines.{
  Same, Alike, used-insert, get-Alike, set-Alike, release-Alike, reserve-Alike,
}

-- A call of a usage store.
pub data Request : Type 0 where
  getting : String → Request
  setting : String → ℤ → Request
  reserving : String → ℤ → ℤ → Request
  releasing : String → ℤ → Request

abbrev number : {S : Type 0} → Result ℤ × S → Result (Option ℤ) × S
number (ok n, s) = (ok (some n), s)
number (err e, s) = (err e, s)

abbrev done : {S : Type 0} → Result (Unit {0}) × S → Result (Option ℤ) × S
done (ok _, s) = (ok none, s)
done (err e, s) = (err e, s)

-- The answer to a request, and the state that is left.
unfoldable pub serve : {S : Type 0} → QuotaUsageStore S → Request → S → Result (Option ℤ) × S
serve store (Request.getting key) s = number (store.get_usage key s)
serve store (Request.setting key value) s = done (store.set_usage key value s)
serve store (Request.reserving key amount limit) s = store.reserve key amount limit s
serve store (Request.releasing key amount) s = number (store.release key amount s)

abbrev pub answers : {S : Type 0} → QuotaUsageStore S → List Request → S → List (Result (Option ℤ))
answers store [] s = []
answers store (r ∷ rs) s = let (a, s') = serve store r s in a ∷ answers store rs s'

number-Alike : (a b : Result ℤ × Usage) → Alike a b → Alike (number a) (number b)
number-Alike (ok n, s) (ok m, s') (e, h) = (ground (arith, e), h)
number-Alike (ok n, s) (err x, s') (e, h) = absurd (ground (arith, e))
number-Alike (err x, s) (ok m, s') (e, h) = absurd (ground (arith, e))
number-Alike (err x, s) (err y, s') (e, h) = (ground (arith, e), h)

done-Alike : (a b : Result (Unit {0}) × Usage) → Alike a b → Alike (done a) (done b)
done-Alike (ok n, s) (ok m, s') (e, h) = (refl, h)
done-Alike (ok n, s) (err x, s') (e, h) = absurd (ground (arith, e))
done-Alike (err x, s) (ok m, s') (e, h) = absurd (ground (arith, e))
done-Alike (err x, s) (err y, s') (e, h) = (ground (arith, e), h)

-- No usage is negative.
abbrev pub IsUsage : Usage → Type 0
IsUsage s = (k : String) → pos 0 ≤ℤ used k s

serve-Alike :
    (r : Request) (s s' : Usage)
    → Same s s'
    → IsUsage s
    → Alike (serve memory_usage_store r s) (serve database_usage_store r s')
unfolding serve
serve-Alike (Request.getting key) s s' same nonneg =
    number-Alike (Usage.get_usage key s) (get_usage key s') (get-Alike key s s' same)
serve-Alike (Request.setting key value) s s' same nonneg =
    done-Alike (Usage.set_usage key value s) (set_usage key value s')
      (set-Alike key s s' same value)
serve-Alike (Request.reserving key amount limit) s s' same nonneg =
    reserve-Alike key s s' same amount limit (nonneg key)
serve-Alike (Request.releasing key amount) s s' same nonneg =
    number-Alike (Usage.release key amount s) (release key amount s')
      (release-Alike key s s' same amount)

serve-IsUsage : (r : Request) (s : Usage) → IsUsage s → IsUsage (serve memory_usage_store r s).1
unfolding serve Usage.get_usage Usage.set_usage Usage.reserve Usage.release
serve-IsUsage (Request.getting key) s nonneg k = ground (arith, nonneg k)
serve-IsUsage (Request.setting key value) s nonneg k =
    ground (arith, nonneg k, used-insert key k value s)
serve-IsUsage (Request.reserving key amount limit) s nonneg k = ground (
  arith,
  nonneg k,
  nonneg key,
  +ℤ_parts (used key s) amount,
  used-insert key k (used key s +ℤ amount) s,
)
serve-IsUsage (Request.releasing key amount) s nonneg k =
    ground (arith, nonneg k, used-insert key k (max_ℤ (used key s -ℤ amount) (pos 0)) s)

-- Over any sequence of calls, from tables that show the same usage, none of it negative, the store
-- in memory and the one in the database, with no other transaction in between, give the same
-- answers, also where they raise.
pub stores_alike :
    (rs : List Request) (s s' : Usage)
    → Same s s'
    → IsUsage s
    → answers memory_usage_store rs s ≡ answers database_usage_store rs s'
stores_alike [] s s' same nonneg = refl
stores_alike (r ∷ rs) s s' same nonneg =
    let (a, next) = serve-Alike r s s' same nonneg in
    cc (
      a,
      stores_alike rs (serve memory_usage_store r s).1 (serve database_usage_store r s').1 next
          (serve-IsUsage r s nonneg),
    )
