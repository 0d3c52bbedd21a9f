-- ===== src/Idempotency/Expiry.antt =====
-- src/core/idempotency/store.py: `expire_before`, the maintenance of rows that have run out.
use fastapi_foundation.Base.{
  ℕ, ◌≤◌, String, ◌≡◌, refl, ap, ◌∙◌, Bool, false, Option, none, some, [], ◌∷◌, arith,
  if◌then◌else◌, Option-cases, Bool-cases, inl, inr,
}
use fastapi_foundation.Idempotency.Records.{Scope, Status, IdempotencyRecord, Table, find}
use fastapi_foundation.Idempotency.{expire_before, expire_rows, is_due, claim}
use fastapi_foundation.Idempotency.Claims.{IsNamed, is_free, claim_free, claim-blocked}

abbrev expired_row : ℕ → IdempotencyRecord → IdempotencyRecord
expired_row now r =
    if is_due now r then record r { status = Status.expired; locked_until = none } else r

abbrev expired_option : ℕ → Option IdempotencyRecord → Option IdempotencyRecord
expired_option now none = none
expired_option now (some r) = some (expired_row now r)

find-expire_rows :
    (now : ℕ) (s : Scope) (t : Table) → find s (expire_rows now t) ≡ expired_option now (find s t)
unfolding find expire_rows
find-expire_rows now s [] = refl
find-expire_rows now s (r ∷ t) = ground (arith, find-expire_rows now s t)

free_after :
    (now now' : ℕ) (o : Option IdempotencyRecord) (hash : String) (retry : Bool)
    → now ≤ now'
    → is_free (expired_option now o) hash now' retry ≡ is_free o hash now' retry
unfolding is_free
free_after now now' none hash retry h = refl
free_after now now' (some r) hash retry h = ground arith

blocked_stays :
    (now now' : ℕ) (r : IdempotencyRecord) (hash : String) (retry : Bool)
    → now ≤ now'
    → is_free (some r) hash now' retry ≡ false
    → expired_row now r ≡ r
unfolding is_free
blocked_stays now now' r hash retry h blocked = ground arith

-- Marking the rows that have run out by an instant is maintenance only: no named claim, then or
-- later, has another outcome for it.
pub claim-expire_before :
    (s : Scope) (hash : String) (ttl lock now now' : ℕ) (retry : Bool) (t : Table)
    → IsNamed s hash
    → now ≤ now'
    → (claim s hash ttl lock now' retry (expire_before now t).1).0
      ≡ (claim s hash ttl lock now' retry t).0
unfolding expire_before
claim-expire_before s hash ttl lock now now' retry t named h =
    let t' = expire_rows now t in
    let same : is_free (find s t') hash now' retry ≡ is_free (find s t) hash now' retry =
      ap (λ o. is_free o hash now' retry) (find-expire_rows now s t)
      ∙ free_after now now' (find s t) hash retry h in
    elim (Bool-cases (is_free (find s t) hash now' retry)) [
      | inl free ↦
          rw
            (
              claim_free s hash ttl lock now' retry t' named (same ∙ free),
              claim_free s hash ttl lock now' retry t named free,
            )
            refl
      | inr blocked ↦ elim (Option-cases (find s t)) [
        | inl absent ↦ absurd (unfold is_free in ground arith)
        | inr (r, found) ↦
            let off = rw found at blocked in
            let found' : find s t' ≡ some r =
              find-expire_rows now s t
              ∙ (ap (expired_option now) found
                  ∙ ap some (blocked_stays now now' r hash retry h off)) in
            rw
              (
                claim-blocked s hash ttl lock now' retry t' named r found' off,
                claim-blocked s hash ttl lock now' retry t named r found off,
              )
              refl
      ]
    ]
