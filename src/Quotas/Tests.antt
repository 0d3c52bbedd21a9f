-- ===== src/Quotas/Tests.antt =====
-- src/core/quotas: the statements about quotas, at concrete rules.
use fastapi_foundation.Quotas.Database.{Others, database_usage_store, reserve}
use fastapi_foundation.Quotas.Database.Sequences.{Request, answers, stores_alike}
use fastapi_foundation.Quotas.Database.Races.{GrantedIn, at_insert, reserve-GrantedIn}
use fastapi_foundation.Base.{
  Exec, pure, is_blank, String, ◌≡◌, ◌⊎◌, refl, none, List, [], ◌∷◌, arith, pos, ◌+ℤ◌, ◌≤ℤ◌, insert,
  pure, lookup,
}
use fastapi_foundation.Quotas.{QuotaScope, QuotaSubject, QuotaRule}
use fastapi_foundation.Quotas.Usage.{Usage, used, memory_usage_store}
use fastapi_foundation.Quotas.Service.{QuotaService}
use fastapi_foundation.Quotas.Gate.{QuotaReservation, run_mutation}
use fastapi_foundation.Quotas.Gate.Atomic.{Settled, run_mutation-Settled}

abbrev rule : QuotaRule
rule = record { metric = "files"; limit = pos 5; scope = QuotaScope.tenant }

abbrev subject : QuotaSubject
subject = record { tenant_id = "acme"; user_id = none; resource_type = none; resource_id = none }

abbrev files_key : String
files_key = "quota:files:tenant_id=acme"

abbrev service : QuotaService Usage
service = record { usage = (files_key, pos 3) ∷ []; exceeded = [] }

-- The second is refused, which gives the first back.
abbrev uploads : List QuotaReservation
uploads =
    record { rule = rule; subject = subject; amount = pos 2 }
    ∷ record { rule = rule; subject = subject; amount = pos 1 }
    ∷ []

abbrev handler : Exec (QuotaService Usage) String
handler = pure "stored"

service_nonneg : (k : String) → pos 0 ≤ℤ used k service.usage
unfolding lookup
service_nonneg k = ground arith

run_mutation-Settled_example :
    Settled uploads service (run_mutation memory_usage_store uploads handler service)
run_mutation-Settled_example =
    run_mutation-Settled uploads handler service service_nonneg (λ p k. refl)

no_usage : (k : String) → pos 0 ≤ℤ used k []
unfolding lookup
no_usage k = ground arith

stores_alike_example :
    answers memory_usage_store
      (Request.releasing "k" (pos 1) ∷ Request.reserving "k" (pos 2) (pos 5) ∷ [])
      []
    ≡ answers database_usage_store
        (Request.releasing "k" (pos 1) ∷ Request.reserving "k" (pos 2) (pos 5) ∷ [])
        []
stores_alike_example =
    stores_alike (Request.releasing "k" (pos 1) ∷ Request.reserving "k" (pos 2) (pos 5) ∷ []) [] []
      (λ k. refl) no_usage

-- Other transactions enter a row for the key first, and raise its usage after the commit.
abbrev faster : Others
faster = record {
  before = λ _ s. s;
  looking = λ _ s. s;
  inserting = λ _ s. insert "k" (pos 1) s;
  reading = λ _ s. insert "k" (pos 9) s;
}

abbrev raised : Usage
raised = insert "k" (pos 9) (insert "k" (pos 3) (insert "k" (pos 1) []))

reserve-GrantedIn_example :
    GrantedIn faster 2 "k" (pos 2) (pos 5) (pos 9) [] raised
    ⊎ GrantedIn faster 1 "k" (pos 2) (pos 5) (pos 9) (at_insert faster 2 []) raised
unfolding reserve is_blank lookup insert ◌+ℤ◌
reserve-GrantedIn_example = reserve-GrantedIn faster "k" (pos 2) (pos 5) (pos 9) [] raised refl
