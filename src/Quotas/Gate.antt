-- ===== src/Quotas/Gate.antt =====
-- src/core/quotas/gate.py: `QuotaMutationGate`, which reserves every quota of a mutation, runs it
-- and gives the reservations back when anything raises. The mutation is any action on the
-- service's state that returns or raises. `submit_task` makes the same call as `run_mutation`.
pub mod Charges
pub mod Atomic
use fastapi_foundation.Base.{
  Bool, true, false, List, [], ◌∷◌, ◌++◌, if◌then◌else◌, ℤ, Result, ok, err, AppError, Exec, pure,
  raise, ◌>>=◌, ◌>>◌,
}
use mathlib.Core.List.{reverse}
use fastapi_foundation.Quotas.{QuotaRule, QuotaSubject}
use fastapi_foundation.Quotas.Usage.{QuotaUsageStore}
use fastapi_foundation.Quotas.Service.{QuotaDecision, QuotaService, require_reserve, release}

pub record QuotaReservation : Type 0 where
  pub rule : QuotaRule
  pub subject : QuotaSubject
  pub amount : ℤ

pub record QuotaMutationResult (T : Type 0) : Type 0 where
  pub value : T
  pub reservations : List QuotaReservation
  pub decisions : List QuotaDecision

module _ {S : Type 0} (store : QuotaUsageStore S) where
  release_all : List QuotaReservation → Exec (QuotaService S) (Unit {0})
  release_all [] = pure tt
  release_all (r ∷ rs) = do release store r.rule r.subject r.amount; release_all rs

  unfoldable pub release_reversed : List QuotaReservation → Exec (QuotaService S) (Unit {0})
  unfolding release_all
  release_reversed rs = release_all (reverse rs)

  -- The loop of `_reserve_and_run`, from what was reserved and decided so far; an exception
  -- first gives the reservations back.
  reserve_all :
      List QuotaReservation
      → List QuotaReservation
      → List QuotaDecision
      → Exec (QuotaService S) (List QuotaReservation × List QuotaDecision)
  reserve_all [] done decisions q = (ok (done, decisions), q)
  reserve_all (r ∷ rs) done decisions q =
      let (outcome, q') = require_reserve store r.rule r.subject r.amount q in
      elim outcome [
        | ok d ↦ reserve_all rs (done ++ r ∷ []) (decisions ++ d ∷ []) q'
        | err e ↦ (release_reversed done >> raise e) q'
      ]

  module _ {T : Type 0} where
    run_handler :
        List QuotaReservation
        → Exec (QuotaService S) T
        → Bool
        → Bool
        → List QuotaReservation × List QuotaDecision
        → Exec (QuotaService S) (QuotaMutationResult T)
    run_handler resolved handler on_error on_success (done, decisions) q =
        let (outcome, q') = handler q in
        elim outcome [
          | ok value ↦
              ((if on_success then release_reversed done else pure tt)
                  >> pure
                      (record { value = value; reservations = resolved; decisions = decisions }))
                q'
          | err e ↦ ((if on_error then release_reversed done else pure tt) >> raise e) q'
        ]

    unfoldable pub reserve_and_run :
        List QuotaReservation
        → Exec (QuotaService S) T
        → Bool
        → Bool
        → Exec (QuotaService S) (QuotaMutationResult T)
    unfolding reserve_all run_handler
    reserve_and_run resolved handler on_error on_success = do
      reserved ← reserve_all resolved [] []
      run_handler resolved handler on_error on_success reserved

    unfoldable pub run_mutation :
        List QuotaReservation
        → Exec (QuotaService S) T
        → Exec (QuotaService S) (QuotaMutationResult T)
    unfolding reserve_and_run
    run_mutation resolved handler = reserve_and_run resolved handler true false
