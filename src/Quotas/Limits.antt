-- ===== src/Quotas/Limits.antt =====
-- src/core/quotas/provider.py: `QuotaService` over the store in memory.
use fastapi_foundation.Base.{
  String, ◌≡◌, Bool, true, false, [], ◌∷◌, ◌++◌, if◌then◌else◌, arith, ℤ, pos, ◌+ℤ◌, ◌≤ℤ◌, ◌<ℤ◌,
  leb_ℤ, is_blank, insert, app_error, ErrorCode, ok, err, Result, ◌-ℤ◌,
}
use fastapi_foundation.Quotas.{QuotaRule, QuotaSubject, key_for}
use fastapi_foundation.Quotas.Usage
use fastapi_foundation.Quotas.Usage.{Usage, used, memory_usage_store}
use fastapi_foundation.Quotas.Service.{
  QuotaDecision, QuotaService, decision_for, check, require_reserve,
}
use fastapi_foundation.Quotas.Gate.Charges.{add_sub_add}

abbrev pub is_granted : Result QuotaDecision → Bool
is_granted (ok _) = true
is_granted (err _) = false

module _ (rule : QuotaRule) (subject : QuotaSubject) (amount : ℤ) (q : QuotaService Usage)
    {key : String} (named : key_for rule subject ≡ ok key) (not_blank : is_blank key ≡ false)
    (positive : pos 0 <ℤ amount) (limit_ok : pos 0 ≤ℤ rule.limit) where
  -- Over the store in memory, with a positive amount, a limit that is not negative and a subject
  -- that has a key, a reservation is granted exactly when what is in use and the amount stay
  -- within the limit. It then adds the amount to the key's usage; otherwise it changes no usage,
  -- and the refusal is recorded with the usage that it was refused at.
  pub require_reserve-limit : require_reserve memory_usage_store rule subject amount q ≡ (
      if leb_ℤ (used key q.usage +ℤ amount) rule.limit
      then (
        ok (decision_for rule key (used key q.usage +ℤ amount -ℤ amount) amount),
        record q { usage = insert key (used key q.usage +ℤ amount) q.usage },
      )
      else (
        err (app_error ErrorCode.quota_exceeded "Quota exceeded" 403),
        record q { exceeded = q.exceeded ++ decision_for rule key (used key q.usage) amount ∷ [] },
      ))
  unfolding require_reserve Usage.reserve Usage.get_usage decision_for
  require_reserve-limit = ground (arith, add_sub_add (used key q.usage) amount)

  -- Over the store in memory, with a positive amount, a limit that is not negative and a subject
  -- that has a key, `check` foretells `reserve`: it allows exactly what a reservation at once
  -- would be granted, and changes nothing.
  pub check-reserve :
      (check memory_usage_store rule subject amount q
        ≡ (ok (decision_for rule key (used key q.usage) amount), q))
      × ((decision_for rule key (used key q.usage) amount).allowed
          ≡ is_granted (require_reserve memory_usage_store rule subject amount q).0)
  unfolding check decision_for Usage.get_usage
  check-reserve = (ground arith, rw require_reserve-limit (ground arith))
