-- ===== src/Quotas/Service.antt =====
-- src/core/quotas/provider.py: `QuotaService`, over any usage store. The service has an audit
-- recorder and a metrics registry; `exceeded` lists the decisions that they were told of. The
-- details of an `AppError` are left out.
use fastapi_foundation.Base.{
  String, Bool, Option, none, some, List, [], ◌∷◌, ◌++◌, if◌then◌else◌, ℤ, pos, ◌+ℤ◌, ◌-ℤ◌, leb_ℤ,
  max_ℤ, app_error, validation_error, ErrorCode, Exec, pure, raise, lift, raise_if, modify, ◌>>=◌,
  ◌>>◌,
}
use fastapi_foundation.Quotas.{QuotaRule, QuotaScope, QuotaSubject, key_for}
use fastapi_foundation.Quotas.Usage.{QuotaUsageStore}

pub data Reason : Type 0 where
  within_limit quota_exceeded : Reason

pub record QuotaDecision : Type 0 where
  pub allowed : Bool
  pub metric : String
  pub scope : QuotaScope
  pub key : String
  pub limit : ℤ
  pub current : ℤ
  pub requested : ℤ
  pub projected : ℤ
  pub remaining : ℤ
  pub reason : Reason

pub record QuotaService (S : Type 0) : Type 0 where
  pub usage : S
  pub exceeded : List QuotaDecision

-- A call of the store that the service holds.
abbrev pub on_usage : {S A : Type 0} → Exec S A → Exec (QuotaService S) A
on_usage m q = let (r, s) = m q.usage in (r, record q { usage = s })

-- `_decision`
unfoldable pub decision_for : QuotaRule → String → ℤ → ℤ → QuotaDecision
decision_for rule key current amount =
    let projected = current +ℤ amount in
    let allowed : Bool = leb_ℤ projected rule.limit in
    record {
      allowed = allowed;
      metric = rule.metric;
      scope = rule.scope;
      key = key;
      limit = rule.limit;
      current = current;
      requested = amount;
      projected = projected;
      remaining = max_ℤ (rule.limit -ℤ projected) (pos 0);
      reason = if allowed then Reason.within_limit else Reason.quota_exceeded;
    }

module _ {S : Type 0} where
  validate_amount : ℤ → Exec (QuotaService S) (Unit {0})
  validate_amount amount =
      raise_if (leb_ℤ amount (pos 0))
        (app_error validation_error "Quota amount must be greater than zero" 400)

  -- `_record_exceeded`
  record_exceeded : QuotaDecision → Exec (QuotaService S) (Unit {0})
  record_exceeded d = modify (λ q. record q { exceeded = q.exceeded ++ d ∷ [] })

module _ {S : Type 0} (store : QuotaUsageStore S) where
  unfoldable pub check : QuotaRule → QuotaSubject → ℤ → Exec (QuotaService S) QuotaDecision
  unfolding validate_amount
  check rule subject amount = do
    validate_amount amount
    key ← lift (key_for rule subject)
    current ← on_usage (store.get_usage key)
    pure (decision_for rule key current amount)

  reserved : QuotaRule → String → ℤ → Option ℤ → Exec (QuotaService S) QuotaDecision
  unfolding record_exceeded
  reserved rule key amount (some projected) =
      pure (decision_for rule key (projected -ℤ amount) amount)
  reserved rule key amount none = do
    current ← on_usage (store.get_usage key)
    let decision = decision_for rule key current amount
    record_exceeded decision
    pure decision

  unfoldable pub reserve : QuotaRule → QuotaSubject → ℤ → Exec (QuotaService S) QuotaDecision
  unfolding validate_amount reserved
  reserve rule subject amount = do
    validate_amount amount
    key ← lift (key_for rule subject)
    projected ← on_usage (store.reserve key amount rule.limit)
    reserved rule key amount projected

  unfoldable pub require_reserve :
      QuotaRule → QuotaSubject → ℤ → Exec (QuotaService S) QuotaDecision
  unfolding reserve
  require_reserve rule subject amount = do
    decision ← reserve rule subject amount
    if decision.allowed
        then pure decision
        else raise (app_error ErrorCode.quota_exceeded "Quota exceeded" 403)

  unfoldable pub release : QuotaRule → QuotaSubject → ℤ → Exec (QuotaService S) ℤ
  unfolding validate_amount
  release rule subject amount = do
    validate_amount amount
    key ← lift (key_for rule subject)
    on_usage (store.release key amount)
