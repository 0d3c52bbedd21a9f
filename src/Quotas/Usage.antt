-- ===== src/Quotas/Usage.antt =====
-- src/core/quotas/usage.py: the protocol of a usage store, and `MemoryQuotaUsageStore`.
use Prim.Native.String.{◌++◌ as ◌<>◌}
use fastapi_foundation.Base.{
  String, Option, none, some, if◌then◌else◌, ℤ, pos, ◌+ℤ◌, ◌-ℤ◌, ltb_ℤ, leb_ℤ, max_ℤ, is_blank,
  Dict, lookup, insert, or_default, app_error, validation_error, Exec, pure, gets, raise_if, modify,
  ◌>>=◌, ◌>>◌,
}

pub record QuotaUsageStore (S : Type 0) : Type 0 where
  pub get_usage : String → Exec S ℤ
  pub set_usage : String → ℤ → Exec S (Unit {0})
  pub reserve : String → ℤ → ℤ → Exec S (Option ℤ)
  pub release : String → ℤ → Exec S ℤ

abbrev pub Usage : Type 0
Usage = Dict ℤ

validate_key : String → Exec Usage (Unit {0})
validate_key key =
    raise_if (is_blank key) (app_error validation_error "Quota usage key is required" 400)

validate_positive : ℤ → String → Exec Usage (Unit {0})
validate_positive value label =
    raise_if (leb_ℤ value (pos 0))
      (app_error validation_error (label <> " must be greater than zero") 400)

validate_non_negative : ℤ → String → Exec Usage (Unit {0})
validate_non_negative value label =
    raise_if (ltb_ℤ value (pos 0))
      (app_error validation_error (label <> " must be greater than or equal to zero") 400)

-- `self._usage.get(key, 0)`
abbrev pub used : String → Usage → ℤ
used key s = or_default (pos 0) (lookup key s)

unfoldable pub get_usage : String → Exec Usage ℤ
unfolding validate_key
get_usage key = do validate_key key; gets (used key)

unfoldable pub set_usage : String → ℤ → Exec Usage (Unit {0})
unfolding validate_key validate_non_negative
set_usage key value = do
  validate_key key
  validate_non_negative value "Quota usage"
  modify (insert key value)

unfoldable pub reserve : String → ℤ → ℤ → Exec Usage (Option ℤ)
unfolding validate_key validate_positive validate_non_negative
reserve key amount limit = do
  validate_key key
  validate_positive amount "Quota amount"
  validate_non_negative limit "Quota limit"
  current ← gets (used key)
  let projected = current +ℤ amount
  if ltb_ℤ limit projected
      then pure none
      else (do modify (insert key projected); pure (some projected))

unfoldable pub release : String → ℤ → Exec Usage ℤ
unfolding validate_key validate_positive
release key amount = do
  validate_key key
  validate_positive amount "Quota amount"
  current ← gets (used key)
  let updated = max_ℤ (current -ℤ amount) (pos 0)
  modify (insert key updated)
  pure updated

abbrev pub memory_usage_store : QuotaUsageStore Usage
memory_usage_store = record {
  get_usage = get_usage;
  set_usage = set_usage;
  reserve = reserve;
  release = release;
}
