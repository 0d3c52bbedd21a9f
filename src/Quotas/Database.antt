-- ===== src/Quotas/Database.antt =====
-- src/core/quotas/usage.py: `DatabaseQuotaUsageStore`. The table is the dict of the rows' usage by
-- their key, which is unique. Each session is a transaction of its own; what other transactions
-- commit between the statements of a reservation is an argument, by the attempts left.
pub mod Refines
pub mod Sequences
pub mod Races
use Prim.Native.String.{◌++◌ as ◌<>◌}
use fastapi_foundation.Base.{
  ℕ, zero, suc, String, Bool, true, false, Option, none, some, if◌then◌else◌, ℤ, pos, ◌+ℤ◌, ◌-ℤ◌,
  ltb_ℤ, leb_ℤ, max_ℤ, is_blank, Dict, lookup, insert, is_some, or_default, app_error,
  validation_error, Result, ok, err, Exec, pure, gets, raise_if, modify, ◌>>=◌, ◌>>◌,
}
use fastapi_foundation.Quotas.Usage.{QuotaUsageStore, Usage}

validate_key : String → Exec Usage (Unit {0})
validate_key key =
    raise_if (is_blank key) (app_error validation_error "Quota usage key is required" 400)

validate_positive : ℤ → String → Exec Usage (Unit {0})
validate_positive value label =
    raise_if (leb_ℤ value (pos 0))
      (app_error validation_error (label <> " must be greater than zero") 400)

validate_non_negative : ℤ → String → Exec Usage (Unit {0})
validate_non_negative value label =
    raise_if (ltb_ℤ value (pos 0))
      (app_error validation_error (label <> " must be greater than or equal to zero") 400)

unfoldable pub get_usage : String → Exec Usage ℤ
unfolding validate_key
get_usage key = do
  validate_key key
  row ← gets (lookup key)
  pure (elim row [ some used ↦ used | none ↦ pos 0 ])

unfoldable pub set_usage : String → ℤ → Exec Usage (Unit {0})
unfolding validate_key validate_non_negative
set_usage key value = do
  validate_key key
  validate_non_negative value "Quota usage"
  modify (insert key value)

-- What other transactions commit in an attempt, by the attempts left: before its update, before
-- its look at the row when that takes none, before its insert, and after the commit of its update.
pub record Others : Type 0 where
  pub before : ℕ → Usage → Usage
  pub looking : ℕ → Usage → Usage
  pub inserting : ℕ → Usage → Usage
  pub reading : ℕ → Usage → Usage

-- There is a row, and `used + amount <= limit`.
abbrev pub has_room : ℤ → ℤ → Option ℤ → Bool
has_room amount limit none = false
has_room amount limit (some used) = leb_ℤ (used +ℤ amount) limit

-- The update where there is room, its commit, and the usage read again, by a session of its own.
update_row : (Usage → Usage) → String → ℤ → Exec Usage (Option ℤ)
unfolding get_usage
update_row reading key amount = do
  modify (λ s. insert key (or_default (pos 0) (lookup key s) +ℤ amount) s)
  modify reading
  used ← get_usage key
  pure (some used)

-- The loop over `range(2)`. Without a row one is inserted, which fails when another transaction
-- has been faster.
unfoldable pub reserve_attempts : ℕ → Others → String → ℤ → ℤ → Exec Usage (Option ℤ)
unfolding update_row
reserve_attempts zero others key amount limit = pure none
reserve_attempts (suc n) others key amount limit = do
  modify (others.before (suc n))
  row ← gets (lookup key)
  elim (has_room amount limit row) [
    | true ↦ update_row (others.reading (suc n)) key amount
    | false ↦ (do
      modify (others.looking (suc n))
      seen ← gets (lookup key)
      elim seen [
        | some _ ↦ pure none
        | none ↦ (do
          modify (others.inserting (suc n))
          taken ← gets (lookup key)
          elim taken [
            | some _ ↦ reserve_attempts n others key amount limit
            | none ↦ (do modify (insert key amount); pure (some amount))
          ])
      ])
  ]

unfoldable pub reserve : Others → String → ℤ → ℤ → Exec Usage (Option ℤ)
unfolding validate_key validate_positive validate_non_negative reserve_attempts
reserve others key amount limit = do
  validate_key key
  validate_positive amount "Quota amount"
  validate_non_negative limit "Quota limit"
  if ltb_ℤ limit amount then pure none else reserve_attempts 2 others key amount limit

release_row : String → ℤ → Option ℤ → Exec Usage ℤ
release_row key amount none = pure (pos 0)
release_row key amount (some used) = do
  modify (insert key (max_ℤ (used -ℤ amount) (pos 0)))
  pure (max_ℤ (used -ℤ amount) (pos 0))

unfoldable pub release : String → ℤ → Exec Usage ℤ
unfolding validate_key validate_positive release_row
release key amount = do
  validate_key key
  validate_positive amount "Quota amount"
  row ← gets (lookup key)
  release_row key amount row

-- No other transaction comes between.
abbrev pub alone : Others
alone = record { before = λ _ s. s; looking = λ _ s. s; inserting = λ _ s. s; reading = λ _ s. s }

abbrev pub database_usage_store : QuotaUsageStore Usage
database_usage_store = record {
  get_usage = get_usage;
  set_usage = set_usage;
  reserve = reserve alone;
  release = release;
}
