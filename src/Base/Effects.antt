-- ===== src/Base/Effects.antt =====
-- src/core/exceptions: errors as values, and methods that change an object and may raise. What was
-- written before a raise stays written, so the object comes back beside the error too.
use Prim.Native.Nat.{ℕ}
use Prim.Native.String.{String}
use mathlib.Core.Path.{◌≡◌, refl}
use mathlib.Core.Logic.{◌⊎◌, inl, inr}
use mathlib.Core.Bool.{Bool}
use fastapi_foundation.Base.Tests.{if◌then◌else◌}

-- The error codes that the modelled components raise.
pub data ErrorCode : Type 0 where
  validation_error conflict not_found : ErrorCode
  lock_not_acquired lock_not_owned rate_limited quota_exceeded : ErrorCode
  idempotency_key_conflict idempotency_in_progress : ErrorCode
  tenant_state_forbidden tenant_context_conflict permission_denied : ErrorCode
  tenant_delete_step_failed : ErrorCode
  task_idempotency_key_conflict : ErrorCode
  -- any other exception
  internal_error : ErrorCode

-- `AppError`, without its details and headers.
pub record AppError : Type 0 where
  pub error_code : ErrorCode
  pub message : String
  pub status_code : ℕ

abbrev pub app_error : ErrorCode → String → ℕ → AppError
app_error c m s = record { error_code = c; message = m; status_code = s }

pub data Result {ℓ} (A : Type ℓ) : Type ℓ where
  ok : A → Result A
  err : AppError → Result A

abbrev pub Exec {ℓ κ} : Type ℓ → Type κ → Type (ℓ ⊔ κ)
Exec S A = S → Result A × S

module _ {ℓ κ} {S : Type ℓ} {A : Type κ} where
  abbrev pub pure : A → Exec S A
  pure a s = (ok a, s)

  abbrev pub raise : AppError → Exec S A
  raise e s = (err e, s)

  abbrev pub gets : (S → A) → Exec S A
  gets f s = (ok (f s), s)

  abbrev pub lift : Result A → Exec S A
  lift r s = (r, s)

infixl 5 ◌>>=◌ ◌>>◌
abbrev pub ◌>>=◌ {ℓ κ ι} :
    {S : Type ℓ} {A : Type κ} {B : Type ι} → Exec S A → (A → Exec S B) → Exec S B
◌>>=◌ m f s = let (r, s') = m s in elim r [ ok a ↦ f a s' | err e ↦ (err e, s') ]

abbrev pub ◌>>◌ {ℓ κ ι} : {S : Type ℓ} {A : Type κ} {B : Type ι} → Exec S A → Exec S B → Exec S B
m >> n = m >>= λ _. n

module _ {ℓ} {S : Type ℓ} where
  abbrev pub raise_if : Bool → AppError → Exec S (Unit {0})
  raise_if c e s = (if c then err e else ok tt, s)

  abbrev pub modify : (S → S) → Exec S (Unit {0})
  modify f s = (ok tt, f s)

pub Result-cases {ℓ} :
    {A : Type ℓ} (r : Result A) → ((a : A) × (r ≡ ok a)) ⊎ ((e : AppError) × (r ≡ err e))
Result-cases (ok a) = inl (a, refl)
Result-cases (err e) = inr (e, refl)

-- What holds on both sides of a match on a result holds of the match.
pub Result-split {ℓ κ ι} :
    {A : Type ℓ} {B : Type κ} (P : B → Type ι) (r : Result A) (f : A → B) (g : AppError → B)
    → ((a : A) → r ≡ ok a → P (f a))
    → ((e : AppError) → r ≡ err e → P (g e))
    → P (elim r [ ok a ↦ f a | err e ↦ g e ])
Result-split P (ok a) f g h k = h a refl
Result-split P (err e) f g h k = k e refl
