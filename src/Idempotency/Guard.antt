-- ===== src/Idempotency/Guard.antt =====
-- src/core/idempotency/guard.py: `IdempotencyMutationGuard.run`, over the table and the world that
-- the mutation works on. The hash of a payload, the builders of the response and the texts of an
-- exception are arguments, as they are for the code.
pub mod Runs
use fastapi_foundation.Base.{
  ℕ, ◌+◌, ◌*◌, ◌<◌, String, ◌≡◌, refl, sym, Bool, Option, none, some, arith, AppError, Result, ok,
  err, Exec, pure, raise, lift, ◌>>=◌, ◌>>◌, Result-split, ◌∙◌, ap, if◌then◌else◌, ◌==◌, eq_refl,
  Result-cases, Option-cases, inl, inr, Bool-cases, true, false,
}
use fastapi_foundation.Idempotency.Records.{Scope, IdempotencyRecord, Table, find, write}
use fastapi_foundation.Idempotency.{
  Outcome, IdempotencyClaim, claim, mark_succeeded, mark_failed, processing_record,
  succeeded_record,
}
use fastapi_foundation.Idempotency.Claims.{
  IsNamed, is_free, blocked_answer, claim_free, claim-blocked, claim_replays,
}

pub record IdempotencyMutationResult (T : Type 0) : Type 0 where
  pub outcome : Outcome
  pub claimed : IdempotencyRecord
  pub value : Option T
  pub response_code : Option String
  pub response_body : Option String
  pub task_id : Option String
  pub outbox_event_id : Option String

-- The guard's store, and what the mutation works on.
pub record Place (W : Type 0) : Type 0 where
  pub table : Table
  pub world : W

module _ {W : Type 0} where
  abbrev on_table : {A : Type 0} → Exec Table A → Exec (Place W) A
  on_table m p = let (r, t) = m p.table in (r, record p { table = t })

  abbrev on_world : {A : Type 0} → Exec W A → Exec (Place W) A
  on_world m p = let (r, w) = m p.world in (r, record p { world = w })

-- What a call of `run` is given.
pub record Mutation (W T : Type 0) : Type 0 where
  pub scope : Scope
  pub request_hash : String
  pub handler : Exec W T
  pub response_code : String
  pub response_builder : T → Result String
  pub task_id_builder : T → Result (Option String)
  pub outbox_event_id_builder : T → Result (Option String)
  pub ttl_seconds : ℕ
  pub lock_seconds : ℕ
  pub retry_failed : Bool
  -- the name of an exception's type, and its text in the body of the response
  pub exception_name : AppError → String
  pub exception_body : AppError → String

module _ {W T : Type 0} (m : Mutation W T) where
  -- The block under `try`.
  unfoldable attempt : IdempotencyRecord → Exec (Place W) (IdempotencyMutationResult T)
  attempt r = do
    value ← on_world m.handler
    body ← lift (m.response_builder value)
    task ← lift (m.task_id_builder value)
    event ← lift (m.outbox_event_id_builder value)
    r' ← on_table (mark_succeeded r m.response_code body task event)
    pure (record {
      outcome = Outcome.started;
      claimed = r';
      value = some value;
      response_code = some m.response_code;
      response_body = some body;
      task_id = task;
      outbox_event_id = event;
    })

  -- `except`: the claim is marked as failed, and the exception goes on.
  unfoldable guarded : IdempotencyRecord → Exec (Place W) (IdempotencyMutationResult T)
  unfolding attempt
  guarded r p =
      let (outcome, p') = attempt r p in
      elim outcome [
        | ok v ↦ (ok v, p')
        | err e ↦ (on_table (mark_failed r (m.exception_name e) (m.exception_body e)) >> raise e) p'
      ]

  unfoldable claimed_run : IdempotencyClaim → Exec (Place W) (IdempotencyMutationResult T)
  unfolding guarded
  claimed_run c = elim c.outcome [
    | Outcome.replayed ↦ pure (record {
      outcome = Outcome.replayed;
      claimed = c.claimed;
      value = none;
      response_code = c.claimed.response_code;
      response_body = c.claimed.response_body;
      task_id = c.claimed.task_id;
      outbox_event_id = c.claimed.outbox_event_id;
    })
    | Outcome.started ↦ guarded c.claimed
  ]

  unfoldable pub run : ℕ → Exec (Place W) (IdempotencyMutationResult T)
  unfolding claimed_run
  run now = do
    c ← on_table (claim m.scope m.request_hash m.ttl_seconds m.lock_seconds now m.retry_failed)
    claimed_run c
