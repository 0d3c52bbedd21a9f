-- ===== src/Idempotency/Tests.antt =====
-- src/core/idempotency: the statements about idempotent requests, at a concrete table.
use fastapi_foundation.Base.{
  String, ◌≡◌, refl, true, false, none, some, List, [], ◌∷◌, arith, if◌then◌else◌, ok, err,
  app_error, validation_error, idempotency_in_progress, idempotency_key_conflict, pure, modify,
  ◌>>◌, is_blank, ◌==◌,
}
use fastapi_foundation.Idempotency.Records.{Scope, scope_eq, Status, IdempotencyRecord, Table, find}
use fastapi_foundation.Idempotency.{
  diagnose, Outcome, claim, processing_record, succeeded_record, mark_succeeded, Diagnosis,
  any_blank,
}
use fastapi_foundation.Idempotency.{expire_before}
use fastapi_foundation.Idempotency.Expiry.{claim-expire_before}
use fastapi_foundation.Idempotency.Claims.{
  is_free, claim_exclusive, claim_replays, foretold, diagnose-claim,
}
use fastapi_foundation.Idempotency.Guard.{IdempotencyMutationResult, Place, Mutation, run}
use fastapi_foundation.Idempotency.Guard.Runs.{run_again}

abbrev scope : Scope
scope = record { tenant_id = "acme"; user_id = "u1"; route = "/orders"; idempotency_key = "k1" }

-- A request that failed, whose row is kept until the instant 9000.
abbrev failure : IdempotencyRecord
failure = record {
  scope = scope;
  request_hash = "h1";
  status = Status.failed;
  response_code = some "TimeoutError";
  response_body = none;
  task_id = none;
  outbox_event_id = none;
  locked_until = none;
  expires_at = 9000;
}

abbrev table : Table
table = failure ∷ []

claim_exclusive_example :
    claim scope "h2" 60 5 200 true (claim scope "h1" 60 5 100 true table).1 ≡ (
      err (
          if "h1" == "h2"
          then app_error idempotency_in_progress "Idempotency request is already processing" 409
          else app_error idempotency_key_conflict
              "Idempotency key was already used with a different request payload" 409),
      (claim scope "h1" 60 5 100 true table).1,
    )
unfolding any_blank is_blank is_free find scope_eq
claim_exclusive_example =
    claim_exclusive scope "h1" "h2" 60 5 100 60 5 200 true true table refl refl refl (omega arith)
      (omega arith)

claim_replays_example :
    let r = processing_record scope "h1" 60 5 100 in
    let t = (mark_succeeded r "200" "{}" none none table).1 in
    claim scope "h1" 60 5 50000000 false t ≡ (
      (if "h1" == "h1"
          then ok (record {
            outcome = Outcome.replayed;
            claimed = succeeded_record r "200" "{}" none none;
          })
          else err (
              app_error idempotency_key_conflict
                "Idempotency key was already used with a different request payload" 409)),
      t,
    )
unfolding any_blank is_blank
claim_replays_example =
    claim_replays scope "h1" "h1" 60 5 100 60 5 50000000 true false "200" "{}" none none table refl
      (omega arith)

diagnose-claim_example :
    (table ≡ table)
    × (claim scope "h1" 60 5 100 true table
        ≡ foretold Diagnosis.retryable_failed (find scope table) scope "h1" 60 5 100 table)
unfolding find scope_eq diagnose is_blank
diagnose-claim_example =
    diagnose-claim scope "h1" 60 5 100 true table Diagnosis.retryable_failed table
      (λ e. absurd (ground arith)) refl

-- An order is appended to the orders.
abbrev place_order : Mutation (List String) String
place_order = record {
  scope = scope;
  request_hash = "h1";
  handler = (do modify (λ orders. "o1" ∷ orders); pure "o1");
  response_code = "201";
  response_builder = ok;
  task_id_builder = λ _. ok none;
  outbox_event_id_builder = λ _. ok none;
  ttl_seconds = 60;
  lock_seconds = 5;
  retry_failed = true;
  exception_name = λ _. "AppError";
  exception_body = λ _. "{}";
}

abbrev shop : Place (List String)
shop = record { table = table; world = [] }

abbrev placed : IdempotencyMutationResult String
placed = record {
  outcome = Outcome.started;
  claimed = succeeded_record (processing_record scope "h1" 60 5 100) "201" "o1" none none;
  value = some "o1";
  response_code = some "201";
  response_body = some "o1";
  task_id = none;
  outbox_event_id = none;
}

run_again_example : run place_order 50000000 (run place_order 100 shop).1 ≡ (
  ok (record placed { outcome = Outcome.replayed; value = none }),
  (run place_order 100 shop).1,
)
unfolding any_blank is_blank run claim find scope_eq mark_succeeded
run_again_example = run_again place_order 100 50000000 shop placed refl refl refl (omega arith)

claim-expire_before_example :
    (claim scope "h2" 60 5 9500 true (expire_before 9200 table).1).0
    ≡ (claim scope "h2" 60 5 9500 true table).0
unfolding any_blank is_blank
claim-expire_before_example =
    claim-expire_before scope "h2" 60 5 9200 9500 true table refl (omega arith)

unnamed :
    (claim (record scope { user_id = " "; route = "" }) "h1" 60 5 100 true table).0
    ≡ err (
        app_error validation_error "Idempotency fields must be non-empty: ['user_id', 'route']" 400)
unfolding is_blank claim
unnamed = refl
