-- ===== src/Outbox/Tests.antt =====
-- src/core/outbox/repository.py: the statements about the outbox, at a concrete table.
use fastapi_foundation.Base.{
  ℕ, String, ◌≡◌, refl, true, Option, none, some, [], ◌∷◌, arith, All, Stands, err, app_error,
  conflict,
}
use fastapi_foundation.Outbox.{OutboxStatus, OutboxEvent, Table}
use fastapi_foundation.Outbox.Marks.{Failure, mark_published, mark_failed}
use fastapi_foundation.Outbox.Calls.{Call, after, after_all, IsConsistent, after-IsConsistent}
use fastapi_foundation.Outbox.Leases.{lease_kept, published_kept, stale_refused}

abbrev event : String → OutboxStatus → ℕ → Option String → Option ℕ → Option ℕ → OutboxEvent
event id status version by until at = record {
  event_id = id;
  tenant_id = "acme";
  event_type = "order.placed";
  event_version = 1;
  aggregate_type = "order";
  aggregate_id = "o1";
  payload = [];
  status = status;
  claim_version = version;
  attempt_count = 0;
  max_attempts = 3;
  next_retry_at = none;
  locked_by = by;
  locked_until = until;
  last_error = none;
  published_at = at;
  dead_letter_reason = none;
}

abbrev waiting : OutboxEvent
waiting = event "e1" OutboxStatus.pending 0 none none none

abbrev leased : OutboxEvent
leased = event "e2" OutboxStatus.publishing 2 (some "d1") (some 900) none

abbrev sent : OutboxEvent
sent = event "e3" OutboxStatus.published 1 none none (some 50)

abbrev table : Table
table = waiting ∷ leased ∷ sent ∷ []

abbrev timeout : Failure
timeout = record { retryable = true; last_error = "transient: TimeoutError" }

after-IsConsistent_example : All IsConsistent (after (Call.claiming "d2" 10 60 100) table)
after-IsConsistent_example =
    after-IsConsistent (Call.claiming "d2" 10 60 100) table tt (refl, (refl, (refl, tt)))

lease_kept_example : Stands leased (after (Call.claiming "d2" 10 60 100) table)
lease_kept_example =
    lease_kept (Call.claiming "d2" 10 60 100) leased "d1" 900 table refl refl refl (omega arith)
      refl (Stands.there Stands.here)

published_kept_example :
    Stands sent (after_all (Call.claiming "d2" 10 60 9000 ∷ Call.replaying waiting ∷ []) table)
published_kept_example =
    published_kept (Call.claiming "d2" 10 60 9000 ∷ Call.replaying waiting ∷ []) sent table refl
      (refl, (refl, tt)) (Stands.there (Stands.there Stands.here))

stale_refused_example :
    (mark_published (event "e2" OutboxStatus.publishing 1 (some "d0") (some 90) none) "d0" 100 table
      ≡ (
        err (
            app_error conflict
              "Outbox event cannot be marked published without an active dispatcher lease" 409),
        table,
      ))
    × (mark_failed
          (event "e2" OutboxStatus.publishing 1 (some "d0") (some 90) none)
          timeout
          "d0"
          30
          100
          table
        ≡ (
          err (
              app_error conflict
                "Outbox event cannot be marked failed without an active dispatcher lease" 409),
          table,
        ))
stale_refused_example =
    stale_refused (event "e2" OutboxStatus.publishing 1 (some "d0") (some 90) none) timeout "d0" 30
      100 table ((λ e. absurd (ground arith)), ((λ e. refl), ((λ e. absurd (ground arith)), tt)))
