-- ===== src/Outbox/Marks.antt =====
-- src/core/outbox/repository.py: what a dispatcher makes of an event that it has claimed, under the
-- lease of its claim, and the replay of a dead letter. The exception of a failure is its
-- classification and its text. The details of an `AppError` are left out.
use Prim.Native.String.{◌++◌ as ◌<>◌}
use fastapi_foundation.Base.{
  ℕ, ◌+◌, ◌*◌, String, Bool, true, false, not, ◌||◌, ◌&&◌, Option, none, some, leb, ltb, eqb,
  if◌then◌else◌, app_error, ErrorCode, conflict, err, Exec, pure, raise, raise_if, modify, gets,
  ◌>>◌, ◌==◌, update_where, count_where,
}
use fastapi_foundation.Outbox.{OutboxStatus, OutboxEvent, Table, find}

abbrev pub is_publishing : OutboxStatus → Bool
is_publishing OutboxStatus.publishing = true
is_publishing _ = false

abbrev pub is_dead_letter : OutboxStatus → Bool
is_dead_letter OutboxStatus.dead_letter = true
is_dead_letter _ = false

abbrev is_locked_by : Option String → String → Bool
is_locked_by none d = false
is_locked_by (some x) d = x == d

abbrev is_after : Option ℕ → ℕ → Bool
is_after none now = false
is_after (some l) now = ltb now l

-- The condition of `_conditioned_dispatch_update`, on a row.
abbrev pub has_lease : OutboxEvent → String → ℕ → OutboxEvent → Bool
has_lease event dispatcher_id now e =
    (e.event_id == event.event_id)
    && (is_publishing e.status
        && (is_locked_by e.locked_by dispatcher_id
            && (eqb e.claim_version event.claim_version && is_after e.locked_until now)))

-- What `session.refresh` reads, which raises when the row is gone.
refreshed : String → Option OutboxEvent → Exec Table OutboxEvent
refreshed id none = raise (app_error ErrorCode.internal_error id 500)
refreshed id (some e) = pure e

-- `_conditioned_dispatch_update`; the event comes back as it is refreshed.
conditioned_dispatch_update :
    OutboxEvent → String → String → (OutboxEvent → OutboxEvent) → ℕ → Exec Table OutboxEvent
unfolding refreshed
conditioned_dispatch_update event dispatcher_id operation values now t =
    let t' = update_where (has_lease event dispatcher_id now) values t in
    if eqb (count_where (has_lease event dispatcher_id now) t) 1
    then refreshed event.event_id (find event.event_id t') t'
    else (
      err (
          app_error conflict
            ("Outbox event cannot be marked "
              <> (operation <> " without an active dispatcher lease"))
            409),
      t',
    )

abbrev pub published_event : ℕ → OutboxEvent → OutboxEvent
published_event now e = record e {
  status = OutboxStatus.published;
  published_at = some now;
  locked_by = none;
  locked_until = none;
  last_error = none;
}

unfoldable pub mark_published : OutboxEvent → String → ℕ → Exec Table OutboxEvent
unfolding conditioned_dispatch_update
mark_published event dispatcher_id now =
    conditioned_dispatch_update event dispatcher_id "published" (published_event now) now

-- An exception, by its classification and its text.
pub record Failure : Type 0 where
  pub retryable : Bool
  pub last_error : String

-- The values of `mark_failed`, from the event's attempts so far.
abbrev pub failed_event : OutboxEvent → Failure → ℕ → ℕ → OutboxEvent → OutboxEvent
failed_event event failure retry_delay_seconds now e =
    if not failure.retryable || leb event.max_attempts (event.attempt_count + 1)
    then record e {
      attempt_count = event.attempt_count + 1;
      last_error = some failure.last_error;
      locked_by = none;
      locked_until = none;
      status = OutboxStatus.dead_letter;
      dead_letter_reason = some failure.last_error;
      next_retry_at = none;
    }
    else record e {
      attempt_count = event.attempt_count + 1;
      last_error = some failure.last_error;
      locked_by = none;
      locked_until = none;
      status = OutboxStatus.failed;
      next_retry_at = some (now + retry_delay_seconds * 1000000);
    }

unfoldable pub mark_failed : OutboxEvent → Failure → String → ℕ → ℕ → Exec Table OutboxEvent
unfolding conditioned_dispatch_update
mark_failed event failure dispatcher_id retry_delay_seconds now =
    conditioned_dispatch_update event dispatcher_id "failed"
      (failed_event event failure retry_delay_seconds now) now

abbrev pub replayed_event : OutboxEvent → OutboxEvent
replayed_event e = record e {
  status = OutboxStatus.pending;
  dead_letter_reason = none;
  last_error = none;
  next_retry_at = none;
  locked_by = none;
  locked_until = none;
}

abbrev pub is_row : OutboxEvent → OutboxEvent → Bool
is_row event e = e.event_id == event.event_id

-- It is the event's row that is written.
unfoldable pub replay_dead_letter : OutboxEvent → Exec Table (Unit {0})
replay_dead_letter event = do
  raise_if (not (is_dead_letter event.status))
      (app_error conflict "Only dead-letter events can be replayed" 409)
  modify (update_where (is_row event) replayed_event)

abbrev same_status : OutboxStatus → OutboxStatus → Bool
same_status OutboxStatus.pending OutboxStatus.pending = true
same_status OutboxStatus.publishing OutboxStatus.publishing = true
same_status OutboxStatus.published OutboxStatus.published = true
same_status OutboxStatus.failed OutboxStatus.failed = true
same_status OutboxStatus.dead_letter OutboxStatus.dead_letter = true
same_status _ _ = false

unfoldable pub count_by_status : OutboxStatus → Exec Table ℕ
count_by_status status = gets (count_where (λ e. same_status e.status status))
