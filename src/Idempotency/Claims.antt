-- ===== src/Idempotency/Claims.antt =====
-- src/core/idempotency/store.py: what a claim does, and what one claim means for the next.
use fastapi_foundation.Base.{
  ℕ, ◌+◌, ◌*◌, ◌≤◌, ◌<◌, String, ◌≡◌, ap, ◌∙◌, Bool, true, false, ◌||◌, ◌&&◌, Option, none, some,
  arith, leb, if◌then◌else◌, is_blank, ◌==◌, app_error, conflict, idempotency_key_conflict,
  idempotency_in_progress, Result, ok, err, Option-cases, inl, inr,
}
use fastapi_foundation.Idempotency.Records.{
  Scope, scope_eq, scope_eq_refl, Status, IdempotencyRecord, Table, find, write, find-write,
  find_scope,
}
use fastapi_foundation.Idempotency.{
  Outcome, IdempotencyClaim, any_blank, restarted, processing_record, claim, handle_existing,
  lock_passed, succeeded_record, mark_succeeded, Diagnosis, diagnose,
}

-- The scope and the request hash are not blank.
abbrev pub IsNamed : Scope → String → Type 0
IsNamed s hash = (any_blank s || is_blank hash) ≡ false

-- What a row means for a claim: nothing stands in the way, or the claim is answered by the row.
unfoldable pub is_free : Option IdempotencyRecord → String → ℕ → Bool → Bool
is_free none hash now retry = true
is_free (some r) hash now retry =
    leb r.expires_at now
    || (r.request_hash == hash) && elim r.status [
      | Status.succeeded ↦ false
      | Status.processing ↦ lock_passed r.locked_until now
      | Status.failed ↦ retry
      | Status.expired ↦ true
    ]

-- The answer to a claim from the row that stands in the way.
abbrev pub blocked_answer : IdempotencyRecord → String → Result IdempotencyClaim
blocked_answer r hash =
    if r.request_hash == hash
    then elim r.status [
      | Status.processing ↦
          err (app_error idempotency_in_progress "Idempotency request is already processing" 409)
      | Status.failed ↦ err (
          app_error conflict "Failed idempotency request cannot be retried without explicit opt-in"
            409)
      | _ ↦ ok (record { outcome = Outcome.replayed; claimed = r })
    ]
    else err (
        app_error idempotency_key_conflict
          "Idempotency key was already used with a different request payload" 409)

module _ (s : Scope) (hash : String) (ttl lock now : ℕ) (retry : Bool) (t : Table)
    (named : IsNamed s hash) where
  claim_new :
      find s t ≡ none
      → claim s hash ttl lock now retry t ≡ (
        ok (record { outcome = Outcome.started; claimed = processing_record s hash ttl lock now }),
        write (processing_record s hash ttl lock now) t,
      )
  unfolding claim
  claim_new absent = ground arith

  claim_row :
      (r : IdempotencyRecord)
      → find s t ≡ some r
      → claim s hash ttl lock now retry t ≡ handle_existing r hash ttl lock now retry t
  unfolding claim
  claim_row r found = ground arith

  restarted_row :
      (r : IdempotencyRecord)
      → r.scope ≡ s
      → restarted r hash ttl lock now ≡ processing_record s hash ttl lock now
  unfolding restarted processing_record
  restarted_row r same = ground arith

  handle_free :
      (r : IdempotencyRecord)
      → is_free (some r) hash now retry ≡ true
      → handle_existing r hash ttl lock now retry t ≡ (
        ok (record { outcome = Outcome.started; claimed = restarted r hash ttl lock now }),
        write (restarted r hash ttl lock now) t,
      )
  unfolding handle_existing is_free
  handle_free r free = ground arith

  pub claim_free :
      is_free (find s t) hash now retry ≡ true
      → claim s hash ttl lock now retry t ≡ (
        ok (record { outcome = Outcome.started; claimed = processing_record s hash ttl lock now }),
        write (processing_record s hash ttl lock now) t,
      )
  claim_free free = elim (Option-cases (find s t)) [
    | inl absent ↦ claim_new absent
    | inr (r, found) ↦
        rw (← restarted_row r (find_scope s t found))
          (claim_row r found ∙ handle_free r (rw found at free))
  ]

  -- A claim of a named scope that is free starts. Its row is as new, with nothing of an earlier
  -- response, and no other scope's row is touched.
  pub claim-is_free :
      is_free (find s t) hash now retry ≡ true
      → ((claim s hash ttl lock now retry t).0
          ≡ ok (record {
            outcome = Outcome.started;
            claimed = processing_record s hash ttl lock now;
          }))
        × ((j : Scope)
            → find j (claim s hash ttl lock now retry t).1
              ≡ (if scope_eq s j then some (processing_record s hash ttl lock now) else find j t))
  unfolding processing_record
  claim-is_free free = (
    ap (λ c. c.0) (claim_free free),
    λ j. rw (claim_free free) (find-write j (processing_record s hash ttl lock now) t),
  )

  -- A claim of a named scope that is not free changes nothing: it replays the row of a request
  -- that succeeded under the same hash, and otherwise raises, by the hash and then by the status.
  pub claim-blocked :
      (r : IdempotencyRecord)
      → find s t ≡ some r
      → is_free (some r) hash now retry ≡ false
      → claim s hash ttl lock now retry t ≡ (blocked_answer r hash, t)
  unfolding handle_existing is_free
  claim-blocked r found blocked = rw (claim_row r found) (ground arith)

-- A claim of a named scope that starts holds it: until its lock or its row runs out, every other
-- named claim is refused and changes nothing, for being in progress or for another request under
-- the key.
pub claim_exclusive :
    (s : Scope) (hash hash' : String) (ttl lock now ttl' lock' now' : ℕ) (retry retry' : Bool)
    (t : Table)
    → IsNamed s hash
    → IsNamed s hash'
    → is_free (find s t) hash now retry ≡ true
    → now' < now + lock * 1000000
    → now' < now + ttl * 1000000
    → let t' = (claim s hash ttl lock now retry t).1 in
      claim s hash' ttl' lock' now' retry' t' ≡ (
        err (
            if hash == hash'
            then app_error idempotency_in_progress "Idempotency request is already processing" 409
            else app_error idempotency_key_conflict
                "Idempotency key was already used with a different request payload" 409),
        t',
      )
claim_exclusive s hash hash' ttl lock now ttl' lock' now' retry retry' t named named' free inside
      alive =
    let p = processing_record s hash ttl lock now in
    let t' = (claim s hash ttl lock now retry t).1 in
    let row : find s t' ≡ some p =
      (claim-is_free s hash ttl lock now retry t named free).1 s ∙ rw (scope_eq_refl s) in
    claim-blocked s hash' ttl' lock' now' retry' t' named' p row
      (unfold processing_record is_free in ground arith)
    ∙ (unfold processing_record in ground arith)

-- Once a started claim is marked as succeeded, every named claim under the same hash is answered
-- by the stored response until the row runs out, and one under another hash is refused; neither
-- changes the table.
pub claim_replays :
    (s : Scope) (hash hash' : String) (ttl lock now ttl' lock' now' : ℕ) (retry retry' : Bool)
    (code body : String) (task event : Option String) (t : Table)
    → IsNamed s hash'
    → now' < now + ttl * 1000000
    → let r = succeeded_record (processing_record s hash ttl lock now) code body task event in
      let t' = (mark_succeeded (processing_record s hash ttl lock now) code body task event t).1 in
      claim s hash' ttl' lock' now' retry' t' ≡ (
        (if hash == hash'
            then ok (record { outcome = Outcome.replayed; claimed = r })
            else err (
                app_error idempotency_key_conflict
                  "Idempotency key was already used with a different request payload" 409)),
        t',
      )
unfolding mark_succeeded processing_record
claim_replays s hash hash' ttl lock now ttl' lock' now' retry retry' code body task event t named
      alive =
    let r = succeeded_record (processing_record s hash ttl lock now) code body task event in
    let row : find s (write r t) ≡ some r = find-write s r t ∙ rw (scope_eq_refl s) in
    claim-blocked s hash' ttl' lock' now' retry' (write r t) named r row
      (unfold is_free in ground arith)
    ∙ ground arith

-- The claim that a diagnosis of the scope's row foretells: a new claim over missing, reusable and
-- retryable rows and a lock that has passed, a replay of a replayable row, and an error otherwise.
abbrev pub foretold :
    Diagnosis
    → Option IdempotencyRecord
    → Scope
    → String
    → ℕ
    → ℕ
    → ℕ
    → Table
    → Result IdempotencyClaim × Table
foretold d row s hash ttl lock now t =
    let new : IdempotencyRecord = record {
      scope = s;
      request_hash = hash;
      status = Status.processing;
      response_code = none;
      response_body = none;
      task_id = none;
      outbox_event_id = none;
      locked_until = some (now + lock * 1000000);
      expires_at = now + ttl * 1000000;
    } in
    let started : Result IdempotencyClaim × Table =
      (ok (record { outcome = Outcome.started; claimed = new }), write new t) in
    let busy : Result IdempotencyClaim × Table = (
      err (app_error idempotency_in_progress "Idempotency request is already processing" 409),
      t,
    ) in
    elim d [
      | Diagnosis.missing ↦ started
      | Diagnosis.expired_reusable ↦ started
      | Diagnosis.retryable_failed ↦ started
      | Diagnosis.in_progress ↦ elim row [
        | none ↦ busy
        | some r ↦ if lock_passed r.locked_until now then started else busy
      ]
      | Diagnosis.replayable ↦ elim row [
        | none ↦ busy
        | some r ↦ (ok (record { outcome = Outcome.replayed; claimed = r }), t)
      ]
      | Diagnosis.request_hash_conflict ↦ (
        err (
            app_error idempotency_key_conflict
              "Idempotency key was already used with a different request payload" 409),
        t,
      )
      | Diagnosis.failed_requires_retry_opt_in ↦ (
        err (
            app_error conflict
              "Failed idempotency request cannot be retried without explicit opt-in" 409),
        t,
      )
    ]

-- A row marked as expired has run out by then.
abbrev pub ExpiredIsPast : ℕ → Option IdempotencyRecord → Type 0
ExpiredIsPast now none = Unit
ExpiredIsPast now (some r) = r.status ≡ Status.expired → r.expires_at ≤ now

diagnosed-IsNamed :
    (s : Scope) (hash : String) (now : ℕ) (retry : Bool) (t : Table) (d : Diagnosis) (t' : Table)
    → diagnose s (some hash) now retry t ≡ (ok d, t')
    → IsNamed s hash
unfolding diagnose
diagnosed-IsNamed s hash now retry t d t' h = ground (arith, h)

-- A diagnosis under a request's hash changes nothing and foretells the claim, where a row marked as
-- expired has run out: the claim starts, with a new row, when the scope is missing, reusable,
-- retryable, or in progress under a lock that has passed; it replays a row that is replayable; it
-- is refused without a change when the row is in progress under another lock, of another request,
-- or failed and not to be retried.
pub diagnose-claim :
    (s : Scope) (hash : String) (ttl lock now : ℕ) (retry : Bool) (t : Table) (d : Diagnosis)
    (t' : Table)
    → ExpiredIsPast now (find s t)
    → diagnose s (some hash) now retry t ≡ (ok d, t')
    → (t' ≡ t) × (claim s hash ttl lock now retry t ≡ foretold d (find s t) s hash ttl lock now t)
unfolding diagnose processing_record
diagnose-claim s hash ttl lock now retry t d t' past h =
    let named = diagnosed-IsNamed s hash now retry t d t' h in
    elim (Option-cases (find s t)) [
      | inl absent ↦ (
        ground (arith, h, absent),
        claim_new s hash ttl lock now retry t named absent ∙ ground (arith, h, absent),
      )
      | inr (r, found) ↦ (
        ground (arith, h, found),
        claim_row s hash ttl lock now retry t named r found
            ∙ by_status r found (find_scope s t found) (rw found at past),
      )
    ]
  where
    by_status :
        (r : IdempotencyRecord)
        → find s t ≡ some r
        → r.scope ≡ s
        → (r.status ≡ Status.expired → r.expires_at ≤ now)
        → handle_existing r hash ttl lock now retry t ≡ foretold d (find s t) s hash ttl lock now t
    by_status r found same past =
        unfold handle_existing restarted in ground (arith, past, h, found, same)
