-- ===== src/Idempotency/Guard/Runs.antt =====
-- src/core/idempotency/guard.py: how a run goes, and what one run means for the next.
use fastapi_foundation.Base.{
  ℕ, ◌+◌, ◌*◌, ◌<◌, String, ◌≡◌, refl, sym, Option, none, some, arith, AppError, Result, ok, err,
  ◌∙◌, ap, eq_refl, Result-cases, Option-cases, inl, inr, Bool-cases, true, false,
}
use fastapi_foundation.Idempotency.Records.{IdempotencyRecord, Table, find, write}
use fastapi_foundation.Idempotency.{
  Outcome, IdempotencyClaim, claim, mark_succeeded, mark_failed, processing_record,
  succeeded_record,
}
use fastapi_foundation.Idempotency.Claims.{
  IsNamed, is_free, blocked_answer, claim_free, claim-blocked, claim_replays,
}
use fastapi_foundation.Idempotency.Guard.{
  IdempotencyMutationResult, Place, Mutation, guarded, claimed_run, run,
}

module _ {W T : Type 0} (m : Mutation W T) where
  -- How a guarded attempt that returns has gone.
  record Done (r : IdempotencyRecord) (p : Place W) (v : IdempotencyMutationResult T) : Type 0 where
    body : String
    task : Option String
    event : Option String
    stored : (guarded m r p).1.table ≡ (mark_succeeded r m.response_code body task event p.table).1
    claimed_of : v.claimed ≡ succeeded_record r m.response_code body task event
    code_of : v.response_code ≡ some m.response_code
    body_of : v.response_body ≡ some body
    task_of : v.task_id ≡ task
    event_of : v.outbox_event_id ≡ event

  guarded-Done :
      (r : IdempotencyRecord) (p : Place W) (v : IdempotencyMutationResult T)
      → (guarded m r p).0 ≡ ok v
      → Done r p v
  unfolding guarded mark_failed mark_succeeded
  guarded-Done r p v h = elim (Result-cases (m.handler p.world).0) [
    | inr (e, raised) ↦ absurd (ground arith)
    | inl (value, returned) ↦ elim (Result-cases (m.response_builder value)) [
      | inr (e, raised) ↦ absurd (ground arith)
      | inl (body, built) ↦ elim (Result-cases (m.task_id_builder value)) [
        | inr (e, raised) ↦ absurd (ground arith)
        | inl (task, task_built) ↦ elim (Result-cases (m.outbox_event_id_builder value)) [
          | inr (e, raised) ↦ absurd (ground arith)
          | inl (event, event_built) ↦ record {
            body = body;
            task = task;
            event = event;
            stored = ground arith;
            claimed_of = ground arith;
            code_of = ground arith;
            body_of = ground arith;
            task_of = ground arith;
            event_of = ground arith;
          }
        ]
      ]
    ]
  ]

  run_claims :
      (now : ℕ) (p : Place W) (c : IdempotencyClaim) (t : Table)
      → claim m.scope m.request_hash m.ttl_seconds m.lock_seconds now m.retry_failed p.table
        ≡ (ok c, t)
      → run m now p ≡ claimed_run m c (record p { table = t })
  unfolding run
  run_claims now p c t h = ground arith

  run_refused :
      (now : ℕ) (p : Place W) (e : AppError) (t : Table)
      → claim m.scope m.request_hash m.ttl_seconds m.lock_seconds now m.retry_failed p.table
        ≡ (err e, t)
      → run m now p ≡ (err e, record p { table = t })
  unfolding run
  run_refused now p e t h = ground arith

  run_free :
      (now : ℕ) (p : Place W)
      → IsNamed m.scope m.request_hash
      → is_free (find m.scope p.table) m.request_hash now m.retry_failed ≡ true
      → let r = processing_record m.scope m.request_hash m.ttl_seconds m.lock_seconds now in
        run m now p ≡ guarded m r (record p { table = write r p.table })
  unfolding claimed_run
  run_free now p named free =
      let r = processing_record m.scope m.request_hash m.ttl_seconds m.lock_seconds now in
      run_claims now p (record { outcome = Outcome.started; claimed = r }) (write r p.table)
        (claim_free m.scope m.request_hash m.ttl_seconds m.lock_seconds now m.retry_failed p.table
          named free)

  blocked_ok :
      (r : IdempotencyRecord) (c : IdempotencyClaim)
      → blocked_answer r m.request_hash ≡ ok c
      → c ≡ record { outcome = Outcome.replayed; claimed = r }
  blocked_ok r c h = ground arith

  -- What a run of a scope that is not free comes to.
  abbrev pub blocked_run :
      IdempotencyRecord → Result IdempotencyClaim → Result (IdempotencyMutationResult T)
  blocked_run r (err e) = err e
  blocked_run r (ok c) = ok (record {
    outcome = Outcome.replayed;
    claimed = r;
    value = none;
    response_code = r.response_code;
    response_body = r.response_body;
    task_id = r.task_id;
    outbox_event_id = r.outbox_event_id;
  })

  -- A run of a named scope that is not free calls no handler and changes nothing: it replays the
  -- row's response, or raises what the claim raises.
  pub run_blocked :
      (now : ℕ) (p : Place W) (r : IdempotencyRecord)
      → IsNamed m.scope m.request_hash
      → find m.scope p.table ≡ some r
      → is_free (some r) m.request_hash now m.retry_failed ≡ false
      → run m now p ≡ (blocked_run r (blocked_answer r m.request_hash), p)
  unfolding claimed_run
  run_blocked now p r named found blocked =
      let answered =
        claim-blocked m.scope m.request_hash m.ttl_seconds m.lock_seconds now m.retry_failed p.table
          named r found blocked in
      by_answer (blocked_answer r m.request_hash) refl answered
    where
      by_answer :
          (a : Result IdempotencyClaim)
          → blocked_answer r m.request_hash ≡ a
          → claim m.scope m.request_hash m.ttl_seconds m.lock_seconds now m.retry_failed p.table
            ≡ (a, p.table)
          → run m now p ≡ (blocked_run r a, p)
      by_answer (ok c) replays answered =
          rw (run_claims now p c p.table answered, blocked_ok r c replays) refl
      by_answer (err e) refused answered = run_refused now p e p.table answered

  blocked_replays :
      (r : IdempotencyRecord) (v : IdempotencyMutationResult T)
      → blocked_run r (blocked_answer r m.request_hash) ≡ ok v
      → v.outcome ≡ Outcome.replayed
  blocked_replays r v h = ground arith

  -- A run that starts took a free scope.
  run-started :
      (now : ℕ) (p : Place W) (v : IdempotencyMutationResult T)
      → IsNamed m.scope m.request_hash
      → (run m now p).0 ≡ ok v
      → v.outcome ≡ Outcome.started
      → is_free (find m.scope p.table) m.request_hash now m.retry_failed ≡ true
  run-started now p v named h started =
      elim (Bool-cases (is_free (find m.scope p.table) m.request_hash now m.retry_failed)) [
        | inl free ↦ free
        | inr taken ↦ elim (Option-cases (find m.scope p.table)) [
          | inl absent ↦ absurd (unfold is_free in ground arith)
          | inr (r, found) ↦
              let e = ap (λ x. x.0) (run_blocked now p r named found (rw found at taken)) in
              absurd (ground (arith, blocked_replays r v (sym e ∙ h)))
        ]
      ]

  again :
      (now now' : ℕ) (t : Table) (p : Place W) (v : IdempotencyMutationResult T) (body : String)
      (task event : Option String)
      → IsNamed m.scope m.request_hash
      → let r = processing_record m.scope m.request_hash m.ttl_seconds m.lock_seconds now in
        p.table ≡ (mark_succeeded r m.response_code body task event t).1
        → now' < now + m.ttl_seconds * 1000000
        → run m now' p ≡ (
          ok (record {
            outcome = Outcome.replayed;
            claimed = succeeded_record r m.response_code body task event;
            value = none;
            response_code = some m.response_code;
            response_body = some body;
            task_id = task;
            outbox_event_id = event;
          }),
          p,
        )
  unfolding claimed_run
  again now now' t p v body task event named stored alive =
      let r = processing_record m.scope m.request_hash m.ttl_seconds m.lock_seconds now in
      let c : IdempotencyClaim = (record {
        outcome = Outcome.replayed;
        claimed = succeeded_record r m.response_code body task event;
      }) in
      let replays =
        claim_replays m.scope m.request_hash m.request_hash m.ttl_seconds m.lock_seconds now
          m.ttl_seconds m.lock_seconds now' m.retry_failed m.retry_failed m.response_code body task
          event t named alive in
      run_claims now' p c p.table (rw (stored) (rw (eq_refl m.request_hash) at replays))

  same_response :
      (r : IdempotencyRecord) (q : Place W) (v : IdempotencyMutationResult T) (d : Done r q v)
      → (record v { outcome = Outcome.replayed; value = none }) ≡ (record {
        outcome = Outcome.replayed;
        claimed = succeeded_record r m.response_code d.body d.task d.event;
        value = none;
        response_code = some m.response_code;
        response_body = some d.body;
        task_id = d.task;
        outbox_event_id = d.event;
      })
  same_response r q v d = rw (d.claimed_of, d.code_of, d.body_of, d.task_of, d.event_of) refl

  -- Once a run of a named request has started and returned, a further run of it is answered by the
  -- stored response until the row runs out: it calls no handler and changes nothing.
  pub run_again :
      (now now' : ℕ) (p : Place W) (v : IdempotencyMutationResult T)
      → IsNamed m.scope m.request_hash
      → (run m now p).0 ≡ ok v
      → v.outcome ≡ Outcome.started
      → now' < now + m.ttl_seconds * 1000000
      → run m now' (run m now p).1
        ≡ (ok (record v { outcome = Outcome.replayed; value = none }), (run m now p).1)
  run_again now now' p v named h started alive =
      let r = processing_record m.scope m.request_hash m.ttl_seconds m.lock_seconds now in
      let q = (record p { table = write r p.table }) in
      let at = run_free now p named (run-started now p v named h started) in
      let d = guarded-Done r q v (sym (ap (λ o. o.0) at) ∙ h) in
      again now now' q.table (run m now p).1 v d.body d.task d.event named
        (ap (λ o. o.1.table) at ∙ d.stored) alive
      ∙ ap (λ x. (ok x, (run m now p).1)) (sym (same_response r q v d))
