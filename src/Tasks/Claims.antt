-- ===== src/Tasks/Claims.antt =====
-- src/core/tasks/repository.py: which run a worker is given, and which runs nothing touches again.
use fastapi_foundation.Base.{
  ℕ, String, ◌≡◌, ap, Bool, true, false, ◌&&◌, Option, none, some, [], ◌∷◌, ◌++◌, arith,
  if◌then◌else◌, All, Stands, Stands-append, Stands-update_where, update_where, Bool-cases,
  Option-cases, inl, inr, ◌⊎◌, ok,
}
use fastapi_foundation.Tasks.{
  TaskRunStatus, TaskRun, TaskEnvelope, Table, insert_once, running_run, pending_run, start_once,
  enqueue_once, collides,
}
use fastapi_foundation.Tasks.Runs.{
  is_row, restarted, start_pending, claimable, first_where, claim_next_pending, succeeded_run,
  mark_succeeded, failed_run, mark_failed, retry_run, mark_retry_pending, cancelled_run, is_pending,
  is_failure,
}
use fastapi_foundation.Tasks.Recovery.{
  recovered_run, recover_stale_running, is_tenants, cancel_for_tenant,
}
use fastapi_foundation.Tasks.Calls.{
  Call, after, start_pending_state, start_retry_state, claim_state, inserted_state,
}

-- The run is the first of the table that is pending, in the queue and due.
pub record FirstDue (queue : Option String) (now : ℕ) (t : Table) (r : TaskRun) : Type 0 where
  before : Table
  behind : Table
  split : t ≡ before ++ r ∷ behind
  none_before : All (λ x. claimable queue now x ≡ false) before
  due : claimable queue now r ≡ true

first_none :
    (queue : Option String) (now : ℕ) (t : Table)
    → first_where (claimable queue now) t ≡ none
    → All (λ x. claimable queue now x ≡ false) t
unfolding first_where
first_none queue now [] h = tt
first_none queue now (r ∷ t) h = elim (Bool-cases (claimable queue now r)) [
  | inl due ↦ absurd (ground (arith, due))
  | inr off ↦ (off, first_none queue now t (rw off at h))
]

first-FirstDue :
    (queue : Option String) (now : ℕ) (t : Table) (r : TaskRun)
    → first_where (claimable queue now) t ≡ some r
    → FirstDue queue now t r
unfolding first_where
first-FirstDue queue now [] r h = absurd (ground arith)
first-FirstDue queue now (x ∷ t) r h = elim (Bool-cases (claimable queue now x)) [
  | inl due ↦
      let same : x ≡ r = ground (arith, due) in
      record {
        before = [];
        behind = t;
        split = ap (λ y. y ∷ t) same;
        none_before = tt;
        due = rw same at due;
      }
  | inr off ↦
      let d = first-FirstDue queue now t r (rw off at h) in
      record {
        before = x ∷ d.before;
        behind = d.behind;
        split = ap (◌∷◌ x) d.split;
        none_before = (off, d.none_before);
        due = d.due;
      }
]

claim_none :
    (queue : Option String) (now starting : ℕ) (t : Table)
    → first_where (claimable queue now) t ≡ none
    → claim_next_pending queue now starting t ≡ (ok none, t)
unfolding claim_next_pending
claim_none queue now starting t h = ground (arith, h)

claim_some :
    (queue : Option String) (now starting : ℕ) (t : Table) (r : TaskRun)
    → first_where (claimable queue now) t ≡ some r
    → claimable queue now r ≡ true
    → claim_next_pending queue now starting t
      ≡ (ok (some (restarted starting r)), update_where (is_row r) (restarted starting) t)
unfolding claim_next_pending
claim_some queue now starting t r h due = ground (arith, h)

-- A worker that asks for a run is given the first that is pending, in its queue and due, which
-- is then running with one attempt more; or nothing, when there is none, and nothing changes.
-- It never raises.
pub claim_next-FirstDue :
    (queue : Option String) (now starting : ℕ) (t : Table)
    → (All (λ x. claimable queue now x ≡ false) t
        × (claim_next_pending queue now starting t ≡ (ok none, t)))
      ⊎ ((r : TaskRun) × FirstDue queue now t r
          × (claim_next_pending queue now starting t
              ≡ (ok (some (restarted starting r)), update_where (is_row r) (restarted starting) t)))
claim_next-FirstDue queue now starting t =
    elim (Option-cases (first_where (claimable queue now) t)) [
      | inl absent ↦ inl (first_none queue now t absent, claim_none queue now starting t absent)
      | inr (r, found) ↦
          let d = first-FirstDue queue now t r found in
          inr (r, d, claim_some queue now starting t r found d.due)
    ]

abbrev pub is_final : TaskRunStatus → Bool
is_final TaskRunStatus.succeeded = true
is_final TaskRunStatus.cancelled = true
is_final _ = false

-- The call marks that run, or starts it through an object that no longer has the row's status.
abbrev pub writes : TaskRun → Call → Bool
writes e (Call.beginning r _) = is_pending r.status && is_row r e
writes e (Call.retrying r _) = is_failure r.status && is_row r e
writes e (Call.succeeding r _ _) = is_row r e
writes e (Call.failing r _ _) = is_row r e
writes e (Call.postponing r _ _ _) = is_row r e
writes e _ = false

guarded-Stands :
    (c : Bool) (d : TaskRun → Bool) (f : TaskRun → TaskRun) (e : TaskRun) (t : Table)
    → (c && d e) ≡ false
    → Stands e t
    → Stands e (if c then update_where d f t else t)
guarded-Stands true d f e t off h = Stands-update_where d f e t off h
guarded-Stands false d f e t off h = h

inserted-Stands :
    (raced : String) (envelope : TaskEnvelope) (r e : TaskRun) (t : Table)
    → Stands e t
    → Stands e (insert_once raced envelope r t).1
inserted-Stands raced envelope r e t h =
    rw (inserted_state raced envelope r t) (elim (Bool-cases (collides r t)) [
      | inl taken ↦ rw taken h
      | inr new ↦ rw new (Stands-append (r ∷ []) h)
    ])

All-first :
    (queue : Option String) (now : ℕ) (P : TaskRun → Type 0) (t : Table) (r : TaskRun)
    → first_where (claimable queue now) t ≡ some r
    → All P t
    → P r
unfolding first_where
All-first queue now P [] r h a = absurd (ground arith)
All-first queue now P (x ∷ t) r h (p, a) = elim (Bool-cases (claimable queue now x)) [
  | inl due ↦ let same : x ≡ r = ground (arith, due) in rw same at p
  | inr off ↦ All-first queue now P t r (rw off at h) a
]

not_written :
    (queue : Option String) (now : ℕ) (e r : TaskRun)
    → is_final e.status ≡ true
    → (is_row r e ≡ true → r ≡ e)
    → claimable queue now r ≡ true
    → (is_pending r.status && is_row r e) ≡ false
not_written queue now e r final own due = elim (Bool-cases (is_row r e)) [
  | inl same ↦ let due' = rw (own same) at due in absurd (ground arith)
  | inr other ↦ ground (arith, other)
]

claimed-Stands :
    (queue : Option String) (now start_at : ℕ) (e r : TaskRun) (t : Table)
    → is_final e.status ≡ true
    → (is_row r e ≡ true → r ≡ e)
    → claimable queue now r ≡ true
    → Stands e t
    → Stands e (start_pending r start_at t).1
claimed-Stands queue now start_at e r t final own due h = rw (start_pending_state r start_at t) (
    guarded-Stands (is_pending r.status) (is_row r) (restarted start_at) e t
      (not_written queue now e r final own due) h)

-- A run that succeeded or was cancelled, and whose id is its own, stays as it is through every
-- call but a mark of that run, or a start of it through an object whose status is another.
pub final_kept :
    (c : Call) (e : TaskRun) (t : Table)
    → is_final e.status ≡ true
    → writes e c ≡ false
    → All (λ x. is_row x e ≡ true → x ≡ e) t
    → Stands e t
    → Stands e (after c t)
unfolding after start_once enqueue_once mark_succeeded mark_failed mark_retry_pending
    recover_stale_running cancel_for_tenant
final_kept (Call.starting envelope queue attempts now) e t final off own h =
    inserted-Stands _ envelope (running_run envelope queue attempts now) e t h
final_kept (Call.enqueueing envelope queue attempts) e t final off own h =
    inserted-Stands _ envelope (pending_run envelope queue attempts) e t h
final_kept (Call.claiming queue now start_at) e t final off own h =
    rw (claim_state queue now start_at t)
      (elim (Option-cases (first_where (claimable queue now) t)) [
        | inl absent ↦ rw absent h
        | inr (r, found) ↦ rw found (
            claimed-Stands queue now start_at e r t final
              (All-first queue now (λ x. is_row x e ≡ true → x ≡ e) t r found own)
              (first-FirstDue queue now t r found).due h)
      ])
final_kept (Call.beginning r now) e t final off own h =
    rw (start_pending_state r now t)
      (guarded-Stands (is_pending r.status) (is_row r) (restarted now) e t off h)
final_kept (Call.retrying r now) e t final off own h =
    rw (start_retry_state r now t)
      (guarded-Stands (is_failure r.status) (is_row r) (restarted now) e t off h)
final_kept (Call.succeeding r result now) e t final off own h =
    Stands-update_where (is_row r) (succeeded_run result now) e t off h
final_kept (Call.failing r message now) e t final off own h =
    Stands-update_where (is_row r) (failed_run message now) e t off h
final_kept (Call.postponing r message backoff now) e t final off own h =
    Stands-update_where (is_row r) (retry_run message backoff now) e t off h
final_kept (Call.recovering older limit message now) e t final off own h =
    Stands-update_where _ (recovered_run message now) e t (ground arith) h
final_kept (Call.cancelling tenant reason now) e t final off own h =
    Stands-update_where (is_tenants tenant) (cancelled_run reason now) e t (ground arith) h
