-- ===== src/Outbox/Dispatcher.antt =====
-- src/core/outbox/dispatcher.py: `OutboxDispatcher`, a round of dispatch under a lock. The lock
-- provider is any that keeps to the protocol of src/core/locks/provider.py, and `publish` is the
-- external publisher or the registry's handlers, an action on a world of its own. The metrics
-- are left out.
pub mod Rounds
pub mod Locked
mod Tests
use fastapi_foundation.Base.{
  ℕ, ◌+◌, String, ℤ, Bool, true, false, Option, none, some, List, [], ◌∷◌, length, if◌then◌else◌,
  AppError, Result, ok, err, Exec, pure, ◌>>=◌, ◌>>◌,
}
use fastapi_foundation.Locks.{LockHandle}
use fastapi_foundation.Outbox.{OutboxEvent, Table, claim_batch}
use fastapi_foundation.Outbox.Marks.{Failure, mark_published, mark_failed, is_dead_letter}

pub record DispatchStats : Type 0 where
  pub claimed : ℕ
  pub published : ℕ
  pub failed : ℕ
  pub dead_lettered : ℕ

abbrev pub no_stats : DispatchStats
no_stats = record { claimed = 0; published = 0; failed = 0; dead_lettered = 0 }

-- What the dispatcher uses of a `LockProvider`; the arguments before the key are the clock's
-- readings and the generated owner.
pub record LockProvider (L : Type 0) : Type 0 where
  pub acquire : ℕ → ℕ → String → String → ℤ → Option String → Exec L LockHandle
  pub release : ℕ → String → String → Exec L Bool

-- The repository's table, the lock provider and what publishing works on.
pub record Place (L W : Type 0) : Type 0 where
  pub locks : L
  pub table : Table
  pub world : W

-- `OutboxDispatcher.__init__`, with the call that publishes an event and the classification of
-- what it raises.
pub record OutboxDispatcher (L W : Type 0) : Type 0 where
  pub dispatcher_id : String
  pub batch_size : ℕ
  pub retry_delay_seconds : ℕ
  pub lock_provider : Option (LockProvider L)
  pub lock_key : String
  pub lock_ttl_seconds : ℤ
  pub publish : OutboxEvent → Exec W (Unit {0})
  pub classify : AppError → Failure

-- The clock's readings of a round: of the claim, of an event's mark, of the lock's acquisition
-- and of its release.
pub record Clock : Type 0 where
  pub claiming : ℕ
  pub marking : OutboxEvent → ℕ
  pub acquiring : ℕ
  pub acquired : ℕ
  pub releasing : ℕ

module _ {L W : Type 0} where
  abbrev pub on_table : {A : Type 0} → Exec Table A → Exec (Place L W) A
  on_table m p = let (r, t) = m p.table in (r, record p { table = t })

  abbrev pub on_world : {A : Type 0} → Exec W A → Exec (Place L W) A
  on_world m p = let (r, w) = m p.world in (r, record p { world = w })

  abbrev pub on_locks : {A : Type 0} → Exec L A → Exec (Place L W) A
  on_locks m p = let (r, l) = m p.locks in (r, record p { locks = l })

abbrev counted_failure : OutboxEvent → DispatchStats → DispatchStats
counted_failure e s = record s {
  failed = s.failed + 1;
  dead_lettered = if is_dead_letter e.status then s.dead_lettered + 1 else s.dead_lettered;
}

module _ {L W : Type 0} (d : OutboxDispatcher L W) (c : Clock) where
  -- An event of the loop, with the counts so far. What publishing raises is caught; what a mark
  -- raises is not.
  pub dispatch_event : OutboxEvent → DispatchStats → Exec (Place L W) DispatchStats
  dispatch_event e s p =
      let (outcome, p') = on_world (d.publish e) p in
      elim outcome [
        | ok _ ↦
            (do
              on_table (mark_published e d.dispatcher_id (c.marking e))
              pure (record s { published = s.published + 1 }))
              p'
        | err x ↦
            (do
              e' ←
                  on_table (
                    mark_failed e (d.classify x) d.dispatcher_id d.retry_delay_seconds
                      (c.marking e))
              pure (counted_failure e' s))
              p'
      ]

  dispatch_events : List OutboxEvent → DispatchStats → Exec (Place L W) DispatchStats
  dispatch_events [] s = pure s
  dispatch_events (e ∷ es) s = dispatch_event e s >>= dispatch_events es

  -- `_dispatch_claimed`
  unfoldable pub dispatch_claimed : Exec (Place L W) DispatchStats
  unfolding dispatch_events
  dispatch_claimed = do
    events ← on_table (claim_batch d.dispatcher_id d.batch_size 60 c.claiming)
    dispatch_events events (record no_stats { claimed = length events })

  -- `finally`: the lock is given back after whatever `dispatch_claimed` does.
  finally_release : LockProvider L → Exec (Place L W) DispatchStats
  finally_release locks p =
      let (outcome, p') = dispatch_claimed p in
      let (released, p'') = on_locks (locks.release c.releasing d.lock_key d.dispatcher_id) p' in
      elim released [ ok _ ↦ (outcome, p'') | err e ↦ (err e, p'') ]

  dispatch_locked : String → LockProvider L → Exec (Place L W) DispatchStats
  unfolding finally_release
  dispatch_locked uuid locks = do
    handle ← on_locks (
        locks.acquire c.acquiring c.acquired uuid d.lock_key d.lock_ttl_seconds
          (some d.dispatcher_id))
    if handle.acquired then finally_release locks else pure no_stats

  unfoldable pub dispatch_once : String → Exec (Place L W) DispatchStats
  unfolding dispatch_locked
  dispatch_once uuid = elim d.lock_provider [
    | none ↦ dispatch_claimed
    | some locks ↦ dispatch_locked uuid locks
  ]
