-- ===== src/Outbox/Dispatcher/Locked.antt =====
-- src/core/outbox/dispatcher.py over src/core/locks/memory.py: rounds of dispatch exclude each other.
use fastapi_foundation.Base.{
  ◌+◌, String, ◌≡◌, refl, ap, ◌∙◌, pos, ◌<ℤ◌, true, false, none, some, arith, is_blank, lookup,
  or_default, ok, eq_refl,
}
use fastapi_foundation.Cache.{seconds}
use fastapi_foundation.Locks.{LockEntry, MemoryLockProvider, acquire, release}
use fastapi_foundation.Locks.Holder.{holder, handle, granted, acquire-holder, release-holder}
use fastapi_foundation.Outbox.Dispatcher.{
  no_stats, LockProvider, Place, OutboxDispatcher, Clock, dispatch_once,
}
use fastapi_foundation.Outbox.Dispatcher.Rounds.{dispatch_refused, dispatch_releases}

abbrev pub memory_lock_provider : LockProvider MemoryLockProvider
memory_lock_provider = record { acquire = acquire; release = release }

module _ {W : Type 0} (d : OutboxDispatcher MemoryLockProvider W) (c : Clock)
    (given : d.lock_provider ≡ some memory_lock_provider) (named : is_blank d.lock_key ≡ false)
    (owner : is_blank d.dispatcher_id ≡ false) (positive : pos 0 <ℤ d.lock_ttl_seconds)
    (uuid : String) (p : Place MemoryLockProvider W) where
  acquired_state : MemoryLockProvider
  acquired_state =
      (acquire c.acquiring c.acquired uuid d.lock_key d.lock_ttl_seconds (some d.dispatcher_id)
        p.locks).1

  held_answer :
      (e : LockEntry)
      → holder c.acquiring d.lock_key p.locks ≡ some e
      → acquire c.acquiring c.acquired uuid d.lock_key d.lock_ttl_seconds
          (some d.dispatcher_id)
          p.locks
        ≡ (
          ok (handle false d.lock_key d.dispatcher_id e.expires_at e.fencing_token),
          acquired_state,
        )
  unfolding acquired_state
  held_answer e held =
      let answer =
        (acquire-holder c.acquiring c.acquired uuid d.lock_key d.dispatcher_id d.lock_ttl_seconds
          p.locks named owner positive).0 in
      ap (λ r. (r, acquired_state)) (rw held at answer)

  free_answer :
      holder c.acquiring d.lock_key p.locks ≡ none
      → acquire c.acquiring c.acquired uuid d.lock_key d.lock_ttl_seconds
          (some d.dispatcher_id)
          p.locks
        ≡ (
          ok (
              handle true d.lock_key d.dispatcher_id
                (c.acquired + seconds d.lock_ttl_seconds)
                (or_default 0 (lookup d.lock_key p.locks.fencing_tokens) + 1)),
          acquired_state,
        )
  unfolding acquired_state
  free_answer free =
      let answer =
        (acquire-holder c.acquiring c.acquired uuid d.lock_key d.dispatcher_id d.lock_ttl_seconds
          p.locks named owner positive).0 in
      ap (λ r. (r, acquired_state)) (rw free at answer)

  -- Over the locks in memory, for a lock's key and a dispatcher that are named and a positive
  -- lifetime of the lock: while the dispatchers' lock is held, by whomever, another round
  -- publishes nothing, reports nothing and leaves the table as it is.
  pub dispatch_excluded :
      (e : LockEntry)
      → holder c.acquiring d.lock_key p.locks ≡ some e
      → ((dispatch_once d c uuid p).0 ≡ ok no_stats)
        × ((dispatch_once d c uuid p).1.table ≡ p.table)
        × ((dispatch_once d c uuid p).1.world ≡ p.world)
  dispatch_excluded e held =
      let refused =
        dispatch_refused d c memory_lock_provider given uuid p
          (handle false d.lock_key d.dispatcher_id e.expires_at e.fencing_token) acquired_state
          (held_answer e held) refl in
      (ap (λ x. x.0) refused, ap (λ x. x.1.table) refused, ap (λ x. x.1.world) refused)

  freed :
      (s : MemoryLockProvider) (f : LockEntry)
      → lookup d.lock_key s.locks ≡ some f
      → f.owner_token ≡ d.dispatcher_id
      → lookup d.lock_key (release c.releasing d.lock_key d.dispatcher_id s).1.locks ≡ none
  unfolding holder
  freed s f found ours =
      (release-holder c.releasing c.releasing uuid d.lock_key d.dispatcher_id d.lock_ttl_seconds s
        named owner positive).1
      ∙ ground (arith, found, ours, eq_refl d.dispatcher_id)

  -- Over the locks in memory, for a lock's key and a dispatcher that are named and a positive
  -- lifetime of the lock: a round that finds the lock free leaves it free, also when the round
  -- raises.
  pub dispatch_frees :
      holder c.acquiring d.lock_key p.locks ≡ none
      → lookup d.lock_key (dispatch_once d c uuid p).1.locks.locks ≡ none
  unfolding acquired_state
  dispatch_frees free =
      let token = or_default 0 (lookup d.lock_key p.locks.fencing_tokens) + 1 in
      let entered =
        (acquire-holder c.acquiring c.acquired uuid d.lock_key d.dispatcher_id d.lock_ttl_seconds
          p.locks named owner positive).2 in
      ap (λ s. lookup d.lock_key s.locks)
        (dispatch_releases d c memory_lock_provider given uuid p
          (handle true d.lock_key d.dispatcher_id (c.acquired + seconds d.lock_ttl_seconds) token)
          acquired_state (free_answer free) refl)
      ∙ freed acquired_state (granted c.acquired d.lock_ttl_seconds d.dispatcher_id token)
          (rw free at entered) refl
