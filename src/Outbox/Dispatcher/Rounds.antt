-- ===== src/Outbox/Dispatcher/Rounds.antt =====
-- src/core/outbox/dispatcher.py: what a round of dispatch reports, and what becomes of its lock.
use fastapi_foundation.Base.{
  ℕ, ◌+◌, ◌≤◌, String, ◌≡◌, refl, ◌∙◌, true, false, some, List, [], ◌∷◌, arith, length, Result, ok,
  Result-cases, Bool-cases, Option-cases, inl, inr,
}
use fastapi_foundation.Locks.{LockHandle}
use fastapi_foundation.Outbox.{OutboxEvent, claim_batch}
use fastapi_foundation.Outbox.Dispatcher.{
  DispatchStats, no_stats, LockProvider, Place, OutboxDispatcher, Clock, dispatch_event,
  dispatch_events, dispatch_claimed, finally_release, dispatch_once,
}

-- The later counts are the earlier ones and those of so many events more.
abbrev Counts : ℕ → DispatchStats → DispatchStats → Type 0
Counts n s s' =
    (s'.claimed ≡ s.claimed)
    × (s'.published + s'.failed ≡ s.published + s.failed + n)
    × (s'.dead_lettered + s.failed ≤ s.dead_lettered + s'.failed)

-- The counts of a round: every event that was claimed was published or failed, and no more
-- are dead letters than failed.
abbrev pub AddsUp : DispatchStats → Type 0
AddsUp s = (s.published + s.failed ≡ s.claimed) × (s.dead_lettered ≤ s.failed)

module _ {L W : Type 0} (d : OutboxDispatcher L W) (c : Clock) where
  event-Counts :
      (e : OutboxEvent) (s s' : DispatchStats) (p : Place L W)
      → (dispatch_event d c e s p).0 ≡ ok s'
      → Counts 1 s s'
  unfolding dispatch_event
  event-Counts e s s' p h = elim (Result-cases (d.publish e p.world).0) [
    | inl (_, sent) ↦ (ground arith, ground arith, ground arith)
    | inr (x, raised) ↦ (ground arith, ground arith, ground arith)
  ]

  event_locks :
      (e : OutboxEvent) (s : DispatchStats) (p : Place L W)
      → (dispatch_event d c e s p).1.locks ≡ p.locks
  unfolding dispatch_event
  event_locks e s p = elim (Result-cases (d.publish e p.world).0) [
    | inl (_, sent) ↦ ground arith
    | inr (x, raised) ↦ ground arith
  ]

  events-Counts :
      (es : List OutboxEvent) (s s' : DispatchStats) (p : Place L W)
      → (dispatch_events d c es s p).0 ≡ ok s'
      → Counts (length es) s s'
  unfolding dispatch_events
  events-Counts [] s s' p h = (ground arith, ground arith, ground arith)
  events-Counts (e ∷ es) s s' p h = elim (Result-cases (dispatch_event d c e s p).0) [
    | inl (s1, counted) ↦
        let first = event-Counts e s s1 p counted in
        let rest =
          events-Counts es s1 s' (dispatch_event d c e s p).1 (ground (arith, counted, h)) in
        (rest.0 ∙ first.0, omega (arith, first, rest), omega (arith, first, rest))
    | inr (x, raised) ↦ absurd (ground (arith, raised, h))
  ]

  events_locks :
      (es : List OutboxEvent) (s : DispatchStats) (p : Place L W)
      → (dispatch_events d c es s p).1.locks ≡ p.locks
  unfolding dispatch_events
  events_locks [] s p = refl
  events_locks (e ∷ es) s p = elim (Result-cases (dispatch_event d c e s p).0) [
    | inl (s1, counted) ↦
        ground (arith, counted, events_locks es s1 (dispatch_event d c e s p).1, event_locks e s p)
    | inr (x, raised) ↦ ground (arith, raised, event_locks e s p)
  ]

  claimed_locks : (p : Place L W) → (dispatch_claimed d c p).1.locks ≡ p.locks
  unfolding dispatch_claimed
  claimed_locks p =
      elim (Result-cases (claim_batch d.dispatcher_id d.batch_size 60 c.claiming p.table).0) [
        | inl (es, listed) ↦ ground (
          arith,
          listed,
          events_locks es (record no_stats { claimed = length es })
              (record p {
                table = (claim_batch d.dispatcher_id d.batch_size 60 c.claiming p.table).1;
              }),
        )
        | inr (x, raised) ↦ ground (arith, raised)
      ]

  claimed-AddsUp :
      (p : Place L W) (s : DispatchStats) → (dispatch_claimed d c p).0 ≡ ok s → AddsUp s
  unfolding dispatch_claimed
  claimed-AddsUp p s h =
      elim (Result-cases (claim_batch d.dispatcher_id d.batch_size 60 c.claiming p.table).0) [
        | inl (es, listed) ↦
            let counts =
              events-Counts es (record no_stats { claimed = length es }) s
                (record p {
                  table = (claim_batch d.dispatcher_id d.batch_size 60 c.claiming p.table).1;
                })
                (ground (arith, listed, h)) in
            (omega (arith, counts), omega (arith, counts))
        | inr (x, raised) ↦ absurd (ground (arith, raised, h))
      ]

  finally-AddsUp :
      (locks : LockProvider L) (p : Place L W) (s : DispatchStats)
      → (finally_release d c locks p).0 ≡ ok s
      → AddsUp s
  unfolding finally_release
  finally-AddsUp locks p s h =
      elim (Result-cases
        (locks.release c.releasing d.lock_key d.dispatcher_id (dispatch_claimed d c p).1.locks).0) [
          | inl (_, released) ↦ claimed-AddsUp p s (ground (arith, released, h))
          | inr (x, raised) ↦ absurd (ground (arith, raised, h))
        ]

  -- A round that returns reports counts that add up: every event that was claimed was published or
  -- failed, and the dead letters are among the failures.
  pub dispatch_once-AddsUp :
      (uuid : String) (p : Place L W) (s : DispatchStats)
      → (dispatch_once d c uuid p).0 ≡ ok s
      → AddsUp s
  unfolding dispatch_once
  dispatch_once-AddsUp uuid p s h = elim (Option-cases d.lock_provider) [
    | inl absent ↦ claimed-AddsUp p s (ground (arith, absent, h))
    | inr (locks, given) ↦ elim (Result-cases (taken locks).0) [
      | inr (x, raised) ↦ absurd (ground (arith, given, raised, h))
      | inl (handle, got) ↦ elim (Bool-cases handle.acquired) [
        | inl held ↦
            finally-AddsUp locks (record p { locks = (taken locks).1 }) s
              (ground (arith, given, got, held, h))
        | inr refused ↦
            let nothing : s ≡ no_stats = ground (arith, given, got, refused, h) in
            rw nothing (refl, omega arith)
      ]
    ]
  ]
    where
      taken : LockProvider L → Result LockHandle × L
      taken locks =
          locks.acquire c.acquiring c.acquired uuid d.lock_key d.lock_ttl_seconds
            (some d.dispatcher_id) p.locks

  module _ (locks : LockProvider L) (given : d.lock_provider ≡ some locks) (uuid : String)
      (p : Place L W) (handle : LockHandle) (l : L)
      (got : locks.acquire c.acquiring c.acquired uuid d.lock_key d.lock_ttl_seconds
          (some d.dispatcher_id)
          p.locks
        ≡ (ok handle, l)) where
    -- A round whose lock is held by another dispatches nothing: neither the table nor the world
    -- of the publisher is touched.
    pub dispatch_refused :
        handle.acquired ≡ false → dispatch_once d c uuid p ≡ (ok no_stats, record p { locks = l })
    unfolding dispatch_once
    dispatch_refused refused = rw given (ground (arith, got, refused))

    -- A round that has taken its lock gives it back at its end, whatever was raised in between.
    pub dispatch_releases :
        handle.acquired ≡ true
        → (dispatch_once d c uuid p).1.locks
          ≡ (locks.release c.releasing d.lock_key d.dispatcher_id l).1
    unfolding dispatch_once
    dispatch_releases held =
        rw given (ground (arith, got, held, claimed_locks (record p { locks = l })))
