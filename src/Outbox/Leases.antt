-- ===== src/Outbox/Leases.antt =====
-- src/core/outbox/repository.py: the lease that a claim gives a dispatcher on an event.
use fastapi_foundation.Base.{
  ℕ, ◌<◌, String, ◌≡◌, refl, Bool, true, false, ◌||◌, ◌&&◌, some, List, [], ◌∷◌, arith, ltb, eqb,
  All, Stands, update_where, count_where, ◌==◌, eq_iff, err, app_error, conflict, Bool-cases, inl,
  inr,
}
use fastapi_foundation.Outbox.{OutboxStatus, OutboxEvent, Table, eligible, past}
use fastapi_foundation.Outbox.Marks.{
  has_lease, mark_published, Failure, mark_failed, is_row, published_event, failed_event,
}
use fastapi_foundation.Outbox.Calls.{Call, after, after_all, after-Stands, touches}

-- The call reads a clock that is not yet at the instant, if it reads one.
abbrev pub Before : ℕ → Call → Type 0
Before l (Call.claiming _ _ _ now) = now < l
Before l (Call.publishing _ _ now) = now < l
Before l (Call.failing _ _ _ _ now) = now < l
Before l _ = Unit

-- The call is made for the event by its dispatcher under that claim, or replays the event.
abbrev pub is_holders : String → OutboxEvent → Call → Bool
is_holders d e (Call.publishing event d' _) =
    is_row event e && ((d' == d) && eqb event.claim_version e.claim_version)
is_holders d e (Call.failing event _ d' _ _) =
    is_row event e && ((d' == d) && eqb event.claim_version e.claim_version)
is_holders d e (Call.replaying event) = is_row event e
is_holders d e _ = false

lease_untouched :
    (c : Call) (e : OutboxEvent) (d : String) (l : ℕ)
    → e.status ≡ OutboxStatus.publishing
    → e.locked_by ≡ some d
    → e.locked_until ≡ some l
    → Before l c
    → is_holders d e c ≡ false
    → touches c e ≡ false
unfolding eligible
lease_untouched (Call.adding _ _ _ _ _ _ _ _) e d l s b u before other = refl
lease_untouched (Call.claiming _ _ _ now) e d l s b u before other = ground arith
lease_untouched (Call.publishing event d' now) e d l s b u before other =
    ground (arith, eq_iff d d', eq_iff d' d)
lease_untouched (Call.failing event failure d' delay now) e d l s b u before other =
    ground (arith, eq_iff d d', eq_iff d' d)
lease_untouched (Call.replaying event) e d l s b u before other = other

-- Until its lock runs out, an event that a dispatcher has claimed stays as it is through every
-- call but that dispatcher's marks of it under this claim, and a replay of it.
pub lease_kept :
    (c : Call) (e : OutboxEvent) (d : String) (l : ℕ) (t : Table)
    → e.status ≡ OutboxStatus.publishing
    → e.locked_by ≡ some d
    → e.locked_until ≡ some l
    → Before l c
    → is_holders d e c ≡ false
    → Stands e t
    → Stands e (after c t)
lease_kept c e d l t s b u before other h =
    after-Stands c e t (lease_untouched c e d l s b u before other) h

abbrev pub is_replay : OutboxEvent → Call → Bool
is_replay e (Call.replaying event) = is_row event e
is_replay e _ = false

published_untouched :
    (c : Call) (e : OutboxEvent)
    → e.status ≡ OutboxStatus.published
    → is_replay e c ≡ false
    → touches c e ≡ false
unfolding eligible
published_untouched (Call.adding _ _ _ _ _ _ _ _) e s other = refl
published_untouched (Call.claiming _ _ _ now) e s other = ground arith
published_untouched (Call.publishing event d now) e s other = ground arith
published_untouched (Call.failing event failure d delay now) e s other = ground arith
published_untouched (Call.replaying event) e s other = other

-- An event that is published stays as it is through every sequence of calls that does not replay
-- it.
pub published_kept :
    (cs : List Call) (e : OutboxEvent) (t : Table)
    → e.status ≡ OutboxStatus.published
    → All (λ c. is_replay e c ≡ false) cs
    → Stands e t
    → Stands e (after_all cs t)
published_kept [] e t s other h = h
published_kept (c ∷ cs) e t s (other, others) h =
    published_kept cs e (after c t) s others
      (after-Stands c e t (published_untouched c e s other) h)

-- The row does not stand under the claim that the event was read under.
abbrev pub is_stale : OutboxEvent → ℕ → OutboxEvent → Bool
is_stale event now e = ltb event.claim_version e.claim_version || past e.locked_until now

no_lease :
    (event : OutboxEvent) (d : String) (now : ℕ) (e : OutboxEvent)
    → is_stale event now e ≡ true
    → has_lease event d now e ≡ false
no_lease event d now e stale = ground arith

update_none :
    (c : OutboxEvent → Bool) (f : OutboxEvent → OutboxEvent) (t : Table)
    → All (λ e. c e ≡ false) t
    → (update_where c f t ≡ t) × (count_where c t ≡ 0)
unfolding update_where count_where
update_none c f [] a = (refl, refl)
update_none c f (e ∷ t) (off, a) =
    (rw (off, (update_none c f t a).0) refl, rw (off, (update_none c f t a).1) refl)

All-no_lease :
    (event : OutboxEvent) (d : String) (now : ℕ) (t : Table)
    → All (λ e. is_row event e ≡ true → is_stale event now e ≡ true) t
    → All (λ e. has_lease event d now e ≡ false) t
All-no_lease event d now [] a = tt
All-no_lease event d now (e ∷ t) (stale, a) = (
  elim (Bool-cases (is_row event e)) [
    | inl at ↦ no_lease event d now e (stale at)
    | inr other ↦ rw other refl
  ],
  All-no_lease event d now t a,
)

-- Where every row of an event stands under a later claim than the dispatcher's or has a lock that
-- has run out, the dispatcher can mark the event neither as published nor as failed: both raise a
-- conflict and change nothing.
pub stale_refused :
    (event : OutboxEvent) (failure : Failure) (d : String) (delay now : ℕ) (t : Table)
    → All (λ e. is_row event e ≡ true → is_stale event now e ≡ true) t
    → (mark_published event d now t ≡ (
      err (
          app_error conflict
            "Outbox event cannot be marked published without an active dispatcher lease" 409),
      t,
    ))
      × (mark_failed event failure d delay now t ≡ (
        err (
            app_error conflict
              "Outbox event cannot be marked failed without an active dispatcher lease" 409),
        t,
      ))
unfolding mark_published mark_failed
stale_refused event failure d delay now t stale =
    let off = All-no_lease event d now t stale in
    (
      ground (arith, update_none (has_lease event d now) (published_event now) t off),
      ground
          (arith, update_none (has_lease event d now) (failed_event event failure delay now) t off),
    )
