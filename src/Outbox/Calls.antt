-- ===== src/Outbox/Calls.antt =====
-- src/core/outbox/repository.py: the calls of the repository as steps on the table, the rows that a
-- call can change, and what holds of every row.
use fastapi_foundation.Base.{
  ℕ, ◌+◌, ◌*◌, String, ◌≡◌, refl, Bool, true, false, not, ◌&&◌, List, [], ◌∷◌, arith, is_some, Dict,
  if◌then◌else◌, All, All-add, All-update_where, Stands, Stands-append, Stands-update_where,
  update_where, Result, err, Result-split, Bool-cases, inl, inr,
}
use fastapi_foundation.Outbox.{
  OutboxStatus, OutboxEvent, Table, add, validate_event, eligible, candidate_ids, claimed,
  claimable, claim_all, claim_batch,
}
use fastapi_foundation.Outbox.Marks.{
  has_lease, published_event, mark_published, Failure, failed_event, mark_failed, replayed_event,
  is_row, is_dead_letter, replay_dead_letter,
}

pub data Call : Type 0 where
  adding : String → String → String → String → Dict String → String → ℕ → ℕ → Call
  claiming : String → ℕ → ℕ → ℕ → Call
  publishing : OutboxEvent → String → ℕ → Call
  failing : OutboxEvent → Failure → String → ℕ → ℕ → Call
  replaying : OutboxEvent → Call

unfoldable pub after : Call → Table → Table
after (Call.adding id type atype aid payload tenant version attempts) t =
    (add id type atype aid payload tenant version attempts t).1
after (Call.claiming d size lock now) t = (claim_batch d size lock now t).1
after (Call.publishing event d now) t = (mark_published event d now t).1
after (Call.failing event failure d delay now) t = (mark_failed event failure d delay now t).1
after (Call.replaying event) t = (replay_dead_letter event t).1

abbrev pub after_all : List Call → Table → Table
after_all [] t = t
after_all (c ∷ cs) t = after_all cs (after c t)

-- Whether a call can change the row.
abbrev pub touches : Call → OutboxEvent → Bool
touches (Call.claiming d size lock now) e = eligible now e
touches (Call.publishing event d now) e = has_lease event d now e
touches (Call.failing event failure d delay now) e = has_lease event d now e
touches (Call.replaying event) e = is_row event e
touches (Call.adding _ _ _ _ _ _ _ _) e = false

-- The lock of a row is there exactly while it is being published, the instant of its publication
-- once it is published, and a reason once it is a dead letter.
abbrev pub is_consistent : OutboxEvent → Bool
is_consistent e = elim e.status [
  | OutboxStatus.publishing ↦
      is_some e.locked_by
      && (is_some e.locked_until
          && (not (is_some e.published_at) && not (is_some e.dead_letter_reason)))
  | OutboxStatus.published ↦
      not (is_some e.locked_by)
      && (not (is_some e.locked_until)
          && (is_some e.published_at && not (is_some e.dead_letter_reason)))
  | OutboxStatus.dead_letter ↦
      not (is_some e.locked_by)
      && (not (is_some e.locked_until)
          && (not (is_some e.published_at) && is_some e.dead_letter_reason))
  | _ ↦
      not (is_some e.locked_by)
      && (not (is_some e.locked_until)
          && (not (is_some e.published_at) && not (is_some e.dead_letter_reason)))
]

abbrev pub IsConsistent : OutboxEvent → Type 0
IsConsistent e = is_consistent e ≡ true

-- The event that is replayed has the status of its row.
abbrev pub IsCurrent : Call → Table → Type 0
IsCurrent (Call.replaying event) t = All (λ e. is_row event e ≡ true → e.status ≡ event.status) t
IsCurrent _ t = Unit

claim_all_state :
    (id d : String) (ids : List String) (until now : ℕ) (t : Table)
    → (claim_all (id ∷ ids) d until now t).1
      ≡ (claim_all ids d until now (update_where (claimable id now) (claimed d until) t)).1
unfolding claim_all
claim_all_state id d ids until now t = ground arith

mark_published_state :
    (event : OutboxEvent) (d : String) (now : ℕ) (t : Table)
    → (mark_published event d now t).1
      ≡ update_where (has_lease event d now) (published_event now) t
unfolding mark_published
mark_published_state event d now t = ground arith

mark_failed_state :
    (event : OutboxEvent) (failure : Failure) (d : String) (delay now : ℕ) (t : Table)
    → (mark_failed event failure d delay now t).1
      ≡ update_where (has_lease event d now) (failed_event event failure delay now) t
unfolding mark_failed
mark_failed_state event failure d delay now t = ground arith

claim_all-Stands :
    (ids : List String) (d : String) (until now : ℕ) (e : OutboxEvent) (t : Table)
    → eligible now e ≡ false
    → Stands e t
    → Stands e (claim_all ids d until now t).1
unfolding claim_all
claim_all-Stands [] d until now e t off h = h
claim_all-Stands (id ∷ ids) d until now e t off h = rw (claim_all_state id d ids until now t) (
    claim_all-Stands ids d until now e (update_where (claimable id now) (claimed d until) t) off
      (Stands-update_where (claimable id now) (claimed d until) e t (ground arith) h))

validate_event_state :
    (payload : Dict String) (tenant : String) (t : Table) → (validate_event payload tenant t).1 ≡ t
unfolding validate_event
validate_event_state payload tenant t = ground arith

replay_state :
    (event : OutboxEvent) (t : Table)
    → (replay_dead_letter event t).1
      ≡ (if is_dead_letter event.status then update_where (is_row event) replayed_event t else t)
unfolding replay_dead_letter
replay_state event t = ground arith

adding-Stands :
    (id type atype aid : String) (payload : Dict String) (tenant : String) (version attempts : ℕ)
    (e : OutboxEvent) (t : Table)
    → Stands e t
    → Stands e (add id type atype aid payload tenant version attempts t).1
unfolding add
adding-Stands id type atype aid payload tenant version attempts e t h =
    Result-split {B = Result OutboxEvent × Table} (λ x. Stands e x.1)
      (validate_event payload tenant t).0 _ (λ x. (err x, (validate_event payload tenant t).1))
      (λ _ _. rw (validate_event_state payload tenant t) (Stands-append _ h))
      (λ _ _. rw (validate_event_state payload tenant t) h)

-- A call changes no row but those that it touches.
pub after-Stands :
    (c : Call) (e : OutboxEvent) (t : Table)
    → touches c e ≡ false
    → Stands e t
    → Stands e (after c t)
unfolding after claim_batch
after-Stands (Call.adding id type atype aid payload tenant version attempts) e t off h =
    adding-Stands id type atype aid payload tenant version attempts e t h
after-Stands (Call.claiming d size lock now) e t off h =
    claim_all-Stands (candidate_ids now size t) d (now + lock * 1000000) now e t off h
after-Stands (Call.publishing event d now) e t off h =
    rw (mark_published_state event d now t)
      (Stands-update_where (has_lease event d now) (published_event now) e t off h)
after-Stands (Call.failing event failure d delay now) e t off h =
    rw (mark_failed_state event failure d delay now t)
      (Stands-update_where (has_lease event d now) (failed_event event failure delay now) e t off h)
after-Stands (Call.replaying event) e t off h =
    rw (replay_state event t) (elim (Bool-cases (is_dead_letter event.status)) [
      | inl dead ↦ rw dead (Stands-update_where (is_row event) replayed_event e t off h)
      | inr alive ↦ rw alive h
    ])

claimed-IsConsistent :
    (e : OutboxEvent) (d id : String) (until now : ℕ)
    → IsConsistent e
    → claimable id now e ≡ true
    → IsConsistent (claimed d until e)
unfolding eligible
claimed-IsConsistent e d id until now h selected = ground arith

claim_all-IsConsistent :
    (ids : List String) (d : String) (until now : ℕ) (t : Table)
    → All IsConsistent t
    → All IsConsistent (claim_all ids d until now t).1
unfolding claim_all
claim_all-IsConsistent [] d until now t a = a
claim_all-IsConsistent (id ∷ ids) d until now t a = rw (claim_all_state id d ids until now t) (
    claim_all-IsConsistent ids d until now (update_where (claimable id now) (claimed d until) t) (
      All-update_where IsConsistent (claimable id now) (claimed d until) t
        (λ e h selected. claimed-IsConsistent e d id until now h selected) a))

adding-IsConsistent :
    (id type atype aid : String) (payload : Dict String) (tenant : String) (version attempts : ℕ)
    (t : Table)
    → All IsConsistent t
    → All IsConsistent (add id type atype aid payload tenant version attempts t).1
unfolding add
adding-IsConsistent id type atype aid payload tenant version attempts t a =
    Result-split {B = Result OutboxEvent × Table} (λ x. All IsConsistent x.1)
      (validate_event payload tenant t).0 _ (λ x. (err x, (validate_event payload tenant t).1))
      (λ _ _. rw (validate_event_state payload tenant t) (All-add IsConsistent t _ a refl))
      (λ _ _. rw (validate_event_state payload tenant t) a)

replayed-IsConsistent :
    (event : OutboxEvent) (t : Table)
    → is_dead_letter event.status ≡ true
    → All (λ e. is_row event e ≡ true → e.status ≡ event.status) t
    → All IsConsistent t
    → All IsConsistent (update_where (is_row event) replayed_event t)
unfolding update_where
replayed-IsConsistent event [] dead current a = tt
replayed-IsConsistent event (e ∷ t) dead (c, current) (h, a) = (
  elim (Bool-cases (is_row event e)) [
    | inl same ↦ rw same (ground (arith, c same))
    | inr other ↦ rw other h
  ],
  replayed-IsConsistent event t dead current a,
)

-- A call that raises too leaves every row consistent, where an event that is replayed has the
-- status of its row.
pub after-IsConsistent :
    (c : Call) (t : Table) → IsCurrent c t → All IsConsistent t → All IsConsistent (after c t)
unfolding after claim_batch
after-IsConsistent (Call.adding id type atype aid payload tenant version attempts) t _ a =
    adding-IsConsistent id type atype aid payload tenant version attempts t a
after-IsConsistent (Call.claiming d size lock now) t _ a =
    claim_all-IsConsistent (candidate_ids now size t) d (now + lock * 1000000) now t a
after-IsConsistent (Call.publishing event d now) t _ a = rw (mark_published_state event d now t) (
    All-update_where IsConsistent (has_lease event d now) (published_event now) t
      (λ e h selected. ground arith) a)
after-IsConsistent (Call.failing event failure d delay now) t _ a =
    rw (mark_failed_state event failure d delay now t) (
      All-update_where IsConsistent (has_lease event d now) (failed_event event failure delay now) t
        (λ e h selected. ground arith) a)
after-IsConsistent (Call.replaying event) t current a =
    rw (replay_state event t) (elim (Bool-cases (is_dead_letter event.status)) [
      | inl dead ↦ rw dead (replayed-IsConsistent event t dead current a)
      | inr alive ↦ rw alive a
    ])
