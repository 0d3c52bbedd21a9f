-- ===== src/Outbox.antt =====
-- src/core/outbox/repository.py: `OutboxRepository` without a registry of events, as one
-- transaction sees the table. The rows stand in the order of their creation, an instant is a
-- number of microseconds, and a payload is a dict of texts.
pub mod Marks
pub mod Calls
pub mod Leases
pub mod Dispatcher
mod Tests
use Prim.Native.String.{◌++◌ as ◌<>◌}
use fastapi_foundation.Base.{
  ℕ, ◌+◌, ◌*◌, String, Bool, true, false, not, ◌&&◌, Option, none, some, List, [], ◌∷◌, ◌++◌, leb,
  eqb, if◌then◌else◌, map, take, Dict, lookup, is_some, or_default, app_error, validation_error,
  tenant_context_conflict, Result, ok, err, Exec, pure, gets, raise_if, modify, ◌>>=◌, ◌>>◌, ◌==◌,
  update_where, count_where, select_where,
}

-- `OutboxStatus`
pub data OutboxStatus : Type 0 where
  pending publishing published failed dead_letter : OutboxStatus

pub record OutboxEvent : Type 0 where
  pub event_id : String
  pub tenant_id : String
  pub event_type : String
  pub event_version : ℕ
  pub aggregate_type : String
  pub aggregate_id : String
  pub payload : Dict String
  pub status : OutboxStatus
  pub claim_version : ℕ
  pub attempt_count : ℕ
  pub max_attempts : ℕ
  pub next_retry_at : Option ℕ
  pub locked_by : Option String
  pub locked_until : Option ℕ
  pub last_error : Option String
  pub published_at : Option ℕ
  pub dead_letter_reason : Option String

abbrev pub Table : Type 0
Table = List OutboxEvent

-- The names that are missing, in their order, as Python prints a list of texts.
quoted : List String → String
quoted [] = ""
quoted (x ∷ []) = "'" <> (x <> "'")
quoted (x ∷ y ∷ rest) = "'" <> (x <> ("', " <> quoted (y ∷ rest)))

missing_fields : Dict String → List String
missing_fields payload =
    select_where (λ f. not (is_some (lookup f payload)))
      ("actor_id" ∷ "request_id" ∷ "tenant_id" ∷ [])

raise_missing : List String → Result (Unit {0})
unfolding quoted
raise_missing [] = ok tt
raise_missing (f ∷ fs) = err (
    app_error validation_error
      ("Event payload missing required fields: [" <> (quoted (f ∷ fs) <> "]")) 400)

-- `_validate_event`
validate_event : Dict String → String → Exec Table (Unit {0})
unfolding missing_fields raise_missing
validate_event payload tenant_id t =
    let m = raise_missing (missing_fields payload) in
    elim m [
      | err e ↦ (err e, t)
      | ok _ ↦
          raise_if (not (or_default "" (lookup "tenant_id" payload) == tenant_id))
            (app_error tenant_context_conflict "Event payload tenant_id must match outbox tenant_id"
              403)
            t
    ]

new_event : String → String → String → String → Dict String → String → ℕ → ℕ → OutboxEvent
new_event id event_type aggregate_type aggregate_id payload tenant_id event_version max_attempts =
    record {
      event_id = id;
      tenant_id = tenant_id;
      event_type = event_type;
      event_version = event_version;
      aggregate_type = aggregate_type;
      aggregate_id = aggregate_id;
      payload = payload;
      status = pending;
      claim_version = 0;
      attempt_count = 0;
      max_attempts = max_attempts;
      next_retry_at = none;
      locked_by = none;
      locked_until = none;
      last_error = none;
      published_at = none;
      dead_letter_reason = none;
    }

-- `id` is the identifier that the row is given.
unfoldable pub add :
    String → String → String → String → Dict String → String → ℕ → ℕ → Exec Table OutboxEvent
unfolding validate_event new_event
add id event_type aggregate_type aggregate_id payload tenant_id event_version max_attempts = do
  validate_event payload tenant_id
  let event =
      new_event id event_type aggregate_type aggregate_id payload tenant_id event_version
        max_attempts
  modify (λ t. t ++ event ∷ [])
  pure event

-- `column IS NULL OR column <= now`
abbrev pub null_or_past : Option ℕ → ℕ → Bool
null_or_past none now = true
null_or_past (some x) now = leb x now

-- `column <= now`
abbrev pub past : Option ℕ → ℕ → Bool
past none now = false
past (some x) now = leb x now

-- `_eligible_filter`
unfoldable pub eligible : ℕ → OutboxEvent → Bool
eligible now e = elim e.status [
  | pending ↦ null_or_past e.next_retry_at now && null_or_past e.locked_until now
  | failed ↦ null_or_past e.next_retry_at now && null_or_past e.locked_until now
  | publishing ↦ past e.locked_until now
  | _ ↦ false
]

candidate_ids : ℕ → ℕ → Table → List String
candidate_ids now batch_size t =
    map (λ e. e.event_id) (take batch_size (select_where (eligible now) t))

-- `session.get`
unfoldable pub find : String → Table → Option OutboxEvent
find id [] = none
find id (e ∷ t) = let rest = find id t in if e.event_id == id then some e else rest

abbrev pub claimed : String → ℕ → OutboxEvent → OutboxEvent
claimed dispatcher_id lock_until e = record e {
  status = publishing;
  locked_by = some dispatcher_id;
  locked_until = some lock_until;
  claim_version = e.claim_version + 1;
}

abbrev pub claimable : String → ℕ → OutboxEvent → Bool
claimable id now e = (e.event_id == id) && eligible now e

unfoldable pub try_claim_event : String → String → ℕ → ℕ → Exec Table (Option OutboxEvent)
try_claim_event id dispatcher_id lock_until now t =
    let t' = update_where (claimable id now) (claimed dispatcher_id lock_until) t in
    (ok (if eqb (count_where (claimable id now) t) 1 then find id t' else none), t')

claim_all : List String → String → ℕ → ℕ → Exec Table (List OutboxEvent)
unfolding try_claim_event
claim_all [] dispatcher_id lock_until now = pure []
claim_all (id ∷ ids) dispatcher_id lock_until now = do
  event ← try_claim_event id dispatcher_id lock_until now
  events ← claim_all ids dispatcher_id lock_until now
  pure (elim event [ none ↦ events | some e ↦ e ∷ events ])

unfoldable pub claim_batch : String → ℕ → ℕ → ℕ → Exec Table (List OutboxEvent)
unfolding candidate_ids claim_all
claim_batch dispatcher_id batch_size lock_seconds now = do
  ids ← gets (candidate_ids now batch_size)
  claim_all ids dispatcher_id (now + lock_seconds * 1000000) now
