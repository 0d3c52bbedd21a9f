-- ===== src/Outbox/Dispatcher/Tests.antt =====
-- src/core/outbox/dispatcher.py: the statements about a round of dispatch, at a concrete outbox.
use fastapi_foundation.Locks.Holder.{holder}
use fastapi_foundation.Base.{
  is_blank, select_where, count_where, insert, update_where, String, ◌≡◌, refl, true, none, some,
  List, [], ◌∷◌, arith, pos, ok, lookup, modify,
}
use fastapi_foundation.Locks.{release, acquire, LockEntry, MemoryLockProvider}
use fastapi_foundation.Outbox.{eligible, find, claim_batch, OutboxStatus, OutboxEvent}
use fastapi_foundation.Outbox.Marks.{mark_published}
use fastapi_foundation.Outbox.Dispatcher.{
  dispatch_claimed, dispatch_event, DispatchStats, no_stats, Place, OutboxDispatcher, Clock,
  dispatch_once,
}
use fastapi_foundation.Outbox.Dispatcher.Rounds.{AddsUp, dispatch_once-AddsUp}
use fastapi_foundation.Outbox.Dispatcher.Locked.{
  memory_lock_provider, dispatch_excluded, dispatch_frees,
}

abbrev placed : OutboxEvent
placed = record {
  event_id = "e1";
  tenant_id = "acme";
  event_type = "order.placed";
  event_version = 1;
  aggregate_type = "order";
  aggregate_id = "o1";
  payload = [];
  status = OutboxStatus.pending;
  claim_version = 0;
  attempt_count = 0;
  max_attempts = 3;
  next_retry_at = none;
  locked_by = none;
  locked_until = none;
  last_error = none;
  published_at = none;
  dead_letter_reason = none;
}

-- The identifiers of what is published are kept.
abbrev dispatcher : OutboxDispatcher MemoryLockProvider (List String)
dispatcher = record {
  dispatcher_id = "d1";
  batch_size = 20;
  retry_delay_seconds = 30;
  lock_provider = some memory_lock_provider;
  lock_key = "outbox:dispatch";
  lock_ttl_seconds = pos 60;
  publish = λ e. modify (λ ids. e.event_id ∷ ids);
  classify = λ x. record { retryable = true; last_error = x.message };
}

abbrev clock : Clock
clock = record {
  claiming = 110;
  marking = λ _. 120;
  acquiring = 100;
  acquired = 101;
  releasing = 130;
}

abbrev holding : LockEntry
holding = record { owner_token = "d2"; expires_at = 5000; fencing_token = 1 }

abbrev locked : Place MemoryLockProvider (List String)
locked = record {
  locks = record { locks = ("outbox:dispatch", holding) ∷ []; fencing_tokens = [] };
  table = placed ∷ [];
  world = [];
}

abbrev unlocked : Place MemoryLockProvider (List String)
unlocked = record {
  locks = record { locks = []; fencing_tokens = [] };
  table = placed ∷ [];
  world = [];
}

abbrev one_published : DispatchStats
one_published = record { claimed = 1; published = 1; failed = 0; dead_lettered = 0 }

dispatch_once-AddsUp_example : AddsUp one_published
unfolding dispatch_once acquire is_blank lookup release dispatch_claimed claim_batch select_where
    eligible count_where find update_where dispatch_event mark_published insert
dispatch_once-AddsUp_example = dispatch_once-AddsUp dispatcher clock "u" unlocked one_published refl

dispatch_excluded_example :
    ((dispatch_once dispatcher clock "u" locked).0 ≡ ok no_stats)
    × ((dispatch_once dispatcher clock "u" locked).1.table ≡ placed ∷ [])
    × ((dispatch_once dispatcher clock "u" locked).1.world ≡ [])
unfolding is_blank holder lookup
dispatch_excluded_example =
    dispatch_excluded dispatcher clock refl refl refl (omega arith) "u" locked holding refl

dispatch_frees_example :
    lookup "outbox:dispatch" (dispatch_once dispatcher clock "u" unlocked).1.locks.locks ≡ none
unfolding is_blank holder lookup
dispatch_frees_example =
    dispatch_frees dispatcher clock refl refl refl (omega arith) "u" unlocked refl
