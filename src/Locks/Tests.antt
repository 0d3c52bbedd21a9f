-- ===== src/Locks/Tests.antt =====
-- src/core/locks: the statements about locks, at a concrete lock.
use fastapi_foundation.Base.{
  ◌+◌, ◌≡◌, refl, true, none, some, [], ◌∷◌, arith, pos, ok, is_blank, lookup,
}
use fastapi_foundation.Cache.{seconds}
use fastapi_foundation.Locks.{LockEntry, MemoryLockProvider, acquire, require_acquire}
use fastapi_foundation.Locks.Holder.{
  Call, after, holder, HeldBy, granted, handle, after-HeldBy, acquire-holder,
}
use fastapi_foundation.Locks.Fencing.{fence, tokens, Rises, tokens-Rises}

abbrev held : LockEntry
held = record { owner_token = "w1"; expires_at = 5000; fencing_token = 3 }

abbrev provider : MemoryLockProvider
provider = record { locks = ("job", held) ∷ []; fencing_tokens = ("job", 3) ∷ [] }

after-HeldBy_example :
    HeldBy "w1" 3
      (lookup "job" (after (Call.acquiring 40 41 "u" "job" (pos 9) (some "w2")) provider).locks)
unfolding lookup
after-HeldBy_example =
    after-HeldBy "job" provider held refl (Call.acquiring 40 41 "u" "job" (pos 9) (some "w2"))
      (omega arith) (λ no. no)

acquire-holder_example :
    ((acquire 6000 6001 "u" "job" (pos 9) (some "w2") provider).0
      ≡ ok (handle true "job" "w2" (6001 + seconds (pos 9)) 4))
    × ((require_acquire 6000 6001 "u" "job" (pos 9) (some "w2") provider).0
        ≡ ok (handle true "job" "w2" (6001 + seconds (pos 9)) 4))
    × (lookup "job" (acquire 6000 6001 "u" "job" (pos 9) (some "w2") provider).1.locks
        ≡ some (granted 6001 (pos 9) "w2" 4))
unfolding is_blank holder lookup
acquire-holder_example =
    acquire-holder 6000 6001 "u" "job" "w2" (pos 9) provider refl refl (omega arith)

tokens-Rises_example : Rises (fence "job" provider) (
    tokens "job"
      (Call.releasing 40 "job" "w1"
        ∷ Call.acquiring 41 41 "u" "job" (pos 9) none
        ∷ Call.acquiring 90000000 90000000 "v" "job" (pos 9) none
        ∷ [])
      provider)
tokens-Rises_example =
    tokens-Rises "job"
      (Call.releasing 40 "job" "w1"
        ∷ Call.acquiring 41 41 "u" "job" (pos 9) none
        ∷ Call.acquiring 90000000 90000000 "v" "job" (pos 9) none
        ∷ [])
      provider
