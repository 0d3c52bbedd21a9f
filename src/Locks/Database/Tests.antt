-- ===== src/Locks/Database/Tests.antt =====
-- src/core/locks/database.py: the statements about locks in the database, at a concrete lock.
use fastapi_foundation.Base.{
  ℕ, ◌+◌, ◌≡◌, ◌⊎◌, refl, true, none, some, [], ◌∷◌, List, arith, pos, ok, is_blank, lookup, insert,
  eq_iff, if◌then◌else◌, leb,
}
use fastapi_foundation.Cache.{seconds}
use fastapi_foundation.Locks.{MemoryLockProvider}
use fastapi_foundation.Locks.Holder.{handle, holder}
use fastapi_foundation.Locks.Database.{DatabaseLock, Rows, Others, acquire}
use fastapi_foundation.Locks.Database.Refines.{Alike, live_entry, last_token, row_of}
use fastapi_foundation.Locks.Database.Sequences.{
  Request, answers, serve_memory, serve_database, answers_equal,
}
use fastapi_foundation.Locks.Database.Races.{GrantedIn, at_write, acquire-GrantedIn}

abbrev passed : DatabaseLock
passed = record { owner_token = "w0"; expires_at = 5; fencing_token = 3 }

abbrev provider : MemoryLockProvider
provider = record { locks = []; fencing_tokens = ("job", 3) ∷ [] }

abbrev rows : Rows
rows = ("job", passed) ∷ []

provider-Alike : Alike 10 provider rows
unfolding Alike holder live_entry last_token lookup
provider-Alike k = (ground (arith, eq_iff "job" k), ground (arith, eq_iff "job" k))

abbrev requests : List Request
requests =
    Request.acquiring 10 "u" "job" (pos 9) (some "w1")
    ∷ Request.requiring 20 "v" "job" (pos 9) none
    ∷ Request.extending 30 "job" "w1" (pos 9)
    ∷ Request.releasing 40 "job" "w1"
    ∷ Request.asking 40 "job"
    ∷ []

answers_equal_example :
    answers serve_memory requests provider ≡ answers serve_database requests rows
answers_equal_example =
    answers_equal requests 10 provider rows
      (omega arith, (omega arith, (omega arith, (omega arith, (omega arith, tt))))) provider-Alike

-- Another transaction inserts the first row before the first attempt does, and the row's deadline
-- passes before the second attempt.
abbrev faster : DatabaseLock
faster = record { owner_token = "w9"; expires_at = 15; fencing_token = 1 }

abbrev others : Others
others = record { before = λ _ d. d; between = λ _ d. insert "job" faster d }

abbrev now : ℕ → ℕ
now n = if leb 2 n then 10 else 20

abbrev taken : DatabaseLock
taken = row_of 20 (pos 9) "w1" 2

taken_over :
    acquire others now "u" "job" (pos 9) (some "w1") []
    ≡ (ok (handle true "job" "w1" (20 + seconds (pos 9)) 2), ("job", taken) ∷ [])
unfolding acquire insert lookup is_blank
taken_over = refl

acquire-GrantedIn_example :
    GrantedIn 10 "job"
      (pos 9)
      "w1"
      (handle true "job" "w1" (20 + seconds (pos 9)) 2)
      (at_write others 2 [])
      (("job", taken) ∷ [])
    ⊎ GrantedIn 20 "job"
        (pos 9)
        "w1"
        (handle true "job" "w1" (20 + seconds (pos 9)) 2)
        (at_write others 1 (at_write others 2 []))
        (("job", taken) ∷ [])
acquire-GrantedIn_example =
    acquire-GrantedIn others now "u" "job" (pos 9) (some "w1") [] (("job", taken) ∷ [])
      (handle true "job" "w1" (20 + seconds (pos 9)) 2) taken_over refl
