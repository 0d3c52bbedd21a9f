-- ===== src/Locks/Database/Sequences.antt =====
-- src/core/locks: the provider in the database and the one in memory cannot be told apart.
use fastapi_foundation.Base.{ℕ, ◌≤◌, String, ◌≡◌, refl, ap, Bool, Option, List, [], ◌∷◌, ℤ, Result}
use fastapi_foundation.Locks
use fastapi_foundation.Locks.{LockHandle, MemoryLockProvider}
use fastapi_foundation.Locks.Database.{Rows, acquire, require_acquire, release, extend, locked}
use fastapi_foundation.Locks.Database.Refines.{
  Alike, Alike-later, alone, acquire_answer, require_answer, release_answer, extend_answer,
  locked_answer, acquire-Alike, require-Alike, release-Alike, extend-Alike, locked-Alike,
}

-- A call of a lock provider, with the clock's reading in it.
pub data Request : Type 0 where
  acquiring requiring : ℕ → String → String → ℤ → Option String → Request
  releasing : ℕ → String → String → Request
  extending : ℕ → String → String → ℤ → Request
  asking : ℕ → String → Request

pub data Answer : Type 0 where
  handed : Result LockHandle → Answer
  extended : Result (Option LockHandle) → Answer
  told : Result Bool → Answer

abbrev reading : Request → ℕ
reading (Request.acquiring t _ _ _ _) = t
reading (Request.requiring t _ _ _ _) = t
reading (Request.releasing t _ _) = t
reading (Request.extending t _ _ _) = t
reading (Request.asking t _) = t

abbrev answer {ℓ} : {A S : Type ℓ} → (A → Answer) → A × S → Answer × S
answer f (a, s) = (f a, s)

unfoldable pub serve_memory : Request → MemoryLockProvider → Answer × MemoryLockProvider
serve_memory (Request.acquiring t uuid key ttl owner) m =
    answer Answer.handed (Locks.acquire t t uuid key ttl owner m)
serve_memory (Request.requiring t uuid key ttl owner) m =
    answer Answer.handed (Locks.require_acquire t t uuid key ttl owner m)
serve_memory (Request.releasing t key owner) m = answer Answer.told (Locks.release t key owner m)
serve_memory (Request.extending t key owner ttl) m =
    answer Answer.extended (Locks.extend t t key owner ttl m)
serve_memory (Request.asking t key) m = answer Answer.told (Locks.locked t key m)

unfoldable pub serve_database : Request → Rows → Answer × Rows
serve_database (Request.acquiring t uuid key ttl owner) d =
    answer Answer.handed (acquire alone (λ _. t) uuid key ttl owner d)
serve_database (Request.requiring t uuid key ttl owner) d =
    answer Answer.handed (require_acquire alone (λ _. t) uuid key ttl owner d)
serve_database (Request.releasing t key owner) d =
    answer Answer.told (release (λ x. x) t key owner d)
serve_database (Request.extending t key owner ttl) d =
    answer Answer.extended (extend (λ x. x) t key owner ttl d)
serve_database (Request.asking t key) d = answer Answer.told (locked t key d)

abbrev pub answers : {S : Type 0} → (Request → S → Answer × S) → List Request → S → List Answer
answers serve [] s = []
answers serve (r ∷ rs) s = let (a, s') = serve r s in a ∷ answers serve rs s'

-- The clock does not go back, from that instant on.
abbrev pub IsLater : ℕ → List Request → Type 0
IsLater t [] = Unit
IsLater t (r ∷ rs) = (t ≤ reading r) × IsLater (reading r) rs

serve-Alike :
    (r : Request) (m : MemoryLockProvider) (d : Rows)
    → Alike (reading r) m d
    → ((serve_memory r m).0 ≡ (serve_database r d).0)
      × Alike (reading r) (serve_memory r m).1 (serve_database r d).1
unfolding serve_memory serve_database
serve-Alike (Request.acquiring t uuid key ttl owner) m d h = (
  ap Answer.handed (acquire_answer t key m d h uuid ttl owner),
  acquire-Alike t key m d h uuid ttl owner,
)
serve-Alike (Request.requiring t uuid key ttl owner) m d h = (
  ap Answer.handed (require_answer t key m d h uuid ttl owner),
  require-Alike t key m d h uuid ttl owner,
)
serve-Alike (Request.releasing t key owner) m d h =
    (ap Answer.told (release_answer t key m d h owner), release-Alike t key m d h owner)
serve-Alike (Request.extending t key owner ttl) m d h =
    (ap Answer.extended (extend_answer t key m d h owner ttl), extend-Alike t key m d h owner ttl)
serve-Alike (Request.asking t key) m d h =
    (ap Answer.told (locked_answer t key m d h), locked-Alike t key m d h)

-- Over any sequence of calls whose readings of the clock do not go back, from a provider in memory and a
-- table that have the same locks and fencing tokens, with no other transaction in between, the
-- two lock providers give the same answers, also where they raise.
pub answers_equal :
    (rs : List Request) (t : ℕ) (m : MemoryLockProvider) (d : Rows)
    → IsLater t rs
    → Alike t m d
    → answers serve_memory rs m ≡ answers serve_database rs d
answers_equal [] t m d later h = refl
answers_equal (r ∷ rs) t m d (here, later) h =
    let (a, next) = serve-Alike r m d (Alike-later t (reading r) m d here h) in
    cc (a, answers_equal rs (reading r) (serve_memory r m).1 (serve_database r d).1 later next)
