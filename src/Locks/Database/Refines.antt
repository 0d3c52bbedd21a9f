-- ===== src/Locks/Database/Refines.antt =====
-- src/core/locks: the locks in the database answer as those in memory, call by call.
use fastapi_foundation.Base.{
  ℕ, ◌+◌, ◌≤◌, String, ◌≡◌, Option, none, some, leb, if◌then◌else◌, ℤ, arith, lookup, erase,
  or_default, lookup-insert, lookup-erase, eq_iff, eq_refl, Option-cases, inl, inr,
}
use fastapi_foundation.Cache.{seconds}
use fastapi_foundation.Locks.{LockEntry, MemoryLockProvider}
use fastapi_foundation.Locks
use fastapi_foundation.Locks.Holder.{holder, granted}
use fastapi_foundation.Locks.Database.{
  DatabaseLock, Rows, Others, acquire, require_acquire, release, extend, locked,
}

-- The lock that a row stands for: none after its deadline.
unfoldable pub live_entry : ℕ → Option DatabaseLock → Option LockEntry
live_entry t none = none
live_entry t (some row) =
    if leb row.expires_at t
    then none
    else some (record {
      owner_token = row.owner_token;
      expires_at = row.expires_at;
      fencing_token = row.fencing_token;
    })

unfoldable pub last_token : Option DatabaseLock → ℕ
last_token none = 0
last_token (some row) = row.fencing_token

-- From an instant on, the provider in memory and the table have the same locks, and they have given
-- out the same fencing tokens.
unfoldable pub Alike : ℕ → MemoryLockProvider → Rows → Type 0
Alike t m d =
    (k : String)
    → (holder t k m ≡ live_entry t (lookup k d))
      × (or_default 0 (lookup k m.fencing_tokens) ≡ last_token (lookup k d))

-- No other transaction commits in between.
abbrev pub alone : Others
alone = record { before = λ _ d. d; between = λ _ d. d }

pub Alike-later : (t u : ℕ) (m : MemoryLockProvider) (d : Rows) → t ≤ u → Alike t m d → Alike u m d
unfolding Alike holder live_entry
Alike-later t u m d later h k = (ground (arith, later, (h k).0), (h k).1)

abbrev pub row_of : ℕ → ℤ → String → ℕ → DatabaseLock
row_of t ttl owner token = record {
  owner_token = owner;
  expires_at = t + seconds ttl;
  fencing_token = token;
}

module _ (t : ℕ) (key : String) (m : MemoryLockProvider) (d : Rows) (h : Alike t m d) where
  pub acquire_answer :
      (uuid : String) (ttl : ℤ) (owner : Option String)
      → (Locks.acquire t t uuid key ttl owner m).0 ≡ (acquire alone (λ _. t) uuid key ttl owner d).0
  unfolding Alike holder live_entry last_token acquire Locks.acquire
  acquire_answer uuid ttl owner = ground (arith, h key, lookup-erase key key m.locks, eq_refl key)

  pub require_answer :
      (uuid : String) (ttl : ℤ) (owner : Option String)
      → (Locks.require_acquire t t uuid key ttl owner m).0
        ≡ (require_acquire alone (λ _. t) uuid key ttl owner d).0
  unfolding Alike holder live_entry last_token require_acquire Locks.require_acquire
  require_answer uuid ttl owner = ground (arith, h key, lookup-erase key key m.locks, eq_refl key)

  pub release_answer :
      (owner : String) → (Locks.release t key owner m).0 ≡ (release (λ x. x) t key owner d).0
  unfolding Alike holder live_entry last_token release Locks.release
  release_answer owner = ground (arith, h key, lookup-erase key key m.locks, eq_refl key)

  pub extend_answer :
      (owner : String) (ttl : ℤ)
      → (Locks.extend t t key owner ttl m).0 ≡ (extend (λ x. x) t key owner ttl d).0
  unfolding Alike holder live_entry last_token extend Locks.extend
  extend_answer owner ttl = ground (arith, h key, lookup-erase key key m.locks, eq_refl key)

  pub locked_answer : (Locks.locked t key m).0 ≡ (locked t key d).0
  unfolding Alike holder live_entry last_token locked Locks.locked
  locked_answer = ground (arith, h key, lookup-erase key key m.locks, eq_refl key)

  pub acquire-Alike :
      (uuid : String) (ttl : ℤ) (owner : Option String)
      → Alike t
          (Locks.acquire t t uuid key ttl owner m).1
          (acquire alone (λ _. t) uuid key ttl owner d).1
  unfolding Alike holder live_entry last_token acquire Locks.acquire
  acquire-Alike uuid ttl owner k =
      let o = or_default uuid owner in
      let token = or_default 0 (lookup key m.fencing_tokens) + 1 in
      let e = granted t ttl o token in
      let r = row_of t ttl o token in
      (
        ground (
          arith,
          h key,
          h k,
          eq_iff key k,
          lookup-erase key k m.locks,
          lookup-erase key key m.locks,
          lookup-insert key k e m.locks,
          lookup-insert key k e (erase key m.locks),
          lookup-insert key k r d,
          eq_refl key,
        ),
        ground (
          arith,
          h key,
          h k,
          eq_iff key k,
          lookup-erase key k m.locks,
          lookup-erase key key m.locks,
          lookup-insert key k token m.fencing_tokens,
          lookup-insert key k r d,
          eq_refl key,
        ),
      )

  require_keeps :
      (uuid : String) (ttl : ℤ) (owner : Option String)
      → ((Locks.require_acquire t t uuid key ttl owner m).1
          ≡ (Locks.acquire t t uuid key ttl owner m).1)
        × ((require_acquire alone (λ _. t) uuid key ttl owner d).1
            ≡ (acquire alone (λ _. t) uuid key ttl owner d).1)
  unfolding require_acquire Locks.require_acquire
  require_keeps uuid ttl owner = (ground arith, ground arith)

  pub require-Alike :
      (uuid : String) (ttl : ℤ) (owner : Option String)
      → Alike t
          (Locks.require_acquire t t uuid key ttl owner m).1
          (require_acquire alone (λ _. t) uuid key ttl owner d).1
  require-Alike uuid ttl owner =
      let (x, y) = require_keeps uuid ttl owner in rw (x, y) (acquire-Alike uuid ttl owner)

  pub release-Alike :
      (owner : String) → Alike t (Locks.release t key owner m).1 (release (λ x. x) t key owner d).1
  unfolding Alike holder live_entry last_token release Locks.release
  release-Alike owner k = elim (Option-cases (lookup key d)) [
    | inl absent ↦ (
      ground (
        arith,
        h key,
        h k,
        eq_iff key k,
        absent,
        lookup-erase key key m.locks,
        lookup-erase key k m.locks,
        lookup-erase key k (erase key m.locks),
        eq_refl key,
      ),
      ground (arith, h k, absent),
    )
    | inr (r, row) ↦
        let moved = record r { expires_at = t } in
        (
          ground (
            arith,
            h key,
            h k,
            eq_iff key k,
            row,
            lookup-erase key key m.locks,
            lookup-erase key k m.locks,
            lookup-erase key k (erase key m.locks),
            lookup-insert key k moved d,
            eq_refl key,
          ),
          ground (arith, h key, h k, eq_iff key k, row, lookup-insert key k moved d),
        )
  ]

  pub extend-Alike :
      (owner : String) (ttl : ℤ)
      → Alike t (Locks.extend t t key owner ttl m).1 (extend (λ x. x) t key owner ttl d).1
  unfolding Alike holder live_entry last_token extend Locks.extend
  extend-Alike owner ttl k = elim (Option-cases (lookup key d)) [
    | inl absent ↦ (
      ground (
        arith,
        h key,
        h k,
        eq_iff key k,
        absent,
        lookup-erase key key m.locks,
        lookup-erase key k m.locks,
        eq_refl key,
      ),
      ground (arith, h k, absent),
    )
    | inr (r, row) ↦
        let moved = record r { expires_at = t + seconds ttl } in
        let kept = granted t ttl r.owner_token r.fencing_token in
        (
          ground (
            arith,
            h key,
            h k,
            eq_iff key k,
            row,
            lookup-erase key key m.locks,
            lookup-erase key k m.locks,
            lookup-insert key k kept m.locks,
            lookup-insert key k moved d,
            eq_refl key,
          ),
          ground (arith, h key, h k, eq_iff key k, row, lookup-insert key k moved d),
        )
  ]

  pub locked-Alike : Alike t (Locks.locked t key m).1 (locked t key d).1
  unfolding Alike holder live_entry last_token locked Locks.locked
  locked-Alike k =
      (ground (arith, h key, h k, eq_iff key k, lookup-erase key k m.locks), ground (arith, h k))
