-- ===== src/Locks/Holder.antt =====
-- src/core/locks/memory.py: who holds a lock at an instant, and what each call does to it.
use fastapi_foundation.Base.{
  ℕ, ◌+◌, ◌<◌, String, ◌≡◌, refl, Bool, true, false, Option, none, some, arith, leb, if◌then◌else◌,
  ℤ, pos, ◌<ℤ◌, is_blank, lookup, erase, lookup-insert, lookup-erase, or_default, eq_iff, eq_refl,
  ◌⊎◌, ◌==◌, Option-cases, inl, inr, ok, err, app_error, lock_not_acquired,
}
use fastapi_foundation.Cache.{seconds}
use fastapi_foundation.Locks.{
  LockHandle, LockEntry, MemoryLockProvider, purge_if_expired, acquire, require_acquire, owned,
  release, extend, locked,
}

-- The entry of a lock whose deadline has not passed.
unfoldable pub holder : ℕ → String → MemoryLockProvider → Option LockEntry
holder t key s = elim (lookup key s.locks) [
  | none ↦ none
  | some e ↦ if leb e.expires_at t then none else some e
]

-- The provider's methods, with the clock's readings.
pub data Call : Type 0 where
  acquiring : ℕ → ℕ → String → String → ℤ → Option String → Call
  releasing : ℕ → String → String → Call
  extending : ℕ → ℕ → String → String → ℤ → Call
  asking : ℕ → String → Call

unfoldable pub after : Call → MemoryLockProvider → MemoryLockProvider
after (Call.acquiring t u uuid key ttl owner) s = (acquire t u uuid key ttl owner s).1
after (Call.releasing t key owner) s = (release t key owner s).1
after (Call.extending t u key owner ttl) s = (extend t u key owner ttl s).1
after (Call.asking t key) s = (locked t key s).1

abbrev pub started : Call → ℕ
started (Call.acquiring t _ _ _ _ _) = t
started (Call.releasing t _ _) = t
started (Call.extending t _ _ _ _) = t
started (Call.asking t _) = t

-- The call releases that key for that owner.
abbrev pub Releases : String → String → Call → Type 0
Releases key owner (Call.releasing t k o) = (k ≡ key) × (o ≡ owner)
Releases key owner _ = ⊥

-- The lock is entered for that owner under that fencing token.
abbrev pub HeldBy : String → ℕ → Option LockEntry → Type 0
HeldBy owner token none = ⊥
HeldBy owner token (some e) = (e.owner_token ≡ owner) × (e.fencing_token ≡ token)

-- The entry of a lock that is granted.
abbrev pub granted : ℕ → ℤ → String → ℕ → LockEntry
granted u ttl owner token = record {
  owner_token = owner;
  expires_at = u + seconds ttl;
  fencing_token = token;
}

-- Clearing a lock whose deadline has passed leaves the live lock at the key, and the others.
pub purge_locks :
    (t : ℕ) (k j : String) (s : MemoryLockProvider)
    → lookup j (purge_if_expired t k s).1.locks
      ≡ (if k == j then holder t k s else lookup j s.locks)
unfolding purge_if_expired holder
purge_locks t k j s = ground (arith, lookup-erase k j s.locks, eq_iff k j)

pub purge_done : (t : ℕ) (k : String) (s : MemoryLockProvider) → (purge_if_expired t k s).0 ≡ ok tt
unfolding purge_if_expired
purge_done t k s = ground arith

pub purge_fencing :
    (t : ℕ) (k : String) (s : MemoryLockProvider)
    → (purge_if_expired t k s).1.fencing_tokens ≡ s.fencing_tokens
unfolding purge_if_expired
purge_fencing t k s = ground arith

module _ (key : String) (s : MemoryLockProvider) (e : LockEntry)
    (entered : lookup key s.locks ≡ some e) where
  holder_live : (t : ℕ) (k : String) → t < e.expires_at → k ≡ key → holder t k s ≡ some e
  unfolding holder
  holder_live t k h same = rw same (ground arith)

  purge_kept :
      (t : ℕ) (k : String) → t < e.expires_at → lookup key (purge_if_expired t k s).1.locks ≡ some e
  purge_kept t k h = ground (arith, purge_locks t k key s, holder_live t k h, eq_iff k key)

  acquire_kept :
      (t u : ℕ) (uuid k : String) (ttl : ℤ) (owner : Option String)
      → t < e.expires_at
      → lookup key (acquire t u uuid k ttl owner s).1.locks ≡ some e
  unfolding acquire
  acquire_kept t u uuid k ttl owner h = ground (
    arith,
    eq_iff k key,
    lookup-erase k key s.locks,
    lookup-insert k key
        (granted u ttl (or_default uuid owner) (or_default 0 (lookup k s.fencing_tokens) + 1))
        s.locks,
    lookup-insert k key
        (granted u ttl (or_default uuid owner) (or_default 0 (lookup k s.fencing_tokens) + 1))
        (erase k s.locks),
  )

  release_kept :
      (t : ℕ) (k o : String)
      → t < e.expires_at
      → ¬ ((k ≡ key) × (o ≡ e.owner_token))
      → lookup key (release t k o s).1.locks ≡ some e
  unfolding release
  release_kept t k o h other = ground (
    arith,
    eq_iff k key,
    eq_iff e.owner_token o,
    lookup-erase k key s.locks,
    lookup-erase k key (erase k s.locks),
    λ (p : k ≡ key) (q : o ≡ e.owner_token). other (p, q),
  )

  locked_kept : (t : ℕ) (k : String) → t < e.expires_at → lookup key (locked t k s).1.locks ≡ some e
  unfolding locked
  locked_kept t k h = ground (arith, eq_iff k key, lookup-erase k key s.locks)

  extend_moves :
      (t u : ℕ) (k o : String) (ttl : ℤ)
      → t < e.expires_at
      → (lookup key (extend t u k o ttl s).1.locks ≡ some e)
        ⊎ (lookup key (extend t u k o ttl s).1.locks
            ≡ some (record e { expires_at = u + seconds ttl }))
  unfolding extend
  extend_moves t u k o ttl h = elim (Option-cases (lookup k s.locks)) [
    | inl nothing ↦ ground (arith, eq_iff k key)
    | inr (f, found) ↦ ground (
      arith,
      eq_iff k key,
      lookup-erase k k s.locks,
      lookup-erase k key s.locks,
      eq_refl k,
      lookup-insert k key (record f { expires_at = u + seconds ttl }) s.locks,
    )
  ]

  extend_kept :
      (t u : ℕ) (k o : String) (ttl : ℤ)
      → t < e.expires_at
      → HeldBy e.owner_token e.fencing_token (lookup key (extend t u k o ttl s).1.locks)
  extend_kept t u k o ttl h = elim (extend_moves t u k o ttl h) [
    | inl same ↦ rw same (refl, refl)
    | inr moved ↦ rw moved (refl, refl)
  ]

  -- Until its deadline a lock stays with its owner and its fencing token, whatever is called,
  -- unless the owner releases it: no other call takes it away or hands it to another.
  pub after-HeldBy :
      (c : Call)
      → started c < e.expires_at
      → ¬ Releases key e.owner_token c
      → HeldBy e.owner_token e.fencing_token (lookup key (after c s).locks)
  unfolding after
  after-HeldBy (Call.acquiring t u uuid k ttl o) h other =
      rw (acquire_kept t u uuid k ttl o h) (refl, refl)
  after-HeldBy (Call.releasing t k o) h other = rw (release_kept t k o h other) (refl, refl)
  after-HeldBy (Call.extending t u k o ttl) h other = extend_kept t u k o ttl h
  after-HeldBy (Call.asking t k) h other = rw (locked_kept t k h) (refl, refl)

-- The handle of an attempt.
abbrev pub handle : Bool → String → String → ℕ → ℕ → LockHandle
handle acquired key owner deadline token = record {
  acquired = acquired;
  lock_key = key;
  owner_token = owner;
  expires_at = deadline;
  fencing_token = token;
}

module _ (t u : ℕ) (uuid key owner : String) (ttl : ℤ) (s : MemoryLockProvider)
    (named : is_blank key ≡ false) (owned_by : is_blank owner ≡ false)
    (positive : pos 0 <ℤ ttl) where
  -- With a key and an owner that are not blank and a positive lifetime, a free lock is granted
  -- under the next fencing token, and a held one is refused with the holder's deadline and token;
  -- `require_acquire` raises in the second case.
  pub acquire-holder :
      ((acquire t u uuid key ttl (some owner) s).0 ≡ elim (holder t key s) [
        | none ↦ ok (
            handle true key owner
              (u + seconds ttl)
              (or_default 0 (lookup key s.fencing_tokens) + 1))
        | some e ↦ ok (handle false key owner e.expires_at e.fencing_token)
      ])
      × ((require_acquire t u uuid key ttl (some owner) s).0 ≡ elim (holder t key s) [
        | none ↦ ok (
            handle true key owner
              (u + seconds ttl)
              (or_default 0 (lookup key s.fencing_tokens) + 1))
        | some e ↦ err (app_error lock_not_acquired "Lock is already held" 409)
      ])
      × (lookup key (acquire t u uuid key ttl (some owner) s).1.locks ≡ elim (holder t key s) [
        | none ↦ some (granted u ttl owner (or_default 0 (lookup key s.fencing_tokens) + 1))
        | some e ↦ some e
      ])
  unfolding require_acquire holder
  acquire-holder =
      let token = or_default 0 (lookup key s.fencing_tokens) + 1 in
      (
        ground (arith, lookup-erase key key s.locks, eq_refl key),
        ground (arith, lookup-erase key key s.locks, eq_refl key),
        ground (
          arith,
          lookup-erase key key s.locks,
          lookup-insert key key (granted u ttl owner token) s.locks,
          lookup-insert key key (granted u ttl owner token) (erase key s.locks),
          eq_refl key,
        ),
      )

  -- With a key and an owner that are not blank and a positive lifetime, `release` and `extend`
  -- succeed exactly for the holder; a release frees the lock, and an extension reports the
  -- holder's fencing token and the new deadline.
  pub release-holder :
      ((release t key owner s).0 ≡ ok (owned owner (holder t key s)))
      × (lookup key (release t key owner s).1.locks
          ≡ (if owned owner (holder t key s) then none else holder t key s))
      × ((extend t u key owner ttl s).0 ≡ elim (holder t key s) [
        | none ↦ ok none
        | some e ↦ ok (
            if e.owner_token == owner
            then some (handle true key owner (u + seconds ttl) e.fencing_token)
            else none)
      ])
  unfolding release extend holder
  release-holder = (
    ground (arith, lookup-erase key key s.locks, eq_refl key),
    ground (
      arith,
      lookup-erase key key s.locks,
      lookup-erase key key (erase key s.locks),
      eq_refl key,
    ),
    ground (arith, lookup-erase key key s.locks, eq_refl key),
  )
