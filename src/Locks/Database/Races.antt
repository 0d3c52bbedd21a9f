-- ===== src/Locks/Database/Races.antt =====
-- src/core/locks/database.py: an attempt to take a lock beside other transactions.
use fastapi_foundation.Base.{
  ℕ, zero, suc, ◌+◌, String, ◌≡◌, ◌⊎◌, ap, ◌∙◌, true, false, Option, none, some, ℤ, arith, lookup,
  insert, or_default, ok, Option-cases, Result-cases, inl, inr,
}
use fastapi_foundation.Locks.{LockHandle}
use fastapi_foundation.Locks.Database.{
  Rows, Others, grant, acquire, acquire_in_session, acquire_attempts,
}
use fastapi_foundation.Locks.Database.Refines.{live_entry, last_token, row_of}

-- The lock was free in the table, at the instant, and is entered under the next fencing token.
unfoldable pub GrantedIn : ℕ → String → ℤ → String → LockHandle → Rows → Rows → Type 0
GrantedIn now key ttl owner h s t =
    let row = row_of now ttl owner (last_token (lookup key s) + 1) in
    (live_entry now (lookup key s) ≡ none) × (h ≡ grant key row) × (t ≡ insert key row s)

session-GrantedIn :
    (between : Rows → Rows) (now : ℕ) (key : String) (ttl : ℤ) (owner : String) (h : LockHandle)
    (s t : Rows)
    → acquire_in_session between now key ttl owner s ≡ (ok (some h), t)
    → h.acquired ≡ true
    → GrantedIn now key ttl owner h (between s) t
unfolding GrantedIn acquire_in_session live_entry last_token
session-GrantedIn between now key ttl owner h s t e given = elim (Option-cases (lookup key s)) [
  | inl absent ↦ elim (Option-cases (lookup key (between s))) [
    | inl free ↦
        (ground (arith, free), ground (arith, absent, free, e), ground (arith, absent, free, e))
    | inr (r, row) ↦ absurd (ground (arith, absent, row, e))
  ]
  | inr (q, seen) ↦ elim (Option-cases (lookup key (between s))) [
    | inl free ↦ absurd (ground (arith, seen, free, e, given))
    | inr (r, row) ↦ (
      ground (arith, seen, row, e, given),
      ground (arith, seen, row, e, given),
      ground (arith, seen, row, e, given),
    )
  ]
]

session_failed :
    (between : Rows → Rows) (now : ℕ) (key : String) (ttl : ℤ) (owner : String) (s t : Rows)
    → acquire_in_session between now key ttl owner s ≡ (ok none, t)
    → t ≡ between s
unfolding acquire_in_session
session_failed between now key ttl owner s t e = elim (Option-cases (lookup key s)) [
  | inl absent ↦ elim (Option-cases (lookup key (between s))) [
    | inl free ↦ absurd (ground (arith, absent, free, e))
    | inr (r, row) ↦ ground (arith, absent, row, e)
  ]
  | inr (q, seen) ↦ elim (Option-cases (lookup key (between s))) [
    | inl free ↦ absurd (ground (arith, seen, free, e))
    | inr (r, row) ↦ absurd (ground (arith, seen, row, e))
  ]
]

-- The table that an attempt with that number left writes into.
unfoldable pub at_write : Others → ℕ → Rows → Rows
at_write others n s = others.between n (others.before n s)

module _ (others : Others) (now : ℕ → ℕ) (key : String) (ttl : ℤ) (owner : String) where
  zero_refuses :
      (s t : Rows) (h : LockHandle)
      → acquire_attempts zero others now key ttl owner s ≡ (ok h, t)
      → h.acquired ≡ false
  unfolding acquire_attempts
  zero_refuses s t h e = elim (Option-cases (lookup key (others.before zero s))) [
    | inl free ↦ absurd (ground (arith, free, e))
    | inr (r, row) ↦ ground (arith, row, e)
  ]

  attempt-GrantedIn :
      (n : ℕ) (s t : Rows) (h : LockHandle)
      → acquire_attempts (suc n) others now key ttl owner s ≡ (ok h, t)
      → h.acquired ≡ true
      → GrantedIn (now (suc n)) key ttl owner h (at_write others (suc n) s) t
        ⊎ (acquire_attempts n others now key ttl owner (at_write others (suc n) s) ≡ (ok h, t))
  unfolding acquire_attempts at_write lookup
  attempt-GrantedIn n s t h e given =
      let s1 = others.before (suc n) s in
      let run = acquire_in_session (others.between (suc n)) (now (suc n)) key ttl owner s1 in
      elim (Result-cases run.0) [
        | inr (x, raised) ↦ absurd (ground (arith, raised, e))
        | inl (o, answered) ↦ elim (Option-cases o) [
          | inl nothing ↦
              let failed : run ≡ (ok none, run.1) =
                ap (λ r. (r, run.1)) (answered ∙ ap ok nothing) in
              let left =
                session_failed (others.between (suc n)) (now (suc n)) key ttl owner s1 run.1
                  failed in
              inr (rw left at (rw (answered, nothing) at e))
          | inr (g, handle) ↦
              let done : run ≡ (ok (some h), t) =
                ground (arith, rw (answered, handle) at e, answered, handle) in
              inl (
                session-GrantedIn (others.between (suc n)) (now (suc n)) key ttl owner h s1 t done
                  given)
        ]
      ]

acquire_tries :
    (others : Others) (now : ℕ → ℕ) (uuid key : String) (ttl : ℤ) (owner : Option String)
    (s t : Rows) (h : LockHandle)
    → acquire others now uuid key ttl owner s ≡ (ok h, t)
    → acquire_attempts 2 others now key ttl (or_default uuid owner) s ≡ (ok h, t)
unfolding acquire
acquire_tries others now uuid key ttl owner s t h e = ground (arith, e)

-- Whatever other transactions commit in between, a lock that is granted was free, at the instant of one of
-- the two attempts, in the very table into which that attempt wrote; the row names the owner, the new
-- deadline and the next fencing token, and the handle reports them.
pub acquire-GrantedIn :
    (others : Others) (now : ℕ → ℕ) (uuid key : String) (ttl : ℤ) (owner : Option String)
    (s t : Rows) (h : LockHandle)
    → acquire others now uuid key ttl owner s ≡ (ok h, t)
    → h.acquired ≡ true
    → GrantedIn (now 2) key ttl (or_default uuid owner) h (at_write others 2 s) t
      ⊎ GrantedIn
          (now 1)
          key
          ttl
          (or_default uuid owner)
          h
          (at_write others 1 (at_write others 2 s))
          t
acquire-GrantedIn others now uuid key ttl owner s t h e given =
    let o = or_default uuid owner in
    let tried = acquire_tries others now uuid key ttl owner s t h e in
    elim (attempt-GrantedIn others now key ttl o 1 s t h tried given) [
      | inl first ↦ inl first
      | inr again ↦ elim (attempt-GrantedIn others now key ttl o 0 _ t h again given) [
        | inl second ↦ inr second
        | inr read ↦ absurd (ground (arith, zero_refuses others now key ttl o _ t h read, given))
      ]
    ]
