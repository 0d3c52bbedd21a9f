-- ===== src/Locks/Fencing.antt =====
-- src/core/locks/memory.py: fencing tokens, which let a resource refuse the holder of an older lock.
use fastapi_foundation.Base.{
  ℕ, ◌+◌, ◌≤◌, ◌<◌, String, ◌≡◌, refl, sym, ◌∙◌, subst, true, Option, List, [], ◌∷◌, arith,
  if◌then◌else◌, ℤ, lookup, lookup-insert, or_default, eq_iff, ◌==◌, Result, ok, err, Bool-cases,
  inl, inr,
}
use fastapi_foundation.Locks.{LockHandle, MemoryLockProvider, acquire, release, extend, locked}
use fastapi_foundation.Locks.Holder.{Call, after}

-- The last fencing token given out for a key.
unfoldable pub fence : String → MemoryLockProvider → ℕ
fence key s = or_default 0 (lookup key s.fencing_tokens)

-- The token that a call is granted for the key, if it is granted the lock.
abbrev token_of : String → Result LockHandle → List ℕ → List ℕ
token_of key (err _) rest = rest
token_of key (ok h) rest =
    if h.acquired then (if h.lock_key == key then h.fencing_token ∷ rest else rest) else rest

-- All tokens that a history of calls is granted for the key, in order.
abbrev pub tokens : String → List Call → MemoryLockProvider → List ℕ
tokens key [] s = []
tokens key (Call.acquiring t u uuid k ttl o ∷ cs) s =
    token_of key (acquire t u uuid k ttl o s).0 (tokens key cs (acquire t u uuid k ttl o s).1)
tokens key (c ∷ cs) s = tokens key cs (after c s)

-- The list rises from above the number.
abbrev pub Rises : ℕ → List ℕ → Type 0
Rises n [] = Unit
Rises n (x ∷ xs) = (n < x) × Rises x xs

Rises-lower : (m n : ℕ) (xs : List ℕ) → m ≤ n → Rises n xs → Rises m xs
Rises-lower m n [] h r = tt
Rises-lower m n (x ∷ xs) h r = (omega arith, r.1)

fence-after :
    (key : String) (c : Call) (s : MemoryLockProvider) → fence key s ≤ fence key (after c s)
unfolding fence after acquire release extend locked
fence-after key (Call.acquiring t u uuid k ttl o) s = ground (
  arith,
  eq_iff k key,
  lookup-insert k key (or_default 0 (lookup k s.fencing_tokens) + 1) s.fencing_tokens,
)
fence-after key (Call.releasing t k o) s = ground arith
fence-after key (Call.extending t u k o ttl) s = ground arith
fence-after key (Call.asking t k) s = ground arith

acquire_token :
    (t u : ℕ) (uuid k : String) (ttl : ℤ) (o : Option String) (s : MemoryLockProvider)
    → (h : LockHandle) → (acquire t u uuid k ttl o s).0 ≡ ok h
    → h.acquired ≡ true
    → (h.lock_key ≡ k)
      × (fence k s < h.fencing_token)
      × (fence k (acquire t u uuid k ttl o s).1 ≡ h.fencing_token)
unfolding fence acquire
acquire_token t u uuid k ttl o s h e granted = ground (
  arith,
  eq_iff k k,
  lookup-insert k k (or_default 0 (lookup k s.fencing_tokens) + 1) s.fencing_tokens,
)

token_of-Rises :
    (key : String) (n : ℕ) (r : Result LockHandle) (rest : List ℕ)
    → ((h : LockHandle)
        → r ≡ ok h
        → h.acquired ≡ true
        → h.lock_key ≡ key
        → (n < h.fencing_token) × Rises h.fencing_token rest)
    → Rises n rest
    → Rises n (token_of key r rest)
token_of-Rises key n (err e) rest new old = old
token_of-Rises key n (ok h) rest new old = elim (Bool-cases h.acquired) [
  | inr refused ↦ rw refused old
  | inl granted ↦ elim (Bool-cases (h.lock_key == key)) [
    | inr other ↦ rw (granted, other) old
    | inl same ↦ rw (granted, same) (new h refl granted ((eq_iff h.lock_key key).0 same))
  ]
]

-- Over any history of calls, at any readings of the clock, the fencing tokens that are granted
-- for a key rise strictly, from above the last token given out before.
pub tokens-Rises :
    (key : String) (cs : List Call) (s : MemoryLockProvider) → Rises (fence key s) (tokens key cs s)
tokens-Rises key [] s = tt
tokens-Rises key (Call.acquiring t u uuid k ttl o ∷ cs) s =
    let s' = (acquire t u uuid k ttl o s).1 in
    token_of-Rises key (fence key s) (acquire t u uuid k ttl o s).0 (tokens key cs s')
      (λ h e granted same.
        let (at, above, now) = acquire_token t u uuid k ttl o s h e granted in
        let here : k ≡ key = sym at ∙ same in
        (
          subst (λ x. fence x s < h.fencing_token) here above,
          subst (λ n. Rises n (tokens key cs s'))
              (subst (λ x. fence x s' ≡ h.fencing_token) here now) (tokens-Rises key cs s'),
        ))
      (Rises-lower (fence key s) (fence key s') (tokens key cs s')
        (unfold after in fence-after key (Call.acquiring t u uuid k ttl o) s)
        (tokens-Rises key cs s'))
tokens-Rises key (Call.releasing t k o ∷ cs) s =
    Rises-lower _ _ _ (fence-after key (Call.releasing t k o) s)
      (tokens-Rises key cs (after (Call.releasing t k o) s))
tokens-Rises key (Call.extending t u k o ttl ∷ cs) s =
    Rises-lower _ _ _ (fence-after key (Call.extending t u k o ttl) s)
      (tokens-Rises key cs (after (Call.extending t u k o ttl) s))
tokens-Rises key (Call.asking t k ∷ cs) s =
    Rises-lower _ _ _ (fence-after key (Call.asking t k) s)
      (tokens-Rises key cs (after (Call.asking t k) s))
