-- ===== src/Cache/View.antt =====
-- src/core/cache/memory.py: what a client can see of the cache, namely the entries that have not
-- expired, and what each method does to them.
use fastapi_foundation.Base.{
  ℕ, ◌+◌, ◌≤◌, String, ◌≡◌, true, false, Option, none, some, arith, leb, if◌then◌else◌, ℤ, pos,
  ◌<ℤ◌, is_blank, lookup, insert, erase, lookup-insert, lookup-erase, is_some, ok, eq_iff,
  Option-cases, Bool-cases, inl, inr, ◌==◌,
}
use fastapi_foundation.Cache.{
  CacheValue, CacheEntry, Entries, seconds, expired, get, set, delete, expire,
}

-- The entry at a key, if it has not expired.
unfoldable pub live : ℕ → String → Entries → Option CacheEntry
live t key s = elim (lookup key s) [
  | none ↦ none
  | some entry ↦ if expired t entry then none else some entry
]

abbrev pub value_of : Option CacheEntry → CacheValue
value_of none = CacheValue.null
value_of (some entry) = entry.value

-- What has expired stays expired.
pub expired_mono :
    (t u : ℕ) (entry : CacheEntry) → t ≤ u → expired t entry ≡ true → expired u entry ≡ true
unfolding expired
expired_mono t u entry h e = ground arith

pub live-insert :
    (u : ℕ) (k j : String) (entry : CacheEntry) (s : Entries)
    → live u j (insert k entry s)
      ≡ (if k == j then (if expired u entry then none else some entry) else live u j s)
unfolding live
live-insert u k j entry s = ground (arith, lookup-insert k j entry s)

pub live-erase :
    (u : ℕ) (k j : String) (s : Entries)
    → live u j (erase k s) ≡ (if k == j then none else live u j s)
unfolding live
live-erase u k j s = ground (arith, lookup-erase k j s)

-- Dropping an entry that has expired is invisible from then on.
live-erase-expired :
    (t u : ℕ) (k j : String) (entry : CacheEntry) (s : Entries)
    → t ≤ u
    → lookup k s ≡ some entry
    → expired t entry ≡ true
    → live u j (erase k s) ≡ live u j s
unfolding live
live-erase-expired t u k j entry s h found e =
    ground (arith, lookup-erase k j s, eq_iff k j, expired_mono t u entry h e)

-- The ways in which `get` can go.
pub data Read (t : ℕ) (key : String) (s : Entries) : Type 0 where
  nothing :
      lookup key s ≡ none
      → get t key s ≡ (ok CacheValue.null, s)
      → live t key s ≡ none
      → Read t key s
  dropped :
      (entry : CacheEntry)
      → lookup key s ≡ some entry
      → expired t entry ≡ true
      → get t key s ≡ (ok CacheValue.null, erase key s)
      → live t key s ≡ none
      → Read t key s
  hit :
      (entry : CacheEntry)
      → lookup key s ≡ some entry
      → expired t entry ≡ false
      → get t key s ≡ (ok entry.value, s)
      → live t key s ≡ some entry
      → Read t key s

pub Read-cases : (t : ℕ) (key : String) (s : Entries) → is_blank key ≡ false → Read t key s
unfolding get live
Read-cases t key s named = elim (Option-cases (lookup key s)) [
  | inl none_there ↦ Read.nothing none_there (ground arith) (ground arith)
  | inr (entry, found) ↦ elim (Bool-cases (expired t entry)) [
    | inl old ↦ Read.dropped entry found old (ground arith) (ground arith)
    | inr new ↦ Read.hit entry found new (ground arith) (ground arith)
  ]
]

pub get-live_state :
    (t u : ℕ) (key j : String) (s : Entries)
    → Read t key s
    → t ≤ u
    → live u j (get t key s).1 ≡ live u j s
get-live_state t u key j s (Read.nothing _ e _) h = rw e
get-live_state t u key j s (Read.dropped entry f x e _) h =
    rw e (live-erase-expired t u key j entry s h f x)
get-live_state t u key j s (Read.hit _ _ _ e _) h = rw e

pub get-live_value :
    (t : ℕ) (key : String) (s : Entries)
    → Read t key s
    → (get t key s).0 ≡ ok (value_of (live t key s))
get-live_value t key s (Read.nothing _ e l) = rw (e, l)
get-live_value t key s (Read.dropped _ _ _ e l) = rw (e, l)
get-live_value t key s (Read.hit _ _ _ e l) = rw (e, l)

delete-live_value :
    (t : ℕ) (key : String) (s : Entries)
    → is_blank key ≡ false
    → Read t key s
    → (delete t key s).0 ≡ ok (is_some (live t key s))
unfolding delete get
delete-live_value t key s named (Read.nothing f _ l) = rw l (ground arith)
delete-live_value t key s named (Read.dropped _ f x _ l) =
    rw l (ground (arith, lookup-erase key key s, eq_iff key key))
delete-live_value t key s named (Read.hit _ f x _ l) = rw l (ground arith)

delete-live_state :
    (t u : ℕ) (key j : String) (s : Entries)
    → is_blank key ≡ false
    → Read t key s
    → t ≤ u
    → live u j (delete t key s).1 ≡ (if key == j then none else live u j s)
unfolding delete
delete-live_state t u key j s named r h = ground (
  arith,
  live-erase u key j (get t key s).1,
  get-live_value t key s r,
  get-live_state t u key j s r h,
)

-- The entry of `o` under another deadline, as it is seen at an instant.
abbrev pub moved_deadline : ℕ → ℕ → Option CacheEntry → Option CacheEntry
moved_deadline v d none = none
moved_deadline v d (some entry) =
    if leb d v then none else some (record entry { expires_at = some d })

expire_hit :
    (t : ℕ) (key : String) (s : Entries)
    → is_blank key ≡ false
    → (ttl : ℤ) (now v : ℕ) (j : String) → pos 0 <ℤ ttl
    → (entry : CacheEntry) → lookup key s ≡ some entry
    → expired t entry ≡ false
    → ((expire t now key ttl s).0 ≡ ok true)
      × (live v j (expire t now key ttl s).1
          ≡ (if key == j then moved_deadline v (now + seconds ttl) (some entry) else live v j s))
unfolding expire expired
expire_hit t key s named ttl now v j positive entry f x =
    ground (arith, live-insert v key j (record entry { expires_at = some (now + seconds ttl) }) s)

expire-live_lem :
    (t : ℕ) (key : String) (s : Entries)
    → is_blank key ≡ false
    → (ttl : ℤ) (now v : ℕ) (j : String) → pos 0 <ℤ ttl
    → t ≤ v
    → Read t key s
    → ((expire t now key ttl s).0 ≡ ok (is_some (live t key s)))
      × (live v j (expire t now key ttl s).1
          ≡ (if key == j then moved_deadline v (now + seconds ttl) (live t key s) else live v j s))
unfolding expire
expire-live_lem t key s named ttl now v j positive h (Read.nothing f _ l) =
    rw l (ground (arith, live-erase v key j s))
expire-live_lem t key s named ttl now v j positive h (Read.dropped entry f x _ l) =
    rw l (ground (arith, live-erase v key j s))
expire-live_lem t key s named ttl now v j positive h (Read.hit entry f x _ l) =
    rw l (expire_hit t key s named ttl now v j positive entry f x)

module _ (t : ℕ) (key : String) (s : Entries) (named : is_blank key ≡ false) where
  -- With a key that is not blank, `get` returns the value of the live entry, or `None`, and no
  -- later call can tell that it dropped an expired entry.
  pub get-live :
      (u : ℕ) (j : String)
      → t ≤ u
      → ((get t key s).0 ≡ ok (value_of (live t key s))) × (live u j (get t key s).1 ≡ live u j s)
  get-live u j h = (
    get-live_value t key s (Read-cases t key s named),
    get-live_state t u key j s (Read-cases t key s named) h,
  )

  -- With a key that is not blank and a positive lifetime, `set` makes exactly that entry live,
  -- until its deadline, and leaves the other keys alone.
  pub set-live :
      (value : CacheValue) (ttl : ℤ) (u : ℕ) (j : String)
      → pos 0 <ℤ ttl
      → live u j (set t key value (some ttl) false s).1 ≡ (
          if key == j
          then (if leb (t + seconds ttl) u
              then none
              else some (record { value = value; expires_at = some (t + seconds ttl) }))
          else live u j s)
  unfolding set expired
  set-live value ttl u j positive =
      ground (
        arith,
        live-insert u key j (record { value = value; expires_at = some (t + seconds ttl) }) s,
      )

  -- With a key that is not blank, `delete` says whether a live entry was there, and leaves no
  -- entry at the key and the other keys alone.
  pub delete-live :
      (u : ℕ) (j : String)
      → t ≤ u
      → ((delete t key s).0 ≡ ok (is_some (live t key s)))
        × (live u j (delete t key s).1 ≡ (if key == j then none else live u j s))
  delete-live u j h = (
    delete-live_value t key s named (Read-cases t key s named),
    delete-live_state t u key j s named (Read-cases t key s named) h,
  )

  -- With a key that is not blank and a positive lifetime, `expire` moves the deadline of a live
  -- entry and reports it; with no live entry it changes nothing that a client can see.
  pub expire-live :
      (ttl : ℤ) (now v : ℕ) (j : String)
      → pos 0 <ℤ ttl
      → t ≤ v
      → ((expire t now key ttl s).0 ≡ ok (is_some (live t key s)))
        × (live v j (expire t now key ttl s).1 ≡ (
            if key == j then moved_deadline v (now + seconds ttl) (live t key s) else live v j s))
  expire-live ttl now v j positive h =
      expire-live_lem t key s named ttl now v j positive h (Read-cases t key s named)
