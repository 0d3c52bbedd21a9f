-- ===== src/RateLimit/Keys.antt =====
-- src/core/rate_limit/rules.py: what `key_for` makes of an identity.
use Prim.Native.String.{◌++◌ as ◌<>◌}
use text.Mathlib.TextLemmas.{nil-append, cons-append, append_cancel_left}
use fastapi_foundation.Base.{
  ℕ, String, ◌≡◌, refl, sym, ap, ◌∙◌, ◌↔◌, ◌⊎◌, true, false, ◌&&◌, ◌||◌, some, List, [], ◌∷◌, arith,
  is_blank, has_char, ErrorCode, Result, ok, err, AppError, inl, inr, All,
}
use fastapi_foundation.Cache.Keys.{colon, join, any_invalid, invalid_segment, cache_key}
use fastapi_foundation.Cache.Keys.Injective.{cache_key_injective}
use fastapi_foundation.RateLimit.{
  Dimension, dimension_name, RateLimitIdentity, RateLimitRule, attribute, value_for, parts, key_for,
}

is_blank-append : (s t : String) → is_blank (s <> t) ≡ is_blank s && is_blank t
unfolding is_blank
is_blank-append String.[] t = rw nil-append
is_blank-append (String.◌∷◌ c s) t = rw (cons-append c s t) (ground (arith, is_blank-append s t))

has_char-append : (k : ℕ) (s t : String) → has_char k (s <> t) ≡ has_char k s || has_char k t
unfolding has_char
has_char-append k String.[] t = rw nil-append
has_char-append k (String.◌∷◌ c s) t =
    rw (cons-append c s t) (ground (arith, has_char-append k s t))

rate_key_named : (t : String) → is_blank ("rate" <> t) ≡ false
unfolding is_blank
rate_key_named t = rw (is_blank-append "rate" t)

key_for-parts :
    (r : RateLimitRule) (i : RateLimitIdentity) {key : String}
    → key_for r i ≡ ok key
    → (ps : List String) × (parts r.dimensions i ≡ ok ps)
      × (cache_key "rate" (r.name ∷ ps) ≡ ok key)
unfolding key_for
key_for-parts r i {key} h = go (parts r.dimensions i) refl
  where
    go :
        (o : Result (List String))
        → parts r.dimensions i ≡ o
        → (ps : List String) × (parts r.dimensions i ≡ ok ps)
          × (cache_key "rate" (r.name ∷ ps) ≡ ok key)
    go (ok ps) e = (ps, e, ground arith)
    go (err x) e = ground arith

cache_key_named :
    (n : String) (ps : List String) {key : String}
    → cache_key "rate" (n ∷ ps) ≡ ok key
    → is_blank key ≡ false
unfolding cache_key join
cache_key_named n ps h = ground (arith, rate_key_named (colon <> join n ps))

-- A key is never blank.
pub key_for_named :
    (r : RateLimitRule) (i : RateLimitIdentity) {key : String}
    → key_for r i ≡ ok key
    → is_blank key ≡ false
key_for_named r i h = let (ps, _, made) = key_for-parts r i h in cache_key_named r.name ps made

-- The two identities have the same value in each of the dimensions.
abbrev pub Agree : List Dimension → RateLimitIdentity → RateLimitIdentity → Type 0
Agree ds i j = All (λ d. attribute i d ≡ attribute j d) ds

value_for_agree :
    (d : Dimension) (i j : RateLimitIdentity)
    → attribute i d ≡ attribute j d
    → value_for i d ≡ value_for j d
unfolding value_for
value_for_agree Dimension.global i j e = refl
value_for_agree Dimension.tenant_id i j e = rw e
value_for_agree Dimension.user_id i j e = rw e
value_for_agree Dimension.ip_address i j e = rw e
value_for_agree Dimension.route i j e = rw e

value_for_found :
    (d : Dimension) (i : RateLimitIdentity) {v : String}
    → value_for i d ≡ ok v
    → attribute i d ≡ some v
unfolding value_for
value_for_found Dimension.global i h = ground arith
value_for_found Dimension.tenant_id i h = ground arith
value_for_found _ i h = ground arith

parts-Agree :
    (ds : List Dimension) (i j : RateLimitIdentity) → Agree ds i j → parts ds i ≡ parts ds j
unfolding parts
parts-Agree [] i j a = refl
parts-Agree (d ∷ ds) i j a = rw (value_for_agree d i j a.0, parts-Agree ds i j a.1)

parts_cons :
    (d : Dimension) (ds : List Dimension) (i : RateLimitIdentity) {ps : List String}
    → parts (d ∷ ds) i ≡ ok ps
    → (v : String) × (rest : List String) × (value_for i d ≡ ok v)
      × (parts ds i ≡ ok rest)
      × (ps ≡ (dimension_name d <> ("=" <> v)) ∷ rest)
unfolding parts
parts_cons d ds i {ps} h = go (value_for i d) (parts ds i) refl refl
  where
    go :
        (x : Result String) (y : Result (List String))
        → value_for i d ≡ x
        → parts ds i ≡ y
        → (v : String) × (rest : List String) × (value_for i d ≡ ok v)
          × (parts ds i ≡ ok rest)
          × (ps ≡ (dimension_name d <> ("=" <> v)) ∷ rest)
    go (ok v) (ok rest) ex ey = (v, rest, ex, ey, ground arith)
    go (ok v) (err e) ex ey = ground arith
    go (err e) _ ex ey = ground arith

parts_injective :
    (ds : List Dimension) (i j : RateLimitIdentity) {ps : List String}
    → parts ds i ≡ ok ps
    → parts ds j ≡ ok ps
    → Agree ds i j
parts_injective [] i j p q = tt
parts_injective (d ∷ ds) i j p q =
    let (v, vs, v_i, vs_i, e_i) = parts_cons d ds i p in
    let (w, ws, w_j, ws_j, e_j) = parts_cons d ds j q in
    let both : (dimension_name d <> ("=" <> v)) ∷ vs ≡ (dimension_name d <> ("=" <> w)) ∷ ws =
      sym e_i ∙ e_j in
    let same : v ≡ w =
      append_cancel_left "=" v w
        (append_cancel_left (dimension_name d) ("=" <> v) ("=" <> w) (cc both)) in
    let rest : vs ≡ ws = cc both in
    (
      value_for_found d i v_i ∙ (ap some same ∙ sym (value_for_found d j w_j)),
      parts_injective ds i j vs_i (ws_j ∙ ap ok (sym rest)),
    )

-- Under one rule, an identity is counted under another's key exactly when the two have the same
-- value in each dimension of the rule.
pub key_for_iff :
    (r : RateLimitRule) (i j : RateLimitIdentity) {key : String}
    → key_for r i ≡ ok key
    → (key_for r j ≡ ok key) ↔ Agree r.dimensions i j
key_for_iff r i j {key} h = (apart, together)
  where
    apart : key_for r j ≡ ok key → Agree r.dimensions i j
    apart h' =
        let (ps, p, made) = key_for-parts r i h in
        let (qs, q, made') = key_for-parts r j h' in
        let (_, same) = cache_key_injective "rate" "rate" (r.name ∷ ps) (r.name ∷ qs) made made' in
        parts_injective r.dimensions i j p (q ∙ ap ok (sym (cc same)))

    together : Agree r.dimensions i j → key_for r j ≡ ok key
    together a = unfold key_for in rw (parts-Agree r.dimensions i j a) at h

-- The dimension stands in the list.
abbrev pub Has : Dimension → List Dimension → Type 0
Has d [] = ⊥
Has d (c ∷ cs) = (d ≡ c) ⊎ Has d cs

-- The call raises a validation error.
abbrev pub Rejects {ℓ} : {A : Type ℓ} → Result A → Type 0
Rejects (ok _) = ⊥
Rejects (err e) = e.error_code ≡ ErrorCode.validation_error

value_for_rejects :
    (d : Dimension) (i : RateLimitIdentity) {e : AppError}
    → value_for i d ≡ err e
    → e.error_code ≡ ErrorCode.validation_error
unfolding value_for
value_for_rejects Dimension.global i h = ground arith
value_for_rejects _ i h = ground arith

parts_rejects :
    (ds : List Dimension) (i : RateLimitIdentity) {e : AppError}
    → parts ds i ≡ err e
    → e.error_code ≡ ErrorCode.validation_error
unfolding parts
parts_rejects [] i h = ground arith
parts_rejects (d ∷ ds) i h = grind (arith, value_for_rejects, parts_rejects ds i)

colon_part :
    (d : Dimension) (v : String)
    → has_char b':' v ≡ true
    → has_char b':' (dimension_name d <> ("=" <> v)) ≡ true
colon_part d v h =
    ground (arith, has_char-append b':' (dimension_name d) ("=" <> v), has_char-append b':' "=" v)

any_invalid_second :
    (first second : String) (rest : List String)
    → has_char b':' second ≡ true
    → any_invalid first (second ∷ rest) ≡ true
unfolding any_invalid invalid_segment
any_invalid_second first second [] h = ground arith
any_invalid_second first second (t ∷ rest) h = ground arith

any_invalid_later :
    (first second : String) (rest : List String)
    → ((f : String) → any_invalid f rest ≡ true)
    → any_invalid first (second ∷ rest) ≡ true
unfolding any_invalid
any_invalid_later first second rest h = ground (arith, h second)

parts_colon :
    (ds : List Dimension) (i : RateLimitIdentity) (d : Dimension) (v first : String)
    {ps : List String}
    → Has d ds
    → attribute i d ≡ some v
    → has_char b':' v ≡ true
    → parts ds i ≡ ok ps
    → any_invalid first ps ≡ true
unfolding any_invalid invalid_segment
parts_colon [] i d v first m a h p = absurd m
parts_colon (c ∷ cs) i d v first (inl e) a h p =
    let (w, rest, w_c, _, shape) = parts_cons c cs i p in
    let same : w ≡ v = cc (value_for_found c i w_c, ap (attribute i) e, a) in
    rw shape
      (any_invalid_second first (dimension_name c <> ("=" <> w)) rest (colon_part c w (rw same h)))
parts_colon (c ∷ cs) i d v first (inr m) a h p =
    let (w, rest, w_c, p', shape) = parts_cons c cs i p in
    rw shape (ground (arith, parts_colon cs i d v (dimension_name c <> ("=" <> w)) m a h p'))

-- A value with a colon in one of the rule's dimensions makes `key_for` raise a validation error.
pub key_for_colon :
    (r : RateLimitRule) (i : RateLimitIdentity) (d : Dimension) (v : String)
    → Has d r.dimensions
    → attribute i d ≡ some v
    → has_char b':' v ≡ true
    → Rejects (key_for r i)
key_for_colon r i d v m a h = go (parts r.dimensions i) refl
  where
    go : (o : Result (List String)) → parts r.dimensions i ≡ o → Rejects (key_for r i)
    go (ok ps) e =
        unfold key_for cache_key any_invalid in
        rw e (
          rw (any_invalid_later "rate" r.name ps (λ f. parts_colon r.dimensions i d v f m a h e))
            refl)
    go (err x) e = unfold key_for in rw e (parts_rejects r.dimensions i e)
