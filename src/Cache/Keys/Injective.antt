-- ===== src/Cache/Keys/Injective.antt =====
-- src/core/cache/keys.py: a key determines its segments, since it can be split again.
use Prim.Native.Char.{Char, code}
use Prim.Native.String.{◌++◌ as ◌<>◌}
use text.Mathlib.TextLemmas.{nil-append, cons-append}
use fastapi_foundation.Base.{
  String, ◌≡◌, refl, sym, ap, ◌∙◌, false, List, [], ◌∷◌, if◌then◌else◌, eqb, has_char, ok, arith,
}
use fastapi_foundation.Cache.Keys.{colon, join, invalid_segment, any_invalid, cache_key}

push : Char → List String → List String
push c [] = String.◌∷◌ c String.[] ∷ []
push c (s ∷ rest) = String.◌∷◌ c s ∷ rest

-- `key.split(":")`
split : String → List String
unfolding push
split String.[] = "" ∷ []
split (String.◌∷◌ c s) = let rest = split s in if eqb (code c) b':' then "" ∷ rest else push c rest

split_plain : (s : String) → has_char b':' s ≡ false → split s ≡ s ∷ []
unfolding split has_char
split_plain String.[] h = refl
split_plain (String.◌∷◌ c s) h = ground (arith, split_plain s)

split-colon : (t : String) → split (colon <> t) ≡ "" ∷ split t
unfolding split
split-colon t = rw (cons-append, nil-append)

split_join : (s t : String) → has_char b':' s ≡ false → split (s <> (colon <> t)) ≡ s ∷ split t
unfolding split has_char
split_join String.[] t h = rw nil-append (rw (split-colon t))
split_join (String.◌∷◌ c s) t h = rw (cons-append c s (colon <> t)) (ground (arith, split_join s t))

split-join :
    (first : String) (rest : List String)
    → any_invalid first rest ≡ false
    → split (join first rest) ≡ first ∷ rest
unfolding join any_invalid invalid_segment
split-join first [] h = split_plain first (ground arith)
split-join first (next ∷ rest) h =
    rw (split_join first (join next rest) (ground arith))
      (ap (◌∷◌ first) (split-join next rest (ground arith)))

made :
    (m : String) (ps : List String) {key : String}
    → cache_key m ps ≡ ok key
    → (any_invalid m ps ≡ false) × (join m ps ≡ key)
unfolding cache_key
made m ps h = ground arith

-- Whatever was made a key can be read back, so that two calls of `cache_key` give one key only
-- for one namespace and the same parts.
pub cache_key_injective :
    (m n : String) (ps qs : List String) {key : String}
    → cache_key m ps ≡ ok key
    → cache_key n qs ≡ ok key
    → (m ≡ n) × (ps ≡ qs)
unfolding cache_key
cache_key_injective m n ps qs {key} p q =
    let segments : m ∷ ps ≡ n ∷ qs =
      sym (split-join m ps (made m ps p).0)
      ∙ (ap split ((made m ps p).1 ∙ sym (made n qs q).1) ∙ split-join n qs (made n qs q).0) in
    (cc segments, cc segments)
