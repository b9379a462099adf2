-- ===== src/Routeutils/Caching/Keys.antt =====
-- The keys of internal/routeutils/cache.go.
use mathlib.Core.List.{append_assoc, append-nil}
use syndi.Common.{
  ◌≡◌, refl, sym, ◌∙◌, false, not, List, [], ◌∷◌, ◌++◌, Text, codes, is_empty, keep_if,
}
use syndi.Routeutils.Caching.{key_loop, generate_cache_key}

-- The texts, each after a colon.
abbrev pub after_colons : List Text → Text
after_colons [] = []
after_colons (p ∷ ps) = codes ":" ++ (p ++ after_colons ps)

-- The texts with colons between them.
abbrev pub join : List Text → Text
join [] = []
join (p ∷ ps) = p ++ after_colons ps

is_empty-append : (s t : Text) → is_empty s ≡ false → is_empty (s ++ t) ≡ false
is_empty-append [] t h = absurd (cc)
is_empty-append (c ∷ s) t h = refl

key_loop-after_colons :
    (key : Text) (parts : List Text)
    → is_empty key ≡ false
    → key_loop key parts ≡ key ++ after_colons (keep_if (λ p. not (is_empty p)) parts)
unfolding key_loop
key_loop-after_colons key [] h = sym (append-nil key)
key_loop-after_colons key ([] ∷ parts) h = key_loop-after_colons key parts h
key_loop-after_colons key ((c ∷ p) ∷ parts) h =
    rw (h, key_loop)
      (key_loop-after_colons (key ++ (codes ":" ++ (c ∷ p))) parts (is_empty-append key _ h)
        ∙ append_assoc key (codes ":" ++ (c ∷ p))
            (after_colons (keep_if (λ q. not (is_empty q)) parts)))

-- A key is made of the parts that are not empty, with colons between them.
pub generate_cache_key-join :
    (parts : List Text) → generate_cache_key parts ≡ join (keep_if (λ p. not (is_empty p)) parts)
unfolding generate_cache_key key_loop
generate_cache_key-join [] = refl
generate_cache_key-join ([] ∷ parts) = generate_cache_key-join parts
generate_cache_key-join ((c ∷ p) ∷ parts) = key_loop-after_colons (c ∷ p) parts refl
