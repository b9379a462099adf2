-- ===== src/Routes/Toutiao/Base64/Decoded.antt =====
-- What abEncode writes is read back.
use Prim.Native.Nat.{bit_or}
use syndi.Common.{
  ℕ, zero, suc, ◌+◌, ◌*◌, ◌/◌, ◌%◌, ◌^◌, ◌<◌, ◌≡◌, refl, ap, ◌∙◌, arith, List, [], ◌∷◌, map, Text,
  length, none, some, Bool, true, ◌&&◌, ◌==◌, ==_iff, All,
}
use syndi.Golang.Bits.{bit_and-shift, bit_and_63, bit_or-shift}
use syndi.Golang.Strings.{index}
use syndi.Routes.Toutiao.Base64.{
  alphabet_s3, alphabet_s4, code_point, group, sextet, letter, enter, encode_loop, ab_encode,
}

abbrev pub IsByte : ℕ → Type 0
IsByte c = c < 256

sextet_lt : (i li : ℕ) → sextet i li < 64
unfolding sextet
sextet_lt i li = ground (
  arith,
  bit_and-shift 18 li 63,
  bit_and_63 (li / 2 ^ 18),
  bit_and-shift 12 li 63,
  bit_and_63 (li / 2 ^ 12),
  bit_and-shift 6 li 63,
  bit_and_63 (li / 2 ^ 6),
  bit_and_63 li,
)

group-bytes :
    (src : List ℕ) (r : ℕ)
    → IsByte (code_point src r)
    → IsByte (code_point src (r + 1))
    → IsByte (code_point src (r + 2))
    → group src r ≡ code_point src r * 65536 + code_point src (r + 1) * 256 + code_point src (r + 2)
unfolding group
group-bytes src r a b c =
    let first : bit_or (code_point src r * 2 ^ 16) (code_point src (r + 1) * 2 ^ 8)
        ≡ (code_point src r * 256 + code_point src (r + 1)) * 2 ^ 8 =
      omega (arith, bit_or-shift 16 (code_point src r) (code_point src (r + 1) * 2 ^ 8)) in
    rw first (
      omega (
        arith,
        bit_or-shift 8 (code_point src r * 256 + code_point src (r + 1)) (code_point src (r + 2)),
      ))

sextet-mod : (i k li : ℕ) → i % 4 ≡ k % 4 → sextet i li ≡ sextet k li
unfolding sextet
sextet-mod i k li h = rw h

-- The four characters' indices make up the group.
sextets :
    (li : ℕ)
    → li < 16777216
    → (sextet 0 li ≡ li / 262144)
      × (sextet 1 li ≡ li / 4096 % 64)
      × (sextet 2 li ≡ li / 64 % 64)
      × (sextet 3 li ≡ li % 64)
unfolding sextet
sextets li h = (
  omega (arith, bit_and-shift 18 li 63, bit_and_63 (li / 2 ^ 18)),
  omega (arith, bit_and-shift 12 li 63, bit_and_63 (li / 2 ^ 12)),
  omega (arith, bit_and-shift 6 li 63, bit_and_63 (li / 2 ^ 6)),
  omega (arith, bit_and_63 li),
)

-- The index of a character.
unfoldable pub value : Text → ℕ → ℕ
value alphabet c = elim (index alphabet c) [ none ↦ 0 | some k ↦ k ]

-- The bytes of groups of four indices, of which the last may lack one or two.
unfoldable pub decode : List ℕ → List ℕ
decode (a ∷ b ∷ c ∷ d ∷ s) = (a * 4 + b / 16) ∷ (b % 16 * 16 + c / 4) ∷ (c % 4 * 64 + d) ∷ decode s
decode (a ∷ b ∷ c ∷ []) = (a * 4 + b / 16) ∷ (b % 16 * 16 + c / 4) ∷ []
decode (a ∷ b ∷ []) = (a * 4 + b / 16) ∷ []
decode (a ∷ []) = []
decode [] = []

-- The characters of an alphabet differ.
abbrev pub IsAlphabet : Text → Type 0
IsAlphabet alphabet = (k : ℕ) → k < 64 → value alphabet (letter alphabet k) ≡ k

-- A test that holds at each index of the alphabet.
every : (ℕ → Bool) → ℕ → Bool
every test zero = true
every test (suc k) = test k && every test k

every-lt : (test : ℕ → Bool) (k i : ℕ) → i < k → every test k ≡ true → test i ≡ true
unfolding every
every-lt test zero i h e = elim h [ ]
every-lt test (suc k) i h e = ground (arith, every-lt test k i)

abbrev differs : Text → ℕ → Bool
differs alphabet k = value alphabet (letter alphabet k) == k

table_s3 : every (differs alphabet_s3) 64 ≡ true
unfolding every value index
table_s3 = refl

table_s4 : every (differs alphabet_s4) 64 ≡ true
unfolding every value index
table_s4 = refl

pub alphabet_s3-IsAlphabet : IsAlphabet alphabet_s3
alphabet_s3-IsAlphabet k h = (==_iff _ k).0 (every-lt (differs alphabet_s3) 64 k h table_s3)

pub alphabet_s4-IsAlphabet : IsAlphabet alphabet_s4
alphabet_s4-IsAlphabet k h = (==_iff _ k).0 (every-lt (differs alphabet_s4) 64 k h table_s4)

module _ (alphabet : Text) (distinct : IsAlphabet alphabet) (src : List ℕ) where
  abbrev loop : ℕ → ℕ → ℕ → ℕ → Text
  loop = encode_loop alphabet src

  enter_next : (r : ℕ) (li : ℕ) → enter src (suc r * 4) r li ≡ (suc r, group src (suc r * 3))
  enter_next r li =
      let e : r + 1 ≡ suc r = omega arith in ground (arith, ap (λ (t : ℕ). group src (t * 3)) e)

  stay : (i r li : ℕ) → i / 4 ≡ r → enter src i r li ≡ (r, li)
  stay i r li h = ground arith

  value-letter : (i li : ℕ) → value alphabet (letter alphabet (sextet i li)) ≡ sextet i li
  value-letter i li = distinct (sextet i li) (sextet_lt i li)

  -- One character.
  loop_step :
      (left i round li r g k : ℕ)
      → enter src i round li ≡ (r, g)
      → i % 4 ≡ k % 4
      → map (value alphabet) (loop (suc left) i round li)
        ≡ sextet k g ∷ map (value alphabet) (loop left (i + 1) r g)
  unfolding encode_loop
  loop_step left i round li r g k h e =
      rw (h, value-letter i g)
        (ap (λ (t : ℕ). t ∷ map (value alphabet) (loop left (i + 1) r g)) (sextet-mod i k g e))

  two :
      (left r round li g : ℕ)
      → enter src (r * 4) round li ≡ (r, g)
      → map (value alphabet) (loop (suc (suc left)) (r * 4) round li)
        ≡ sextet 0 g ∷ sextet 1 g ∷ map (value alphabet) (loop left (r * 4 + 1 + 1) r g)
  two left r round li g h = rw (loop_step (suc left) (r * 4) round li r g 0 h (omega arith)) (
      ap (λ t. sextet 0 g ∷ t)
        (loop_step left (r * 4 + 1) r g r g 1 (stay (r * 4 + 1) r g (omega arith)) (omega arith)))

  three :
      (left r round li g : ℕ)
      → enter src (r * 4) round li ≡ (r, g)
      → map (value alphabet) (loop (suc (suc (suc left))) (r * 4) round li)
        ≡ sextet 0 g
          ∷ sextet 1 g
          ∷ sextet 2 g
          ∷ map (value alphabet) (loop left (r * 4 + 1 + 1 + 1) r g)
  three left r round li g h =
      let at : r * 4 + 1 + 1 ≡ r * 4 + 2 = omega arith in
      rw (two (suc left) r round li g h) (
        ap (λ t. sextet 0 g ∷ sextet 1 g ∷ t)
          (loop_step left (r * 4 + 1 + 1) r g r g 2 (stay (r * 4 + 1 + 1) r g (omega arith))
            (omega arith)))

  four :
      (left r round li g : ℕ)
      → enter src (r * 4) round li ≡ (r, g)
      → map (value alphabet) (loop (suc (suc (suc (suc left)))) (r * 4) round li)
        ≡ sextet 0 g
          ∷ sextet 1 g
          ∷ sextet 2 g
          ∷ sextet 3 g
          ∷ map (value alphabet) (loop left (suc r * 4) r g)
  four left r round li g h =
      let next : r * 4 + 1 + 1 + 1 + 1 ≡ suc r * 4 = omega arith in
      rw (three (suc left) r round li g h, ← next)
        (ap (λ t. sextet 0 g ∷ sextet 1 g ∷ sextet 2 g ∷ t)
          (loop_step left (r * 4 + 1 + 1 + 1) r g r g 3 (stay (r * 4 + 1 + 1 + 1) r g (omega arith))
            (omega arith)))

  -- `rest` is the source from position `n` on.
  abbrev Begins : List ℕ → ℕ → Type 0
  Begins rest n = (j : ℕ) → code_point src (n + j) ≡ code_point rest j

  abbrev characters : List ℕ → ℕ
  characters rest = (length rest * 4 + 2) / 3

  group-Begins :
      (rest : List ℕ) (n a b c : ℕ)
      → Begins rest n
      → code_point rest 0 ≡ a
      → code_point rest 1 ≡ b
      → code_point rest 2 ≡ c
      → IsByte a
      → IsByte b
      → IsByte c
      → group src n ≡ a * 65536 + b * 256 + c
  group-Begins rest n a b c begins p q t x y z =
      let first : code_point src n ≡ a =
        ap (code_point src) (let e : n ≡ n + 0 = omega arith in e) ∙ begins 0 ∙ p in
      let second : code_point src (n + 1) ≡ b = begins 1 ∙ q in
      let third : code_point src (n + 2) ≡ c = begins 2 ∙ t in
      omega (arith, group-bytes src n (omega arith) (omega arith) (omega arith))

  Begins-later :
      (a b c r : ℕ) (rest : List ℕ) → Begins (a ∷ b ∷ c ∷ rest) (r * 3) → Begins rest (suc r * 3)
  unfolding code_point
  Begins-later a b c r rest begins j =
      ap (code_point src) (let e : suc r * 3 + j ≡ r * 3 + suc (suc (suc j)) = omega arith in e)
      ∙ begins (suc (suc (suc j)))

  no_loop : (i round li : ℕ) → loop 0 i round li ≡ []
  unfolding encode_loop
  no_loop i round li = refl

  loop-decode :
      (rest : List ℕ) (r round li : ℕ)
      → All IsByte rest
      → Begins rest (r * 3)
      → enter src (r * 4) round li ≡ (r, group src (r * 3))
      → decode (map (value alphabet) (loop (characters rest) (r * 4) round li)) ≡ rest
  unfolding decode code_point
  loop-decode [] r round li bytes begins h = rw (no_loop (r * 4) round li)
  loop-decode (a ∷ []) r round li bytes begins h =
      let g =
        group-Begins (a ∷ []) (r * 3) a 0 0 begins refl refl refl bytes.0 (omega arith)
          (omega arith) in
      let s = sextets (group src (r * 3)) (omega (arith, bytes.0)) in
      rw (two 0 r round li (group src (r * 3)) h, no_loop (r * 4 + 1 + 1) r (group src (r * 3)))
        (ground (arith, s, g, bytes.0))
  loop-decode (a ∷ b ∷ []) r round li bytes begins h =
      let g =
        group-Begins (a ∷ b ∷ []) (r * 3) a b 0 begins refl refl refl bytes.0 bytes.1.0
          (omega arith) in
      let s = sextets (group src (r * 3)) (omega (arith, bytes.0)) in
      rw
        (
          three 0 r round li (group src (r * 3)) h,
          no_loop (r * 4 + 1 + 1 + 1) r (group src (r * 3)),
        )
        (ground (arith, s, g, bytes.0))
  loop-decode (a ∷ b ∷ c ∷ rest) r round li bytes begins h =
      let g =
        group-Begins (a ∷ b ∷ c ∷ rest) (r * 3) a b c begins refl refl refl bytes.0 bytes.1.0
          bytes.1.1.0 in
      let s = sextets (group src (r * 3)) (omega arith) in
      let count : characters (a ∷ b ∷ c ∷ rest) ≡ suc (suc (suc (suc (characters rest)))) =
        omega arith in
      let later =
        loop-decode rest (suc r) r (group src (r * 3)) bytes.1.1.1
          (Begins-later a b c r rest begins) (enter_next r (group src (r * 3))) in
      rw (count, four (characters rest) r round li (group src (r * 3)) h)
        (ground (arith, s, g, later))

  -- What abEncode writes of bytes is read back as those bytes.
  pub decode-ab_encode :
      All IsByte src → decode (map (value alphabet) (ab_encode src alphabet)) ≡ src
  unfolding ab_encode
  decode-ab_encode bytes =
      loop-decode src 0 0 (group src 0) bytes (λ j. ap (code_point src) (omega arith))
        (stay 0 0 (group src 0) (omega arith))
