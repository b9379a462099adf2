-- ===== src/Routes/Toutiao/Sm3.antt =====
-- The hash SM3 of routes/toutiao/abogus.go. Words are numbers below 2 ^ 32.
pub mod Padded
use Prim.Native.Nat.{bit_and, bit_or, bit_xor}
use mathlib.Core.Option
use syndi.Common.{
  ℕ, zero, suc, ◌+◌, ◌-◌, ◌*◌, ◌/◌, ◌%◌, ◌^◌, List, [], ◌∷◌, ◌++◌, none, some, length, get_elem?,
  take, drop, ltb, Option, ◌==◌, if◌then◌else◌,
}

abbrev pub word : ℕ → ℕ
word x = x % 2 ^ 32

unfoldable pub rotl32 : ℕ → ℕ → ℕ
rotl32 x n = let n' = n % 32 in bit_or (word (x * 2 ^ n')) (x / 2 ^ (32 - n'))

unfoldable pub sm3_p0 : ℕ → ℕ
sm3_p0 x = bit_xor (bit_xor x (rotl32 x 9)) (rotl32 x 17)

unfoldable pub sm3_p1 : ℕ → ℕ
sm3_p1 x = bit_xor (bit_xor x (rotl32 x 15)) (rotl32 x 23)

abbrev pub at : List ℕ → ℕ → ℕ
at w i = elim (get_elem? w i) [ none ↦ 0 | some c ↦ c ]

-- The first 16 words, of four bytes each.
unfoldable pub block_words : List ℕ → List ℕ
block_words (a ∷ b ∷ c ∷ d ∷ block) =
    bit_or (bit_or (bit_or (a * 2 ^ 24) (b * 2 ^ 16)) (c * 2 ^ 8)) d ∷ block_words block
block_words _ = []

-- The words from `i` on; `left` are missing.
unfoldable pub expand : ℕ → ℕ → List ℕ → List ℕ
expand zero i w = w
expand (suc left) i w =
    let a = bit_xor (bit_xor (at w (i - 16)) (at w (i - 9))) (rotl32 (at w (i - 3)) 15) in
    let x = bit_xor (bit_xor (sm3_p1 a) (rotl32 (at w (i - 13)) 7)) (at w (i - 6)) in
    expand left (i + 1) (w ++ x ∷ [])

-- The registers.
pub record Registers : Type 0 where
  pub a : ℕ
  pub b : ℕ
  pub c : ℕ
  pub d : ℕ
  pub e : ℕ
  pub f : ℕ
  pub g : ℕ
  pub h : ℕ

abbrev pub sm3_iv : Registers
sm3_iv = record {
  a = 0x7380166f;
  b = 0x4914b2b9;
  c = 0x172442d7;
  d = 0xda8a0600;
  e = 0xa96f30bc;
  f = 0x163138aa;
  g = 0xe38dee4d;
  h = 0xb0fb0e4e;
}

-- The complement of a word.
abbrev pub complement : ℕ → ℕ
complement x = 4294967295 - x

unfoldable pub choose_abc : ℕ → Registers → ℕ
choose_abc j v =
    if ltb j 16
    then bit_xor (bit_xor v.a v.b) v.c
    else bit_or (bit_or (bit_and v.a v.b) (bit_and v.a v.c)) (bit_and v.b v.c)

unfoldable pub choose_efg : ℕ → Registers → ℕ
choose_efg j v =
    if ltb j 16
    then bit_xor (bit_xor v.e v.f) v.g
    else bit_or (bit_and v.e v.f) (bit_and (complement v.e) v.g)

-- One round, with the words w[j] and w1[j].
unfoldable pub sm3_round : ℕ → ℕ → ℕ → Registers → Registers
sm3_round j wj w1j v =
    let t = if ltb j 16 then 0x79cc4519 else 0x7a879d8a in
    let ss1 = rotl32 (word (rotl32 v.a 12 + v.e + rotl32 t j)) 7 in
    let ss2 = bit_xor ss1 (rotl32 v.a 12) in
    let tt1 = word (choose_abc j v + v.d + ss2 + w1j) in
    let tt2 = word (choose_efg j v + v.h + ss1 + wj) in
    record {
      a = tt1;
      b = v.a;
      c = rotl32 v.b 9;
      d = v.c;
      e = sm3_p0 tt2;
      f = v.e;
      g = rotl32 v.f 19;
      h = v.g;
    }

unfoldable pub rounds : ℕ → ℕ → List ℕ → Registers → Registers
rounds zero j w v = v
rounds (suc left) j w v =
    rounds left (j + 1) w (sm3_round j (at w j) (bit_xor (at w j) (at w (j + 4))) v)

unfoldable pub xor_registers : Registers → Registers → Registers
xor_registers v u = record {
  a = bit_xor v.a u.a;
  b = bit_xor v.b u.b;
  c = bit_xor v.c u.c;
  d = bit_xor v.d u.d;
  e = bit_xor v.e u.e;
  f = bit_xor v.f u.f;
  g = bit_xor v.g u.g;
  h = bit_xor v.h u.h;
}

unfoldable pub sm3_compress : Registers → List ℕ → Registers
sm3_compress v block = xor_registers v (rounds 64 0 (expand 52 16 (block_words block)) v)

-- The loop that appends zeros, on fuel.
unfoldable pub pad_zeros : ℕ → List ℕ → Option (List ℕ)
pad_zeros zero p = none
pad_zeros (suc fuel) p =
    let rest = pad_zeros fuel (p ++ 0 ∷ []) in if length p % 64 == 56 then some p else rest

-- The last bytes of a number, the most significant first.
unfoldable pub big_endian : ℕ → ℕ → List ℕ
big_endian zero n = []
big_endian (suc bytes) n = (n / 2 ^ (8 * bytes)) % 256 ∷ big_endian bytes n

-- At most 63 zeros are appended, and the loop ends by its test once more.
unfoldable pub padded : List ℕ → Option (List ℕ)
padded msg =
    Option.map (λ p. p ++ big_endian 8 ((length msg * 8) % 2 ^ 64)) (pad_zeros 64 (msg ++ 128 ∷ []))

-- The next `left` blocks of 64 bytes.
unfoldable pub compress_blocks : ℕ → Registers → List ℕ → Registers
compress_blocks zero v p = v
compress_blocks (suc left) v p = compress_blocks left (sm3_compress v (take 64 p)) (drop 64 p)

abbrev pub register_bytes : Registers → List ℕ
register_bytes v =
    big_endian 4 v.a
    ++ (big_endian 4 v.b
        ++ (big_endian 4 v.c
            ++ (big_endian 4 v.d
                ++ (big_endian 4 v.e
                    ++ (big_endian 4 v.f ++ (big_endian 4 v.g ++ big_endian 4 v.h))))))

unfoldable pub sm3_sum : List ℕ → Option (List ℕ)
sm3_sum msg =
    Option.map (λ p. register_bytes (compress_blocks ((length p + 63) / 64) sm3_iv p)) (padded msg)
