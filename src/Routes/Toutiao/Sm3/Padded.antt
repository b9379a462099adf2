-- ===== src/Routes/Toutiao/Sm3/Padded.antt =====
-- The padding of SM3 in routes/toutiao/abogus.go ends, and the hash has 32 bytes.
use syndi.Common.{
  ℕ, zero, suc, ◌+◌, ◌-◌, ◌*◌, ◌/◌, ◌%◌, ◌^◌, ◌<◌, ◌≡◌, refl, ap, arith, List, [], ◌∷◌, ◌++◌, some,
  length, length-append, inl, inr, Bool-cases, All, All-append, ◌==◌,
}
use mathlib.Core.List.{append-nil, append_assoc}
use syndi.Routes.Toutiao.Base64.Decoded.{IsByte}
use syndi.Routes.Toutiao.Sm3.{
  Registers, sm3_iv, pad_zeros, big_endian, padded, compress_blocks, register_bytes, sm3_sum,
}

unfoldable pub zeros : ℕ → List ℕ
zeros zero = []
zeros (suc n) = 0 ∷ zeros n

length-zeros : (n : ℕ) → length (zeros n) ≡ n
unfolding zeros
length-zeros zero = refl
length-zeros (suc n) = ap suc (length-zeros n)

-- Zeros follow `p` up to a length that leaves 56 by 64.
pad_zeros-zeros :
    (fuel : ℕ) (p : List ℕ)
    → (120 - length p % 64) % 64 < fuel
    → (z : ℕ) × (z < fuel) × (pad_zeros fuel p ≡ some (p ++ zeros z)) × ((length p + z) % 64 ≡ 56)
unfolding pad_zeros zeros
pad_zeros-zeros zero p h = absurd (omega arith)
pad_zeros-zeros (suc fuel) p h = elim (Bool-cases (length p % 64 == 56)) [
  | inl e ↦ (0, omega arith, rw (e, append-nil p) refl, ground (arith, e))
  | inr e ↦
      let longer = length-append p (0 ∷ []) in
      let (z, small, ends, leaves) =
        pad_zeros-zeros fuel (p ++ 0 ∷ []) (ground (arith, e, longer)) in
      (
        suc z,
        omega arith,
        rw (e, ends, append_assoc p (0 ∷ []) (zeros z)) refl,
        omega (arith, leaves, longer),
      )
]

-- The message, a bit, fewer than 64 zeros and the number of bits make up whole blocks.
padded-blocks :
    (msg : List ℕ)
    → (z : ℕ) × (z < 64)
      × (padded msg ≡ some ((msg ++ 128 ∷ zeros z) ++ big_endian 8 ((length msg * 8) % 2 ^ 64)))
      × ((length msg + 1 + z + 8) % 64 ≡ 0)
unfolding padded
padded-blocks msg =
    let longer = length-append msg (128 ∷ []) in
    let (z, small, ends, leaves) = pad_zeros-zeros 64 (msg ++ 128 ∷ []) (omega arith) in
    (z, small, rw (ends, append_assoc msg (128 ∷ []) (zeros z)) refl, omega (arith, leaves, longer))

big_endian-All : (bytes n : ℕ) → All IsByte (big_endian bytes n)
unfolding big_endian
big_endian-All zero n = tt
big_endian-All (suc bytes) n = (omega arith, big_endian-All bytes n)

length-big_endian : (bytes n : ℕ) → length (big_endian bytes n) ≡ bytes
unfolding big_endian
length-big_endian zero n = refl
length-big_endian (suc bytes) n = ap suc (length-big_endian bytes n)

length-register_bytes : (v : Registers) → length (register_bytes v) ≡ 32
unfolding big_endian
length-register_bytes v = refl

-- Four bytes before other bytes.
prepend : (n : ℕ) (rest : List ℕ) → All IsByte rest → All IsByte (big_endian 4 n ++ rest)
prepend n rest h = All-append IsByte (big_endian 4 n) rest (big_endian-All 4 n) h

register_bytes-All : (v : Registers) → All IsByte (register_bytes v)
register_bytes-All v = prepend v.a _ (
    prepend v.b _ (
      prepend v.c _
        (prepend v.d _ (prepend v.e _ (prepend v.f _ (prepend v.g _ (big_endian-All 4 v.h)))))))

-- The padding is the message, the byte 128, fewer than 64 zeros and the number of bits in eight bytes,
-- and makes up whole blocks; every message has a hash, which is 32 bytes.
pub sm3_sum-bytes :
    (msg : List ℕ)
    → (z : ℕ) × (z < 64)
      × (padded msg ≡ some ((msg ++ 128 ∷ zeros z) ++ big_endian 8 ((length msg * 8) % 2 ^ 64)))
      × ((length msg + 1 + z + 8) % 64 ≡ 0)
      × ((hash : List ℕ) × (sm3_sum msg ≡ some hash) × (length hash ≡ 32) × All IsByte hash)
unfolding sm3_sum
sm3_sum-bytes msg =
    let (z, small, ends, whole) = padded-blocks msg in
    let p = (msg ++ 128 ∷ zeros z) ++ big_endian 8 ((length msg * 8) % 2 ^ 64) in
    let v = compress_blocks ((length p + 63) / 64) sm3_iv p in
    (
      z,
      small,
      ends,
      whole,
      (register_bytes v, rw ends refl, length-register_bytes v, register_bytes-All v),
    )
