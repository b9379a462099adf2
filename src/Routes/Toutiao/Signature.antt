-- ===== src/Routes/Toutiao/Signature.antt =====
-- The token of routes/toutiao/abogus.go. The clock, read twice, and the three random numbers are
-- arguments. The results of the hash and of the cipher are options, as those are.
pub mod Recovered
use Prim.Native.Nat.{bit_and, bit_or, bit_xor}
use syndi.Common.{
  ℕ, zero, suc, ◌+◌, ◌*◌, ◌/◌, ◌%◌, ◌^◌, List, [], ◌∷◌, ◌++◌, Option, none, some, Text, codes,
  length, map, ◌==◌, if◌then◌else◌,
}
use syndi.Routes.Toutiao.Base64.{ab_encode, alphabet_s3, alphabet_s4}
use syndi.Routes.Toutiao.Rc4.{at, rc4_encrypt_cp}
use syndi.Routes.Toutiao.Sm3.{sm3_sum}

infixl 5 ◌>>=◌
abbrev pub ◌>>=◌ : Option (List ℕ) → (List ℕ → Option (List ℕ)) → Option (List ℕ)
◌>>=◌ none next = none
◌>>=◌ (some v) next = next v

unfoldable pub ab_gener_random : ℕ → ℕ → ℕ → List ℕ
ab_gener_random random opt0 opt1 =
    bit_or (bit_and (bit_and random 255) 170) (bit_and opt0 85)
    ∷ bit_or (bit_and (bit_and random 255) 85) (bit_and opt0 170)
    ∷ bit_or (bit_and (bit_and (random / 2 ^ 8) 255) 170) (bit_and opt1 85)
    ∷ bit_or (bit_and (bit_and (random / 2 ^ 8) 255) 85) (bit_and opt1 170)
    ∷ []

unfoldable pub ab_random_str : ℕ → ℕ → ℕ → List ℕ
ab_random_str r s t = ab_gener_random r 3 45 ++ (ab_gener_random s 1 0 ++ ab_gener_random t 1 5)

abbrev pub window_env : Text
window_env = codes "1536|747|1536|834|0|30|0|0|1536|834|1536|864|1525|747|24|24|Win32"

-- The byte of a 32-bit number that stands `k` bits up.
abbrev pub byte_at : ℕ → ℕ → ℕ
byte_at n k = (n / 2 ^ k) % 256

-- The map b: its entries by index, the two times, and the two hashes and the digest.
abbrev pub entries : ℕ → ℕ → List ℕ → List ℕ → List ℕ → List (ℕ × ℕ)
entries start_time end_time url_params_list cus ua_digest =
    (8, 3)
    ∷ (18, 44)
    ∷ (20, byte_at start_time 24)
    ∷ (21, byte_at start_time 16)
    ∷ (22, byte_at start_time 8)
    ∷ (23, byte_at start_time 0)
    ∷ (24, start_time / 2 ^ 32)
    ∷ (25, start_time / 2 ^ 40)
    ∷ (26, 0 / 2 ^ 24)
    ∷ (27, byte_at 0 16)
    ∷ (28, byte_at 0 8)
    ∷ (29, byte_at 0 0)
    ∷ (30, byte_at 1 8)
    ∷ (31, byte_at 1 0)
    ∷ (32, 1 / 2 ^ 24)
    ∷ (33, byte_at 1 16)
    ∷ (34, 14 / 2 ^ 24)
    ∷ (35, byte_at 14 16)
    ∷ (36, byte_at 14 8)
    ∷ (37, byte_at 14 0)
    ∷ (38, at url_params_list 21)
    ∷ (39, at url_params_list 22)
    ∷ (40, at cus 21)
    ∷ (41, at cus 22)
    ∷ (42, at ua_digest 23)
    ∷ (43, at ua_digest 24)
    ∷ (44, byte_at end_time 24)
    ∷ (45, byte_at end_time 16)
    ∷ (46, byte_at end_time 8)
    ∷ (47, byte_at end_time 0)
    ∷ (48, 3)
    ∷ (49, end_time / 2 ^ 32)
    ∷ (50, end_time / 2 ^ 40)
    ∷ (52, 6241 / 2 ^ 24)
    ∷ (53, byte_at 6241 16)
    ∷ (54, byte_at 6241 8)
    ∷ (55, byte_at 6241 0)
    ∷ (57, byte_at 6383 0)
    ∷ (58, byte_at 6383 8)
    ∷ (59, byte_at 6383 16)
    ∷ (60, 6383 / 2 ^ 24)
    ∷ (64, length window_env)
    ∷ (65, length window_env % 256)
    ∷ (66, length window_env / 2 ^ 8)
    ∷ []

-- A missing index reads as zero.
unfoldable pub entry : List (ℕ × ℕ) → ℕ → ℕ
entry [] i = 0
entry ((j, v) ∷ b) i = let later = entry b i in if i == j then v else later

abbrev pub checked_indices : List ℕ
checked_indices =
    18 ∷ 20 ∷ 26 ∷ 30 ∷ 38 ∷ 40 ∷ 42 ∷ 21 ∷ 27 ∷ 31 ∷ 35 ∷ 39 ∷ 41 ∷ 43 ∷ 22 ∷ 28 ∷ 32 ∷ 36 ∷ 23
    ∷ 29 ∷ 33 ∷ 37 ∷ 44 ∷ 45 ∷ 46 ∷ 47 ∷ 48 ∷ 49 ∷ 50 ∷ 24 ∷ 25 ∷ 52 ∷ 53 ∷ 54 ∷ 55 ∷ 57 ∷ 58 ∷ 59
    ∷ 60 ∷ 65 ∷ 66 ∷ 70 ∷ 71 ∷ []

abbrev pub order : List ℕ
order =
    18 ∷ 20 ∷ 52 ∷ 26 ∷ 30 ∷ 34 ∷ 58 ∷ 38 ∷ 40 ∷ 53 ∷ 42 ∷ 21 ∷ 27 ∷ 54 ∷ 55 ∷ 31 ∷ 35 ∷ 57 ∷ 39
    ∷ 41 ∷ 43 ∷ 22 ∷ 28 ∷ 32 ∷ 60 ∷ 36 ∷ 23 ∷ 29 ∷ 33 ∷ 37 ∷ 44 ∷ 45 ∷ 59 ∷ 46 ∷ 47 ∷ 48 ∷ 49 ∷ 50
    ∷ 24 ∷ 25 ∷ 65 ∷ 66 ∷ 70 ∷ 71 ∷ []

unfoldable pub checksum : List ℕ → ℕ → ℕ
checksum [] sum = sum
checksum (v ∷ vs) sum = checksum vs (bit_xor sum v)

unfoldable pub lay_out : List (ℕ × ℕ) → List ℕ
lay_out b = map (entry b) order ++ (window_env ++ checksum (map (entry b) checked_indices) 0 ∷ [])

-- The texts are ASCII, each of whose characters is a byte.
unfoldable pub ab_build_bb : ℕ → ℕ → Text → Text → Option (List ℕ)
ab_build_bb start_time end_time url_search_params user_agent =
    sm3_sum (url_search_params ++ codes "cus") >>= λ inner. sm3_sum inner >>= λ url_params_list.
    sm3_sum (codes "cus") >>= λ cus_inner. sm3_sum cus_inner >>= λ cus.
    rc4_encrypt_cp user_agent (0 ∷ 1 ∷ 14 ∷ []) >>= λ ua_cipher.
    sm3_sum (ab_encode ua_cipher alphabet_s3) >>= λ ua_digest.
    some (lay_out (entries start_time end_time url_params_list cus ua_digest))

unfoldable pub generate_a_bogus : ℕ → ℕ → ℕ × ℕ × ℕ → Text → Text → Option Text
generate_a_bogus start_time end_time (r, s, t) url_search_params user_agent =
    ab_build_bb start_time end_time url_search_params user_agent >>= λ bb.
    rc4_encrypt_cp bb (121 ∷ []) >>= λ body.
    some (ab_encode (ab_random_str r s t ++ body) alphabet_s4 ++ codes "=")
