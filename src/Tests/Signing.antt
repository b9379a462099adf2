-- ===== src/Tests/Signing.antt =====
-- Tokens and hashes of requests, by routes/toutiao and routes/qq.
use syndi.Common.{
  ◌≡◌, refl, ◌<◌, ◌⊎◌, ◌+◌, ◌-◌, ◌*◌, ◌/◌, ◌%◌, ◌^◌, ◌≢◌, ℕ, List, [], ◌∷◌, ◌++◌, some, Text, codes,
  length, take, map, All, arith, pos, ok, err, ◌≤◌,
}
use syndi.Golang.Numbers.{decimal}
use syndi.Models.{Feed, Time}
use syndi.Routes.Toutiao.Base64.{
  alphabet_s3, alphabet_s4, ab_encode, encode_loop, sextet, code_point, group,
}
use syndi.Routes.Toutiao.Base64.Decoded.{IsByte, value, decode}
use syndi.Routes.Toutiao.Rc4.{rc4_encrypt_cp, schedule, cipher_loop, identity}
use syndi.Routes.Toutiao.Sm3.{
  sm3_sum, compress_blocks, padded, big_endian, pad_zeros, sm3_compress, xor_registers, rounds,
  sm3_round, choose_abc, choose_efg, expand, block_words, sm3_p0, sm3_p1, rotl32,
}
use syndi.Routes.Toutiao.Sm3.Padded.{zeros, sm3_sum-bytes}
use syndi.Routes.Toutiao.Signature.{ab_random_str, ab_build_bb, generate_a_bogus}
use syndi.Routes.Toutiao.Signature.Recovered.{generate_a_bogus-recovered, user_agent-recovered}
use syndi.Routes.Qq.Token.{
  pkcs7_pad, repeat, derive_key_iv, last, pkcs7_pad-last, derive_key_iv-ends,
}
use syndi.Routes.Qq.Articles.{FactItem, usable, qq_fact_handler, qq_fact_handler-usable}

-- The example of the standard.
sm3_test :
    sm3_sum (codes "abc")
    ≡ some (
        0x66 ∷ 0xc7 ∷ 0xf0 ∷ 0xf4 ∷ 0x62 ∷ 0xee ∷ 0xed ∷ 0xd9 ∷ 0xd1 ∷ 0xf2 ∷ 0xd4 ∷ 0x6b ∷ 0xdc
        ∷ 0x10 ∷ 0xe4 ∷ 0xe2 ∷ 0x41 ∷ 0x67 ∷ 0xc4 ∷ 0x87 ∷ 0x5c ∷ 0xf2 ∷ 0xf7 ∷ 0xa2 ∷ 0x29 ∷ 0x7d
        ∷ 0xa0 ∷ 0x2b ∷ 0x8f ∷ 0x4b ∷ 0xa8 ∷ 0xe0 ∷ [])
unfolding sm3_sum compress_blocks padded big_endian pad_zeros sm3_compress xor_registers rounds
    sm3_round choose_abc choose_efg expand block_words sm3_p0 sm3_p1 rotl32
sm3_test = refl

sm3_sum-bytes_example :
    (z : ℕ) × (z < 64)
    × (padded (codes "abc")
        ≡ some
            ((codes "abc" ++ 128 ∷ zeros z) ++ big_endian 8 ((length (codes "abc") * 8) % 2 ^ 64)))
    × ((length (codes "abc") + 1 + z + 8) % 64 ≡ 0)
    × ((hash : List ℕ) × (sm3_sum (codes "abc") ≡ some hash) × (length hash ≡ 32) × All IsByte hash)
sm3_sum-bytes_example = sm3_sum-bytes (codes "abc")

-- The published example of the cipher, under the key "Key".
rc4_test :
    rc4_encrypt_cp (codes "Plaintext") (codes "Key")
    ≡ some (0xbb ∷ 0xf3 ∷ 0x16 ∷ 0xe8 ∷ 0xd9 ∷ 0x40 ∷ 0xaf ∷ 0x0a ∷ 0xd3 ∷ [])
unfolding rc4_encrypt_cp schedule cipher_loop identity
rc4_test = refl

encode_test :
    (ab_encode (codes "Man") alphabet_s3 ≡ codes "3Ihm")
    × (length (ab_encode (codes "Ma") alphabet_s3) ≡ 3)
unfolding ab_encode encode_loop sextet code_point group
encode_test = (refl, refl)

user_agent-recovered_example :
    (cipher : List ℕ) × (rc4_encrypt_cp (codes "curl") (0 ∷ 1 ∷ 14 ∷ []) ≡ some cipher)
    × (decode (map (value alphabet_s3) (ab_encode cipher alphabet_s3)) ≡ cipher)
    × (rc4_encrypt_cp cipher (0 ∷ 1 ∷ 14 ∷ []) ≡ some (codes "curl"))
user_agent-recovered_example = user_agent-recovered (codes "curl") (omega arith)

generate_a_bogus-recovered_example :
    (bb : List ℕ) × (body : List ℕ) × (token : Text) × (ab_build_bb 1760000000000 1760000000001
        (codes "a=1")
        (codes "curl")
      ≡ some bb)
    × (rc4_encrypt_cp body (121 ∷ []) ≡ some bb)
    × (token ≡ ab_encode (ab_random_str 1 2 3 ++ body) alphabet_s4 ++ codes "=")
    × (length token ≡ 164)
    × (generate_a_bogus 1760000000000 1760000000001 (1, 2, 3) (codes "a=1") (codes "curl")
        ≡ some token)
generate_a_bogus-recovered_example =
    generate_a_bogus-recovered 1760000000000 1760000000001 1 2 3 (codes "a=1") (codes "curl")

pad_test : pkcs7_pad (codes "abcde") 8 ≡ codes "abcde" ++ 3 ∷ 3 ∷ 3 ∷ []
unfolding pkcs7_pad repeat
pad_test = refl

pkcs7_pad-last_example :
    (length (pkcs7_pad (codes "abcde") 8) ≡ 8 * (length (codes "abcde") / 8 + 1))
    × (take
          (length (pkcs7_pad (codes "abcde") 8) - last (pkcs7_pad (codes "abcde") 8))
          (pkcs7_pad (codes "abcde") 8)
        ≡ codes "abcde")
pkcs7_pad-last_example = pkcs7_pad-last (codes "abcde") 8 (omega arith) (omega arith)

-- A hash of one byte.
abbrev short_hash : List ℕ → List ℕ
short_hash s = length s % 256 ∷ []

derive_key_iv-ends_example :
    (key : List ℕ) × (iv : List ℕ) × (derive_key_iv short_hash (codes "p") (codes "s")
      ≡ some (key, iv))
    × (length key ≡ 8)
    × (length iv ≡ 8)
derive_key_iv-ends_example =
    derive_key_iv-ends short_hash (codes "p") (codes "s") (λ s. omega arith)

abbrev date : Text → Time
date s = pos 1

abbrev article : Text → FactItem
article title = record {
  id = codes "7";
  title = title;
  explain = codes "x";
  result = [];
  date = [];
  abstract = codes "<a>";
  cover = codes "//c";
  tag = codes "t" ∷ [];
  author_name = codes "n";
  author_desc = codes "d";
}

abbrev articles : List FactItem
articles = article (codes "one") ∷ article [] ∷ article (codes "two") ∷ []

qq_fact_handler-usable_example :
    ((n : ℕ) × (feed : Feed) × (pos 0 ≡ pos 0)
      × (0 < n)
      × (n ≤ 30)
      × (qq_fact_handler date (codes "1") (ok (pos 0, articles)) ≡ ok feed)
      × (feed.items ≡ take n (usable date articles)))
    ⊎ ((pos 0 ≢ pos 0)
        × (qq_fact_handler date (codes "1") (ok (pos 0, articles))
            ≡ err (codes "qq fact api code " ++ decimal (pos 0))))
qq_fact_handler-usable_example = qq_fact_handler-usable date (codes "1") (pos 0) articles
