-- ===== src/Routes/Toutiao/Signature/Recovered.antt =====
-- Every request to toutiao.com gets a token, and what its hash of the user agent is made of is read
-- back.
use syndi.Common.{
  ℕ, zero, suc, ◌+◌, ◌*◌, ◌/◌, ◌≡◌, refl, ap, arith, List, [], ◌∷◌, ◌++◌, some, Text, codes, length,
  length-append, map, All,
}
use syndi.Routes.Toutiao.Base64.{alphabet_s3, alphabet_s4, encode_loop, ab_encode, group}
use syndi.Routes.Toutiao.Base64.Decoded.{
  IsByte, value, decode, alphabet_s3-IsAlphabet, decode-ab_encode,
}
use syndi.Routes.Toutiao.Rc4.{rc4_encrypt_cp, cipher_loop}
use syndi.Routes.Toutiao.Rc4.Decrypted.{rc4_encrypt_cp-rc4_encrypt_cp, rc4_encrypt_cp-All}
use syndi.Routes.Toutiao.Sm3.{sm3_sum}
use syndi.Routes.Toutiao.Sm3.Padded.{sm3_sum-bytes}
use syndi.Routes.Toutiao.Signature.{
  entries, lay_out, ab_random_str, ab_gener_random, ab_build_bb, generate_a_bogus,
}

length-encode_loop :
    (alphabet : Text) (src : List ℕ) (left i round li : ℕ)
    → length (encode_loop alphabet src left i round li) ≡ left
unfolding encode_loop
length-encode_loop alphabet src zero i round li = refl
length-encode_loop alphabet src (suc left) i round li =
    ap suc (length-encode_loop alphabet src left (i + 1) _ _)

length-ab_encode :
    (src : List ℕ) (alphabet : Text) → length (ab_encode src alphabet) ≡ (length src * 4 + 2) / 3
unfolding ab_encode
length-ab_encode src alphabet = length-encode_loop alphabet src _ 0 0 (group src 0)

length-cipher_loop :
    (plaintext : List ℕ) (i jj : ℕ) (s : List ℕ)
    → length (cipher_loop plaintext i jj s) ≡ length plaintext
unfolding cipher_loop
length-cipher_loop [] i jj s = refl
length-cipher_loop (p ∷ plaintext) i jj s = ap suc (length-cipher_loop plaintext _ _ _)

-- Under a key the cipher has a result, as long as the plaintext.
encrypted :
    (plaintext : List ℕ) (k : ℕ) (key : List ℕ)
    → (c : List ℕ) × (rc4_encrypt_cp plaintext (k ∷ key) ≡ some c) × (length c ≡ length plaintext)
unfolding rc4_encrypt_cp
encrypted plaintext k key = (_, refl, length-cipher_loop plaintext 0 0 _)

hashed : (msg : List ℕ) → (hash : List ℕ) × (sm3_sum msg ≡ some hash)
hashed msg = let (z, small, ends, whole, (hash, e, _, _)) = sm3_sum-bytes msg in (hash, e)

length-lay_out : (b : List (ℕ × ℕ)) → length (lay_out b) ≡ 110
unfolding lay_out
length-lay_out b = refl

built :
    (start_time end_time : ℕ) (params user_agent : Text)
    → (bb : List ℕ) × (ab_build_bb start_time end_time params user_agent ≡ some bb)
      × (length bb ≡ 110)
unfolding ab_build_bb
built start_time end_time params user_agent =
    let (inner, e) = hashed (params ++ codes "cus") in
    let (url, f) = hashed inner in
    let (cus_inner, g) = hashed (codes "cus") in
    let (cus, h) = hashed cus_inner in
    let (cipher, i, _) = encrypted user_agent 0 (1 ∷ 14 ∷ []) in
    let (digest, j) = hashed (ab_encode cipher alphabet_s3) in
    (
      lay_out (entries start_time end_time url cus digest),
      rw (e, f, g, h, i, j) refl,
      length-lay_out (entries start_time end_time url cus digest),
    )

-- Every request has a token, of 164 characters, made of a body of 110 code points that the cipher
-- recovers from the part after the random one.
pub generate_a_bogus-recovered :
    (start_time end_time r s t : ℕ) (params user_agent : Text)
    → (bb : List ℕ) × (body : List ℕ) × (token : Text) × (ab_build_bb start_time end_time params
          user_agent
        ≡ some bb)
      × (rc4_encrypt_cp body (121 ∷ []) ≡ some bb)
      × (token ≡ ab_encode (ab_random_str r s t ++ body) alphabet_s4 ++ codes "=")
      × (length token ≡ 164)
      × (generate_a_bogus start_time end_time (r, s, t) params user_agent ≡ some token)
unfolding generate_a_bogus ab_random_str ab_gener_random
generate_a_bogus-recovered start_time end_time r s t params user_agent =
    let (bb, e, long) = built start_time end_time params user_agent in
    let (body, f, same) = encrypted bb 121 [] in
    let src = ab_random_str r s t ++ body in
    let count : length (ab_encode src alphabet_s4) ≡ 163 =
      omega (arith, length-ab_encode src alphabet_s4, long, same) in
    (
      bb,
      body,
      ab_encode src alphabet_s4 ++ codes "=",
      e,
      rc4_encrypt_cp-rc4_encrypt_cp bb (121 ∷ []) body f,
      refl,
      omega (arith, length-append (ab_encode src alphabet_s4) (codes "="), count),
      rw (e, f) refl,
    )

-- The user agent is recovered from the text that is hashed for it: the text decodes to a ciphertext, of
-- bytes where the user agent is, that the cipher turns back.
pub user_agent-recovered :
    (user_agent : Text)
    → All IsByte user_agent
    → (cipher : List ℕ) × (rc4_encrypt_cp user_agent (0 ∷ 1 ∷ 14 ∷ []) ≡ some cipher)
      × (decode (map (value alphabet_s3) (ab_encode cipher alphabet_s3)) ≡ cipher)
      × (rc4_encrypt_cp cipher (0 ∷ 1 ∷ 14 ∷ []) ≡ some user_agent)
user_agent-recovered user_agent bytes =
    let (cipher, e, _) = encrypted user_agent 0 (1 ∷ 14 ∷ []) in
    let is_cipher = rc4_encrypt_cp-All user_agent (0 ∷ 1 ∷ 14 ∷ []) cipher e bytes in
    (
      cipher,
      e,
      decode-ab_encode alphabet_s3 alphabet_s3-IsAlphabet cipher is_cipher,
      rc4_encrypt_cp-rc4_encrypt_cp user_agent (0 ∷ 1 ∷ 14 ∷ []) cipher e,
    )
