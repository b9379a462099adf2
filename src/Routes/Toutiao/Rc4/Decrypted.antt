-- ===== src/Routes/Toutiao/Rc4/Decrypted.antt =====
-- The cipher of routes/toutiao/abogus.go is undone by itself, and turns bytes into bytes.
use syndi.Common.{ℕ, zero, suc, ◌+◌, ◌%◌, ◌<◌, ◌≡◌, refl, ap, arith, List, [], ◌∷◌, some, set, All}
use syndi.Golang.Bits.{bit_xor_cancel, bit_xor_lt}
use syndi.Routes.Toutiao.Base64.Decoded.{IsByte}
use syndi.Routes.Toutiao.Rc4.{at, swap, identity, schedule, cipher_loop, rc4_encrypt_cp}

cipher_loop-cipher_loop :
    (plaintext : List ℕ) (i jj : ℕ) (s : List ℕ)
    → cipher_loop (cipher_loop plaintext i jj s) i jj s ≡ plaintext
unfolding cipher_loop
cipher_loop-cipher_loop [] i jj s = refl
cipher_loop-cipher_loop (p ∷ plaintext) i jj s =
    let i' = (i + 1) % 256 in
    let jj' = (jj + at s i') % 256 in
    rw (bit_xor_cancel _ p)
      (ap (λ t. p ∷ t) (cipher_loop-cipher_loop plaintext i' jj' (swap s i' jj')))

at-All : (s : List ℕ) (i : ℕ) → All IsByte s → IsByte (at s i)
at-All [] i h = omega arith
at-All (c ∷ s) zero h = h.0
at-All (c ∷ s) (suc i) h = at-All s i h.1

set-All : (s : List ℕ) (i c : ℕ) → IsByte c → All IsByte s → All IsByte (set s i c)
set-All [] i c b h = tt
set-All (d ∷ s) zero c b h = (b, h.1)
set-All (d ∷ s) (suc i) c b h = (h.0, set-All s i c b h.1)

swap-All : (s : List ℕ) (i j : ℕ) → All IsByte s → All IsByte (swap s i j)
swap-All s i j h =
    set-All (set s i (at s j)) j (at s i) (at-All s i h) (set-All s i (at s j) (at-All s j h) h)

schedule-All :
    (key : List ℕ) (left i j : ℕ) (s : List ℕ) → All IsByte s → All IsByte (schedule key left i j s)
unfolding schedule
schedule-All key zero i j s h = h
schedule-All key (suc left) i j s h =
    schedule-All key left (i + 1) _ (swap s i _) (swap-All s i _ h)

identity-All : (left i : ℕ) → left + i < 257 → All IsByte (identity left i)
unfolding identity
identity-All zero i h = tt
identity-All (suc left) i h = (omega arith, identity-All left (i + 1) (omega arith))

cipher_loop-All :
    (plaintext : List ℕ) (i jj : ℕ) (s : List ℕ)
    → All IsByte s
    → All IsByte plaintext
    → All IsByte (cipher_loop plaintext i jj s)
unfolding cipher_loop
cipher_loop-All [] i jj s h b = tt
cipher_loop-All (p ∷ plaintext) i jj s h b = (
  bit_xor_lt 8 _ p (at-All _ _ (swap-All s _ _ h)) b.0,
  cipher_loop-All plaintext _ _ _ (swap-All s _ _ h) b.1,
)

-- The cipher undoes itself under the same key, whatever the code points.
pub rc4_encrypt_cp-rc4_encrypt_cp :
    (plaintext key ciphertext : List ℕ)
    → rc4_encrypt_cp plaintext key ≡ some ciphertext
    → rc4_encrypt_cp ciphertext key ≡ some plaintext
unfolding rc4_encrypt_cp
rc4_encrypt_cp-rc4_encrypt_cp plaintext [] ciphertext e = cc
rc4_encrypt_cp-rc4_encrypt_cp plaintext (k ∷ key) ciphertext e =
    let s = schedule (k ∷ key) 256 0 0 (identity 256 0) in
    let same : cipher_loop plaintext 0 0 s ≡ ciphertext = cc in
    rw (← same) (ap some (cipher_loop-cipher_loop plaintext 0 0 s))

-- The ciphertext of bytes is bytes.
pub rc4_encrypt_cp-All :
    (plaintext key ciphertext : List ℕ)
    → rc4_encrypt_cp plaintext key ≡ some ciphertext
    → All IsByte plaintext
    → All IsByte ciphertext
unfolding rc4_encrypt_cp
rc4_encrypt_cp-All plaintext [] ciphertext e b = cc
rc4_encrypt_cp-All plaintext (k ∷ key) ciphertext e b =
    let s = schedule (k ∷ key) 256 0 0 (identity 256 0) in
    let same : cipher_loop plaintext 0 0 s ≡ ciphertext = cc in
    rw (← same) (
      cipher_loop-All plaintext 0 0 s
        (schedule-All (k ∷ key) 256 0 0 (identity 256 0) (identity-All 256 0 (omega arith))) b)
