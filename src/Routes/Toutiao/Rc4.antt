-- ===== src/Routes/Toutiao/Rc4.antt =====
-- rc4EncryptCP of routes/toutiao/abogus.go: the cipher RC4 over code points.
pub mod Decrypted
use Prim.Native.Nat.{bit_xor}
use syndi.Common.{ℕ, zero, suc, ◌+◌, ◌%◌, List, [], ◌∷◌, Option, none, some, length, get_elem?, set}

-- The array has 256 elements, and every index is a remainder by 256 or by the length of the key.
abbrev pub at : List ℕ → ℕ → ℕ
at s i = elim (get_elem? s i) [ none ↦ 0 | some c ↦ c ]

abbrev pub swap : List ℕ → ℕ → ℕ → List ℕ
swap s i j = set (set s i (at s j)) j (at s i)

-- The numbers from `i` on.
unfoldable pub identity : ℕ → ℕ → List ℕ
identity zero i = []
identity (suc left) i = i ∷ identity left (i + 1)

unfoldable pub schedule : List ℕ → ℕ → ℕ → ℕ → List ℕ → List ℕ
schedule key zero i j s = s
schedule key (suc left) i j s =
    let j' = (j + at s i + at key (i % length key)) % 256 in
    schedule key left (i + 1) j' (swap s i j')

unfoldable pub cipher_loop : List ℕ → ℕ → ℕ → List ℕ → List ℕ
cipher_loop [] i jj s = []
cipher_loop (p ∷ plaintext) i jj s =
    let i' = (i + 1) % 256 in
    let jj' = (jj + at s i') % 256 in
    let s' = swap s i' jj' in
    bit_xor (at s' ((at s' i' + at s' jj') % 256)) p ∷ cipher_loop plaintext i' jj' s'

-- An empty key makes the remainder by its length panic.
unfoldable pub rc4_encrypt_cp : List ℕ → List ℕ → Option (List ℕ)
rc4_encrypt_cp plaintext [] = none
rc4_encrypt_cp plaintext (k ∷ key) =
    some (cipher_loop plaintext 0 0 (schedule (k ∷ key) 256 0 0 (identity 256 0)))
