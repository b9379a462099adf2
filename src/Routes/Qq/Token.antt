-- ===== src/Routes/Qq/Token.antt =====
-- The token of requests in routes/qq/fact.go. MD5 and DES in its CBC mode, which takes every key of
-- 8 bytes, are parameters.
use syndi.Common.{
  ℕ, zero, suc, ◌+◌, ◌-◌, ◌*◌, ◌/◌, ◌%◌, ◌≤◌, ◌<◌, ◌≡◌, refl, ap, arith, Bool-cases, inl, inr, List,
  [], ◌∷◌, ◌++◌, Option, none, some, Text, codes, length, length-append, take, length-take, drop,
  ltb, if◌then◌else◌,
}
use native.Mathlib.Nat.{div-add-mod, mod-lt}

unfoldable pub repeat : ℕ → ℕ → List ℕ
repeat c zero = []
repeat c (suc n) = c ∷ repeat c n

unfoldable pub pkcs7_pad : List ℕ → ℕ → List ℕ
pkcs7_pad b block_size = let pad = block_size - length b % block_size in b ++ repeat (pad % 256) pad

module _ (md5 : List ℕ → List ℕ) where
  -- The loop, on fuel.
  unfoldable pub derive_loop : ℕ → List ℕ → List ℕ → List ℕ → List ℕ → Option (List ℕ)
  derive_loop zero password salt out prev = none
  derive_loop (suc fuel) password salt out prev =
      let prev' = md5 (prev ++ (password ++ salt)) in
      let rest = derive_loop fuel password salt (out ++ prev') prev' in
      if ltb (length out) 16 then rest else some out

  -- A hash that is not empty makes 16 rounds at most.
  unfoldable pub derive_key_iv : List ℕ → List ℕ → Option (List ℕ × List ℕ)
  derive_key_iv password salt = elim (derive_loop 17 password salt [] []) [
    | none ↦ none
    | some out ↦ some (take 8 out, take 8 (drop 8 out))
  ]

  -- The bytes whose base64 is the token: `now` is the time in milliseconds, in decimal digits.
  unfoldable pub request_token :
      (List ℕ → List ℕ → List ℕ → List ℕ) → List ℕ → Text → Option (List ℕ)
  request_token des_cbc salt now = elim (derive_key_iv (codes "jzhotdata") salt) [
    | none ↦ none
    | some (key, iv) ↦ some (
        codes "Salted__"
        ++ (salt ++ des_cbc key iv (pkcs7_pad (now ++ codes "-sgn51n6r6q97o6g3") 8)))
  ]

length-repeat : (c n : ℕ) → length (repeat c n) ≡ n
unfolding repeat
length-repeat c zero = refl
length-repeat c (suc n) = ap suc (length-repeat c n)

-- The last byte; the reader of a padded text removes as many.
unfoldable pub last : List ℕ → ℕ
last [] = 0
last (c ∷ []) = c
last (c ∷ d ∷ s) = last (d ∷ s)

last-repeat : (b : List ℕ) (c n : ℕ) → 0 < n → last (b ++ repeat c n) ≡ c
unfolding last repeat
last-repeat [] c zero h = absurd (omega arith)
last-repeat [] c (suc zero) h = refl
last-repeat [] c (suc (suc n)) h = last-repeat [] c (suc n) (omega arith)
last-repeat (x ∷ []) c (suc n) h = last-repeat [] c (suc n) h
last-repeat (x ∷ []) c zero h = absurd (omega arith)
last-repeat (x ∷ y ∷ b) c n h = last-repeat (y ∷ b) c n h

take-append : (b s : List ℕ) → take (length b) (b ++ s) ≡ b
take-append [] s = refl
take-append (x ∷ b) s = ap (λ t. x ∷ t) (take-append b s)

-- The padding fills the last block, or adds one; its last byte is the number of bytes to remove.
pub pkcs7_pad-last :
    (b : List ℕ) (block_size : ℕ)
    → 0 < block_size
    → block_size < 256
    → (length (pkcs7_pad b block_size) ≡ block_size * (length b / block_size + 1))
      × (take
            (length (pkcs7_pad b block_size) - last (pkcs7_pad b block_size))
            (pkcs7_pad b block_size)
          ≡ b)
unfolding pkcs7_pad
pkcs7_pad-last b block_size h k =
    let r = length b % block_size in
    let pad = block_size - r in
    let below : r < block_size = mod-lt (length b) h in
    let whole = div-add-mod (length b) block_size in
    let long : length (b ++ repeat (pad % 256) pad) ≡ length b + pad =
      omega (arith, length-append b (repeat (pad % 256) pad), length-repeat (pad % 256) pad) in
    let final : last (b ++ repeat (pad % 256) pad) ≡ pad =
      omega (arith, last-repeat b (pad % 256) pad (omega arith)) in
    let kept : length (b ++ repeat (pad % 256) pad) - last (b ++ repeat (pad % 256) pad)
        ≡ length b =
      omega arith in
    (grind arith, rw kept (take-append b (repeat (pad % 256) pad)))

derive_loop-ends :
    (md5 : List ℕ → List ℕ) (fuel : ℕ) (password salt out prev : List ℕ)
    → ((s : List ℕ) → 0 < length (md5 s))
    → 16 - length out < fuel
    → (key : List ℕ) × (derive_loop md5 fuel password salt out prev ≡ some key) × (16 ≤ length key)
unfolding derive_loop
derive_loop-ends md5 zero password salt out prev h k = elim k [ ]
derive_loop-ends md5 (suc fuel) password salt out prev h k =
    let prev' = md5 (prev ++ (password ++ salt)) in
    elim (Bool-cases (ltb (length out) 16)) [
      | inl e ↦ rw e (
          derive_loop-ends md5 fuel password salt (out ++ prev') prev' h
            (ground (arith, e, length-append out prev', h (prev ++ (password ++ salt)))))
      | inr e ↦ (out, rw e refl, ground (arith, e))
    ]

length-drop : (n : ℕ) (xs : List ℕ) → length (drop n xs) ≡ length xs - n
length-drop zero xs = omega arith
length-drop (suc n) [] = omega arith
length-drop (suc n) (x ∷ xs) = omega (arith, length-drop n xs)

-- With a hash that is never empty, the loop ends, and makes a key and an initial value of 8 bytes each.
pub derive_key_iv-ends :
    (md5 : List ℕ → List ℕ) (password salt : List ℕ)
    → ((s : List ℕ) → 0 < length (md5 s))
    → (key : List ℕ) × (iv : List ℕ) × (derive_key_iv md5 password salt ≡ some (key, iv))
      × (length key ≡ 8)
      × (length iv ≡ 8)
unfolding derive_key_iv
derive_key_iv-ends md5 password salt h =
    let (out, e, long) = derive_loop-ends md5 17 password salt [] [] h (omega arith) in
    (
      take 8 out,
      take 8 (drop 8 out),
      rw (derive_key_iv, e) refl,
      omega (arith, length-take 8 out),
      omega (arith, length-take 8 (drop 8 out), length-drop 8 out),
    )
