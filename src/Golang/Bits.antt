-- ===== src/Golang/Bits.antt =====
-- The bit operations of Go's unsigned integers: laws of `&`, `|`, `^` and the shifts that hold at every
-- width.
use Prim.Native.Nat.{
  min, max, differ, digits, bit_and, bit_or, bit_xor, bit_and-bitwise, bit_or-bitwise,
  bit_xor-bitwise,
}
use native.Mathlib.Nat.{pow-suc, pow-succ', div-div-eq-div-mul, mul-one, div-one, mul_assoc}
use syndi.Common.{
  ℕ, zero, suc, ◌+◌, Bool-cases, inl, inr, ◌==◌, ◌*◌, ◌/◌, ◌%◌, ◌^◌, ◌≤◌, ◌<◌, ◌≡◌, refl, sym, ap,
  ◌∙◌, arith,
}

-- An operation on numbers that works on the binary digits by `f`.
abbrev Digitwise : (ℕ → ℕ → ℕ) → (ℕ → ℕ → ℕ) → Type 0
Digitwise op f = (a b : ℕ) → op a b ≡ op (a / 2) (b / 2) * 2 + f (a % 2) (b % 2)

module _ (rest : ℕ → ℕ) (f : ℕ → ℕ → ℕ) where
  abbrev run : ℕ → ℕ → ℕ → ℕ
  run = digits rest f

  one_more : (m x y : ℕ) → x ≤ m → run (suc m) x y ≡ run m x y
  one_more m zero y h = from_zero m
    where
      from_zero : (k : ℕ) → run (suc k) 0 y ≡ run k 0 y
      from_zero zero = refl
      from_zero (suc k) = refl
  one_more zero (suc x) y h = elim h [ ]
  one_more (suc m) (suc x) y h =
      ap (λ t. t * 2 + f (suc x % 2) (y % 2)) (one_more m (suc x / 2) (y / 2) (omega arith))

  -- As much fuel as the first number suffices.
  settled : (m x y : ℕ) → x ≤ m → run m x y ≡ run x x y
  settled zero zero y h = refl
  settled zero (suc x) y h = elim h [ ]
  settled (suc m) x y h = elim (Bool-cases (x == suc m)) [
    | inl e ↦ ap (λ k. run k x y) (let full : suc m ≡ x = ground (arith, e) in full)
    | inr e ↦ one_more m x y (ground (arith, e)) ∙ settled m x y (ground (arith, e))
  ]

  by_digits :
      (a b : ℕ)
      → run (suc a) (suc a) b ≡ run (suc a / 2) (suc a / 2) (b / 2) * 2 + f (suc a % 2) (b % 2)
  by_digits a b =
      ap (λ t. t * 2 + f (suc a % 2) (b % 2)) (settled a (suc a / 2) (b / 2) (omega arith))

bit_or_step : Digitwise bit_or max
bit_or_step (suc a) = simp bit_or-bitwise (by_digits (λ y. y) max a)
bit_or_step zero = simp bit_or-bitwise (λ b. omega arith)

bit_and_step : Digitwise bit_and min
bit_and_step (suc a) = simp bit_and-bitwise (by_digits (λ y. 0) min a)
bit_and_step zero = simp bit_and-bitwise (λ b. omega arith)

bit_xor_step : Digitwise bit_xor differ
bit_xor_step (suc a) = simp bit_xor-bitwise (by_digits (λ y. y) differ a)
bit_xor_step zero = simp bit_xor-bitwise (λ b. omega arith)

differ_bit : (x y : ℕ) → x < 2 → y < 2 → differ x y ≡ (x + y) % 2
differ_bit zero y h k = omega arith
differ_bit (suc zero) zero h k = refl
differ_bit (suc zero) (suc zero) h k = refl
differ_bit (suc zero) (suc (suc y)) h k = absurd (omega arith)
differ_bit (suc (suc x)) y h k = absurd (omega arith)

-- The lowest digit of an exclusive or is the sum's, and the others are those of the halves.
bit_xor_sum : (a b : ℕ) → bit_xor a b ≡ bit_xor (a / 2) (b / 2) * 2 + (a % 2 + b % 2) % 2
bit_xor_sum a b =
    omega (arith, bit_xor_step a b, differ_bit (a % 2) (b % 2) (omega arith) (omega arith))

bit_xor_cancel_below : (n a b : ℕ) → a < n → bit_xor a (bit_xor a b) ≡ b
bit_xor_cancel_below zero a b h = elim h [ ]
bit_xor_cancel_below (suc n) zero b h = simp bit_xor-bitwise refl
bit_xor_cancel_below (suc n) (suc a) b h =
    let half : bit_xor (suc a) b / 2 ≡ bit_xor (suc a / 2) (b / 2) =
      omega (arith, bit_xor_sum (suc a) b) in
    let last : bit_xor (suc a) b % 2 ≡ (suc a % 2 + b % 2) % 2 =
      omega (arith, bit_xor_sum (suc a) b) in
    let again : bit_xor (suc a / 2) (bit_xor (suc a) b / 2) ≡ b / 2 =
      rw half (bit_xor_cancel_below n (suc a / 2) (b / 2) (omega arith)) in
    omega (arith, bit_xor_sum (suc a) (bit_xor (suc a) b))

-- The same number twice cancels.
pub bit_xor_cancel : (a b : ℕ) → bit_xor a (bit_xor a b) ≡ b
bit_xor_cancel a b = bit_xor_cancel_below (suc a) a b (omega arith)

bit_and-zero_below : (n a : ℕ) → a < n → bit_and a 0 ≡ 0
bit_and-zero_below zero a h = elim h [ ]
bit_and-zero_below (suc n) zero h = refl
bit_and-zero_below (suc n) (suc a) h =
    omega (arith, bit_and_step (suc a) 0, bit_and-zero_below n (suc a / 2) (omega arith))

pub bit_and-one : (a : ℕ) → bit_and a 1 ≡ a % 2
bit_and-one a =
    omega (arith, bit_and_step a 1, bit_and-zero_below (suc (a / 2)) (a / 2) (omega arith))

bit_and-odd : (a m : ℕ) → bit_and a (m * 2 + 1) ≡ bit_and (a / 2) m * 2 + a % 2
bit_and-odd a m =
    let half : (m * 2 + 1) / 2 ≡ m = omega arith in
    omega (arith, bit_and_step a (m * 2 + 1), ap (λ (t : ℕ). bit_and (a / 2) t) half)

bit_and_7 : (a : ℕ) → bit_and a 7 ≡ a % 8
bit_and_7 a = omega (arith, bit_and-odd a 3, bit_and-odd (a / 2) 1, bit_and-one (a / 2 / 2))

-- A mask of six ones.
pub bit_and_63 : (a : ℕ) → bit_and a 63 ≡ a % 64
bit_and_63 a = omega (
  arith,
  bit_and-odd a 31,
  bit_and-odd (a / 2) 15,
  bit_and-odd (a / 2 / 2) 7,
  bit_and_7 (a / 2 / 2 / 2),
)

-- A shifted mask is the mask of the shifted number.
pub bit_and-shift : (k a m : ℕ) → bit_and a (m * 2 ^ k) / 2 ^ k ≡ bit_and (a / 2 ^ k) m
bit_and-shift zero a m = rw (mul-one m, div-one a, div-one)
bit_and-shift (suc k) a m =
    let double : m * 2 ^ suc k ≡ m * 2 ^ k * 2 = rw (pow-suc 2 k) (sym (mul_assoc m (2 ^ k) 2)) in
    let half : bit_and a (m * 2 ^ k * 2) / 2 ≡ bit_and (a / 2) (m * 2 ^ k) = omega (
      arith,
      bit_and_step a (m * 2 ^ k * 2),
      ap (λ (t : ℕ). bit_and (a / 2) t) (let e : m * 2 ^ k * 2 / 2 ≡ m * 2 ^ k = omega arith in e),
    ) in
    rw (double, pow-succ' 2 k, ← div-div-eq-div-mul (bit_and a (m * 2 ^ k * 2)) 2 (2 ^ k), half)
      (bit_and-shift k (a / 2) m ∙ ap (λ (t : ℕ). bit_and t m) (div-div-eq-div-mul a 2 (2 ^ k)))

bit_or-zero_below : (n a : ℕ) → a < n → bit_or a 0 ≡ a
bit_or-zero_below zero a h = elim h [ ]
bit_or-zero_below (suc n) zero h = refl
bit_or-zero_below (suc n) (suc a) h =
    omega (arith, bit_or_step (suc a) 0, bit_or-zero_below n (suc a / 2) (omega arith))

-- The union of a number shifted left and one that fits below it is their sum.
pub bit_or-shift : (k q r : ℕ) → r < 2 ^ k → bit_or (q * 2 ^ k) r ≡ q * 2 ^ k + r
bit_or-shift zero q r h = ground (arith, bit_or-zero_below (suc (q * 1)) (q * 1) (omega arith))
bit_or-shift (suc k) q r h =
    let double : q * 2 ^ suc k ≡ 2 * (q * 2 ^ k) =
      omega (arith, ap (λ (t : ℕ). q * t) (pow-suc 2 k)) in
    ground (arith, bit_or_step (q * 2 ^ suc k) r, double, pow-suc 2 k, bit_or-shift k q (r / 2))

pub bit_xor_lt : (k a b : ℕ) → a < 2 ^ k → b < 2 ^ k → bit_xor a b < 2 ^ k
bit_xor_lt zero zero b h k = simp bit_xor-bitwise k
bit_xor_lt zero (suc a) b h k = absurd (omega arith)
bit_xor_lt (suc n) a b h k = omega (
  arith,
  pow-suc 2 n,
  bit_xor_sum a b,
  bit_xor_lt n (a / 2) (b / 2) (omega (arith, pow-suc 2 n)) (omega (arith, pow-suc 2 n)),
)
