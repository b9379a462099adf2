-- ===== src/Golang/Numbers/Digits.antt =====
-- The decimal digits that Golang/Numbers.antt prints.
use syndi.Common.{ℕ, zero, suc, ◌+◌, ◌*◌, ◌/◌, ◌%◌, ◌<◌, [], ◌∷◌, ◌++◌, Text, pos, ◌≡◌, refl, arith}
use syndi.Golang.Numbers.{digits, decimal}

-- The digits do not depend on the fuel, if there is enough.
digits-fuel : (f g n : ℕ) (rest : Text) → n < f → n < g → digits f n rest ≡ digits g n rest
unfolding digits
digits-fuel zero g n rest p q = ground arith
digits-fuel (suc f) zero n rest p q = ground arith
digits-fuel (suc f) (suc g) n rest p q =
    ground (arith, digits-fuel f g (n / 10) ((b'0' + n % 10) ∷ rest))

digits-append : (f n : ℕ) (s t : Text) → digits f n (s ++ t) ≡ digits f n s ++ t
unfolding digits
digits-append zero n s t = refl
digits-append (suc f) n s t = ground (arith, digits-append f (n / 10) ((b'0' + n % 10) ∷ s) t)

-- A last digit is written after the digits before it.
pub decimal-snoc :
    (n d : ℕ) → zero < n → d < 10 → decimal (pos (n * 10 + d)) ≡ decimal (pos n) ++ decimal (pos d)
unfolding decimal digits
decimal-snoc n d p q =
    let last : (n * 10 + d) % 10 ≡ d = omega arith in
    let before : (n * 10 + d) / 10 ≡ n = omega arith in
    ground (
      arith,
      last,
      before,
      digits-append (n * 10 + d) n [] ((b'0' + d) ∷ []),
      digits-fuel (n * 10 + d) (suc n) n [],
    )
