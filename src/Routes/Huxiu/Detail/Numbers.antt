-- ===== src/Routes/Huxiu/Detail/Numbers.antt =====
-- Numbers that anyToString of routes/huxiu/nuxt.go reads as texts.
use syndi.Common.{ℕ, ◌+◌, ◌*◌, ◌<◌, ◌≡◌, refl, ◌∙◌, ap, arith, pos, ◌++◌, [], ◌∷◌}
use syndi.Golang.Numbers.{decimal, digits}
use syndi.Golang.Numbers.Digits.{decimal-snoc}
use syndi.Golang.Trimming.{trim_func-snoc}
use syndi.Routes.Huxiu.Nuxt.{Json, number}
use syndi.Routes.Huxiu.Detail.{is_cut, any_to_string}

-- A number that is written by its decimal digits.
abbrev integer : ℕ → Json
integer n = number (record { whole = pos n; json = decimal (pos n) })

-- A positive integer and its tenfold are read as the same text.
any_to_string-tenfold :
    (n : ℕ) → 0 < n → any_to_string (integer (n * 10)) ≡ any_to_string (integer n)
unfolding any_to_string digits decimal
any_to_string-tenfold n h =
    let zero_last : decimal (pos (n * 10)) ≡ decimal (pos n) ++ b'0' ∷ [] =
      ap (λ (t : ℕ). decimal (pos t)) (let e : n * 10 ≡ n * 10 + 0 = omega arith in e)
      ∙ decimal-snoc n 0 h (omega arith) in
    rw zero_last (trim_func-snoc is_cut (decimal (pos n)) b'0' refl)
