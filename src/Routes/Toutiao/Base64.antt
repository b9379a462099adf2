-- ===== src/Routes/Toutiao/Base64.antt =====
-- abEncode of routes/toutiao/abogus.go: base64 over code points, in alphabets of the site's own.
pub mod Decoded
use Prim.Native.Nat.{bit_and, bit_or}
use syndi.Common.{
  ℕ, zero, suc, ◌+◌, ◌*◌, ◌/◌, ◌%◌, ◌^◌, List, [], ◌∷◌, Text, codes, length, get_elem?, none, some,
  ◌==◌, if◌then◌else◌,
}

abbrev pub alphabet_s3 : Text
alphabet_s3 = codes "ckdp1h4ZKsUB80/Mfvw36XIgR25+WQAlEi7NLboqYTOPuzmFjJnryx9HVGDaStCe"

abbrev pub alphabet_s4 : Text
alphabet_s4 = codes "Dkdpgh2ZmsQB80/MfvV36XI1R45-WUAlEixNLwoqYTOPuzKFjJnry79HbGcaStCe"

-- The closure cp: zero past the end.
unfoldable pub code_point : List ℕ → ℕ → ℕ
code_point src i = elim (get_elem? src i) [ none ↦ 0 | some c ↦ c ]

unfoldable pub group : List ℕ → ℕ → ℕ
group src r =
    bit_or (bit_or (code_point src r * 2 ^ 16) (code_point src (r + 1) * 2 ^ 8))
      (code_point src (r + 2))

-- The index of the character at position `i`.
unfoldable pub sextet : ℕ → ℕ → ℕ
sextet i li =
    if i % 4 == 0
    then bit_and li 16515072 / 2 ^ 18
    else if i % 4 == 1
    then bit_and li 258048 / 2 ^ 12
    else if i % 4 == 2
    then bit_and li 4032 / 2 ^ 6
    else bit_and li 63

-- An alphabet has a character at each index below 64, and a sextet is no other.
abbrev pub letter : Text → ℕ → ℕ
letter alphabet k = elim (get_elem? alphabet k) [ none ↦ 0 | some c ↦ c ]

-- The group and the round that the loop's body has after its first test.
abbrev pub enter : List ℕ → ℕ → ℕ → ℕ → ℕ × ℕ
enter src i round li =
    if i / 4 == round then (round, li) else (round + 1, group src ((round + 1) * 3))

unfoldable pub encode_loop : Text → List ℕ → ℕ → ℕ → ℕ → ℕ → Text
encode_loop alphabet src zero i round li = []
encode_loop alphabet src (suc left) i round li =
    let (round', li') = enter src i round li in
    letter alphabet (sextet i li') ∷ encode_loop alphabet src left (i + 1) round' li'

-- The number of characters is a third of four times the length, rounded up.
unfoldable pub ab_encode : List ℕ → Text → Text
ab_encode src alphabet = encode_loop alphabet src ((length src * 4 + 2) / 3) 0 0 (group src 0)
