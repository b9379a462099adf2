-- ===== src/Routes/Bilibili/Wbi/Mixed.antt =====
-- The key that routes/bilibili/wbi.go mixes from two texts.
use mathlib.Core.List.{append_assoc, append-nil}
use syndi.Common.{
  ℕ, zero, suc, ◌+◌, ◌≤◌, ◌<◌, true, false, ◌&&◌, not, any, All, List, [], ◌∷◌, ◌++◌, none, some,
  Text, min, ltb, length, length-append, get_elem?, take, Bool-cases, inl, inr, ◌⊎◌, arith, ◌≡◌,
  refl, sym, ◌∙◌,
}
use syndi.Routes.Bilibili.Wbi.{mixin_loop, mixin_key_tab, one_at}

length-one_at : (raw : Text) (idx : ℕ) → idx < length raw → length (one_at (get_elem? raw idx)) ≡ 1
length-one_at [] idx h = absurd (omega arith)
length-one_at (c ∷ raw) zero h = refl
length-one_at (c ∷ raw) (suc idx) h = length-one_at raw idx (omega arith)

-- A key over a text with all the indices of the table has a character for each index, up to 32.
mixin_loop-length :
    (raw : Text) (tab : List ℕ) (mixin : Text)
    → All (λ idx. idx < length raw) tab
    → length mixin ≤ 32
    → length (mixin_loop raw tab mixin) ≡ min 32 (length mixin + length tab)
unfolding mixin_loop
mixin_loop-length raw [] mixin h w = omega arith
mixin_loop-length raw (idx ∷ tab) mixin (here, h) w = elim (Bool-cases (ltb (length mixin) 32)) [
  | inl e ↦
      let grown = length-append mixin (one_at (get_elem? raw idx)) in
      let one = length-one_at raw idx here in
      ground (
        arith,
        e,
        grown,
        one,
        mixin_loop-length raw tab (mixin ++ one_at (get_elem? raw idx)) h
            (ground (arith, e, grown, one)),
      )
  | inr e ↦ ground (arith, e, mixin_loop-length raw tab mixin h w)
]

-- The characters of a text at the indices of a table that are in range, in the table's order.
unfoldable pub letters : Text → List ℕ → Text
letters raw [] = []
letters raw (idx ∷ tab) = one_at (get_elem? raw idx) ++ letters raw tab

one_at-in_range :
    (raw : Text) (idx : ℕ)
    → ((idx < length raw) × (c : ℕ) × (get_elem? raw idx ≡ some c))
      ⊎ ((length raw ≤ idx) × (get_elem? raw idx ≡ none))
one_at-in_range [] idx = inr (omega arith, refl)
one_at-in_range (c ∷ raw) zero = inl (omega arith, c, refl)
one_at-in_range (c ∷ raw) (suc idx) = elim (one_at-in_range raw idx) [
  | inl (h, d, e) ↦ inl (omega arith, d, e)
  | inr (h, e) ↦ inr (omega arith, e)
]

mixin_loop-full :
    (raw : Text) (tab : List ℕ) (mixin : Text)
    → 32 ≤ length mixin
    → mixin_loop raw tab mixin ≡ mixin
unfolding mixin_loop
mixin_loop-full raw [] mixin h = refl
mixin_loop-full raw (idx ∷ tab) mixin h =
    let full : (ltb idx (length raw) && ltb (length mixin) 32) ≡ false = ground (arith, h) in
    rw full (mixin_loop-full raw tab mixin h)

-- The key is made of the first 32 of the characters that the table names.
pub mixin_loop-letters :
    (raw : Text) (tab : List ℕ) (mixin : Text) (room : ℕ)
    → length mixin + room ≡ 32
    → mixin_loop raw tab mixin ≡ mixin ++ take room (letters raw tab)
unfolding mixin_loop letters
mixin_loop-letters raw [] mixin zero h = sym (append-nil mixin)
mixin_loop-letters raw [] mixin (suc room) h = sym (append-nil mixin)
mixin_loop-letters raw (idx ∷ tab) mixin zero h =
    let full : (ltb idx (length raw) && ltb (length mixin) 32) ≡ false = ground (arith, h) in
    rw (full, append-nil mixin) (mixin_loop-full raw tab mixin (omega (arith, h)))
mixin_loop-letters raw (idx ∷ tab) mixin (suc room) h = elim (one_at-in_range raw idx) [
  | inl (small, c, e) ↦
      let kept : (ltb idx (length raw) && ltb (length mixin) 32) ≡ true =
        ground (arith, small, h) in
      let grown = length-append mixin (c ∷ []) in
      rw (kept, e)
        (mixin_loop-letters raw tab (mixin ++ c ∷ []) room (omega (arith, grown, h))
          ∙ append_assoc mixin (c ∷ []) (take room (letters raw tab)))
  | inr (large, e) ↦
      let skipped : (ltb idx (length raw) && ltb (length mixin) 32) ≡ false =
        ground (arith, large) in
      rw (skipped, e) (mixin_loop-letters raw tab mixin (suc room) h)
]

below :
    (tab : List ℕ) (n : ℕ) → any (λ i. not (ltb i 64)) tab ≡ false → 64 ≤ n → All (λ i. i < n) tab
below [] n h w = tt
below (i ∷ tab) n h w = elim (Bool-cases (ltb i 64)) [
  | inl e ↦ (ground (arith, e, w), below tab n (rw e at h) w)
  | inr e ↦ absurd (cc (rw e at h))
]

-- The key of two texts of 32 characters each has 32 characters.
mixin-length :
    (img_key sub_key : Text)
    → length img_key ≡ 32
    → length sub_key ≡ 32
    → length (mixin_loop (img_key ++ sub_key) mixin_key_tab []) ≡ 32
mixin-length img_key sub_key h w =
    mixin_loop-length (img_key ++ sub_key) mixin_key_tab []
      (below mixin_key_tab (length (img_key ++ sub_key)) refl
        (omega (arith, length-append img_key sub_key)))
      (omega arith)
