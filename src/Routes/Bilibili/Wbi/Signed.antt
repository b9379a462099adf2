-- ===== src/Routes/Bilibili/Wbi/Signed.antt =====
-- What routes/bilibili/wbi.go signs.
use mathlib.Core.List.{Permᴰ}
use syndi.Common.{
  ◌⊎◌, take, some, true, ap, Option, false, not, any, any-perm, List, [], ◌∷◌, ◌++◌, Text, codes,
  text_eq, text_eq→≡, text_eq_iff, keep_if, map, none, Bool-cases, inl, inr, if◌then◌else◌, arith,
  ◌≡◌, refl, ◌∙◌,
}
use syndi.Common.Maps
use syndi.Routeutils.Urls.{Values, get_value, set_value, first_value}
use syndi.Routes.Bilibili.Wbi.Mixed.{letters, mixin_loop-letters}
use syndi.Routes.Bilibili.Wbi.{
  mixin_key_tab, is_signature, key_of, set_keys, sorted_keys, signature, sign_wbi,
}

set_keys-lookup :
    (k : Text) (keys : List Text) (params out : Values)
    → Maps.lookup k (set_keys keys params out)
      ≡ (if any (λ j. text_eq j k) keys then some (get_value k params ∷ []) else Maps.lookup k out)
unfolding set_keys
set_keys-lookup k [] params out = refl
set_keys-lookup k (j ∷ keys) params out = ground (
  arith,
  set_keys-lookup k keys params (set_value j (get_value j params) out),
  Maps.lookup-insert j k (get_value j params ∷ []) out,
  text_eq→≡ j k,
)

abbrev kept : Values → List Text
kept params = keep_if (λ j. not (is_signature j)) (map key_of params)

kept-signature :
    (k : Text) (params : Values)
    → is_signature k ≡ true
    → any (λ j. text_eq j k) (kept params) ≡ false
kept-signature k [] h = refl
kept-signature k ((j, values) ∷ params) h = elim (Bool-cases (is_signature j)) [
  | inl t ↦ rw t (kept-signature k params h)
  | inr t ↦ elim (Bool-cases (text_eq j k)) [
    | inl same ↦ absurd (cc (rw (text_eq→≡ j k same, h) at t))
    | inr differ ↦ rw (t, differ) (kept-signature k params h)
  ]
]

-- A key with its first value, an empty one if it has none.
abbrev pub first_only : Option (List Text) → Option (List Text)
first_only none = none
first_only (some values) = some (first_value (some values) ∷ [])

kept-lookup :
    (k : Text) (params : Values)
    → is_signature k ≡ false
    → (if any (λ j. text_eq j k) (kept params) then some (get_value k params ∷ []) else none)
      ≡ first_only (Maps.lookup k params)
unfolding Maps.lookup
kept-lookup k [] h = refl
kept-lookup k ((j, values) ∷ params) h = elim (Bool-cases (text_eq j k)) [
  | inl same ↦
      let given : is_signature j ≡ false = rw (text_eq→≡ j k same) h in rw (given, same) refl
  | inr differ ↦ elim (Bool-cases (is_signature j)) [
    | inl t ↦ rw (t, differ) (kept-lookup k params h)
    | inr t ↦ rw (t, differ) (kept-lookup k params h)
  ]
]

apart :
    (k : Text)
    → text_eq (codes "wts") k ≡ false
    → text_eq (codes "w_rid") k ≡ false
    → is_signature k ≡ false
apart k e f = ground (
  arith,
  e,
  f,
  text_eq_iff k (codes "wts"),
  text_eq_iff k (codes "w_rid"),
  text_eq_iff (codes "wts") k,
  text_eq_iff (codes "w_rid") k,
)

named :
    (k : Text)
    → (text_eq (codes "wts") k ≡ true) ⊎ (text_eq (codes "w_rid") k ≡ true)
    → is_signature k ≡ true
named k (inl e) = ground (arith, e, text_eq_iff k (codes "wts"), text_eq_iff (codes "wts") k)
named k (inr e) = ground (arith, e, text_eq_iff k (codes "w_rid"), text_eq_iff (codes "w_rid") k)

-- The parameters of a query without those of a signature, each with its first value.
abbrev pub AreOthers : Values → Values → Type 0
AreOthers params q =
    (k : Text)
    → Maps.lookup k q ≡ (
        if text_eq (codes "wts") k
        then none
        else if text_eq (codes "w_rid") k
        then none
        else first_only (Maps.lookup k params))

-- The hash of the encoded query, the time and the 32 first characters that the table names.
abbrev pub hash_of : (Values → Text) → (Text → Text) → Values → Text → Text → Text
hash_of encode md5_hex q raw now =
    md5_hex (encode q ++ (codes "&wts=" ++ (now ++ take 32 (letters raw mixin_key_tab))))

set_twice-lookup :
    (k : Text) (now hash : Text) (q : Values)
    → Maps.lookup k (set_value (codes "wts") now (set_value (codes "w_rid") hash q)) ≡ (
        if text_eq (codes "wts") k
        then some (now ∷ [])
        else if text_eq (codes "w_rid") k
        then some (hash ∷ [])
        else Maps.lookup k q)
set_twice-lookup k now hash q =
    rw
      (
        Maps.lookup-insert (codes "wts") k (now ∷ []) (set_value (codes "w_rid") hash q),
        Maps.lookup-insert (codes "w_rid") k (hash ∷ []) q,
      )
      refl

module _ (sort_strings : List Text → List Text) (encode : Values → Text) (md5_hex : Text → Text)
    (permutes : (keys : List Text) → Permᴰ (sort_strings keys) keys) where
  chosen-lookup :
      (params : Values)
      → AreOthers params (set_keys (sorted_keys sort_strings encode md5_hex params) params [])
  unfolding Maps.lookup
  chosen-lookup params k =
      let keys = sorted_keys sort_strings encode md5_hex params in
      let given = set_keys-lookup k keys params [] in
      let same = any-perm (λ j. text_eq j k) (permutes (kept params)) in
      elim (Bool-cases (text_eq (codes "wts") k)) [
        | inl e ↦ rw e (given ∙ rw (same, kept-signature k params (named k (inl e))) refl)
        | inr e ↦ elim (Bool-cases (text_eq (codes "w_rid") k)) [
          | inl f ↦ rw (e, f) (given ∙ rw (same, kept-signature k params (named k (inr f))) refl)
          | inr f ↦ rw (e, f) (given ∙ rw same (kept-lookup k params (apart k e f)))
        ]
      ]

  -- The signed query has the time as wts, as w_rid the hash of the encoded parameters but those of an
  -- earlier signature, the time and the first 32 characters that the table names, and every other given
  -- parameter with its first value, and no other, if the keys are permuted by sorting them.
  pub sign_wbi-lookup :
      (params : Values) (img_key sub_key now : Text)
      → (q : Values) × AreOthers params q
        × ((k : Text)
            → Maps.lookup k (sign_wbi sort_strings encode md5_hex params img_key sub_key now) ≡ (
                if text_eq (codes "wts") k
                then some (now ∷ [])
                else if text_eq (codes "w_rid") k
                then some (hash_of encode md5_hex q (img_key ++ sub_key) now ∷ [])
                else first_only (Maps.lookup k params)))
  unfolding sign_wbi
  sign_wbi-lookup params img_key sub_key now =
      let hash = signature sort_strings encode md5_hex params img_key sub_key now in
      let q = set_keys (sorted_keys sort_strings encode md5_hex params) params [] in
      let hashed : hash ≡ hash_of encode md5_hex q (img_key ++ sub_key) now =
        rw (mixin_loop-letters (img_key ++ sub_key) mixin_key_tab [] 32 refl) refl in
      (
        q,
        chosen-lookup params,
        λ k. set_twice-lookup k now hash q ∙ elim (Bool-cases (text_eq (codes "wts") k)) [
          | inl e ↦ rw e refl
          | inr e ↦ elim (Bool-cases (text_eq (codes "w_rid") k)) [
            | inl f ↦ rw (e, f) (ap (λ t. some (t ∷ [])) hashed)
            | inr f ↦ rw (e, f) (chosen-lookup params k ∙ rw (e, f) refl)
          ]
        ],
      )
