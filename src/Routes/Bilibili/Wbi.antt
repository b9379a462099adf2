-- ===== src/Routes/Bilibili/Wbi.antt =====
-- The keys and the signature of routes/bilibili/wbi.go. Keys are ASCII. The sort, the encoding of queries and
-- the hash, as hexadecimal digits, are parameters.
pub mod Kept
pub mod Mixed
pub mod Signed
use syndi.Common.{
  ℕ, suc, ◌+◌, Bool, true, false, ◌||◌, not, List, [], ◌∷◌, ◌++◌, Option, none, some, Text, codes,
  is_empty, text_eq, length, ltb, drop, take, ◌&&◌, keep_if, get_elem?, map, Result, ok, err, ◌>>=◌,
  if◌then◌else◌,
}
use syndi.Golang.Strings.{index, last_index}
use syndi.Routeutils.Urls.{Values, set_value, get_value}

abbrev pub mixin_key_tab : List ℕ
mixin_key_tab =
    46 ∷ 47 ∷ 18 ∷ 2 ∷ 53 ∷ 8 ∷ 23 ∷ 32 ∷ 15 ∷ 50 ∷ 10 ∷ 31 ∷ 58 ∷ 3 ∷ 45 ∷ 35 ∷ 27 ∷ 43 ∷ 5 ∷ 49
    ∷ 33 ∷ 9 ∷ 42 ∷ 19 ∷ 29 ∷ 28 ∷ 14 ∷ 39 ∷ 12 ∷ 38 ∷ 41 ∷ 13 ∷ 37 ∷ 48 ∷ 7 ∷ 16 ∷ 24 ∷ 55 ∷ 40
    ∷ 61 ∷ 26 ∷ 17 ∷ 0 ∷ 1 ∷ 60 ∷ 51 ∷ 30 ∷ 4 ∷ 22 ∷ 25 ∷ 54 ∷ 21 ∷ 56 ∷ 59 ∷ 6 ∷ 63 ∷ 57 ∷ 62 ∷ 11
    ∷ 36 ∷ 20 ∷ 34 ∷ 44 ∷ 52 ∷ []

abbrev pub after_slash : Option ℕ → Text → Text
after_slash none raw = raw
after_slash (some i) raw = drop (suc i) raw

abbrev pub before_dot : Option ℕ → Text → Text
before_dot none raw = raw
before_dot (some i) raw = if ltb 0 i then take i raw else raw

unfoldable pub wbi_key_name : Text → Text
wbi_key_name raw =
    let name = after_slash (last_index raw b'/') raw in before_dot (index name b'.') name

-- The keys from the answer of the nav API, or its error: the two URLs.
unfoldable pub fetch_wbi_keys : Result (Text × Text) → Result (Text × Text)
fetch_wbi_keys resp = do
  (img_url, sub_url) ← resp
  let img = wbi_key_name img_url
  let sub = wbi_key_name sub_url
  if is_empty img || is_empty sub
      then err (codes "bilibili: empty wbi keys from nav api")
      else ok (img, sub)

abbrev pub one_at : Option ℕ → Text
one_at none = []
one_at (some c) = c ∷ []

unfoldable pub mixin_loop : Text → List ℕ → Text → Text
mixin_loop raw [] mixin = mixin
mixin_loop raw (idx ∷ tab) mixin = mixin_loop raw tab (
    if ltb idx (length raw) && ltb (length mixin) 32
    then mixin ++ one_at (get_elem? raw idx)
    else mixin)

abbrev pub is_signature : Text → Bool
is_signature k = text_eq k (codes "w_rid") || text_eq k (codes "wts")

abbrev pub key_of : Text × List Text → Text
key_of (k, values) = k

-- The loops that set the first value of each key.
unfoldable pub set_keys : List Text → Values → Values → Values
set_keys [] params out = out
set_keys (k ∷ keys) params out = set_keys keys params (set_value k (get_value k params) out)

module _ (sort_strings : List Text → List Text) (encode : Values → Text)
    (md5_hex : Text → Text) where
  abbrev pub sorted_keys : Values → List Text
  sorted_keys params = sort_strings (keep_if (λ k. not (is_signature k)) (map key_of params))

  abbrev pub signature : Values → Text → Text → Text → Text
  signature params img_key sub_key now = md5_hex (
      encode (set_keys (sorted_keys params) params [])
      ++ (codes "&wts=" ++ (now ++ mixin_loop (img_key ++ sub_key) mixin_key_tab [])))

  -- `now` is the time in seconds, in decimal digits.
  unfoldable pub sign_wbi : Values → Text → Text → Text → Values
  sign_wbi params img_key sub_key now = set_value (codes "wts") now (
      set_value (codes "w_rid") (signature params img_key sub_key now)
        (set_keys (sorted_keys params) params []))
