-- ===== src/Tests/Wbi.antt =====
-- Tests of routes/bilibili/wbi.go.
use syndi.Common.Maps.{lookup}
use syndi.Common.{
  some, ◌∷◌, [], List, Text, codes, ok, ◌++◌, ltb, length, text_eq, if◌then◌else◌, ◌≡◌, refl, map,
}
use syndi.Golang.Sorting.Insertion.{insertion_sort, insertion_sort-IsSort}
use syndi.Golang.Strings.{index, last_index, join}
use syndi.Routeutils.Urls.{Values}
use syndi.Routes.Bilibili.Wbi.{
  wbi_key_name, fetch_wbi_keys, mixin_loop, mixin_key_tab, sign_wbi, key_of,
}
use syndi.Routes.Bilibili.Wbi.Signed.{AreOthers, hash_of, first_only, sign_wbi-lookup}

fetch_test :
    fetch_wbi_keys (
      ok (
        codes "https://i0.hdslb.com/bfs/wbi/7cd0.png",
        codes "https://i0.hdslb.com/bfs/wbi/4932.png",
      ))
    ≡ ok (codes "7cd0", codes "4932")
unfolding fetch_wbi_keys wbi_key_name index last_index
fetch_test = refl

-- The keys of the interface's documentation, and the key that it derives from them.
mixin_test :
    mixin_loop
      (codes "7cd084941338484aae1ad9425b84077c" ++ codes "4932caff0ff746eab6f01bf08b70ac45")
      mixin_key_tab
      []
    ≡ codes "ea1db124af3c7062474693fa704f4ff8"
unfolding mixin_loop
mixin_test = refl

-- A sort of keys by their length.
abbrev sort_strings : List Text → List Text
sort_strings = insertion_sort (λ a b. ltb (length a) (length b))

abbrev encode : Values → Text
encode q = join (map key_of q) (codes "&")

abbrev params : Values
params =
    (codes "mid", codes "7" ∷ [])
    ∷ (codes "wts", codes "1" ∷ [])
    ∷ (codes "ps", codes "30" ∷ [])
    ∷ []

sign_wbi-lookup_example :
    (q : Values) × AreOthers params q
    × ((k : Text)
        → lookup k (
            sign_wbi sort_strings encode
              (λ s. s)
              params
              (codes "7cd0")
              (codes "4932")
              (codes "1700000000"))
          ≡ (if text_eq (codes "wts") k
              then some (codes "1700000000" ∷ [])
              else if text_eq (codes "w_rid") k
              then some (
                  hash_of encode (λ s. s) q (codes "7cd0" ++ codes "4932") (codes "1700000000")
                  ∷ [])
              else first_only (lookup k params)))
sign_wbi-lookup_example =
    sign_wbi-lookup sort_strings encode (λ s. s)
      (insertion_sort-IsSort.permutes (λ a b. ltb (length a) (length b))) params (codes "7cd0")
      (codes "4932") (codes "1700000000")
