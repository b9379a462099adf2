-- ===== src/Routes/Qq/Articles.antt =====
-- The handler of routes/qq/fact.go, from the decoded answer to the feed. The reader of dates is a
-- parameter.
use syndi.Common.{
  ℕ, zero, suc, ◌+◌, ◌≤◌, ◌≡◌, refl, ◌∙◌, sym, arith, Bool, true, false, not, ◌||◌, Bool-cases, inl,
  inr, List, [], ◌∷◌, ◌++◌, map, Text, codes, is_empty, take, keep_if, leb, pos, pos_part, ℤ, ◌<ℤ◌,
  ◌≤ℤ◌, negsuc, ◌≢◌, ◌⊎◌, Result, ok, err, if◌then◌else◌, ◌<◌,
}
use mathlib.Core.List.{append_assoc, append-nil}
use syndi.Models.{Feed, Item, Time}
use syndi.Golang.Strings.{has_prefix, join}
use syndi.Golang.Numbers.{decimal}
use syndi.Routeutils.Content.Sanitize.{escape_string}
use syndi.Routeutils.Items.{
  new_feed, new_item, with_item, set_item_author, set_categories, apply_item_defaults,
}
use syndi.Routeutils.Params.{parse_positive_int, positive_or}
use syndi.Routeutils.Params.Range.{parse_positive_int-range}

pub record FactItem : Type 0 where
  pub id : Text
  pub title : Text
  pub explain : Text
  pub result : Text
  pub date : Text
  pub abstract : Text
  pub cover : Text
  pub tag : List Text
  pub author_name : Text
  pub author_desc : Text

abbrev pub fact_base_url : Text
fact_base_url = codes "https://vp.fact.qq.com"

unfoldable pub fact_abs_url : Text → Text
fact_abs_url u =
    if has_prefix u (codes "//")
    then codes "https:" ++ u
    else if has_prefix u (codes "http")
    then u
    else if is_empty u
    then []
    else codes "https://" ++ u

abbrev pub unless_empty : Text → Text → Text
unless_empty s t = if is_empty s then [] else t

-- The texts of the result and of the tags, each only where there is one.
abbrev pub fact_meta : FactItem → List Text
fact_meta it =
    (if is_empty it.result then [] else (codes "查证结果：" ++ it.result) ∷ [])
    ++ (elim it.tag [ [] ↦ [] | t ∷ ts ↦ (codes "标签：" ++ join (t ∷ ts) (codes "、")) ∷ [] ])

abbrev pub meta_text : List Text → Text
meta_text [] = []
meta_text (m ∷ ms) = codes "<p>" ++ (escape_string (join (m ∷ ms) (codes " | ")) ++ codes "</p>")

unfoldable pub fact_description : FactItem → Text
fact_description it =
    unless_empty it.cover
      (codes "<img src=\"" ++ (escape_string (fact_abs_url it.cover) ++ codes "\"/><br/>"))
    ++ (unless_empty it.abstract (codes "<p>" ++ (escape_string it.abstract ++ codes "</p>"))
        ++ meta_text (fact_meta it))

abbrev pub fact_title : FactItem → Text
fact_title it =
    if is_empty it.explain then it.title else codes "【" ++ (it.explain ++ (codes "】" ++ it.title))

abbrev pub fact_author : FactItem → Text
fact_author it =
    if is_empty it.author_desc
    then it.author_name
    else it.author_name ++ (codes " - " ++ it.author_desc)

abbrev pub with_fact_author : FactItem → Item → Item
with_fact_author it item =
    if is_empty it.author_name then item else set_item_author item (fact_author it) [] []

fact_limit :
    (limit : ℤ)
    → pos 0 <ℤ limit
    → (limit ≤ℤ positive_or (pos 30) (positive_or (pos 10) (pos 1)))
      ⊎ (limit ≡ positive_or (pos 10) (pos 1))
    → (0 < pos_part limit) × (pos_part limit ≤ 30)
fact_limit limit h k = ground arith

module _ (parse_date : Text → Time) where
  unfoldable pub fact_item : FactItem → Item
  fact_item it =
      let link = fact_base_url ++ (codes "/article?id=" ++ it.id) in
      let item = new_item (fact_title it) link (fact_description it) (parse_date it.date) in
      set_categories (with_fact_author it (record item { guid = it.id })) it.tag

  abbrev pub is_unusable : FactItem → Bool
  is_unusable it = is_empty it.title || is_empty it.id

  -- The loop: the feed, and the number of items in it.
  unfoldable pub fact_loop : ℕ → ℕ → Feed → List FactItem → Feed
  fact_loop limit n feed [] = feed
  fact_loop limit n feed (it ∷ list) =
      let skipped = fact_loop limit n feed list in
      let added = fact_loop limit (n + 1) (with_item feed (fact_item it)) list in
      if leb limit n then feed else if is_unusable it then skipped else added

  -- `fetched` is the decoded answer, its code and its list.
  unfoldable pub qq_fact_handler : Text → Result (ℤ × List FactItem) → Result Feed
  qq_fact_handler limit_param (err message) = err message
  qq_fact_handler limit_param (ok (pos zero, list)) = ok (
      fact_loop (pos_part (parse_positive_int limit_param (pos 10) (pos 30))) 0
        (new_feed (codes "较真查证平台 - 腾讯新闻") (fact_base_url ++ codes "/home") (codes "腾讯新闻较真平台最新辟谣"))
        list)
  qq_fact_handler limit_param (ok (code, list)) = err (codes "qq fact api code " ++ decimal code)

  -- The items of the loop, by their source.
  abbrev pub usable : List FactItem → List Item
  usable list =
      map (λ it. apply_item_defaults (fact_item it)) (keep_if (λ it. not (is_unusable it)) list)

  fact_loop-usable :
      (list : List FactItem) (room limit n : ℕ) (feed : Feed)
      → limit ≡ n + room
      → (fact_loop limit n feed list).items ≡ feed.items ++ take room (usable list)
  unfolding fact_loop
  fact_loop-usable [] zero limit n feed h = sym (append-nil feed.items)
  fact_loop-usable [] (suc room) limit n feed h = sym (append-nil feed.items)
  fact_loop-usable (it ∷ list) zero limit n feed h =
      let full : leb limit n ≡ true = ground (arith, h) in rw full (sym (append-nil feed.items))
  fact_loop-usable (it ∷ list) (suc room) limit n feed h =
      let left : leb limit n ≡ false = ground (arith, h) in
      elim (Bool-cases (is_unusable it)) [
        | inl e ↦ rw (left, e) (fact_loop-usable list (suc room) limit n feed h)
        | inr e ↦
            rw (left, e)
              (fact_loop-usable list room limit (n + 1) (with_item feed (fact_item it))
                  (omega arith)
                ∙ append_assoc feed.items (apply_item_defaults (fact_item it) ∷ [])
                    (take room (usable list)))
      ]

  -- An answer with the code 0 makes a feed of its entries with a title and an id, in order, as many as
  -- the limit allows, which is from 1 to 30; any other code is an error.
  pub qq_fact_handler-usable :
      (limit_param : Text) (code : ℤ) (list : List FactItem)
      → ((n : ℕ) × (feed : Feed) × (code ≡ pos 0)
          × (0 < n)
          × (n ≤ 30)
          × (qq_fact_handler limit_param (ok (code, list)) ≡ ok feed)
          × (feed.items ≡ take n (usable list)))
        ⊎ ((code ≢ pos 0)
            × (qq_fact_handler limit_param (ok (code, list))
                ≡ err (codes "qq fact api code " ++ decimal code)))
  unfolding qq_fact_handler
  qq_fact_handler-usable limit_param (pos zero) list =
      let n = pos_part (parse_positive_int limit_param (pos 10) (pos 30)) in
      let (positive, small, _) = parse_positive_int-range limit_param (pos 10) (pos 30) in
      let bounds : (0 < n) × (n ≤ 30) =
        fact_limit (parse_positive_int limit_param (pos 10) (pos 30)) positive small in
      inl (n, _, refl, bounds.0, bounds.1, refl, fact_loop-usable list n n 0 _ (omega arith))
  qq_fact_handler-usable limit_param (pos (suc code)) list = inr (λ e. ground (arith, e), refl)
  qq_fact_handler-usable limit_param (negsuc code) list = inr (λ e. ground (arith, e), refl)
