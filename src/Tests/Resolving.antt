-- ===== src/Tests/Resolving.antt =====
-- Documents of references that routes/huxiu resolves.
use syndi.Common.{
  ◌≡◌, refl, suc, List, [], ◌∷◌, some, codes, length, pos, ℤ, negsuc, arith, text_eq,
}
use syndi.Golang.Strings.{has_prefix, trim_func, trim_left}
use syndi.Golang.Numbers.{decimal}
use syndi.Routes.Huxiu.Nuxt.{
  Json, int_of, number, string, array, object, nil, cons, end, field, value, panicked, resolve,
  resolve_item, resolve_fields, resolve_items, resolve_value, tag_of,
}
use syndi.Routes.Huxiu.Nuxt.Resolved.{Ends, resolve-Ends}
use syndi.Routes.Huxiu.Nuxt.Sound.{resolve-value}
use syndi.Routes.Huxiu.Nuxt.Negative.{here, resolve-negative}
use syndi.Routes.Huxiu.Detail.{
  any_to_string, article_detail_from_nuxt, find_object_with_key, find_in_entries, find_in_fields,
  nested, get_field,
}

abbrev integer : ℤ → Json
integer n = number (record { whole = n; json = decimal n })

-- A page: the object at 1 refers to that at 2, which refers to its title and to the object before it.
abbrev page : List Json
page =
    array (cons (string (codes "Reactive")) (cons (integer (pos 1)) nil))
    ∷ object (field (codes "articleDetail-7") (integer (pos 2)) end)
    ∷ object (field (codes "articleDetail") (integer (pos 3)) end)
    ∷ object (field (codes "title") (integer (pos 4)) (field (codes "up") (integer (pos 1)) end))
    ∷ string (codes "T")
    ∷ []

article_test :
    article_detail_from_nuxt (some page)
    ≡ value (
        some (
          field (codes "title") (string (codes "T")) (
            field
              (codes "up")
              (object (
                field
                  (codes "articleDetail-7")
                  (object (field (codes "articleDetail") (integer (pos 3)) end))
                  end))
              end)))
unfolding article_detail_from_nuxt find_object_with_key find_in_entries find_in_fields nested
    get_field resolve resolve_item resolve_fields resolve_items resolve_value tag_of has_prefix
    text_eq int_of
article_test = refl

resolve-Ends_example : Ends (resolve page 6 (pos 0) [])
resolve-Ends_example = resolve-Ends page (pos 0) 6 (omega arith)

resolve-value_example : (v : Json) × (resolve page (suc (length page)) (pos 0) [] ≡ value v)
unfolding tag_of text_eq int_of
resolve-value_example = resolve-value page 0 (omega arith) (omega arith)

abbrev minus_one : Json
minus_one = number (record { whole = negsuc 0; json = codes "-1" })

-- A field without a value.
abbrev undefined_page : List Json
undefined_page = object (field (codes "a") minus_one end) ∷ []

resolve-negative_example :
    resolve undefined_page (suc (length undefined_page)) (pos 0) [] ≡ panicked
resolve-negative_example =
    resolve-negative undefined_page 0 (field (codes "a") minus_one end) refl
      (here (codes "a") (record { whole = negsuc 0; json = codes "-1" }) 0 end refl)

number_test : any_to_string (integer (pos 4885590)) ≡ codes "488559"
unfolding any_to_string decimal trim_func trim_left
number_test = refl

-- A number of 2^63 converts to the least index, which passes the test.
abbrev huge_page : List Json
huge_page = object (field (codes "a") (integer (pos 9_223_372_036_854_775_808)) end) ∷ []

huge_test : resolve huge_page (suc (length huge_page)) (pos 0) [] ≡ panicked
unfolding resolve resolve_item resolve_fields resolve_value int_of
huge_test = refl
