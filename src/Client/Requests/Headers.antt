-- ===== src/Client/Requests/Headers.antt =====
-- The headers that a caller of internal/client/client.go gives.
use syndi.Common.{
  false, List, [], ◌∷◌, ◌++◌, Text, codes, is_empty, text_eq, text_eq_refl, text_eq→≡, ◌≡◌, refl,
  sym, ap, ◌∙◌, arith, Bool-cases, inl, inr,
}
use syndi.Client.Retry.{Client, set_default, set_default_headers}
use syndi.Client.Requests.{Header, canonical, set_header, set_headers, no_header, form_type}

-- The names differ, up to case.
abbrev pub IsApart : Text → List (Text × Text) → Type 0
IsApart name [] = Unit
IsApart name (h ∷ headers) = (text_eq (canonical h.0) name ≡ false) × IsApart name headers

set_headers-absent :
    (name : Text) (headers : List (Text × Text)) (h : Header)
    → IsApart name headers
    → set_headers headers h name ≡ h name
unfolding set_headers
set_headers-absent name [] h apart = refl
set_headers-absent name ((k, v) ∷ headers) h (differ, apart) =
    set_headers-absent name headers (set_header k v h) apart ∙ rw differ refl

set_headers-given :
    (name value : Text) (front back : List (Text × Text)) (h : Header)
    → IsApart (canonical name) back
    → set_headers (front ++ ((name, value) ∷ back)) h (canonical name) ≡ value
unfolding set_headers
set_headers-given name value [] back h apart =
    set_headers-absent (canonical name) back (set_header name value h) apart
    ∙ rw (text_eq_refl (canonical name)) refl
set_headers-given name value ((k, v) ∷ front) back h apart =
    set_headers-given name value front back (set_header k v h) apart

set_default-kept :
    (key other name value : Text) (h : Header)
    → h name ≡ value
    → is_empty value ≡ false
    → set_default key other h name ≡ value
set_default-kept key other name value h same filled = elim (Bool-cases (text_eq name key)) [
  | inl e ↦
      let filled_key : h key ≡ value = ap h (sym (text_eq→≡ name key e)) ∙ same in
      rw (filled_key, filled) same
  | inr e ↦ ground (arith, e, same)
]

set_default_headers-kept :
    (c : Client) (name value : Text) (h : Header)
    → h name ≡ value
    → is_empty value ≡ false
    → set_default_headers c h name ≡ value
unfolding set_default_headers
set_default_headers-kept c name value h same filled =
    let agent = set_default-kept (codes "User-Agent") c.user_agent name value h same filled in
    let accept =
      set_default-kept (codes "Accept") (codes "*/*") name value
        (set_default (codes "User-Agent") c.user_agent h) agent filled in
    elim (Bool-cases (is_empty c.bearer_token)) [
      | inl e ↦ rw e accept
      | inr e ↦ rw e (
          set_default-kept (codes "Authorization") (codes "Bearer " ++ c.bearer_token) name value
            (set_default (codes "Accept") (codes "*/*")
              (set_default (codes "User-Agent") c.user_agent h))
            accept filled)
    ]

-- A header that the caller gives with a value is the one that is sent, where no later header has its name:
-- no default of the client, and not that of PostWithHeaders, replaces it.
pub set_headers-sent :
    (c : Client) (name value : Text) (front back : List (Text × Text))
    → IsApart (canonical name) back
    → is_empty value ≡ false
    → let given = set_headers (front ++ ((name, value) ∷ back)) no_header in
      (set_default_headers c given (canonical name) ≡ value)
      × (set_default_headers c (set_default (codes "Content-Type") form_type given) (canonical name)
          ≡ value)
set_headers-sent c name value front back apart filled =
    let given = set_headers (front ++ ((name, value) ∷ back)) no_header in
    let same = set_headers-given name value front back no_header apart in
    (
      set_default_headers-kept c (canonical name) value given same filled,
      set_default_headers-kept c (canonical name) value
          (set_default (codes "Content-Type") form_type given)
          (set_default-kept (codes "Content-Type") form_type (canonical name) value given same
            filled)
          filled,
    )
