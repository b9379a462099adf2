-- ===== src/Middleware/AccessKey.antt =====
-- internal/middleware/access_key.go: the check of the configured access key. ConstantTimeCompare is
-- equality of the two texts.
use syndi.Common.{
  ◌≡◌, refl, ◌↔◌, ◌⊎◌, true, ◌||◌, [], ◌∷◌, Text, codes, text_eq, text_eq_iff, is_empty, arith,
  if◌then◌else◌,
}

-- The request goes on, or is answered with a status and an error.
pub data Gate : Type 0 where
  next : Gate
  abort : Text → Gate

-- `query_key` is the parameter "key", `header_key` the header X-Access-Key; both are empty if absent.
unfoldable pub access_key : Text → Text → Text → Text → Gate
access_key key path query_key header_key =
    let presented = if is_empty query_key then header_key else query_key in
    if is_empty key || text_eq path (codes "/status")
    then next
    else if text_eq presented key
    then next
    else abort (codes "invalid or missing access key")

is_empty_iff : (s : Text) → (is_empty s ≡ true) ↔ (s ≡ [])
is_empty_iff [] = (λ h. refl, λ h. refl)
is_empty_iff (c ∷ s) = (λ h. cc, λ h. cc)

-- A request goes on exactly if no key is configured, it asks for /status, or it presents the key: by
-- its parameter, or by its header if the parameter is absent or empty.
pub access_key-next_iff :
    (key path query_key header_key : Text)
    → (access_key key path query_key header_key ≡ next) ↔ (
        (key ≡ [])
        ⊎ (path ≡ codes "/status")
        ⊎ (query_key ≡ key)
        ⊎ ((query_key ≡ []) × (header_key ≡ key)))
unfolding access_key
access_key-next_iff key path query_key header_key =
    let a = is_empty_iff key in
    let b = text_eq_iff path (codes "/status") in
    let c = is_empty_iff query_key in
    let d = text_eq_iff query_key key in
    let e = text_eq_iff header_key key in
    (λ h. ground (arith, a, b, c, d, e, h), λ h. ground (arith, a, b, c, d, e, h))

pub access_key-cases :
    (key path query_key header_key : Text)
    → (access_key key path query_key header_key ≡ next)
      ⊎ (access_key key path query_key header_key ≡ abort (codes "invalid or missing access key"))
unfolding access_key
access_key-cases key path query_key header_key = ground arith
