-- ===== src/Tests/Disguising.antt =====
-- What is logged of requests (internal/middleware/logger.go), and profiles of requests
-- (internal/disguise/profile.go).
use syndi.Common.{
  ◌≡◌, refl, true, false, [], ◌∷◌, Option, none, some, arith, Text, codes, is_empty, text_eq,
  Result, ok, if◌then◌else◌,
}
use syndi.Common.Maps
use syndi.Golang.Strings.{to_lower, contains}
use syndi.Routeutils.Urls.{Values}
use syndi.Middleware.RequestLog.{is_sensitive_param}
use syndi.Disguise.{Profile, custom, with_header, with_cookie, pick_user_agent, headers}
use syndi.Disguise.Rotation.{
  rotating, after_requests, pick_user_agent-round_robin, headers-override,
}

sensitive_test :
    (is_sensitive_param (codes "Access_Key") ≡ true)
    × (is_sensitive_param (codes "x_token") ≡ true)
    × (is_sensitive_param (codes "page") ≡ false)
unfolding is_sensitive_param to_lower contains text_eq
sensitive_test = (refl, refl, refl)

abbrev parse_query : Text → Result Values
parse_query raw = ok ((codes "key", raw ∷ []) ∷ (codes "page", codes "2" ∷ []) ∷ [])

abbrev encode : Values → Text
encode [] = []
encode ((k, vs) ∷ vals) = k

abbrev host_of : Text → Text
host_of url = url

abbrev same_site : Text → Option Text
same_site url = none

abbrev profile : Profile
profile = with_cookie (codes "a=1") (custom (codes "x" ∷ codes "y" ∷ []))

pick_user_agent-round_robin_example :
    (pick_user_agent host_of
      (λ s. 0)
      same_site
      (codes "http://host/")
      0
      (after_requests host_of
        (λ s. 0)
        same_site
        (codes "http://host/")
        0
        3
        (rotating profile (codes "x") (codes "y") [] 0))).0
    ≡ codes "y"
pick_user_agent-round_robin_example =
    pick_user_agent-round_robin host_of (λ s. 0) same_site (codes "http://host/") 0 profile
      (codes "x") (codes "y") [] 3 0 (omega arith)

abbrev tuned : Profile
tuned = with_header (codes "Cookie") (codes "b=2") profile

headers-override_example :
    (Maps.lookup
        (codes "Cookie")
        (headers host_of (λ s. 0) same_site (codes "http://host/") 0 tuned).0
      ≡ (if is_empty tuned.cookie
          then Maps.lookup (codes "Cookie") tuned.headers
          else some tuned.cookie))
    × (Maps.lookup
          (codes "User-Agent")
          (headers host_of (λ s. 0) same_site (codes "http://host/") 0 tuned).0
        ≡ (if is_empty (pick_user_agent host_of (λ s. 0) same_site (codes "http://host/") 0 tuned).0
            then Maps.lookup (codes "User-Agent") tuned.headers
            else some
                (pick_user_agent host_of (λ s. 0) same_site (codes "http://host/") 0 tuned).0))
headers-override_example =
    headers-override host_of (λ s. 0) same_site (codes "http://host/") 0 tuned
