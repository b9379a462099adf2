-- ===== src/Client/Options.antt =====
-- internal/client/client.go: the client, its options and its cookies.
pub mod Built
use syndi.Common.{
  ℕ, suc, Bool, true, false, Option, none, some, List, [], ◌∷◌, ◌++◌, Text, codes, Result, ok, err,
  ℤ, pos, ltb_ℤ, if◌then◌else◌,
}
use syndi.Common.Maps.{lookup, insert}
use syndi.Golang.Strings.{has_prefix}
use syndi.Models.{Time}

-- A 64-bit floating-point number, by its bits.
pub record Float : Type 0 where
  pub bits : ℕ

-- A parsed URL, printed, and its host.
pub record Url : Type 0 where
  pub text : Text
  pub host : Text

-- The bucket of a host, which starts full.
pub record RateLimiter : Type 0 where
  pub rate : Float
  pub capacity : ℤ

-- The Proxy of an http.Transport.
pub data Proxy : Type 0 where
  direct : Proxy
  from_environment : Proxy
  fixed : Url → Proxy

pub record Cookie : Type 0 where
  pub name : Text
  pub value : Text
  pub domain : Text
  pub path : Text

-- What http.Client holds. A jar or a logger is its address.
pub record HttpClient : Type 0 where
  pub transport_proxy : Proxy
  pub timeout : Time
  pub jar : ℕ

pub record Settings : Type 0 where
  pub client : Option HttpClient
  pub user_agent : Text
  pub timeout : Time
  pub max_redirects : ℤ
  pub proxy : Option Url
  pub no_proxy : Bool
  pub cookie_jar : Option ℕ
  pub logger : Option ℕ
  pub max_retries : ℤ
  pub base_delay : Time
  pub max_delay : Time
  pub bearer_token : Text
  pub rate_limiters : List (Text × RateLimiter)

-- The options, by the functions that make them.
pub data ClientOption : Type 0 where
  with_user_agent : Text → ClientOption
  with_timeout : Time → ClientOption
  with_proxy : Text → ClientOption
  with_no_proxy : ClientOption
  with_cookie_jar : Option ℕ → ClientOption
  with_logger : Option ℕ → ClientOption
  with_bearer_token : Text → ClientOption
  with_retry_config : ℤ → Time → Time → ClientOption
  with_max_redirects : ℤ → ClientOption
  with_rate_limit : Text → Float → ℤ → ClientOption

abbrev pub initial : Settings
initial = record {
  client = none;
  user_agent = codes "Syndi/0.0.1 (+https://github.com/xihale/syndi)";
  timeout = pos 30_000_000_000;
  max_redirects = pos 10;
  proxy = none;
  no_proxy = false;
  cookie_jar = none;
  logger = none;
  max_retries = pos 3;
  base_delay = pos 1_000_000_000;
  max_delay = pos 30_000_000_000;
  bearer_token = [];
  rate_limiters = [];
}

abbrev pub if_positive : ℤ → ℤ → ℤ
if_positive new old = if ltb_ℤ (pos 0) new then new else old

-- The number 10 as a floating-point number.
abbrev pub ten : Float
ten = record { bits = 4_621_819_117_588_971_520 }

abbrev pub parsed_or : Option Url → Result Url → Option Url
parsed_or old (ok u) = some u
parsed_or old (err message) = old

abbrev pub proxy_of : Bool → Option Url → Proxy
proxy_of true proxy = direct
proxy_of false none = from_environment
proxy_of false (some u) = fixed u

abbrev pub jar_or : ℕ → Option ℕ → ℕ
jar_or fresh none = fresh
jar_or fresh (some jar) = jar

abbrev pub with_scheme : Text → Text
with_scheme domain =
    if has_prefix domain (codes "http://")
    then domain
    else if has_prefix domain (codes "https://")
    then domain
    else codes "https://" ++ domain

-- `parse_url` is url.Parse, and `truncate` the conversion of a number to an int.
module _ (parse_url : Text → Result Url) (truncate : Float → ℤ) where
  unfoldable pub apply : ClientOption → Settings → Settings
  apply (with_user_agent ua) c = record c { user_agent = ua }
  apply (with_timeout t) c = record c { timeout = t }
  apply (with_proxy u) c = record c { proxy = parsed_or c.proxy (parse_url u) }
  apply with_no_proxy c = record c { proxy = none; no_proxy = true }
  apply (with_cookie_jar jar) c = record c { cookie_jar = jar }
  apply (with_logger logger) c = record c { logger = logger }
  apply (with_bearer_token token) c = record c { bearer_token = token }
  apply (with_retry_config retries base max) c = record c {
    max_retries = if_positive retries c.max_retries;
    base_delay = if_positive base c.base_delay;
    max_delay = if_positive max c.max_delay;
  }
  apply (with_max_redirects n) c = record c { max_redirects = if_positive n c.max_redirects }
  apply (with_rate_limit host rps burst) c = record c {
    rate_limiters =
        insert host (record { rate = rps; capacity = if_positive burst (truncate rps) })
          c.rate_limiters;
  }

  unfoldable pub apply_all : List ClientOption → Settings → Settings
  apply_all [] c = c
  apply_all (o ∷ os) c = apply_all os (apply o c)

  -- `fresh` is the address of the jar that is made if none is given.
  unfoldable pub new_client : ℕ → List ClientOption → Settings
  new_client fresh options =
      let c = apply_all options initial in
      let jar = jar_or fresh c.cookie_jar in
      record c {
        cookie_jar = some jar;
        client = some (record {
          transport_proxy = proxy_of c.no_proxy c.proxy;
          timeout = c.timeout;
          jar = jar;
        });
      }

  -- The jar's address, the URL and the cookie that SetCookie gives it, with the path /; an error is the
  -- panic on the URL that is nil.
  unfoldable pub set_cookie : Text → Text → Text → Settings → Result (Option (ℕ × Url × Cookie))
  set_cookie domain name value c = elim c.cookie_jar [
    | none ↦ ok none
    | some jar ↦ elim (parse_url (with_scheme domain)) [
      | err message ↦ err (codes "nil pointer dereference")
      | ok u ↦
          ok (
            some (jar, u, record { name = name; value = value; domain = u.host; path = codes "/" }))
    ]
  ]

-- `fresh` is the address of the new jar.
abbrev pub with_jar : ℕ → Option HttpClient → Option HttpClient
with_jar fresh none = none
with_jar fresh (some h) = some (record h { jar = fresh })

unfoldable pub clear_cookies : ℕ → Settings → Settings
clear_cookies fresh c = record c { cookie_jar = some fresh; client = with_jar fresh c.client }

abbrev pub found_or_new : Option RateLimiter → Text → Settings → RateLimiter × Settings
found_or_new (some limiter) host c = (limiter, c)
found_or_new none host c =
    let limiter : RateLimiter = record { rate = ten; capacity = pos 10 } in
    (limiter, record c { rate_limiters = insert host limiter c.rate_limiters })

-- The limiter of a host, and the client with it.
unfoldable pub get_rate_limiter : Text → Settings → RateLimiter × Settings
get_rate_limiter host c = found_or_new (lookup host c.rate_limiters) host c

-- The error of a redirect after `via` requests.
unfoldable pub check_redirect : Settings → ℕ → Option Text
check_redirect c via =
    if ltb_ℤ (pos via) c.max_redirects
    then none
    else some (codes "stopped after too many redirects")
