-- ===== src/Tests/Requesting.antt =====
-- Tests of the options, the headers and the builder of internal/client/client.go.
use mathlib.Core.List.{Permᴰ}
use mathlib.Core.List.Permᴰ
use syndi.Common.{
  Bool, ◌&&◌, any-perm, if◌then◌else◌, Text, List, [], ◌∷◌, ◌++◌, codes, none, some, Result, ok,
  err, pos, negsuc, any, ◌≡◌, refl, ◌↔◌, text_eq, true,
}
use syndi.Common.Maps.{lookup, insert}
use syndi.Client.Retry.{Client, set_default, set_default_headers}
use syndi.Client.Options.{
  HttpClient, Url, direct, with_proxy, with_no_proxy, with_retry_config, with_max_redirects,
  with_rate_limit, ClientOption, ten, new_client, get_rate_limiter, apply_all, apply,
}
use syndi.Client.Options.Built.{IsUsable, is_no_proxy, new_client-IsUsable}
use syndi.Client.Requests.{
  HttpApi, canonical, recase, set_headers, no_header, form_type, builder, with_headers,
  with_query_map, send_built, get_with_headers, get_with_query,
}
use syndi.Client.Requests.Headers.{set_headers-sent}
use syndi.Client.Requests.Visited.{IsMap, AreDistinct, SortsParams, send_built-get}

canonical_test : canonical (codes "user-AGENT") ≡ codes "User-Agent"
unfolding canonical recase
canonical_test = refl

-- A name with a space is kept.
canonical_space_test : canonical (codes "user agent") ≡ codes "user agent"
unfolding canonical recase
canonical_space_test = refl

abbrev no_url : Text → Result Url
no_url u = err (codes "parse")

abbrev proxied : List ClientOption
proxied =
    with_no_proxy
    ∷ with_proxy (codes "http://127.0.0.1:8080")
    ∷ with_retry_config (pos 0) (negsuc 4) (pos 5)
    ∷ with_max_redirects (pos 0)
    ∷ with_rate_limit (codes "a.com") ten (pos 0)
    ∷ []

new_client-IsUsable_example :
    IsUsable (new_client no_url (λ rps. pos 10) 7 proxied)
    × (h : HttpClient) × ((new_client no_url (λ rps. pos 10) 7 proxied).client ≡ some h)
    × ((new_client no_url (λ rps. pos 10) 7 proxied).cookie_jar ≡ some h.jar)
    × ((h.transport_proxy ≡ direct) ↔ (any is_no_proxy proxied ≡ true))
new_client-IsUsable_example = new_client-IsUsable no_url (λ rps. pos 10) 7 proxied

limiter_test :
    (get_rate_limiter (codes "a.com") (new_client no_url (λ rps. pos 10) 7 proxied)).0.capacity
    ≡ pos 10
unfolding get_rate_limiter new_client apply_all apply lookup insert text_eq
limiter_test = refl

abbrev client : Client
client = record {
  user_agent = codes "Syndi";
  bearer_token = [];
  max_retries = 3;
  base_delay = pos 1_000_000_000;
  max_delay = pos 30_000_000_000;
}

abbrev headers : List (Text × Text)
headers = (codes "Accept", codes "text/html") ∷ (codes "user-agent", codes "Reader") ∷ []

set_headers-sent_example :
    (set_default_headers client (set_headers headers no_header) (canonical (codes "user-agent"))
      ≡ codes "Reader")
    × (set_default_headers client
          (set_default (codes "Content-Type") form_type (set_headers headers no_header))
          (canonical (codes "user-agent"))
        ≡ codes "Reader")
set_headers-sent_example =
    set_headers-sent client (codes "user-agent") (codes "Reader")
      ((codes "Accept", codes "text/html") ∷ []) [] tt refl

abbrev is_a_b : Text × Text → Bool
is_a_b p = text_eq p.0 (codes "a") && text_eq p.1 (codes "b")

-- An encoding that knows one parameter.
abbrev echo : HttpApi
echo = record {
  invalid = λ method url. none;
  with_params = λ params url. if any is_a_b params then url ++ codes "?a=b" else url;
  basic = λ user password. user;
  send = λ body req i. record {
    reset_error = none;
    cancelled = none;
    limiter_error = none;
    reply = ok (record {
      status_code = 200;
      status = codes "200 OK";
      retry_after = [];
      read = λ n. ok (req.url ++ req.header (codes "User-Agent"));
    });
  };
  head = λ req. err (codes "refused");
}

sorts : SortsParams echo
sorts = record { sorted = λ params visited url unique p. rw (any-perm is_a_b p) refl }

abbrev visit : List (Text × Text) → List (Text × Text)
visit (a ∷ b ∷ []) = b ∷ a ∷ []
visit m = m

visit-perm : (m : List (Text × Text)) → Permᴰ (visit m) m
visit-perm [] = Permᴰ.nil
visit-perm (a ∷ []) = Permᴰ.refl (a ∷ [])
visit-perm (a ∷ b ∷ []) = Permᴰ.swap refl refl
visit-perm (a ∷ b ∷ c ∷ m) = Permᴰ.refl (a ∷ b ∷ c ∷ m)

apart : AreDistinct headers
unfolding canonical recase text_eq
apart = ((refl, tt), (tt, tt))

alone : IsMap ((codes "a", codes "b") ∷ [])
unfolding lookup
alone = (refl, tt)

send_built-get_example :
    (send_built echo client visit visit (with_headers headers (builder (codes "GET") (codes "u")))
      ≡ get_with_headers echo client (codes "u") headers)
    × (send_built echo client visit visit
          (with_query_map ((codes "a", codes "b") ∷ []) (builder (codes "GET") (codes "u")))
        ≡ get_with_query echo client (codes "u") ((codes "a", codes "b") ∷ []))
send_built-get_example =
    send_built-get echo client sorts visit visit visit-perm visit-perm (codes "u") headers
      ((codes "a", codes "b") ∷ []) apart alone
