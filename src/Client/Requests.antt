-- ===== src/Client/Requests.antt =====
-- internal/client/client.go: the requests of the client's methods and of its builder. A header has canonical
-- names, and an absent one is the empty text.
pub mod Headers
pub mod Visited
use syndi.Common.{
  ℕ, ◌+◌, ◌-◌, ◌≤◌, Bool, true, false, ◌&&◌, ◌||◌, Option, none, some, List, [], ◌∷◌, ◌++◌, not,
  any, Text, codes, is_empty, text_eq, leb, ltb, ◌==◌, Result, ok, err, ◌>>=◌, ℤ, if◌then◌else◌,
}
use syndi.Common.Maps.{insert}
use syndi.Golang.Strings.{split, trim_space}
use syndi.Client.Retry.{Client, Request, Attempt, do_request_with_retry, set_default, fetch_error}

abbrev pub is_upper_letter : ℕ → Bool
is_upper_letter c = leb b'A' c && leb c b'Z'

abbrev pub is_lower_letter : ℕ → Bool
is_lower_letter c = leb b'a' c && leb c b'z'

abbrev pub is_token_byte : ℕ → Bool
is_token_byte c =
    is_upper_letter c
    || is_lower_letter c
    || (leb b'0' c && leb c b'9')
    || any (λ t. t == c) (codes "!#$%&'*+-.^_`|~")

-- A letter is in upper case at the start and after a dash, else in lower case.
unfoldable pub recase : Bool → Text → Text
recase upper [] = []
recase true (c ∷ s) = (if is_lower_letter c then c - 32 else c) ∷ recase (c == b'-') s
recase false (c ∷ s) = (if is_upper_letter c then c + 32 else c) ∷ recase (c == b'-') s

-- textproto.CanonicalMIMEHeaderKey.
unfoldable pub canonical : Text → Text
canonical name = if any (λ c. not (is_token_byte c)) name then name else recase true name

abbrev pub Header : Type 0
Header = Text → Text

-- http.Header.Set.
abbrev pub set_header : Text → Text → Header → Header
set_header key value h name = if text_eq (canonical key) name then value else h name

-- The pairs of a map, in the order in which the code happens to visit them.
unfoldable pub set_headers : List (Text × Text) → Header → Header
set_headers [] h = h
set_headers ((key, value) ∷ headers) h = set_headers headers (set_header key value h)

abbrev pub no_header : Header
no_header name = []

-- `replayable` tells whether http.NewRequest sets GetBody for the reader.
pub record Body : Type 0 where
  pub content : Text
  pub replayable : Bool

abbrev pub form_type : Text
form_type = codes "application/x-www-form-urlencoded"

-- The answer to a HEAD request.
pub record HeadResponse : Type 0 where
  pub status_code : ℕ
  pub header : Header
  pub content_length : ℤ

pub record ResponseInfo : Type 0 where
  pub status_code : ℕ
  pub header : Header
  pub content_type : Text
  pub content_length : ℤ
  pub is_ok : Bool

abbrev pub first_part : List Text → Text
first_part [] = []
first_part (p ∷ parts) = trim_space p

unfoldable pub response_info : HeadResponse → ResponseInfo
response_info resp = record {
  status_code = resp.status_code;
  header = resp.header;
  content_type =
      if is_empty (resp.header (codes "Content-Type"))
      then []
      else first_part (split (resp.header (codes "Content-Type")) (codes ";"));
  content_length = resp.content_length;
  is_ok = resp.status_code == 200;
}

pub record RequestBuilder : Type 0 where
  pub method : Text
  pub url : Text
  pub headers : List (Text × Text)
  pub query : List (Text × Text)
  pub body : Option Body
  pub username : Text
  pub password : Text

abbrev pub builder : Text → Text → RequestBuilder
builder method url = record {
  method = method;
  url = url;
  headers = [];
  query = [];
  body = none;
  username = [];
  password = [];
}

unfoldable pub insert_all : List (Text × Text) → List (Text × Text) → List (Text × Text)
insert_all [] m = m
insert_all ((k, v) ∷ pairs) m = insert_all pairs (insert k v m)

abbrev pub with_header : Text → Text → RequestBuilder → RequestBuilder
with_header key value rb = record rb { headers = insert key value rb.headers }

abbrev pub with_headers : List (Text × Text) → RequestBuilder → RequestBuilder
with_headers headers rb = record rb { headers = insert_all headers rb.headers }

abbrev pub with_query : Text → Text → RequestBuilder → RequestBuilder
with_query key value rb = record rb { query = insert key value rb.query }

abbrev pub with_query_map : List (Text × Text) → RequestBuilder → RequestBuilder
with_query_map params rb = record rb { query = insert_all params rb.query }

abbrev pub with_body : Body → RequestBuilder → RequestBuilder
with_body body rb = record rb { body = some body }

-- `encoded` is the JSON, or the error of the encoder.
abbrev pub with_json : Result Text → RequestBuilder → Result RequestBuilder
with_json encoded rb = do
  json ← encoded
  ok (record rb {
    body = some (record { content = json; replayable = true });
    headers = insert (codes "Content-Type") (codes "application/json") rb.headers;
  })

abbrev pub with_basic_auth : Text → Text → RequestBuilder → RequestBuilder
with_basic_auth username password rb = record rb { username = username; password = password }

-- The network and the packages net/http, net/url and encoding/base64: `invalid` is the error of
-- http.NewRequest for a method and a URL, `with_params` adds parameters to a URL's query, `basic` is the
-- header's text for a user and a password, `send` tells what the attempts of a request with a body meet, and
-- `head` sends a request once.
pub record HttpApi : Type 0 where
  pub invalid : Text → Text → Option Text
  pub with_params : List (Text × Text) → Text → Text
  pub basic : Text → Text → Text
  pub send : Option Body → Request → ℕ → Attempt
  pub head : Request → Result HeadResponse

module _ (api : HttpApi) where
  abbrev pub is_replayable : Option Body → Bool
  is_replayable none = false
  is_replayable (some body) = body.replayable

  abbrev pub method_or_get : Text → Text
  method_or_get method = if is_empty method then codes "GET" else method

  -- http.NewRequestWithContext.
  abbrev pub new_request : Text → Text → Option Body → Result Request
  new_request method url body = elim (api.invalid (method_or_get method) url) [
    | some message ↦ err message
    | none ↦ ok (record {
      method = method_or_get method;
      url = url;
      header = no_header;
      has_get_body = is_replayable body;
    })
  ]

  abbrev pub with_params_unless_empty : List (Text × Text) → Request → Request
  with_params_unless_empty [] req = req
  with_params_unless_empty (p ∷ ps) req = record req { url = api.with_params (p ∷ ps) req.url }

  module _ (c : Client) where
    abbrev pub fetch : Option Body → Request → Result Text
    fetch body req = (do_request_with_retry (api.send body) c req).result

    unfoldable pub get : Text → Result Text
    get url = do req ← new_request (codes "GET") url none; fetch none req

    unfoldable pub get_with_query : Text → List (Text × Text) → Result Text
    get_with_query url params = do
      req ← new_request (codes "GET") url none
      fetch none (with_params_unless_empty params req)

    unfoldable pub post : Text → Option Body → Result Text
    post url body = do
      req ← new_request (codes "POST") url body
      fetch body (record req { header = set_header (codes "Content-Type") form_type req.header })

    unfoldable pub post_with_headers : Text → Text → List (Text × Text) → Result Text
    post_with_headers url content headers = do
      let body = some (record { content = content; replayable = true })
      req ← new_request (codes "POST") url body
      fetch body (record req {
        header = set_default (codes "Content-Type") form_type (set_headers headers req.header);
      })

    unfoldable pub get_with_headers : Text → List (Text × Text) → Result Text
    get_with_headers url headers = do
      req ← new_request (codes "GET") url none
      fetch none (record req { header = set_headers headers req.header })

    -- The methods that parse: `unmarshal` is the parser of JSON, XML or HTML.
    abbrev pub get_parsed {ℓ} : {A : Type ℓ} → (Text → Result A) → Text → Result A
    get_parsed unmarshal url = get url >>= unmarshal

    abbrev pub get_parsed_with_headers {ℓ} :
        {A : Type ℓ} → (Text → Result A) → Text → List (Text × Text) → Result A
    get_parsed_with_headers unmarshal url headers = get_with_headers url headers >>= unmarshal

    unfoldable pub get_response_info : Text → Result ResponseInfo
    get_response_info url = do
      req ← new_request (codes "HEAD") url none
      elim (api.head
          (record req { header = set_default (codes "User-Agent") c.user_agent req.header })) [
            | err message ↦ err (fetch_error url message)
            | ok resp ↦ ok (response_info resp)
          ]

    unfoldable pub is_valid_url : Text → Bool
    is_valid_url url = elim (get_response_info url) [
      | err message ↦ false
      | ok info ↦ leb 200 info.status_code && ltb info.status_code 400
    ]

    abbrev pub with_auth : RequestBuilder → Header → Header
    with_auth rb h =
        if is_empty rb.username
        then h
        else set_header (codes "Authorization") (api.basic rb.username rb.password) h

    -- RequestBuilder.Do. The loops over the two maps visit their pairs in any order: `visit_headers` and
    -- `visit_query` are those orders.
    module _ (visit_headers visit_query : List (Text × Text) → List (Text × Text)) where
      unfoldable pub send_built : RequestBuilder → Result Text
      send_built rb = do
        req ← new_request rb.method rb.url rb.body
        let named = record req { header = set_headers (visit_headers rb.headers) req.header }
        let queried = with_params_unless_empty (visit_query rb.query) named
        fetch rb.body (record queried { header = with_auth rb queried.header })

      abbrev pub send_parsed {ℓ} : {A : Type ℓ} → (Text → Result A) → RequestBuilder → Result A
      send_parsed unmarshal rb = send_built rb >>= unmarshal
