-- ===== src/HandlerCache.antt =====
-- internal/handlercache/handler.go: the caching wrapper of a route's handler, with the options that
-- setupGinRoutes of cmd/server.go gives it. `process` is middleware.ProcessFeed, `encode` the three
-- writers of feeds and `digest` the hexadecimal SHA-256 of a body.
pub mod Transparent
pub mod Revalidation
pub mod Unstored
use syndi.Common.{
  ℕ, Bool, true, false, not, ◌&&◌, List, [], ◌∷◌, ◌++◌, Option, none, some, Text, codes, text_eq,
  Result, ok, err, leb, any, if◌then◌else◌, is_empty,
}
use syndi.Golang.Strings.{has_prefix}
use syndi.Models.{Feed, Item, Time}
use syndi.Cache.Store.{Store}

-- What a request shows to the wrapper; an absent header or parameter is the empty text.
pub record Request : Type 0 where
  pub path : Text
  pub query : Text → Text
  pub header : Text → Text

-- A cached value: a feed, the nil feed, or what is no `*models.Feed`.
pub data Value (O : Type 0) : Type 0 where
  feed : Feed → Value O
  nil : Value O
  other : O → Value O

-- What a handler returns: a feed, the nil feed, or an error.
pub data Outcome : Type 0 where
  feed : Feed → Outcome
  nil : Outcome
  failed : Text → Outcome

-- The writers of package rss and of encoding/json.
pub record Encoders : Type 0 where
  pub rss : Feed → Result Text
  pub atom : Feed → Result Text
  pub json : Feed → Result Text

-- A response: a JSON object with an error, 304 or 200 with the headers X-Cache and ETag, and what
-- the server sends after a panic in the wrapper.
pub data Response : Type 0 where
  error : ℕ → Text → Response
  not_modified : Text → Option Text → Response
  success : Text → Option Text → Text → Text → Response
  panicked : Response

pub record Options : Type 0 where
  pub ttl : Time
  pub key_generator : Request → Text
  pub should_cache : Request → Option ℕ → Outcome → Bool
  pub etag_enabled : Bool

unfoldable pub default_key_generator : Request → Text
default_key_generator r = codes "feed:" ++ r.path

abbrev pub bypass_list : List Text
bypass_list = codes "/robots.txt" ∷ codes "/favicon.ico" ∷ codes "/logo.png" ∷ codes "/api/" ∷ []

unfoldable pub should_bypass_path : Text → Bool
should_bypass_path path =
    if text_eq path (codes "/") then true else any (λ b. has_prefix path b) bypass_list

abbrev pub is_nil : Outcome → Bool
is_nil nil = true
is_nil _ = false

unfoldable pub default_should_cache : Request → Outcome → Bool
default_should_cache r o =
    if text_eq (r.header (codes "X-Cache-Bypass")) (codes "true")
    then false
    else if is_nil o
    then false
    else if should_bypass_path r.path
    then false
    else true

-- The `ShouldCache` of setupGinRoutes; the number is the "error_code" of the context.
unfoldable pub route_should_cache : Request → Option ℕ → Outcome → Bool
route_should_cache r none o = default_should_cache r o
route_should_cache r (some code) o = if leb 400 code then false else default_should_cache r o

abbrev pub route_options : Time → Options
route_options ttl = record {
  ttl = ttl;
  key_generator = default_key_generator;
  should_cache = route_should_cache;
  etag_enabled = true;
}

unfoldable pub generate_etag : (Text → Text) → Text → Text
generate_etag digest body = if is_empty body then [] else codes "\"" ++ (digest body ++ codes "\"")

unfoldable pub found_feed : {O : Type 0} → Option (Value O) → Option Feed
found_feed (some (feed f)) = some f
found_feed _ = none

abbrev pub typed : Text → Result Text → Result (Text × Text)
typed t (ok body) = ok (body, t)
typed t (err e) = err e

-- The body and its content type.
unfoldable pub serialize_feed : Encoders → Feed → Text → Result (Text × Text)
serialize_feed encode f format =
    if text_eq format (codes "atom")
    then typed (codes "application/atom+xml; charset=utf-8") (encode.atom f)
    else if text_eq format (codes "json")
    then typed (codes "application/json; charset=utf-8") (encode.json f)
    else typed (codes "application/rss+xml; charset=utf-8") (encode.rss f)

module _ (process : Time → (Text → Text) → List Item → List Item) (encode : Encoders)
    (digest : Text → Text) where
  -- The feed of the response: four fields of the raw feed, its items processed.
  unfoldable pub response_feed : Time → Request → Feed → Feed
  response_feed now r f = record {
    title = f.title;
    description = f.description;
    link = f.link;
    items = process now r.query f.items;
    author = none;
    updated = none;
  }

  -- The response with a body, or without it if the client has that body by its ETag.
  unfoldable pub conditional : Bool → Text → Request → Text × Text → Response
  conditional false status r (body, content_type) = success status none content_type body
  conditional true status r (body, content_type) =
      let etag = generate_etag digest body in
      let if_none_match = r.header (codes "If-None-Match") in
      if not (is_empty if_none_match) && text_eq if_none_match etag
      then not_modified status (some etag)
      else success status (some etag) content_type body

  unfoldable pub respond : Options → Time → Text → Request → Feed → Response
  respond opts now status r f =
      elim (serialize_feed encode (response_feed now r f) (r.query (codes "format"))) [
        | err e ↦ error 500 e
        | ok b ↦ conditional opts.etag_enabled status r b
      ]

  module _ {O : Type 0} (store : Store (Value O)) (opts : Options) where
    -- After the handler: its result with the context's error code, and the cache as it left it.
    unfoldable pub after_handler :
        Time → Request → Option ℕ → Outcome → store.State → Response × store.State
    after_handler later r code (failed e) s =
        (elim code [ none ↦ error 500 e | some c ↦ error c e ], s)
    after_handler later r code (feed f) s = (
      respond opts later (codes "MISS") r f,
      if opts.should_cache r code (feed f)
          then store.set later (opts.key_generator r) (feed f) opts.ttl s
          else s,
    )
    after_handler later r code nil s = (
      panicked,
      if opts.should_cache r code nil
          then store.set later (opts.key_generator r) nil opts.ttl s
          else s,
    )

    -- `Cached`: `now` is the time of the lookup, `later` the time after the handler.
    unfoldable pub cached :
        Time
        → Time
        → (Request → store.State → (Option ℕ × Outcome) × store.State)
        → Request
        → store.State
        → Response × store.State
    cached now later handler r s =
        let (found, s') = store.get now (opts.key_generator r) s in
        elim (found_feed found) [
          | some f ↦ (respond opts now (codes "HIT") r f, s')
          | none ↦ let (result, s'') = handler r s' in after_handler later r result.0 result.1 s''
        ]
