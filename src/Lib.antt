-- ===== src/Lib.antt =====
-- Syndi, a server of RSS feeds in Go: the path of a request from the registered routes through the
-- cache to the items of the answer. Paths are from the repository's root.
--
-- Routes are registered from specifications (internal/routeutils/route.go) in the registry
-- (pkg/registry/registry.go). cmd/server.go wraps each route's handler by `Cached`
-- (internal/handlercache/handler.go), which looks a feed up in a cache (pkg/cache), calls the handler
-- where it is missing, stores the feed, and answers with the items that `ProcessFeed`
-- (internal/middleware/parameter.go) selects from it.
--
-- Common: helpers on lists, texts, maps, results and integers over the native numbers. A text is the
--   list of its code points, so that only valid UTF-8 is modelled.
-- Golang: what the code uses of Go's packages strings, strconv, fmt and sort, by its documentation.
-- Models: the types of pkg/models/feed.go. A time is an unbounded number of nanoseconds, products of
--   durations wrap around at 64 bits.
-- Middleware.Parameter: ProcessFeed and its steps. Regular expressions and the sort are
--   parameters. The items are values; in Sharing they are slices over a heap of arrays.
-- Cache.Memory: MemoryCache over the interface Cache.Lru of the LRU map; Cache.Badger: BadgerCache
--   over that and the interface Cache.Disk of the database. Each method is a function from a state
--   to its result and the new state; the time of the clock is an argument. In Cache.Badger.World the
--   atomic sections of the methods and goroutines are steps that interleave in any order; the
--   promotion of a value runs at most a given delay after it was started.
-- Cache.Store: the interface of a cache for its clients, filled by the memory cache; its law holds for
--   BadgerCache too.
-- Registry, Routeutils.Routes: the registry as two association lists, and the registration of routes
--   from specifications.
-- Registry.Env: pkg/registry/env.go, the environment variables of a namespace; Context:
--   pkg/context/context.go, what a handler has of its request, with CacheTryGet.
-- Client.Retry: doRequestWithRetry of internal/client/client.go. What an attempt meets is a function of
--   the request and the attempt's number; the loop recurses on the attempts that are left.
-- Client.Options: its options, New, the limiters by host, redirects and cookies; Client.Requests: its
--   methods, GetResponseInfo and the request builder, over the interface HttpApi of net/http and net/url.
-- Config: pkg/config/config.go, over the interface ConfigApi of files, the environment and YAML, and the
--   configuration that cmd/server.go starts with.
-- Middleware.AccessKey: the check of internal/middleware/access_key.go.
-- Routeutils.Items: feeds and items as routes build them (feed.go and items.go).
-- Routeutils.Params, Routeutils.Filter, Routeutils.Caching: params.go, filter.go and cache.go of
--   internal/routeutils, from which the routes are written.
-- Routeutils.Content: content.go, with white space, truncation and the sanitizing of trees of HTML,
--   and the pipeline CleanDescription over the interface Page of the HTML parser; Routeutils.Urls: url.go
--   and link.go over the interface UrlApi of net/url.
-- Dates: pkg/utils/date/parser.go over the interface TimeApi of package time, with the order of a range
--   over a map as a parameter.
-- Logger.Kdl: the encoder of log entries in pkg/logger/kdl_encoder.go. Logger.Kdl.Quoted has a reader
--   of what it writes.
-- Feeds: pkg/rss/generator.go, the RSS and Atom documents of a feed; encoding/xml is a parameter.
-- Reader: internal/parser/rssfeed/rssfeed.go, feeds from documents that encoding/xml has decoded; it
--   reads dates by Dates.
-- Extract: internal/parser/extract.go. A document is the function from a selector to the elements that
--   match it.
-- Middleware.RequestLog: what internal/middleware/logger.go logs of a request.
-- Middleware.Stack: the stack of middleware that cmd/server.go applies to every request, with
--   internal/middleware/recovery.go and header.go. The context of gin is a parameter.
-- Disguise: internal/disguise/profile.go, the headers of requests that look like a browser's. The hash
--   and the random numbers are parameters.
-- Routeutils.Authors: internal/routeutils/author.go.
-- Routes.Bilibili: routes/bilibili/wbi.go, the key and the signature of requests, over the
--   hash MD5, and the cache of the keys.
-- Routes.Epicgames: routes/epicgames/free.go, its feed from the decoded answer.
-- Routes.Toutiao: routes/toutiao/abogus.go, the token with its hash SM3, its cipher RC4 and its base64.
-- Routes.Huxiu: routes/huxiu/nuxt.go, documents of references; the decoded array is given.
-- Routes.Qq: routes/qq/fact.go, its token, over MD5 and DES, and its feed from the decoded answer.
-- HandlerCache: the wrapper, over any cache, the writers of feeds and the digest as parameters.
--
-- Lists and trees are recursed on structurally. Fuel is given to four loops: the decimal digits of a
-- number (one more than the number), the zeros of SM3's padding (64), the derivation of a key (17), and
-- the resolution of references (one more than the entries). Letters are lowered as ASCII.
-- Not modelled: most routes, which fetch and map the data of a site, the wrappers of goquery, the
-- documentation pages, the setup of the logger, the tokens of a rate limiter, which are floating-point
-- numbers, Clear and the value-log collection of BadgerCache, which only call the database.
pub mod Common
pub mod Golang
pub mod Models
pub mod Client
pub mod Logger
pub mod Middleware
pub mod Cache
pub mod Config
pub mod Context
pub mod Dates
pub mod Registry
pub mod Routes
pub mod Routeutils
pub mod HandlerCache
pub mod Feeds
pub mod Reader
pub mod Extract
pub mod Disguise
pub mod Tests
