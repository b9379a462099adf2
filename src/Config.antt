-- ===== src/Config.antt =====
-- pkg/config/config.go: the configuration, and where it is read from. Files, the environment and the
-- reader of YAML are the parameter `api`.
pub mod Files
pub mod Opened
use syndi.Common.{
  ℕ, ◌*◌, Bool, true, false, List, [], ◌∷◌, ◌++◌, Text, codes, is_empty, text_eq, Result, ok, err,
  ◌>>=◌, ℤ, pos, if◌then◌else◌,
}
use syndi.Golang.Strings.{split, trim_space, contains}
use syndi.Models.{Time}
use syndi.Routeutils.Urls.{wrap}

pub record ServerConfig : Type 0 where
  pub host : Text
  pub port : Text
  pub env : Text
  pub read_timeout : Time
  pub write_timeout : Time
  pub idle_timeout : Time

-- `gc_discard_ratio` is the text of a floating-point number.
pub record CacheConfig : Type 0 where
  pub kind : Text
  pub badger_path : Text
  pub cleanup_interval : Time
  pub ttl : Time
  pub memory_size : ℤ
  pub memtable_mb : ℤ
  pub num_memtables : ℤ
  pub block_cache_mb : ℤ
  pub index_cache_mb : ℤ
  pub vlog_file_mb : ℤ
  pub gc_interval : Time
  pub gc_discard_ratio : Text

pub record ClientConfig : Type 0 where
  pub user_agent : Text
  pub timeout : Time
  pub max_redirects : ℤ
  pub proxy : Text
  pub no_proxy : Bool

pub record Config : Type 0 where
  pub server : ServerConfig
  pub cache : CacheConfig
  pub client : ClientConfig
  pub disable_nsfw : Bool
  pub enable_cache : Bool
  pub access_key : Text
  pub allow_origin : Text

abbrev pub seconds : ℕ → Time
seconds n = pos (n * 1_000_000_000)

abbrev pub default_config : Config
default_config = record {
  server = record {
    host = codes "127.0.0.1";
    port = codes "1200";
    env = codes "production";
    read_timeout = seconds 30;
    write_timeout = seconds 30;
    idle_timeout = seconds 120;
  };
  cache = record {
    kind = codes "memory";
    badger_path = codes "./data/cache";
    cleanup_interval = seconds 300;
    ttl = seconds 900;
    memory_size = pos 10000;
    memtable_mb = pos 16;
    num_memtables = pos 4;
    block_cache_mb = pos 32;
    index_cache_mb = pos 0;
    vlog_file_mb = pos 128;
    gc_interval = seconds 600;
    gc_discard_ratio = codes "0.5";
  };
  client = record {
    user_agent = codes "Syndi/0.0.1 (+https://github.com/xihale/syndi)";
    timeout = seconds 30;
    max_redirects = pos 10;
    proxy = [];
    no_proxy = false;
  };
  disable_nsfw = false;
  enable_cache = true;
  access_key = [];
  allow_origin = codes "*";
}

-- `stat` tells whether a file is there; `unmarshal` reads YAML over a configuration.
pub record ConfigApi : Type 0 where
  pub getenv : Text → Text
  pub stat : Text → Bool
  pub read_file : Text → Result Text
  pub unmarshal : Text → Config → Result Config
  pub abs : Text → Result Text

abbrev pub default_paths : List Text
default_paths = codes "config.yaml" ∷ codes "/etc/syndi/config.yaml" ∷ []

-- net.JoinHostPort.
abbrev pub join_host_port : Text → Text → Text
join_host_port host port =
    if contains host (codes ":") then b'[' ∷ host ++ (codes "]:" ++ port) else host ++ (b':' ∷ port)

unfoldable pub listen_loop : Text → List Text → List Text
listen_loop port [] = []
listen_loop port (h ∷ hosts) =
    let others = listen_loop port hosts in
    if is_empty (trim_space h) then others else join_host_port (trim_space h) port ∷ others

unfoldable pub get_listen_addrs : Config → List Text
get_listen_addrs c =
    let host = trim_space c.server.host in
    if is_empty host
    then (b':' ∷ c.server.port) ∷ []
    else listen_loop c.server.port (split host (codes ","))

abbrev pub is_production : Config → Bool
is_production c = text_eq c.server.env (codes "production")

module _ (api : ConfigApi) where
  unfoldable pub first_existing : List Text → Text
  first_existing [] = []
  first_existing (path ∷ paths) =
      let rest = first_existing paths in if api.stat path then path else rest

  -- The path that Load reads; empty if there is none.
  abbrev pub chosen_path : Text → Text
  chosen_path config_path =
      if is_empty config_path
      then (if is_empty (api.getenv (codes "SYNDI_CONFIG"))
          then first_existing default_paths
          else api.getenv (codes "SYNDI_CONFIG"))
      else config_path

  abbrev pub load_file : Text → Result Config
  load_file path = do
    content ←
        wrap (codes "failed to read config file " ++ (path ++ codes ": ")) (api.read_file path)
    wrap (codes "failed to parse config file " ++ (path ++ codes ": "))
        (api.unmarshal content default_config)

  unfoldable pub load : Text → Result Config
  load config_path =
      if is_empty (chosen_path config_path)
      then ok default_config
      else load_file (chosen_path config_path)

  abbrev pub existing : Text → Result Text
  existing path = do
    absolute ←
        wrap (codes "failed to get absolute path for " ++ (path ++ codes ": ")) (api.abs path)
    if api.stat absolute then ok absolute else err (codes "config file not found: " ++ absolute)

  unfoldable pub get_config_path : Text → Result Text
  get_config_path config_path =
      if is_empty config_path
      then (if is_empty (api.getenv (codes "SYNDI_CONFIG"))
          then (if is_empty (first_existing default_paths)
              then err (codes "no config file found, tried config.yaml and /etc/syndi/config.yaml")
              else api.abs (first_existing default_paths))
          else existing (api.getenv (codes "SYNDI_CONFIG")))
      else existing config_path

  -- Get.
  abbrev pub get_or_default : Text → Text → Text
  get_or_default key default_value =
      if is_empty (api.getenv key) then default_value else api.getenv key

  -- The configuration that cmd/server.go starts with.
  abbrev pub start_config : Config
  start_config = elim (load []) [ ok cfg ↦ cfg | err message ↦ default_config ]
