-- ===== src/Tests/Configuring.antt =====
-- Tests of pkg/config/config.go.
use syndi.Common.{
  Result, ◌++◌, Text, [], ◌∷◌, codes, Bool, ◌==◌, ok, err, ◌≡◌, refl, text_eq, if◌then◌else◌,
}
use syndi.Config.{ConfigApi, default_config, load, get_listen_addrs, listen_loop, first_existing}
use syndi.Golang.Strings.{
  split_from, has_prefix, trim_space, trim_left, trim_func, is_space, contains,
}

-- One file, /config.yaml, with an access key; the working directory is the root.
abbrev root_of : Text → Text
root_of [] = codes "/"
root_of (c ∷ cs) = if c == b'/' then c ∷ cs else b'/' ∷ c ∷ cs

abbrev is_there : Text → Bool
is_there path = text_eq (root_of path) (codes "/config.yaml")

-- The error names the path.
abbrev contents : Text → Result Text
contents path =
    if is_there path
    then ok (codes "access_key: secret")
    else err (codes "open " ++ (path ++ codes ": no such file"))

abbrev one_file : ConfigApi
one_file = record {
  getenv = λ key. [];
  stat = is_there;
  read_file = contents;
  unmarshal = λ content cfg. ok (record cfg { access_key = codes "secret" });
  abs = λ path. ok (root_of path);
}

loaded_test : load one_file [] ≡ ok (record default_config { access_key = codes "secret" })
unfolding load first_existing text_eq
loaded_test = refl

addresses_test :
    get_listen_addrs (record default_config {
      server = record (default_config.server) { host = codes "127.0.0.1, ::1" };
    })
    ≡ codes "127.0.0.1:1200" ∷ codes "[::1]:1200" ∷ []
unfolding get_listen_addrs listen_loop split_from has_prefix trim_space trim_left trim_func is_space
    contains
addresses_test = refl

-- A host of commas alone names no address.
no_address_test :
    get_listen_addrs
      (record default_config { server = record (default_config.server) { host = codes "," } })
    ≡ []
unfolding get_listen_addrs listen_loop split_from has_prefix trim_space trim_left trim_func is_space
    contains
no_address_test = refl
