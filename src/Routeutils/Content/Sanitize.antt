-- ===== src/Routeutils/Content/Sanitize.antt =====
-- sanitizeNode, sanitizeURL and the sets of SanitizeHTML of internal/routeutils/content.go, over the
pub mod Forest
pub mod Urls
pub mod Clean
-- trees that x/net/html parses.
use syndi.Common.{
  ℕ, Bool, true, false, not, ◌&&◌, ◌||◌, List, [], ◌∷◌, ◌++◌, map, any, Option, none, some, Text,
  codes, text_eq, take, if◌then◌else◌, ◌==◌, is_empty,
}
use syndi.Golang.Strings.{to_lower, trim_space, has_prefix, index_func}

-- An html.Node with its children; a comment or a doctype is `other`.
mutual
  pub data Node : Type 0 where
    text : Text → Node
    element : Text → List (Text × Text) → Nodes → Node
    document : Nodes → Node
    other : Node

  pub data Nodes : Type 0 where
    nil : Nodes
    cons : Node → Nodes → Nodes

-- Whether a URL is safe, as the loop over the prefixes decides.
unfoldable pub rejects : List Text → Text → Bool
rejects [] u = false
rejects (prefix ∷ prefixes) u =
    let later = rejects prefixes u in if has_prefix u prefix then true else later

abbrev pub unsafe_prefixes : List Text
unsafe_prefixes = codes "javascript:" ∷ codes "vbscript:" ∷ codes "data:" ∷ []

abbrev pub is_query_or_fragment : ℕ → Bool
is_query_or_fragment c = c == b'?' || c == b'#'

-- `u[:i]` where there is an index.
abbrev pub cut_at : Option ℕ → Text → Text
cut_at none u = u
cut_at (some i) u = take i u

unfoldable pub sanitize_url : Text → Bool
unfolding rejects
sanitize_url u =
    let lowered = trim_space (to_lower u) in
    let u = cut_at (index_func is_query_or_fragment lowered) lowered in
    if rejects unsafe_prefixes u then false else true

abbrev pub default_allowed_attrs : List Text
default_allowed_attrs =
    codes "href" ∷ codes "src" ∷ codes "alt" ∷ codes "title" ∷ codes "width" ∷ codes "height" ∷ []

-- The set of attributes, in lower case, that SanitizeHTML builds.
abbrev pub attr_set : List Text → List Text
attr_set [] = map to_lower default_allowed_attrs
attr_set (a ∷ attrs) = map to_lower (a ∷ attrs)

-- `html.EscapeString`.
abbrev pub escape_rune : ℕ → Text
escape_rune c =
    if c == b'&'
    then codes "&amp;"
    else if c == b'\''
    then codes "&#39;"
    else if c == b'<'
    then codes "&lt;"
    else if c == b'>'
    then codes "&gt;"
    else if c == b'"'
    then codes "&#34;"
    else c ∷ []

unfoldable pub escape_string : Text → Text
escape_string [] = []
escape_string (c ∷ s) = escape_rune c ++ escape_string s

abbrev pub is_url_attr : Text → Bool
is_url_attr key = text_eq key (codes "href") || text_eq key (codes "src")

abbrev pub write_attr : Text → Text → Text
write_attr key value = b' ' ∷ key ++ (b'=' ∷ b'"' ∷ escape_string value ++ b'"' ∷ [])

abbrev pub open_tag : Text → Text
open_tag tag = b'<' ∷ tag

abbrev pub close_tag : Text → Text
close_tag tag = b'<' ∷ b'/' ∷ tag ++ b'>' ∷ []

-- The sets are the lists of their members.
abbrev pub is_allowed : List Text → Text → Bool
is_allowed allowed tag = any (text_eq tag) allowed

module _ (attrs : List Text) where
  -- The test that keeps an attribute, from the two `continue`s of the loop.
  abbrev pub keeps_attr : Text → Text → Bool
  keeps_attr name value =
      let key = to_lower name in
      if not (any (text_eq key) attrs)
      then false
      else if is_url_attr key && not (sanitize_url value)
      then false
      else true

  -- The loop over the attributes writes to the buffer.
  unfoldable pub write_attrs : List (Text × Text) → Text → Text
  write_attrs [] buf = buf
  write_attrs ((name, value) ∷ later) buf =
      write_attrs later (if keeps_attr name value then buf ++ write_attr name value else buf)

module _ (allowed attrs : List Text) where
  -- The buffer after a node, and after the siblings from `FirstChild` on.
  unfoldable mutual
    pub sanitize_node : Node → Text → Text
    sanitize_node (text s) buf = buf ++ s
    sanitize_node (element tag attributes children) buf =
        let opened = write_attrs attrs attributes (buf ++ open_tag tag) ++ b'>' ∷ [] in
        let buf = sanitize_nodes children (if is_allowed allowed tag then opened else buf) in
        if is_allowed allowed tag then buf ++ close_tag tag else buf
    sanitize_node (document children) buf = sanitize_nodes children buf
    sanitize_node other buf = buf

    pub sanitize_nodes : Nodes → Text → Text
    sanitize_nodes nil buf = buf
    sanitize_nodes (cons n siblings) buf = sanitize_nodes siblings (sanitize_node n buf)
