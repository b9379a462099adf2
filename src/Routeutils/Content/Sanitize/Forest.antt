-- ===== src/Routeutils/Content/Sanitize/Forest.antt =====
-- Forests of the markup that sanitizeNode of internal/routeutils/content.go writes.
use mathlib.Core.List.{append_assoc}
use syndi.Common.{List, [], ◌∷◌, ◌++◌, Text, ◌≡◌, refl}
use syndi.Routeutils.Content.Sanitize.{
  Node, text, element, document, other, Nodes, nil, cons, write_attr, open_tag, close_tag,
}

unfoldable pub append : Nodes → Nodes → Nodes
append nil ns = ns
append (cons n siblings) ns = cons n (append siblings ns)

unfoldable pub print_attrs : List (Text × Text) → Text
print_attrs [] = []
print_attrs ((name, value) ∷ later) = write_attr name value ++ print_attrs later

-- A forest as markup: text as it is, and elements with quoted attributes.
unfoldable mutual
  pub print_node : Node → Text
  print_node (text s) = s
  print_node (element tag attributes children) =
      open_tag tag ++ (print_attrs attributes ++ (b'>' ∷ print_nodes children ++ close_tag tag))
  print_node (document children) = print_nodes children
  print_node other = []

  pub print_nodes : Nodes → Text
  print_nodes nil = []
  print_nodes (cons n siblings) = print_node n ++ print_nodes siblings

-- The text of a forest.
unfoldable mutual
  pub text_node : Node → Text
  text_node (text s) = s
  text_node (element tag attributes children) = text_nodes children
  text_node (document children) = text_nodes children
  text_node other = []

  pub text_nodes : Nodes → Text
  text_nodes nil = []
  text_nodes (cons n siblings) = text_node n ++ text_nodes siblings

pub print_nodes-append :
    (ms ns : Nodes) → print_nodes (append ms ns) ≡ print_nodes ms ++ print_nodes ns
unfolding append print_node
print_nodes-append nil ns = refl
print_nodes-append (cons n ms) ns =
    rw (print_nodes-append ms ns, append_assoc (print_node n) (print_nodes ms) (print_nodes ns))
      refl

pub text_nodes-append : (ms ns : Nodes) → text_nodes (append ms ns) ≡ text_nodes ms ++ text_nodes ns
unfolding append text_node
text_nodes-append nil ns = refl
text_nodes-append (cons n ms) ns =
    rw (text_nodes-append ms ns, append_assoc (text_node n) (text_nodes ms) (text_nodes ns)) refl
