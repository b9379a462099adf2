-- ===== src/Routeutils/Content/Sanitize/Clean.antt =====
-- The markup that sanitizeNode of internal/routeutils/content.go lets through, as a forest.
use mathlib.Core.List.{append_assoc, append-nil}
use syndi.Common.{
  Bool, true, false, ◌&&◌, List, [], ◌∷◌, ◌++◌, Text, Bool-cases, inl, inr, if◌then◌else◌, ◌≡◌,
  refl, sym, arith,
}
use syndi.Routeutils.Content.Sanitize.{
  Node, text, element, document, other, Nodes, nil, cons, is_allowed, keeps_attr, write_attr,
  write_attrs, open_tag, close_tag, sanitize_node, sanitize_nodes,
}
use syndi.Routeutils.Content.Sanitize.Urls.{is_safe_attr, keeps_attr-is_safe_attr}
use syndi.Routeutils.Content.Sanitize.Forest.{
  append, print_attrs, print_node, print_nodes, text_node, text_nodes, print_nodes-append,
  text_nodes-append,
}

element-append :
    (buf o a n c : Text)
    → ((((buf ++ o) ++ a) ++ b'>' ∷ []) ++ n) ++ c ≡ buf ++ ((o ++ (a ++ (b'>' ∷ n ++ c))) ++ [])
element-append buf o a n c = simp (append_assoc, append-nil) refl

module _ (attrs : List Text) where
  unfoldable pub are_clean_attrs : List (Text × Text) → Bool
  are_clean_attrs [] = true
  are_clean_attrs ((name, value) ∷ later) = is_safe_attr attrs name value && are_clean_attrs later

  unfoldable pub clean_attrs : List (Text × Text) → List (Text × Text)
  clean_attrs [] = []
  clean_attrs ((name, value) ∷ later) =
      let rest = clean_attrs later in
      if keeps_attr attrs name value then (name, value) ∷ rest else rest

  are_clean_attrs-clean_attrs :
      (ats : List (Text × Text)) → are_clean_attrs (clean_attrs ats) ≡ true
  unfolding clean_attrs are_clean_attrs
  are_clean_attrs-clean_attrs [] = refl
  are_clean_attrs-clean_attrs ((name, value) ∷ ats) =
      ground (arith, are_clean_attrs-clean_attrs ats, keeps_attr-is_safe_attr attrs name value)

  write_attrs-print_attrs :
      (ats : List (Text × Text)) (buf : Text)
      → write_attrs attrs ats buf ≡ buf ++ print_attrs (clean_attrs ats)
  unfolding write_attrs print_attrs clean_attrs
  write_attrs-print_attrs [] buf = sym (append-nil buf)
  write_attrs-print_attrs ((name, value) ∷ ats) buf =
      elim (Bool-cases (keeps_attr attrs name value)) [
        | inl e ↦
            rw
              (
                e,
                write_attrs-print_attrs ats (buf ++ write_attr name value),
                append_assoc buf (write_attr name value) (print_attrs (clean_attrs ats)),
              )
              refl
        | inr e ↦ rw (e, write_attrs-print_attrs ats buf) refl
      ]

module _ (allowed attrs : List Text) where
  -- A forest of text and of elements with an allowed tag and with attributes that are kept.
  unfoldable mutual
    pub is_clean : Node → Bool
    is_clean (text s) = true
    is_clean (element tag attributes children) =
        is_allowed allowed tag && (are_clean_attrs attrs attributes && are_clean children)
    is_clean (document children) = false
    is_clean other = false

    pub are_clean : Nodes → Bool
    are_clean nil = true
    are_clean (cons n siblings) = is_clean n && are_clean siblings

  -- The forest without the elements that are not allowed, their children in their place.
  unfoldable mutual
    pub clean_node : Node → Nodes
    clean_node (text s) = cons (text s) nil
    clean_node (element tag attributes children) =
        let within = clean_nodes children in
        if is_allowed allowed tag
        then cons (element tag (clean_attrs attrs attributes) within) nil
        else within
    clean_node (document children) = clean_nodes children
    clean_node other = nil

    pub clean_nodes : Nodes → Nodes
    clean_nodes nil = nil
    clean_nodes (cons n siblings) = append (clean_node n) (clean_nodes siblings)

  are_clean-append :
      (ms ns : Nodes) → are_clean ms ≡ true → are_clean ns ≡ true → are_clean (append ms ns) ≡ true
  unfolding append is_clean
  are_clean-append nil ns h k = k
  are_clean-append (cons n ms) ns h k = ground (arith, are_clean-append ms ns)

  -- What the filter keeps is clean.
  mutual
    unfolding is_clean clean_node

    pub are_clean-clean_node : (n : Node) → are_clean (clean_node n) ≡ true
    are_clean-clean_node (text s) = refl
    are_clean-clean_node (element tag ats children) =
        ground (arith, are_clean-clean_nodes children, are_clean_attrs-clean_attrs attrs ats)
    are_clean-clean_node (document children) = are_clean-clean_nodes children
    are_clean-clean_node other = refl

    pub are_clean-clean_nodes : (ns : Nodes) → are_clean (clean_nodes ns) ≡ true
    are_clean-clean_nodes nil = refl
    are_clean-clean_nodes (cons n ns) =
        are_clean-append (clean_node n) (clean_nodes ns) (are_clean-clean_node n)
          (are_clean-clean_nodes ns)

  -- No text is lost.
  mutual
    unfolding text_node clean_node

    text_nodes-clean_node : (n : Node) → text_nodes (clean_node n) ≡ text_node n
    text_nodes-clean_node (text s) = append-nil s
    text_nodes-clean_node (element tag ats children) = elim (Bool-cases (is_allowed allowed tag)) [
      | inl e ↦ rw (e, text_nodes-clean_nodes children, append-nil (text_nodes children)) refl
      | inr e ↦ rw (e, text_nodes-clean_nodes children) refl
    ]
    text_nodes-clean_node (document children) = text_nodes-clean_nodes children
    text_nodes-clean_node other = refl

    text_nodes-clean_nodes : (ns : Nodes) → text_nodes (clean_nodes ns) ≡ text_nodes ns
    text_nodes-clean_nodes nil = refl
    text_nodes-clean_nodes (cons n ns) =
        rw
          (
            text_nodes-append (clean_node n) (clean_nodes ns),
            text_nodes-clean_node n,
            text_nodes-clean_nodes ns,
          )
          refl

  -- The markup is the print of the clean forest.
  mutual
    unfolding sanitize_node print_node clean_node

    pub sanitize_node-print :
        (n : Node) (buf : Text)
        → sanitize_node allowed attrs n buf ≡ buf ++ print_nodes (clean_node n)
    sanitize_node-print (text s) buf = rw (append-nil s) refl
    sanitize_node-print (element tag ats children) buf =
        elim (Bool-cases (is_allowed allowed tag)) [
          | inl e ↦
              rw
                (
                  e,
                  sanitize_nodes-print children
                      (write_attrs attrs ats (buf ++ open_tag tag) ++ b'>' ∷ []),
                  write_attrs-print_attrs attrs ats (buf ++ open_tag tag),
                )
                (element-append buf (open_tag tag) (print_attrs (clean_attrs attrs ats))
                  (print_nodes (clean_nodes children)) (close_tag tag))
          | inr e ↦ rw (e, sanitize_nodes-print children buf) refl
        ]
    sanitize_node-print (document children) buf = sanitize_nodes-print children buf
    sanitize_node-print other buf = sym (append-nil buf)

    pub sanitize_nodes-print :
        (ns : Nodes) (buf : Text)
        → sanitize_nodes allowed attrs ns buf ≡ buf ++ print_nodes (clean_nodes ns)
    sanitize_nodes-print nil buf = sym (append-nil buf)
    sanitize_nodes-print (cons n ns) buf =
        rw
          (
            sanitize_nodes-print ns (sanitize_node allowed attrs n buf),
            sanitize_node-print n buf,
            print_nodes-append (clean_node n) (clean_nodes ns),
            append_assoc buf (print_nodes (clean_node n)) (print_nodes (clean_nodes ns)),
          )
          refl

module _ (allowed attrs : List Text) where
  -- Whatever the document, the markup that sanitizeNode writes is the print of a forest of text and of
  -- elements, whose tags are all allowed, whose attributes are all in the set of attributes, and whose
  -- href and src are all URLs that sanitizeURL accepts; and the forest has all the text of the
  -- document, in its order.
  pub sanitize_node-clean :
      (n : Node)
      → (forest : Nodes) × (sanitize_node allowed attrs n [] ≡ print_nodes forest)
        × (are_clean allowed attrs forest ≡ true)
        × (text_nodes forest ≡ text_node n)
  sanitize_node-clean n = (
    clean_node allowed attrs n,
    sanitize_node-print allowed attrs n [],
    are_clean-clean_node allowed attrs n,
    text_nodes-clean_node allowed attrs n,
  )
