-- ===== src/Routeutils/Content/Pipeline/Sanitized.antt =====
-- What CleanDescription of internal/routeutils/content.go returns when it is asked to sanitize.
use mathlib.Core.List.{append-nil}
use syndi.Common.{
  Bool, true, false, List, [], ◌∷◌, ◌++◌, Text, is_empty, codes, Result, ok, err, ◌>>=◌, >>=-eq-ok,
  if◌then◌else◌, ◌≡◌, refl, sym, ◌∙◌,
}
use syndi.Routeutils.Urls.{UrlApi, wrap}
use syndi.Routeutils.Content.Whitespace.Words.{fields, join_words, normalize_whitespace-fields}
use syndi.Routeutils.Content.Sanitize.{Node, Nodes, attr_set, sanitize_node}
use syndi.Routeutils.Content.Sanitize.Forest.{print_nodes, text_node, text_nodes}
use syndi.Routeutils.Content.Sanitize.Clean.{are_clean, sanitize_node-clean}
use syndi.Routeutils.Content.Pipeline.{
  Page, CleanOptions, step, run_passes, sanitize_step, append_suffix, strip_html, sanitize_html,
  clean_description,
}

-- A text without scripts, without styles and then without tags, unescaped.
abbrev pub plain_text : Page → Text → Text
plain_text page s =
    let unscripted =
      page.replace_all (codes "(?is)<script\\b[^>]*>.*?(?:</script\\s*>|\\z)") [] s in
    let unstyled =
      page.replace_all (codes "(?is)<style\\b[^>]*>.*?(?:</style\\s*>|\\z)") [] unscripted in
    page.unescape_string (page.replace_all (codes "<[^>]*>") [] unstyled)

-- What is made of `given`: its words between single blanks, where no tag is allowed; where some are,
-- the markup of a forest of allowed tags and safe attributes that has all the text of the parsed
-- document in its order, and no other text.
abbrev pub IsSanitized : Page → List Text → List Text → Text → Text → Type 0
IsSanitized page [] attrs given body = body ≡ join_words (fields (plain_text page given))
IsSanitized page (tag ∷ tags) attrs given body =
    (doc : Node) × (page.parse given ≡ ok doc)
    × (forest : Nodes) × (body ≡ print_nodes forest)
    × (are_clean (tag ∷ tags) (attr_set attrs) forest ≡ true)
    × (text_nodes forest ≡ text_node doc)

wrap-ok : {A : Type 0} (prefix : Text) (r : Result A) {s : A} → wrap prefix r ≡ ok s → r ≡ ok s
wrap-ok prefix (ok t) e = e
wrap-ok prefix (err message) e = cc

append-suffix : (s suffix : Text) → (if is_empty suffix then s else s ++ suffix) ≡ s ++ suffix
append-suffix s [] = sym (append-nil s)
append-suffix s (c ∷ t) = refl

ok-injective : {s t : Text} → ok s ≡ ok t → s ≡ t
ok-injective e = cc

step_asked :
    (b : Bool) (failure : Text) (f : Text → Result Text) (s : Text) {t : Text}
    → b ≡ true
    → step b failure f s ≡ ok t
    → f s ≡ ok t
step_asked true failure f s h e = wrap-ok failure (f s) e
step_asked false failure f s h e = cc

module _ (page : Page) (api : UrlApi) where
  sanitize_html-IsSanitized :
      (s : Text) (tags attrs : List Text) {body : Text}
      → sanitize_html page api s tags attrs ≡ ok body
      → IsSanitized page tags attrs s body
  unfolding sanitize_html strip_html
  sanitize_html-IsSanitized s [] attrs e = ok-injective (sym e) ∙ normalize_whitespace-fields _
  sanitize_html-IsSanitized s (tag ∷ tags) attrs e =
      let (doc, parsed, e) =
        >>=-eq-ok (wrap (codes "failed to parse HTML: ") (page.parse s))
          (λ doc. ok (sanitize_node (tag ∷ tags) (attr_set attrs) doc [])) e in
      let (forest, printed, clean, texts) = sanitize_node-clean (tag ∷ tags) (attr_set attrs) doc in
      (
        doc,
        wrap-ok (codes "failed to parse HTML: ") (page.parse s) parsed,
        forest,
        ok-injective (sym e) ∙ printed,
        clean,
        texts,
      )

  -- When it is asked to sanitize and returns no error, the earlier passes have returned a text, and
  -- CleanDescription returns the suffix after that text's words between single blanks where no tag is
  -- allowed, else after the markup of a forest of allowed tags and safe attributes with all the parsed
  -- document's text in order and no other.
  pub clean_description-IsSanitized :
      (html_str base_url : Text) (opts : CleanOptions) (out : Text)
      → opts.sanitize ≡ true
      → clean_description page api html_str base_url opts ≡ ok out
      → (passed : Text) × (run_passes page api html_str base_url opts ≡ ok passed)
        × (body : Text) × IsSanitized page opts.allowed_tags opts.allowed_attrs passed body
        × (out ≡ body ++ opts.suffix)
  unfolding clean_description
  clean_description-IsSanitized html_str base_url opts out asked e =
      let (passed, ran, e) =
        >>=-eq-ok (run_passes page api html_str base_url opts)
          (λ r. sanitize_step page api opts r >>= λ s. ok (append_suffix opts s)) e in
      let (body, sanitized, e) =
        >>=-eq-ok (sanitize_step page api opts passed) (λ s. ok (append_suffix opts s)) e in
      let done : sanitize_html page api passed opts.allowed_tags opts.allowed_attrs ≡ ok body =
        step_asked opts.sanitize (codes "failed to sanitize HTML: ")
          (λ s. sanitize_html page api s opts.allowed_tags opts.allowed_attrs) passed asked
          sanitized in
      (
        passed,
        ran,
        body,
        sanitize_html-IsSanitized passed opts.allowed_tags opts.allowed_attrs done,
        ok-injective (sym e) ∙ append-suffix body opts.suffix,
      )
