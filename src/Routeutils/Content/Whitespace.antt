-- ===== src/Routeutils/Content/Whitespace.antt =====
-- normalizeWhitespace of internal/routeutils/content.go.
pub mod Words
use syndi.Common.{Bool, true, false, [], ◌∷◌, ◌++◌, Text, is_empty, if◌then◌else◌}
use syndi.Golang.Strings.{is_space, trim_space}

-- The loop of normalizeWhitespace: the builder's text and `inSpace`.
unfoldable pub collapse : Text → Bool → Text → Text
collapse buf in_space [] = buf
collapse buf in_space (r ∷ s) =
    let opened = collapse (buf ++ b' ' ∷ []) true s in
    let skipped = collapse buf in_space s in
    let written = collapse (buf ++ r ∷ []) false s in
    if is_space r
    then (if in_space then skipped else if is_empty buf then skipped else opened)
    else written

-- `CollapseWhitespace` is the same function.
unfoldable pub normalize_whitespace : Text → Text
unfolding collapse
normalize_whitespace s = trim_space (collapse [] false s)
