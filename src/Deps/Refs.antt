-- ===== src/Deps/Refs.antt =====
-- The `$steps` references that a step's texts hold: the scanners of deps.rs. A set of names is a
-- list, since it is only asked for its members.
use Prim.Native.Char.{code, Char}
use arazzo_cli.Base.{
  ℕ, String, Bool, false, ◌&&◌, ◌||◌, Option, none, some, List, [], ◌∷◌, ◌++◌, ◌==◌, leb,
  if◌then◌else◌,
}
use arazzo_cli.Spec.{ValueSource, Literal, Sources}

-- `strip_prefix`.
unfoldable pub strip_prefix : String → String → Option String
strip_prefix String.[] s = some s
strip_prefix (String.◌∷◌ c p) String.[] = none
strip_prefix (String.◌∷◌ c p) (String.◌∷◌ d s) =
    let rest = strip_prefix p s in if code c == code d then rest else none

between : ℕ → ℕ → Char → Bool
between low high c = leb low (code c) && leb (code c) high

-- `[a-zA-Z_]` and `[a-zA-Z0-9_-]`.
unfoldable pub is_name_start : Char → Bool
unfolding between
is_name_start c = between b'a' b'z' c || between b'A' b'Z' c || code c == b'_'

unfoldable pub is_name_char : Char → Bool
unfolding is_name_start
is_name_char c = is_name_start c || between b'0' b'9' c || code c == b'-'

consed : Char → Option String → Option String
consed c none = none
consed c (some s) = some (String.◌∷◌ c s)

-- The rest of a name, which a dot has to end.
name_rest : String → Option String
unfolding is_name_char consed
name_rest String.[] = none
name_rest (String.◌∷◌ c s) =
    let rest = name_rest s in
    if is_name_char c then consed c rest else if code c == b'.' then some String.[] else none

-- A name behind `$steps.`: the pattern's group.
unfoldable pub name_at : String → Option String
unfolding name_rest
name_at String.[] = none
name_at (String.◌∷◌ c s) = let rest = name_rest s in if is_name_start c then consed c rest else none

match_at : Option String → Option String
unfolding name_at
match_at none = none
match_at (some behind) = name_at behind

with_match : Option String → List String → List String
with_match none refs = refs
with_match (some name) refs = name ∷ refs

-- `scan_step_refs`: every match of `\$steps\.([a-zA-Z_][a-zA-Z0-9_-]*)\.`. A match holds no second
-- `$`, so none is skipped by looking for a match at each position.
unfoldable pub scan_step_refs : String → List String
unfolding strip_prefix match_at with_match
scan_step_refs String.[] = []
scan_step_refs (String.◌∷◌ c s) =
    let rest = scan_step_refs s in
    with_match (match_at (strip_prefix "$steps." (String.◌∷◌ c s))) rest

starts_with_dollar : String → Bool
starts_with_dollar String.[] = false
starts_with_dollar (String.◌∷◌ c s) = code c == b'$'

-- `s[pos + 1..].find('}')` and the text before it.
up_to_brace : String → Option String
unfolding consed
up_to_brace String.[] = none
up_to_brace (String.◌∷◌ c s) =
    let rest = up_to_brace s in if code c == b'}' then some String.[] else consed c rest

scan_embedded : Option String → List String
unfolding scan_step_refs
scan_embedded none = []
scan_embedded (some expression) = scan_step_refs expression

-- The loop over `s.match_indices("{$")`.
embedded_refs : String → List String
unfolding starts_with_dollar up_to_brace scan_embedded
embedded_refs String.[] = []
embedded_refs (String.◌∷◌ c s) =
    let rest = embedded_refs s in
    if code c == b'{' && starts_with_dollar s then scan_embedded (up_to_brace s) ++ rest else rest

unfoldable pub scan_text_refs : String → List String
unfolding embedded_refs
scan_text_refs s = if starts_with_dollar s then scan_step_refs s else embedded_refs s

unfoldable mutual
  unfolding scan_text_refs

  pub scan_value_source_refs : ValueSource → List String
  scan_value_source_refs (ValueSource.selector context) = scan_step_refs context
  scan_value_source_refs (ValueSource.literal value) = scan_literal_refs value

  pub scan_literal_refs : Literal → List String
  scan_literal_refs (Literal.string s) = scan_text_refs s
  scan_literal_refs (Literal.sequence items) = scan_sources_refs items
  scan_literal_refs (Literal.mapping values) = scan_sources_refs values
  scan_literal_refs _ = []

  pub scan_sources_refs : Sources → List String
  scan_sources_refs Sources.nil = []
  scan_sources_refs (Sources.cons v rest) = scan_value_source_refs v ++ scan_sources_refs rest
