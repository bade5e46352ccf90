-- ===== src/Pointers/Escapes.antt =====
-- The tokens of a JSON Pointer as payload.rs reads them, and the text that spells them.
use Prim.Native.Char.{char, code, Char}
use text.Mathlib.TextEquality.{Char-path}
use arazzo_cli.Base.{
  arith, ℕ, ◌≡◌, refl, ap, String, true, false, some, List, [], ◌∷◌, ◌==◌, if◌then◌else◌,
  Bool-cases, inl, inr,
}
use arazzo_cli.Pointers.{
  tilde, slash, replace_pair, unescape_json_pointer_token, split_slashes, unescaped, tokens_of,
}

abbrev digit_0 : Char
digit_0 = char 48 tt

abbrev digit_1 : Char
digit_1 = char 49 tt

-- A token with the text of the following tokens behind it, a tilde as ~0 and a slash as ~1.
abbrev pub escape_onto : String → String → String
escape_onto String.[] rest = rest
escape_onto (String.◌∷◌ c s) rest =
    let t = escape_onto s rest in
    if code c == 126
    then String.◌∷◌ tilde (String.◌∷◌ digit_0 t)
    else if code c == 47
    then String.◌∷◌ tilde (String.◌∷◌ digit_1 t)
    else String.◌∷◌ c t

-- The text that spells a token and the ones behind it.
abbrev pub spell : String → List String → String
spell token [] = escape_onto token String.[]
spell token (next ∷ tokens) = escape_onto token (String.◌∷◌ slash (spell next tokens))

-- Only the tildes escaped.
abbrev half : String → String
half String.[] = String.[]
half (String.◌∷◌ c s) =
    let t = half s in
    if code c == 126 then String.◌∷◌ tilde (String.◌∷◌ digit_0 t) else String.◌∷◌ c t

abbrev escape : String → String
escape s = escape_onto s String.[]

to_eq : (m n : ℕ) → (m == n) ≡ true → m ≡ n
to_eq m n h = ground arith

slash_is : (c : Char) → (code c == 47) ≡ true → c ≡ slash
slash_is c h = Char-path c slash (to_eq (code c) 47 h)

tilde_is : (c : Char) → (code c == 126) ≡ true → c ≡ tilde
tilde_is c h = Char-path c tilde (to_eq (code c) 126 h)

pass_slashes : (s : String) → replace_pair 49 slash false (escape s) ≡ half s
pass_slashes String.[] = refl
pass_slashes (String.◌∷◌ c s) = elim (Bool-cases (code c == 126)) [
  | inl t ↦ rw (t, pass_slashes s) refl
  | inr f ↦ elim (Bool-cases (code c == 47)) [
    | inl p ↦ rw (f, p, pass_slashes s, slash_is c p) refl
    | inr q ↦ rw (f, q, f, pass_slashes s) refl
  ]
]

pass_tildes : (s : String) → replace_pair 48 tilde false (half s) ≡ s
pass_tildes String.[] = refl
pass_tildes (String.◌∷◌ c s) = elim (Bool-cases (code c == 126)) [
  | inl t ↦ rw (t, pass_tildes s, tilde_is c t) refl
  | inr f ↦ rw (f, f, pass_tildes s) refl
]

split-escape_onto :
    (s rest part : String) (parts : List String)
    → split_slashes rest ≡ part ∷ parts
    → split_slashes (escape_onto s rest) ≡ escape_onto s part ∷ parts
unfolding split_slashes
split-escape_onto String.[] rest part parts h = h
split-escape_onto (String.◌∷◌ c s) rest part parts h = elim (Bool-cases (code c == 126)) [
  | inl t ↦ rw (t, split-escape_onto s rest part parts h) refl
  | inr f ↦ elim (Bool-cases (code c == 47)) [
    | inl p ↦ rw (f, p, split-escape_onto s rest part parts h) refl
    | inr q ↦ rw (f, q, q, split-escape_onto s rest part parts h) refl
  ]
]

abbrev escaped : List String → List String
escaped [] = []
escaped (token ∷ tokens) = escape token ∷ escaped tokens

split-spell :
    (token : String) (tokens : List String)
    → split_slashes (spell token tokens) ≡ escape token ∷ escaped tokens
unfolding split_slashes
split-spell token [] = split-escape_onto token String.[] String.[] [] refl
split-spell token (next ∷ tokens) =
    split-escape_onto token (String.◌∷◌ slash (spell next tokens)) String.[]
      (escape next ∷ escaped tokens) (ap (λ parts. String.[] ∷ parts) (split-spell next tokens))

unescape-escape : (s : String) → unescape_json_pointer_token (escape s) ≡ s
unfolding unescape_json_pointer_token
unescape-escape s = rw (pass_slashes s) (pass_tildes s)

unescaped-escaped : (tokens : List String) → unescaped (escaped tokens) ≡ tokens
unfolding unescaped unescape_json_pointer_token
unescaped-escaped [] = refl
unescaped-escaped (token ∷ tokens) =
    rw (pass_slashes token, pass_tildes token, unescaped-escaped tokens) refl

-- The tokens read from the text that spells tokens, each with its tildes and slashes escaped and a
-- slash in front of it, are those tokens, empty ones included.
pub tokens_of-spell :
    (token : String) (tokens : List String)
    → tokens_of (String.◌∷◌ slash (spell token tokens)) ≡ some (token ∷ tokens)
unfolding tokens_of
tokens_of-spell token tokens =
    rw (split-spell token tokens) (ap some (unescaped-escaped (token ∷ tokens)))
