-- ===== src/Pointers.antt =====
-- Replacements by JSON Pointer: `apply_json_pointer_replacement` of
-- crates/arazzo-runtime/src/runtime_core/payload.rs.
pub mod Put
pub mod Escapes
use Prim.Native.Char.{char, code, Char}
use arazzo_cli.Base.{
  ℕ, zero, suc, String, Bool, true, false, Option, none, some, List, [], ◌∷◌, ◌==◌, ltb, str_eq,
  if◌then◌else◌, Fallible, fine, failed, map_fine,
}
use arazzo_cli.Json.{
  Json, null, boolean, number, string, array, object, Items, nil, cons, Fields, none_left, field,
}
use arazzo_cli.Conditions.Numeric.{parse_usize}
use arazzo_cli.Conditions.Equality.{get, items_len}

abbrev pub tilde : Char
tilde = char 126 tt

abbrev pub slash : Char
slash = char 47 tt

abbrev kept : Bool → Char → String → String
kept after_tilde c rest =
    if after_tilde
    then (if code c == 126 then String.◌∷◌ tilde rest else String.◌∷◌ tilde (String.◌∷◌ c rest))
    else if code c == 126
    then rest
    else String.◌∷◌ c rest

-- `replace` of a tilde and a mark by one character; `after_tilde` where a tilde has been read that
-- is not yet in the result.
abbrev pub replace_pair : ℕ → Char → (after_tilde : Bool) → String → String
replace_pair mark put after_tilde String.[] =
    if after_tilde then String.◌∷◌ tilde String.[] else String.[]
replace_pair mark put after_tilde (String.◌∷◌ c s) =
    let rest = replace_pair mark put (code c == 126) s in
    if after_tilde
    then (if code c == mark then String.◌∷◌ put rest else kept true c rest)
    else kept false c rest

-- `token.replace("~1", "/").replace("~0", "~")`.
unfoldable pub unescape_json_pointer_token : String → String
unescape_json_pointer_token token = replace_pair 48 tilde false (replace_pair 49 slash false token)

abbrev on_first : Char → List String → List String
on_first c [] = String.◌∷◌ c String.[] ∷ []
on_first c (part ∷ parts) = String.◌∷◌ c part ∷ parts

-- `split('/')`, each part without its escapes.
split_slashes : String → List String
split_slashes String.[] = String.[] ∷ []
split_slashes (String.◌∷◌ c rest) =
    let parts = split_slashes rest in if code c == 47 then String.[] ∷ parts else on_first c parts

unescaped : List String → List String
unfolding unescape_json_pointer_token
unescaped [] = []
unescaped (part ∷ parts) = unescape_json_pointer_token part ∷ unescaped parts

-- `map.insert` and `map.get_mut`: the value under a key, in the order of the keys.
abbrev put_before :
    String → Json → String → Json → Fields → Fields → Prim.Native.Nat.Ordering → Fields
put_before key v k w fs rest Prim.Native.Nat.Ordering.lt = field key v (field k w fs)
put_before key v k w fs rest Prim.Native.Nat.Ordering.eq = field k v fs
put_before key v k w fs rest Prim.Native.Nat.Ordering.gt = field k w rest

unfoldable pub insert_key : String → Json → Fields → Fields
insert_key key v none_left = field key v none_left
insert_key key v (field k w fs) =
    put_before key v k w fs (insert_key key v fs) (Prim.Native.String.compare key k)

abbrev pub nth : Items → ℕ → Option Json
nth nil i = none
nth (cons x xs) zero = some x
nth (cons x xs) (suc i) = nth xs i

abbrev pub set_item : Items → ℕ → Json → Items
set_item nil i v = nil
set_item (cons x xs) zero v = cons v xs
set_item (cons x xs) (suc i) v = cons x (set_item xs i v)

-- The errors, as far as they are told apart.
pub data PointerError : Type 0 where
  not_a_pointer empty_pointer missing_key append_index not_numeric out_of_range no_container :
      PointerError

abbrev numeric_index : Option ℕ → Fallible PointerError ℕ
numeric_index none = failed not_numeric
numeric_index (some i) = fine i

unfoldable pub parse_replace_array_index : String → Fallible PointerError ℕ
parse_replace_array_index token =
    if str_eq token "-" then failed append_index else numeric_index (parse_usize token)

-- An index that is in range.
abbrev in_range : Items → Fallible PointerError ℕ → Fallible PointerError ℕ
in_range xs (failed e) = failed e
in_range xs (fine i) = if ltb i (items_len xs) then fine i else failed out_of_range

unfoldable pub place_in : Items → String → Fallible PointerError ℕ
unfolding parse_replace_array_index
place_in xs token = in_range xs (parse_replace_array_index token)

abbrev pub at_item :
    Items → (Json → Fallible PointerError Json) → Option Json → ℕ → Fallible PointerError Json
at_item xs descend none i = failed out_of_range
at_item xs descend (some x) i = map_fine (λ v. array (set_item xs i v)) (descend x)

abbrev pub in_items :
    Items
    → (Json → Fallible PointerError Json)
    → Fallible PointerError ℕ
    → Fallible PointerError Json
in_items xs descend (failed e) = failed e
in_items xs descend (fine i) = at_item xs descend (nth xs i) i

abbrev pub in_fields :
    Fields → String → (Json → Fallible PointerError Json) → Option Json → Fallible PointerError Json
in_fields fs key descend none = failed missing_key
in_fields fs key descend (some w) = map_fine (λ v. object (insert_key key v fs)) (descend w)

-- The loop over the tokens, with the value that takes the place of the current one; the last token
-- of an object may name a new key.
unfoldable pub replace_at : String → List String → Json → Json → Fallible PointerError Json
unfolding insert_key place_in
replace_at token [] v (object fs) = fine (object (insert_key token v fs))
replace_at token (next ∷ tokens) v (object fs) =
    in_fields fs token (replace_at next tokens v) (get token fs)
replace_at token [] v (array xs) = in_items xs (λ x. fine v) (place_in xs token)
replace_at token (next ∷ tokens) v (array xs) =
    in_items xs (replace_at next tokens v) (place_in xs token)
replace_at token tokens v _ = failed no_container

abbrev by_tokens : List String → Json → Json → Fallible PointerError Json
by_tokens [] v root = failed empty_pointer
by_tokens (token ∷ tokens) v root = replace_at token tokens v root

-- The tokens of a pointer, whose first separator is dropped.
unfoldable pub tokens_of : String → Option (List String)
unfolding split_slashes unescaped
tokens_of String.[] = none
tokens_of (String.◌∷◌ c reference) =
    if code c == 47 then some (unescaped (split_slashes reference)) else none

abbrev at_pointer : Option (List String) → Json → Json → Fallible PointerError Json
at_pointer none v root = failed not_a_pointer
at_pointer (some tokens) v root = by_tokens tokens v root

-- The root with the replacement made; the source changes its root in place, and not at all when it
-- returns an error.
unfoldable pub apply_json_pointer_replacement :
    (root : Json) (pointer : String) (replacement : Json) → Fallible PointerError Json
unfolding replace_at tokens_of
apply_json_pointer_replacement root pointer replacement =
    at_pointer (tokens_of pointer) replacement root
