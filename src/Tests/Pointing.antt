-- ===== src/Tests/Pointing.antt =====
-- Replacements by JSON Pointer in a small document.
use arazzo_cli.Base.{◌≡◌, refl, String, some, [], ◌∷◌, fine, failed}
use arazzo_cli.Json.{Json, null, string, array, object, nil, cons, none_left, field}
use arazzo_cli.Pointers.{append_index, slash, tokens_of, apply_json_pointer_replacement}
use arazzo_cli.Conditions.Numeric.{parse_usize}
use arazzo_cli.Pointers.Escapes.{spell, tokens_of-spell}
use arazzo_cli.Pointers.Put.{Puts, IsFine, value_under, apply_json_pointer_replacement-Puts}

abbrev basket : Json
basket = object (
    field "a/b" (array (cons (string "pear") (cons (string "plum") nil)))
      (field "n" null none_left))

tokens : tokens_of "/a~1b/1" ≡ some ("a/b" ∷ "1" ∷ [])
unfolding tokens_of
tokens = refl

two_separators : tokens_of "//child" ≡ some ("" ∷ "child" ∷ [])
unfolding tokens_of
two_separators = refl

replaced :
    apply_json_pointer_replacement basket "/a~1b/1" (string "fig")
    ≡ fine (
        object (
          field "a/b"
            (array (cons (string "pear") (cons (string "fig") nil)))
            (field "n" null none_left)))
unfolding apply_json_pointer_replacement parse_usize
replaced = refl

no_append : apply_json_pointer_replacement basket "/a~1b/-" (string "fig") ≡ failed append_index
unfolding apply_json_pointer_replacement parse_usize
no_append = refl

signed_index :
    apply_json_pointer_replacement basket "/a~1b/+1" (string "fig")
    ≡ apply_json_pointer_replacement basket "/a~1b/1" (string "fig")
unfolding apply_json_pointer_replacement parse_usize
signed_index = refl

new_key :
    apply_json_pointer_replacement basket "/b" null
    ≡ fine (
        object (
          field "a/b"
            (array (cons (string "pear") (cons (string "plum") nil)))
            (field "b" null (field "n" null none_left))))
unfolding apply_json_pointer_replacement parse_usize
new_key = refl

apply_json_pointer_replacement-Puts_example :
    Puts
      (value_under (tokens_of "/a~1b/1"))
      (string "fig")
      (apply_json_pointer_replacement basket "/a~1b/1" (string "fig"))
    × ((w : Json)
        → value_under (tokens_of "/a~1b/1") basket ≡ some w
        → IsFine (apply_json_pointer_replacement basket "/a~1b/1" (string "fig")))
apply_json_pointer_replacement-Puts_example =
    apply_json_pointer_replacement-Puts basket "/a~1b/1" (string "fig")

tokens_of-spell_example :
    tokens_of (String.◌∷◌ slash (spell "a/b" ("" ∷ "~1" ∷ []))) ≡ some ("a/b" ∷ "" ∷ "~1" ∷ [])
tokens_of-spell_example = tokens_of-spell "a/b" ("" ∷ "~1" ∷ [])

spelled : spell "a/b" ("" ∷ "~1" ∷ []) ≡ "a~1b//~01"
spelled = refl
