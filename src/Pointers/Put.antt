-- ===== src/Pointers/Put.antt =====
-- What a replacement by JSON Pointer (payload.rs) leaves under its pointer.
use Prim.Native.Nat.{Ordering}
use Prim.Native.String.{compare}
use arazzo_cli.Base.{
  ℕ, zero, suc, ◌≡◌, refl, sym, String, true, Option, none, some, List, [], ◌∷◌, ltb, eq_iff, arith,
  ◌<◌, ◌∙◌, Fallible, fine, failed, map_fine, Fallible-cases, Option-cases, Bool-cases, inl, inr,
  ◌⊎◌,
}
use arazzo_cli.Json.{
  Json, null, boolean, number, string, array, object, Items, nil, cons, Fields, none_left, field,
}
use arazzo_cli.Conditions.Equality.{get, items_len}
use arazzo_cli.Pointers.{
  insert_key, nth, set_item, PointerError, parse_replace_array_index, place_in, in_items, in_fields,
  replace_at, tokens_of, at_pointer, apply_json_pointer_replacement,
}

abbrev item_at : Items → Fallible PointerError ℕ → Option Json
item_at xs (fine i) = nth xs i
item_at xs (failed e) = none

-- The value that one token names.
abbrev pub child_at : String → Json → Option Json
child_at token (object fs) = get token fs
child_at token (array xs) = item_at xs (parse_replace_array_index token)
child_at token _ = none

abbrev pub then_at : (Json → Option Json) → Option Json → Option Json
then_at f none = none
then_at f (some v) = f v

-- The value that tokens name; an index is read as the replacement reads it.
abbrev pub value_at : String → List String → Json → Option Json
value_at token [] root = child_at token root
value_at token (next ∷ tokens) root = then_at (value_at next tokens) (child_at token root)

-- A result has the value there.
abbrev pub Puts : (Json → Option Json) → Json → Fallible PointerError Json → Type 0
Puts at v (fine root) = at root ≡ some v
Puts at v (failed e) = Unit

Ordering-cases : (o : Ordering) → (o ≡ Ordering.lt) ⊎ ((o ≡ Ordering.eq) ⊎ (o ≡ Ordering.gt))
Ordering-cases Ordering.lt = inl refl
Ordering-cases Ordering.eq = inr (inl refl)
Ordering-cases Ordering.gt = inr (inr refl)

get-insert_key : (key : String) (v : Json) (fs : Fields) → get key (insert_key key v fs) ≡ some v
unfolding insert_key
get-insert_key key v none_left = rw ((eq_iff key key).1 refl) refl
get-insert_key key v (field k w fs) = elim (Ordering-cases (compare key k)) [
  | inl h ↦ rw (h, (eq_iff key key).1 refl) refl
  | inr (inl h) ↦ rw (h, h) refl
  | inr (inr h) ↦ rw (h, h) (get-insert_key key v fs)
]

nth-set_item :
    (xs : Items) (i : ℕ) (v x : Json) → nth xs i ≡ some x → nth (set_item xs i v) i ≡ some v
nth-set_item nil i v x h = absurd (cc)
nth-set_item (cons y xs) zero v x h = refl
nth-set_item (cons y xs) (suc i) v x h = nth-set_item xs i v x h

module _ (token : String) (more : Json → Option Json) (v : Json)
    (descend : Json → Fallible PointerError Json)
    (puts : (w : Json) → Puts more v (descend w)) where
  field-Puts :
      (fs : Fields) (o : Option Json)
      → Puts (λ root. then_at more (child_at token root)) v (in_fields fs token descend o)
  field-Puts fs none = tt
  field-Puts fs (some w) = put (descend w) (puts w)
    where
      put :
          (r : Fallible PointerError Json)
          → Puts more v r
          → Puts
              (λ root. then_at more (child_at token root))
              v
              (map_fine (λ u. object (insert_key token u fs)) r)
      put (failed e) h = tt
      put (fine u) h = rw (get-insert_key token u fs) h

  item-Puts :
      (xs : Items)
      → Puts
          (λ root. then_at more (child_at token root))
          v
          (in_items xs descend (place_in xs token))
  unfolding place_in
  item-Puts xs = elim (Fallible-cases (parse_replace_array_index token)) [
    | inr (e, h) ↦ rw h tt
    | inl (i, h) ↦ elim (Bool-cases (ltb i (items_len xs))) [
      | inr out ↦ rw (h, out) tt
      | inl inside ↦ elim (Option-cases (nth xs i)) [
        | inl n ↦ rw (h, inside, n) tt
        | inr (x, at) ↦ rw (h, inside, at) (put i x h at (descend x) (puts x))
      ]
    ]
  ]
    where
      put :
          (i : ℕ) (x : Json)
          → parse_replace_array_index token ≡ fine i
          → nth xs i ≡ some x
          → (r : Fallible PointerError Json) → Puts more v r
          → Puts
              (λ root. then_at more (child_at token root))
              v
              (map_fine (λ u. array (set_item xs i u)) r)
      put i x h at (failed e) q = tt
      put i x h at (fine u) q = rw (h, nth-set_item xs i u x at) q

last_item-Puts :
    (token : String) (v : Json) (xs : Items)
    → Puts (child_at token) v (in_items xs (λ x. fine v) (place_in xs token))
unfolding place_in
last_item-Puts token v xs = elim (Fallible-cases (parse_replace_array_index token)) [
  | inr (e, h) ↦ rw h tt
  | inl (i, h) ↦ elim (Bool-cases (ltb i (items_len xs))) [
    | inr out ↦ rw (h, out) tt
    | inl inside ↦ elim (Option-cases (nth xs i)) [
      | inl n ↦ rw (h, inside, n) tt
      | inr (x, at) ↦ rw (h, inside, at) (rw (h, nth-set_item xs i v x at) refl)
    ]
  ]
]

replace_at-Puts :
    (token : String) (tokens : List String) (v j : Json)
    → Puts (value_at token tokens) v (replace_at token tokens v j)
unfolding replace_at
replace_at-Puts token [] v (object fs) = get-insert_key token v fs
replace_at-Puts token (next ∷ tokens) v (object fs) =
    field-Puts token (value_at next tokens) v (replace_at next tokens v)
      (replace_at-Puts next tokens v) fs (get token fs)
replace_at-Puts token [] v (array xs) = last_item-Puts token v xs
replace_at-Puts token (next ∷ tokens) v (array xs) =
    item-Puts token (value_at next tokens) v (replace_at next tokens v)
      (replace_at-Puts next tokens v) xs
replace_at-Puts token [] v null = tt
replace_at-Puts token [] v (boolean b) = tt
replace_at-Puts token [] v (number n) = tt
replace_at-Puts token [] v (string s) = tt
replace_at-Puts token (next ∷ tokens) v null = tt
replace_at-Puts token (next ∷ tokens) v (boolean b) = tt
replace_at-Puts token (next ∷ tokens) v (number n) = tt
replace_at-Puts token (next ∷ tokens) v (string s) = tt

abbrev pub value_by : List String → Json → Option Json
value_by [] root = none
value_by (token ∷ tokens) root = value_at token tokens root

abbrev pub value_under : Option (List String) → Json → Option Json
value_under none root = none
value_under (some tokens) root = value_by tokens root

at_pointer-Puts :
    (tokens : Option (List String)) (v root : Json)
    → Puts (value_under tokens) v (at_pointer tokens v root)
at_pointer-Puts none v root = tt
at_pointer-Puts (some []) v root = tt
at_pointer-Puts (some (token ∷ tokens)) v root = replace_at-Puts token tokens v root

abbrev pub IsFine : Fallible PointerError Json → Type 0
IsFine (fine root) = Unit
IsFine (failed e) = ⊥

below_len : (xs : Items) (i : ℕ) (x : Json) → nth xs i ≡ some x → i < items_len xs
below_len nil i x h = absurd (cc)
below_len (cons y xs) zero x h = omega arith
below_len (cons y xs) (suc i) x h = let rest = below_len xs i x h in omega arith

ltb-items_len : (xs : Items) (i : ℕ) (x : Json) → nth xs i ≡ some x → ltb i (items_len xs) ≡ true
ltb-items_len xs i x h = let below = below_len xs i x h in ground arith

none-some : {w : Json} → none ≡ some w → ⊥
none-some h = absurd (cc)

map_fine-IsFine :
    (f : Json → Json) (r : Fallible PointerError Json) → IsFine r → IsFine (map_fine f r)
map_fine-IsFine f (fine root) h = tt
map_fine-IsFine f (failed e) h = h

module _ (token : String) (more : Json → Option Json) (w : Json)
    (descend : Json → Fallible PointerError Json)
    (ends : (j : Json) → more j ≡ some w → IsFine (descend j)) where
  field-IsFine :
      (fs : Fields) (o : Option Json)
      → then_at more o ≡ some w
      → IsFine (in_fields fs token descend o)
  field-IsFine fs none h = absurd (cc)
  field-IsFine fs (some x) h =
      map_fine-IsFine (λ v. object (insert_key token v fs)) (descend x) (ends x h)

  item-IsFine :
      (xs : Items)
      → then_at more (item_at xs (parse_replace_array_index token)) ≡ some w
      → IsFine (in_items xs descend (place_in xs token))
  unfolding place_in
  item-IsFine xs h = elim (Fallible-cases (parse_replace_array_index token)) [
    | inr (e, p) ↦ absurd (none-some (sym (rw p refl) ∙ h))
    | inl (i, p) ↦ elim (Option-cases (nth xs i)) [
      | inl n ↦ absurd (none-some (sym (rw (p, n) refl) ∙ h))
      | inr (x, at) ↦
          rw (p, ltb-items_len xs i x at, at)
            (map_fine-IsFine (λ v. array (set_item xs i v)) (descend x)
              (ends x (sym (rw (p, at) refl) ∙ h)))
    ]
  ]

then_at-some : (o : Option Json) (w : Json) → o ≡ some w → then_at some o ≡ some w
then_at-some none w h = absurd (cc)
then_at-some (some x) w h = h

fine-IsFine : (v j w : Json) → some j ≡ some w → IsFine (fine v)
fine-IsFine v j w h = tt

replace_at-IsFine :
    (token : String) (tokens : List String) (v w j : Json)
    → value_at token tokens j ≡ some w
    → IsFine (replace_at token tokens v j)
unfolding replace_at
replace_at-IsFine token [] v w (object fs) h = tt
replace_at-IsFine token (next ∷ tokens) v w (object fs) h =
    field-IsFine token (value_at next tokens) w (replace_at next tokens v)
      (replace_at-IsFine next tokens v w) fs (get token fs) h
replace_at-IsFine token [] v w (array xs) h =
    item-IsFine token some w (λ x. fine v) (λ j. fine-IsFine v j w) xs
      (then_at-some (item_at xs (parse_replace_array_index token)) w h)
replace_at-IsFine token (next ∷ tokens) v w (array xs) h =
    item-IsFine token (value_at next tokens) w (replace_at next tokens v)
      (replace_at-IsFine next tokens v w) xs h
replace_at-IsFine token [] v w null h = absurd (cc)
replace_at-IsFine token [] v w (boolean b) h = absurd (cc)
replace_at-IsFine token [] v w (number n) h = absurd (cc)
replace_at-IsFine token [] v w (string s) h = absurd (cc)
replace_at-IsFine token (next ∷ tokens) v w null h = absurd (cc)
replace_at-IsFine token (next ∷ tokens) v w (boolean b) h = absurd (cc)
replace_at-IsFine token (next ∷ tokens) v w (number n) h = absurd (cc)
replace_at-IsFine token (next ∷ tokens) v w (string s) h = absurd (cc)

at_pointer-IsFine :
    (tokens : Option (List String)) (v w root : Json)
    → value_under tokens root ≡ some w
    → IsFine (at_pointer tokens v root)
at_pointer-IsFine none v w root h = absurd (cc)
at_pointer-IsFine (some []) v w root h = absurd (cc)
at_pointer-IsFine (some (token ∷ tokens)) v w root h = replace_at-IsFine token tokens v w root h

-- When a replacement by JSON Pointer succeeds, the value that the pointer names in the resulting
-- document is the replacement; and it succeeds wherever the pointer names a value.
pub apply_json_pointer_replacement-Puts :
    (root : Json) (pointer : String) (v : Json)
    → Puts (value_under (tokens_of pointer)) v (apply_json_pointer_replacement root pointer v)
      × ((w : Json)
          → value_under (tokens_of pointer) root ≡ some w
          → IsFine (apply_json_pointer_replacement root pointer v))
unfolding apply_json_pointer_replacement
apply_json_pointer_replacement-Puts root pointer v = (
  at_pointer-Puts (tokens_of pointer) v root,
  λ w. at_pointer-IsFine (tokens_of pointer) v w root,
)
