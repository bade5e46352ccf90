-- ===== src/Conditions/Equality.antt =====
-- `structural_equal` and `ordered` of crates/arazzo-expr/src/simple_condition/evaluation.rs.
pub mod Reference
use Prim.Native.Nat.{Ordering}
use Prim.Native.String.{compare as compare_String}
use arazzo_cli.Base.{
  ℕ, zero, suc, ◌+◌, String, Bool, true, false, not, ◌&&◌, ◌||◌, Option, none, some, List, [], ◌∷◌,
  ◌++◌, ◌==◌, str_eq, if◌then◌else◌, Fallible, fine, failed, and_then, map_fine,
}
use arazzo_cli.Json.{
  Number, Json, null, boolean, number, string, array, object, Items, nil, cons, Fields, none_left,
  field,
}
use arazzo_cli.Conditions.Numeric.{Numerics, parse, compare}

abbrev pub is_eq : Ordering → Bool
is_eq Ordering.lt = false
is_eq Ordering.eq = true
is_eq Ordering.gt = false

abbrev pub bool_eq : Bool → Bool → Bool
bool_eq true b = b
bool_eq false b = not b

abbrev pub items_len : Items → ℕ
items_len nil = 0
items_len (cons x xs) = suc (items_len xs)

abbrev pub fields_len : Fields → ℕ
fields_len none_left = 0
fields_len (field k v fs) = suc (fields_len fs)

abbrev pub get : String → Fields → Option Json
get key none_left = none
get key (field k v fs) = if str_eq key k then some v else get key fs

abbrev contains_key : Fields → String → Bool
contains_key none_left key = false
contains_key (field k v fs) key = str_eq key k || contains_key fs key

-- `left.keys().any(|key| !right.contains_key(key))`.
abbrev has_other_key : Fields → Fields → Bool
has_other_key none_left right = false
has_other_key (field k v fs) right = not (contains_key right k) || has_other_key fs right

abbrev pub same_keys : Fields → Fields → Bool
same_keys left right = fields_len left == fields_len right && not (has_other_key left right)

abbrev pub Pair : Type 0
Pair = Json × Json

-- `left.iter().zip(right)`.
abbrev pub zip : Items → Items → List Pair
zip nil ys = []
zip (cons x xs) nil = []
zip (cons x xs) (cons y ys) = (x, y) ∷ zip xs ys

paired : Json → Option Json → List Pair → List Pair
paired v none rest = rest
paired v (some w) rest = (v, w) ∷ rest

-- The values of both objects, key by key; an object has its keys in order, so sorting them
-- changes nothing. The caller has checked that no key is missing.
unfoldable pub by_keys : Fields → Fields → List Pair
unfolding paired
by_keys none_left right = []
by_keys (field k v fs) right = paired v (get k right) (by_keys fs right)

-- What one round makes of a pair: it is equal so far with these pairs to compare, or it is not.
pub data Visit : Type 0 where
  differ : Visit
  push : List Pair → Visit

abbrev pub if_equal : Bool → Visit
if_equal equal = if equal then push [] else differ

abbrev next_round :
    (List Pair → Option (Fallible String Bool))
    → Fallible String Visit
    → Option (Fallible String Bool)
next_round more (failed message) = some (failed message)
next_round more (fine differ) = some (fine false)
next_round more (fine (push pairs)) = more pairs

module _ (num : Numerics) (lower : String → String) where
  unfoldable pub ordered : Json → Json → Fallible String Ordering
  ordered (number a) (number b) = fine (compare num a b)
  ordered (number a) (string b) = map_fine (λ n. compare num a n) (parse num b)
  ordered (string a) (number b) = map_fine (λ n. compare num n b) (parse num a)
  ordered (string a) (string b) = fine (compare_String (lower a) (lower b))
  ordered _ _ = failed "ordering requires numbers or strings"

  unfoldable pub compare_pair : Json → Json → Fallible String Visit
  unfolding ordered by_keys
  compare_pair null null = fine (push [])
  compare_pair (boolean a) (boolean b) = fine (if_equal (bool_eq a b))
  compare_pair (number a) (number b) =
      map_fine (λ o. if_equal (is_eq o)) (ordered (number a) (number b))
  compare_pair (number a) (string b) =
      map_fine (λ o. if_equal (is_eq o)) (ordered (number a) (string b))
  compare_pair (string a) (number b) =
      map_fine (λ o. if_equal (is_eq o)) (ordered (string a) (number b))
  compare_pair (string a) (string b) =
      map_fine (λ o. if_equal (is_eq o)) (ordered (string a) (string b))
  compare_pair (array xs) (array ys) =
      fine (if items_len xs == items_len ys then push (zip xs ys) else differ)
  compare_pair (object xs) (object ys) =
      fine (if same_keys xs ys then push (by_keys xs ys) else differ)
  compare_pair _ _ = fine differ

  -- `while let Some((left, right)) = pending.pop()`; `none` where the fuel would run out. The top
  -- of the stack is the head of the list. Every round removes a value of the left side.
  unfoldable pub compare_all : (fuel : ℕ) → List Pair → Option (Fallible String Bool)
  unfolding compare_pair
  compare_all fuel [] = some (fine true)
  compare_all zero (p ∷ pending) = none
  compare_all (suc fuel) ((left, right) ∷ pending) =
      next_round (λ pairs. compare_all fuel (pairs ++ pending)) (compare_pair left right)

unfoldable mutual
  pub size : Json → ℕ
  size null = 1
  size (boolean b) = 1
  size (number n) = 1
  size (string s) = 1
  size (array xs) = suc (size_items xs)
  size (object fs) = suc (size_fields fs)

  pub size_items : Items → ℕ
  size_items nil = 0
  size_items (cons x xs) = size x + size_items xs

  pub size_fields : Fields → ℕ
  size_fields none_left = 0
  size_fields (field k v fs) = size v + size_fields fs

unfoldable pub structural_equal :
    Numerics → (String → String) → Json → Json → Option (Fallible String Bool)
unfolding compare_all size
structural_equal num lower left right = compare_all num lower (size left) ((left, right) ∷ [])
