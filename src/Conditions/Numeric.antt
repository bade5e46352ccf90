-- ===== src/Conditions/Numeric.antt =====
-- crates/arazzo-expr/src/simple_condition/numeric.rs: conversion of numeric texts and the exact
-- comparison of JSON numbers.
use Prim.Native.Nat.{compare as compare_ℕ, Ordering}
use Prim.Native.Char.{code, Char}
use arazzo_cli.Base.{
  ℕ, suc, ◌+◌, ◌-◌, ◌*◌, String, Bool, false, not, ◌&&◌, ◌||◌, Option, none, some, leb, ◌==◌,
  if◌then◌else◌, is_empty, Fallible, fine, failed,
}
use arazzo_cli.Json.{Number, pos_int, neg_int, float}

-- `negsuc n` is -(n + 1).
pub data ℤ : Type 0 where
  pos negsuc : ℕ → ℤ

abbrev pub reverse : Ordering → Ordering
reverse Ordering.lt = Ordering.gt
reverse Ordering.eq = Ordering.eq
reverse Ordering.gt = Ordering.lt

-- What the code takes from elsewhere: the generated grammar's number rule, and `f64` by its bits.
pub record Numerics : Type 0 where
  -- Whether the rule `number` of the grammar consumes the whole text.
  pub is_spelling : String → Bool
  pub parse_f64 : String → Option ℕ
  pub is_finite : ℕ → Bool
  pub is_zero : ℕ → Bool
  -- At least 2^64, below -2^63, the integer part, and the sign of the fraction.
  pub is_above : ℕ → Bool
  pub is_below : ℕ → Bool
  pub truncated : ℕ → ℤ
  pub fract_is_positive : ℕ → Bool
  pub fract_is_negative : ℕ → Bool
  pub partial_cmp : ℕ → ℕ → Ordering

abbrev pub compare_ℤ : ℤ → ℤ → Ordering
compare_ℤ (pos a) (pos b) = compare_ℕ a b
compare_ℤ (pos a) (negsuc b) = Ordering.gt
compare_ℤ (negsuc a) (pos b) = Ordering.lt
compare_ℤ (negsuc a) (negsuc b) = compare_ℕ b a

-- Every number but a float is an integer of 64 bits.
abbrev pub integer : Number → Option ℤ
integer (pos_int n) = some (pos n)
integer (neg_int n) = some (negsuc n)
integer (float bits) = none

-- Whether the text has a character with one of the codes.
abbrev holds : (Char → Bool) → String → Bool
holds p String.[] = false
holds p (String.◌∷◌ c s) = p c || holds p s

abbrev is_exponent : Char → Bool
is_exponent c = code c == 101 || code c == 69

-- The text before the first `e` or `E`.
mantissa : String → String
mantissa String.[] = String.[]
mantissa (String.◌∷◌ c s) =
    let rest = mantissa s in if is_exponent c then String.[] else String.◌∷◌ c rest

-- The number that a text of decimal digits spells after the digits read so far.
digits : String → ℕ → Option ℕ
digits String.[] n = some n
digits (String.◌∷◌ c s) n =
    let rest = digits s (n * 10 + (code c - 48)) in
    if leb 48 (code c) && leb (code c) 57 then rest else none

abbrev out_of_range : String
out_of_range = "integer is outside [-2^63, 2^64-1]"

up_to : ℕ → Option ℕ → Option ℕ
up_to bound none = none
up_to bound (some n) = if leb n bound then some n else none

non_empty : String → Option ℕ
unfolding digits
non_empty s = if is_empty s then none else digits s 0

abbrev without_plus : String → String
without_plus String.[] = String.[]
without_plus (String.◌∷◌ c rest) = if code c == 43 then rest else String.◌∷◌ c rest

-- `raw.parse::<usize>`, which takes a plus sign before the digits.
unfoldable pub parse_usize : String → Option ℕ
unfolding up_to non_empty
parse_usize raw = up_to 18446744073709551615 (non_empty (without_plus raw))

from_u64 : Option ℕ → Fallible String Number
from_u64 none = failed out_of_range
from_u64 (some n) = fine (pos_int n)

-- `Number::from` of an `i64` that is minus the given number.
from_i64 : Option ℕ → Fallible String Number
from_i64 none = failed out_of_range
from_i64 (some Prim.Native.Nat.zero) = fine (pos_int 0)
from_i64 (some (suc n)) = fine (neg_int n)

-- `raw.parse::<i64>` behind a minus sign, and `raw.parse::<u64>`.
parse_integer : String → Fallible String Number
unfolding up_to non_empty from_u64 from_i64
parse_integer String.[] = failed out_of_range
parse_integer (String.◌∷◌ c s) =
    if code c == 45
    then from_i64 (up_to 9223372036854775808 (non_empty s))
    else from_u64 (up_to 18446744073709551615 (non_empty (String.◌∷◌ c s)))

module _ (num : Numerics) where
  parse_float : String → Option ℕ → Fallible String Number
  unfolding mantissa
  parse_float raw none = failed "invalid floating-point number"
  parse_float raw (some value) =
      if not (num.is_finite value)
      then failed "numeric conversion overflow"
      else if num.is_zero value && holds (λ c. leb 49 (code c) && leb (code c) 57) (mantissa raw)
      then failed "nonzero numeric conversion underflowed to zero"
      else fine (float value)

  unfoldable pub parse : String → Fallible String Number
  unfolding parse_integer parse_float
  parse raw =
      if not (num.is_spelling raw)
      then failed "invalid numeric spelling"
      else if not (holds (λ c. code c == 46 || is_exponent c) raw)
      then parse_integer raw
      else parse_float raw (num.parse_f64 raw)

  abbrev by_fraction : ℕ → Ordering → Ordering
  by_fraction value Ordering.lt = Ordering.lt
  by_fraction value Ordering.gt = Ordering.gt
  by_fraction value Ordering.eq =
      if num.fract_is_positive value
      then Ordering.lt
      else if num.fract_is_negative value
      then Ordering.gt
      else Ordering.eq

  abbrev pub compare_integer_float : ℤ → ℕ → Ordering
  compare_integer_float i value =
      if num.is_above value
      then Ordering.lt
      else if num.is_below value
      then Ordering.gt
      else by_fraction value (compare_ℤ i (num.truncated value))

  abbrev pub compare : Number → Number → Ordering
  compare (pos_int a) (pos_int b) = compare_ℤ (pos a) (pos b)
  compare (pos_int a) (neg_int b) = compare_ℤ (pos a) (negsuc b)
  compare (neg_int a) (pos_int b) = compare_ℤ (negsuc a) (pos b)
  compare (neg_int a) (neg_int b) = compare_ℤ (negsuc a) (negsuc b)
  compare (pos_int a) (float b) = compare_integer_float (pos a) b
  compare (neg_int a) (float b) = compare_integer_float (negsuc a) b
  compare (float a) (pos_int b) = reverse (compare_integer_float (pos b) a)
  compare (float a) (neg_int b) = reverse (compare_integer_float (negsuc b) a)
  compare (float a) (float b) = num.partial_cmp a b
