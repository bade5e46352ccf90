-- ===== src/Conditions/Compare.antt =====
-- `compare` of crates/arazzo-expr/src/simple_condition/evaluation.rs: the six operators.
pub mod Complements
use Prim.Native.Nat.{Ordering}
use arazzo_cli.Base.{
  ◌≡◌, refl, String, Bool, true, false, not, ◌&&◌, ◌||◌, Option, none, some, str_eq, if◌then◌else◌,
  Fallible, fine, failed, and_then, map_fine,
}
use arazzo_cli.Json.{Json, null}
use arazzo_cli.Conditions.Numeric.{Numerics}
use arazzo_cli.Conditions.Equality.{is_eq, ordered, structural_equal}

-- `ResolvedValue`: an operand may be absent.
pub data ResolvedValue : Type 0 where
  missing : ResolvedValue
  present : Json → ResolvedValue

abbrev pub public_value : ResolvedValue → Json
public_value missing = null
public_value (present v) = v

abbrev is_null : Json → Bool
is_null null = true
is_null _ = false

abbrev is_lt : Ordering → Bool
is_lt Ordering.lt = true
is_lt _ = false

abbrev is_gt : Ordering → Bool
is_gt Ordering.gt = true
is_gt _ = false

-- The four tests of an order; the grammar has no other operator.
unfoldable pub order_test : String → Ordering → Bool
order_test op o =
    if str_eq op "<"
    then is_lt o
    else if str_eq op "<="
    then not (is_gt o)
    else if str_eq op ">"
    then is_gt o
    else not (is_lt o)

abbrev pub differ_in_null : Json → Json → Bool
differ_in_null a b = (is_null a && not (is_null b)) || (not (is_null a) && is_null b)

abbrev if_some : {E A : Type 0} → E → Option (Fallible E A) → Fallible E A
if_some out none = failed out
if_some out (some r) = r

module _ (num : Numerics) (lower : String → String) where
  -- `structural_equal` has an answer for any two values, so the first case of `if_some` is not met.
  unfoldable pub equality : Json → Json → Fallible String Bool
  equality a b = if_some "" (structural_equal num lower a b)

  unfoldable pub compare_values : Json → Json → String → Fallible String Bool
  unfolding equality order_test
  compare_values a b op =
      if str_eq op "=="
      then equality a b
      else if str_eq op "!="
      then map_fine not (equality a b)
      else if differ_in_null a b
      then fine false
      else map_fine (order_test op) (ordered num lower a b)

  unfoldable pub compare_resolved : ResolvedValue → ResolvedValue → String → Fallible String Bool
  unfolding compare_values
  compare_resolved left right op = compare_values (public_value left) (public_value right) op
