-- ===== src/Conditions/Compare/Complements.antt =====
-- How the operators of `compare` (evaluation.rs) relate to each other.
use Prim.Native.Nat.{Ordering}
use arazzo_cli.Base.{
  ◌≡◌, refl, ap, String, Bool, true, false, not, ◌||◌, arith, Fallible, fine, failed, map_fine,
}
use arazzo_cli.Json.{Json, number, string}
use arazzo_cli.Conditions.Numeric.{Numerics}
use arazzo_cli.Conditions.Equality.{is_eq, ordered}
use arazzo_cli.Conditions.Equality.Reference.{equals, structural_equal-equals}
use arazzo_cli.Conditions.Compare.{
  equality, order_test, differ_in_null, public_value, ResolvedValue, compare_resolved,
}

-- Numbers and strings.
abbrev pub IsOrdered : Json → Type 0
IsOrdered (number n) = Unit
IsOrdered (string s) = Unit
IsOrdered _ = ⊥

abbrev pub both_results :
    (Bool → Bool → Bool) → Fallible String Bool → Fallible String Bool → Fallible String Bool
both_results f (fine a) (fine b) = fine (f a b)
both_results f (fine a) (failed e) = failed e
both_results f (failed e) later = failed e

module _ (num : Numerics) (lower : String → String) where
  pub record Complemented (l r : ResolvedValue) : Type 0 where
    pub unequal :
        compare_resolved num lower l r "!=" ≡ map_fine not (compare_resolved num lower l r "==")
    -- Neither or both of the values are null.
    pub not_less :
        differ_in_null (public_value l) (public_value r) ≡ false
        → compare_resolved num lower l r ">=" ≡ map_fine not (compare_resolved num lower l r "<")
    pub not_greater :
        differ_in_null (public_value l) (public_value r) ≡ false
        → compare_resolved num lower l r "<=" ≡ map_fine not (compare_resolved num lower l r ">")
    -- One of the values is null: the order tests all fail.
    pub unordered :
        differ_in_null (public_value l) (public_value r) ≡ true
        → (compare_resolved num lower l r "<" ≡ fine false)
          × (compare_resolved num lower l r "<=" ≡ fine false)
          × (compare_resolved num lower l r ">" ≡ fine false)
          × (compare_resolved num lower l r ">=" ≡ fine false)
    pub at_most :
        IsOrdered (public_value l)
        → IsOrdered (public_value r)
        → compare_resolved num lower l r "<="
          ≡ both_results
              (λ a b. a || b)
              (compare_resolved num lower l r "<")
              (compare_resolved num lower l r "==")

  negated_test :
      (a b : String) (o : Fallible String Ordering)
      → ((c : Ordering) → order_test a c ≡ not (order_test b c))
      → map_fine (order_test a) o ≡ map_fine not (map_fine (order_test b) o)
  negated_test a b (fine c) h = ap fine (h c)
  negated_test a b (failed e) h = refl

  scalar :
      (l r : Json)
      → IsOrdered l
      → IsOrdered r
      → equals num lower l r ≡ map_fine is_eq (ordered num lower l r)
  unfolding equals
  scalar (number a) (number b) hl hr = refl
  scalar (number a) (string b) hl hr = refl
  scalar (string a) (number b) hl hr = refl
  scalar (string a) (string b) hl hr = refl
  scalar _ _ hl hr = ground arith

  equality-ordered :
      (l r : Json)
      → IsOrdered l
      → IsOrdered r
      → equality num lower l r ≡ map_fine is_eq (ordered num lower l r)
  unfolding equality
  equality-ordered l r hl hr = rw (structural_equal-equals num lower l r) (scalar l r hl hr)

  at_most_test :
      (o : Fallible String Ordering)
      → map_fine (order_test "<=") o
        ≡ both_results (λ a b. a || b) (map_fine (order_test "<") o) (map_fine is_eq o)
  unfolding order_test
  at_most_test (fine Ordering.lt) = refl
  at_most_test (fine Ordering.eq) = refl
  at_most_test (fine Ordering.gt) = refl
  at_most_test (failed e) = refl

  not_less_test : (c : Ordering) → order_test ">=" c ≡ not (order_test "<" c)
  unfolding order_test
  not_less_test c = refl

  not_greater_test : (c : Ordering) → order_test "<=" c ≡ not (order_test ">" c)
  unfolding order_test
  not_greater_test c = refl

  ordered_not_null : (l r : Json) → IsOrdered l → IsOrdered r → differ_in_null l r ≡ false
  ordered_not_null (number a) (number b) hl hr = refl
  ordered_not_null (number a) (string b) hl hr = refl
  ordered_not_null (string a) (number b) hl hr = refl
  ordered_not_null (string a) (string b) hl hr = refl
  ordered_not_null _ _ hl hr = ground arith

  -- For any two operands, `!=` is the negation of `==`. When one of the two is null, absent ones
  -- included, and the other is not, all four order tests are false. When both or neither are,
  -- `>=` is the negation of `<` and `<=` that of `>`. For numbers and strings, `<=` holds exactly
  -- when `<` or `==` does. Errors are the same throughout.
  pub compare_resolved-Complemented : (l r : ResolvedValue) → Complemented l r
  unfolding compare_resolved
  compare_resolved-Complemented l r =
      let o = ordered num lower (public_value l) (public_value r) in
      record {
        unequal = refl;
        not_less = λ h. rw h (negated_test ">=" "<" o not_less_test);
        not_greater = λ h. rw h (negated_test "<=" ">" o not_greater_test);
        unordered = λ h. rw h (refl, refl, refl, refl);
        at_most = λ hl hr.
            rw
              (
                ordered_not_null (public_value l) (public_value r) hl hr,
                equality-ordered (public_value l) (public_value r) hl hr,
              )
              (at_most_test o);
      }
