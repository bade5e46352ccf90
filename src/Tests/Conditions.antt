-- ===== src/Tests/Conditions.antt =====
-- The theorems about simple conditions at small conditions.
use Prim.Native.Nat.{Ordering}
use Prim.Native.String.{String}
use arazzo_cli.Base.{ℕ, ◌≡◌, refl, true, false, none, some, [], ◌∷◌, fine}
use arazzo_cli.Json.{Json, number, string, array, pos_int, cons, nil, object, field, none_left}
use arazzo_cli.Conditions.Numeric.{Numerics, pos}
use arazzo_cli.Conditions.Equality.{structural_equal}
use arazzo_cli.Conditions.Equality.Reference.{equals, structural_equal-equals}
use arazzo_cli.Conditions.Nesting.{check_nesting}
use arazzo_cli.Conditions.Nesting.Bounds.{IsBounded, openers, check_nesting-IsBounded}
use arazzo_cli.Conditions.Compare.{present, missing}
use arazzo_cli.Conditions.Compare.Complements.{Complemented, compare_resolved-Complemented}
use arazzo_cli.Conditions.Syntax.{
  Syntax, syntax, or, and, not_of, comparison, runtime_expression, boolean_literal, number_literal,
  Children, no_child, child,
}
use arazzo_cli.Conditions.Evaluation.{Resolution, node, evaluate}
use arazzo_cli.Conditions.Evaluation.DeMorgan.{negated, node-negated}
use arazzo_cli.Conditions.Evaluation.Booleans.{YieldsBoolean, Reports, evaluate-Reports}

-- No floats: every text that is asked for is an integer.
abbrev integers : Numerics
integers = record {
  is_spelling = λ s. true;
  parse_f64 = λ s. none;
  is_finite = λ b. true;
  is_zero = λ b. false;
  is_above = λ b. false;
  is_below = λ b. false;
  truncated = λ b. pos b;
  fract_is_positive = λ b. false;
  fract_is_negative = λ b. false;
  partial_cmp = λ a b. Ordering.eq;
}

abbrev as_it_is : String → String
as_it_is s = s

abbrev one_two : Json
one_two = array (cons (number (pos_int 1)) (cons (object (field "a" (string "2") none_left)) nil))

abbrev one_and_two : Json
one_and_two =
    array (cons (number (pos_int 1)) (cons (object (field "a" (number (pos_int 2)) none_left)) nil))

structural_equal_run : structural_equal integers as_it_is one_two one_and_two ≡ some (fine true)
unfolding structural_equal arazzo_cli.Conditions.Numeric.parse
structural_equal_run = refl

structural_equal-equals_example :
    structural_equal integers as_it_is one_two one_and_two
    ≡ some (equals integers as_it_is one_two one_and_two)
structural_equal-equals_example = structural_equal-equals integers as_it_is one_two one_and_two

check_nesting-IsBounded_example : IsBounded (openers "!($a) && !b") (check_nesting "!($a) && !b")
check_nesting-IsBounded_example = check_nesting-IsBounded "!($a) && !b"

compare_resolved-Complemented_example :
    Complemented integers as_it_is (present (string "10")) (present (number (pos_int 9)))
compare_resolved-Complemented_example =
    compare_resolved-Complemented integers as_it_is (present (string "10"))
      (present (number (pos_int 9)))

-- Each expression is absent, and its lookup leaves a warning.
abbrev absent : ℕ → Resolution ℕ
absent i = record { value = missing; warnings = i ∷ [] }

-- `$a || 1 < 2`
abbrev alternatives : Children
alternatives = child (syntax (runtime_expression 0) 0) (
    child
      (syntax (comparison (syntax (number_literal "1") 6) "<" 8 (syntax (number_literal "2") 10)) 6)
      no_child)

node-negated_example :
    (node integers as_it_is absent (syntax (not_of (syntax (or alternatives) 1)) 0) []
      ≡ node integers as_it_is absent (syntax (and (negated alternatives)) 0) [])
    × (node integers as_it_is absent (syntax (not_of (syntax (and alternatives) 1)) 0) []
        ≡ node integers as_it_is absent (syntax (or (negated alternatives)) 0) [])
node-negated_example = node-negated integers as_it_is absent alternatives 0 1 []

evaluate-Reports_example :
    YieldsBoolean (node integers as_it_is absent (syntax (or alternatives) 0) []).outcome
    × Reports integers as_it_is absent
        (evaluate integers as_it_is absent (syntax (or alternatives) 0))
        (node integers as_it_is absent (syntax (or alternatives) 0) []).outcome
unfolding arazzo_cli.Conditions.Syntax.is_condition_decision
evaluate-Reports_example =
    evaluate-Reports integers as_it_is absent (syntax (or alternatives) 0) refl

evaluate_run : (evaluate integers as_it_is absent (syntax (or alternatives) 0)).result ≡ true
unfolding evaluate arazzo_cli.Conditions.Equality.ordered
evaluate_run = refl
