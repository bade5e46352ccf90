-- ===== src/Conditions/Evaluation.antt =====
-- `evaluate` of crates/arazzo-expr/src/simple_condition/evaluation.rs: the run of a syntax tree.
pub mod DeMorgan
pub mod Booleans
use Prim.Native.Char.{code, Char}
use arazzo_cli.Base.{
  ℕ, zero, suc, String, Bool, true, false, not, ◌&&◌, ◌||◌, Option, none, some, List, [], ◌∷◌, ◌++◌,
  ◌==◌, is_empty, str_eq, if◌then◌else◌, Fallible, fine, failed, and_then, map_fine, map_err,
}
use arazzo_cli.Json.{
  Json, null, boolean, number, string, array, object, Items, nil, cons, Fields, none_left, field,
}
use arazzo_cli.Conditions.Numeric.{Numerics, parse, parse_usize}
use arazzo_cli.Conditions.Equality.{get, bool_eq}
use arazzo_cli.Conditions.Compare.{ResolvedValue, missing, present, public_value, compare_resolved}
use arazzo_cli.Conditions.Syntax.{
  Access, AccessKind, property, index, Accesses, no_access, access, Syntax, SyntaxKind, syntax, or,
  and, not_of, comparison, postfix, group, runtime_expression, boolean_literal, number_literal,
  string_literal, null_literal, Children, no_child, child, start_of,
}

pub data ConditionErrorKind : Type 0 where
  syntax_error nesting_limit invalid_evaluation : ConditionErrorKind

pub record ConditionError : Type 0 where
  pub kind : ConditionErrorKind
  pub byte_offset : ℕ
  pub message : String

abbrev pub invalid : ℕ → String → ConditionError
invalid offset message = record {
  kind = invalid_evaluation;
  byte_offset = offset;
  message = message;
}

unfoldable pub truth : ResolvedValue → ℕ → Fallible ConditionError Bool
truth missing offset = fine false
truth (present null) offset = fine false
truth (present (boolean b)) offset = fine b
truth (present _) offset = failed (invalid offset "boolean or null required")

abbrev pub holding : Option Json → ResolvedValue
holding none = missing
holding (some v) = present v

abbrev nth : Items → ℕ → Option Json
nth nil i = none
nth (cons x xs) zero = some x
nth (cons x xs) (suc i) = nth xs i

-- `array.swap_remove(index)`, where the text is a `usize` below the length.
abbrev element : Items → Option ℕ → ResolvedValue
element xs none = missing
element xs (some i) = holding (nth xs i)

-- One access; every other value is of the wrong kind.
access_of : ResolvedValue → AccessKind → ℕ → Fallible ConditionError ResolvedValue
access_of missing kind start = fine missing
access_of (present (object fs)) (property name) start = fine (holding (get name fs))
access_of (present (array xs)) (index raw) start = fine (element xs (parse_usize raw))
access_of (present v) (property name) start =
    failed (invalid start "property access requires an object")
access_of (present v) (index raw) start = failed (invalid start "index access requires an array")

accessed : Accesses → ResolvedValue → Fallible ConditionError ResolvedValue
unfolding access_of
accessed no_access v = fine v
accessed (access a rest) v = and_then (access_of v a.kind a.start) (accessed rest)

-- Where a failed conversion is reported: at the text operand, or else at the operator.
abbrev report_at : ℕ → ℕ → ℕ → Json → Json → ℕ
report_at left right operator (number a) (string b) = right
report_at left right operator (string a) (number b) = left
report_at left right operator _ _ = operator

-- `raw[1..raw.len() - 1]`, over the text after the first quote.
abbrev without_last : String → String
without_last String.[] = String.[]
without_last (String.◌∷◌ c rest) =
    let shorter = without_last rest in if is_empty rest then String.[] else String.◌∷◌ c shorter

-- `replace("''", "'")`; `after_quote` where the character before is a quote without a partner.
abbrev single_quotes : (after_quote : Bool) → String → String
single_quotes after_quote String.[] = String.[]
single_quotes after_quote (String.◌∷◌ c rest) =
    let later = single_quotes (code c == 39 && not after_quote) rest in
    if code c == 39 && after_quote then later else String.◌∷◌ c later

unfoldable pub string_value : String → String
string_value String.[] = String.[]
string_value (String.◌∷◌ c rest) = single_quotes false (without_last rest)

-- The warnings so far and the value or the error.
pub record Evaluated (W A : Type 0) : Type 0 where
  pub warnings : List W
  pub outcome : Fallible ConditionError A

-- The operator `?` after a step that may leave warnings.
abbrev proceed :
    {W A B : Type 0}
    → List W
    → Fallible ConditionError A
    → (A → List W → Evaluated W B)
    → Evaluated W B
proceed ws (fine a) f = f a ws
proceed ws (failed e) f = record { warnings = ws; outcome = failed e }

abbrev pub then_run :
    {W A B : Type 0} → Evaluated W A → (A → List W → Evaluated W B) → Evaluated W B
then_run r f = proceed r.warnings r.outcome f

abbrev pub answer : {W : Type 0} → Json → List W → Evaluated W ResolvedValue
answer v ws = record { warnings = ws; outcome = fine (present v) }

abbrev pub outcome_of : {W A : Type 0} → Fallible ConditionError A → List W → Evaluated W A
outcome_of r ws = record { warnings = ws; outcome = r }

-- `resolve_parsed` of one of the condition's expressions: its value and its warnings.
pub record Resolution (W : Type 0) : Type 0 where
  pub value : ResolvedValue
  pub warnings : List W

-- `ConditionEvaluation`.
pub record ConditionEvaluation (W : Type 0) : Type 0 where
  pub result : Bool
  pub warnings : List W
  pub error : Option ConditionError

abbrev closed : {W : Type 0} → List W → Fallible ConditionError Bool → ConditionEvaluation W
closed ws (fine b) = record { result = b; warnings = ws; error = none }
closed ws (failed e) = record { result = false; warnings = ws; error = some e }

abbrev pub closed_run : {W : Type 0} → Evaluated W Bool → ConditionEvaluation W
closed_run r = closed r.warnings r.outcome

module _ {W : Type 0} (num : Numerics) (lower : String → String) (resolve : ℕ → Resolution W) where
  -- The comparison of two values, with the offset that its error is reported at.
  unfoldable pub compared :
      ResolvedValue → ResolvedValue → String → ℕ → ℕ → ℕ → Fallible ConditionError ResolvedValue
  unfolding compare_resolved
  compared left right op left_start op_start right_start =
      map_err
        (invalid
          (report_at left_start right_start op_start (public_value left) (public_value right)))
        (map_fine (λ b. present (boolean b)) (compare_resolved num lower left right op))

  unfoldable mutual
    unfolding truth compared parse string_value accessed

    pub node : Syntax → List W → Evaluated W ResolvedValue
    node (syntax kind start) ws = node_kind kind start ws

    pub node_kind : SyntaxKind → ℕ → List W → Evaluated W ResolvedValue
    node_kind (or cs) start ws = decide true cs ws
    node_kind (and cs) start ws = decide false cs ws
    node_kind (not_of s) start ws =
        then_run (node s ws) (λ v ws1.
          outcome_of (map_fine (λ b. present (boolean (not b))) (truth v (start_of s))) ws1)
    node_kind (group s) start ws = node s ws
    node_kind (comparison left op op_start right) start ws = then_run (node left ws) (λ l ws1.
        then_run (node right ws1)
          (λ r ws2. outcome_of (compared l r op (start_of left) op_start (start_of right)) ws2))
    node_kind (postfix primary accesses) start ws =
        then_run (node primary ws) (λ v ws1. outcome_of (accessed accesses v) ws1)
    node_kind (runtime_expression i) start ws = record {
      warnings = ws ++ (resolve i).warnings;
      outcome = fine (resolve i).value;
    }
    node_kind (boolean_literal raw) start ws = answer (boolean (str_eq raw "true")) ws
    node_kind null_literal start ws = answer null ws
    node_kind (number_literal raw) start ws =
        outcome_of (map_err (invalid start) (map_fine (λ n. present (number n)) (parse num raw))) ws
    node_kind (string_literal raw) start ws = answer (string (string_value raw)) ws

    -- The loop over the children of `or` and of `and`.
    pub decide : (is_or : Bool) → Children → List W → Evaluated W ResolvedValue
    decide is_or no_child ws = answer (boolean (not is_or)) ws
    decide is_or (child c cs) ws = then_run (node c ws) (λ v ws1.
        then_run (outcome_of (truth v (start_of c)) ws1)
          (λ b ws2. if bool_eq b is_or then answer (boolean b) ws2 else decide is_or cs ws2))

  -- `evaluate`: the decision, closed on any error.
  unfoldable pub evaluate : Syntax → ConditionEvaluation W
  unfolding node
  evaluate s = closed_run (then_run (node s []) (λ v ws. outcome_of (truth v (start_of s)) ws))
