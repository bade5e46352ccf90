-- ===== src/Conditions/Evaluation/Booleans.antt =====
-- The values of condition decisions (evaluation.rs and `is_condition_decision` of syntax.rs).
use arazzo_cli.Base.{
  ℕ, ◌≡◌, refl, arith, String, Bool, true, false, not, List, inl, inr, Fallible, fine, failed,
  map_fine, map_err, Bool-cases, if◌then◌else◌, [], none, some,
}
use arazzo_cli.Json.{Json, null, boolean, number, string, array, object}
use arazzo_cli.Conditions.Numeric.{Numerics}
use arazzo_cli.Conditions.Compare.{compare_resolved, ResolvedValue, present, missing}
use arazzo_cli.Conditions.Equality.{bool_eq}
use arazzo_cli.Conditions.Syntax.{
  Syntax, syntax, SyntaxKind, or, and, not_of, comparison, postfix, group, runtime_expression,
  boolean_literal, number_literal, string_literal, null_literal, Children, no_child, child,
  start_of, is_condition_decision, is_decision_kind,
}
use arazzo_cli.Conditions.Evaluation.{
  ConditionError, Evaluated, Resolution, truth, node, node_kind, decide, then_run, outcome_of,
  proceed, compared, answer, ConditionEvaluation, closed_run, evaluate,
}

abbrev pub IsBooleanJson : Json → Type 0
IsBooleanJson (boolean b) = Unit
IsBooleanJson _ = ⊥

abbrev pub IsBooleanValue : ResolvedValue → Type 0
IsBooleanValue missing = ⊥
IsBooleanValue (present v) = IsBooleanJson v

-- An error, or a Boolean.
abbrev pub YieldsBoolean : Fallible ConditionError ResolvedValue → Type 0
YieldsBoolean (failed e) = Unit
YieldsBoolean (fine v) = IsBooleanValue v

of_bool :
    (f : Bool → Bool) (r : Fallible ConditionError Bool)
    → YieldsBoolean (map_fine (λ b. present (boolean (f b))) r)
of_bool f (fine b) = tt
of_bool f (failed e) = tt

proceed-YieldsBoolean :
    {W A : Type 0} (ws : List W) (r : Fallible ConditionError A)
    (f : A → List W → Evaluated W ResolvedValue)
    → ((a : A) → YieldsBoolean (f a ws).outcome)
    → YieldsBoolean (proceed ws r f).outcome
proceed-YieldsBoolean ws (fine a) f h = h a
proceed-YieldsBoolean ws (failed e) f h = tt

map_err-YieldsBoolean :
    (f : String → ConditionError) (r : Fallible String Bool)
    → YieldsBoolean (map_err f (map_fine (λ b. present (boolean b)) r))
map_err-YieldsBoolean f (fine b) = tt
map_err-YieldsBoolean f (failed e) = tt

module _ {W : Type 0} (num : Numerics) (lower : String → String) (resolve : ℕ → Resolution W) where
  abbrev chosen : Bool → Children → Bool → List W → Evaluated W ResolvedValue
  chosen b cs t ws = if bool_eq t b then answer (boolean t) ws else decide num lower resolve b cs ws

  abbrev after : Bool → Syntax → Children → ResolvedValue → List W → Evaluated W ResolvedValue
  after b c cs v ws = then_run (outcome_of (truth v (start_of c)) ws) (chosen b cs)

  chosen-YieldsBoolean :
      (b : Bool) (cs : Children) (ws : List W)
      → YieldsBoolean (decide num lower resolve b cs ws).outcome
      → (t : Bool) → YieldsBoolean (chosen b cs t ws).outcome
  chosen-YieldsBoolean b cs ws rest t = elim (Bool-cases (bool_eq t b)) [
    | inl h ↦ rw h tt
    | inr h ↦ rw h rest
  ]

  mutual
    unfolding node is_condition_decision compared truth

    node-YieldsBoolean :
        (s : Syntax) (ws : List W)
        → is_condition_decision s ≡ true
        → YieldsBoolean (node num lower resolve s ws).outcome
    node-YieldsBoolean (syntax kind start) ws h = kind-YieldsBoolean kind start ws h

    kind-YieldsBoolean :
        (k : SyntaxKind) (start : ℕ) (ws : List W)
        → is_decision_kind k ≡ true
        → YieldsBoolean (node_kind num lower resolve k start ws).outcome
    kind-YieldsBoolean (or cs) start ws h = decide-YieldsBoolean true cs ws
    kind-YieldsBoolean (and cs) start ws h = decide-YieldsBoolean false cs ws
    kind-YieldsBoolean (group s) start ws h = node-YieldsBoolean s ws h
    kind-YieldsBoolean (boolean_literal raw) start ws h = tt
    kind-YieldsBoolean (not_of s) start ws h =
        proceed-YieldsBoolean (node num lower resolve s ws).warnings
          (node num lower resolve s ws).outcome
          (λ v ws1.
            outcome_of (map_fine (λ b. present (boolean (not b))) (truth v (start_of s))) ws1)
          (λ v. of_bool not (truth v (start_of s)))
    kind-YieldsBoolean (comparison l op at r) start ws h =
        (let ran_left = node num lower resolve l ws in
          let ran_right = node num lower resolve r ran_left.warnings in
          proceed-YieldsBoolean ran_left.warnings ran_left.outcome
            (λ v ws1. then_run (node num lower resolve r ws1) (λ w ws2.
              outcome_of (compared num lower resolve v w op (start_of l) at (start_of r)) ws2))
            (λ v.
              proceed-YieldsBoolean ran_right.warnings ran_right.outcome
                (λ w ws2.
                  outcome_of (compared num lower resolve v w op (start_of l) at (start_of r)) ws2)
                (λ w. map_err-YieldsBoolean _ (compare_resolved num lower v w op))))
    kind-YieldsBoolean (postfix primary accesses) start ws h = absurd (ground arith)
    kind-YieldsBoolean (runtime_expression i) start ws h = absurd (ground arith)
    kind-YieldsBoolean (number_literal raw) start ws h = absurd (ground arith)
    kind-YieldsBoolean (string_literal raw) start ws h = absurd (ground arith)
    kind-YieldsBoolean null_literal start ws h = absurd (ground arith)

    decide-YieldsBoolean :
        (b : Bool) (cs : Children) (ws : List W)
        → YieldsBoolean (decide num lower resolve b cs ws).outcome
    decide-YieldsBoolean b no_child ws = tt
    decide-YieldsBoolean b (child c cs) ws =
        (let ran = node num lower resolve c ws in
          proceed-YieldsBoolean ran.warnings ran.outcome (after b c cs) (λ v.
            proceed-YieldsBoolean ran.warnings (truth v (start_of c)) (chosen b cs)
              (chosen-YieldsBoolean b cs ran.warnings (decide-YieldsBoolean b cs ran.warnings))))

  -- What a report says of a run: its error, or the Boolean that it ended with.
  abbrev pub Reports : ConditionEvaluation W → Fallible ConditionError ResolvedValue → Type 0
  Reports report (fine v) = (report.error ≡ none) × (v ≡ present (boolean report.result))
  Reports report (failed e) = (report.error ≡ some e) × (report.result ≡ false)

  reported :
      (ws : List W) (at : ℕ) (r : Fallible ConditionError ResolvedValue)
      → YieldsBoolean r
      → Reports (closed_run (proceed ws r (λ v ws1. outcome_of (truth v at) ws1))) r
  unfolding truth
  reported ws at (failed e) h = (refl, refl)
  reported ws at (fine (present (boolean b))) h = (refl, refl)
  reported ws at (fine missing) h = absurd h
  reported ws at (fine (present null)) h = absurd h
  reported ws at (fine (present (number n))) h = absurd h
  reported ws at (fine (present (string t))) h = absurd h
  reported ws at (fine (present (array xs))) h = absurd h
  reported ws at (fine (present (object fs))) h = absurd h

  -- A condition decision, with no lookup or literal at its top, runs to a Boolean or fails, and its
  -- evaluation reports exactly that Boolean, or exactly that failure with a closed decision.
  pub evaluate-Reports :
      (s : Syntax)
      → is_condition_decision s ≡ true
      → YieldsBoolean (node num lower resolve s []).outcome
        × Reports (evaluate num lower resolve s) (node num lower resolve s []).outcome
  unfolding evaluate
  evaluate-Reports s h =
      let ran = node num lower resolve s [] in
      let yields = node-YieldsBoolean s [] h in
      (yields, reported ran.warnings (start_of s) ran.outcome yields)
