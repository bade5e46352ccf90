-- ===== src/Conditions/Evaluation/DeMorgan.antt =====
-- Negated alternatives in the evaluation of simple conditions (evaluation.rs).
use arazzo_cli.Base.{
  ℕ, ◌≡◌, refl, sym, String, Bool, true, false, not, List, inl, inr, map_fine, Fallible-cases,
  if◌then◌else◌,
}
use arazzo_cli.Json.{boolean}
use arazzo_cli.Conditions.Numeric.{Numerics}
use arazzo_cli.Conditions.Compare.{ResolvedValue, present}
use arazzo_cli.Conditions.Syntax.{syntax, or, and, not_of, Children, no_child, child, start_of}
use arazzo_cli.Conditions.Evaluation.{
  Evaluated, Resolution, truth, node, decide, then_run, outcome_of, answer,
}

-- The negation of each child, at its own place.
abbrev pub negated : Children → Children
negated no_child = no_child
negated (child c cs) = child (syntax (not_of c) (start_of c)) (negated cs)

module _ {W : Type 0} (num : Numerics) (lower : String → String) (resolve : ℕ → Resolution W) where
  abbrev negate : ℕ → ResolvedValue → List W → Evaluated W ResolvedValue
  negate at v ws = outcome_of (map_fine (λ b. present (boolean (not b))) (truth v at)) ws

  module _ (at : ℕ) (cs : Children) (ws1 : List W)
      (rest : (b : Bool)
        → decide num lower resolve (not b) (negated cs) ws1
          ≡ then_run (decide num lower resolve b cs ws1) (negate at)) where
    on_true :
        (b : Bool)
        → (if not (not b)
            then answer (boolean false) ws1
            else decide num lower resolve (not b) (negated cs) ws1)
          ≡ then_run
              (if b then answer (boolean true) ws1 else decide num lower resolve b cs ws1)
              (negate at)
    unfolding truth
    on_true true = refl
    on_true false = rest false

    on_false :
        (b : Bool)
        → (if not b
            then answer (boolean true) ws1
            else decide num lower resolve (not b) (negated cs) ws1)
          ≡ then_run
              (if not b then answer (boolean false) ws1 else decide num lower resolve b cs ws1)
              (negate at)
    unfolding truth
    on_false true = rest true
    on_false false = refl

  decide-negated :
      (b : Bool) (at : ℕ) (cs : Children) (ws : List W)
      → decide num lower resolve (not b) (negated cs) ws
        ≡ then_run (decide num lower resolve b cs ws) (negate at)
  unfolding node truth
  decide-negated true at no_child ws = refl
  decide-negated false at no_child ws = refl
  decide-negated b at (child c cs) ws =
      elim (Fallible-cases (node num lower resolve c ws).outcome) [
        | inr (e, h) ↦ rw h refl
        | inl (v, h) ↦ elim (Fallible-cases (truth v (start_of c))) [
          | inr (e, t) ↦ rw (h, t) refl
          | inl (true, t) ↦
              rw (h, t)
                (on_true at cs (node num lower resolve c ws).warnings
                  (λ d. decide-negated d at cs (node num lower resolve c ws).warnings) b)
          | inl (false, t) ↦
              rw (h, t)
                (on_false at cs (node num lower resolve c ws).warnings
                  (λ d. decide-negated d at cs (node num lower resolve c ws).warnings) b)
        ]
      ]

  -- The negation of alternatives runs as the conjunction of their negations does, and the negation of a
  -- conjunction as the alternatives of the negations: the same value or the same error at the same place,
  -- after the same lookups with the same warnings.
  pub node-negated :
      (cs : Children) (start at : ℕ) (ws : List W)
      → (node num lower resolve (syntax (not_of (syntax (or cs) at)) start) ws
          ≡ node num lower resolve (syntax (and (negated cs)) start) ws)
        × (node num lower resolve (syntax (not_of (syntax (and cs) at)) start) ws
            ≡ node num lower resolve (syntax (or (negated cs)) start) ws)
  unfolding node
  node-negated cs start at ws =
      (sym (decide-negated true at cs ws), sym (decide-negated false at cs ws))
