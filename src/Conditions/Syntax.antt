-- ===== src/Conditions/Syntax.antt =====
-- The syntax tree of crates/arazzo-expr/src/simple_condition/syntax.rs. A span is modelled by its
-- start, the only end that evaluation reads.
use arazzo_cli.Base.{ℕ, String, Bool, true, false}

pub data AccessKind : Type 0 where
  property index : String → AccessKind

pub record Access : Type 0 where
  pub kind : AccessKind
  pub start : ℕ

pub data Accesses : Type 0 where
  no_access : Accesses
  access : Access → Accesses → Accesses

mutual
  pub data Syntax : Type 0 where
    syntax : SyntaxKind → (start : ℕ) → Syntax

  pub data SyntaxKind : Type 0 where
    or and : Children → SyntaxKind
    not_of : Syntax → SyntaxKind
    comparison : Syntax → (operator : String) → (operator_start : ℕ) → Syntax → SyntaxKind
    postfix : Syntax → Accesses → SyntaxKind
    group : Syntax → SyntaxKind
    runtime_expression : ℕ → SyntaxKind
    boolean_literal number_literal string_literal : String → SyntaxKind
    null_literal : SyntaxKind

  pub data Children : Type 0 where
    no_child : Children
    child : Syntax → Children → Children

abbrev pub start_of : Syntax → ℕ
start_of (syntax kind start) = start

unfoldable mutual
  pub is_condition_decision : Syntax → Bool
  is_condition_decision (syntax kind start) = is_decision_kind kind

  pub is_decision_kind : SyntaxKind → Bool
  is_decision_kind (or children) = true
  is_decision_kind (and children) = true
  is_decision_kind (not_of s) = true
  is_decision_kind (comparison left operator start right) = true
  is_decision_kind (group s) = is_condition_decision s
  is_decision_kind (boolean_literal raw) = true
  is_decision_kind _ = false
