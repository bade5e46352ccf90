-- ===== src/Debug/Breakpoints.antt =====
-- crates/arazzo-runtime/src/debug/breakpoints.rs: which breakpoint an arrival matches.
use Prim.Native.Char.{code, Char}
use arazzo_cli.Base.{
  ℕ, String, Bool, true, false, ◌&&◌, ◌||◌, Option, none, some, List, [], ◌∷◌, ◌==◌, leb, is_empty,
  str_eq, if◌then◌else◌,
}
use arazzo_cli.Env.{StepCheckpoint}

pub record StepBreakpoint : Type 0 where
  pub workflow_id : String
  pub step_id : String
  pub checkpoint : StepCheckpoint
  pub condition : Option String

-- `char::is_whitespace`: the White_Space property of Unicode.
unfoldable pub is_whitespace : Char → Bool
is_whitespace c =
    let n = code c in
    (leb 9 n && leb n 13)
    || n == 32
    || n == 133
    || n == 160
    || n == 5760
    || (leb 8192 n && leb n 8202)
    || n == 8232
    || n == 8233
    || n == 8239
    || n == 8287
    || n == 12288

trim_start : String → String
unfolding is_whitespace
trim_start String.[] = String.[]
trim_start (String.◌∷◌ c s) =
    let rest = trim_start s in if is_whitespace c then rest else String.◌∷◌ c s

trim_end : String → String
unfolding is_whitespace
trim_end String.[] = String.[]
trim_end (String.◌∷◌ c s) =
    let rest = trim_end s in
    if is_whitespace c && is_empty rest then String.[] else String.◌∷◌ c rest

unfoldable pub trim : String → String
unfolding trim_start trim_end
trim s = trim_end (trim_start s)

unfoldable pub checkpoint_eq : StepCheckpoint → StepCheckpoint → Bool
checkpoint_eq StepCheckpoint.step StepCheckpoint.step = true
checkpoint_eq (StepCheckpoint.success_criterion i) (StepCheckpoint.success_criterion j) = i == j
checkpoint_eq (StepCheckpoint.on_success_action i) (StepCheckpoint.on_success_action j) = i == j
checkpoint_eq (StepCheckpoint.on_success_criterion i k) (StepCheckpoint.on_success_criterion j l) =
    i == j && k == l
checkpoint_eq (StepCheckpoint.on_failure_action i) (StepCheckpoint.on_failure_action j) = i == j
checkpoint_eq (StepCheckpoint.on_failure_criterion i k) (StepCheckpoint.on_failure_criterion j l) =
    i == j && k == l
checkpoint_eq (StepCheckpoint.on_success_retry_selected i)
      (StepCheckpoint.on_success_retry_selected j) =
    i == j
checkpoint_eq (StepCheckpoint.on_success_retry_delay i) (StepCheckpoint.on_success_retry_delay j) =
    i == j
checkpoint_eq (StepCheckpoint.on_failure_retry_selected i)
      (StepCheckpoint.on_failure_retry_selected j) =
    i == j
checkpoint_eq (StepCheckpoint.on_failure_retry_delay i) (StepCheckpoint.on_failure_retry_delay j) =
    i == j
checkpoint_eq (StepCheckpoint.output x) (StepCheckpoint.output y) = str_eq x y
checkpoint_eq _ _ = false

-- Where an arrival is: the arguments by which a breakpoint is told.
pub record Site : Type 0 where
  pub workflow_id : String
  pub step_id : String
  pub checkpoint : StepCheckpoint
  pub depth : ℕ

unfoldable pub matches_identity : StepBreakpoint → Site → Bool
unfolding checkpoint_eq
matches_identity b site =
    str_eq b.workflow_id site.workflow_id
    && (str_eq b.step_id site.step_id && checkpoint_eq b.checkpoint site.checkpoint)

-- Conditions are evaluated by the expression language: `none` is an error.
module _ (evaluate : String → Option Bool) where
  unfoldable pub breakpoint_condition_matches : Option String → Option Bool
  unfolding trim
  breakpoint_condition_matches none = some true
  breakpoint_condition_matches (some condition) =
      if is_empty (trim condition) then some true else evaluate (trim condition)

  -- `none` where a condition cannot be evaluated.
  unfoldable pub first_matching_breakpoint :
      List StepBreakpoint → Site → Option (Option StepBreakpoint)
  unfolding matches_identity breakpoint_condition_matches
  first_matching_breakpoint [] site = some none
  first_matching_breakpoint (b ∷ rest) site =
      let later = first_matching_breakpoint rest site in
      if matches_identity b site
      then elim (breakpoint_condition_matches b.condition) [
        | none ↦ none
        | some true ↦ some (some b)
        | some false ↦ later
      ]
      else later

-- The condition that a stop reports.
unfoldable pub reported_condition : StepBreakpoint → Option String
unfolding trim
reported_condition b = elim b.condition [
  | none ↦ none
  | some condition ↦ if is_empty (trim condition) then none else some condition
]
