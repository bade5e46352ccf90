-- ===== src/Routing/Select.antt =====
-- `find_matching_action_with_debug_from`: the first action, from an index on, all of whose
-- criteria match. The debugger is consulted at each action and after each criterion.
use arazzo_cli.Base.{
  ℕ, ◌+◌, Bool, true, false, Option, none, some, List, [], ◌∷◌, drop, if◌then◌else◌,
}
use arazzo_cli.Spec.{OnAction, SuccessCriterion}
use arazzo_cli.Env.{
  Env, M, ◌>>=◌, ◌>>◌, pure, check_cancelled, debug_gate, ActionBranch, action_checkpoint,
  criterion_checkpoint,
}
use arazzo_cli.Routing.Decision.{Evaluator, MatchedAction}

module _ (env : Env) (ev : Evaluator) (branch : ActionBranch) where
  -- The inner loop, over an action's criteria from `criterion_index` on.
  unfoldable pub criteria_match :
      (action_index criterion_index : ℕ) → List SuccessCriterion → M Bool
  criteria_match i j [] = pure true
  criteria_match i j (c ∷ cs) = do
    check_cancelled env
    debug_gate env (criterion_checkpoint branch i j)
    check_cancelled env
    if ev.matched c then criteria_match i (j + 1) cs else pure false

  -- The outer loop: the actions from `action_index` on.
  unfoldable pub first_match : (action_index : ℕ) → List OnAction → M (Option MatchedAction)
  first_match i [] = pure none
  first_match i (a ∷ rest) = do
    check_cancelled env
    debug_gate env (action_checkpoint branch i)
    check_cancelled env
    all_match ← criteria_match i 0 a.criteria
    if all_match then pure (some (record { index = i; action = a })) else first_match (i + 1) rest

  unfoldable pub find_matching_action_from : List OnAction → ℕ → M (Option MatchedAction)
  find_matching_action_from actions start_index = do
    check_cancelled env
    first_match start_index (drop start_index actions)
