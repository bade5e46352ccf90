-- ===== src/Deps/Blocker.antt =====
-- `parallel_blocker` of deps.rs: what keeps a workflow's steps out of parallel levels. The
-- sentence that a blocker carries for the reader is left out.
pub mod Free
use arazzo_cli.Base.{
  String, Bool, true, false, not, ◌||◌, ◌&&◌, Option, none, some, List, [], ◌∷◌, is_empty,
  if◌then◌else◌,
}
use arazzo_cli.Spec.{OnAction, StepTarget, Step, Workflow, action_type, is_retry, is_plain_retry}
use arazzo_cli.Env.{ActionBranch, success, failure}

pub data SequentialFallbackReason : Type 0 where
  debugger sub_workflow_step retry_reference control_flow_action single_step :
      SequentialFallbackReason

pub record ParallelBlocker : Type 0 where
  pub reason : SequentialFallbackReason
  -- Empty for a workflow-level action.
  pub step_id : String

abbrev pub is_success : ActionBranch → Bool
is_success success = true
is_success failure = false

unfoldable pub blocks : ActionBranch → OnAction → Bool
unfolding is_plain_retry
blocks branch a = is_success branch || not (is_plain_retry a)

unfoldable pub fallback_reason : ActionBranch → OnAction → SequentialFallbackReason
fallback_reason branch a =
    if not (is_success branch) && is_retry (action_type a)
    then retry_reference
    else control_flow_action

unfoldable pub action_list_blocker : ActionBranch → String → List OnAction → Option ParallelBlocker
unfolding fallback_reason
action_list_blocker branch step_id [] = none
action_list_blocker branch step_id (a ∷ rest) =
    let later = action_list_blocker branch step_id rest in
    if blocks branch a
    then some (record { reason = fallback_reason branch a; step_id = step_id })
    else later

-- The first of two searches that finds something.
abbrev pub or_else : Option ParallelBlocker → Option ParallelBlocker → Option ParallelBlocker
or_else (some b) other = some b
or_else none other = other

abbrev pub target_blocker : String → Option StepTarget → Option ParallelBlocker
target_blocker step_id (some (StepTarget.workflow_target id)) =
    some (record { reason = sub_workflow_step; step_id = step_id })
target_blocker step_id _ = none

unfoldable pub step_blocker : Step → Option ParallelBlocker
unfolding action_list_blocker
step_blocker s = or_else (target_blocker s.step_id s.target) (
    or_else (action_list_blocker success s.step_id s.on_success)
      (action_list_blocker failure s.step_id s.on_failure))

unfoldable pub steps_blocker : List Step → Option ParallelBlocker
steps_blocker [] = none
steps_blocker (s ∷ steps) = or_else (step_blocker s) (steps_blocker steps)

unfoldable pub parallel_blocker : Workflow → Option ParallelBlocker
parallel_blocker w = or_else (steps_blocker w.steps) (
    or_else (action_list_blocker success "" w.success_actions)
      (action_list_blocker failure "" w.failure_actions))
