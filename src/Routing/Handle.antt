-- ===== src/Routing/Handle.antt =====
-- `handle_step_result` and `route_attempt` (step_attempt.rs): the routing of one settled attempt.
use arazzo_cli.Base.{
  ℕ, zero, suc, ◌+◌, Bool, true, false, Option, none, some, List, length, String, if◌then◌else◌,
  unwrap_or,
}
use arazzo_cli.Spec.{ActionType, OnAction, Step, Workflow, applicable_actions}
use arazzo_cli.Errors.{RuntimeErrorKind, retry_limit_exceeded, success_criteria_failed}
use arazzo_cli.Env.{
  Env, M, Outcome, done, cut_off, out_of_fuel, ◌>>=◌, ◌>>◌, pure, exhaust, check_cancelled,
  cancellation_error, success, failure,
}
use arazzo_cli.Routing.Decision.{
  Evaluator, RetryCounts, FlowDecision, TraceDecisionPath, RoutedDecision, ExhaustedRetry,
  MatchedAction, ActionExecution, routed, retry_exhausted, with_path, error_decision,
}
use arazzo_cli.Routing.Select.{find_matching_action_from}
use arazzo_cli.Routing.Execute.{ExecuteActionContext, execute_action}

-- A settled attempt, as routing reads it.
pub record StepResult : Type 0 where
  pub succeeded : Bool
  pub headers : Option (List (String × String))
  -- The text of the error that the run returned, if it returned one, and its kind.
  pub err : Option String
  pub err_kind : Option RuntimeErrorKind

pub record StepDecisionContext : Type 0 where
  pub workflow : Workflow
  pub step : Step
  pub step_idx : ℕ
  pub result : StepResult
  pub retry_count : RetryCounts

-- `step_result_error`: the kind of the attempt's own error, else that its criteria failed.
unfoldable pub step_result_error : StepResult → RuntimeErrorKind
step_result_error r = elim r.err [
  | some message ↦ unwrap_or success_criteria_failed r.err_kind
  | none ↦ success_criteria_failed
]

unfoldable pub retry_limit_exceeded_decision : ExhaustedRetry → RoutedDecision
unfolding with_path
retry_limit_exceeded_decision x = record {
  flow = FlowDecision.error retry_limit_exceeded;
  trace = record (with_path TraceDecisionPath.error) {
    action_type = some ActionType.retry;
    retry_after_seconds = some x.retry_after;
    retry_limit = x.configured_limit;
  };
}

unfoldable pub next_step : ℕ → RoutedDecision
unfolding with_path
next_step step_idx = record {
  flow = FlowDecision.next (step_idx + 1);
  trace = with_path TraceDecisionPath.next;
}

unfoldable pub no_action_left : StepResult → Option ExhaustedRetry → RoutedDecision
no_action_left result (some x) = retry_limit_exceeded_decision x
no_action_left result none = error_decision (step_result_error result)

abbrev pub execute_context : StepDecisionContext → Bool → ℕ → ExecuteActionContext
execute_context ctx on_failure_path action_index = record {
  workflow = ctx.workflow;
  current_idx = ctx.step_idx;
  is_failure_path = on_failure_path;
  retry_count = ctx.retry_count;
  retry_site = record { step_index = ctx.step_idx; action_index = action_index };
  headers = ctx.result.headers;
  original_err_kind = ctx.result.err_kind;
}

abbrev pub success_actions_of : StepDecisionContext → List OnAction
success_actions_of ctx = applicable_actions ctx.step.on_success ctx.workflow.success_actions

abbrev pub failure_actions_of : StepDecisionContext → List OnAction
failure_actions_of ctx = applicable_actions ctx.step.on_failure ctx.workflow.failure_actions

module _ (env : Env) (ev : Evaluator) (ctx : StepDecisionContext) where
  unfoldable pub settle_success : ActionExecution → RoutedDecision
  settle_success (routed d) = d
  settle_success (retry_exhausted x) = retry_limit_exceeded_decision x

  unfoldable pub success_selected : Option MatchedAction → M RoutedDecision
  success_selected none = pure (next_step ctx.step_idx)
  success_selected (some m) = do
    execution ← execute_action env success (execute_context ctx false m.index) ev m.action
    check_cancelled env
    pure (settle_success execution)

  unfoldable pub route_success : M RoutedDecision
  unfolding success_selected
  route_success = do
    selected ← find_matching_action_from env ev success (success_actions_of ctx) 0
    check_cancelled env
    success_selected selected

  -- What the failure loop does with an execution; `again` is its next round.
  unfoldable pub failure_executed :
      (ExhaustedRetry → M RoutedDecision) → ActionExecution → M RoutedDecision
  failure_executed again (routed d) = pure d
  failure_executed again (retry_exhausted x) = again x

  unfoldable pub failure_selected :
      (ℕ → ExhaustedRetry → M RoutedDecision)
      → Option ExhaustedRetry
      → Option MatchedAction
      → M RoutedDecision
  unfolding failure_executed
  failure_selected again left none = pure (no_action_left ctx.result left)
  failure_selected again left (some m) = do
    execution ← execute_action env failure (execute_context ctx true m.index) ev m.action
    check_cancelled env
    failure_executed (again (m.index + 1)) execution

  -- The loop over the failure actions. An exhausted retry yields to the actions behind it.
  unfoldable pub route_failure :
      (fuel next_action_index : ℕ) → Option ExhaustedRetry → M RoutedDecision
  route_failure zero next left = exhaust
  route_failure (suc fuel) next left = do
    check_cancelled env
    selected ← find_matching_action_from env ev failure (failure_actions_of ctx) next
    check_cancelled env
    failure_selected (λ i x. route_failure fuel i (some x)) left selected

  -- Each round but the last passes an action, so the loop's fuel covers them all.
  unfoldable pub route_result : M RoutedDecision
  unfolding route_success
  route_result = do
    check_cancelled env
    (if ctx.result.succeeded
        then route_success
        else route_failure (suc (length (failure_actions_of ctx))) 0 none)

  -- `return RoutedDecision::error(..)`; `none` where the fuel would run out.
  unfoldable pub decision_of : Outcome RoutedDecision → Option RoutedDecision
  decision_of (done d) = some d
  decision_of (cut_off e) = some (error_decision e)
  decision_of out_of_fuel = none

  unfoldable pub handle_step_result : ℕ → Option RoutedDecision × ℕ
  unfolding decision_of
  handle_step_result n = let (r, n') = route_result.run n in (decision_of r, n')

  -- `route_attempt`: a cancelled invocation's attempt ends in the cancellation.
  unfoldable pub route_attempt : ℕ → Option RoutedDecision × ℕ
  route_attempt n =
      let (d, n') = handle_step_result n in
      (if env.cancelled n' then some (error_decision (cancellation_error env n')) else d, suc n')
