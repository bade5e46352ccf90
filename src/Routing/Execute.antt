-- ===== src/Routing/Execute.antt =====
-- `execute_action`: what a selected action decides.
pub mod Agrees
use arazzo_cli.Base.{
  ℕ, ◌+◌, Bool, Option, none, some, List, [], ◌∷◌, String, str_eq, if◌then◌else◌, is_empty,
  unwrap_or, ltb, ◌==◌,
}
use arazzo_cli.Json.{Json}
use arazzo_cli.Spec.{ActionType, OnAction, Parameter, Step, Workflow, action_type}
use arazzo_cli.Errors.{
  RuntimeErrorKind, ok, err, success_criteria_failed, goto_target_not_found, goto_target_missing,
}
use arazzo_cli.Env.{
  Env, M, Outcome, done, cut_off, out_of_fuel, ◌>>◌, pure, check_cancelled, debug_gate,
  sleep_with_cancel, ActionBranch, retry_selected_checkpoint, retry_delay_checkpoint,
}
use arazzo_cli.Routing.Decision.{
  Evaluator, Inputs, RetrySite, RetryCounts, RetryReference, FlowDecision, TraceDecision,
  TraceDecisionPath, RoutedDecision, ExhaustedRetry, ActionExecution, routed, retry_exhausted,
  with_path, error_decision, effective_retry_limit,
}
use arazzo_cli.Routing.RetryAfter.{validate_retry_after_value, compute_retry_after_delay}

-- `BTreeMap::insert`.
unfoldable pub insert_input : String → Json → Inputs → Inputs
insert_input k v [] = (k, v) ∷ []
insert_input k v ((j, w) ∷ m) = if str_eq j k then (k, v) ∷ m else (j, w) ∷ insert_input k v m

insert_parameters : Evaluator → Inputs → List Parameter → Inputs
unfolding insert_input
insert_parameters ev mapped [] = mapped
insert_parameters ev mapped (p ∷ rest) =
    insert_parameters ev (insert_input p.name (ev.resolve p.value) mapped) rest

map_parameters : Evaluator → List Parameter → Option Inputs
unfolding insert_parameters
map_parameters ev [] = none
map_parameters ev (p ∷ rest) = some (insert_parameters ev [] (p ∷ rest))

-- No parameters: the caller's own inputs are forwarded.
unfoldable pub map_action_parameters : Evaluator → OnAction → Option Inputs
unfolding map_parameters
map_action_parameters ev a = map_parameters ev a.parameters

-- The engine's index of a workflow's steps, as `BTreeMap::insert` leaves it: of two steps with
-- one id the later counts.
unfoldable pub step_index_from : ℕ → List Step → String → Option ℕ
step_index_from i [] id = none
step_index_from i (s ∷ steps) id = elim (step_index_from (i + 1) steps id) [
  | some later ↦ some later
  | none ↦ if str_eq s.step_id id then some i else none
]

unfoldable pub find_step_index : Workflow → String → Option ℕ
unfolding step_index_from
find_step_index w id = step_index_from 0 w.steps id

pub record ExecuteActionContext : Type 0 where
  pub workflow : Workflow
  pub current_idx : ℕ
  pub is_failure_path : Bool
  pub retry_count : RetryCounts
  pub retry_site : RetrySite
  -- The headers of the response, if there was one.
  pub headers : Option (List (String × String))
  pub original_err_kind : Option RuntimeErrorKind

module _ (ctx : ExecuteActionContext) (ev : Evaluator) (a : OnAction) where
  -- A trace record with the action's type.
  abbrev action_trace : TraceDecisionPath → TraceDecision
  action_trace p = record (with_path p) { action_type = some (action_type a) }

  unfoldable pub end_decision : RoutedDecision
  unfolding with_path
  end_decision =
      if ctx.is_failure_path
      then record {
        flow = FlowDecision.error (unwrap_or success_criteria_failed ctx.original_err_kind);
        trace = action_trace TraceDecisionPath.done;
      }
      else record { flow = FlowDecision.done_flow; trace = action_trace TraceDecisionPath.done }

  goto_step_decision : String → Option ℕ → RoutedDecision
  goto_step_decision id (some idx) = record {
    flow = FlowDecision.next idx;
    trace = record (action_trace TraceDecisionPath.goto_step) { target_step_id = id };
  }
  goto_step_decision id none = record {
    flow = FlowDecision.error goto_target_not_found;
    trace = record (action_trace TraceDecisionPath.error) { target_step_id = id };
  }

  unfoldable pub goto_decision : RoutedDecision
  unfolding goto_step_decision with_path
  goto_decision =
      if is_empty a.step_id
      then (if is_empty a.workflow_id
          then record {
            flow = FlowDecision.error goto_target_missing;
            trace = action_trace TraceDecisionPath.error;
          }
          else let id = ev.interpolate a.workflow_id in
            record {
              flow = FlowDecision.goto_workflow id (map_action_parameters ev a);
              trace = record (action_trace TraceDecisionPath.goto_workflow) {
                target_workflow_id = id;
              };
            })
      else let id = ev.interpolate a.step_id in
        goto_step_decision id (find_step_index ctx.workflow id)

  unfoldable pub retry_reference : Option RetryReference
  retry_reference =
      if is_empty a.step_id
      then (if is_empty a.workflow_id
          then none
          else some (
              RetryReference.to_workflow (ev.interpolate a.workflow_id)
                (map_action_parameters ev a)))
      else some (RetryReference.to_step (ev.interpolate a.step_id))

  -- A retry's trace record, but for its targets.
  abbrev retry_trace : TraceDecisionPath → TraceDecision
  retry_trace p = record (action_trace p) {
    retry_after_seconds = some a.retry_after;
    retry_limit = a.retry_limit;
  }

  target_trace : Option RetryReference → TraceDecision
  target_trace none = retry_trace TraceDecisionPath.retry
  target_trace (some (RetryReference.to_step id)) = record (retry_trace TraceDecisionPath.retry) {
    target_step_id = id;
  }
  target_trace (some (RetryReference.to_workflow id inputs)) =
      record (retry_trace TraceDecisionPath.retry) { target_workflow_id = id }

  unfoldable pub retry_decision : ℕ → ℕ → RoutedDecision
  unfolding target_trace retry_reference with_path
  retry_decision limit delay = record {
    flow =
        FlowDecision.retry ctx.current_idx ctx.retry_site limit (ev.as_secs_f64 delay)
          retry_reference;
    trace = target_trace retry_reference;
  }

  unfoldable pub exhausted : ℕ → ExhaustedRetry
  exhausted limit = record {
    effective_limit = limit;
    retry_after = a.retry_after;
    configured_limit = a.retry_limit;
  }

  unfoldable pub sleep_failed : RuntimeErrorKind → RoutedDecision
  unfolding with_path
  sleep_failed e = record {
    flow = FlowDecision.error e;
    trace = retry_trace TraceDecisionPath.error;
  }

module _ (env : Env) (branch : ActionBranch) (ctx : ExecuteActionContext) (ev : Evaluator)
    (a : OnAction) where
  resume : ℕ → M ActionExecution
  resume delay = do
    check_cancelled env
    pure (routed (retry_decision ctx ev a (effective_retry_limit a.retry_limit) delay))

  -- An interrupted sleep is a decision of its own, with the retry's trace.
  slept : ℕ → Outcome (Unit {0}) × ℕ → Outcome ActionExecution × ℕ
  slept delay (done _, n) = (resume delay).run n
  slept delay (cut_off e, n) = (done (routed (sleep_failed ctx ev a e)), n)
  slept delay (out_of_fuel, n) = (out_of_fuel, n)

  wait_and_resume : ℕ → M ActionExecution
  unfolding slept resume
  wait_and_resume delay = do
    check_cancelled env
    debug_gate env (retry_delay_checkpoint branch ctx.retry_site.action_index)
    check_cancelled env
    record { run = λ n. slept delay ((sleep_with_cancel env delay).run n) }

  delayed_retry : ℕ → M ActionExecution
  unfolding wait_and_resume
  delayed_retry delay = do
    debug_gate env (retry_selected_checkpoint branch ctx.retry_site.action_index)
    check_cancelled env
    if delay == 0 then resume delay else wait_and_resume delay

  exhausted_retry : M ActionExecution
  exhausted_retry = do
    debug_gate env (retry_selected_checkpoint branch ctx.retry_site.action_index)
    check_cancelled env
    pure (retry_exhausted (exhausted ctx ev a (effective_retry_limit a.retry_limit)))

  within_budget : Bool
  within_budget =
      ltb (ctx.retry_count ctx.retry_site.step_index ctx.retry_site.action_index)
        (effective_retry_limit a.retry_limit)

  budgeted_retry : M ActionExecution
  unfolding within_budget exhausted_retry delayed_retry
  budgeted_retry =
      if within_budget
      then elim (compute_retry_after_delay ev a ctx.headers) [
        | err e ↦ pure (routed (error_decision e))
        | ok delay ↦ delayed_retry delay
      ]
      else exhausted_retry

  execute_retry : M ActionExecution
  unfolding budgeted_retry
  execute_retry = elim (validate_retry_after_value a.retry_after) [
    | err e ↦ pure (routed (error_decision e))
    | ok _ ↦ budgeted_retry
  ]

  by_type : ActionType → M ActionExecution
  unfolding execute_retry
  by_type ActionType.end = pure (routed (end_decision ctx ev a))
  by_type ActionType.goto = pure (routed (goto_decision ctx ev a))
  by_type ActionType.retry = execute_retry

  -- `return RoutedDecision::error(err).into()`.
  caught : Outcome ActionExecution × ℕ → Outcome ActionExecution × ℕ
  caught (done x, n) = (done x, n)
  caught (cut_off e, n) = (done (routed (error_decision e)), n)
  caught (out_of_fuel, n) = (out_of_fuel, n)

  unfoldable pub execute_action : M ActionExecution
  unfolding by_type caught
  execute_action = record {
    run = λ n. caught ((do check_cancelled env; by_type (action_type a)).run n);
  }
