-- ===== src/Routing/Within.antt =====
-- A retry is decided only within its action's budget (engine_actions.rs).
use arazzo_cli.Base.{
  ℕ, ◌+◌, ◌<◌, ◌≡◌, refl, subst, Bool, true, false, inl, inr, Option, none, some, List, [], ◌∷◌,
  get_elem?, drop, arith, ltb, ltb→lt, if◌then◌else◌,
}
use arazzo_cli.Spec.{ActionType, OnAction, F64, action_type}
use arazzo_cli.Errors.{Result, ok, err}
use arazzo_cli.Routing.Decision.{
  Evaluator, RetryReference, FlowDecision, RoutedDecision, ExhaustedRetry, ActionExecution, routed,
  retry_exhausted, error_decision, effective_retry_limit,
}
use arazzo_cli.Routing.RetryAfter.{validate_retry_after_value, compute_retry_after_delay}
use arazzo_cli.Routing.Execute.{
  ExecuteActionContext, end_decision, goto_decision, retry_decision, exhausted,
}
use arazzo_cli.Routing.Handle.{
  StepDecisionContext, execute_context, failure_actions_of, success_actions_of, route_attempt,
  no_action_left, retry_limit_exceeded_decision,
}
use arazzo_cli.Env.{Env}
use arazzo_cli.Routing.Settle.{route_attempt-Settles}
use arazzo_cli.Routing.Walk.{drop-suc, get_elem?_of_drop}
use arazzo_cli.Routing.Reference.{
  all_matched, execution, execution_by_type, retry_reference_execution, in_time_execution, walk,
  decision, first_matching, success_decision, Settles,
}

abbrev pub is_retry_flow : FlowDecision → Bool
is_retry_flow (FlowDecision.retry i site limit delay reference) = true
is_retry_flow _ = false

-- The retry `flow` re-runs the step `step_idx` itself, at the site of the action `k` of `actions`,
-- a retry action that has not used up its effective limit.
pub data RetriesWithin (actions : List OnAction) (step_idx : ℕ) (count : ℕ → ℕ)
    : FlowDecision → Type 0 where
  within :
      (k : ℕ) (a : OnAction) (delay : F64) (reference : Option RetryReference)
      → get_elem? actions k ≡ some a
      → action_type a ≡ ActionType.retry
      → count k < effective_retry_limit a.retry_limit
      → RetriesWithin actions step_idx count (
          FlowDecision.retry step_idx
            (record { step_index = step_idx; action_index = k })
            (effective_retry_limit a.retry_limit)
            delay
            reference)

end-no_retry :
    (ctx : ExecuteActionContext) (ev : Evaluator) (a : OnAction)
    → is_retry_flow (end_decision ctx ev a).flow ≡ false
unfolding end_decision
end-no_retry ctx ev a = ground arith

goto-no_retry :
    (ctx : ExecuteActionContext) (ev : Evaluator) (a : OnAction)
    → is_retry_flow (goto_decision ctx ev a).flow ≡ false
unfolding goto_decision
goto-no_retry ctx ev a = ground arith

flow_of : ActionExecution → FlowDecision
flow_of (routed d) = d.flow
flow_of (retry_exhausted x) = (retry_limit_exceeded_decision x).flow

module _ (ev : Evaluator) (ctx : StepDecisionContext) where
  abbrev Within : List OnAction → FlowDecision → Type 0
  Within actions flow =
      is_retry_flow flow ≡ true
      → RetriesWithin actions ctx.step_idx (ctx.retry_count ctx.step_idx) flow

  module _ (actions : List OnAction) (k : ℕ) (a : OnAction)
      (at_k : get_elem? actions k ≡ some a) where
    in_time-Within :
        action_type a ≡ ActionType.retry
        → Within actions (flow_of (in_time_execution (execute_context ctx true k) ev a))
    unfolding flow_of in_time_execution retry_decision error_decision retry_limit_exceeded_decision
    in_time-Within is_retry =
        by_budget (ltb (ctx.retry_count ctx.step_idx k) (effective_retry_limit a.retry_limit)) refl
      where
        limit : ℕ
        limit = effective_retry_limit a.retry_limit

        by_delay :
            ctx.retry_count ctx.step_idx k < limit
            → (r : Result ℕ)
            → Within actions (
                flow_of (elim r [
                  | err e ↦ routed (error_decision e)
                  | ok delay ↦ routed (retry_decision (execute_context ctx true k) ev a limit delay)
                ]))
        by_delay lt (err e) h = absurd (cc)
        by_delay lt (ok delay) h = within k a _ _ at_k is_retry lt

        by_budget :
            (b : Bool)
            → ltb (ctx.retry_count ctx.step_idx k) limit ≡ b
            → Within actions (
                flow_of (
                  if b
                  then elim (compute_retry_after_delay ev a ctx.result.headers) [
                    | err e ↦ routed (error_decision e)
                    | ok delay ↦
                        routed (retry_decision (execute_context ctx true k) ev a limit delay)
                  ]
                  else retry_exhausted (exhausted (execute_context ctx true k) ev a limit)))
        by_budget true e =
            by_delay (ltb→lt _ _ e) (compute_retry_after_delay ev a ctx.result.headers)
        by_budget false e = λ h. absurd (cc)

    retry-Within :
        action_type a ≡ ActionType.retry
        → (v : Result (Unit {0}))
        → Within actions (
            flow_of (elim v [
              | err e ↦ routed (error_decision e)
              | ok _ ↦ in_time_execution (execute_context ctx true k) ev a
            ]))
    unfolding flow_of error_decision
    retry-Within is_retry (err e) h = absurd (cc)
    retry-Within is_retry (ok _) h = in_time-Within is_retry h

    by_type-Within :
        (t : ActionType)
        → action_type a ≡ t
        → Within actions (flow_of (execution_by_type (execute_context ctx true k) ev a t))
    unfolding flow_of execution_by_type retry_reference_execution
    by_type-Within ActionType.end e h =
        absurd (ground (arith, end-no_retry (execute_context ctx true k) ev a))
    by_type-Within ActionType.goto e h =
        absurd (ground (arith, goto-no_retry (execute_context ctx true k) ev a))
    by_type-Within ActionType.retry e h =
        retry-Within e (validate_retry_after_value a.retry_after) h

    execution-Within : Within actions (flow_of (execution (execute_context ctx true k) ev a))
    unfolding execution
    execution-Within = by_type-Within (action_type a) refl

  no_action_left-no_retry :
      (left : Option ExhaustedRetry) → is_retry_flow (no_action_left ctx.result left).flow ≡ false
  unfolding no_action_left retry_limit_exceeded_decision error_decision
  no_action_left-no_retry none = refl
  no_action_left-no_retry (some x) = refl

  walk-Within :
      (actions : List OnAction) (i : ℕ) (l : List OnAction) (left : Option ExhaustedRetry)
      → drop i actions ≡ l
      → Within actions (walk ev ctx i l left).flow
  unfolding walk
  walk-Within actions i [] left at_i = λ h. absurd (ground (arith, no_action_left-no_retry left))
  walk-Within actions i (a ∷ l) left at_i =
      by_match (λ y. walk-Within actions (i + 1) l (some y) (drop-suc i actions at_i))
        (walk-Within actions (i + 1) l left (drop-suc i actions at_i)) (all_matched ev a.criteria)
    where
      by_execution :
          ((y : ExhaustedRetry) → Within actions (walk ev ctx (i + 1) l (some y)).flow)
          → (x : ActionExecution) → Within actions (flow_of x)
          → Within actions
              (elim x as (λ _. RoutedDecision) [
                | routed d ↦ d
                | retry_exhausted y ↦ walk ev ctx (i + 1) l (some y)
              ]).flow
      by_execution more (routed d) h = unfold flow_of in h
      by_execution more (retry_exhausted y) _ = more y

      by_match :
          ((y : ExhaustedRetry) → Within actions (walk ev ctx (i + 1) l (some y)).flow)
          → Within actions (walk ev ctx (i + 1) l left).flow
          → (b : Bool)
          → Within actions
              (if b
                then elim (execution (execute_context ctx true i) ev a) as (λ _. RoutedDecision) [
                  | routed d ↦ d
                  | retry_exhausted y ↦ walk ev ctx (i + 1) l (some y)
                ]
                else walk ev ctx (i + 1) l left).flow
      by_match more rest true =
          by_execution more (execution (execute_context ctx true i) ev a)
            (execution-Within actions i a (get_elem?_of_drop i actions at_i))
      by_match more rest false = rest

  decision-Within :
      ctx.result.succeeded ≡ false → Within (failure_actions_of ctx) (decision ev ctx).flow
  unfolding decision
  decision-Within failed = by_result ctx.result.succeeded failed
    where
      by_result :
          (b : Bool)
          → b ≡ false
          → Within
              (failure_actions_of ctx)
              (if b
                then success_decision ev ctx (first_matching ev 0 (success_actions_of ctx))
                else walk ev ctx 0 (failure_actions_of ctx) none).flow
      by_result true e = absurd (cc)
      by_result false e = walk-Within (failure_actions_of ctx) 0 (failure_actions_of ctx) none refl

-- If the routing of a failed attempt decides on a retry, it retries the attempted step itself,
-- at a `retry` action of the list that applies to the step, at that action's own site
-- and with that action's effective limit, which the retries counted at the site have not reached.
pub route_attempt-RetriesWithin :
    (env : Env) (ev : Evaluator) (ctx : StepDecisionContext) (n : ℕ) (d : RoutedDecision)
    → ctx.result.succeeded ≡ false
    → (route_attempt env ev ctx n).0 ≡ some d
    → is_retry_flow d.flow ≡ true
    → RetriesWithin (failure_actions_of ctx) ctx.step_idx (ctx.retry_count ctx.step_idx) d.flow
route_attempt-RetriesWithin env ev ctx n d failed is_d retries =
    let (d', is_d', settles) = route_attempt-Settles env ev ctx n in
    let same : d' ≡ d = ground (arith) in
    subst
      (λ x.
        RetriesWithin (failure_actions_of ctx) ctx.step_idx (ctx.retry_count ctx.step_idx) x.flow)
      same (by_settling d' settles (rw same retries))
  where
    by_settling :
        (x : RoutedDecision)
        → Settles env (decision ev ctx) x
        → is_retry_flow x.flow ≡ true
        → RetriesWithin (failure_actions_of ctx) ctx.step_idx (ctx.retry_count ctx.step_idx) x.flow
    by_settling x (inl e) h = rw e (decision-Within ev ctx failed (rw e at h))
    by_settling x (inr (e, is_error, why)) h = absurd (ground arith)
