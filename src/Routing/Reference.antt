-- ===== src/Routing/Reference.antt =====
-- What routing decides when nothing interrupts it, written as one walk over the actions. The
-- theorems about engine_actions.rs compare its loops with these descriptions.
use arazzo_cli.Base.{
  ℕ, ◌+◌, ◌≤◌, ◌<◌, ◌≡◌, Bool, true, false, ◌&&◌, Option, none, some, List, [], ◌∷◌, get_elem?,
  if◌then◌else◌, ltb, ◌⊎◌,
}
use arazzo_cli.Spec.{ActionType, OnAction, SuccessCriterion, action_type}
use arazzo_cli.Errors.{RuntimeErrorKind, ok, err}
use arazzo_cli.Env.{Env}
use arazzo_cli.Env.Interrupts.{Interrupts}
use arazzo_cli.Routing.Decision.{
  Evaluator, FlowDecision, RoutedDecision, ExhaustedRetry, MatchedAction, ActionExecution, routed,
  retry_exhausted, error_decision, effective_retry_limit,
}
use arazzo_cli.Routing.RetryAfter.{validate_retry_after_value, compute_retry_after_delay}
use arazzo_cli.Routing.Execute.{
  ExecuteActionContext, end_decision, goto_decision, retry_decision, exhausted,
}
use arazzo_cli.Routing.Handle.{
  StepDecisionContext, no_action_left, execute_context, next_step, retry_limit_exceeded_decision,
  success_actions_of, failure_actions_of,
}

-- Every criterion matches.
abbrev pub all_matched : Evaluator → List SuccessCriterion → Bool
all_matched ev [] = true
all_matched ev (c ∷ cs) = ev.matched c && all_matched ev cs

-- `r` is the first action of `actions`, from the index `start` on, all of whose criteria match,
-- or none if no such action is there.
abbrev pub IsFirstMatch : Evaluator → List OnAction → ℕ → Option MatchedAction → Type 0
IsFirstMatch ev actions start none =
    (j : ℕ) (a : OnAction)
    → start ≤ j
    → get_elem? actions j ≡ some a
    → all_matched ev a.criteria ≡ false
IsFirstMatch ev actions start (some m) =
    (start ≤ m.index)
    × (get_elem? actions m.index ≡ some m.action)
    × (all_matched ev m.action.criteria ≡ true)
    × ((j : ℕ) (a : OnAction)
        → start ≤ j
        → j < m.index
        → get_elem? actions j ≡ some a
        → all_matched ev a.criteria ≡ false)

unfoldable pub first_matching : Evaluator → ℕ → List OnAction → Option MatchedAction
first_matching ev i [] = none
first_matching ev i (a ∷ rest) =
    if all_matched ev a.criteria
    then some (record { index = i; action = a })
    else first_matching ev (i + 1) rest

-- A retry whose configured delay is valid: the budget decides, then the delay counts.
unfoldable pub in_time_execution : ExecuteActionContext → Evaluator → OnAction → ActionExecution
in_time_execution ctx ev a =
    let limit = effective_retry_limit a.retry_limit in
    if ltb (ctx.retry_count ctx.retry_site.step_index ctx.retry_site.action_index) limit
    then elim (compute_retry_after_delay ev a ctx.headers) [
      | err e ↦ routed (error_decision e)
      | ok delay ↦ routed (retry_decision ctx ev a limit delay)
    ]
    else retry_exhausted (exhausted ctx ev a limit)

unfoldable pub retry_reference_execution :
    ExecuteActionContext → Evaluator → OnAction → ActionExecution
unfolding in_time_execution
retry_reference_execution ctx ev a = elim (validate_retry_after_value a.retry_after) [
  | err e ↦ routed (error_decision e)
  | ok _ ↦ in_time_execution ctx ev a
]

unfoldable pub execution_by_type :
    ExecuteActionContext → Evaluator → OnAction → ActionType → ActionExecution
unfolding retry_reference_execution
execution_by_type ctx ev a ActionType.end = routed (end_decision ctx ev a)
execution_by_type ctx ev a ActionType.goto = routed (goto_decision ctx ev a)
execution_by_type ctx ev a ActionType.retry = retry_reference_execution ctx ev a

unfoldable pub execution : ExecuteActionContext → Evaluator → OnAction → ActionExecution
unfolding execution_by_type
execution ctx ev a = execution_by_type ctx ev a (action_type a)

-- The failure routing: the first matching action that is no exhausted retry decides; if only
-- exhausted retries match, the last of them is reported; if nothing matches, the step's error.
unfoldable pub walk :
    Evaluator → StepDecisionContext → ℕ → List OnAction → Option ExhaustedRetry → RoutedDecision
walk ev ctx i [] left = no_action_left ctx.result left
walk ev ctx i (a ∷ rest) left =
    let on_exhausted = λ (x : ExhaustedRetry). walk ev ctx (i + 1) rest (some x) in
    let on_mismatch = walk ev ctx (i + 1) rest left in
    if all_matched ev a.criteria
    then elim (execution (execute_context ctx true i) ev a) [
      | routed d ↦ d
      | retry_exhausted x ↦ on_exhausted x
    ]
    else on_mismatch

-- The success routing: the first matching action decides, and without one the next step runs.
unfoldable pub success_decision :
    Evaluator → StepDecisionContext → Option MatchedAction → RoutedDecision
success_decision ev ctx none = next_step ctx.step_idx
success_decision ev ctx (some m) =
    elim (execution (execute_context ctx false m.index) ev m.action) [
      | routed d ↦ d
      | retry_exhausted x ↦ retry_limit_exceeded_decision x
    ]

-- What the routing of an attempt decides undisturbed.
unfoldable pub decision : Evaluator → StepDecisionContext → RoutedDecision
decision ev ctx =
    if ctx.result.succeeded
    then success_decision ev ctx (first_matching ev 0 (success_actions_of ctx))
    else walk ev ctx 0 (failure_actions_of ctx) none

-- The decision is `expected`, or the error of an interrupt.
abbrev pub Settles : Env → RoutedDecision → RoutedDecision → Type 0
Settles env expected d =
    (d ≡ expected) ⊎ ((e : RuntimeErrorKind) × (d.flow ≡ FlowDecision.error e) × Interrupts env e)

abbrev pub Executes : Env → ActionExecution → ActionExecution → Type 0
Executes env expected x =
    (x ≡ expected)
    ⊎ ((d : RoutedDecision) × (e : RuntimeErrorKind) × (x ≡ routed d)
        × (d.flow ≡ FlowDecision.error e)
        × Interrupts env e)
