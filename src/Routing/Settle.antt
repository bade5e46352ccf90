-- ===== src/Routing/Settle.antt =====
-- The routing of an attempt as a whole: `handle_step_result` (engine_actions.rs) and
-- `route_attempt` (step_attempt.rs).
use arazzo_cli.Base.{
  ℕ, suc, ◌≡◌, refl, Bool, true, false, inl, inr, Option, none, some, length, arith, if◌then◌else◌,
  Bool-cases,
}
use arazzo_cli.Env.{Env, Outcome, done, cut_off, out_of_fuel, cancellation_error, success}
use arazzo_cli.Env.Interrupts.{
  by_token, Ends, Refines, Refines-bind, Refines-then, Refines-pure, Refines-check,
}
use arazzo_cli.Routing.Decision.{
  Evaluator, RoutedDecision, MatchedAction, ActionExecution, routed, retry_exhausted,
  error_decision,
}
use arazzo_cli.Routing.Reference.{
  first_matching, execution, Settles, Executes, success_decision, decision, walk,
}
use arazzo_cli.Routing.Selects.{find-Refines}
use arazzo_cli.Routing.Execute.Agrees.{execute-Refines, error_decision-flow}
use arazzo_cli.Routing.Walk.{route_failure-Refines}
use arazzo_cli.Routing.Handle.{
  StepDecisionContext, execute_context, retry_limit_exceeded_decision, success_actions_of,
  failure_actions_of, settle_success, success_selected, route_success, route_failure, route_result,
  decision_of, handle_step_result, route_attempt,
}

module _ (env : Env) (ev : Evaluator) (ctx : StepDecisionContext) where
  settle-Settles :
      (x y : ActionExecution)
      → Executes env y x
      → Settles env
          (elim y [ routed d ↦ d | retry_exhausted l ↦ retry_limit_exceeded_decision l ])
          (settle_success env ev ctx x)
  unfolding settle_success
  settle-Settles x y (inl e) = inl (rw e (same y))
    where
      same :
          (z : ActionExecution)
          → settle_success env ev ctx z
            ≡ (elim z [ routed d ↦ d | retry_exhausted l ↦ retry_limit_exceeded_decision l ])
      same (routed d) = refl
      same (retry_exhausted l) = refl
  settle-Settles x y (inr (d, e, is_d, flow, why)) = inr (e, rw is_d flow, why)

  success-Refines :
      (r : Option MatchedAction)
      → Refines env (Settles env (success_decision ev ctx r)) (success_selected env ev ctx r)
  unfolding success_selected success_decision
  success-Refines none = Refines-pure _ (inl refl)
  success-Refines (some m) =
      Refines-bind (Executes env (execution (execute_context ctx false m.index) ev m.action))
        (execute-Refines env success (execute_context ctx false m.index) ev m.action)
        λ x h. Refines-then (Refines-check env) (Refines-pure _ (settle-Settles x _ h))

  route_success-Refines :
      Refines env
        (Settles env (success_decision ev ctx (first_matching ev 0 (success_actions_of ctx))))
        (route_success env ev ctx)
  unfolding route_success
  route_success-Refines =
      Refines-bind (λ r. r ≡ first_matching ev 0 (success_actions_of ctx))
        (find-Refines env ev success (success_actions_of ctx) 0)
        λ r e. Refines-then (Refines-check env) (rw (← e) (success-Refines r))

  route_result-Refines : Refines env (Settles env (decision ev ctx)) (route_result env ev ctx)
  unfolding route_result decision
  route_result-Refines = Refines-then (Refines-check env) (by_success ctx.result.succeeded)
    where
      by_success :
          (b : Bool)
          → Refines env
              (Settles env (
                if b
                then success_decision ev ctx (first_matching ev 0 (success_actions_of ctx))
                else walk ev ctx 0 (failure_actions_of ctx) none))
              (if b
                then route_success env ev ctx
                else route_failure env ev ctx (suc (length (failure_actions_of ctx))) 0 none)
      by_success true = route_success-Refines
      by_success false =
          route_failure-Refines env ev ctx (suc (length (failure_actions_of ctx))) 0 none
            (omega arith)

  decision_of-Settles :
      (r : Outcome RoutedDecision)
      → Ends env (Settles env (decision ev ctx)) r
      → (d : RoutedDecision) × (decision_of env ev ctx r ≡ some d) × Settles env (decision ev ctx) d
  unfolding decision_of
  decision_of-Settles (done d) h = (d, refl, h)
  decision_of-Settles (cut_off e) h = (error_decision e, refl, inr (e, error_decision-flow e, h))
  decision_of-Settles out_of_fuel h = absurd h

  -- `handle_step_result` returns: it ends in the decision of one walk over the step's actions, or
  -- in the error of a cancellation that was observed or of the debugger.
  pub handle_step_result-Settles :
      (n : ℕ)
      → (d : RoutedDecision) × ((handle_step_result env ev ctx n).0 ≡ some d)
        × Settles env (decision ev ctx) d
  unfolding handle_step_result
  handle_step_result-Settles n =
      decision_of-Settles ((route_result env ev ctx).run n).0 (route_result-Refines.at n)

  -- `route_attempt` returns for the attempt of every step, whenever the invocation is cancelled
  -- and whatever the debugger answers: either the decision of one walk over the step's actions,
  -- or an error decision whose error is a cancellation that was observed or the debugger's.
  pub route_attempt-Settles :
      (n : ℕ)
      → (d : RoutedDecision) × ((route_attempt env ev ctx n).0 ≡ some d)
        × Settles env (decision ev ctx) d
  unfolding route_attempt
  route_attempt-Settles n =
      let (d, is_d, settles) = handle_step_result-Settles n in
      let end : ℕ = (handle_step_result env ev ctx n).1 in
      elim (Bool-cases (env.cancelled end)) [
        | inl cancelled ↦ (
          error_decision (cancellation_error env end),
          rw cancelled,
          inr (cancellation_error env end, error_decision-flow _, by_token end cancelled refl),
        )
        | inr running ↦ (d, rw running is_d, settles)
      ]
