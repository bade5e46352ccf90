-- ===== src/Routing/Execute/Agrees.antt =====
-- `execute_action` of engine_actions.rs carries out what its undisturbed description says.
use arazzo_cli.Base.{ℕ, ◌≡◌, refl, Bool, true, false, inl, inr, ◌==◌, if◌then◌else◌, Bool-cases}
use arazzo_cli.Spec.{ActionType, OnAction, action_type}
use arazzo_cli.Errors.{RuntimeErrorKind, Result, ok, err}
use arazzo_cli.Env.{
  Env, Outcome, done, cut_off, out_of_fuel, pure, ActionBranch, retry_delay_checkpoint,
  retry_selected_checkpoint, sleep_with_cancel,
}
use arazzo_cli.Env.Interrupts.{
  Ends, Refines, Refines-then, Refines-pure, Refines-check, Refines-gate, Refines-sleep,
}
use arazzo_cli.Routing.Decision.{
  Evaluator, FlowDecision, ActionExecution, routed, retry_exhausted, error_decision,
  effective_retry_limit,
}
use arazzo_cli.Routing.RetryAfter.{validate_retry_after_value, compute_retry_after_delay}
use arazzo_cli.Routing.Execute.{
  ExecuteActionContext, execute_action, by_type, execute_retry, budgeted_retry, exhausted_retry,
  delayed_retry, wait_and_resume, resume, slept, caught, within_budget, sleep_failed,
  retry_decision, exhausted,
}
use arazzo_cli.Routing.Reference.{
  execution, execution_by_type, retry_reference_execution, in_time_execution, Executes,
}

pub error_decision-flow : (e : RuntimeErrorKind) → (error_decision e).flow ≡ FlowDecision.error e
unfolding error_decision
error_decision-flow e = refl

module _ (env : Env) (branch : ActionBranch) (ctx : ExecuteActionContext) (ev : Evaluator)
    (a : OnAction) where
  resume-Refines :
      (delay : ℕ)
      → Refines env
          (Executes env
            (routed (retry_decision ctx ev a (effective_retry_limit a.retry_limit) delay)))
          (resume env branch ctx ev a delay)
  unfolding resume
  resume-Refines delay = Refines-then (Refines-check env) (Refines-pure _ (inl refl))

  slept-Ends :
      (delay : ℕ) (r : Outcome (Unit {0}) × ℕ)
      → Ends env (λ _. Unit {0}) r.0
      → Ends env
          (Executes env
            (routed (retry_decision ctx ev a (effective_retry_limit a.retry_limit) delay)))
          (slept env branch ctx ev a delay r).0
  unfolding slept sleep_failed
  slept-Ends delay (done u, n) h = (resume-Refines delay).at n
  slept-Ends delay (cut_off e, n) h = inr (sleep_failed ctx ev a e, e, refl, refl, h)
  slept-Ends delay (out_of_fuel, n) h = absurd h

  wait-Refines :
      (delay : ℕ)
      → Refines env
          (Executes env
            (routed (retry_decision ctx ev a (effective_retry_limit a.retry_limit) delay)))
          (wait_and_resume env branch ctx ev a delay)
  unfolding wait_and_resume
  wait-Refines delay = Refines-then (Refines-check env) (
      Refines-then (Refines-gate env (retry_delay_checkpoint branch ctx.retry_site.action_index)) (
        Refines-then (Refines-check env) (record {
          at = λ n.
              slept-Ends delay ((sleep_with_cancel env delay).run n)
                ((Refines-sleep env delay).at n);
        })))

  delayed-Refines :
      (delay : ℕ)
      → Refines env
          (Executes env
            (routed (retry_decision ctx ev a (effective_retry_limit a.retry_limit) delay)))
          (delayed_retry env branch ctx ev a delay)
  unfolding delayed_retry
  delayed-Refines delay =
      Refines-then (Refines-gate env (retry_selected_checkpoint branch ctx.retry_site.action_index))
        (Refines-then (Refines-check env) (elim (Bool-cases (delay == 0)) [
          | inl zero ↦ rw zero (resume-Refines delay)
          | inr more ↦ rw more (wait-Refines delay)
        ]))

  over_budget-Refines :
      Refines env
        (Executes env (retry_exhausted (exhausted ctx ev a (effective_retry_limit a.retry_limit))))
        (exhausted_retry env branch ctx ev a)
  unfolding exhausted_retry
  over_budget-Refines =
      Refines-then (Refines-gate env (retry_selected_checkpoint branch ctx.retry_site.action_index))
        (Refines-then (Refines-check env) (Refines-pure _ (inl refl)))

  in_budget-Refines :
      (r : Result ℕ)
      → Refines env
          (Executes env (elim r [
            | err e ↦ routed (error_decision e)
            | ok delay ↦
                routed (retry_decision ctx ev a (effective_retry_limit a.retry_limit) delay)
          ]))
          (elim r [
            | err e ↦ pure (routed (error_decision e))
            | ok delay ↦ delayed_retry env branch ctx ev a delay
          ])
  in_budget-Refines (err e) = Refines-pure _ (inl refl)
  in_budget-Refines (ok delay) = delayed-Refines delay

  retry-Refines :
      Refines env
        (Executes env (retry_reference_execution ctx ev a))
        (execute_retry env branch ctx ev a)
  unfolding execute_retry retry_reference_execution
  retry-Refines = valid (validate_retry_after_value a.retry_after)
    where
      budget :
          (b : Bool)
          → Refines env
              (Executes env (
                if b
                then elim (compute_retry_after_delay ev a ctx.headers) [
                  | err e ↦ routed (error_decision e)
                  | ok delay ↦
                      routed (retry_decision ctx ev a (effective_retry_limit a.retry_limit) delay)
                ]
                else retry_exhausted (exhausted ctx ev a (effective_retry_limit a.retry_limit))))
              (if b
                then elim (compute_retry_after_delay ev a ctx.headers) [
                  | err e ↦ pure (routed (error_decision e))
                  | ok delay ↦ delayed_retry env branch ctx ev a delay
                ]
                else exhausted_retry env branch ctx ev a)
      budget true = in_budget-Refines (compute_retry_after_delay ev a ctx.headers)
      budget false = over_budget-Refines

      valid :
          (v : Result (Unit {0}))
          → Refines env
              (Executes env
                (elim v [ err e ↦ routed (error_decision e) | ok _ ↦ in_time_execution ctx ev a ]))
              (elim v [
                | err e ↦ pure (routed (error_decision e))
                | ok _ ↦ budgeted_retry env branch ctx ev a
              ])
      valid (err e) = Refines-pure _ (inl refl)
      valid (ok _) = budget (within_budget env branch ctx ev a)

  by_type-Refines :
      (t : ActionType)
      → Refines env (Executes env (execution_by_type ctx ev a t)) (by_type env branch ctx ev a t)
  unfolding by_type execution_by_type
  by_type-Refines ActionType.end = Refines-pure _ (inl refl)
  by_type-Refines ActionType.goto = Refines-pure _ (inl refl)
  by_type-Refines ActionType.retry = retry-Refines

  caught-Ends :
      (expected : ActionExecution) (r : Outcome ActionExecution × ℕ)
      → Ends env (Executes env expected) r.0
      → Ends env (Executes env expected) (caught env branch ctx ev a r).0
  unfolding caught
  caught-Ends expected (done x, n) h = h
  caught-Ends expected (cut_off e, n) h = inr (error_decision e, e, refl, error_decision-flow e, h)
  caught-Ends expected (out_of_fuel, n) h = absurd h

  -- An executed action ends in what its description says, or in an error of an interrupt.
  pub execute-Refines :
      Refines env (Executes env (execution ctx ev a)) (execute_action env branch ctx ev a)
  unfolding execute_action execution
  execute-Refines = record {
    at = λ n.
        caught-Ends (execution ctx ev a) _
          ((Refines-then (Refines-check env) (by_type-Refines (action_type a))).at n);
  }
