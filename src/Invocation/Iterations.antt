-- ===== src/Invocation/Iterations.antt =====
-- The iteration limit of `execute_inner` (engine_impl.rs) is no limit for a workflow whose routing
-- goes forward: retries alone never reach it.
use arazzo_cli.Base.{
  ℕ, zero, suc, ◌+◌, ◌-◌, ◌<◌, ◌≡◌, refl, false, Option, some, List, [], ◌∷◌, length, get_elem?,
  leb, if◌then◌else◌, arith, String, unwrap_or,
}
use arazzo_cli.Spec.{OnAction, Step, Workflow}
use arazzo_cli.Errors.{Result, ok, err, is_cancellation}
use arazzo_cli.Routing.Decision.{Inputs, RetryCounts, FlowDecision}
use arazzo_cli.Routing.Within.{RetriesWithin, within}
use arazzo_cli.Budget.{compute_max_iterations, count_retry, failure_list, u128_max}
use arazzo_cli.Budget.Sums.{attempts_sum, budget_sum, compute_max_iterations_lem}
use arazzo_cli.Budget.Left.{left_at, left_in, left_in-used}
use arazzo_cli.Invocation.Monad.{
  Exec, Ensures, Ensures-bind, Ensures-then, Ensures-pure, Ensures-raise, Ensures-seq, Ensures-if,
  tried, ◌>>◌, pure,
}
use arazzo_cli.Invocation.Calls.{Runner}
use arazzo_cli.Invocation.{
  LoopEnd, completed, transferred, not_completed, failed, recover, transfer, by_flow, attempt,
  run_steps, no_counts,
}

abbrev pub Settled : LoopEnd → Type 0
Settled completed = Unit
Settled (transferred result) = Unit
Settled not_completed = ⊥

-- The decision at a step goes on with the next step, or retries the step within the budget of
-- its failure actions, or ends the workflow.
abbrev pub GoesForward : Workflow → ℕ → RetryCounts → FlowDecision → Type 0
GoesForward w i counts (FlowDecision.next j) = j ≡ i + 1
GoesForward w i counts (FlowDecision.retry j site limit delay reference) =
    (s : Step) × (get_elem? w.steps i ≡ some s)
    × RetriesWithin (failure_list w.failure_actions s) i (counts i)
        (FlowDecision.retry j site limit delay reference)
GoesForward w i counts FlowDecision.done_flow = Unit
GoesForward w i counts (FlowDecision.goto_workflow id inputs) = Unit
GoesForward w i counts (FlowDecision.error e) = Unit

-- Every attempt of the workflow is routed so.
abbrev pub RoutesForward :
    {W : Type 0} → Runner W → Workflow → (String → Inputs → Exec W Inputs) → Type 0
RoutesForward r w call =
    (i : ℕ) (counts : RetryCounts)
    → i < length w.steps
    → Ensures (GoesForward w i counts) (r.run_and_route call w i counts)

module _ {W : Type 0} (r : Runner W) (w : Workflow) (call : String → Inputs → Exec W Inputs) where
  -- The iterations that are needed from a step and with the retries counted so far.
  abbrev needed : ℕ → RetryCounts → ℕ
  needed i counts = (length w.steps - i) + left_in w.failure_actions counts 0 w.steps

  failed-Settled : (e : _) → Ensures Settled (failed r w e)
  unfolding failed
  failed-Settled e =
      Ensures-then (r.mark_workflow_completed w.workflow_id)
        (Ensures-then (r.emit_workflow_completed w.workflow_id) (Ensures-raise e))

  transfer-Settled :
      (id : String) (inputs : Option Inputs) → Ensures Settled (transfer r w id inputs call)
  unfolding transfer
  transfer-Settled id inputs = Ensures-then r.check_cancelled (
      Ensures-seq r.own_inputs λ own. Ensures-seq (tried (call id (unwrap_or own inputs))) λ result.
        elim result as (λ x. Ensures Settled (transferring x)) [
          | ok outputs ↦
              Ensures-then (r.mark_workflow_completed w.workflow_id)
                (Ensures-pure (transferred (ok outputs)) tt)
          | err e ↦
              Ensures-if (is_cancellation e) (λ _. Ensures-pure (transferred (err e)) tt)
                (λ _.
                  Ensures-then (r.mark_workflow_completed w.workflow_id)
                    (Ensures-pure (transferred (err e)) tt))
        ])
    where
      transferring : Result Inputs → Exec W LoopEnd
      transferring x = elim x [
        | ok outputs ↦ r.mark_workflow_completed w.workflow_id >> pure (transferred (ok outputs))
        | err e ↦
            if is_cancellation e
            then pure (transferred (err e))
            else r.mark_workflow_completed w.workflow_id >> pure (transferred (err e))
      ]

  abbrev Uses : ℕ → FlowDecision → RetryCounts → Type 0
  Uses m (FlowDecision.retry j site limit delay reference) counts =
      suc (needed j (count_retry counts site)) ≡ m
  Uses m _ counts = Unit

  retry-Uses :
      (i : ℕ) (counts : RetryCounts) (s : Step) (flow : FlowDecision)
      → get_elem? w.steps i ≡ some s
      → RetriesWithin (failure_list w.failure_actions s) i (counts i) flow
      → Uses (needed i counts) flow counts
  retry-Uses i counts s flow elem (within k a delay reference at_k retries lt) = omega (
    arith,
    left_in-used w.failure_actions counts i k 0 i w.steps s a (omega arith) elem at_k retries lt,
  )

  -- The next step is one further, and a retry has used up one of the retries left.
  by_flow-Settled :
      (n i : ℕ) (counts : RetryCounts) (again : ℕ → RetryCounts → Exec W LoopEnd)
      → i < length w.steps
      → needed i counts < suc n
      → ((j : ℕ) (c : RetryCounts) → needed j c < n → Ensures Settled (again j c))
      → (flow : FlowDecision) → GoesForward w i counts flow
      → Ensures Settled (by_flow r w call again counts flow)
  unfolding by_flow
  by_flow-Settled n i counts again inside enough IH (FlowDecision.next j) h =
      IH j counts (rw h (omega arith))
  by_flow-Settled n i counts again inside enough IH
        (FlowDecision.retry j site limit delay reference) (s, elem, h) =
      Ensures-then r.check_cancelled (
        Ensures-then (recover r w call j reference) (
          Ensures-then
            (r.emit_retry_scheduled j (count_retry counts site site.step_index site.action_index)
              limit delay)
            (Ensures-then r.check_cancelled (
              IH j (count_retry counts site) (
                omega (
                  arith,
                  retry-Uses i counts s (FlowDecision.retry j site limit delay reference) elem h,
                ))))))
  by_flow-Settled n i counts again inside enough IH FlowDecision.done_flow h =
      Ensures-pure completed tt
  by_flow-Settled n i counts again inside enough IH (FlowDecision.goto_workflow id inputs) h =
      transfer-Settled id inputs
  by_flow-Settled n i counts again inside enough IH (FlowDecision.error e) h = failed-Settled e

  run_steps-Settled :
      RoutesForward r w call
      → (n i : ℕ) (counts : RetryCounts) → needed i counts < n
      → Ensures Settled (run_steps r w call n i counts)
  unfolding run_steps attempt
  run_steps-Settled forward zero i counts enough = absurd (omega arith)
  run_steps-Settled forward (suc n) i counts enough = Ensures-then r.check_cancelled (
      Ensures-if (leb (length w.steps) i) (λ _. Ensures-pure completed tt)
        (λ e. Ensures-bind (GoesForward w i counts) (attempted e) (
          by_flow-Settled n i counts (λ j c. run_steps r w call n j c) (leb→gt e) enough
            (run_steps-Settled forward n))))
    where
      leb→gt : leb (length w.steps) i ≡ false → i < length w.steps
      leb→gt e = ground arith

      attempted :
          leb (length w.steps) i ≡ false
          → Ensures (GoesForward w i counts) (attempt r w call i counts)
      attempted e = Ensures-then (r.debug_gate_step w i) (
          Ensures-then r.check_cancelled (
            Ensures-then (r.begin_attempt w i) (
              Ensures-then r.check_cancelled (
                Ensures-bind (GoesForward w i counts) (forward i counts (leb→gt e))
                  λ flow h. Ensures-then r.check_cancelled (Ensures-pure flow h)))))

  left_at-none : (b : ℕ) (l : List OnAction) → left_at (no_counts r w call b) 0 l ≡ budget_sum l
  unfolding no_counts
  left_at-none b l = go 0 l
    where
      go : (n : ℕ) (l : List OnAction) → left_at (λ _. 0) n l ≡ budget_sum l
      go n [] = refl
      go n (a ∷ l) = ground (arith, go (n + 1) l)

  left_in-none :
      (b : ℕ) (steps : List Step)
      → length steps + left_in w.failure_actions (no_counts r w call) b steps
        ≡ attempts_sum w.failure_actions steps
  left_in-none b [] = refl
  left_in-none b (s ∷ steps) =
      omega (arith, left_at-none b (failure_list w.failure_actions s), left_in-none (b + 1) steps)

  -- If a workflow has a step, its attempts with all retries add up to less than `u128::MAX`, and
  -- every attempt is routed to the next step, to a retry of the step within the budget of its
  -- failure actions, or out of the loop, then the loop under the limit of `compute_max_iterations`
  -- never ends for want of iterations.
  pub run_steps-Settled_in_limit :
      RoutesForward r w call
      → 0 < length w.steps
      → attempts_sum w.failure_actions w.steps < u128_max
      → Ensures Settled (
          run_steps r w call
            (compute_max_iterations w.steps w.failure_actions)
            0
            (no_counts r w call))
  run_steps-Settled_in_limit forward some_step fits =
      run_steps-Settled forward (compute_max_iterations w.steps w.failure_actions) 0
        (no_counts r w call)
        (omega (
          arith,
          compute_max_iterations_lem w.steps w.failure_actions,
          left_in-none 0 w.steps,
          at_least w.steps some_step,
        ))
    where
      at_least : (steps : List Step) → 0 < length steps → 0 < attempts_sum w.failure_actions steps
      at_least [] h = absurd (omega arith)
      at_least (s ∷ steps) h = omega arith
