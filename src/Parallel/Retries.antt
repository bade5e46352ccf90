-- ===== src/Parallel/Retries.antt =====
-- The retries of a parallel step (`execute_parallel_step` of engine_parallel.rs).
use arazzo_cli.Base.{
  ℕ, zero, suc, ◌+◌, ◌≤◌, ◌<◌, ◌≡◌, refl, subst, true, Option, none, some, List, [], ◌∷◌, length,
  arith,
}
use arazzo_cli.Spec.{OnAction, Step}
use arazzo_cli.Routing.Decision.{RetryCounts, FlowDecision}
use arazzo_cli.Routing.Within.{RetriesWithin, within, is_retry_flow}
use arazzo_cli.Budget.{failure_list, count_retry}
use arazzo_cli.Budget.Sums.{budget_sum}
use arazzo_cli.Budget.Left.{left_at, left_in, left_in-used}
use arazzo_cli.Parallel.{
  ParallelAttempt, ParallelStepRun, ScheduledRetry, Task, guarded, attempts_from,
  execute_parallel_step, by_routing, prepended,
}

-- A decision that a task may end with: neither a retry nor another workflow.
abbrev pub IsFinal : FlowDecision → Type 0
IsFinal (FlowDecision.retry i site limit delay reference) = ⊥
IsFinal (FlowDecision.goto_workflow id inputs) = ⊥
IsFinal flow = Unit

-- Whatever has been counted, a retry of any attempt re-runs the step within the budgets of these actions.
abbrev pub RoutesWithin : {E : Type 0} → List OnAction → ℕ → Task E → Type 0
RoutesWithin actions idx task =
    (n : ℕ) (counts : RetryCounts)
    → is_retry_flow (task.routed n counts) ≡ true
    → RetriesWithin actions idx (counts idx) (task.routed n counts)

abbrev pub EndsWithin : {E : Type 0} → ℕ → Option (ParallelStepRun E) → Type 0
EndsWithin most none = ⊥
EndsWithin most (some run) = IsFinal run.flow × (length run.retried ≤ most)

module _ {E : Type 0} (task : Task E) (workflow_actions : List OnAction) (s : Step) (idx : ℕ)
    (within_budget : RoutesWithin (failure_list workflow_actions s) idx task) where
  abbrev left : RetryCounts → ℕ
  left counts = left_in workflow_actions counts idx (s ∷ [])

  abbrev Uses : RetryCounts → FlowDecision → Type 0
  Uses counts (FlowDecision.retry i site limit delay reference) =
      suc (left (count_retry counts site)) ≡ left counts
  Uses counts _ = Unit

  counted-Uses :
      (counts : RetryCounts) (flow : FlowDecision)
      → RetriesWithin (failure_list workflow_actions s) idx (counts idx) flow
      → Uses counts flow
  counted-Uses counts flow (within k a delay reference at_k retries lt) =
      left_in-used workflow_actions counts idx k idx 0 (s ∷ []) s a (omega arith) refl at_k retries
        lt

  prepended-EndsWithin :
      (entry : ParallelAttempt E × ScheduledRetry) (most most' : ℕ) (r : Option (ParallelStepRun E))
      → suc most ≡ most'
      → EndsWithin most r
      → EndsWithin most' (prepended entry r)
  prepended-EndsWithin entry most most' none e h = h
  prepended-EndsWithin entry most most' (some run) e h = (h.0, omega (arith, h.1))

  by_routing-EndsWithin :
      (fuel n : ℕ) (counts : RetryCounts) (again : RetryCounts → Option (ParallelStepRun E))
      → left counts < suc fuel
      → ((c : RetryCounts) → left c < fuel → EndsWithin (left c) (again c))
      → (flow : FlowDecision)
      → (is_retry_flow flow ≡ true
          → RetriesWithin (failure_list workflow_actions s) idx (counts idx) flow)
      → EndsWithin (left counts) (by_routing task again n counts (guarded flow))
  by_routing-EndsWithin fuel n counts again enough rest (FlowDecision.retry i site limit delay none)
        h =
      let e = counted-Uses counts (FlowDecision.retry i site limit delay none) (h refl) in
      prepended-EndsWithin _ (left (count_retry counts site)) (left counts)
        (again (count_retry counts site)) e (rest (count_retry counts site) (omega (arith, e)))
  by_routing-EndsWithin fuel n counts again enough rest
        (FlowDecision.retry i site limit delay (some reference)) h =
      (tt, omega arith)
  by_routing-EndsWithin fuel n counts again enough rest (FlowDecision.goto_workflow id inputs) h =
      (tt, omega arith)
  by_routing-EndsWithin fuel n counts again enough rest (FlowDecision.next i) h = (tt, omega arith)
  by_routing-EndsWithin fuel n counts again enough rest FlowDecision.done_flow h = (tt, omega arith)
  by_routing-EndsWithin fuel n counts again enough rest (FlowDecision.error e) h = (tt, omega arith)

  attempts_from-EndsWithin :
      (fuel n : ℕ) (counts : RetryCounts)
      → left counts < fuel
      → EndsWithin (left counts) (attempts_from task fuel n counts)
  unfolding attempts_from
  attempts_from-EndsWithin zero n counts enough = absurd (omega arith)
  attempts_from-EndsWithin (suc fuel) n counts enough =
      by_routing-EndsWithin fuel n counts (attempts_from task fuel (suc n)) enough
        (attempts_from-EndsWithin fuel (suc n)) (task.routed n counts) (within_budget n counts)

  left_at-new : (b : ℕ) (l : List OnAction) → left_at (λ k. 0) b l ≡ budget_sum l
  left_at-new b [] = refl
  left_at-new b (a ∷ l) = ground (arith, left_at-new (b + 1) l)

  -- If every retry of the step is within the budgets of the failure actions that apply to it, the loop of its
  -- task ends, with fuel for one attempt more than these budgets add up to: with a decision that is neither
  -- a retry nor a transfer, after no more retries than the budgets add up to.
  pub execute_parallel_step-EndsWithin :
      EndsWithin
        (budget_sum (failure_list workflow_actions s))
        (execute_parallel_step task (suc (budget_sum (failure_list workflow_actions s))))
  unfolding execute_parallel_step
  execute_parallel_step-EndsWithin =
      let e : left (λ i k. 0) ≡ budget_sum (failure_list workflow_actions s) =
        omega (arith, left_at-new 0 (failure_list workflow_actions s)) in
      subst
        (λ m.
          EndsWithin m
            (attempts_from task (suc (budget_sum (failure_list workflow_actions s))) 0 (λ i k. 0)))
        e
        (attempts_from-EndsWithin (suc (budget_sum (failure_list workflow_actions s))) 0 (λ i k. 0)
          (omega (arith, e)))
