-- ===== src/Budget.antt =====
-- The retry budgets of an invocation: `compute_max_iterations` and `retry_budget_from_actions`
-- (crates/arazzo-runtime/src/runtime_core/engine_impl.rs), and `count_retry` (step_attempt.rs).
pub mod Sums
pub mod Left
use arazzo_cli.Base.{ℕ, suc, ◌+◌, ◌*◌, min, max, List, [], ◌∷◌, ◌==◌, ◌&&◌, if◌then◌else◌, length}
use arazzo_cli.Spec.{OnAction, Step, action_type, is_retry, applicable_actions}
use arazzo_cli.Routing.Decision.{RetrySite, RetryCounts, effective_retry_limit}

abbrev pub u128_max : ℕ
u128_max = 340282366920938463463374607431768211455

abbrev pub saturating_add : ℕ → ℕ → ℕ
saturating_add a b = min (a + b) u128_max

abbrev pub saturating_mul : ℕ → ℕ → ℕ
saturating_mul a b = min (a * b) u128_max

-- The fold over the retry actions.
unfoldable pub budget_from : ℕ → List OnAction → ℕ
budget_from budget [] = budget
budget_from budget (a ∷ rest) =
    budget_from
      (if is_retry (action_type a)
        then saturating_add budget (effective_retry_limit a.retry_limit)
        else budget)
      rest

unfoldable pub retry_budget_from_actions : List OnAction → ℕ
unfolding budget_from
retry_budget_from_actions actions = budget_from 0 actions

-- The failure list of a step, or the workflow's where the step has none.
abbrev pub failure_list : List OnAction → Step → List OnAction
failure_list workflow_actions s = applicable_actions s.on_failure workflow_actions

-- The loop over the steps, and what it computes at the end.
unfoldable pub iterations_from : List OnAction → (step_count total_budget : ℕ) → List Step → ℕ
iterations_from workflow_actions step_count total_budget [] =
    max (saturating_mul total_budget 2) (saturating_mul step_count 10)
iterations_from workflow_actions step_count total_budget (s ∷ steps) =
    iterations_from workflow_actions (saturating_add step_count 1)
      (saturating_add total_budget
        (saturating_add 1 (retry_budget_from_actions (failure_list workflow_actions s))))
      steps

unfoldable pub compute_max_iterations : List Step → List OnAction → ℕ
unfolding iterations_from
compute_max_iterations steps workflow_actions = iterations_from workflow_actions 0 0 steps

-- `count_retry`: one more retry at a site.
unfoldable pub count_retry : RetryCounts → RetrySite → RetryCounts
count_retry counts site i k =
    if i == site.step_index && k == site.action_index then suc (counts i k) else counts i k
