-- ===== src/Budget/Sums.antt =====
-- What the saturating sums of engine_impl.rs come to.
use arazzo_cli.Base.{
  ℕ, suc, ◌+◌, ◌*◌, ◌≤◌, ◌≡◌, min, max, List, [], ◌∷◌, if◌then◌else◌, length, arith, Bool-cases,
  inl, inr,
}
use arazzo_cli.Spec.{OnAction, Step, action_type, is_retry}
use arazzo_cli.Routing.Decision.{effective_retry_limit}
use arazzo_cli.Budget.{
  u128_max, budget_from, retry_budget_from_actions, failure_list, iterations_from,
  compute_max_iterations,
}

-- The budget of a list without saturation: the sum of its retry actions' effective limits.
abbrev pub budget_sum : List OnAction → ℕ
budget_sum [] = 0
budget_sum (a ∷ rest) =
    (if is_retry (action_type a) then effective_retry_limit a.retry_limit else 0) + budget_sum rest

-- One attempt for each step, and one for each retry that its actions grant.
abbrev pub attempts_sum : List OnAction → List Step → ℕ
attempts_sum w [] = 0
attempts_sum w (s ∷ steps) = suc (budget_sum (failure_list w s)) + attempts_sum w steps

budget_from-min :
    (b : ℕ) (l : List OnAction) → b ≤ u128_max → budget_from b l ≡ min (b + budget_sum l) u128_max
unfolding budget_from
budget_from-min b [] h = omega arith
budget_from-min b (a ∷ l) h = elim (Bool-cases (is_retry (action_type a))) [
  | inl e ↦
      rw e
        (omega (arith, budget_from-min (min (b + effective_retry_limit a.retry_limit) u128_max) l))
  | inr e ↦ rw e (omega (arith, budget_from-min b l))
]

pub retry_budget-min :
    (l : List OnAction) → retry_budget_from_actions l ≡ min (budget_sum l) u128_max
unfolding retry_budget_from_actions
retry_budget-min l = omega (arith, budget_from-min 0 l)

iterations_from-eq :
    (w : List OnAction) (n t : ℕ) (steps : List Step)
    → n ≤ u128_max
    → t ≤ u128_max
    → iterations_from w n t steps
      ≡ max (min (2 * (t + attempts_sum w steps)) u128_max) (min (10 * (n + length steps)) u128_max)
unfolding iterations_from
iterations_from-eq w n t [] hn ht = omega arith
iterations_from-eq w n t (s ∷ steps) hn ht = omega (
  arith,
  retry_budget-min (failure_list w s),
  iterations_from-eq w (min (n + 1) u128_max)
      (min (t + min (1 + retry_budget_from_actions (failure_list w s)) u128_max) u128_max) steps,
)

-- The limit is twice the number of attempts that steps and retry budgets add up to, and at least
-- ten for each step, both capped at `u128::MAX`.
pub compute_max_iterations_lem :
    (steps : List Step) (w : List OnAction)
    → compute_max_iterations steps w
      ≡ max (min (2 * attempts_sum w steps) u128_max) (min (10 * length steps) u128_max)
unfolding compute_max_iterations
compute_max_iterations_lem steps w = omega (arith, iterations_from-eq w 0 0 steps)
