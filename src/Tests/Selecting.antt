-- ===== src/Tests/Selecting.antt =====
-- The theorems about single-step execution at a scope of one step.
use arazzo_cli.Base.{
  ℕ, zero, suc, ◌<◌, ◌≡◌, refl, String, true, none, some, [], ◌∷◌, get_elem?, arith,
}
use arazzo_cli.Spec.{ActionType}
use arazzo_cli.Errors.{ok}
use arazzo_cli.Routing.Decision.{Inputs, RetryCounts, effective_retry_limit}
use arazzo_cli.Routing.Within.{within}
use arazzo_cli.Budget.{u128_max, compute_max_iterations}
use arazzo_cli.Budget.Sums.{attempts_sum}
use arazzo_cli.Deps.Edges.{extract_step_refs, without, criteria_refs, actions_refs}
use arazzo_cli.Deps.Refs.{scan_step_refs}
use arazzo_cli.Invocation.Monad.{Exec, pure, Ensures, Ensures-pure}
use arazzo_cli.Selected.{ascending, resume, steps_at, selection, run_scope, call_at_1, attempted}
use arazzo_cli.Selected.Scope.{Resumes, resume-Resumes}
use arazzo_cli.Selected.Iterations.{GoesAhead, Settled, RoutesAhead, run_scope-Settled_in_limit}
use arazzo_cli.Tests.{action, login, single}
use arazzo_cli.Tests.Limits.{attempts_only, route_login}

resume_run : resume (ascending (5 ∷ 2 ∷ []) 0 6) 3 ≡ some 1
unfolding resume
resume_run = refl

resume-Resumes_example :
    Resumes (ascending (5 ∷ 2 ∷ []) 0 6) 3 (resume (ascending (5 ∷ 2 ∷ []) 0 6) 3)
resume-Resumes_example = resume-Resumes (5 ∷ 2 ∷ []) 6 3

abbrev no_outputs : String → Exec (Unit {0}) Inputs
no_outputs id = pure []

selected_alone : selection single "login" true 0 ≡ ok (0 ∷ [])
unfolding selection extract_step_refs without criteria_refs actions_refs scan_step_refs
selected_alone = refl

routed-GoesAhead :
    (i count : ℕ) (counts : RetryCounts)
    → counts i 1 ≡ count
    → i ≡ 0
    → GoesAhead single i counts (route_login i count)
unfolding effective_retry_limit
routed-GoesAhead zero zero counts e h = (
  login,
  refl,
  within 1 (action (some ActionType.retry) (some 2) []) 0 none refl refl (omega (arith, e)),
)
routed-GoesAhead zero (suc count) counts e h = tt
routed-GoesAhead (suc i) count counts e h = absurd (omega arith)

only_first : (c i : ℕ) → get_elem? (0 ∷ []) c ≡ some i → i ≡ 0
only_first zero i e = ground arith
only_first (suc c) i e = absurd (cc)

attempts_only-RoutesAhead :
    RoutesAhead attempts_only single (0 ∷ []) (call_at_1 attempts_only no_outputs)
attempts_only-RoutesAhead c i counts e =
    Ensures-pure (route_login i (counts i 1))
      (routed-GoesAhead i (counts i 1) counts refl (only_first c i e))

scope-fits : attempts_sum [] (steps_at single.steps (0 ∷ [])) < u128_max
unfolding effective_retry_limit
scope-fits = omega arith

run_scope-Settled_in_limit_example : Ensures Settled (
    run_scope attempts_only single
      (0 ∷ [])
      (attempts_only.execute_retry_reference (call_at_1 attempts_only no_outputs) single)
      (call_at_1 attempts_only no_outputs)
      (attempted attempts_only no_outputs single)
      (compute_max_iterations (steps_at single.steps (0 ∷ [])) [])
      0
      (λ i k. 0))
run_scope-Settled_in_limit_example =
    run_scope-Settled_in_limit attempts_only no_outputs single "login" true 0 (0 ∷ []) (omega arith)
      selected_alone attempts_only-RoutesAhead scope-fits
