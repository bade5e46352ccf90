-- ===== src/Invocation/NoSteps.antt =====
-- A workflow without steps: `compute_max_iterations` and the end of `execute_inner`
-- (engine_impl.rs).
use arazzo_cli.Base.{◌≡◌, refl, String, List, [], arith}
use arazzo_cli.Spec.{OnAction, Step, Workflow}
use arazzo_cli.Errors.{iteration_limit_exceeded}
use arazzo_cli.Routing.Decision.{Inputs}
use arazzo_cli.Budget.{compute_max_iterations}
use arazzo_cli.Budget.Sums.{compute_max_iterations_lem}
use arazzo_cli.Invocation.Monad.{Exec, ◌>>◌, raise}
use arazzo_cli.Invocation.Calls.{Runner}
use arazzo_cli.Invocation.{sequential, finish, run_steps}

no_iterations :
    (steps : List Step) (w : List OnAction) → steps ≡ [] → compute_max_iterations steps w ≡ 0
no_iterations steps w e = rw e (omega (arith, compute_max_iterations_lem [] w))

-- If a workflow has no steps, its sequential execution marks it completed and ends in the
-- iteration limit error, from every state: its outputs are never built.
pub sequential-no_steps :
    {W : Type 0} (r : Runner W) (w : Workflow) (call : String → Inputs → Exec W Inputs) (s : W)
    → w.steps ≡ []
    → (sequential r w call).run s
      ≡ (r.mark_workflow_completed w.workflow_id >> raise iteration_limit_exceeded).run s
unfolding sequential finish run_steps
sequential-no_steps r w call s e = rw (no_iterations w.steps w.failure_actions e) refl
