-- ===== src/Invocation/Calls.antt =====
-- What `execute_inner` calls: the parts of the engine that run one step, resolve the documents,
-- take the inputs in and report events. `W` is the state of the invocation, with its variables,
-- its token, its event stream and the transports. A step may call a workflow, and so may a
-- recovery reference: the first argument of these two is `execute_inner` one level deeper.
use arazzo_cli.Base.{ℕ, String, Bool, Option, none, some, List, if◌then◌else◌, ◌==◌}
use Prim.Native.Char.{code}
use arazzo_cli.Spec.{Step, Workflow, F64}
use arazzo_cli.Routing.Decision.{Inputs, RetryCounts, RetryReference, FlowDecision}
use arazzo_cli.Deps.Blocker.{SequentialFallbackReason}
use arazzo_cli.Invocation.Monad.{Exec}

pub record Runner (W : Type 0) : Type 0 where
  pub check_cancelled : Exec W (Unit {0})
  pub get_workflow : String → Option Workflow
  pub workflow_is_completed : String → Exec W Bool
  pub validate_and_populate_inputs : Workflow → Inputs → Exec W (Unit {0})
  pub arm_receivers : Workflow → List Step → Exec W (Unit {0})
  pub parallel_mode : Bool
  pub debugger_attached : Bool
  pub push_sequential_fallback : Workflow → SequentialFallbackReason → Exec W (Unit {0})
  pub execute_parallel : Workflow → Exec W Inputs
  pub own_inputs : Exec W Inputs
  pub debug_gate_step : Workflow → ℕ → Exec W (Unit {0})
  pub begin_attempt : Workflow → ℕ → Exec W (Unit {0})
  -- `execute_step_with_result` and `finish_attempt`.
  pub run_and_route :
      (String → Inputs → Exec W Inputs) → Workflow → ℕ → RetryCounts → Exec W FlowDecision
  pub execute_retry_reference :
      (String → Inputs → Exec W Inputs) → Workflow → ℕ → RetryReference → Exec W (Unit {0})
  pub emit_retry_scheduled : ℕ → ℕ → ℕ → F64 → Exec W (Unit {0})
  pub mark_workflow_completed : String → Exec W (Unit {0})
  pub emit_workflow_completed : String → Exec W (Unit {0})
  pub build_outputs : Workflow → Exec W Inputs

-- `classify_workflow_dependency` (crates/arazzo-spec/src/workflow_dependency.rs), as far as
-- `require_workflow_dependencies` reads it: a text that is not empty and does not begin with `$`
-- names a workflow of the document, and every other dependency is unsatisfied.
unfoldable pub local_dependency : String → Option String
local_dependency String.[] = none
local_dependency (String.◌∷◌ c s) = if code c == b'$' then none else some (String.◌∷◌ c s)
