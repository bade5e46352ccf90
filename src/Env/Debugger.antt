-- ===== src/Env/Debugger.antt =====
-- The checkpoints of crates/arazzo-runtime/src/debug/breakpoints.rs, and the two branches of an
-- action list with their checkpoints (runtime_core/engine_actions.rs).
use arazzo_cli.Base.{ℕ, String}

pub data StepCheckpoint : Type 0 where
  step : StepCheckpoint
  success_criterion : ℕ → StepCheckpoint
  on_success_action : ℕ → StepCheckpoint
  on_success_criterion : ℕ → ℕ → StepCheckpoint
  on_failure_action : ℕ → StepCheckpoint
  on_failure_criterion : ℕ → ℕ → StepCheckpoint
  on_success_retry_selected on_success_retry_delay : ℕ → StepCheckpoint
  on_failure_retry_selected on_failure_retry_delay : ℕ → StepCheckpoint
  output : String → StepCheckpoint

pub data ActionBranch : Type 0 where
  success failure : ActionBranch

unfoldable pub action_checkpoint : ActionBranch → ℕ → StepCheckpoint
action_checkpoint success i = on_success_action i
action_checkpoint failure i = on_failure_action i

unfoldable pub criterion_checkpoint : ActionBranch → ℕ → ℕ → StepCheckpoint
criterion_checkpoint success i j = on_success_criterion i j
criterion_checkpoint failure i j = on_failure_criterion i j

unfoldable pub retry_selected_checkpoint : ActionBranch → ℕ → StepCheckpoint
retry_selected_checkpoint success i = on_success_retry_selected i
retry_selected_checkpoint failure i = on_failure_retry_selected i

unfoldable pub retry_delay_checkpoint : ActionBranch → ℕ → StepCheckpoint
retry_delay_checkpoint success i = on_success_retry_delay i
retry_delay_checkpoint failure i = on_failure_retry_delay i
