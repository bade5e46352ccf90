-- ===== src/Env.antt =====
-- What surrounds a running step: the cancellation token, the timeout flag and the debugger
-- (crates/arazzo-runtime/src/runtime_core/control.rs). Other tasks set these while the engine
-- runs, so each observation happens at a moment of its own, and an environment says what is seen
-- at each moment. No law is assumed of it.
mod Debugger
pub mod Interrupts
pub use Debugger.{
  StepCheckpoint, ActionBranch, success, failure, action_checkpoint, criterion_checkpoint,
  retry_selected_checkpoint, retry_delay_checkpoint,
}
use arazzo_cli.Base.{ℕ, suc, Bool, Option, none, some, if◌then◌else◌, ◌==◌}
use arazzo_cli.Errors.{RuntimeErrorKind, execution_timeout, execution_cancelled}

pub record Env : Type 0 where
  -- `cancel.is_cancelled()` at a moment.
  pub cancelled : ℕ → Bool
  -- `is_timeout.load(..)` at a moment.
  pub timed_out : ℕ → Bool
  -- The error that the debugger returns from a checkpoint, if it returns one.
  pub gate : StepCheckpoint → ℕ → Option RuntimeErrorKind

pub data Outcome (A : Type 0) : Type 0 where
  done : A → Outcome A
  cut_off : RuntimeErrorKind → Outcome A
  out_of_fuel : Outcome A

-- An action: from the moment at which it starts to its outcome and the moment at which it ends.
pub record M (A : Type 0) : Type 0 where
  pub run : ℕ → Outcome A × ℕ

abbrev pub and_then : {A B : Type 0} → Outcome A × ℕ → (A → M B) → Outcome B × ℕ
and_then (done a, n) f = (f a).run n
and_then (cut_off e, n) f = (cut_off e, n)
and_then (out_of_fuel, n) f = (out_of_fuel, n)

infixl 5 ◌>>=◌ ◌>>◌
abbrev pub ◌>>=◌ : {A B : Type 0} → M A → (A → M B) → M B
m >>= f = record { run = λ n. and_then (m.run n) f }

abbrev pub ◌>>◌ : {B : Type 0} → M (Unit {0}) → M B → M B
m >> k = m >>= λ _. k

abbrev pub pure : {A : Type 0} → A → M A
pure a = record { run = λ n. (done a, n) }

abbrev pub exhaust : {A : Type 0} → M A
exhaust = record { run = λ n. (out_of_fuel, n) }

-- `cancellation_error`, read at the moment given.
unfoldable pub cancellation_error : Env → ℕ → RuntimeErrorKind
cancellation_error env n = if env.timed_out n then execution_timeout else execution_cancelled

-- `if cancel.is_cancelled() { return Err(cancellation_error(is_timeout)) }`.
unfoldable pub check_cancelled : Env → M (Unit {0})
check_cancelled env = record {
  run = λ n.
      if env.cancelled n then (cut_off (cancellation_error env n), suc n) else (done tt, suc n);
}

gate_result : Option RuntimeErrorKind → Outcome (Unit {0})
gate_result none = done tt
gate_result (some e) = cut_off e

-- `self.debug_gate_…(..).await?`.
unfoldable pub debug_gate : Env → StepCheckpoint → M (Unit {0})
unfolding gate_result
debug_gate env c = record { run = λ n. (gate_result (env.gate c n), suc n) }

-- `sleep_with_cancel`: a delay of no length only looks at the token. Otherwise the token is looked
-- at once more, by the `select!`, which prefers the cancellation.
unfoldable pub sleep_with_cancel : Env → ℕ → M (Unit {0})
sleep_with_cancel env delay = do
  check_cancelled env
  if delay == 0 then pure tt else check_cancelled env
