-- ===== src/Routing/Decision.antt =====
-- The data of engine_actions.rs, and what it asks of the expression language.
use arazzo_cli.Base.{ℕ, String, Bool, Option, none, List, unwrap_or}
use arazzo_cli.Json.{Json}
use arazzo_cli.Spec.{ActionType, OnAction, SuccessCriterion, ValueSource, F64}
use arazzo_cli.Errors.{RuntimeErrorKind}

-- The expression evaluator as routing uses it, at the variables, the response and the message of
-- the routed attempt, and `f64` conversions of the standard library. `resolve` reads the message
-- too, `interpolate` does not.
pub record Evaluator : Type 0 where
  pub matched : SuccessCriterion → Bool
  pub interpolate : String → String
  pub resolve : ValueSource → Json
  -- In nanoseconds, if a `Duration` can hold them.
  pub try_from_secs_f64 : F64 → Option ℕ
  pub as_secs_f64 : ℕ → F64

abbrev pub Inputs : Type 0
Inputs = List (String × Json)

pub record RetrySite : Type 0 where
  pub step_index : ℕ
  pub action_index : ℕ

-- The `BTreeMap<RetrySite, u64>` read with `unwrap_or(0)`.
abbrev pub RetryCounts : Type 0
RetryCounts = ℕ → ℕ → ℕ

pub data RetryReference : Type 0 where
  to_step : String → RetryReference
  to_workflow : String → Option Inputs → RetryReference

pub data FlowDecision : Type 0 where
  next : ℕ → FlowDecision
  retry :
      (step_idx : ℕ) (site : RetrySite) (retry_limit : ℕ) (delay_seconds : F64)
      → Option RetryReference
      → FlowDecision
  done_flow : FlowDecision
  goto_workflow : String → Option Inputs → FlowDecision
  error : RuntimeErrorKind → FlowDecision

pub data TraceDecisionPath : Type 0 where
  next done goto_step goto_workflow retry error : TraceDecisionPath

-- `action_type` is a text in the source, empty where none is given.
pub record TraceDecision : Type 0 where
  pub path : TraceDecisionPath
  pub action_type : Option ActionType
  pub target_step_id : String
  pub target_workflow_id : String
  pub retry_after_seconds : Option F64
  pub retry_limit : Option ℕ

unfoldable pub with_path : TraceDecisionPath → TraceDecision
with_path p = record {
  path = p;
  action_type = none;
  target_step_id = "";
  target_workflow_id = "";
  retry_after_seconds = none;
  retry_limit = none;
}

pub record RoutedDecision : Type 0 where
  pub flow : FlowDecision
  pub trace : TraceDecision

-- `RoutedDecision::error`.
unfoldable pub error_decision : RuntimeErrorKind → RoutedDecision
unfolding with_path
error_decision e = record { flow = FlowDecision.error e; trace = with_path TraceDecisionPath.error }

pub record MatchedAction : Type 0 where
  pub index : ℕ
  pub action : OnAction

pub record ExhaustedRetry : Type 0 where
  pub effective_limit : ℕ
  pub retry_after : F64
  pub configured_limit : Option ℕ

pub data ActionExecution : Type 0 where
  routed : RoutedDecision → ActionExecution
  retry_exhausted : ExhaustedRetry → ActionExecution

-- An omitted `retryLimit` means one retry: `DEFAULT_RETRY_LIMIT`.
unfoldable pub effective_retry_limit : Option ℕ → ℕ
effective_retry_limit configured = unwrap_or 1 configured
