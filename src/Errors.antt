-- ===== src/Errors.antt =====
-- crates/arazzo-runtime/src/runtime_core/error.rs. A `RuntimeError` is modelled by its kind: the
-- message text and the chained source are for the reader of a report, and no decision reads them.
use arazzo_cli.Base.{Bool, true, false}

pub data RuntimeErrorKind : Type 0 where
  unspecified execution_timeout execution_cancelled workflow_not_found
        workflow_dependency_unsatisfied step_not_found operation_id_not_found operation_id_ambiguous
        unsupported_operation_id_form unsupported_source_description_type
        unsupported_asyncapi_transport unsupported_operation_path_form max_call_depth_exceeded
        retry_limit_exceeded retry_reference_failed dependency_cycle goto_target_not_found
        goto_target_missing invalid_http_method invalid_parameter_value http_client_build
        http_request http_response_read redirect_downgrade_refused redirect_limit_exceeded
        rate_limiter_lock_poisoned parallel_thread_panic json_parse source_description_parse
        source_description_load source_description_not_found sub_workflow_failed
        success_criteria_failed debug_controller step_missing_dependency input_validation
        internal_error response_too_large replay_trace_exhausted replay_request_mismatch
        replay_response_missing iteration_limit_exceeded message_transport_config message_transport
        message_receive_timeout message_malformed :
      RuntimeErrorKind

-- `is_cancellation`: the two ways in which an invocation is cut off.
unfoldable pub is_cancellation : RuntimeErrorKind → Bool
is_cancellation execution_cancelled = true
is_cancellation execution_timeout = true
is_cancellation _ = false

pub data Result (A : Type 0) : Type 0 where
  ok : A → Result A
  err : RuntimeErrorKind → Result A
