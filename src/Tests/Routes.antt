-- ===== src/Tests/Routes.antt =====
-- The theorems about routing at a failed attempt with an action that does not match, a retry with
-- budget left, and an `end` action behind it.
use arazzo_cli.Base.{◌≡◌, refl, some}
use arazzo_cli.Env.{failure, check_cancelled, debug_gate}
use arazzo_cli.Env.Interrupts.{Ends}
use arazzo_cli.Routing.Decision.{RoutedDecision, effective_retry_limit}
use arazzo_cli.Routing.RetryAfter.{validate_retry_after_value, compute_retry_after_delay}
use arazzo_cli.Routing.Execute.{execute_action, retry_decision}
use arazzo_cli.Routing.Select.{find_matching_action_from, first_match, criteria_match}
use arazzo_cli.Routing.Handle.{
  route_attempt, handle_step_result, route_result, route_failure, failure_selected,
}
use arazzo_cli.Routing.Reference.{Settles, IsFirstMatch, decision, walk, execution}
use arazzo_cli.Routing.First.{find-IsFirstMatch}
use arazzo_cli.Routing.Settle.{route_attempt-Settles}
use arazzo_cli.Routing.Within.{RetriesWithin, route_attempt-RetriesWithin}
use arazzo_cli.Tests.{calm, plain, on_error, retried_once}

route_attempt-Settles_example :
    (d : RoutedDecision) × ((route_attempt calm plain retried_once 0).0 ≡ some d)
    × Settles calm (decision plain retried_once) d
route_attempt-Settles_example = route_attempt-Settles calm plain retried_once 0

find-IsFirstMatch_example :
    Ends calm
      (IsFirstMatch plain on_error 0)
      ((find_matching_action_from calm plain failure on_error 0).run 0).0
find-IsFirstMatch_example = find-IsFirstMatch calm plain failure on_error 0 0

abbrev retries : RoutedDecision
unfolding decision
retries = decision plain retried_once

route_attempt-RetriesWithin_example : RetriesWithin on_error 0 (λ k. 1) retries.flow
unfolding route_attempt handle_step_result route_result check_cancelled route_failure
    find_matching_action_from first_match debug_gate criteria_match failure_selected execute_action
    validate_retry_after_value effective_retry_limit compute_retry_after_delay retries
    retry_decision walk execution
route_attempt-RetriesWithin_example =
    route_attempt-RetriesWithin calm plain retried_once 0 retries refl refl refl
