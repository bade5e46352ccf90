-- ===== src/Tests/Levels.antt =====
-- The theorems about parallel levels at two steps, one of which retries.
use arazzo_cli.Base.{ℕ, zero, suc, ◌≡◌, refl, true, none, some, List, [], ◌∷◌, ◌++◌, arith}
use arazzo_cli.Spec.{ActionType, Step}
use arazzo_cli.Errors.{ok, err, internal_error}
use arazzo_cli.Routing.Decision.{RetryCounts, FlowDecision, effective_retry_limit}
use arazzo_cli.Routing.Within.{RetriesWithin, within, is_retry_flow}
use arazzo_cli.Budget.{failure_list}
use arazzo_cli.Budget.Sums.{budget_sum}
use arazzo_cli.Parallel.{
  ParallelAttempt, ParallelStepRun, Task, Variables, execute_parallel_step, run_levels, LevelRun,
  workflow_completed, run_level, before_step, forwarded, settled,
}
use arazzo_cli.Parallel.Retries.{RoutesWithin, EndsWithin, execute_parallel_step-EndsWithin}
use arazzo_cli.Parallel.Orders.{Reordered, swap, run_levels-SameLevels}
use arazzo_cli.Parallel.Sorted.{InOrder}
use arazzo_cli.Parallel.Decision.{Decided, announcements, all_replays, run_level-Decided}
use arazzo_cli.Tests.{action, step_named}

abbrev attempt_of : ℕ → ParallelAttempt ℕ
attempt_of n = record { events = n ∷ []; outputs = []; dry_run_request = none }

abbrev run_of : ℕ → FlowDecision → ParallelStepRun ℕ
run_of n flow = record { retried = []; last = attempt_of n; flow = flow }

-- The variables count the steps that wrote to them.
abbrev counting : Variables ℕ ℕ
counting = record { set_step_outputs = λ idx outputs v. suc v; build_outputs = λ v. (ok [], []) }

abbrev in_order : ℕ → List (ℕ × ParallelStepRun ℕ)
in_order v = (0, run_of 7 (FlowDecision.next 1)) ∷ (1, run_of 8 FlowDecision.done_flow) ∷ []

abbrev other_way : ℕ → List (ℕ × ParallelStepRun ℕ)
other_way v = (1, run_of 8 FlowDecision.done_flow) ∷ (0, run_of 7 (FlowDecision.next 1)) ∷ []

abbrev level_of : (ℕ → List (ℕ × ParallelStepRun ℕ)) → LevelRun ℕ ℕ
level_of joined = record { cancelled_before = none; joined = joined; cancelled_behind = none }

run_levels-SameLevels_example :
    run_levels counting (level_of other_way ∷ []) none 0
    ≡ run_levels counting (level_of in_order ∷ []) none 0
run_levels-SameLevels_example =
    run_levels-SameLevels counting (level_of other_way ∷ []) (level_of in_order ∷ []) none 0 (
      refl,
      refl,
      (λ v.
          swap (1, run_of 8 FlowDecision.done_flow) (0, run_of 7 (FlowDecision.next 1)) []
            (λ e. absurd (omega (arith, e)))),
      tt,
    )

streamed_run : run_levels counting (level_of other_way ∷ []) none 0 ≡ (
  before_step 0
      ∷ before_step 1
      ∷ forwarded 7
      ∷ settled 0
      ∷ forwarded 8
      ∷ settled 1
      ∷ workflow_completed (ok [])
      ∷ [],
  ok [],
)
unfolding run_levels
streamed_run = refl

-- The step that is done ends first, and the one before it fails.
abbrev one_fails : List (ℕ × ParallelStepRun ℕ)
one_fails =
    (2, run_of 9 FlowDecision.done_flow)
    ∷ (0, run_of 7 (FlowDecision.next 1))
    ∷ (1, run_of 8 (FlowDecision.error internal_error))
    ∷ []

decided_by_failure : run_level counting one_fails 0 ≡ record {
  streamed =
      before_step 0
      ∷ before_step 1
      ∷ before_step 2
      ∷ forwarded 7
      ∷ settled 0
      ∷ forwarded 8
      ∷ settled 1
      ∷ forwarded 9
      ∷ settled 2
      ∷ [];
  vars = 1;
  terminal = some (err internal_error, []);
}
unfolding run_level
decided_by_failure = refl

run_level-Decided_example :
    (results : List (ℕ × ParallelStepRun ℕ)) × Reordered one_fails results
    × InOrder results
    × Decided counting results 0
        (run_level counting one_fails 0).vars
        (run_level counting one_fails 0).terminal
    × ((run_level counting one_fails 0).streamed ≡ announcements results ++ all_replays results)
run_level-Decided_example = run_level-Decided counting one_fails 0

-- Retries once if the document says so, and then goes on.
abbrev retrying : Step
retrying = step_named "a" [] (action (some ActionType.retry) (some 1) [] ∷ [])

abbrev once_more : ℕ → FlowDecision
once_more zero =
    FlowDecision.retry 0 (record { step_index = 0; action_index = 0 })
      (effective_retry_limit (some 1)) 0 none
once_more (suc n) = FlowDecision.next 1

abbrev routed_by_count : ℕ → RetryCounts → FlowDecision
routed_by_count n counts = once_more (counts 0 0)

abbrev retried_task : Task ℕ
retried_task = record { attempted = attempt_of; routed = routed_by_count }

once_more-RetriesWithin :
    (counts : RetryCounts) (m : ℕ)
    → counts 0 0 ≡ m
    → is_retry_flow (once_more m) ≡ true
    → RetriesWithin (failure_list [] retrying) 0 (counts 0) (once_more m)
unfolding effective_retry_limit
once_more-RetriesWithin counts zero e h =
    within 0 (action (some ActionType.retry) (some 1) []) 0 none refl refl (omega (arith, e))
once_more-RetriesWithin counts (suc m) e h = absurd (cc)

retried_task-RoutesWithin : RoutesWithin (failure_list [] retrying) 0 retried_task
retried_task-RoutesWithin n counts h = once_more-RetriesWithin counts (counts 0 0) refl h

execute_parallel_step-EndsWithin_example :
    EndsWithin
      (budget_sum (failure_list [] retrying))
      (execute_parallel_step retried_task (suc (budget_sum (failure_list [] retrying))))
execute_parallel_step-EndsWithin_example =
    execute_parallel_step-EndsWithin retried_task [] retrying 0 retried_task-RoutesWithin
