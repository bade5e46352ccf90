-- ===== src/Parallel.antt =====
-- The levels of a parallel invocation: crates/arazzo-runtime/src/runtime_core/engine_parallel.rs.
-- The task of a step retries it on its own; when a level's tasks have ended, in whatever order,
-- their attempts are replayed into the invocation's streams in the order of the steps.
pub mod Retries
pub mod Orders
pub mod Sorted
pub mod Decision
use arazzo_cli.Base.{
  ℕ, zero, suc, ◌+◌, ◌≤◌, String, Bool, true, false, Option, none, some, List, [], ◌∷◌, ◌++◌, leb,
  if◌then◌else◌,
}
use arazzo_cli.Spec.{F64}
use arazzo_cli.Errors.{RuntimeErrorKind, Result, ok, err, internal_error}
use arazzo_cli.Routing.Decision.{Inputs, RetrySite, RetryCounts, FlowDecision}
use arazzo_cli.Budget.{count_retry}

-- A counted retry: its number at its site, the limit and the delay.
pub record ScheduledRetry : Type 0 where
  pub attempt : ℕ
  pub max_attempts : ℕ
  pub delay_seconds : F64

-- What an attempt leaves: the events of its buffer, the outputs of its execution and whether it
-- holds a request that a dry run did not send.
pub record ParallelAttempt (E : Type 0) : Type 0 where
  pub events : List E
  pub outputs : Inputs
  pub dry_run_request : Option E

pub record ParallelStepRun (E : Type 0) : Type 0 where
  pub retried : List (ParallelAttempt E × ScheduledRetry)
  pub last : ParallelAttempt E
  pub flow : FlowDecision

-- The task of a step: what its attempts do, and how `route_attempt` decides on each of them with
-- the retries that have been counted.
pub record Task (E : Type 0) : Type 0 where
  pub attempted : ℕ → ParallelAttempt E
  pub routed : ℕ → RetryCounts → FlowDecision

-- What the guard against a workflow that should not have run in parallel makes of a decision.
abbrev pub guarded : FlowDecision → FlowDecision
guarded (FlowDecision.retry i site limit delay (some reference)) = FlowDecision.error internal_error
guarded (FlowDecision.goto_workflow id inputs) = FlowDecision.error internal_error
guarded flow = flow

module _ {E : Type 0} where
  abbrev pub prepended :
      ParallelAttempt E × ScheduledRetry → Option (ParallelStepRun E) → Option (ParallelStepRun E)
  prepended entry none = none
  prepended entry (some run) =
      some (record { retried = entry ∷ run.retried; last = run.last; flow = run.flow })

  module _ (task : Task E) where
    abbrev pub by_routing :
        (RetryCounts → Option (ParallelStepRun E))
        → ℕ
        → RetryCounts
        → FlowDecision
        → Option (ParallelStepRun E)
    by_routing again n counts (FlowDecision.retry i site limit delay reference) =
        prepended
          (
            task.attempted n,
            record {
              attempt = count_retry counts site site.step_index site.action_index;
              max_attempts = limit;
              delay_seconds = delay;
            },
          )
          (again (count_retry counts site))
    by_routing again n counts flow =
        some (record { retried = []; last = task.attempted n; flow = flow })

    -- The loop of `execute_parallel_step` from the attempt `n` on; `none` where the fuel runs out.
    unfoldable pub attempts_from : (fuel : ℕ) → ℕ → RetryCounts → Option (ParallelStepRun E)
    attempts_from zero n counts = none
    attempts_from (suc fuel) n counts =
        by_routing (attempts_from fuel (suc n)) n counts (guarded (task.routed n counts))

    unfoldable pub execute_parallel_step : (fuel : ℕ) → Option (ParallelStepRun E)
    unfolding attempts_from
    execute_parallel_step fuel = attempts_from fuel 0 (λ i k. 0)

-- What enters the streams of the invocation: an announced attempt, an event of its buffer, its
-- record (number, completion, trace), a retry, a request that was not sent, a warning about the
-- workflow's outputs, the completion of the workflow.
pub data Streamed (E : Type 0) : Type 0 where
  before_step settled : ℕ → Streamed E
  forwarded not_sent : E → Streamed E
  retry_scheduled : ℕ → ScheduledRetry → Streamed E
  output_warning : E → Streamed E
  workflow_completed : Result Inputs → Streamed E

module _ {E : Type 0} where
  abbrev forward_all : List E → List (Streamed E)
  forward_all [] = []
  forward_all (e ∷ es) = forwarded e ∷ forward_all es

  unfoldable pub replay_parallel_attempt : ℕ → Bool → ParallelAttempt E → List (Streamed E)
  replay_parallel_attempt idx announce attempt =
      (if announce then before_step idx ∷ [] else [])
      ++ (forward_all attempt.events ++ (settled idx ∷ []))

  unfoldable pub replay_attempts :
      ℕ → Bool → List (ParallelAttempt E × ScheduledRetry) → ParallelAttempt E → List (Streamed E)
  unfolding replay_parallel_attempt
  replay_attempts idx announce [] last = replay_parallel_attempt idx announce last
  replay_attempts idx announce ((attempt, retry) ∷ retried) last =
      replay_parallel_attempt idx announce attempt
      ++ (retry_scheduled idx retry ∷ replay_attempts idx true retried last)

  unfoldable pub replay_parallel_step : ℕ → ParallelStepRun E → List (Streamed E)
  unfolding replay_attempts
  replay_parallel_step idx run = replay_attempts idx false run.retried run.last

  abbrev pub dry_run : Option E → List (Streamed E)
  dry_run none = []
  dry_run (some request) = not_sent request ∷ []

-- `sort_unstable` and `sort_by_key`, by the index.
module _ {A : Type 0} where
  abbrev pub insert_by_index : ℕ × A → List (ℕ × A) → List (ℕ × A)
  insert_by_index x [] = x ∷ []
  insert_by_index x (y ∷ ys) = if leb x.0 y.0 then x ∷ y ∷ ys else y ∷ insert_by_index x ys

  abbrev pub sort_by_index : List (ℕ × A) → List (ℕ × A)
  sort_by_index [] = []
  sort_by_index (x ∷ xs) = insert_by_index x (sort_by_index xs)

-- How an invocation ends: its result, and the warnings about its outputs.
abbrev pub Outcome : Type 0 → Type 0
Outcome E = Result Inputs × List E

-- The invocation's variables, `V`: what is done with a step's outputs, and the outputs of the
-- workflow, or the error, at the end.
pub record Variables (E V : Type 0) : Type 0 where
  pub set_step_outputs : ℕ → Inputs → V → V
  pub build_outputs : V → Outcome E

-- How a level leaves the invocation: what it has streamed, the variables, and the outcome that
-- ends the invocation if there is one.
pub record LevelEnd (E V : Type 0) : Type 0 where
  pub streamed : List (Streamed E)
  pub vars : V
  pub terminal : Option (Outcome E)

-- A level as it happens: what `check_cancelled` answers before it and, when it ends the
-- invocation, behind it (`none` where the invocation is not cancelled), and the results of its
-- tasks in the order in which they end, which depend on the variables as the level finds them.
pub record LevelRun (E V : Type 0) : Type 0 where
  pub cancelled_before : Option RuntimeErrorKind
  pub joined : V → List (ℕ × ParallelStepRun E)
  pub cancelled_behind : Option RuntimeErrorKind

module _ {E V : Type 0} (variables : Variables E V) where
  -- What the outcome of a step does, when no step before it has ended the invocation.
  abbrev pub settle_flow : ℕ → Inputs → V → FlowDecision → V × Option (Outcome E)
  settle_flow idx outputs vars (FlowDecision.next i) =
      (variables.set_step_outputs idx outputs vars, none)
  settle_flow idx outputs vars FlowDecision.done_flow =
      let written = variables.set_step_outputs idx outputs vars in
      (written, some (variables.build_outputs written))
  settle_flow idx outputs vars (FlowDecision.error e) = (vars, some (err e, []))
  settle_flow idx outputs vars _ = (vars, some (err internal_error, []))

  abbrev pub after_terminal :
      ℕ → Inputs → FlowDecision → V → Option (Outcome E) → V × Option (Outcome E)
  after_terminal idx outputs flow vars none = settle_flow idx outputs vars flow
  after_terminal idx outputs flow vars (some terminal) = (vars, some terminal)

module _ {E V : Type 0} (variables : Variables E V) where
  -- The loop over the sorted results.
  unfoldable pub replay_level : List (ℕ × ParallelStepRun E) → V → Option (Outcome E) → LevelEnd E V
  unfolding replay_parallel_step
  replay_level [] vars terminal = record { streamed = []; vars = vars; terminal = terminal }
  replay_level ((idx, run) ∷ results) vars terminal =
      let settled = after_terminal variables idx run.last.outputs run.flow vars terminal in
      let rest = replay_level results settled.0 settled.1 in
      record {
        streamed =
            replay_parallel_step idx run ++ (dry_run run.last.dry_run_request ++ rest.streamed);
        vars = rest.vars;
        terminal = rest.terminal;
      }

  abbrev announced : List (ℕ × ParallelStepRun E) → List (Streamed E)
  announced [] = []
  announced ((idx, run) ∷ results) = before_step idx ∷ announced results

  -- A level whose tasks have joined in some order: the steps are announced in their own order
  -- before any task starts, and the results are sorted before any is replayed.
  unfoldable pub run_level : List (ℕ × ParallelStepRun E) → V → LevelEnd E V
  unfolding replay_level
  run_level joined vars =
      let results = sort_by_index joined in
      let end = replay_level results vars none in
      record {
        streamed = announced results ++ end.streamed;
        vars = end.vars;
        terminal = end.terminal;
      }

  abbrev warned : List E → List (Streamed E)
  warned [] = []
  warned (w ∷ warnings) = output_warning w ∷ warned warnings

  -- What follows a level: the next one, or the end that its outcome makes.
  abbrev pub ended :
      List (Streamed E)
      → List (Streamed E) × Result Inputs
      → Option RuntimeErrorKind
      → Option (Outcome E)
      → List (Streamed E) × Result Inputs
  ended streamed rest cancelled none = (streamed ++ rest.0, rest.1)
  ended streamed rest (some e) (some (outcome, warnings)) = (streamed ++ warned warnings, err e)
  ended streamed rest none (some (outcome, warnings)) =
      (streamed ++ (warned warnings ++ (workflow_completed outcome ∷ [])), outcome)

  -- The end of an invocation all of whose steps have gone on.
  abbrev finished : Option RuntimeErrorKind → Outcome E → List (Streamed E) × Result Inputs
  finished (some e) outcome = ([], err e)
  finished none (err e, warnings) = (warned warnings, err e)
  finished none (ok outputs, warnings) =
      (warned warnings ++ (workflow_completed (ok outputs) ∷ []), ok outputs)

  abbrev pub unless_cancelled :
      Option RuntimeErrorKind
      → List (Streamed E) × Result Inputs
      → List (Streamed E) × Result Inputs
  unless_cancelled (some e) run = ([], err e)
  unless_cancelled none run = run

  abbrev pub next_level :
      (V → List (Streamed E) × Result Inputs)
      → Option RuntimeErrorKind
      → LevelEnd E V
      → List (Streamed E) × Result Inputs
  next_level more cancelled end = ended end.streamed (more end.vars) cancelled end.terminal

  -- The levels in turn, with what `check_cancelled` answers behind the last.
  unfoldable pub run_levels :
      List (LevelRun E V) → Option RuntimeErrorKind → V → List (Streamed E) × Result Inputs
  unfolding run_level
  run_levels [] cancelled vars = finished cancelled (variables.build_outputs vars)
  run_levels (level ∷ levels) cancelled vars = unless_cancelled level.cancelled_before (
      next_level (run_levels levels cancelled) level.cancelled_behind
        (run_level (level.joined vars) vars))
