-- ===== src/Parallel/Decision.antt =====
-- Which step of a level decides the invocation (`execute_parallel` of engine_parallel.rs).
use arazzo_cli.Base.{ℕ, ◌≡◌, refl, ap, Option, none, some, List, [], ◌∷◌, ◌++◌, All}
use arazzo_cli.Errors.{RuntimeErrorKind, err, internal_error}
use arazzo_cli.Routing.Decision.{FlowDecision}
use arazzo_cli.Parallel.{
  ParallelStepRun, Outcome, Streamed, before_step, Variables, settle_flow, replay_parallel_step,
  dry_run, replay_level, run_level, announced, sort_by_index,
}
use arazzo_cli.Parallel.Orders.{Reordered}
use arazzo_cli.Parallel.Sorted.{InOrder, sort_by_index-joined, sort_by_index-InOrder}

-- The decision of a step that does not end the invocation.
abbrev pub GoesOn : FlowDecision → Type 0
GoesOn (FlowDecision.next i) = Unit
GoesOn _ = ⊥

-- The decisions that a level cannot follow.
abbrev pub IsUnsupported : FlowDecision → Type 0
IsUnsupported (FlowDecision.retry i site limit delay reference) = Unit
IsUnsupported (FlowDecision.goto_workflow id inputs) = Unit
IsUnsupported _ = ⊥

module _ {E : Type 0} where
  abbrev pub announcements : List (ℕ × ParallelStepRun E) → List (Streamed E)
  announcements [] = []
  announcements ((idx, run) ∷ results) = before_step idx ∷ announcements results

  -- All attempts of all steps.
  abbrev pub all_replays : List (ℕ × ParallelStepRun E) → List (Streamed E)
  all_replays [] = []
  all_replays ((idx, run) ∷ results) =
      replay_parallel_step idx run ++ (dry_run run.last.dry_run_request ++ all_replays results)

module _ {E V : Type 0} (variables : Variables E V) where
  -- The variables with the outputs of the results written, one after the other.
  abbrev pub written : List (ℕ × ParallelStepRun E) → V → V
  written [] vars = vars
  written ((idx, run) ∷ results) vars =
      written results (variables.set_step_outputs idx run.last.outputs vars)

  -- What the step that ends the invocation makes of the variables that it finds, and the outcome.
  pub data Ends (idx : ℕ) (run : ParallelStepRun E) (found left : V) (terminal : Option (Outcome E))
      : Type 0 where
    is_done :
        run.flow ≡ FlowDecision.done_flow
        → left ≡ variables.set_step_outputs idx run.last.outputs found
        → terminal ≡ some (variables.build_outputs left)
        → Ends idx run found left terminal
    fails :
        (e : RuntimeErrorKind)
        → run.flow ≡ FlowDecision.error e
        → left ≡ found
        → terminal ≡ some (err e, [])
        → Ends idx run found left terminal
    is_refused :
        IsUnsupported run.flow
        → left ≡ found
        → terminal ≡ some (err internal_error, [])
        → Ends idx run found left terminal

  -- What the results, in this order, make of the variables, and the outcome if there is one.
  pub data Decided (results : List (ℕ × ParallelStepRun E)) (vars left : V)
      (terminal : Option (Outcome E)) : Type 0 where
    goes_on :
        All (λ result. GoesOn result.1.flow) results
        → left ≡ written results vars
        → terminal ≡ none
        → Decided results vars left terminal
    ended_by :
        (before : List (ℕ × ParallelStepRun E)) (idx : ℕ) (run : ParallelStepRun E)
        (behind : List (ℕ × ParallelStepRun E))
        → results ≡ before ++ ((idx, run) ∷ behind)
        → All (λ result. GoesOn result.1.flow) before
        → Ends idx run (written before vars) left terminal
        → Decided results vars left terminal

  replay_level-ended :
      (results : List (ℕ × ParallelStepRun E)) (vars : V) (outcome : Outcome E)
      → ((replay_level variables results vars (some outcome)).vars ≡ vars)
        × ((replay_level variables results vars (some outcome)).terminal ≡ some outcome)
  unfolding replay_level
  replay_level-ended [] vars outcome = (refl, refl)
  replay_level-ended ((idx, run) ∷ results) vars outcome = replay_level-ended results vars outcome

  replay_level-streams :
      (results : List (ℕ × ParallelStepRun E)) (vars : V) (terminal : Option (Outcome E))
      → (replay_level variables results vars terminal).streamed ≡ all_replays results
  unfolding replay_level
  replay_level-streams [] vars terminal = refl
  replay_level-streams ((idx, run) ∷ results) vars terminal =
      ap (λ rest. replay_parallel_step idx run ++ (dry_run run.last.dry_run_request ++ rest))
        (replay_level-streams results _ _)

  -- A result in front that goes on.
  behind_one-Decided :
      (idx : ℕ) (run : ParallelStepRun E) (results : List (ℕ × ParallelStepRun E)) (vars left : V)
      (terminal : Option (Outcome E))
      → GoesOn run.flow
      → Decided results (variables.set_step_outputs idx run.last.outputs vars) left terminal
      → Decided ((idx, run) ∷ results) vars left terminal
  behind_one-Decided idx run results vars left terminal on (goes_on h v t) = goes_on (on, h) v t
  behind_one-Decided idx run results vars left terminal on
        (ended_by before i last behind e h ends) =
      ended_by ((idx, run) ∷ before) i last behind (ap (λ xs. (idx, run) ∷ xs) e) (on, h) ends

  abbrev Settles :
      ℕ → ParallelStepRun E → List (ℕ × ParallelStepRun E) → V → V × Option (Outcome E) → Type 0
  Settles idx run results vars from =
      Decided ((idx, run) ∷ results) vars (replay_level variables results from.0 from.1).vars
        (replay_level variables results from.0 from.1).terminal

  ending-Settles :
      (idx : ℕ) (run : ParallelStepRun E) (results : List (ℕ × ParallelStepRun E)) (vars left : V)
      (outcome : Outcome E)
      → Ends idx run vars left (some outcome)
      → Settles idx run results vars (left, some outcome)
  ending-Settles idx run results vars left outcome ends =
      let after = replay_level-ended results left outcome in
      rw (after.0, after.1) (ended_by [] idx run results refl tt ends)

  settle_flow-Settles :
      (idx : ℕ) (run : ParallelStepRun E) (results : List (ℕ × ParallelStepRun E)) (vars : V)
      → ((v : V)
          → Decided results v
              (replay_level variables results v none).vars
              (replay_level variables results v none).terminal)
      → (flow : FlowDecision) → run.flow ≡ flow
      → Settles idx run results vars (settle_flow variables idx run.last.outputs vars flow)
  settle_flow-Settles idx run results vars rest (FlowDecision.next i) same =
      let after = variables.set_step_outputs idx run.last.outputs vars in
      behind_one-Decided idx run results vars (replay_level variables results after none).vars
        (replay_level variables results after none).terminal (rw same tt) (rest after)
  settle_flow-Settles idx run results vars rest FlowDecision.done_flow same =
      ending-Settles idx run results vars _ _ (is_done same refl refl)
  settle_flow-Settles idx run results vars rest (FlowDecision.error e) same =
      ending-Settles idx run results vars _ _ (fails e same refl refl)
  settle_flow-Settles idx run results vars rest (FlowDecision.retry i site limit delay reference)
        same =
      ending-Settles idx run results vars _ _ (is_refused (rw same tt) refl refl)
  settle_flow-Settles idx run results vars rest (FlowDecision.goto_workflow id inputs) same =
      ending-Settles idx run results vars _ _ (is_refused (rw same tt) refl refl)

  replay_level-Decided :
      (results : List (ℕ × ParallelStepRun E)) (vars : V)
      → Decided results vars
          (replay_level variables results vars none).vars
          (replay_level variables results vars none).terminal
  unfolding replay_level
  replay_level-Decided [] vars = goes_on tt refl refl
  replay_level-Decided ((idx, run) ∷ results) vars =
      settle_flow-Settles idx run results vars (replay_level-Decided results) run.flow refl

  announced-announcements :
      (results : List (ℕ × ParallelStepRun E)) → announced variables results ≡ announcements results
  announced-announcements [] = refl
  announced-announcements ((idx, run) ∷ results) =
      ap (λ rest. before_step idx ∷ rest) (announced-announcements results)

  -- In whatever order the tasks of a level have ended, their results in the order of the steps say how the
  -- level ends. If every step goes on, all outputs are written and the invocation goes on. Otherwise the
  -- first step that does not go on decides: the outputs of the steps before it are written and those of
  -- the steps behind it are not. When that step is done, its own outputs are written too and the outcome
  -- is the workflow's outputs from them; when it fails, its own are not written and the outcome is its
  -- error; a retry or a transfer is an internal error. In each case the announcements of all steps, and
  -- then all attempts of all steps, are streamed.
  pub run_level-Decided :
      (joined : List (ℕ × ParallelStepRun E)) (vars : V)
      → (results : List (ℕ × ParallelStepRun E)) × Reordered joined results
        × InOrder results
        × Decided results vars
            (run_level variables joined vars).vars
            (run_level variables joined vars).terminal
        × ((run_level variables joined vars).streamed
            ≡ announcements results ++ all_replays results)
  unfolding run_level
  run_level-Decided joined vars =
      let results = sort_by_index joined in
      (
        results,
        sort_by_index-joined joined,
        sort_by_index-InOrder joined,
        replay_level-Decided results vars,
        rw (announced-announcements results, replay_level-streams results vars none) refl,
      )
