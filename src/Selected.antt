-- ===== src/Selected.antt =====
-- Single-step execution: `execute_step_inner` of
-- crates/arazzo-runtime/src/runtime_core/engine_impl.rs.
pub mod Scope
pub mod Left
pub mod Closure
pub mod Iterations
use arazzo_cli.Base.{
  ℕ, zero, suc, ◌+◌, ◌-◌, String, Bool, true, false, not, Option, none, some, List, [], ◌∷◌, ◌==◌,
  leb, length, get_elem?, str_eq, if◌then◌else◌, unwrap_or,
}
use arazzo_cli.Errors.{
  RuntimeErrorKind, Result, ok, err, workflow_not_found, step_not_found, step_missing_dependency,
  goto_target_not_found, internal_error,
}
use arazzo_cli.Spec.{Step, Workflow, F64}
use arazzo_cli.Routing.Decision.{Inputs, RetrySite, RetryCounts, RetryReference, FlowDecision}
use arazzo_cli.Budget.{compute_max_iterations, count_retry}
use arazzo_cli.Deps.IndexSet.{contains, insert}
use arazzo_cli.Deps.Edges.{extract_step_refs, without}
use arazzo_cli.Deps.Transitive.{compute_transitive_deps}
use arazzo_cli.Deps.Blocker.{SequentialFallbackReason}
use arazzo_cli.Invocation.Monad.{Exec, ◌>>=◌, ◌>>◌, pure, raise}
use arazzo_cli.Invocation.Calls.{Runner}
use arazzo_cli.Invocation.{max_call_depth, execute_at, require_workflow_dependencies}

-- `iter().position(..)`: the first place whose element passes the test.
abbrev pub later : Option ℕ → Option ℕ
later none = none
later (some i) = some (suc i)

abbrev pub position : {A : Type 0} → (A → Bool) → List A → Option ℕ
position test [] = none
position test (x ∷ xs) = let rest = position test xs in if test x then some 0 else later rest

-- The members of a set of indices below a bound, in ascending order, from an index on.
abbrev pub ascending : List ℕ → ℕ → ℕ → List ℕ
ascending set i zero = []
ascending set i (suc n) =
    let rest = ascending set (suc i) n in if contains i set then i ∷ rest else rest

abbrev pub or_else : Option ℕ → Option ℕ → Option ℕ
or_else (some pos) other = some pos
or_else none other = other

-- Where the run goes on after a decision for the step `idx`: at that step, or else at the first
-- step of the scope behind it.
unfoldable pub resume : List ℕ → ℕ → Option ℕ
resume scope idx = or_else (position (λ i. i == idx) scope) (position (λ i. leb idx i) scope)

-- The steps at the indices of the scope.
abbrev pub steps_at : List Step → List ℕ → List Step
steps_at steps [] = []
steps_at steps (i ∷ scope) = with_step (get_elem? steps i) (steps_at steps scope)
  where
    with_step : Option Step → List Step → List Step
    with_step none rest = rest
    with_step (some s) rest = s ∷ rest

-- How the loop ends: with the steps that were selected, with its iterations used up, which the code
-- does not tell from that, or in another workflow.
pub data ScopeEnd : Type 0 where
  stopped used_up : ScopeEnd
  transferred : Inputs → ScopeEnd

module _ {W : Type 0} (r : Runner W) (w : Workflow) (scope : List ℕ)
    (recover : ℕ → RetryReference → Exec W (Unit {0}))
    (call : String → Inputs → Exec W Inputs) where
  recovered : ℕ → Option RetryReference → Exec W (Unit {0})
  recovered idx none = pure tt
  recovered idx (some reference) = recover idx reference >> r.check_cancelled

  resumed : (ℕ → Exec W ScopeEnd) → Option ℕ → Exec W ScopeEnd
  resumed again none = pure stopped
  resumed again (some pos) = again pos

  -- The retry of a step at its position in the scope, where it has one.
  retried_at :
      (ℕ → Exec W ScopeEnd)
      → (idx attempt limit : ℕ) → F64
      → Option RetryReference
      → Option ℕ
      → Exec W ScopeEnd
  unfolding recovered
  retried_at again idx attempt limit delay reference none = raise goto_target_not_found
  retried_at again idx attempt limit delay reference (some pos) = do
    r.check_cancelled
    recovered idx reference
    r.emit_retry_scheduled idx attempt limit delay
    r.check_cancelled
    again pos

  unfoldable pub by_flow :
      (ℕ → RetryCounts → Exec W ScopeEnd) → RetryCounts → FlowDecision → Exec W ScopeEnd
  unfolding retried_at resumed
  by_flow again counts FlowDecision.done_flow = pure stopped
  by_flow again counts (FlowDecision.next idx) =
      resumed (λ pos. again pos counts) (resume scope idx)
  by_flow again counts (FlowDecision.retry idx site limit delay reference) =
      retried_at (λ pos. again pos (count_retry counts site)) idx
        (count_retry counts site site.step_index site.action_index) limit delay reference
        (position (λ i. i == idx) scope)
  by_flow again counts (FlowDecision.goto_workflow id inputs) = do
    r.check_cancelled
    own ← r.own_inputs
    outputs ← call id (unwrap_or own inputs)
    pure (transferred outputs)
  by_flow again counts (FlowDecision.error e) = raise e

  module _ (attempt : ℕ → RetryCounts → Exec W FlowDecision) where
    -- The attempt of the step at the cursor.
    unfoldable pub attempt_at :
        Option ℕ → RetryCounts → (FlowDecision → Exec W ScopeEnd) → Exec W ScopeEnd
    attempt_at none counts more = pure stopped
    attempt_at (some idx) counts more = do flow ← attempt idx counts; r.check_cancelled; more flow

    unfoldable pub run_scope : (iterations cursor : ℕ) → RetryCounts → Exec W ScopeEnd
    unfolding by_flow attempt_at
    run_scope zero cursor counts = pure used_up
    run_scope (suc n) cursor counts = do
      r.check_cancelled
      attempt_at (get_elem? scope cursor) counts (by_flow (λ c k. run_scope n c k) counts)

abbrev pub alone_unless : ℕ → List String → Result (List ℕ)
alone_unless target_idx [] = ok (target_idx ∷ [])
alone_unless target_idx (dep ∷ deps) = err step_missing_dependency

abbrev pub alone : String → ℕ → Option Step → Result (List ℕ)
alone step_id target_idx none = err internal_error
alone step_id target_idx (some s) = alone_unless target_idx (without step_id (extract_step_refs s))

abbrev pub closure : Workflow → ℕ → Option (Result (List ℕ)) → Result (List ℕ)
closure w target_idx none = err internal_error
closure w target_idx (some (err e)) = err e
closure w target_idx (some (ok deps)) = ok (ascending (insert target_idx deps) 0 (length w.steps))

-- The steps to run: the target alone, or with everything that it depends on.
unfoldable pub selection : Workflow → String → Bool → ℕ → Result (List ℕ)
selection w step_id no_deps target_idx =
    if no_deps
    then alone step_id target_idx (get_elem? w.steps target_idx)
    else closure w target_idx (compute_transitive_deps w step_id)

module _ {W : Type 0} (r : Runner W) (step_outputs : String → Exec W Inputs) where
  unfoldable pub call_at_1 : String → Inputs → Exec W Inputs
  call_at_1 id inputs = execute_at r (max_call_depth - 1) id inputs

  -- `begin_attempt`, `execute_step_with_result` and `finish_attempt`.
  unfoldable pub attempted : Workflow → ℕ → RetryCounts → Exec W FlowDecision
  unfolding call_at_1
  attempted w idx counts = do
    r.begin_attempt w idx
    r.check_cancelled
    r.run_and_route call_at_1 w idx counts

  outputs_of : String → ScopeEnd → Exec W Inputs
  outputs_of step_id (transferred outputs) = pure outputs
  outputs_of step_id stopped = r.check_cancelled >> step_outputs step_id
  outputs_of step_id used_up = r.check_cancelled >> step_outputs step_id

  run_selected : Workflow → String → Inputs → List ℕ → Exec W Inputs
  unfolding run_scope attempted outputs_of
  run_selected w step_id inputs scope = do
    r.validate_and_populate_inputs w inputs
    r.arm_receivers w (steps_at w.steps scope)
    (if r.parallel_mode
        then r.push_sequential_fallback w SequentialFallbackReason.single_step
        else pure tt)
    end ←
        run_scope r w scope (r.execute_retry_reference call_at_1 w) call_at_1 (attempted w)
          (compute_max_iterations (steps_at w.steps scope) w.failure_actions) 0 (λ i k. 0)
    outputs_of step_id end

  selected : Workflow → String → Inputs → Result (List ℕ) → Exec W Inputs
  unfolding run_selected
  selected w step_id inputs (err e) = raise e
  selected w step_id inputs (ok scope) = run_selected w step_id inputs scope

  found_step : Workflow → String → Inputs → Bool → Option ℕ → Exec W Inputs
  unfolding selected selection
  found_step w step_id inputs no_deps none = raise step_not_found
  found_step w step_id inputs no_deps (some idx) =
      selected w step_id inputs (selection w step_id no_deps idx)

  found : String → Inputs → Bool → Option Workflow → Exec W Inputs
  unfolding found_step
  found step_id inputs no_deps none = raise workflow_not_found
  found step_id inputs no_deps (some w) = do
    require_workflow_dependencies r w w.depends_on
    found_step w step_id inputs no_deps (position (λ s. str_eq s.step_id step_id) w.steps)

  unfoldable pub execute_step_inner : String → String → Inputs → Bool → Exec W Inputs
  unfolding found
  execute_step_inner workflow_id step_id inputs no_deps = do
    r.check_cancelled
    found step_id inputs no_deps (r.get_workflow workflow_id)
