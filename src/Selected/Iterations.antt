-- ===== src/Selected/Iterations.antt =====
-- The iteration limit of single-step execution (`execute_step_inner` of engine_impl.rs) is no limit
-- for steps whose routing goes ahead: retries alone never reach it.
use arazzo_cli.Base.{
  ℕ, zero, suc, ◌+◌, ◌-◌, ◌≤◌, ◌<◌, ◌≡◌, refl, sym, ◌∙◌, subst, leb→le, Bool, false, true, some,
  List, length, get_elem?, leb, ◌==◌, arith, String, Option-cases, Bool-cases, inl, inr, unwrap_or,
}
use arazzo_cli.Spec.{Step, Workflow}
use arazzo_cli.Errors.{ok, goto_target_not_found}
use arazzo_cli.Routing.Decision.{Inputs, RetryCounts, RetryReference, FlowDecision}
use arazzo_cli.Routing.Within.{RetriesWithin, within}
use arazzo_cli.Budget.{compute_max_iterations, count_retry, failure_list, u128_max}
use arazzo_cli.Budget.Sums.{attempts_sum, compute_max_iterations_lem}
use arazzo_cli.Invocation.Monad.{
  Exec, Ensures, Ensures-bind, Ensures-then, Ensures-pure, Ensures-raise, Ensures-seq,
}
use arazzo_cli.Invocation.Calls.{Runner}
use arazzo_cli.Selected.{
  selection, ScopeEnd, stopped, used_up, transferred, position, retried_at, resume, steps_at,
  by_flow, recovered, resumed, attempt_at, run_scope, call_at_1, attempted,
}
use arazzo_cli.Selected.Closure.{selection-IsScope}
use arazzo_cli.Selected.Left.{left_of, left_of-used, left_of-none, position_of}
use arazzo_cli.Selected.Scope.{
  position_found, inside, Ascending, Resumes, resume-position, position-Resumes,
}

abbrev pub Settled : ScopeEnd → Type 0
Settled stopped = Unit
Settled used_up = ⊥
Settled (transferred outputs) = Unit

-- The decision at a step goes on with a later step, or retries the step within the budget of its
-- failure actions, or ends the execution.
abbrev pub GoesAhead : Workflow → ℕ → RetryCounts → FlowDecision → Type 0
GoesAhead w i counts (FlowDecision.next j) = i < j
GoesAhead w i counts (FlowDecision.retry j site limit delay reference) =
    (s : Step) × (get_elem? w.steps i ≡ some s)
    × RetriesWithin (failure_list w.failure_actions s) i (counts i)
        (FlowDecision.retry j site limit delay reference)
GoesAhead w i counts FlowDecision.done_flow = Unit
GoesAhead w i counts (FlowDecision.goto_workflow id inputs) = Unit
GoesAhead w i counts (FlowDecision.error e) = Unit

-- Every attempt of a selected step is routed so.
abbrev pub RoutesAhead :
    {W : Type 0} → Runner W → Workflow → List ℕ → (String → Inputs → Exec W Inputs) → Type 0
RoutesAhead r w scope call =
    (c i : ℕ) (counts : RetryCounts)
    → get_elem? scope c ≡ some i
    → Ensures (GoesAhead w i counts) (r.run_and_route call w i counts)

module _ {W : Type 0} (r : Runner W) (w : Workflow) (scope : List ℕ) (ordered : Ascending 0 scope)
    (recover : ℕ → RetryReference → Exec W (Unit {0}))
    (call : String → Inputs → Exec W Inputs) where
  -- The iterations that are needed from a cursor and with the retries counted so far.
  abbrev needed : ℕ → RetryCounts → ℕ
  needed c counts = (length scope - c) + left_of w.failure_actions w.steps counts scope

  not_behind :
      (c p x y : ℕ) → get_elem? scope c ≡ some x → get_elem? scope p ≡ some y → x ≤ y → c ≤ p
  not_behind c p x y ec ep le = elim (Bool-cases (leb c p)) [
    | inl h ↦ leb→le c p h
    | inr h ↦ absurd (omega (arith, position_of 0 scope c p x y ordered ec ep (below h), le))
  ]
    where
      below : leb c p ≡ false → p < c
      below h = ground arith

  resume-ahead :
      (c i j pos : ℕ) → get_elem? scope c ≡ some i → i < j → resume scope j ≡ some pos → c < pos
  resume-ahead c i j pos at lt h =
      let there : Resumes scope j (some pos) =
        subst (Resumes scope j) (sym (resume-position j 0 scope ordered) ∙ h)
          (position-Resumes j scope) in
      elim (Bool-cases (c == pos)) [
        | inl e ↦ absurd (omega (arith, same_step there.0 e there.1, there.2, lt))
        | inr e ↦ apart (not_behind c pos i there.0 at there.1 (omega (arith, there.2, lt))) e
      ]
    where
      same_step : (x : ℕ) → (c == pos) ≡ true → get_elem? scope pos ≡ some x → i ≡ x
      same_step x e q = let same : c ≡ pos = ground arith in ground arith

      apart : c ≤ pos → (c == pos) ≡ false → c < pos
      apart le e = ground arith

  abbrev Uses : ℕ → FlowDecision → RetryCounts → Type 0
  Uses m (FlowDecision.retry j site limit delay reference) counts =
      suc (left_of w.failure_actions w.steps (count_retry counts site) scope) ≡ m
  Uses m _ counts = Unit

  abbrev IsHere : ℕ → FlowDecision → Type 0
  IsHere i (FlowDecision.retry j site limit delay reference) = j ≡ i
  IsHere i _ = Unit

  retry-Uses :
      (c i : ℕ) (counts : RetryCounts) (s : Step) (flow : FlowDecision)
      → get_elem? scope c ≡ some i
      → get_elem? w.steps i ≡ some s
      → RetriesWithin (failure_list w.failure_actions s) i (counts i) flow
      → Uses (left_of w.failure_actions w.steps counts scope) flow counts × IsHere i flow
  retry-Uses c i counts s flow at elem (within k a delay reference at_k retries lt) = (
    left_of-used w.failure_actions w.steps counts i k 0 c scope s a ordered at elem at_k retries lt,
    refl,
  )

  by_flow-Settled :
      (n c i : ℕ) (counts : RetryCounts) (again : ℕ → RetryCounts → Exec W ScopeEnd)
      → get_elem? scope c ≡ some i
      → needed c counts < suc n
      → ((d : ℕ) (k : RetryCounts) → needed d k < n → Ensures Settled (again d k))
      → (flow : FlowDecision) → GoesAhead w i counts flow
      → Ensures Settled (by_flow r w scope recover call again counts flow)
  unfolding by_flow retried_at resumed
  by_flow-Settled n c i counts again at enough IH (FlowDecision.next j) h =
      elim (Option-cases (resume scope j)) [
        | inl e ↦ rw e (Ensures-pure stopped tt)
        | inr (pos, e) ↦ rw e (
            IH pos counts
              (omega (arith, resume-ahead c i j pos at h e, inside scope c i at, enough)))
      ]
  by_flow-Settled n c i counts again at enough IH (FlowDecision.retry j site limit delay reference)
        (s, elem, h) =
      elim (Option-cases (position (λ i. i == j) scope)) [
        | inl e ↦ rw e (Ensures-raise goto_target_not_found)
        | inr (pos, e) ↦ rw e (
            Ensures-then r.check_cancelled (
              Ensures-then (recovered r w scope recover call j reference) (
                Ensures-then
                  (r.emit_retry_scheduled j
                    (count_retry counts site site.step_index site.action_index) limit delay)
                  (Ensures-then r.check_cancelled
                    (IH pos (count_retry counts site) (fewer pos e))))))
      ]
    where
      fewer :
          (pos : ℕ)
          → position (λ i. i == j) scope ≡ some pos
          → needed pos (count_retry counts site) < n
      fewer pos e =
          let used =
            retry-Uses c i counts s (FlowDecision.retry j site limit delay reference) at elem h in
          let here =
            not_behind c pos i j at (position_found j scope pos e) (omega (arith, used.1)) in
          omega (arith, used.0, here, inside scope c i at, enough)
  by_flow-Settled n c i counts again at enough IH FlowDecision.done_flow h = Ensures-pure stopped tt
  by_flow-Settled n c i counts again at enough IH (FlowDecision.goto_workflow id inputs) h =
      Ensures-then r.check_cancelled (
        Ensures-seq r.own_inputs λ own.
          Ensures-seq (call id (unwrap_or own inputs))
            λ outputs. Ensures-pure (transferred outputs) tt)
  by_flow-Settled n c i counts again at enough IH (FlowDecision.error e) h = Ensures-raise e

  module _ (attempt : ℕ → RetryCounts → Exec W FlowDecision)
      (ahead : (c i : ℕ) (counts : RetryCounts)
        → get_elem? scope c ≡ some i
        → Ensures (GoesAhead w i counts) (attempt i counts)) where
    run_scope-Settled :
        (n c : ℕ) (counts : RetryCounts)
        → needed c counts < n
        → Ensures Settled (run_scope r w scope recover call attempt n c counts)
    unfolding run_scope attempt_at
    run_scope-Settled zero c counts enough = absurd (omega arith)
    run_scope-Settled (suc n) c counts enough =
        Ensures-then r.check_cancelled (elim (Option-cases (get_elem? scope c)) [
          | inl e ↦ rw e (Ensures-pure stopped tt)
          | inr (i, e) ↦ rw e (
              Ensures-bind (GoesAhead w i counts) (ahead c i counts e) λ flow h.
                Ensures-then r.check_cancelled (
                  by_flow-Settled n c i counts
                    (λ d k. run_scope r w scope recover call attempt n d k) e enough
                    (run_scope-Settled n) flow h))
        ])

module _ {W : Type 0} (r : Runner W) (step_outputs : String → Exec W Inputs) (w : Workflow) where
  attempted-ahead :
      (scope : List ℕ)
      → RoutesAhead r w scope (call_at_1 r step_outputs)
      → (c i : ℕ) (counts : RetryCounts) → get_elem? scope c ≡ some i
      → Ensures (GoesAhead w i counts) (attempted r step_outputs w i counts)
  unfolding attempted
  attempted-ahead scope ahead c i counts e =
      Ensures-then (r.begin_attempt w i) (Ensures-then r.check_cancelled (ahead c i counts e))

  -- If single-step execution selects steps for a step of the workflow, their attempts with all retries add up
  -- to less than `u128::MAX`, and every attempt of a selected step is routed to a later step of the workflow,
  -- to a retry of the step within the budget of its failure actions, or out of the loop, then the loop under
  -- its limit never ends for want of iterations, which would pass for a success, whatever the retry
  -- references and the workflow that it may transfer to do.
  pub run_scope-Settled_in_limit :
      (step_id : String) (no_deps : Bool) (target_idx : ℕ) (scope : List ℕ)
      → target_idx < length w.steps
      → selection w step_id no_deps target_idx ≡ ok scope
      → RoutesAhead r w scope (call_at_1 r step_outputs)
      → attempts_sum w.failure_actions (steps_at w.steps scope) < u128_max
      → Ensures Settled (
          run_scope r w scope
            (r.execute_retry_reference (call_at_1 r step_outputs) w)
            (call_at_1 r step_outputs)
            (attempted r step_outputs w)
            (compute_max_iterations (steps_at w.steps scope) w.failure_actions)
            0
            (λ i k. 0))
  run_scope-Settled_in_limit step_id no_deps target_idx scope there selects ahead fits =
      let (ordered, inside_all, some_left) =
        selection-IsScope w step_id target_idx there scope no_deps selects in
      run_scope-Settled r w scope ordered (r.execute_retry_reference (call_at_1 r step_outputs) w)
        (call_at_1 r step_outputs) (attempted r step_outputs w) (attempted-ahead scope ahead)
        (compute_max_iterations (steps_at w.steps scope) w.failure_actions) 0 (λ i k. 0)
        (omega (
          arith,
          compute_max_iterations_lem (steps_at w.steps scope) w.failure_actions,
          left_of-none w.failure_actions w.steps scope inside_all,
          some_left,
          fits,
        ))
