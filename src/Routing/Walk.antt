-- ===== src/Routing/Walk.antt =====
-- The failure loop of `handle_step_result` (engine_actions.rs) is one walk over the actions, and
-- it ends.
use native.Mathlib.Nat.{suc-add}
use mathlib.Core.List.{tail, head?}
use arazzo_cli.Base.{
  ℕ, zero, suc, ◌+◌, ◌<◌, ◌≡◌, refl, sym, ap, true, inl, inr, Option, none, some, List, [], ◌∷◌,
  drop, get_elem?, length, arith, Bool-cases, subst,
}
use arazzo_cli.Spec.{OnAction}
use arazzo_cli.Env.{Env, M, failure}
use arazzo_cli.Env.Interrupts.{Refines, Refines-bind, Refines-then, Refines-pure, Refines-check}
use arazzo_cli.Routing.Decision.{
  Evaluator, RoutedDecision, ExhaustedRetry, MatchedAction, ActionExecution, routed,
  retry_exhausted,
}
use arazzo_cli.Routing.Reference.{first_matching, execution, walk, Settles, Executes, all_matched}
use arazzo_cli.Routing.Selects.{find-Refines}
use arazzo_cli.Routing.Execute.Agrees.{execute-Refines}
use arazzo_cli.Routing.Handle.{
  StepDecisionContext, no_action_left, execute_context, failure_actions_of, failure_executed,
  failure_selected, route_failure,
}

pub drop-suc {ℓ} :
    {A : Type ℓ} (i : ℕ) (l : List A) {x : A} {rest : List A}
    → drop i l ≡ x ∷ rest
    → drop (i + 1) l ≡ rest
drop-suc zero [] e = absurd (cc)
drop-suc zero (y ∷ l) e = ap tail e
drop-suc (suc i) [] e = absurd (cc)
drop-suc (suc i) (y ∷ l) e = rw suc-add (drop-suc i l e)

pub get_elem?_of_drop {ℓ} :
    {A : Type ℓ} (i : ℕ) (l : List A) {x : A} {rest : List A}
    → drop i l ≡ x ∷ rest
    → get_elem? l i ≡ some x
get_elem?_of_drop zero [] e = absurd (cc)
get_elem?_of_drop zero (y ∷ l) e = ap head? e
get_elem?_of_drop (suc i) [] e = absurd (cc)
get_elem?_of_drop (suc i) (y ∷ l) e = get_elem?_of_drop i l e

module _ (ev : Evaluator) (ctx : StepDecisionContext) where
  -- What the walk does with an execution, and from a selected action on.
  continue : ActionExecution → ℕ → List OnAction → RoutedDecision
  continue (routed d) i l = d
  continue (retry_exhausted x) i l = walk ev ctx i l (some x)

  after : List OnAction → MatchedAction → RoutedDecision
  unfolding continue
  after actions m =
      continue (execution (execute_context ctx true m.index) ev m.action) (m.index + 1)
        (drop (m.index + 1) actions)

  walk_step :
      (i : ℕ) (a : OnAction) (l : List OnAction) (left : Option ExhaustedRetry)
      → all_matched ev a.criteria ≡ true
      → walk ev ctx i (a ∷ l) left
        ≡ continue (execution (execute_context ctx true i) ev a) (i + 1) l
  unfolding walk continue
  walk_step i a l left hit = rw hit (by_execution (execution (execute_context ctx true i) ev a))
    where
      by_execution :
          (x : ActionExecution)
          → (elim x [ routed d ↦ d | retry_exhausted y ↦ walk ev ctx (i + 1) l (some y) ])
            ≡ continue x (i + 1) l
      by_execution (routed d) = refl
      by_execution (retry_exhausted y) = refl

  walk_miss :
      (i : ℕ) (l : List OnAction) (left : Option ExhaustedRetry)
      → first_matching ev i l ≡ none
      → walk ev ctx i l left ≡ no_action_left ctx.result left
  unfolding first_matching walk
  walk_miss i [] left h = refl
  walk_miss i (a ∷ l) left h = elim (Bool-cases (all_matched ev a.criteria)) [
    | inl hit ↦ absurd (ground arith)
    | inr miss ↦ rw (miss) (walk_miss (i + 1) l left (rw miss at h))
  ]

  first_matching_hit :
      (i : ℕ) (a : OnAction) (l : List OnAction) (m : MatchedAction)
      → all_matched ev a.criteria ≡ true
      → first_matching ev i (a ∷ l) ≡ some m
      → ◌≡◌ {A = MatchedAction} (record { index = i; action = a }) m
  unfolding first_matching
  first_matching_hit i a l m hit h = ground arith

  walk_hit :
      (actions : List OnAction) (i : ℕ) (l : List OnAction) (left : Option ExhaustedRetry)
      (m : MatchedAction)
      → drop i actions ≡ l
      → first_matching ev i l ≡ some m
      → (walk ev ctx i l left ≡ after actions m) × (length (drop (m.index + 1) actions) < length l)
  unfolding first_matching walk after
  walk_hit actions i [] left m at_i h = absurd (cc)
  walk_hit actions i (a ∷ l) left m at_i h = elim (Bool-cases (all_matched ev a.criteria)) [
    | inl hit ↦
        subst
          (λ k.
            (walk ev ctx i (a ∷ l) left ≡ after actions k)
            × (length (drop (k.index + 1) actions) < length (a ∷ l)))
          (first_matching_hit i a l m hit h)
          (
            rw (drop-suc i actions at_i) (walk_step i a l left hit),
            rw (drop-suc i actions at_i) (omega arith),
          )
    | inr miss ↦
        let (same, fewer) =
          walk_hit actions (i + 1) l left m (drop-suc i actions at_i) (rw miss at h) in
        (rw miss same, omega arith)
  ]

module _ (env : Env) (ev : Evaluator) (ctx : StepDecisionContext) where
  -- A round of the loop on an executed action, given how the loop goes on behind it.
  executed-Refines :
      (again : ExhaustedRetry → M RoutedDecision) (i : ℕ) (l : List OnAction)
      (x y : ActionExecution)
      → Executes env y x
      → ((left : ExhaustedRetry)
          → Refines env (Settles env (walk ev ctx i l (some left))) (again left))
      → Refines env (Settles env (continue ev ctx y i l)) (failure_executed env ev ctx again x)
  unfolding failure_executed continue
  executed-Refines again i l x y (inl e) more = rw e (same y)
    where
      same :
          (z : ActionExecution)
          → Refines env (Settles env (continue ev ctx z i l)) (failure_executed env ev ctx again z)
      same (routed d) = Refines-pure d (inl refl)
      same (retry_exhausted left) = more left
  executed-Refines again i l x y (inr (d, e, is_d, flow, why)) more =
      rw is_d (Refines-pure d (inr (e, flow, why)))

  abbrev actions : List OnAction
  actions = failure_actions_of ctx

  selected-Refines :
      (again : ℕ → ExhaustedRetry → M RoutedDecision) (next : ℕ) (left : Option ExhaustedRetry)
      (r : Option MatchedAction)
      → r ≡ first_matching ev next (drop next actions)
      → ((i : ℕ) (x : ExhaustedRetry)
          → length (drop i actions) < length (drop next actions)
          → Refines env (Settles env (walk ev ctx i (drop i actions) (some x))) (again i x))
      → Refines env
          (Settles env (walk ev ctx next (drop next actions) left))
          (failure_selected env ev ctx again left r)
  unfolding failure_selected after
  selected-Refines again next left none e more =
      Refines-pure _ (inl (sym (walk_miss ev ctx next (drop next actions) left (sym e))))
  selected-Refines again next left (some m) e more =
      let (same, fewer) = walk_hit ev ctx actions next (drop next actions) left m refl (sym e) in
      let expected = execution (execute_context ctx true m.index) ev m.action in
      rw same (
        Refines-bind (Executes env expected)
          (execute-Refines env failure (execute_context ctx true m.index) ev m.action)
          λ x h. Refines-then (Refines-check env) (
            executed-Refines (again (m.index + 1)) (m.index + 1) (drop (m.index + 1) actions) x
              expected h λ left'. more (m.index + 1) left' fewer))

  -- With fuel for every action that is left, the loop ends in the walk's decision.
  pub route_failure-Refines :
      (fuel next : ℕ) (left : Option ExhaustedRetry)
      → length (drop next actions) < fuel
      → Refines env
          (Settles env (walk ev ctx next (drop next actions) left))
          (route_failure env ev ctx fuel next left)
  unfolding route_failure
  route_failure-Refines zero next left h = absurd (omega arith)
  route_failure-Refines (suc fuel) next left h = Refines-then (Refines-check env) (
      Refines-bind (λ r. r ≡ first_matching ev next (drop next actions))
        (find-Refines env ev failure actions next)
        λ r e. Refines-then (Refines-check env) (
          selected-Refines (λ i x. route_failure env ev ctx fuel i (some x)) next left r e
            λ i x fewer. route_failure-Refines fuel i (some x) (omega arith)))
