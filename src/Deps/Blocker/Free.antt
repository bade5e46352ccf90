-- ===== src/Deps/Blocker/Free.antt =====
-- A workflow without a parallel blocker (deps.rs) has nothing but plain retries.
use arazzo_cli.Base.{
  ◌≡◌, refl, String, true, Option, none, some, List, [], ◌∷◌, All, ◌↔◌, Bool-cases, inl, inr,
}
use arazzo_cli.Spec.{OnAction, StepTarget, Step, Workflow, is_plain_retry}
use arazzo_cli.Env.{success, failure}
use arazzo_cli.Deps.Blocker.{
  ParallelBlocker, blocks, action_list_blocker, or_else, target_blocker, step_blocker,
  steps_blocker, parallel_blocker,
}

abbrev pub IsNotWorkflow : Option StepTarget → Type 0
IsNotWorkflow (some (StepTarget.workflow_target id)) = ⊥
IsNotWorkflow _ = Unit

abbrev pub IsPlain : OnAction → Type 0
IsPlain a = is_plain_retry a ≡ true

-- The step calls no workflow, has no success action, and every failure action is a plain retry.
abbrev pub StaysInPlace : Step → Type 0
StaysInPlace s = IsNotWorkflow s.target × ((s.on_success ≡ []) × All IsPlain s.on_failure)

or_else-none :
    {P Q : Type 0} (a b : Option ParallelBlocker)
    → ((a ≡ none) ↔ P)
    → ((b ≡ none) ↔ Q)
    → (or_else a b ≡ none) ↔ (P × Q)
or_else-none none b p q = (λ h. (p.0 refl, q.0 h), λ (h, k). q.1 k)
or_else-none (some x) b p q = (λ h. absurd (cc), λ (h, k). p.1 h)

target-none : (id : String) (t : Option StepTarget) → (target_blocker id t ≡ none) ↔ IsNotWorkflow t
target-none id none = (λ h. tt, λ h. refl)
target-none id (some (StepTarget.workflow_target x)) = (λ h. absurd (cc), λ h. absurd h)
target-none id (some (StepTarget.operation_id x)) = (λ h. tt, λ h. refl)
target-none id (some (StepTarget.operation_path x)) = (λ h. tt, λ h. refl)
target-none id (some (StepTarget.channel_path x)) = (λ h. tt, λ h. refl)

success-none :
    (id : String) (l : List OnAction) → (action_list_blocker success id l ≡ none) ↔ (l ≡ [])
unfolding action_list_blocker blocks
success-none id [] = (λ h. refl, λ h. refl)
success-none id (a ∷ l) = (λ h. absurd (cc), λ h. absurd (cc))

failure-none :
    (id : String) (l : List OnAction) → (action_list_blocker failure id l ≡ none) ↔ All IsPlain l
unfolding action_list_blocker blocks
failure-none id [] = (λ h. tt, λ h. refl)
failure-none id (a ∷ l) = elim (Bool-cases (is_plain_retry a)) [
  | inl e ↦ rw e (λ h. (refl, (failure-none id l).0 h), λ (p, q). (failure-none id l).1 q)
  | inr e ↦ rw e (λ h. absurd (cc), λ (p, q). absurd (cc))
]

step-none : (s : Step) → (step_blocker s ≡ none) ↔ StaysInPlace s
unfolding step_blocker
step-none s =
    or_else-none _ _ (target-none s.step_id s.target)
      (or_else-none _ _ (success-none s.step_id s.on_success) (failure-none s.step_id s.on_failure))

steps-none : (l : List Step) → (steps_blocker l ≡ none) ↔ All StaysInPlace l
unfolding steps_blocker
steps-none [] = (λ h. tt, λ h. refl)
steps-none (s ∷ l) = or_else-none _ _ (step-none s) (steps-none l)

-- `parallel_blocker` lets exactly those workflows run in parallel levels in which every step stays
-- in place and the workflow's own lists hold plain retries only.
pub parallel_blocker-none :
    (w : Workflow)
    → (parallel_blocker w ≡ none)
      ↔ (All StaysInPlace w.steps × ((w.success_actions ≡ []) × All IsPlain w.failure_actions))
unfolding parallel_blocker
parallel_blocker-none w =
    or_else-none _ _ (steps-none w.steps)
      (or_else-none _ _ (success-none "" w.success_actions) (failure-none "" w.failure_actions))
