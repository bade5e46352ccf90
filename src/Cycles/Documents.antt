-- ===== src/Cycles/Documents.antt =====
-- The searches among the steps and among the workflows of a document (step_dependencies.rs).
use arazzo_cli.Base.{
  ℕ, zero, suc, ◌+◌, ◌≤◌, ◌<◌, ◌≡◌, refl, subst, String, Bool, true, false, Option, none, some,
  List, [], ◌∷◌, ◌==◌, get_elem?, length, inl, inr, arith, if◌then◌else◌, Bool-cases, Option-cases,
  In, ltb, ltb→lt, ltb→ge, ==_iff, str_eq,
}
use arazzo_cli.Spec.{Step, Workflow}
use arazzo_cli.Deps.Edges.{last_index}
use arazzo_cli.Deps.Build.{last_index-bound}
use arazzo_cli.Cycles.{
  range_from, step_position, workflow_position, entries_of_steps, entries_of_workflows,
  local_step_depends_on_has_cycle, local_workflow_depends_on_has_cycle, last_workflow, found_in,
  local_of, classify_step_dependency,
}
use arazzo_cli.Invocation.Calls.{local_dependency}
use arazzo_cli.Cycles.Graph.{Leads, target_at, first}
use arazzo_cli.Cycles.Fuel.{get_elem-below}
use arazzo_cli.Cycles.Verdict.{
  Decides, Decides-iff, CycleFrom, Verdict-Decides, graph_has_cycle-Verdict,
}

In-range_from : (t i n : ℕ) → i ≤ t → t < i + n → In t (range_from i n)
In-range_from t i zero low high = absurd (omega arith)
In-range_from t i (suc n) low high = elim (Bool-cases (t == i)) [
  | inl same ↦ inl ((==_iff t i).0 same)
  | inr other ↦ inr (In-range_from t (suc i) n (beyond other) (omega arith))
]
  where
    beyond : (t == i) ≡ false → suc i ≤ t
    beyond other = ground arith

range_from-bound : (t i n : ℕ) → In t (range_from i n) → t < i + n
range_from-bound t i zero h = absurd h
range_from-bound t i (suc n) (inl same) = omega (arith, same)
range_from-bound t i (suc n) (inr later) = omega (arith, range_from-bound t (suc i) n later)

step_position-bound :
    (steps : List Step) (d : String) (t : ℕ) → step_position steps d ≡ some t → t < length steps
unfolding step_position
step_position-bound steps d t h = of_local (local_of (classify_step_dependency d)) h
  where
    of_local : (o : Option String) → found_in (last_index 0 steps) o ≡ some t → t < length steps
    of_local none e = absurd (cc)
    of_local (some id) e = omega (arith, last_index-bound 0 steps id t e)

-- A node with an edge is a step.
edge-inside :
    (steps : List Step) (t k x : ℕ)
    → target_at (entries_of_steps steps) (step_position steps) t k ≡ some x
    → t < length steps
edge-inside steps t k x h = elim (Option-cases (get_elem? steps t)) [
  | inl none_at ↦ absurd (no_entry (rw none_at at h))
  | inr (s, at) ↦ get_elem-below steps t s at
]
  where
    no_entry : none ≡ some x → ⊥
    no_entry e = absurd (cc)

-- For every workflow the search for cycles among its steps ends, and it finds one exactly when some step
-- leads back to itself through the local entries of `dependsOn`, each read as the last step with its id.
pub local_step_depends_on_has_cycle-Decides :
    (w : Workflow)
    → Decides
        (local_step_depends_on_has_cycle w)
        ((t : ℕ) × Leads (entries_of_steps w.steps) (step_position w.steps) t t)
unfolding local_step_depends_on_has_cycle
local_step_depends_on_has_cycle-Decides w =
    let n = length w.steps in
    let entries = entries_of_steps w.steps in
    let position = step_position w.steps in
    Decides-iff _ _ _
      (
        (λ p. (p.2.0, p.2.2)),
        (λ q.
            let e = first entries position q.0 q.0 q.1 in
            (
              q.0,
              In-range_from q.0 0 n (omega arith)
                  (omega (arith, edge-inside w.steps q.0 e.1.0 e.0 e.1.1)),
              (q.0, inl refl, q.1),
            )),
      )
      (Verdict-Decides entries position (range_from 0 n) _ (
        graph_has_cycle-Verdict entries position n (step_position-bound w.steps) (range_from 0 n)
          (λ s at. omega (arith, range_from-bound s 0 n at))))

last_workflow-bound :
    (idx : ℕ) (workflows : List Workflow) (id : String) (found : ℕ)
    → last_workflow idx workflows id ≡ some found
    → found < idx + length workflows
unfolding last_workflow
last_workflow-bound idx [] id found h = absurd (cc)
last_workflow-bound idx (w ∷ workflows) id found h =
    elim (Option-cases (last_workflow (suc idx) workflows id)) [
      | inl no_later ↦ chosen (str_eq w.workflow_id id) (rw no_later at h)
      | inr (later, is_later) ↦ omega (
        arith,
        last_workflow-bound (suc idx) workflows id later is_later,
        same later found (rw is_later at h),
      )
    ]
  where
    same : (x y : ℕ) → some x ≡ some y → x ≡ y
    same x y e = cc

    chosen :
        (b : Bool)
        → (if b then some idx else none) ≡ some found
        → found < idx + suc (length workflows)
    chosen true e = omega (arith, same idx found e)
    chosen false e = absurd (cc)

workflow_position-bound :
    (workflows : List Workflow) (d : String) (t : ℕ)
    → workflow_position workflows d ≡ some t
    → t < length workflows
unfolding workflow_position
workflow_position-bound workflows d t h = of_local (local_dependency d) h
  where
    of_local :
        (o : Option String) → found_in (last_workflow 0 workflows) o ≡ some t → t < length workflows
    of_local none e = absurd (cc)
    of_local (some id) e = omega (arith, last_workflow-bound 0 workflows id t e)

-- For any workflows and any index, the search from the workflow at that index ends, and it finds a cycle
-- exactly when there is such a workflow and, through local entries of `dependsOn`, it is or leads to a
-- workflow that leads back to itself.
pub local_workflow_depends_on_has_cycle-Decides :
    (workflows : List Workflow) (start : ℕ)
    → Decides (local_workflow_depends_on_has_cycle workflows start) (
        (start < length workflows)
        × CycleFrom (entries_of_workflows workflows) (workflow_position workflows) start)
unfolding local_workflow_depends_on_has_cycle
local_workflow_depends_on_has_cycle-Decides workflows start =
    elim (Bool-cases (ltb start (length workflows))) [
      | inr out ↦ rw out (
        false,
        refl,
        (
          (λ h. absurd (cc)),
          (λ p. absurd (omega (arith, p.0, ltb→ge start (length workflows) out))),
        ),
      )
      | inl inside ↦ rw inside (
          let entries = entries_of_workflows workflows in
          let position = workflow_position workflows in
          Decides-iff _ _ _
            (
              (λ p. (ltb→lt start (length workflows) inside, the_start p.0 p.1 p.2)),
              (λ q. (start, inl refl, q.1)),
            )
            (Verdict-Decides entries position (start ∷ []) _ (
              graph_has_cycle-Verdict entries position (length workflows)
                (workflow_position-bound workflows) (start ∷ []) (λ s at. inside_one inside s at))))
    ]
  where
    the_start :
        (x : ℕ)
        → In x (start ∷ [])
        → CycleFrom (entries_of_workflows workflows) (workflow_position workflows) x
        → CycleFrom (entries_of_workflows workflows) (workflow_position workflows) start
    the_start x (inl same) c =
        subst (CycleFrom (entries_of_workflows workflows) (workflow_position workflows)) same c
    the_start x (inr none_more) c = absurd none_more

    inside_one :
        ltb start (length workflows) ≡ true → (s : ℕ) → In s (start ∷ []) → s < length workflows
    inside_one inside s (inl same) = omega (arith, same, ltb→lt start (length workflows) inside)
    inside_one inside s (inr none_more) = absurd none_more
