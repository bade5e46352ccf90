-- ===== src/Deps/Edges.antt =====
-- The edges between steps: which references of a step name a step of its workflow (deps.rs).
use Prim.Native.Char.{code}
use arazzo_cli.Base.{
  ℕ, ◌+◌, String, Bool, true, false, not, Option, none, some, List, [], ◌∷◌, ◌++◌, ◌==◌, length,
  get_elem?, if◌then◌else◌, str_eq,
}
use arazzo_cli.Spec.{
  OnAction, ValueSource, SuccessCriterion, Parameter, RequestBody, OutputValue, StepTarget, Step,
  Workflow, applicable_actions,
}
use arazzo_cli.Errors.{Result}
use arazzo_cli.Deps.IndexSet.{insert}
use arazzo_cli.Deps.Refs.{scan_step_refs, scan_value_source_refs}
use arazzo_cli.Deps.Levels.{levels_from, start}

-- Conditions and, where `contexts` says so, contexts.
unfoldable pub criteria_refs : (contexts : Bool) → List SuccessCriterion → List String
criteria_refs contexts [] = []
criteria_refs contexts (c ∷ rest) =
    scan_step_refs c.condition
    ++ ((if contexts then scan_step_refs c.context else []) ++ criteria_refs contexts rest)

unfoldable pub actions_refs : (contexts : Bool) → List OnAction → List String
unfolding criteria_refs
actions_refs contexts [] = []
actions_refs contexts (a ∷ rest) = criteria_refs contexts a.criteria ++ actions_refs contexts rest

-- `refs.remove(&step.step_id)`.
unfoldable pub without : String → List String → List String
without id [] = []
without id (r ∷ refs) = let rest = without id refs in if str_eq r id then rest else r ∷ rest

unfoldable pub routing_refs : Workflow → Step → List String
unfolding without actions_refs
routing_refs w s = without s.step_id (
    actions_refs true (applicable_actions s.on_success w.success_actions)
    ++ actions_refs true (applicable_actions s.on_failure w.failure_actions))

-- A dependency that is not empty and does not begin with `$`.
is_step_name : String → Bool
is_step_name String.[] = false
is_step_name (String.◌∷◌ c s) = not (code c == b'$')

unfoldable pub depends_on_refs : List String → List String
unfolding is_step_name
depends_on_refs [] = []
depends_on_refs (d ∷ rest) =
    let others = depends_on_refs rest in if is_step_name d then d ∷ others else others

unfoldable pub target_refs : Option StepTarget → List String
target_refs (some (StepTarget.operation_path p)) = scan_step_refs p
target_refs (some (StepTarget.operation_id id)) = scan_step_refs id
target_refs _ = []

unfoldable pub parameters_refs : List Parameter → List String
parameters_refs [] = []
parameters_refs (p ∷ rest) = scan_value_source_refs p.value ++ parameters_refs rest

payload_refs : Option ValueSource → List String
payload_refs none = []
payload_refs (some payload) = scan_value_source_refs payload

replacements_refs : List ValueSource → List String
replacements_refs [] = []
replacements_refs (v ∷ rest) = scan_value_source_refs v ++ replacements_refs rest

unfoldable pub body_refs : Option RequestBody → List String
unfolding payload_refs replacements_refs
body_refs none = []
body_refs (some body) = payload_refs body.payload ++ replacements_refs body.replacements

unfoldable pub outputs_refs : List OutputValue → List String
outputs_refs [] = []
outputs_refs (OutputValue.runtime_expression expression ∷ rest) =
    scan_step_refs expression ++ outputs_refs rest
outputs_refs (OutputValue.selected context ∷ rest) = scan_step_refs context ++ outputs_refs rest

unfoldable pub execution_refs : Step → List String
unfolding depends_on_refs target_refs parameters_refs body_refs outputs_refs
execution_refs s =
    depends_on_refs s.depends_on
    ++ (target_refs s.target
        ++ (parameters_refs s.parameters
            ++ (body_refs s.request_body
                ++ (criteria_refs true s.success_criteria ++ outputs_refs s.outputs))))

unfoldable pub extract_step_refs : Step → List String
unfolding execution_refs
extract_step_refs s =
    execution_refs s ++ (actions_refs false s.on_success ++ actions_refs false s.on_failure)

-- `step_id_to_index.get`: a later step overwrites an earlier one with its id.
unfoldable pub last_index : ℕ → List Step → String → Option ℕ
last_index idx [] id = none
last_index idx (s ∷ steps) id = elim (last_index (idx + 1) steps id) [
  | some found ↦ some found
  | none ↦ if str_eq s.step_id id then some idx else none
]

unfoldable pub with_dep : Option ℕ → List ℕ → List ℕ
with_dep none deps = deps
with_dep (some dep_idx) deps = insert dep_idx deps

unfoldable pub resolved : List Step → List String → List ℕ
unfolding last_index with_dep
resolved steps [] = []
resolved steps (r ∷ refs) = with_dep (last_index 0 steps r) (resolved steps refs)

unfoldable pub refs_at : Workflow → Option Step → List String
unfolding routing_refs
refs_at w none = []
refs_at w (some s) = routing_refs w s ++ execution_refs s

-- `deps[idx]`.
unfoldable pub dependencies : Workflow → ℕ → List ℕ
unfolding resolved refs_at
dependencies w idx = resolved w.steps (refs_at w (get_elem? w.steps idx))

-- The loop needs at most a round for each step.
unfoldable pub build_levels : Workflow → Option (Result (List (List ℕ)))
unfolding dependencies
build_levels w =
    levels_from (length w.steps) (length w.steps) (start (length w.steps) (dependencies w))
