-- ===== src/Cycles.antt =====
-- crates/arazzo-validate/src/step_dependencies.rs: the classification of `dependsOn` entries of a
-- step, and the search for cycles among the steps or the workflows of a document.
pub mod Graph
pub mod Fuel
pub mod Progress
pub mod Verdict
pub mod Documents
pub mod Walk
pub mod Marks
use Prim.Native.Char.{code}
use arazzo_cli.Base.{
  ℕ, zero, suc, ◌+◌, String, Bool, true, false, not, ◌&&◌, Option, none, some, List, [], ◌∷◌, ◌==◌,
  ltb, length, get_elem?, is_empty, str_eq, if◌then◌else◌,
}
use arazzo_cli.Spec.{Step, Workflow}
use arazzo_cli.Deps.Edges.{last_index}
use arazzo_cli.Invocation.Calls.{local_dependency}

pub data StepDependency : Type 0 where
  local : String → StepDependency
  cross_workflow external_source invalid : StepDependency

-- `value.split('.')`: the parts between dots, at least one.
split_dots : String → List String
split_dots String.[] = String.[] ∷ []
split_dots (String.◌∷◌ c rest) =
    let parts = split_dots rest in if code c == 46 then String.[] ∷ parts else on_first parts
  where
    on_first : List String → List String
    on_first [] = String.◌∷◌ c String.[] ∷ []
    on_first (part ∷ parts) = String.◌∷◌ c part ∷ parts

-- The slice patterns with their guards.
classify_parts : List String → StepDependency
classify_parts (root ∷ workflow_id ∷ steps ∷ step_id ∷ []) =
    if (str_eq root "$workflows" && str_eq steps "steps")
      && (not (is_empty workflow_id) && not (is_empty step_id))
    then cross_workflow
    else invalid
classify_parts (root ∷ source_name ∷ workflow_id ∷ steps ∷ step_id ∷ []) =
    if (str_eq root "$sourceDescriptions" && str_eq steps "steps")
      && (not (is_empty source_name) && (not (is_empty workflow_id) && not (is_empty step_id)))
    then external_source
    else invalid
classify_parts _ = invalid

unfoldable pub classify_step_dependency : String → StepDependency
unfolding split_dots classify_parts
classify_step_dependency String.[] = invalid
classify_step_dependency (String.◌∷◌ c rest) =
    if code c == 36
    then classify_parts (split_dots (String.◌∷◌ c rest))
    else local (String.◌∷◌ c rest)

-- `IN_PROGRESS`, `DONE` and zero.
pub data Mark : Type 0 where
  unvisited in_progress finished : Mark

-- A frame is a node and the index of its next entry; the top of the stack is the head.
abbrev pub Stack : Type 0
Stack = List (ℕ × ℕ)

abbrev pub marked : ℕ → Mark → (ℕ → Mark) → ℕ → Mark
marked i m states j = if j == i then m else states j

-- How the walk from one start ends; `out_of_fuel` where the rounds would run out.
pub data Walked : Type 0 where
  cycle_found out_of_fuel : Walked
  walked : (ℕ → Mark) → Walked

-- A round for each node and for each of its entries.
abbrev pub rounds : (ℕ → List String) → ℕ → ℕ
rounds depends_on zero = 0
rounds depends_on (suc n) = suc (length (depends_on n)) + rounds depends_on n

module _ (depends_on : ℕ → List String) (resolve : String → Option ℕ) where
  -- What an entry leads to, which is nothing where it is skipped.
  abbrev pub target_of : Option String → Option ℕ
  target_of none = none
  target_of (some dependency) = resolve dependency

  module _ (again : (ℕ → Mark) → Stack → Walked) (states : ℕ → Mark) (index cursor : ℕ)
      (rest : Stack) where
    abbrev advanced : Stack
    advanced = (index, suc cursor) ∷ rest

    -- The `match` on the state of the target.
    abbrev pub at_target : ℕ → Mark → Walked
    at_target target in_progress = cycle_found
    at_target target finished = again states advanced
    at_target target unvisited = again (marked target in_progress states) ((target, 0) ∷ advanced)

    abbrev pub resolved_to : Option ℕ → Walked
    resolved_to none = again states advanced
    resolved_to (some target) = at_target target (states target)

    abbrev pub at_entry : Option String → Walked
    at_entry none = again (marked index finished states) rest
    at_entry (some dependency) = resolved_to (resolve dependency)

  -- `while let Some(&(index, cursor)) = stack.last()`.
  unfoldable pub walk : (fuel : ℕ) → (ℕ → Mark) → Stack → Walked
  walk fuel states [] = walked states
  walk zero states (frame ∷ rest) = out_of_fuel
  walk (suc fuel) states ((index, cursor) ∷ rest) =
      at_entry (walk fuel) states index cursor rest (get_elem? (depends_on index) cursor)

  abbrev pub after_walk : ((ℕ → Mark) → Option Bool) → Walked → Option Bool
  after_walk next cycle_found = some true
  after_walk next out_of_fuel = none
  after_walk next (walked final) = next final

  -- The loop over the starts, whose walks have `fuel` rounds each; `none` where one runs out.
  unfoldable pub from_start :
      (fuel : ℕ) → ((ℕ → Mark) → Option Bool) → (ℕ → Mark) → ℕ → Mark → Option Bool
  unfolding walk
  from_start fuel next states start in_progress = some true
  from_start fuel next states start finished = next states
  from_start fuel next states start unvisited =
      after_walk next (walk fuel (marked start in_progress states) ((start, 0) ∷ []))

  unfoldable pub search_starts : (fuel : ℕ) → List ℕ → (ℕ → Mark) → Option Bool
  unfolding from_start
  search_starts fuel [] states = some false
  search_starts fuel (start ∷ starts) states =
      from_start fuel (search_starts fuel starts) states start (states start)

  unfoldable pub graph_has_cycle : (node_count : ℕ) → List ℕ → Option Bool
  unfolding search_starts
  graph_has_cycle node_count starts =
      search_starts (rounds depends_on node_count) starts (λ i. unvisited)

abbrev pub local_of : StepDependency → Option String
local_of (local id) = some id
local_of _ = none

abbrev pub found_in : (String → Option ℕ) → Option String → Option ℕ
found_in position none = none
found_in position (some id) = position id

abbrev pub step_entries : Option Step → List String
step_entries none = []
step_entries (some s) = s.depends_on

abbrev pub workflow_entries : Option Workflow → List String
workflow_entries none = []
workflow_entries (some w) = w.depends_on

-- The node that an entry of a step names: the last step with that id.
unfoldable pub step_position : List Step → String → Option ℕ
unfolding classify_step_dependency last_index
step_position steps dependency =
    found_in (last_index 0 steps) (local_of (classify_step_dependency dependency))

abbrev pub later_or : Option ℕ → Option ℕ → Option ℕ
later_or (some found) this = some found
later_or none this = this

-- `positions` of the workflows: a later one overwrites an earlier one with its id.
unfoldable pub last_workflow : ℕ → List Workflow → String → Option ℕ
last_workflow idx [] id = none
last_workflow idx (w ∷ workflows) id =
    later_or (last_workflow (suc idx) workflows id)
      (if str_eq w.workflow_id id then some idx else none)

unfoldable pub workflow_position : List Workflow → String → Option ℕ
unfolding last_workflow local_dependency
workflow_position workflows dependency =
    found_in (last_workflow 0 workflows) (local_dependency dependency)

-- `0..n`, from an index on.
abbrev pub range_from : ℕ → ℕ → List ℕ
range_from i zero = []
range_from i (suc n) = i ∷ range_from (suc i) n

abbrev pub entries_of_steps : List Step → ℕ → List String
entries_of_steps steps i = step_entries (get_elem? steps i)

abbrev pub entries_of_workflows : List Workflow → ℕ → List String
entries_of_workflows workflows i = workflow_entries (get_elem? workflows i)

unfoldable pub local_step_depends_on_has_cycle : Workflow → Option Bool
unfolding graph_has_cycle step_position
local_step_depends_on_has_cycle w =
    graph_has_cycle (entries_of_steps w.steps) (step_position w.steps) (length w.steps)
      (range_from 0 (length w.steps))

unfoldable pub local_workflow_depends_on_has_cycle : List Workflow → ℕ → Option Bool
unfolding graph_has_cycle workflow_position
local_workflow_depends_on_has_cycle workflows start =
    if ltb start (length workflows)
    then graph_has_cycle (entries_of_workflows workflows) (workflow_position workflows)
        (length workflows) (start ∷ [])
    else some false
