-- ===== src/Deps/Transitive.antt =====
-- `compute_transitive_deps` of deps.rs: the steps that have to run before a single step.
pub mod Visits
pub mod Reachable
use arazzo_cli.Base.{
  ℕ, zero, suc, String, not, ◌&&◌, Option, none, some, List, [], ◌∷◌, ◌++◌, ◌==◌, length, get_elem?,
  if◌then◌else◌,
}
use arazzo_cli.Spec.{Step, Workflow}
use arazzo_cli.Errors.{Result, ok, err, step_not_found}
use arazzo_cli.Deps.IndexSet.{contains}
use arazzo_cli.Deps.Edges.{extract_step_refs, last_index, resolved}

unfoldable pub refs_of : Option Step → List String
unfolding extract_step_refs
refs_of none = []
refs_of (some s) = extract_step_refs s

-- The indices that a step's references name.
unfoldable pub references : Workflow → ℕ → List ℕ
unfolding refs_of
references w idx = resolved w.steps (refs_of (get_elem? w.steps idx))

-- `visited` and `queue`.
pub record Search : Type 0 where
  pub visited : List ℕ
  pub queue : List ℕ

-- The test and the two writes for one reference.
abbrev pub visit : ℕ → ℕ → Search → Search
visit target dep st =
    if not (dep == target) && not (contains dep st.visited)
    then record { visited = dep ∷ st.visited; queue = st.queue ++ (dep ∷ []) }
    else st

-- The loop over the references of the step that was taken off the queue.
abbrev pub visit_all : ℕ → List ℕ → Search → Search
visit_all target [] st = st
visit_all target (dep ∷ deps) st = visit_all target deps (visit target dep st)

-- `while let Some(idx) = queue.pop_front()`; `none` where the fuel would run out. A step enters
-- the queue once at most, so a round for each step is enough.
unfoldable pub search : (fuel : ℕ) → (ℕ → List ℕ) → ℕ → (visited queue : List ℕ) → Option (List ℕ)
search fuel refs target visited [] = some visited
search zero refs target visited (idx ∷ queue) = none
search (suc fuel) refs target visited (idx ∷ queue) =
    let st = visit_all target (refs idx) (record { visited = visited; queue = queue }) in
    search fuel refs target st.visited st.queue

found_all : Option (List ℕ) → Option (Result (List ℕ))
found_all none = none
found_all (some visited) = some (ok visited)

transitive_from : Workflow → Option ℕ → Option (Result (List ℕ))
unfolding references search found_all
transitive_from w none = some (err step_not_found)
transitive_from w (some target) =
    found_all (search (length w.steps) (references w) target [] (target ∷ []))

unfoldable pub compute_transitive_deps : Workflow → String → Option (Result (List ℕ))
unfolding transitive_from
compute_transitive_deps w target_step_id = transitive_from w (last_index 0 w.steps target_step_id)
