-- ===== src/Tests/Cyclic.antt =====
-- The searches for cycles at small documents.
use arazzo_cli.Base.{ℕ, ◌≡◌, refl, true, false, some, [], ◌∷◌, ◌<◌, length}
use arazzo_cli.Spec.{Workflow}
use arazzo_cli.Cycles.{
  local_step_depends_on_has_cycle, local_workflow_depends_on_has_cycle, entries_of_steps,
  entries_of_workflows, step_position, workflow_position, classify_step_dependency, external_source,
}
use arazzo_cli.Cycles.Graph.{Leads}
use arazzo_cli.Cycles.Verdict.{Decides, CycleFrom}
use arazzo_cli.Cycles.Documents.{
  local_step_depends_on_has_cycle-Decides, local_workflow_depends_on_has_cycle-Decides,
}
use arazzo_cli.Tests.{step_named, workflow_of}

-- The first step depends on the second and the second on both.
abbrev tangled : Workflow
tangled =
    workflow_of (step_named "a" ("b" ∷ []) [] ∷ step_named "b" ("$other" ∷ "a" ∷ "b" ∷ []) [] ∷ [])

tangled_run : local_step_depends_on_has_cycle tangled ≡ some true
unfolding local_step_depends_on_has_cycle
tangled_run = refl

straight_run :
    local_step_depends_on_has_cycle
      (workflow_of (step_named "a" [] [] ∷ step_named "b" ("a" ∷ []) [] ∷ []))
    ≡ some false
unfolding local_step_depends_on_has_cycle
straight_run = refl

classify_step_dependency_run :
    classify_step_dependency "$sourceDescriptions.shop.buy.steps.pay" ≡ external_source
unfolding classify_step_dependency
classify_step_dependency_run = refl

local_step_depends_on_has_cycle-Decides_example :
    Decides
      (local_step_depends_on_has_cycle tangled)
      ((t : ℕ) × Leads (entries_of_steps tangled.steps) (step_position tangled.steps) t t)
local_step_depends_on_has_cycle-Decides_example = local_step_depends_on_has_cycle-Decides tangled

local_workflow_depends_on_has_cycle-Decides_example :
    Decides (local_workflow_depends_on_has_cycle (tangled ∷ []) 0) (
      (0 < length (tangled ∷ []))
      × CycleFrom (entries_of_workflows (tangled ∷ [])) (workflow_position (tangled ∷ [])) 0)
local_workflow_depends_on_has_cycle-Decides_example =
    local_workflow_depends_on_has_cycle-Decides (tangled ∷ []) 0
