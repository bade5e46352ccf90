-- ===== src/Tests/Levelling.antt =====
-- The theorems about dependency levels at a chain of two steps and at two steps in a circle.
use arazzo_cli.Base.{
  ℕ, zero, suc, ◌<◌, ◌≡◌, refl, ◌↔◌, All, true, false, none, some, [], ◌∷◌, arith,
}
use arazzo_cli.Spec.{Workflow}
use arazzo_cli.Errors.{err, ok, dependency_cycle}
use arazzo_cli.Deps.IndexSet.{contains}
use arazzo_cli.Deps.Edges.{execution_refs, dependencies, build_levels}
use arazzo_cli.Deps.Levels.{levels_from}
use arazzo_cli.Deps.Levels.Layered.{Levelled, Cyclic}
use arazzo_cli.Deps.Build.{build_levels-Levelled, build_levels-rejects}
use arazzo_cli.Deps.Blocker.{parallel_blocker}
use arazzo_cli.Deps.Blocker.Free.{IsPlain, StaysInPlace, parallel_blocker-none}
use arazzo_cli.Deps.Edges.{last_index}
use arazzo_cli.Deps.Transitive.{compute_transitive_deps}
use arazzo_cli.Deps.Transitive.Reachable.{Collected, compute_transitive_deps-Collected}
use arazzo_cli.Tests.{step_named, workflow_of, single}

abbrev chain : Workflow
chain = workflow_of (step_named "use" ("login" ∷ []) [] ∷ step_named "login" [] [] ∷ [])

abbrev circle : Workflow
circle = workflow_of (step_named "use" ("login" ∷ []) [] ∷ step_named "login" ("use" ∷ []) [] ∷ [])

levels_example : build_levels chain ≡ some (ok ((1 ∷ []) ∷ (0 ∷ []) ∷ []))
unfolding build_levels levels_from execution_refs
levels_example = refl

build_levels-Levelled_example : Levelled 2 (dependencies chain) (λ i. false) (build_levels chain)
build_levels-Levelled_example = build_levels-Levelled chain

depends_in_circle :
    (i : ℕ)
    → i < 2
    → true ≡ true
    → (x : ℕ) × (x < 2) × (true ≡ true) × (contains x (dependencies circle i) ≡ true)
unfolding dependencies execution_refs
depends_in_circle zero h is = (1, omega arith, refl, refl)
depends_in_circle (suc zero) h is = (0, omega arith, refl, refl)
depends_in_circle (suc (suc i)) h is = absurd (omega arith)

abbrev both_steps : Cyclic 2 (dependencies circle)
both_steps = record {
  member = λ i. true;
  one = 0;
  one_is = (omega arith, refl);
  depends = depends_in_circle;
}

build_levels-rejects_example : build_levels circle ≡ some (err dependency_cycle)
build_levels-rejects_example = build_levels-rejects circle both_steps

parallel_blocker-none_example : (parallel_blocker single ≡ none) ↔ (
    All StaysInPlace single.steps
    × ((single.success_actions ≡ []) × All IsPlain single.failure_actions))
parallel_blocker-none_example = parallel_blocker-none single

compute_transitive_deps-Collected_example :
    Collected chain (last_index 0 chain.steps "use") (compute_transitive_deps chain "use")
compute_transitive_deps-Collected_example = compute_transitive_deps-Collected chain "use"
