-- ===== src/Deps/Levels.antt =====
-- The grouping of steps into dependency levels: the loop of `build_levels` (deps.rs). The arrays
-- that the loop indexes by step are functions of the index; only indices below the number of
-- steps are read.
pub mod Sets
pub mod Count
pub mod Layered
use arazzo_cli.Base.{
  ℕ, zero, suc, ◌+◌, ◌-◌, Bool, true, false, length, not, ◌&&◌, ◌||◌, Option, none, some, List, [],
  ◌∷◌, ◌==◌, if◌then◌else◌,
}
use arazzo_cli.Errors.{Result, ok, err, dependency_cycle}
use arazzo_cli.Deps.IndexSet.{contains, remove}

-- The loop's variables, `levels` excepted.
pub record Work : Type 0 where
  pub deps : ℕ → List ℕ
  pub indegree : ℕ → ℕ
  pub assigned : ℕ → Bool
  pub remaining : ℕ

-- The body of `for idx in &level`.
abbrev pub release : Work → ℕ → Work
release st idx = record {
  deps = λ d. remove idx (st.deps d);
  indegree = λ d. if contains idx (st.deps d) then st.indegree d - 1 else st.indegree d;
  assigned = λ i. i == idx || st.assigned i;
  remaining = st.remaining - 1;
}

abbrev pub release_all : Work → List ℕ → Work
release_all st [] = st
release_all st (idx ∷ level) = release_all (release st idx) level

abbrev pub is_ready : Work → ℕ → Bool
is_ready st idx = not (st.assigned idx) && st.indegree idx == 0

-- `for idx in 0..workflow.steps.len()`, with `left` indices from `idx` on.
abbrev pub level_from : Work → (left idx : ℕ) → List ℕ
level_from st zero idx = []
level_from st (suc left) idx =
    let rest = level_from st left (idx + 1) in if is_ready st idx then idx ∷ rest else rest

abbrev pub with_level : List ℕ → Option (Result (List (List ℕ))) → Option (Result (List (List ℕ)))
with_level level (some (ok levels)) = some (ok (level ∷ levels))
with_level level (some (err e)) = some (err e)
with_level level none = none

abbrev pub is_nil : List ℕ → Bool
is_nil [] = true
is_nil (x ∷ xs) = false

-- `while remaining > 0`, from a state on; `none` where the fuel would run out. Every round but
-- the one that finds a cycle takes at least one from `remaining`, so `n` rounds are enough.
unfoldable pub levels_from : (fuel n : ℕ) → Work → Option (Result (List (List ℕ)))
levels_from zero n st = if st.remaining == 0 then some (ok []) else none
levels_from (suc fuel) n st =
    let level = level_from st n 0 in
    let rest = levels_from fuel n (release_all st level) in
    if st.remaining == 0
    then some (ok [])
    else if is_nil level
    then some (err dependency_cycle)
    else with_level level rest

abbrev pub start : ℕ → (ℕ → List ℕ) → Work
start n deps = record {
  deps = deps;
  indegree = λ d. length (deps d);
  assigned = λ i. false;
  remaining = n;
}
