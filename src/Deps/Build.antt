-- ===== src/Deps/Build.antt =====
-- `build_levels` layers the steps of every workflow whose steps do not depend on one another in a
-- circle, and reports the circle otherwise.
use arazzo_cli.Base.{
  ℕ, suc, ◌+◌, ◌<◌, ◌≡◌, refl, ap, String, Bool, true, false, Option, none, some, List, [], ◌∷◌,
  ◌==◌, length, get_elem?, if◌then◌else◌, arith, str_eq, Option-cases, Bool-cases, inl, inr,
}
use arazzo_cli.Spec.{Step, Workflow}
use arazzo_cli.Errors.{Result, ok, err, dependency_cycle}
use arazzo_cli.Deps.IndexSet.{contains, insert, distinct, distinct-insert, contains-insert}
use arazzo_cli.Deps.Levels.Layered.{Cyclic, Levelled, levels-Levelled, Layered-acyclic}
use arazzo_cli.Deps.Edges.{last_index, resolved, dependencies, build_levels, with_dep, refs_at}

pub last_index-bound :
    (idx : ℕ) (steps : List Step) (id : String) (found : ℕ)
    → last_index idx steps id ≡ some found
    → found < idx + length steps
unfolding last_index
last_index-bound idx [] id found h = absurd (cc)
last_index-bound idx (s ∷ steps) id found h = elim (Option-cases (last_index (idx + 1) steps id)) [
  | inl none_later ↦ chosen (str_eq s.step_id id) (rw none_later at h)
  | inr (later, is_later) ↦ omega (
    arith,
    last_index-bound (idx + 1) steps id later is_later,
    some-injective later found (rw is_later at h),
  )
]
  where
    some-injective : (x y : ℕ) → (some x ≡ some y) → x ≡ y
    some-injective x y e = cc

    chosen :
        (b : Bool) → (if b then some idx else none) ≡ some found → found < idx + suc (length steps)
    chosen true e = omega (arith, some-injective idx found e)
    chosen false e = absurd (cc)

distinct-resolved : (steps : List Step) (refs : List String) → distinct (resolved steps refs) ≡ true
unfolding resolved with_dep
distinct-resolved steps [] = refl
distinct-resolved steps (r ∷ refs) = elim (Option-cases (last_index 0 steps r)) [
  | inl e ↦ rw e (distinct-resolved steps refs)
  | inr (found, e) ↦
      rw e (distinct-insert found (resolved steps refs) (distinct-resolved steps refs))
]

pub resolved-bound :
    (steps : List Step) (refs : List String) (x : ℕ)
    → contains x (resolved steps refs) ≡ true
    → x < length steps
unfolding resolved with_dep
resolved-bound steps [] x h = absurd (ground arith)
resolved-bound steps (r ∷ refs) x h = elim (Option-cases (last_index 0 steps r)) [
  | inl e ↦ resolved-bound steps refs x (rw e at h)
  | inr (found, e) ↦ elim (Bool-cases (x == found)) [
    | inl at_x ↦ rw (same found at_x) (omega (arith, last_index-bound 0 steps r found e))
    | inr off ↦ resolved-bound steps refs x (behind found off (rw e at h))
  ]
]
  where
    same : (found : ℕ) → (x == found) ≡ true → x ≡ found
    same found t = ground arith

    behind :
        (found : ℕ)
        → (x == found) ≡ false
        → contains x (insert found (resolved steps refs)) ≡ true
        → contains x (resolved steps refs) ≡ true
    behind found off is = let split = contains-insert x found (resolved steps refs) in ground arith

-- For every workflow, `build_levels` returns. Its levels hold each step exactly once, and what a
-- step depends on lies in earlier levels; or its error is a dependency cycle, and then there are
-- steps each of which depends on one of them.
pub build_levels-Levelled :
    (w : Workflow) → Levelled (length w.steps) (dependencies w) (λ i. false) (build_levels w)
unfolding build_levels dependencies
build_levels-Levelled w =
    levels-Levelled (length w.steps) (dependencies w)
      (λ d x h. resolved-bound w.steps (refs_at w (get_elem? w.steps d)) x h)
      (λ d. distinct-resolved w.steps (refs_at w (get_elem? w.steps d)))

-- If some steps of a workflow each depend on one of these steps, `build_levels` returns the
-- dependency cycle error.
pub build_levels-rejects :
    (w : Workflow)
    → Cyclic (length w.steps) (dependencies w)
    → build_levels w ≡ some (err dependency_cycle)
build_levels-rejects w c = by_outcome (build_levels w) (build_levels-Levelled w)
  where
    by_outcome :
        (r : Option (Result (List (List ℕ))))
        → Levelled (length w.steps) (dependencies w) (λ i. false) r
        → r ≡ some (err dependency_cycle)
    by_outcome none h = absurd h
    by_outcome (some (ok levels)) h = absurd (
        Layered-acyclic (length w.steps) (dependencies w) (λ i. false) levels c (λ i lt is. refl) h)
    by_outcome (some (err e)) (is_cycle, c') = ap (λ x. some (err x)) is_cycle
