-- ===== src/Selected/Closure.antt =====
-- What single-step execution selects (`execute_step_inner` of engine_impl.rs).
use arazzo_cli.Base.{
  ℕ, zero, suc, ◌+◌, ◌≤◌, ◌<◌, ◌≡◌, ◌≢◌, sym, subst, Bool, false, true, Option, none, some, List,
  [], ◌∷◌, length, get_elem?, arith, String, All, Bool-cases, inl, inr,
}
use arazzo_cli.Spec.{Step, Workflow}
use arazzo_cli.Deps.IndexSet.{contains, insert, contains-insert}
use arazzo_cli.Deps.Edges.{extract_step_refs, without}
use arazzo_cli.Deps.Transitive.{compute_transitive_deps}
use arazzo_cli.Errors.{Result, ok, err}
use arazzo_cli.Selected.{alone, alone_unless, closure, selection, ascending}
use arazzo_cli.Selected.Scope.{Ascending, ascending-Ascending}

-- A selection that succeeds: steps of the workflow in ascending order, at least one.
abbrev pub IsScope : Workflow → List ℕ → Type 0
IsScope w scope = Ascending 0 scope × All (λ i. i < length w.steps) scope × (0 < length scope)

ascending-All : (set : List ℕ) (i n len : ℕ) → i + n ≤ len → All (λ x. x < len) (ascending set i n)
ascending-All set i zero len le = tt
ascending-All set i (suc n) len le = elim (Bool-cases (contains i set)) [
  | inl h ↦ rw h (omega arith, ascending-All set (suc i) n len (omega arith))
  | inr h ↦ rw h (ascending-All set (suc i) n len (omega arith))
]

ascending-holds :
    (set : List ℕ) (i n x : ℕ)
    → contains x set ≡ true
    → i ≤ x
    → x < i + n
    → 0 < length (ascending set i n)
ascending-holds set i zero x c le lt = absurd (omega arith)
ascending-holds set i (suc n) x c le lt = elim (Bool-cases (contains i set)) [
  | inl h ↦ rw h (omega arith)
  | inr h ↦ rw h (ascending-holds set (suc i) n x c (behind (λ e. absurd (cc))) (omega arith))
]
  where
    behind : i ≢ x → suc i ≤ x
    behind ne = omega (arith, ne, le)

module _ (w : Workflow) (step_id : String) (target_idx : ℕ) (there : target_idx < length w.steps)
    (scope : List ℕ) where
  alone_unless-IsScope :
      (deps : List String) → alone_unless target_idx deps ≡ ok scope → IsScope w scope
  alone_unless-IsScope [] h = rw (sym (ok_scope h)) ((omega arith, tt), (there, tt), omega arith)
    where
      ok_scope : ok (target_idx ∷ []) ≡ ok scope → target_idx ∷ [] ≡ scope
      ok_scope e = cc
  alone_unless-IsScope (dep ∷ deps) h = absurd (cc)

  alone-IsScope : (o : Option Step) → alone step_id target_idx o ≡ ok scope → IsScope w scope
  alone-IsScope none h = absurd (cc)
  alone-IsScope (some s) h = alone_unless-IsScope (without step_id (extract_step_refs s)) h

  closure-IsScope :
      (o : Option (Result (List ℕ))) → closure w target_idx o ≡ ok scope → IsScope w scope
  closure-IsScope none h = absurd (cc)
  closure-IsScope (some (err e)) h = absurd (cc)
  closure-IsScope (some (ok deps)) h =
      let set = insert target_idx deps in
      let same : ascending set 0 (length w.steps) ≡ scope = cc in
      subst (IsScope w) same (
        ascending-Ascending set 0 (length w.steps),
        ascending-All set 0 (length w.steps) (length w.steps) (omega arith),
        ascending-holds set 0 (length w.steps) target_idx (held deps) (omega arith)
            (omega (arith, there)),
      )
    where
      held : (deps : List ℕ) → contains target_idx (insert target_idx deps) ≡ true
      held deps = rw (contains-insert target_idx target_idx deps) ground arith

  pub selection-IsScope :
      (no_deps : Bool) → selection w step_id no_deps target_idx ≡ ok scope → IsScope w scope
  unfolding selection
  selection-IsScope true h = alone-IsScope (get_elem? w.steps target_idx) h
  selection-IsScope false h = closure-IsScope (compute_transitive_deps w step_id) h
