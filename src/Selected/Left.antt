-- ===== src/Selected/Left.antt =====
-- The retries that are left at the steps that single-step execution has selected, and the order of
-- those steps (`execute_step_inner` of engine_impl.rs).
use arazzo_cli.Base.{
  length, All, ℕ, zero, suc, ◌+◌, ◌≤◌, ◌<◌, ◌≡◌, ◌≢◌, refl, Option, none, some, List, [], ◌∷◌,
  get_elem?, arith,
}
use arazzo_cli.Spec.{ActionType, OnAction, Step, action_type}
use arazzo_cli.Routing.Decision.{RetryCounts, effective_retry_limit}
use arazzo_cli.Budget.{count_retry, failure_list}
use arazzo_cli.Budget.Sums.{attempts_sum, budget_sum}
use arazzo_cli.Budget.Left.{left_at, left_in-used, left_at-other_step}
use arazzo_cli.Selected.{steps_at}
use arazzo_cli.Selected.Scope.{Ascending}

at_or_behind :
    (low c i : ℕ) (scope : List ℕ) → Ascending low scope → get_elem? scope c ≡ some i → low ≤ i
at_or_behind low c i [] h e = absurd (cc)
at_or_behind low zero i (x ∷ scope) h e = let same : x ≡ i = cc in omega (arith, h.0, same)
at_or_behind low (suc c) i (x ∷ scope) h e =
    let rest = at_or_behind (suc x) c i scope h.1 e in omega (arith, rest, h.0)

module _ (actions : List OnAction) (steps : List Step) where
  abbrev pub left_here : RetryCounts → ℕ → Option Step → ℕ
  left_here counts i none = 0
  left_here counts i (some s) = left_at (counts i) 0 (failure_list actions s)

  -- The retries left at the steps of a scope.
  abbrev pub left_of : RetryCounts → List ℕ → ℕ
  left_of counts [] = 0
  left_of counts (i ∷ scope) = left_here counts i (get_elem? steps i) + left_of counts scope

  module _ (counts : RetryCounts) (i k : ℕ) where
    abbrev counted : RetryCounts
    counted = count_retry counts (record { step_index = i; action_index = k })

    left_here-other_step :
        (b : ℕ) (o : Option Step) → b ≢ i → left_here counted b o ≡ left_here counts b o
    left_here-other_step b none h = refl
    left_here-other_step b (some s) h =
        left_at-other_step actions counts i k b h 0 (failure_list actions s)

    left_of-behind :
        (low : ℕ) (scope : List ℕ)
        → i < low
        → Ascending low scope
        → left_of counted scope ≡ left_of counts scope
    left_of-behind low [] lt h = refl
    left_of-behind low (x ∷ scope) lt h = rw (
      left_here-other_step x (get_elem? steps x) (λ e. omega (arith, e, h.0)),
      left_of-behind (suc x) scope (omega (arith, h.0)) h.1,
    )

    -- A counted retry takes one off what is left.
    pub left_of-used :
        (low c : ℕ) (scope : List ℕ) (s : Step) (a : OnAction)
        → Ascending low scope
        → get_elem? scope c ≡ some i
        → get_elem? steps i ≡ some s
        → get_elem? (failure_list actions s) k ≡ some a
        → action_type a ≡ ActionType.retry
        → counts i k < effective_retry_limit a.retry_limit
        → suc (left_of counted scope) ≡ left_of counts scope
    left_of-used low c [] s a h at elem act retries lt = absurd (cc)
    left_of-used low zero (x ∷ scope) s a h at elem act retries lt =
        let same : x ≡ i = cc in
        let used =
          left_in-used actions counts i k i 0 (s ∷ []) s a (omega arith) refl act retries lt in
        let rest = left_of-behind (suc x) scope (omega (arith, same)) h.1 in
        rw (same, elem, rest) (omega (arith, used))
    left_of-used low (suc c) (x ∷ scope) s a h at elem act retries lt =
        let rest = left_of-used (suc x) c scope s a h.1 at elem act retries lt in
        let before = at_or_behind (suc x) c i scope h.1 at in
        rw (left_here-other_step x (get_elem? steps x) (λ e. omega (arith, e, before)))
          (omega (arith, rest))

-- Positions in an ascending scope are ordered as the steps at them.
pub position_of :
    (low : ℕ) (scope : List ℕ) (c p x y : ℕ)
    → Ascending low scope
    → get_elem? scope c ≡ some x
    → get_elem? scope p ≡ some y
    → p < c
    → y < x
position_of low [] c p x y h ec ep lt = absurd (cc)
position_of low (z ∷ scope) zero p x y h ec ep lt = absurd (omega arith)
position_of low (z ∷ scope) (suc c) zero x y h ec ep lt =
    let same : z ≡ y = cc in
    let behind = at_or_behind (suc z) c x scope h.1 ec in omega (arith, same, behind)
position_of low (z ∷ scope) (suc c) (suc p) x y h ec ep lt =
    position_of (suc z) scope c p x y h.1 ec ep (omega arith)

module _ (actions : List OnAction) (steps : List Step) where
  some_step : (l : List Step) (i : ℕ) → i < length l → (s : Step) × (get_elem? l i ≡ some s)
  some_step [] i h = absurd (omega arith)
  some_step (s ∷ l) zero h = (s, refl)
  some_step (s ∷ l) (suc i) h = some_step l i (omega arith)

  left_here-none :
      (i : ℕ) (s : Step)
      → left_here actions steps (λ i k. 0) i (some s) ≡ budget_sum (failure_list actions s)
  left_here-none i s = go 0 (failure_list actions s)
    where
      go : (n : ℕ) (l : List OnAction) → left_at (λ _. 0) n l ≡ budget_sum l
      go n [] = refl
      go n (a ∷ l) = ground (arith, go (n + 1) l)

  pub left_of-none :
      (scope : List ℕ)
      → All (λ i. i < length steps) scope
      → length scope + left_of actions steps (λ i k. 0) scope
        ≡ attempts_sum actions (steps_at steps scope)
  left_of-none [] h = refl
  left_of-none (i ∷ scope) h =
      let (s, e) = some_step steps i h.0 in
      rw (e, left_here-none i s) (omega (arith, left_of-none scope h.1))
