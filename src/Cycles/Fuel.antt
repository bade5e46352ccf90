-- ===== src/Cycles/Fuel.antt =====
-- How many rounds the walk of `graph_has_cycle` (step_dependencies.rs) has left.
use arazzo_cli.Base.{
  ℕ, zero, suc, ◌+◌, ◌-◌, ◌≤◌, ◌<◌, ◌≡◌, refl, String, Bool, true, false, none, some, List, [], ◌∷◌,
  ◌==◌, length, get_elem?, if◌then◌else◌, arith, Bool-cases, inl, inr,
}
use arazzo_cli.Cycles.{Mark, unvisited, in_progress, finished, marked, Stack, rounds}

abbrev pub is_unvisited : Mark → Bool
is_unvisited unvisited = true
is_unvisited _ = false

module _ (depends_on : ℕ → List String) where
  -- The rounds that the nodes below `n` still ask for.
  abbrev pub open_rounds : (ℕ → Mark) → ℕ → ℕ
  open_rounds states zero = 0
  open_rounds states (suc n) =
      (if is_unvisited (states n) then suc (length (depends_on n)) else 0) + open_rounds states n

  abbrev pub stack_rounds : Stack → ℕ
  stack_rounds [] = 0
  stack_rounds ((i, c) ∷ rest) = suc (length (depends_on i) - c) + stack_rounds rest

  pub open_rounds-new : (n : ℕ) → open_rounds (λ i. unvisited) n ≡ rounds depends_on n
  open_rounds-new zero = refl
  open_rounds-new (suc n) = omega (arith, open_rounds-new n)

  pub open_rounds-bound : (states : ℕ → Mark) (n : ℕ) → open_rounds states n ≤ rounds depends_on n
  open_rounds-bound states zero = omega arith
  open_rounds-bound states (suc n) = elim (Bool-cases (is_unvisited (states n))) [
    | inl h ↦ rw h (omega (arith, open_rounds-bound states n))
    | inr h ↦ rw h (omega (arith, open_rounds-bound states n))
  ]

  open_rounds-above :
      (states : ℕ → Mark) (t : ℕ) (m : Mark) (n : ℕ)
      → n ≤ t
      → open_rounds (marked t m states) n ≡ open_rounds states n
  open_rounds-above states t m zero le = refl
  open_rounds-above states t m (suc n) le =
      rw (other, open_rounds-above states t m n (omega arith)) refl
    where
      other : (n == t) ≡ false
      other = ground arith

  same_node : (n t : ℕ) → (n == t) ≡ true → n ≡ t
  same_node n t h = ground arith

  below : (n t : ℕ) → t < suc n → (n == t) ≡ false → t < n
  below n t lt h = ground arith

  here :
      (states : ℕ → Mark) (t : ℕ)
      → states t ≡ unvisited
      → open_rounds (marked t in_progress states) (suc t) + suc (length (depends_on t))
        ≡ open_rounds states (suc t)
  here states t new =
      rw (itself, new, open_rounds-above states t in_progress t (omega arith)) (omega arith)
    where
      itself : (t == t) ≡ true
      itself = ground arith

  -- A visit takes the node's rounds off.
  pub open_rounds-visit :
      (states : ℕ → Mark) (t n : ℕ)
      → t < n
      → states t ≡ unvisited
      → open_rounds (marked t in_progress states) n + suc (length (depends_on t))
        ≡ open_rounds states n
  open_rounds-visit states t zero lt new = absurd (omega arith)
  open_rounds-visit states t (suc n) lt new = elim (Bool-cases (n == t)) [
    | inl h ↦ rw (same_node n t h) (here states t new)
    | inr h ↦ rw h (omega (arith, open_rounds-visit states t n (below n t lt h) new))
  ]

  -- The end of a visit changes nothing.
  pub open_rounds-finish :
      (states : ℕ → Mark) (t n : ℕ)
      → open_rounds (marked t finished states) n ≤ open_rounds states n
  open_rounds-finish states t zero = omega arith
  open_rounds-finish states t (suc n) = elim (Bool-cases (n == t)) [
    | inl h ↦ rw h (omega (arith, open_rounds-finish states t n))
    | inr h ↦ rw h (omega (arith, open_rounds-finish states t n))
  ]

pub get_elem-below :
    {A : Type 0} (xs : List A) (c : ℕ) (a : A) → get_elem? xs c ≡ some a → c < length xs
get_elem-below [] c a h = absurd (cc)
get_elem-below (x ∷ xs) zero a h = omega arith
get_elem-below (x ∷ xs) (suc c) a h = omega (arith, get_elem-below xs c a h)

pub get_elem-end : {A : Type 0} (xs : List A) (c : ℕ) → get_elem? xs c ≡ none → length xs ≤ c
get_elem-end [] c h = omega arith
get_elem-end (x ∷ xs) zero h = absurd (cc)
get_elem-end (x ∷ xs) (suc c) h = omega (arith, get_elem-end xs c h)
