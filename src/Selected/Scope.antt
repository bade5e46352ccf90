-- ===== src/Selected/Scope.antt =====
-- The scope of single-step execution (`execute_step_inner` of engine_impl.rs).
use arazzo_cli.Base.{
  Bool, true, if◌then◌else◌, length, ℕ, zero, suc, ◌≤◌, ◌<◌, ◌≡◌, refl, ap, ◌∙◌, false, Option,
  none, some, List, [], ◌∷◌, ◌==◌, leb, get_elem?, Bool-cases, inl, inr, arith, leb→le,
}
use arazzo_cli.Deps.IndexSet.{contains}
use arazzo_cli.Selected.{position, later, ascending, or_else, resume}

-- Strictly ascending, from a bound on.
abbrev pub Ascending : ℕ → List ℕ → Type 0
Ascending low [] = Unit
Ascending low (x ∷ xs) = (low ≤ x) × Ascending (suc x) xs

pub Ascending-lower : (a b : ℕ) (xs : List ℕ) → a ≤ b → Ascending b xs → Ascending a xs
Ascending-lower a b [] le h = tt
Ascending-lower a b (x ∷ xs) le h = (omega (arith, h.0), h.1)

pub ascending-Ascending : (set : List ℕ) (i n : ℕ) → Ascending i (ascending set i n)
ascending-Ascending set i zero = tt
ascending-Ascending set i (suc n) = elim (Bool-cases (contains i set)) [
  | inl h ↦ rw h (omega arith, ascending-Ascending set (suc i) n)
  | inr h ↦ rw h (
      Ascending-lower i (suc i) (ascending set (suc i) n) (omega arith)
        (ascending-Ascending set (suc i) n))
]

-- Where the run goes on: at the first step of the scope at or behind the one decided for.
abbrev pub Resumes : List ℕ → ℕ → Option ℕ → Type 0
Resumes scope idx none = (k y : ℕ) → get_elem? scope k ≡ some y → y < idx
Resumes scope idx (some pos) =
    (x : ℕ) × (get_elem? scope pos ≡ some x)
    × (idx ≤ x)
    × ((k y : ℕ) → k < pos → get_elem? scope k ≡ some y → y < idx)

position-absent :
    (idx low : ℕ) (xs : List ℕ) → idx < low → Ascending low xs → position (λ i. i == idx) xs ≡ none
position-absent idx low [] lt h = refl
position-absent idx low (x ∷ xs) lt h =
    rw (other, position-absent idx (suc x) xs (omega (arith, h.0)) h.1) refl
  where
    other : (x == idx) ≡ false
    other = let le = h.0 in ground arith

or_else-later : (a b : Option ℕ) → or_else (later a) (later b) ≡ later (or_else a b)
or_else-later none b = refl
or_else-later (some i) b = refl

pub resume-position :
    (idx low : ℕ) (xs : List ℕ) → Ascending low xs → resume xs idx ≡ position (λ i. leb idx i) xs
unfolding resume
resume-position idx low [] h = refl
resume-position idx low (x ∷ xs) h = elim (Bool-cases (leb idx x)) [
  | inl le ↦ elim (Bool-cases (x == idx)) [
    | inl same ↦ rw (le, same) refl
    | inr other ↦
        rw (le, other, position-absent idx (suc x) xs (omega (arith, leb→le idx x le)) h.1) refl
  ]
  | inr gt ↦
      rw (gt, not_equal gt)
        (or_else-later (position (λ i. i == idx) xs) (position (λ i. leb idx i) xs)
          ∙ ap later (resume-position idx (suc x) xs h.1))
]
  where
    not_equal : leb idx x ≡ false → (x == idx) ≡ false
    not_equal gt = ground arith

later-Resumes :
    (idx x : ℕ) (xs : List ℕ) (r : Option ℕ)
    → x < idx
    → Resumes xs idx r
    → Resumes (x ∷ xs) idx (later r)
later-Resumes idx x xs none lt h = before
  where
    before : (k y : ℕ) → get_elem? (x ∷ xs) k ≡ some y → y < idx
    before zero y e = let same : x ≡ y = cc in omega (arith, same, lt)
    before (suc k) y e = h k y e
later-Resumes idx x xs (some pos) lt h = (h.0, h.1, h.2, before)
  where
    before : (k y : ℕ) → k < suc pos → get_elem? (x ∷ xs) k ≡ some y → y < idx
    before zero y le e = let same : x ≡ y = cc in omega (arith, same, lt)
    before (suc k) y le e = h.3 k y (omega arith) e

pub position-Resumes : (idx : ℕ) (xs : List ℕ) → Resumes xs idx (position (λ i. leb idx i) xs)
position-Resumes idx [] = λ k y e. absurd (cc)
position-Resumes idx (x ∷ xs) = elim (Bool-cases (leb idx x)) [
  | inl le ↦ rw le (x, refl, leb→le idx x le, λ k y lt e. absurd (omega arith))
  | inr gt ↦
      rw gt
        (later-Resumes idx x xs (position (λ i. leb idx i) xs) (below gt) (position-Resumes idx xs))
]
  where
    below : leb idx x ≡ false → x < idx
    below gt = ground arith

-- In a scope, which is a set of steps in ascending order, a decision for any step goes on at the first
-- selected step at or behind it, never at one before it, and stops when there is none.
pub resume-Resumes :
    (set : List ℕ) (n idx : ℕ) → Resumes (ascending set 0 n) idx (resume (ascending set 0 n) idx)
resume-Resumes set n idx =
    rw (resume-position idx 0 (ascending set 0 n) (ascending-Ascending set 0 n))
      (position-Resumes idx (ascending set 0 n))

-- Where a step stands.
pub position_found :
    (j : ℕ) (xs : List ℕ) (p : ℕ) → position (λ i. i == j) xs ≡ some p → get_elem? xs p ≡ some j
position_found j [] p h = absurd (cc)
position_found j (x ∷ xs) p h =
    found (position_found j xs) (x == j) refl (position (λ i. i == j) xs) refl p h
  where
    equal : (x == j) ≡ true → x ≡ j
    equal e = ground arith

    found :
        ((q : ℕ) → position (λ i. i == j) xs ≡ some q → get_elem? xs q ≡ some j)
        → (b : Bool) → (x == j) ≡ b
        → (o : Option ℕ) → position (λ i. i == j) xs ≡ o
        → (p : ℕ) → (if b then some 0 else later o) ≡ some p
        → get_elem? (x ∷ xs) p ≡ some j
    found rest true e o q zero h = ap some (equal e)
    found rest true e o q (suc p) h = absurd (cc)
    found rest false e none q p h = absurd (cc)
    found rest false e (some k) q zero h = absurd (cc)
    found rest false e (some k) q (suc p) h =
        let same : k ≡ p = ground arith in rest p (q ∙ ap some same)

pub inside : (scope : List ℕ) (c i : ℕ) → get_elem? scope c ≡ some i → c < length scope
inside [] c i h = absurd (cc)
inside (x ∷ scope) zero i h = omega arith
inside (x ∷ scope) (suc c) i h = let rest = inside scope c i h in omega arith
