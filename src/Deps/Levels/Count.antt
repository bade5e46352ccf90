-- ===== src/Deps/Levels/Count.antt =====
-- How many flags are unset: the loop's `remaining` is such a number.
use arazzo_cli.Base.{
  ℕ, zero, suc, ◌+◌, ◌≤◌, ◌<◌, ◌≡◌, refl, Bool, true, false, ◌||◌, List, [], ◌∷◌, length, ◌==◌,
  if◌then◌else◌, arith, Bool-cases, inl, inr,
}
use arazzo_cli.Deps.IndexSet.{contains, distinct}

-- The number of indices below `n` that are not set.
abbrev pub unset : (ℕ → Bool) → ℕ → ℕ
unset f zero = 0
unset f (suc n) = (if f n then 0 else 1) + unset f n

pub unset-cong : (f g : ℕ → Bool) → ((i : ℕ) → f i ≡ g i) → (n : ℕ) → unset f n ≡ unset g n
unset-cong f g h zero = refl
unset-cong f g h (suc n) = rw (h n, unset-cong f g h n) refl

pub unset-all : (n : ℕ) → unset (λ i. false) n ≡ n
unset-all zero = refl
unset-all (suc n) = omega (arith, unset-all n)

unset-above : (f : ℕ → Bool) (x n : ℕ) → n ≤ x → unset (λ i. i == x || f i) n ≡ unset f n
unset-above f x zero h = refl
unset-above f x (suc n) h = ground (arith, unset-above f x n)

pub unset-one :
    (f : ℕ → Bool) (x n : ℕ) → x < n → f x ≡ false → suc (unset (λ i. i == x || f i) n) ≡ unset f n
unset-one f x zero h e = absurd (omega arith)
unset-one f x (suc n) h e = elim (Bool-cases (n == x)) [
  | inl at_x ↦ rw (at_x, here at_x) (omega (arith, unset-above f x n (omega (arith, same at_x))))
  | inr off ↦ rw off (omega (arith, unset-one f x n (inside off) e))
]
  where
    same : (n == x) ≡ true → n ≡ x
    same t = ground arith

    here : (n == x) ≡ true → f n ≡ false
    here t = rw (same t) e

    inside : (n == x) ≡ false → x < n
    inside t = ground arith

-- A set of unset indices is taken off the number.
pub unset-set :
    (f : ℕ → Bool) (n : ℕ) (s : List ℕ)
    → distinct s ≡ true
    → ((i : ℕ) → contains i s ≡ true → (i < n) × (f i ≡ false))
    → unset (λ i. contains i s || f i) n + length s ≡ unset f n
unset-set f n [] h inside = omega arith
unset-set f n (x ∷ s) h inside =
    let split =
      unset-cong (λ i. (i == x || contains i s) || f i) (λ i. i == x || (contains i s || f i))
        (λ i. or_assoc (i == x) (contains i s) (f i)) n in
    let (lt, is_unset) = inside x here in
    let one = unset-one (λ i. contains i s || f i) x n lt (rw (fresh, is_unset) refl) in
    omega (arith, split, one, unset-set f n s (ground arith) (λ i e. inside i (behind i e)))
  where
    or_assoc : (a b c : Bool) → ((a || b) || c) ≡ (a || (b || c))
    or_assoc true b c = refl
    or_assoc false b c = refl

    fresh : contains x s ≡ false
    fresh = ground arith

    here : contains x (x ∷ s) ≡ true
    here = ground arith

    behind : (i : ℕ) → contains i s ≡ true → contains i (x ∷ s) ≡ true
    behind i e = ground arith

pub unset-found : (f : ℕ → Bool) (n : ℕ) → 0 < unset f n → (i : ℕ) × (i < n) × (f i ≡ false)
unset-found f zero h = absurd (omega arith)
unset-found f (suc n) h = elim (Bool-cases (f n)) [
  | inl e ↦ let (i, lt, is) = unset-found f n (positive e) in (i, omega arith, is)
  | inr e ↦ (n, omega arith, e)
]
  where
    positive : f n ≡ true → 0 < unset f n
    positive e = ground arith

pub unset-none : (f : ℕ → Bool) (n : ℕ) → unset f n ≡ 0 → (i : ℕ) → i < n → f i ≡ true
unset-none f zero h i lt = absurd (omega arith)
unset-none f (suc n) h i lt = elim (Bool-cases (f n)) [
  | inl e ↦ elim (Bool-cases (i == n)) [
    | inl at_n ↦ rw (same at_n) e
    | inr off ↦ unset-none f n (rest e) i (inside off)
  ]
  | inr e ↦ absurd (positive e)
]
  where
    same : (i == n) ≡ true → i ≡ n
    same t = ground arith

    inside : (i == n) ≡ false → i < n
    inside t = ground arith

    rest : f n ≡ true → unset f n ≡ 0
    rest e = ground arith

    positive : f n ≡ false → ⊥
    positive e = ground arith
