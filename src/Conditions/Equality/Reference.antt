-- ===== src/Conditions/Equality/Reference.antt =====
-- The worklist of `structural_equal` (evaluation.rs) against equality by recursion.
use Prim.Native.Nat.{Ordering}
use arazzo_cli.Base.{
  ℕ, zero, suc, ◌+◌, ◌≤◌, ◌≡◌, refl, sym, ap, ◌∙◌, subst, ◌⊎◌, String, Bool, true, false, not,
  Option, none, some, List, [], ◌∷◌, ◌++◌, ◌==◌, if◌then◌else◌, Fallible, fine, failed, map_fine,
  arith, Bool-cases, Option-cases, inl, inr,
}
use arazzo_cli.Json.{
  Json, null, boolean, number, string, array, object, Items, nil, cons, Fields, none_left, field,
}
use arazzo_cli.Conditions.Numeric.{Numerics}
use arazzo_cli.Conditions.Equality.{
  bool_eq, ordered, is_eq, Pair, zip, by_keys, get, Visit, differ, push, compare_pair, if_equal,
  same_keys, items_len, compare_all, size, size_items, size_fields, structural_equal,
}

-- The second result counts only when the first is "equal".
abbrev pub conj : Fallible String Bool → Fallible String Bool → Fallible String Bool
conj (fine true) later = later
conj (fine false) later = fine false
conj (failed message) later = failed message

abbrev at_key :
    (Json → Fallible String Bool) → Fallible String Bool → Option Json → Fallible String Bool
at_key against later none = later
at_key against later (some w) = conj (against w) later

module _ (num : Numerics) (lower : String → String) where
  unfoldable mutual
    unfolding compare_pair ordered

    -- Equal values, from left to right; arrays of one length, objects with the same keys.
    pub equals : Json → Json → Fallible String Bool
    equals null null = fine true
    equals (array xs) (array ys) =
        if items_len xs == items_len ys then equals_items xs ys else fine false
    equals (object xs) (object ys) = if same_keys xs ys then equals_fields xs ys else fine false
    equals (boolean true) (boolean b) = fine b
    equals (boolean false) (boolean b) = fine (not b)
    equals (number a) (number b) = map_fine is_eq (ordered num lower (number a) (number b))
    equals (number a) (string b) = map_fine is_eq (ordered num lower (number a) (string b))
    equals (string a) (number b) = map_fine is_eq (ordered num lower (string a) (number b))
    equals (string a) (string b) = map_fine is_eq (ordered num lower (string a) (string b))
    equals _ _ = fine false

    pub equals_items : Items → Items → Fallible String Bool
    equals_items (cons x xs) (cons y ys) = conj (equals x y) (equals_items xs ys)
    equals_items _ _ = fine true

    pub equals_fields : Fields → Fields → Fallible String Bool
    equals_fields none_left right = fine true
    equals_fields (field k v fs) right = at_key (equals v) (equals_fields fs right) (get k right)

  equals_all : List Pair → Fallible String Bool
  unfolding equals
  equals_all [] = fine true
  equals_all ((l, r) ∷ ps) = conj (equals l r) (equals_all ps)

  abbrev total : List Pair → ℕ
  total [] = 0
  total ((l, r) ∷ ps) = size l + total ps

  -- What a visit leaves to decide.
  abbrev rest_of : Fallible String Visit → Fallible String Bool
  rest_of (failed message) = failed message
  rest_of (fine differ) = fine false
  rest_of (fine (push ps)) = equals_all ps

  conj_assoc : (a b c : Fallible String Bool) → conj (conj a b) c ≡ conj a (conj b c)
  conj_assoc (fine true) b c = refl
  conj_assoc (fine false) b c = refl
  conj_assoc (failed m) b c = refl

  conj-true : (a : Fallible String Bool) → conj a (fine true) ≡ a
  conj-true (fine true) = refl
  conj-true (fine false) = refl
  conj-true (failed m) = refl

  equals_all-append :
      (ps qs : List Pair) → equals_all (ps ++ qs) ≡ conj (equals_all ps) (equals_all qs)
  unfolding equals_all
  equals_all-append [] qs = refl
  equals_all-append ((l, r) ∷ ps) qs =
      rw (equals_all-append ps qs) (sym (conj_assoc (equals l r) (equals_all ps) (equals_all qs)))

  total-append : (ps qs : List Pair) → total (ps ++ qs) ≡ total ps + total qs
  total-append [] qs = omega arith
  total-append ((l, r) ∷ ps) qs = omega (arith, total-append ps qs)

  equals_all-zip : (xs ys : Items) → equals_items xs ys ≡ equals_all (zip xs ys)
  unfolding equals equals_all
  equals_all-zip nil ys = refl
  equals_all-zip (cons x xs) nil = refl
  equals_all-zip (cons x xs) (cons y ys) = ap (conj (equals x y)) (equals_all-zip xs ys)

  equals_all-by_keys : (xs ys : Fields) → equals_fields xs ys ≡ equals_all (by_keys xs ys)
  unfolding equals equals_all by_keys
  equals_all-by_keys none_left ys = refl
  equals_all-by_keys (field k v fs) ys = elim (Option-cases (get k ys)) [
    | inl h ↦ rw h (equals_all-by_keys fs ys)
    | inr (w, h) ↦ rw h (ap (conj (equals v w)) (equals_all-by_keys fs ys))
  ]

  total-zip : (xs ys : Items) → total (zip xs ys) ≤ size_items xs
  unfolding size
  total-zip nil ys = omega arith
  total-zip (cons x xs) nil = omega arith
  total-zip (cons x xs) (cons y ys) = omega (arith, total-zip xs ys)

  total-by_keys : (xs ys : Fields) → total (by_keys xs ys) ≤ size_fields xs
  unfolding by_keys size
  total-by_keys none_left ys = omega arith
  total-by_keys (field k v fs) ys = elim (Option-cases (get k ys)) [
    | inl h ↦ rw h (omega (arith, total-by_keys fs ys))
    | inr (w, h) ↦ rw h (omega (arith, total-by_keys fs ys))
  ]

  by_test :
      (o : Fallible String Ordering)
      → map_fine is_eq o ≡ rest_of (map_fine (λ c. if_equal (is_eq c)) o)
  unfolding equals_all
  by_test (failed m) = refl
  by_test (fine Ordering.lt) = refl
  by_test (fine Ordering.eq) = refl
  by_test (fine Ordering.gt) = refl

  equals-compare_pair : (l r : Json) → equals l r ≡ rest_of (compare_pair num lower l r)
  unfolding equals compare_pair equals_all
  equals-compare_pair null null = refl
  equals-compare_pair (array xs) (array ys) = elim (Bool-cases (items_len xs == items_len ys)) [
    | inl h ↦ rw h (equals_all-zip xs ys)
    | inr h ↦ rw h refl
  ]
  equals-compare_pair (object xs) (object ys) = elim (Bool-cases (same_keys xs ys)) [
    | inl h ↦ rw h (equals_all-by_keys xs ys)
    | inr h ↦ rw h refl
  ]
  equals-compare_pair (boolean true) (boolean true) = refl
  equals-compare_pair (boolean true) (boolean false) = refl
  equals-compare_pair (boolean false) (boolean true) = refl
  equals-compare_pair (boolean false) (boolean false) = refl
  equals-compare_pair (number a) (number b) = by_test (ordered num lower (number a) (number b))
  equals-compare_pair (number a) (string b) = by_test (ordered num lower (number a) (string b))
  equals-compare_pair (string a) (number b) = by_test (ordered num lower (string a) (number b))
  equals-compare_pair (string a) (string b) = by_test (ordered num lower (string a) (string b))
  equals-compare_pair _ _ = refl

  -- A visit pushes less than the value it takes.
  Smaller : ℕ → Fallible String Visit → Type 0
  Smaller n (fine (push ps)) = suc (total ps) ≤ n
  Smaller n _ = Unit

  if_equal-Smaller : (b : Bool) → Smaller 1 (fine (if_equal b))
  unfolding Smaller
  if_equal-Smaller true = omega arith
  if_equal-Smaller false = tt

  by_test-Smaller :
      (o : Fallible String Ordering) → Smaller 1 (map_fine (λ c. if_equal (is_eq c)) o)
  unfolding Smaller
  by_test-Smaller (failed m) = tt
  by_test-Smaller (fine o) = if_equal-Smaller (is_eq o)

  compare_pair-Smaller : (l r : Json) → Smaller (size l) (compare_pair num lower l r)
  unfolding compare_pair Smaller size
  compare_pair-Smaller null null = omega arith
  compare_pair-Smaller (array xs) (array ys) = elim (Bool-cases (items_len xs == items_len ys)) [
    | inl h ↦ rw h (omega (arith, total-zip xs ys))
    | inr h ↦ rw h tt
  ]
  compare_pair-Smaller (object xs) (object ys) = elim (Bool-cases (same_keys xs ys)) [
    | inl h ↦ rw h (omega (arith, total-by_keys xs ys))
    | inr h ↦ rw h tt
  ]
  compare_pair-Smaller (boolean a) (boolean b) = if_equal-Smaller (bool_eq a b)
  compare_pair-Smaller (number a) (number b) =
      by_test-Smaller (ordered num lower (number a) (number b))
  compare_pair-Smaller (number a) (string b) =
      by_test-Smaller (ordered num lower (number a) (string b))
  compare_pair-Smaller (string a) (number b) =
      by_test-Smaller (ordered num lower (string a) (number b))
  compare_pair-Smaller (string a) (string b) =
      by_test-Smaller (ordered num lower (string a) (string b))
  compare_pair-Smaller _ _ = tt

  Visit-cases :
      (v : Fallible String Visit)
      → ((m : String) × (v ≡ failed m))
        ⊎ ((v ≡ fine differ) ⊎ ((ps : List Pair) × (v ≡ fine (push ps))))
  Visit-cases (failed m) = inl (m, refl)
  Visit-cases (fine differ) = inr (inl refl)
  Visit-cases (fine (push ps)) = inr (inr (ps, refl))

  size-positive : (j : Json) → 1 ≤ size j
  unfolding size
  size-positive null = omega arith
  size-positive (boolean b) = omega arith
  size-positive (number n) = omega arith
  size-positive (string s) = omega arith
  size-positive (array xs) = omega arith
  size-positive (object fs) = omega arith

  pushed :
      (n : ℕ) (v : Fallible String Visit) (ps : List Pair)
      → v ≡ fine (push ps)
      → Smaller n v
      → suc (total ps) ≤ n
  unfolding Smaller
  pushed n v ps h s = subst (Smaller n) h s

  compare_all-equals :
      (fuel : ℕ) (ps : List Pair)
      → total ps ≤ fuel
      → compare_all num lower fuel ps ≡ some (equals_all ps)
  unfolding compare_all equals_all
  compare_all-equals fuel [] enough = refl
  compare_all-equals zero ((l, r) ∷ ps) enough = absurd (omega (arith, size-positive l))
  compare_all-equals (suc fuel) ((l, r) ∷ ps) enough =
      elim (Visit-cases (compare_pair num lower l r)) [
        | inl (m, h) ↦ rw (equals-compare_pair l r, h) refl
        | inr (inl h) ↦ rw (equals-compare_pair l r, h) refl
        | inr (inr (new, h)) ↦
            rw (equals-compare_pair l r, h)
              (compare_all-equals fuel (new ++ ps) (
                  omega (
                    arith,
                    total-append new ps,
                    pushed (size l) (compare_pair num lower l r) new h (compare_pair-Smaller l r),
                  ))
                ∙ ap some (equals_all-append new ps))
      ]

  -- `structural_equal` always answers, and answers as the recursive comparison does: the first
  -- difference or the first failed conversion from the left decides.
  pub structural_equal-equals :
      (left right : Json) → structural_equal num lower left right ≡ some (equals left right)
  unfolding structural_equal equals_all
  structural_equal-equals left right =
      compare_all-equals (size left) ((left, right) ∷ []) (omega arith)
      ∙ ap some (conj-true (equals left right))
