-- ===== src/Parallel/Sorted.antt =====
-- `sort_by_key` of the results of a level (engine_parallel.rs).
use arazzo_cli.Base.{
  ℕ, ◌≤◌, ◌<◌, ◌≡◌, false, List, [], ◌∷◌, All, leb, Bool-cases, inl, inr, arith, leb→le,
}
use arazzo_cli.Parallel.{insert_by_index, sort_by_index}
use arazzo_cli.Parallel.Orders.{Reordered, none_ended, keep, swap, follow}

module _ {A : Type 0} where
  -- No result stands behind one of a later step.
  abbrev pub InOrder : List (ℕ × A) → Type 0
  InOrder [] = Unit
  InOrder (x ∷ xs) = All (λ y. x.0 ≤ y.0) xs × InOrder xs

  Reordered-refl : (xs : List (ℕ × A)) → Reordered xs xs
  Reordered-refl [] = none_ended
  Reordered-refl (x ∷ xs) = keep x xs xs (Reordered-refl xs)

  insert_by_index-Reordered :
      (x : ℕ × A) (xs : List (ℕ × A)) → Reordered (x ∷ xs) (insert_by_index x xs)
  insert_by_index-Reordered x [] = Reordered-refl (x ∷ [])
  insert_by_index-Reordered x (y ∷ ys) = elim (Bool-cases (leb x.0 y.0)) [
    | inl h ↦ rw h (Reordered-refl (x ∷ y ∷ ys))
    | inr h ↦ rw h (
        follow (x ∷ y ∷ ys) (y ∷ x ∷ ys) (y ∷ insert_by_index x ys)
          (swap x y ys λ e. absurd (omega (arith, e, above x.0 y.0 h)))
          (keep y (x ∷ ys) (insert_by_index x ys) (insert_by_index-Reordered x ys)))
  ]
    where
      above : (a b : ℕ) → leb a b ≡ false → b < a
      above a b h = ground arith

  pub sort_by_index-joined : (xs : List (ℕ × A)) → Reordered xs (sort_by_index xs)
  sort_by_index-joined [] = none_ended
  sort_by_index-joined (x ∷ xs) =
      follow (x ∷ xs) (x ∷ sort_by_index xs) (sort_by_index (x ∷ xs))
        (keep x xs (sort_by_index xs) (sort_by_index-joined xs))
        (insert_by_index-Reordered x (sort_by_index xs))

  above_all : (a b : ℕ) (xs : List (ℕ × A)) → a ≤ b → All (λ y. b ≤ y.0) xs → All (λ y. a ≤ y.0) xs
  above_all a b [] le h = tt
  above_all a b (x ∷ xs) le h = (omega (arith, h.0), above_all a b xs le h.1)

  insert_by_index-above :
      (a : ℕ) (x : ℕ × A) (xs : List (ℕ × A))
      → a ≤ x.0
      → All (λ y. a ≤ y.0) xs
      → All (λ y. a ≤ y.0) (insert_by_index x xs)
  insert_by_index-above a x [] le h = (le, tt)
  insert_by_index-above a x (y ∷ ys) le h = elim (Bool-cases (leb x.0 y.0)) [
    | inl q ↦ rw q (le, h)
    | inr q ↦ rw q (h.0, insert_by_index-above a x ys le h.1)
  ]

  insert_by_index-InOrder :
      (x : ℕ × A) (xs : List (ℕ × A)) → InOrder xs → InOrder (insert_by_index x xs)
  insert_by_index-InOrder x [] h = (tt, tt)
  insert_by_index-InOrder x (y ∷ ys) h = elim (Bool-cases (leb x.0 y.0)) [
    | inl q ↦ rw q ((leb→le x.0 y.0 q, above_all x.0 y.0 ys (leb→le x.0 y.0 q) h.0), (h.0, h.1))
    | inr q ↦
        rw q
          (insert_by_index-above y.0 x ys (below x.0 y.0 q) h.0, insert_by_index-InOrder x ys h.1)
  ]
    where
      below : (a b : ℕ) → leb a b ≡ false → b ≤ a
      below a b q = ground arith

  pub sort_by_index-InOrder : (xs : List (ℕ × A)) → InOrder (sort_by_index xs)
  sort_by_index-InOrder [] = tt
  sort_by_index-InOrder (x ∷ xs) =
      insert_by_index-InOrder x (sort_by_index xs) (sort_by_index-InOrder xs)
