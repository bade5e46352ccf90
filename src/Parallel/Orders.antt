-- ===== src/Parallel/Orders.antt =====
-- The order in which the tasks of a level end (engine_parallel.rs) does not show in the invocation.
use arazzo_cli.Base.{
  ℕ, ◌≤◌, ◌<◌, ◌≡◌, ◌≢◌, refl, ap, ◌∙◌, true, false, Option, List, [], ◌∷◌, leb, Bool-cases, inl,
  inr, arith, leb→le,
}
use arazzo_cli.Errors.{RuntimeErrorKind, Result}
use arazzo_cli.Routing.Decision.{Inputs}
use arazzo_cli.Parallel.{
  ParallelStepRun, Variables, LevelRun, insert_by_index, sort_by_index, run_level, run_levels,
  unless_cancelled, next_level, Streamed, LevelEnd, ended,
}

-- Two orders of the same results: neighbours of different steps may change places.
pub data Reordered {A : Type 0} : List (ℕ × A) → List (ℕ × A) → Type 0 where
  none_ended : Reordered [] []
  keep : (x : ℕ × A) (xs ys : List (ℕ × A)) → Reordered xs ys → Reordered (x ∷ xs) (x ∷ ys)
  swap : (x y : ℕ × A) (xs : List (ℕ × A)) → x.0 ≢ y.0 → Reordered (x ∷ y ∷ xs) (y ∷ x ∷ xs)
  follow : (xs ys zs : List (ℕ × A)) → Reordered xs ys → Reordered ys zs → Reordered xs zs

leb-false : (a b : ℕ) → b < a → leb a b ≡ false
leb-false a b h = ground arith

leb-true : (a b : ℕ) → a ≤ b → leb a b ≡ true
leb-true a b h = ground arith

gt_of : (a b : ℕ) → leb a b ≡ false → b < a
gt_of a b h = ground arith

module _ {A : Type 0} where
  insert_by_index-swap :
      (x y : ℕ × A) (l : List (ℕ × A))
      → x.0 ≢ y.0
      → insert_by_index x (insert_by_index y l) ≡ insert_by_index y (insert_by_index x l)
  insert_by_index-swap x y [] ne = elim (Bool-cases (leb x.0 y.0)) [
    | inl h ↦ rw (h, leb-false y.0 x.0 (omega (arith, leb→le x.0 y.0 h, ne))) refl
    | inr h ↦ rw (h, leb-true y.0 x.0 (omega (arith, gt_of x.0 y.0 h))) refl
  ]
  insert_by_index-swap x y (z ∷ l) ne = elim (Bool-cases (leb x.0 z.0)) [
    | inl xz ↦ elim (Bool-cases (leb y.0 z.0)) [
      | inl yz ↦ elim (Bool-cases (leb x.0 y.0)) [
        | inl h ↦ rw (xz, yz, h, leb-false y.0 x.0 (omega (arith, leb→le x.0 y.0 h, ne))) refl
        | inr h ↦ rw (xz, yz, h, leb-true y.0 x.0 (omega (arith, gt_of x.0 y.0 h)), xz) refl
      ]
      | inr yz ↦
          rw (xz, yz, leb-false y.0 x.0 (omega (arith, leb→le x.0 z.0 xz, gt_of y.0 z.0 yz)), xz)
            refl
    ]
    | inr xz ↦ elim (Bool-cases (leb y.0 z.0)) [
      | inl yz ↦
          rw (xz, yz, leb-false x.0 y.0 (omega (arith, leb→le y.0 z.0 yz, gt_of x.0 z.0 xz)), xz)
            refl
      | inr yz ↦ rw (xz, yz, xz) (ap (λ r. z ∷ r) (insert_by_index-swap x y l ne))
    ]
  ]

  sort_by_index-Reordered :
      (xs ys : List (ℕ × A)) → Reordered xs ys → sort_by_index xs ≡ sort_by_index ys
  sort_by_index-Reordered [] [] none_ended = refl
  sort_by_index-Reordered _ _ (keep x xs ys r) =
      ap (insert_by_index x) (sort_by_index-Reordered xs ys r)
  sort_by_index-Reordered _ _ (swap x y xs ne) = insert_by_index-swap x y (sort_by_index xs) ne
  sort_by_index-Reordered xs zs (follow _ ys _ r q) =
      sort_by_index-Reordered xs ys r ∙ sort_by_index-Reordered ys zs q

module _ {E V : Type 0} (variables : Variables E V) where
  run_level-Reordered :
      (xs ys : List (ℕ × ParallelStepRun E)) (vars : V)
      → Reordered xs ys
      → run_level variables xs vars ≡ run_level variables ys vars
  unfolding run_level
  run_level-Reordered xs ys vars r = rw (sort_by_index-Reordered xs ys r) refl

  -- The same levels, with the same answers about cancellation, whose tasks end in other orders.
  abbrev pub SameLevels : List (LevelRun E V) → List (LevelRun E V) → Type 0
  SameLevels [] [] = Unit
  SameLevels (j ∷ js) (k ∷ ks) =
      (j.cancelled_before ≡ k.cancelled_before)
      × (j.cancelled_behind ≡ k.cancelled_behind)
      × ((vars : V) → Reordered (j.joined vars) (k.joined vars))
      × SameLevels js ks
  SameLevels _ _ = ⊥

  level_equal :
      {b b' c c' : Option RuntimeErrorKind} {end end' : LevelEnd E V}
      {more more' : V → List (Streamed E) × Result Inputs}
      → b ≡ b'
      → c ≡ c'
      → end ≡ end'
      → ((v : V) → more v ≡ more' v)
      → unless_cancelled variables b (next_level variables more c end)
        ≡ unless_cancelled variables b' (next_level variables more' c' end')
  level_equal {b' = b'} {c' = c'} {end' = end'} before behind same rest =
      rw (before, behind, same)
        (ap
          (λ run.
            unless_cancelled variables b' (ended variables end'.streamed run c' end'.terminal))
          (rest end'.vars))

  -- In whatever order the tasks of each level end, the invocation streams the same and has the same outcome,
  -- as long as each check of its token is answered in the same way.
  pub run_levels-SameLevels :
      (levels others : List (LevelRun E V)) (cancelled : Option RuntimeErrorKind) (vars : V)
      → SameLevels levels others
      → run_levels variables levels cancelled vars ≡ run_levels variables others cancelled vars
  unfolding run_levels
  run_levels-SameLevels [] [] cancelled vars same = refl
  run_levels-SameLevels (j ∷ js) (k ∷ ks) cancelled vars (before, behind, order, rest) =
      level_equal before behind
        (run_level-Reordered (j.joined vars) (k.joined vars) vars (order vars))
        (λ v. run_levels-SameLevels js ks cancelled v rest)
  run_levels-SameLevels [] (k ∷ ks) cancelled vars same = absurd same
  run_levels-SameLevels (j ∷ js) [] cancelled vars same = absurd same
