-- ===== src/Deps/Transitive/Visits.antt =====
-- What one round of the search in `compute_transitive_deps` (deps.rs) adds.
use arazzo_cli.Base.{
  ℕ, ◌+◌, ◌<◌, ◌≡◌, refl, Bool, true, false, not, ◌&&◌, ◌||◌, List, [], ◌∷◌, ◌++◌, ◌==◌, length,
  length-append, arith, Bool-cases, inl, inr, ◌∙◌,
}
use arazzo_cli.Deps.IndexSet.{contains}
use arazzo_cli.Deps.Levels.Count.{unset, unset-cong, unset-one}
use arazzo_cli.Deps.Transitive.{Search, visit, visit_all}

abbrev pub seen : ℕ → List ℕ → ℕ → Bool
seen target visited i = i == target || contains i visited

contains-snoc : (i x : ℕ) (s : List ℕ) → contains i (s ++ (x ∷ [])) ≡ (contains i s || i == x)
contains-snoc i x [] = ground arith
contains-snoc i x (y ∷ s) = ground (arith, contains-snoc i x s)

module _ (target : ℕ) where
  visit-visited :
      (dep : ℕ) (st : Search) (i : ℕ)
      → contains i (visit target dep st).visited
        ≡ ((i == dep && not (i == target)) || contains i st.visited)
  visit-visited dep st i = elim (Bool-cases (dep == target)) [
    | inl t ↦ rw t (ground arith)
    | inr t ↦ elim (Bool-cases (contains dep st.visited)) [
      | inl c ↦ rw (t, c) (let known = at_dep c in ground arith)
      | inr c ↦ rw (t, c) (ground arith)
    ]
  ]
    where
      at_dep : contains dep st.visited ≡ true → i ≡ dep → contains i st.visited ≡ true
      at_dep c e = rw e c

  visit-queue :
      (dep : ℕ) (st : Search) (i : ℕ)
      → contains i (visit target dep st).queue
        ≡ (contains i st.queue || (i == dep && not (seen target st.visited i)))
  visit-queue dep st i = elim (Bool-cases (dep == target)) [
    | inl t ↦ rw t (ground arith)
    | inr t ↦ elim (Bool-cases (contains dep st.visited)) [
      | inl c ↦ rw (t, c) (let known = at_dep true c in ground arith)
      | inr c ↦ rw (t, c, contains-snoc i dep st.queue) (let known = at_dep false c in ground arith)
    ]
  ]
    where
      at_dep : (b : Bool) → contains dep st.visited ≡ b → i ≡ dep → contains i st.visited ≡ b
      at_dep b c e = rw e c

  -- What is still to do: the queue, and the steps that no one has seen.
  abbrev pub todo : ℕ → Search → ℕ
  todo n st = length st.queue + unset (seen target st.visited) n

  visit-todo : (n dep : ℕ) (st : Search) → dep < n → todo n (visit target dep st) ≡ todo n st
  visit-todo n dep st lt = elim (Bool-cases (dep == target)) [
    | inl t ↦ rw t refl
    | inr t ↦ elim (Bool-cases (contains dep st.visited)) [
      | inl c ↦ rw (t, c) refl
      | inr c ↦
          rw (t, c)
            (omega (
              arith,
              length-append st.queue (dep ∷ []),
              reordered,
              unset-one (seen target st.visited) dep n lt (rw (t, c) refl),
            ))
    ]
  ]
    where
      swap : (a b c : Bool) → (a || (b || c)) ≡ (b || (a || c))
      swap true true c = refl
      swap true false c = refl
      swap false b c = refl

      reordered :
          unset (seen target (dep ∷ st.visited)) n
          ≡ unset (λ i. i == dep || seen target st.visited i) n
      reordered =
          unset-cong (seen target (dep ∷ st.visited)) (λ i. i == dep || seen target st.visited i)
            (λ i. swap (i == target) (i == dep) (contains i st.visited)) n

  pub visit_all-todo :
      (n : ℕ) (deps : List ℕ) (st : Search)
      → ((i : ℕ) → contains i deps ≡ true → i < n)
      → todo n (visit_all target deps st) ≡ todo n st
  visit_all-todo n [] st inside = refl
  visit_all-todo n (dep ∷ deps) st inside =
      visit_all-todo n deps (visit target dep st) (λ i h. inside i (behind i h))
      ∙ visit-todo n dep st (inside dep here)
    where
      here : contains dep (dep ∷ deps) ≡ true
      here = ground arith

      behind : (i : ℕ) → contains i deps ≡ true → contains i (dep ∷ deps) ≡ true
      behind i h = ground arith

  pub visit_all-visited :
      (deps : List ℕ) (st : Search) (i : ℕ)
      → contains i (visit_all target deps st).visited
        ≡ ((contains i deps && not (i == target)) || contains i st.visited)
  visit_all-visited [] st i = refl
  visit_all-visited (dep ∷ deps) st i =
      rw (visit_all-visited deps (visit target dep st) i, visit-visited dep st i)
        (regroup (contains i deps) (i == dep) (i == target) (contains i st.visited))
    where
      regroup :
          (a b t v : Bool) → ((a && not t) || ((b && not t) || v)) ≡ (((b || a) && not t) || v)
      regroup a b t v = ground arith

  -- What is seen and no longer in the queue was so before.
  pub visit_all-queue :
      (deps : List ℕ) (st : Search) (i : ℕ)
      → contains i (visit_all target deps st).queue
        ≡ (contains i st.queue || (contains i deps && not (seen target st.visited i)))
  visit_all-queue [] st i = ground arith
  visit_all-queue (dep ∷ deps) st i =
      rw
        (visit_all-queue deps (visit target dep st) i, visit-queue dep st i, visit-visited dep st i)
        (regroup (contains i deps) (i == dep) (i == target) (contains i st.visited)
          (contains i st.queue))
    where
      regroup :
          (a b t v q : Bool)
          → ((q || (b && not (t || v))) || (a && not (t || ((b && not t) || v))))
            ≡ (q || ((b || a) && not (t || v)))
      regroup a b t v q = ground arith
