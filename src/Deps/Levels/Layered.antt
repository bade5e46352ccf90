-- ===== src/Deps/Levels/Layered.antt =====
-- The levels of `build_levels` (deps.rs) are a layering of the steps, or the steps have a cycle.
use arazzo_cli.Base.{
  ℕ, zero, suc, ◌+◌, ◌≤◌, ◌<◌, ◌≡◌, refl, sym, ◌∙◌, ap, Bool, true, false, not, ◌&&◌, ◌||◌, Option,
  none, some, List, [], ◌∷◌, length, ◌==◌, ltb, leb, arith, Bool-cases, List-cases, inl, inr,
}
use arazzo_cli.Errors.{Result, ok, err, dependency_cycle}
use arazzo_cli.Deps.IndexSet.{contains, distinct}
use arazzo_cli.Deps.Levels.{
  Work, release_all, is_ready, level_from, is_nil, with_level, levels_from, start,
}
use arazzo_cli.Deps.Levels.Sets.{
  Agrees, release_all-Agrees, release_all-assigned, release_all-deps, release_all-remaining,
  contains-level_from, distinct-level_from,
}
use arazzo_cli.Deps.Levels.Count.{unset, unset-all, unset-set, unset-found, unset-none}

-- The steps that `before` holds and those of the levels are all `n` steps; no step is named
-- twice, and what a step depends on lies in `before` or in an earlier level than the step.
abbrev pub Layered : ℕ → (ℕ → List ℕ) → (ℕ → Bool) → List (List ℕ) → Type 0
Layered n deps before [] = (i : ℕ) → i < n → before i ≡ true
Layered n deps before (level ∷ levels) =
    (distinct level ≡ true)
    × ((i : ℕ)
        → contains i level ≡ true
        → (i < n) × (before i ≡ false) × ((x : ℕ) → contains x (deps i) ≡ true → before x ≡ true))
    × Layered n deps (λ i. contains i level || before i) levels

-- Some steps depend on one another: each of them depends on one of them.
pub record Cyclic (n : ℕ) (deps : ℕ → List ℕ) : Type 0 where
  pub member : ℕ → Bool
  pub one : ℕ
  pub one_is : (one < n) × (member one ≡ true)
  pub depends :
      (i : ℕ)
      → i < n
      → member i ≡ true
      → (x : ℕ) × (x < n) × (member x ≡ true) × (contains x (deps i) ≡ true)

abbrev pub Levelled : ℕ → (ℕ → List ℕ) → (ℕ → Bool) → Option (Result (List (List ℕ))) → Type 0
Levelled n deps before none = ⊥
Levelled n deps before (some (ok levels)) = Layered n deps before levels
Levelled n deps before (some (err e)) = (e ≡ dependency_cycle) × Cyclic n deps

contains-empty : (x : ℕ) (s : List ℕ) → length s ≡ 0 → contains x s ≡ false
contains-empty x [] h = refl
contains-empty x (y ∷ s) h = absurd (omega (arith, h))

some_member : (s : List ℕ) → (length s == 0) ≡ false → (x : ℕ) × (contains x s ≡ true)
some_member [] h = absurd (ground arith)
some_member (x ∷ s) h = (x, ground arith)

both : (a b : Bool) → (a && b) ≡ true → (a ≡ true) × (b ≡ true)
both a b h = ground arith

module _ (n : ℕ) (deps : ℕ → List ℕ) (inside : (d x : ℕ) → contains x (deps d) ≡ true → x < n) where
  -- What the state knows when the steps in `before` have been released.
  record Inv (st : Work) (before : ℕ → Bool) : Type 0 where
    pub agrees : Agrees st
    pub assigned_at : (i : ℕ) → st.assigned i ≡ before i
    pub deps_at : (d x : ℕ) → contains x (st.deps d) ≡ (not (before x) && contains x (deps d))
    pub remaining_is : st.remaining ≡ unset before n

  module _ (st : Work) (before : ℕ → Bool) (inv : Inv st before) where
    abbrev level : List ℕ
    level = level_from st n 0

    ready-facts :
        (i : ℕ)
        → contains i level ≡ true
        → (i < n) × (before i ≡ false) × ((x : ℕ) → contains x (deps i) ≡ true → before x ≡ true)
    ready-facts i h =
        let (bounds, ready) =
          both (leb 0 i && ltb i (0 + n)) (is_ready st i)
            (sym (contains-level_from st n 0 i) ∙ h) in
        let (unassigned, no_deps) = both (not (st.assigned i)) (st.indegree i == 0) ready in
        let seen = inv.assigned_at i in
        (
          ground arith,
          ground arith,
          λ x e. released x e (contains-empty x (st.deps i) (empty no_deps)),
        )
      where
        empty : (st.indegree i == 0) ≡ true → length (st.deps i) ≡ 0
        empty e = let size = inv.agrees.size_at i in ground arith

        released :
            (x : ℕ) → contains x (deps i) ≡ true → contains x (st.deps i) ≡ false → before x ≡ true
        released x e none_left = let at_x = inv.deps_at i x in ground arith

    Inv-next : Inv (release_all st level) (λ i. contains i level || before i)
    Inv-next = record {
      agrees = release_all-Agrees st level inv.agrees;
      assigned_at = λ i. rw (release_all-assigned st level i, inv.assigned_at i) refl;
      deps_at = λ d x. rw (release_all-deps st level d x, inv.deps_at d x) (ground arith);
      remaining_is = omega (
        arith,
        inv.remaining_is,
        release_all-remaining st level,
        unset-set before n level (distinct-level_from st n 0)
            (λ i h. let (lt, un, rest) = ready-facts i h in (lt, un)),
      );
    }

    stuck : level ≡ [] → 0 < st.remaining → Cyclic n deps
    stuck empty some_left = record {
      member = λ i. not (before i);
      one = found.0;
      one_is = (found.1, rw found.2 refl);
      depends = λ i lt is. depends_on i lt (unset_at i is);
    }
      where
        found : (i : ℕ) × (i < n) × (before i ≡ false)
        found = unset-found before n (omega (arith, inv.remaining_is))

        unset_at : (i : ℕ) → not (before i) ≡ true → before i ≡ false
        unset_at i e = ground arith

        not_ready : (i : ℕ) → i < n → is_ready st i ≡ false
        not_ready i lt =
            let all = contains-level_from st n 0 i in
            let none_in = ap (contains i) empty in ground arith

        waits : (i : ℕ) → i < n → before i ≡ false → (length (st.deps i) == 0) ≡ false
        waits i lt un =
            let unready = not_ready i lt in
            let size = inv.agrees.size_at i in let seen = inv.assigned_at i in ground arith

        depends_on :
            (i : ℕ)
            → i < n
            → before i ≡ false
            → (x : ℕ) × (x < n) × (not (before x) ≡ true) × (contains x (deps i) ≡ true)
        depends_on i lt un =
            let (x, is) = some_member (st.deps i) (waits i lt un) in
            let (waiting, dep) =
              both (not (before x)) (contains x (deps i)) (sym (inv.deps_at i x) ∙ is) in
            (x, inside i x dep, waiting, dep)

    with_level-Levelled :
        (r : Option (Result (List (List ℕ))))
        → Levelled n deps (λ i. contains i level || before i) r
        → Levelled n deps before (with_level level r)
    with_level-Levelled none h = h
    with_level-Levelled (some (ok levels)) h = (distinct-level_from st n 0, ready-facts, h)
    with_level-Levelled (some (err e)) h = h

  levels_from-Levelled :
      (fuel : ℕ) (st : Work) (before : ℕ → Bool)
      → Inv st before
      → st.remaining ≤ fuel
      → Levelled n deps before (levels_from fuel n st)
  unfolding levels_from
  levels_from-Levelled zero st before inv fits = rw (no_more (omega arith)) (all_set (omega arith))
    where
      no_more : st.remaining ≡ 0 → (st.remaining == 0) ≡ true
      no_more e = ground arith

      all_set : st.remaining ≡ 0 → (i : ℕ) → i < n → before i ≡ true
      all_set e = unset-none before n (omega (arith, inv.remaining_is))
  levels_from-Levelled (suc fuel) st before inv fits = elim (Bool-cases (st.remaining == 0)) [
    | inl e ↦ rw e (unset-none before n (none_left e))
    | inr e ↦ rw e (elim (List-cases (level_from st n 0)) [
      | inl empty ↦ rw empty (refl, stuck st before inv empty (some_left e))
      | inr (x, rest, is) ↦ rw (full x rest is) (
          with_level-Levelled st before inv
            (levels_from fuel n (release_all st (level_from st n 0)))
            (levels_from-Levelled fuel (release_all st (level_from st n 0)) _
              (Inv-next st before inv) (fewer x rest is)))
    ])
  ]
    where
      none_left : (st.remaining == 0) ≡ true → unset before n ≡ 0
      none_left e = let is = inv.remaining_is in ground arith

      some_left : (st.remaining == 0) ≡ false → 0 < st.remaining
      some_left e = ground arith

      full :
          (x : ℕ) (rest : List ℕ)
          → level_from st n 0 ≡ x ∷ rest
          → is_nil (level_from st n 0) ≡ false
      full x rest is = rw is refl

      fewer :
          (x : ℕ) (rest : List ℕ)
          → level_from st n 0 ≡ x ∷ rest
          → (release_all st (level_from st n 0)).remaining ≤ fuel
      fewer x rest is = omega (arith, ap length is, release_all-remaining st (level_from st n 0))

  start-Inv : ((d : ℕ) → distinct (deps d) ≡ true) → Inv (start n deps) (λ i. false)
  start-Inv no_repeats = record {
    agrees = record { distinct_at = no_repeats; size_at = λ d. refl };
    assigned_at = λ i. refl;
    deps_at = λ d x. refl;
    remaining_is = sym (unset-all n);
  }

  pub levels-Levelled :
      ((d : ℕ) → distinct (deps d) ≡ true)
      → Levelled n deps (λ i. false) (levels_from n n (start n deps))
  levels-Levelled no_repeats =
      levels_from-Levelled n (start n deps) (λ i. false) (start-Inv no_repeats) (omega arith)

-- A layering leaves no cycle: of the members of a cycle, none can be the first to be placed.
pub Layered-acyclic :
    (n : ℕ) (deps : ℕ → List ℕ) (before : ℕ → Bool) (levels : List (List ℕ)) (c : Cyclic n deps)
    → ((i : ℕ) → i < n → c.member i ≡ true → before i ≡ false)
    → Layered n deps before levels
    → ⊥
Layered-acyclic n deps before [] c outside h =
    let never = outside c.one c.one_is.0 c.one_is.1 in
    let placed = h c.one c.one_is.0 in absurd (ground arith)
Layered-acyclic n deps before (level ∷ levels) c outside (d, facts, h) =
    Layered-acyclic n deps (λ i. contains i level || before i) levels c
      (λ i lt is. elim (Bool-cases (contains i level)) [
        | inl e ↦ absurd (too_early i lt is e)
        | inr e ↦ rw (e, outside i lt is) refl
      ])
      h
  where
    too_early : (i : ℕ) → i < n → c.member i ≡ true → contains i level ≡ true → ⊥
    too_early i lt is e =
        let (x, x_lt, x_is, dep) = c.depends i lt is in
        let (inside, fresh, earlier) = facts i e in
        let placed = earlier x dep in let never = outside x x_lt x_is in ground arith
