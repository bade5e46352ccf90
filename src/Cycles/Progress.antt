-- ===== src/Cycles/Progress.antt =====
-- The invariant of the walk of `graph_has_cycle` (step_dependencies.rs) and how a round keeps it.
use arazzo_cli.Base.{
  ℕ, suc, ◌<◌, ◌≡◌, refl, sym, ap, subst, ◌∙◌, String, false, Option, none, some, List, [], ◌∷◌,
  ◌==◌, get_elem?, ◌⊎◌, inl, inr, arith, Bool-cases, Option-cases, ==_iff, ⊎_elim,
}
use arazzo_cli.Cycles.{Mark, unvisited, in_progress, finished, Stack, marked, target_of}
use arazzo_cli.Cycles.Graph.{
  target_at, Edge, Leads, one, more, Reaches, Reaches-step, Grounded, grounded, OnStack,
}
use arazzo_cli.Cycles.Fuel.{get_elem-below, get_elem-end}
use arazzo_cli.Cycles.Marks.{
  Keeps, marked-itself, marked-other, Keeps-visit, Keeps-finish, none-some, some_path,
  distinct_marks, progress_not_new,
}

module _ (depends_on : ℕ → List String) (resolve : String → Option ℕ) (n root : ℕ) where
  -- The entries that a frame has passed lead to finished nodes, or to the node of the frame above.
  pub record IsPassed (states : ℕ → Mark) (above : Option ℕ) (i c : ℕ) : Type 0 where
    pub inside : i < n
    pub reached : Reaches depends_on resolve root i
    pub passed :
        (k t : ℕ)
        → k < c
        → target_at depends_on resolve i k ≡ some t
        → (states t ≡ finished) ⊎ (above ≡ some t)
    pub leads : (t : ℕ) → above ≡ some t → Edge depends_on resolve i t

  abbrev pub Passed : (ℕ → Mark) → Option ℕ → Stack → Type 0
  Passed states above [] = Unit
  Passed states above ((i, c) ∷ rest) = IsPassed states above i c × Passed states (some i) rest

  pub record Inv (states : ℕ → Mark) (stack : Stack) : Type 0 where
    pub begun : states root ≡ unvisited → ⊥
    pub open_nodes : (t : ℕ) → states t ≡ in_progress → OnStack t stack
    pub ended : (t : ℕ) → states t ≡ finished → Grounded depends_on resolve t
    pub frames : Passed states none stack

  Passed-Keeps :
      (states later : ℕ → Mark) (above : Option ℕ) (stack : Stack)
      → Keeps states later
      → Passed states above stack
      → Passed later above stack
  Passed-Keeps states later above [] keeps p = tt
  Passed-Keeps states later above ((i, c) ∷ rest) keeps p = (
    (record {
      inside = p.0.inside;
      reached = p.0.reached;
      passed = λ k t lt e. ⊎_elim (λ d. inl (keeps t d)) (λ a. inr a) (p.0.passed k t lt e);
      leads = p.0.leads;
    }),
    Passed-Keeps states later (some i) rest keeps p.1,
  )

  -- Below a frame on the stack, every node leads to the frame's.
  climbs :
      (states : ℕ → Mark) (x : ℕ) (stack : Stack) (t : ℕ)
      → Passed states (some x) stack
      → OnStack t stack
      → Leads depends_on resolve t x
  climbs states x [] t p h = absurd h
  climbs states x ((i, c) ∷ rest) t p (inl same) =
      let e = p.0.leads x refl in one t x (e.0, rw same e.1)
  climbs states x ((i, c) ∷ rest) t p (inr deeper) =
      more t i x (climbs states i rest t p.1 deeper) (p.0.leads x refl)

  pub cycle_at :
      (states : ℕ → Mark) (i c : ℕ) (rest : Stack) (t : ℕ)
      → Passed states none ((i, c) ∷ rest)
      → OnStack t ((i, c) ∷ rest)
      → Edge depends_on resolve i t
      → Reaches depends_on resolve root t × Leads depends_on resolve t t
  cycle_at states i c rest t p (inl same) e = (
    inr (Reaches-step depends_on resolve root i t p.0.reached e),
    one t t (e.0, subst (λ x. target_at depends_on resolve x e.0 ≡ some t) (sym same) e.1),
  )
  cycle_at states i c rest t p (inr deeper) e = (
    inr (Reaches-step depends_on resolve root i t p.0.reached e),
    more t i t (climbs states i rest t p.1 deeper) e,
  )

  -- An entry beyond the last leads nowhere.
  target_at-below :
      (i c k t : ℕ)
      → get_elem? (depends_on i) c ≡ none
      → target_at depends_on resolve i k ≡ some t
      → k < c
  target_at-below i c k t end e = elim (Option-cases (get_elem? (depends_on i) k)) [
    | inl h ↦ absurd (none-some (sym (ap (target_of depends_on resolve) h) ∙ e))
    | inr (a, h) ↦
        omega (arith, get_elem-below (depends_on i) k a h, get_elem-end (depends_on i) c end)
  ]

  -- The last entry of the top frame has been passed.
  pub pop-Inv :
      (states : ℕ → Mark) (i c : ℕ) (rest : Stack)
      → get_elem? (depends_on i) c ≡ none
      → Inv states ((i, c) ∷ rest)
      → Inv (marked i finished states) rest
  pop-Inv states i c rest end inv = record {
    begun = λ h. elim (Bool-cases (root == i)) [
      | inl same ↦ absurd (distinct_marks.1.1 (sym (rw same refl) ∙ h))
      | inr other ↦ inv.begun (sym (marked-other i root finished states other) ∙ h)
    ];
    open_nodes = λ t h. elim (Bool-cases (t == i)) [
      | inl same ↦ absurd (distinct_marks.1.0 (sym h ∙ rw same refl))
      | inr other ↦
          ⊎_elim (λ at_i. absurd (ne other at_i)) (λ deeper. deeper)
            (inv.open_nodes t (sym (marked-other i t finished states other) ∙ h))
    ];
    ended = λ t h. elim (Bool-cases (t == i)) [
      | inl same ↦ rw ((==_iff t i).0 same) (
          grounded i (λ t e.
            ⊎_elim (λ d. inv.ended t d) (λ a. absurd (none-some a))
              (inv.frames.0.passed e.0 t (target_at-below i c e.0 t end e.1) e.1)))
      | inr other ↦ inv.ended t (sym (marked-other i t finished states other) ∙ h)
    ];
    frames = below rest inv.frames.1;
  }
    where
      ne : {t : ℕ} → (t == i) ≡ false → t ≡ i → ⊥
      ne other at_i = ground arith

      below :
          (stack : Stack)
          → Passed states (some i) stack
          → Passed (marked i finished states) none stack
      below [] p = tt
      below ((j, d) ∷ stack) p = (
        (record {
          inside = p.0.inside;
          reached = p.0.reached;
          passed = λ k t lt e.
              ⊎_elim (λ done. inl (Keeps-finish states i t done))
                (λ a. inl (
                  ap (marked i finished states) (sym (some_path a))
                  ∙ marked-itself i finished states))
                (p.0.passed k t lt e);
          leads = λ t h. absurd (cc);
        }),
        Passed-Keeps states (marked i finished states) (some j) stack (Keeps-finish states i) p.1,
      )

  below_suc : (k c : ℕ) → k < suc c → (k < c) ⊎ (k ≡ c)
  below_suc k c lt = ground arith

  -- The next entry leads to a finished node, or nowhere.
  pub advance-Inv :
      (states : ℕ → Mark) (i c : ℕ) (rest : Stack)
      → ((t : ℕ) → target_at depends_on resolve i c ≡ some t → states t ≡ finished)
      → Inv states ((i, c) ∷ rest)
      → Inv states ((i, suc c) ∷ rest)
  advance-Inv states i c rest settled inv = record {
    begun = inv.begun;
    open_nodes = inv.open_nodes;
    ended = inv.ended;
    frames = (
      (record {
        inside = inv.frames.0.inside;
        reached = inv.frames.0.reached;
        passed = λ k t lt e.
            ⊎_elim (λ before. inv.frames.0.passed k t before e)
              (λ now.
                inl (settled t (subst (λ m. target_at depends_on resolve i m ≡ some t) now e)))
              (below_suc k c lt);
        leads = inv.frames.0.leads;
      }),
      inv.frames.1,
    );
  }

  -- The next entry leads to a node that no one has visited.
  pub visit-Inv :
      (states : ℕ → Mark) (i c : ℕ) (rest : Stack) (t : ℕ)
      → target_at depends_on resolve i c ≡ some t
      → t < n
      → states t ≡ unvisited
      → Inv states ((i, c) ∷ rest)
      → Inv (marked t in_progress states) ((t, 0) ∷ (i, suc c) ∷ rest)
  visit-Inv states i c rest t e lt new inv = record {
    begun = λ h. elim (Bool-cases (root == t)) [
      | inl same ↦ absurd (progress_not_new (sym (rw same refl) ∙ h))
      | inr other ↦ inv.begun (sym (marked-other t root in_progress states other) ∙ h)
    ];
    open_nodes = λ x h. elim (Bool-cases (x == t)) [
      | inl same ↦ inl ((==_iff x t).0 same)
      | inr other ↦ inr (inv.open_nodes x (sym (marked-other t x in_progress states other) ∙ h))
    ];
    ended = λ x h. elim (Bool-cases (x == t)) [
      | inl same ↦ absurd (distinct_marks.1.0 (sym (rw same refl) ∙ h))
      | inr other ↦ inv.ended x (sym (marked-other t x in_progress states other) ∙ h)
    ];
    frames = (
      (record {
        inside = lt;
        reached = inr (Reaches-step depends_on resolve root i t inv.frames.0.reached (c, e));
        passed = λ k x below e. absurd (omega arith);
        leads = λ x h. absurd (cc);
      }),
      (
        (record {
          inside = inv.frames.0.inside;
          reached = inv.frames.0.reached;
          passed = λ k x lt f.
              ⊎_elim
                (λ before.
                  ⊎_elim (λ d. inl (Keeps-visit states t new x d)) (λ a. absurd (none-some a))
                    (inv.frames.0.passed k x before f))
                (λ now. inr (sym e ∙ subst (λ m. target_at depends_on resolve i m ≡ some x) now f))
                (below_suc k c lt);
          leads = λ x h. (c, e ∙ h);
        }),
        Passed-Keeps states (marked t in_progress states) (some i) rest (Keeps-visit states t new)
            inv.frames.1,
      ),
    );
  }

  -- The walk of an unvisited root begins.
  pub start-Inv :
      (states : ℕ → Mark)
      → root < n
      → ((t : ℕ) → states t ≡ in_progress → ⊥)
      → ((t : ℕ) → states t ≡ finished → Grounded depends_on resolve t)
      → Inv (marked root in_progress states) ((root, 0) ∷ [])
  start-Inv states lt closed ended = record {
    begun = λ h. progress_not_new (sym (marked-itself root in_progress states) ∙ h);
    open_nodes = λ x h. elim (Bool-cases (x == root)) [
      | inl same ↦ inl ((==_iff x root).0 same)
      | inr other ↦ absurd (closed x (sym (marked-other root x in_progress states other) ∙ h))
    ];
    ended = λ x h. elim (Bool-cases (x == root)) [
      | inl same ↦ absurd (distinct_marks.1.0 (sym (rw same refl) ∙ h))
      | inr other ↦ ended x (sym (marked-other root x in_progress states other) ∙ h)
    ];
    frames = (
      (record {
        inside = lt;
        reached = inl refl;
        passed = λ k t below e. absurd (omega arith);
        leads = λ t h. absurd (cc);
      }),
      tt,
    );
  }
