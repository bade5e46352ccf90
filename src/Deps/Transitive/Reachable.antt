-- ===== src/Deps/Transitive/Reachable.antt =====
-- `compute_transitive_deps` (deps.rs) collects exactly the steps that the target's references
-- lead to.
use arazzo_cli.Base.{
  ℕ, zero, suc, ◌≤◌, ◌<◌, ◌≡◌, ◌≢◌, ◌↔◌, refl, sym, ◌∙◌, subst, String, Bool, true, false, not,
  ◌&&◌, ◌||◌, Option, none, some, List, [], ◌∷◌, ◌==◌, length, get_elem?, arith, Bool-cases,
  Option-cases, inl, inr,
}
use arazzo_cli.Spec.{Workflow}
use arazzo_cli.Errors.{Result, ok, err, step_not_found}
use arazzo_cli.Deps.IndexSet.{contains}
use arazzo_cli.Deps.Edges.{last_index}
use arazzo_cli.Deps.Build.{last_index-bound, resolved-bound}
use arazzo_cli.Deps.Levels.Count.{unset, unset-cong, unset-one, unset-all}
use arazzo_cli.Deps.Transitive.{
  Search, visit_all, references, refs_of, search, found_all, transitive_from,
  compute_transitive_deps,
}
use arazzo_cli.Deps.Transitive.Visits.{
  seen, todo, visit_all-todo, visit_all-visited, visit_all-queue,
}

-- References lead from a step to another, in one step or more.
pub data Leads (refs : ℕ → List ℕ) (from : ℕ) : ℕ → Type 0 where
  direct : (x : ℕ) → contains x (refs from) ≡ true → Leads refs from x
  further : (x y : ℕ) → Leads refs from y → contains x (refs y) ≡ true → Leads refs from x

-- The set holds every step but the target that references of the target lead to, and no other.
abbrev pub Collects : (ℕ → List ℕ) → ℕ → List ℕ → Type 0
Collects refs target s = (x : ℕ) → (contains x s ≡ true) ↔ ((x ≢ target) × Leads refs target x)

module _ (n : ℕ) (refs : ℕ → List ℕ) (inside : (d x : ℕ) → contains x (refs d) ≡ true → x < n)
    (target : ℕ) where
  record Inv (visited queue : List ℕ) : Type 0 where
    pub led : (x : ℕ) → contains x visited ≡ true → (x ≢ target) × Leads refs target x
    pub queued : (x : ℕ) → contains x queue ≡ true → seen target visited x ≡ true
    -- What a step refers to has been seen once the step is through.
    pub through :
        (p d : ℕ)
        → seen target visited p ≡ true
        → contains p queue ≡ false
        → contains d (refs p) ≡ true
        → seen target visited d ≡ true

  module _ (visited queue : List ℕ) (idx : ℕ) (inv : Inv visited (idx ∷ queue)) where
    abbrev next : Search
    next = visit_all target (refs idx) (record { visited = visited; queue = queue })

    led-next : (x : ℕ) → contains x next.visited ≡ true → (x ≢ target) × Leads refs target x
    led-next x h = elim (Bool-cases (contains x visited)) [
      | inl before ↦ inv.led x before
      | inr fresh ↦ (not_target fresh, through_idx (referred fresh))
    ]
      where
        split :
            contains x next.visited
            ≡ ((contains x (refs idx) && not (x == target)) || contains x visited)
        split = visit_all-visited target (refs idx) (record { visited = visited; queue = queue }) x

        not_target : contains x visited ≡ false → x ≢ target
        not_target fresh e = let known = split in ground arith

        referred : contains x visited ≡ false → contains x (refs idx) ≡ true
        referred fresh = let known = split in ground arith

        idx_seen : seen target visited idx ≡ true
        idx_seen = inv.queued idx (ground arith)

        at_target : contains idx visited ≡ false → idx ≡ target
        at_target fresh = let known = idx_seen in ground arith

        through_idx : contains x (refs idx) ≡ true → Leads refs target x
        through_idx is = elim (Bool-cases (contains idx visited)) [
          | inl before ↦ further x idx (inv.led idx before).1 is
          | inr fresh ↦ direct x (subst (λ i. contains x (refs i) ≡ true) (at_target fresh) is)
        ]

    queued-next : (x : ℕ) → contains x next.queue ≡ true → seen target next.visited x ≡ true
    queued-next x h =
        let split =
          visit_all-visited target (refs idx) (record { visited = visited; queue = queue }) x in
        let into =
          visit_all-queue target (refs idx) (record { visited = visited; queue = queue }) x in
        rw split (
          still (contains x (refs idx)) (x == target) (contains x visited) (contains x queue) was
            (sym into ∙ h))
      where
        was : contains x queue ≡ true → (x == target || contains x visited) ≡ true
        was q = inv.queued x (ground arith)

        still :
            (a t v q : Bool)
            → (q ≡ true → (t || v) ≡ true)
            → (q || (a && not (t || v))) ≡ true
            → (t || ((a && not t) || v)) ≡ true
        still a t v q w e = ground arith

    through-next :
        (p d : ℕ)
        → seen target next.visited p ≡ true
        → contains p next.queue ≡ false
        → contains d (refs p) ≡ true
        → seen target next.visited d ≡ true
    through-next p d h q is = elim (Bool-cases (p == idx)) [
      | inl at_idx ↦ rw (new d) (
          now (contains d (refs idx)) (d == target) (contains d visited)
            (subst (λ i. contains d (refs i) ≡ true) (same at_idx) is))
      | inr off ↦ rw (new d) (
          later (contains d (refs idx)) (d == target) (contains d visited)
            (inv.through p d was (waits off) is))
    ]
      where
        new :
            (x : ℕ)
            → contains x next.visited
              ≡ ((contains x (refs idx) && not (x == target)) || contains x visited)
        new x = visit_all-visited target (refs idx) (record { visited = visited; queue = queue }) x

        into :
            contains p next.queue
            ≡ (contains p queue || (contains p (refs idx) && not (seen target visited p)))
        into = visit_all-queue target (refs idx) (record { visited = visited; queue = queue }) p

        same : (p == idx) ≡ true → p ≡ idx
        same e = ground arith

        waits : (p == idx) ≡ false → contains p (idx ∷ queue) ≡ false
        waits off = let known = into in ground arith

        was : seen target visited p ≡ true
        was = let known = into in let seen_now = new p in ground arith

        now : (a t v : Bool) → a ≡ true → (t || ((a && not t) || v)) ≡ true
        now a t v e = ground arith

        later : (a t v : Bool) → (t || v) ≡ true → (t || ((a && not t) || v)) ≡ true
        later a t v e = ground arith

    Inv-next : Inv next.visited next.queue
    Inv-next = record { led = led-next; queued = queued-next; through = through-next }

  Inv-Collects : (visited : List ℕ) → Inv visited [] → Collects refs target visited
  Inv-Collects visited inv x = (inv.led x, λ (ne, leads). on_target ne (reached x leads))
    where
      at_start : seen target visited target ≡ true
      at_start = ground arith

      reached : (x : ℕ) → Leads refs target x → seen target visited x ≡ true
      reached y (direct x h) = inv.through target x at_start refl h
      reached z (further x y leads h) = inv.through y x (reached y leads) refl h

      on_target : x ≢ target → seen target visited x ≡ true → contains x visited ≡ true
      on_target ne s = ground arith

  search-Collects :
      (fuel : ℕ) (visited queue : List ℕ)
      → Inv visited queue
      → todo target n (record { visited = visited; queue = queue }) ≤ fuel
      → (s : List ℕ) × (search fuel refs target visited queue ≡ some s) × Collects refs target s
  unfolding search
  search-Collects zero visited [] inv fits = (visited, refl, Inv-Collects visited inv)
  search-Collects (suc fuel) visited [] inv fits = (visited, refl, Inv-Collects visited inv)
  search-Collects zero visited (idx ∷ queue) inv fits = absurd (omega arith)
  search-Collects (suc fuel) visited (idx ∷ queue) inv fits =
      let st = next visited queue idx inv in
      search-Collects fuel st.visited st.queue (Inv-next visited queue idx inv) (
        omega (
          arith,
          visit_all-todo target n (refs idx) (record { visited = visited; queue = queue })
              (inside idx),
        ))

  start-Inv : Inv [] (target ∷ [])
  start-Inv = record {
    led = λ x h. absurd (ground arith);
    queued = λ x h. ground arith;
    through = λ p d h q is. absurd (ground arith);
  }

  pub search-Collects_enough :
      target < n
      → (s : List ℕ) × (search n refs target [] (target ∷ []) ≡ some s) × Collects refs target s
  search-Collects_enough lt = search-Collects n [] (target ∷ []) start-Inv (omega (arith, others))
    where
      others : suc (unset (seen target []) n) ≡ n
      others = omega (
        arith,
        unset-one (λ i. false) target n lt refl,
        unset-cong (seen target []) (λ i. i == target || false) (λ i. refl) n,
        unset-all n,
      )

-- The result for a target that `found` is the index of, if the workflow has one.
abbrev pub Collected : Workflow → Option ℕ → Option (Result (List ℕ)) → Type 0
Collected w found none = ⊥
Collected w found (some (err e)) = (e ≡ step_not_found) × (found ≡ none)
Collected w found (some (ok s)) =
    (target : ℕ) × (found ≡ some target) × Collects (references w) target s

-- For every workflow and step id, `compute_transitive_deps` returns. Its error is that no step has
-- the id; and if a step has it, the set that is returned holds a step exactly if it is not the
-- target and references of the target lead to it, in one step or more.
pub compute_transitive_deps-Collected :
    (w : Workflow) (id : String)
    → Collected w (last_index 0 w.steps id) (compute_transitive_deps w id)
unfolding compute_transitive_deps transitive_from found_all references
compute_transitive_deps-Collected w id = elim (Option-cases (last_index 0 w.steps id)) [
  | inl e ↦ rw e (refl, refl)
  | inr (target, e) ↦
      let (s, is, collects) =
        search-Collects_enough (length w.steps) (references w)
          (λ d x h. resolved-bound w.steps (refs_of (get_elem? w.steps d)) x h) target
          (omega (arith, last_index-bound 0 w.steps id target e)) in
      rw (e, is) (target, refl, collects)
]
