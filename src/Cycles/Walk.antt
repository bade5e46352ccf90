-- ===== src/Cycles/Walk.antt =====
-- The walk of `graph_has_cycle` (step_dependencies.rs) from one start.
use arazzo_cli.Base.{
  ℕ, zero, suc, ◌+◌, ◌≤◌, ◌<◌, ◌≡◌, sym, ap, ◌∙◌, String, Option, some, List, [], ◌∷◌, get_elem?,
  ◌⊎◌, inl, inr, arith, Option-cases,
}
use arazzo_cli.Cycles.{
  Mark, unvisited, in_progress, finished, Stack, marked, target_of, Walked, cycle_found,
  out_of_fuel, walked, walk,
}
use arazzo_cli.Cycles.Graph.{Leads, Reaches, Grounded}
use arazzo_cli.Cycles.Fuel.{
  open_rounds, stack_rounds, open_rounds-visit, open_rounds-finish, get_elem-below,
}
use arazzo_cli.Cycles.Marks.{Keeps, Mark-cases, Keeps-visit, Keeps-finish, none-some, some_path}
use arazzo_cli.Cycles.Progress.{Inv, pop-Inv, advance-Inv, visit-Inv, cycle_at}

module _ (depends_on : ℕ → List String) (resolve : String → Option ℕ) (n root : ℕ) where
  -- What a walk may end in, from the states that it began with: a node that the root reaches and that leads
  -- to itself, or states in which nothing is open, everything finished is grounded, and the root is finished.
  unfoldable pub Settled : (ℕ → Mark) → Walked → Type 0
  Settled states cycle_found =
      (t : ℕ) × (Reaches depends_on resolve root t) × Leads depends_on resolve t t
  Settled states out_of_fuel = ⊥
  Settled states (walked final) =
      (final root ≡ finished)
      × (((t : ℕ) → final t ≡ in_progress → ⊥)
          × (((t : ℕ) → final t ≡ finished → Grounded depends_on resolve t) × Keeps states final))

  Settled-Keeps :
      (states later : ℕ → Mark) (r : Walked)
      → Keeps states later
      → Settled later r
      → Settled states r
  unfolding Settled
  Settled-Keeps states later cycle_found keeps s = s
  Settled-Keeps states later out_of_fuel keeps s = s
  Settled-Keeps states later (walked final) keeps s =
      (s.0, (s.1.0, (s.1.1.0, λ t d. s.1.1.1 t (keeps t d))))

  module _ (resolve_bound : (d : String) (t : ℕ) → resolve d ≡ some t → t < n) where
    pub walk-Settled :
        (fuel : ℕ) (states : ℕ → Mark) (stack : Stack)
        → Inv depends_on resolve n root states stack
        → open_rounds depends_on states n + stack_rounds depends_on stack ≤ fuel
        → Settled states (walk depends_on resolve fuel states stack)
    unfolding walk Settled
    walk-Settled fuel states [] inv enough =
        (end (Mark-cases (states root)), (inv.open_nodes, (inv.ended, λ t d. d)))
      where
        end :
            (states root ≡ unvisited) ⊎ ((states root ≡ in_progress) ⊎ (states root ≡ finished))
            → states root ≡ finished
        end (inl h) = absurd (inv.begun h)
        end (inr (inl h)) = absurd (inv.open_nodes root h)
        end (inr (inr h)) = h
    walk-Settled zero states ((i, c) ∷ rest) inv enough = absurd (omega arith)
    walk-Settled (suc fuel) states ((i, c) ∷ rest) inv enough =
        elim (Option-cases (get_elem? (depends_on i) c)) [
          | inl h ↦ rw h (
              Settled-Keeps states (marked i finished states)
                (walk depends_on resolve fuel (marked i finished states) rest)
                (Keeps-finish states i)
                (walk-Settled fuel (marked i finished states) rest
                  (pop-Inv depends_on resolve n root states i c rest h inv)
                  (omega (arith, open_rounds-finish depends_on states i n))))
          | inr (d, h) ↦ elim (Option-cases (resolve d)) [
            | inl r ↦
                rw (h, r)
                  (walk-Settled fuel states ((i, suc c) ∷ rest)
                    (advance-Inv depends_on resolve n root states i c rest
                      (λ t e.
                        absurd
                          (none-some (sym r ∙ (sym (ap (target_of depends_on resolve) h) ∙ e))))
                      inv)
                    (omega (arith, get_elem-below (depends_on i) c d h)))
            | inr (t, r) ↦
                let e = ap (target_of depends_on resolve) h ∙ r in
                elim (Mark-cases (states t)) [
                  | inl new ↦
                      rw (h, r, new)
                        (Settled-Keeps states (marked t in_progress states)
                          (walk depends_on resolve fuel (marked t in_progress states)
                            ((t, 0) ∷ (i, suc c) ∷ rest))
                          (Keeps-visit states t new)
                          (walk-Settled fuel (marked t in_progress states)
                            ((t, 0) ∷ (i, suc c) ∷ rest)
                            (visit-Inv depends_on resolve n root states i c rest t e
                              (resolve_bound d t r) new inv)
                            (omega (
                              arith,
                              get_elem-below (depends_on i) c d h,
                              open_rounds-visit depends_on states t n (resolve_bound d t r) new,
                            ))))
                  | inr (inl busy) ↦
                      rw (h, r, busy)
                        (let (reached, round) =
                            cycle_at depends_on resolve n root states i c rest t inv.frames
                              (inv.open_nodes t busy) (c, e) in
                          (t, reached, round))
                  | inr (inr done) ↦
                      rw (h, r, done)
                        (walk-Settled fuel states ((i, suc c) ∷ rest)
                          (advance-Inv depends_on resolve n root states i c rest
                            (λ x f. ap states (some_path (sym f ∙ e)) ∙ done) inv)
                          (omega (arith, get_elem-below (depends_on i) c d h)))
                ]
          ]
        ]
