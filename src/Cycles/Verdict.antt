-- ===== src/Cycles/Verdict.antt =====
-- The searches of step_dependencies.rs find a cycle exactly when there is one.
use arazzo_cli.Base.{
  ℕ, ◌<◌, ◌≡◌, refl, sym, ◌↔◌, String, Bool, true, false, Option, none, some, List, [], ◌∷◌, inl,
  inr, arith, In, ⊎_elim,
}
use arazzo_cli.Cycles.{
  Mark, unvisited, in_progress, finished, marked, Walked, cycle_found, out_of_fuel, walked, walk,
  after_walk, search_starts, rounds, graph_has_cycle,
}
use arazzo_cli.Cycles.Graph.{Leads, Reaches, Grounded, Grounded-Leads, Grounded-no_cycle}
use arazzo_cli.Cycles.Fuel.{open_rounds-bound, open_rounds-visit}
use arazzo_cli.Cycles.Marks.{Mark-cases}
use arazzo_cli.Cycles.Progress.{start-Inv}
use arazzo_cli.Cycles.Walk.{Settled, walk-Settled}

-- An answer, which is "yes" exactly when the statement holds.
abbrev pub Decides : Option Bool → Type 0 → Type 0
Decides answer P = (b : Bool) × (answer ≡ some b) × ((b ≡ true) ↔ P)

pub Decides-iff :
    (answer : Option Bool) (P Q : Type 0) → (P ↔ Q) → Decides answer P → Decides answer Q
Decides-iff answer P Q h (b, is, meant) = (b, is, ((λ e. h.0 (meant.0 e)), (λ q. meant.1 (h.1 q))))

module _ (depends_on : ℕ → List String) (resolve : String → Option ℕ) where
  -- A node that the start reaches leads to itself.
  abbrev pub CycleFrom : ℕ → Type 0
  CycleFrom start = (t : ℕ) × (Reaches depends_on resolve start t) × (Leads depends_on resolve t t)

  -- The answer to a search from these starts, which is always one.
  unfoldable pub Verdict : List ℕ → Option Bool → Type 0
  Verdict starts none = ⊥
  Verdict starts (some true) = (start : ℕ) × (In start starts) × CycleFrom start
  Verdict starts (some false) = (start : ℕ) → In start starts → Grounded depends_on resolve start

  -- Between two walks nothing is open.
  record IsClosed (states : ℕ → Mark) : Type 0 where
    pub closed : (t : ℕ) → states t ≡ in_progress → ⊥
    pub ended : (t : ℕ) → states t ≡ finished → Grounded depends_on resolve t

  more_starts :
      (start : ℕ) (starts : List ℕ) (r : Option Bool)
      → Grounded depends_on resolve start
      → Verdict starts r
      → Verdict (start ∷ starts) r
  unfolding Verdict
  more_starts start starts (some true) g v = (v.0, inr v.1, v.2)
  more_starts start starts (some false) g v =
      λ s at. ⊎_elim (λ same. rw same g) (λ later. v s later) at
  more_starts start starts none g v = v

  module _ (n : ℕ) (resolve_bound : (d : String) (t : ℕ) → resolve d ≡ some t → t < n) where
    after_walk-Verdict :
        (start : ℕ) (starts : List ℕ) (states : ℕ → Mark) (next : (ℕ → Mark) → Option Bool)
        (r : Walked)
        → ((final : ℕ → Mark) → IsClosed final → Verdict starts (next final))
        → Settled depends_on resolve n start states r
        → Verdict (start ∷ starts) (after_walk depends_on resolve next r)
    unfolding Settled Verdict
    after_walk-Verdict start starts states next cycle_found rest s = (start, inl refl, s)
    after_walk-Verdict start starts states next out_of_fuel rest s = s
    after_walk-Verdict start starts states next (walked final) rest s =
        more_starts start starts (next final) (s.1.1.0 start s.0)
          (rest final (record { closed = s.1.0; ended = s.1.1.0 }))

    search_starts-Verdict :
        (starts : List ℕ) (states : ℕ → Mark)
        → ((s : ℕ) → In s starts → s < n)
        → IsClosed states
        → Verdict starts (search_starts depends_on resolve (rounds depends_on n) starts states)
    unfolding search_starts Verdict
    search_starts-Verdict [] states inside c = λ s at. absurd at
    search_starts-Verdict (start ∷ starts) states inside c = elim (Mark-cases (states start)) [
      | inl new ↦ rw new (
          after_walk-Verdict start starts (marked start in_progress states)
            (search_starts depends_on resolve (rounds depends_on n) starts)
            (walk depends_on resolve (rounds depends_on n) (marked start in_progress states)
              ((start, 0) ∷ []))
            (λ final closed. search_starts-Verdict starts final (λ s at. inside s (inr at)) closed)
            (walk-Settled depends_on resolve n start resolve_bound (rounds depends_on n)
              (marked start in_progress states) ((start, 0) ∷ [])
              (start-Inv depends_on resolve n start states (inside start (inl refl)) c.closed
                c.ended)
              (omega (
                arith,
                open_rounds-visit depends_on states start n (inside start (inl refl)) new,
                open_rounds-bound depends_on states n,
              ))))
      | inr (inl busy) ↦ absurd (c.closed start busy)
      | inr (inr done) ↦ rw done (
          more_starts start starts
            (search_starts depends_on resolve (rounds depends_on n) starts states)
            (c.ended start done)
            (search_starts-Verdict starts states (λ s at. inside s (inr at)) c))
    ]

    pub graph_has_cycle-Verdict :
        (starts : List ℕ)
        → ((s : ℕ) → In s starts → s < n)
        → Verdict starts (graph_has_cycle depends_on resolve n starts)
    unfolding graph_has_cycle
    graph_has_cycle-Verdict starts inside =
        search_starts-Verdict starts (λ i. unvisited) inside
          (record { closed = λ t h. absurd (cc); ended = λ t h. absurd (cc) })

  Grounded-no_start : (start : ℕ) → Grounded depends_on resolve start → CycleFrom start → ⊥
  Grounded-no_start start g (t, inl same, l) =
      Grounded-no_cycle depends_on resolve t (rw (sym same) g) l
  Grounded-no_start start g (t, inr r, l) =
      Grounded-no_cycle depends_on resolve t (Grounded-Leads depends_on resolve start t g r) l

  pub Verdict-Decides :
      (starts : List ℕ) (r : Option Bool)
      → Verdict starts r
      → Decides r ((start : ℕ) × (In start starts) × CycleFrom start)
  unfolding Verdict
  Verdict-Decides starts none v = absurd v
  Verdict-Decides starts (some true) v = (true, refl, ((λ h. v), (λ p. refl)))
  Verdict-Decides starts (some false) v =
      (false, refl, ((λ h. absurd (cc)), (λ p. absurd (Grounded-no_start p.0 (v p.0 p.1) p.2))))
