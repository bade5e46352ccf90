-- ===== src/Cycles/Graph.antt =====
-- The graph that `graph_has_cycle` (step_dependencies.rs) searches, and its stack as a path.
use arazzo_cli.Base.{ℕ, ◌≡◌, refl, String, Option, some, List, [], ◌∷◌, get_elem?, ◌⊎◌, inl, inr}
use arazzo_cli.Cycles.{Stack, target_of}

module _ (depends_on : ℕ → List String) (resolve : String → Option ℕ) where
  abbrev pub target_at : ℕ → ℕ → Option ℕ
  target_at i k = target_of depends_on resolve (get_elem? (depends_on i) k)

  -- One of the node's entries leads to the other.
  abbrev pub Edge : ℕ → ℕ → Type 0
  Edge i t = (k : ℕ) × (target_at i k ≡ some t)

  -- One or more edges lead from the one to the other.
  pub data Leads : ℕ → ℕ → Type 0 where
    one : (i t : ℕ) → Edge i t → Leads i t
    more : (i t j : ℕ) → Leads i t → Edge t j → Leads i j

  abbrev pub Reaches : ℕ → ℕ → Type 0
  Reaches i j = (i ≡ j) ⊎ Leads i j

  -- Every path from the node ends.
  pub data Grounded : ℕ → Type 0 where
    grounded : (i : ℕ) → ((t : ℕ) → Edge i t → Grounded t) → Grounded i

  pub Reaches-step : (i t j : ℕ) → Reaches i t → Edge t j → Leads i j
  Reaches-step i t j (inl same) e = one i j (e.0, rw same e.1)
  Reaches-step i t j (inr l) e = more i t j l e

  pub Leads-trans : (i t j : ℕ) → Leads i t → Leads t j → Leads i j
  Leads-trans i t j l (one _ _ e) = more i t j l e
  Leads-trans i t j l (more _ m _ k e) = more i m j (Leads-trans i t m l k) e

  Grounded-edge : (i t : ℕ) → Grounded i → Edge i t → Grounded t
  Grounded-edge i t (grounded _ below) e = below t e

  pub Grounded-Leads : (i j : ℕ) → Grounded i → Leads i j → Grounded j
  Grounded-Leads i j g (one _ _ e) = Grounded-edge i j g e
  Grounded-Leads i j g (more _ t _ l e) = Grounded-edge t j (Grounded-Leads i t g l) e

  -- The first edge of a path.
  pub first : (i j : ℕ) → Leads i j → (t : ℕ) × (Edge i t) × (Reaches t j)
  first i j (one _ _ e) = (j, e, inl refl)
  first i j (more _ t _ l e) = let (m, f, r) = first i t l in (m, f, inr (Reaches-step m t j r e))

  -- No cycle lies on a path from such a node.
  pub Grounded-no_cycle : (i : ℕ) → Grounded i → Leads i i → ⊥
  Grounded-no_cycle i (grounded _ below) l =
      let (t, e, r) = first i i l in Grounded-no_cycle t (below t e) (Reaches-step t i t r e)

-- Whether a frame is of the node.
abbrev pub OnStack : ℕ → Stack → Type 0
OnStack t [] = ⊥
OnStack t ((i, c) ∷ rest) = (t ≡ i) ⊎ OnStack t rest
