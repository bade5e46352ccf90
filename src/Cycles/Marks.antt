-- ===== src/Cycles/Marks.antt =====
-- The marks of `graph_has_cycle` (step_dependencies.rs), and what setting one changes.
use arazzo_cli.Base.{
  ℕ, ◌≡◌, refl, sym, ap, ◌∙◌, true, false, none, some, ◌==◌, ◌⊎◌, inl, inr, arith, Bool-cases,
  ==_iff, unwrap_or,
}
use arazzo_cli.Cycles.{Mark, unvisited, in_progress, finished, marked}

-- What is finished stays finished.
abbrev pub Keeps : (ℕ → Mark) → (ℕ → Mark) → Type 0
Keeps states later = (t : ℕ) → states t ≡ finished → later t ≡ finished

pub marked-itself : (i : ℕ) (m : Mark) (states : ℕ → Mark) → marked i m states i ≡ m
marked-itself i m states = rw itself refl
  where
    itself : (i == i) ≡ true
    itself = ground arith

pub marked-other :
    (i j : ℕ) (m : Mark) (states : ℕ → Mark) → (j == i) ≡ false → marked i m states j ≡ states j
marked-other i j m states h = rw h refl

pub none-some : {A : Type 0} {a : A} → none ≡ some a → ⊥
none-some h = absurd (cc)

pub some_path : {a b : ℕ} → some a ≡ some b → a ≡ b
some_path {a} {b} h = ap (unwrap_or a) h

pub progress_not_new : in_progress ≡ unvisited → ⊥
progress_not_new h = absurd (cc)

pub distinct_marks :
    (unvisited ≡ finished → ⊥) × ((in_progress ≡ finished → ⊥) × (finished ≡ unvisited → ⊥))
distinct_marks = ((λ h. absurd (cc)), ((λ h. absurd (cc)), (λ h. absurd (cc))))

pub Mark-cases : (m : Mark) → (m ≡ unvisited) ⊎ ((m ≡ in_progress) ⊎ (m ≡ finished))
Mark-cases unvisited = inl refl
Mark-cases in_progress = inr (inl refl)
Mark-cases finished = inr (inr refl)

pub Keeps-visit :
    (states : ℕ → Mark) (t : ℕ) → states t ≡ unvisited → Keeps states (marked t in_progress states)
Keeps-visit states t new j done = elim (Bool-cases (j == t)) [
  | inl same ↦ absurd (distinct_marks.0 (sym new ∙ ap states (sym ((==_iff j t).0 same)) ∙ done))
  | inr other ↦ marked-other t j in_progress states other ∙ done
]

pub Keeps-finish : (states : ℕ → Mark) (i : ℕ) → Keeps states (marked i finished states)
Keeps-finish states i j done = elim (Bool-cases (j == i)) [
  | inl same ↦ rw same refl
  | inr other ↦ marked-other i j finished states other ∙ done
]
