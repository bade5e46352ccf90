-- ===== src/Routing/Selects.antt =====
-- The search of engine_actions.rs finds the first matching action.
use arazzo_cli.Base.{
  ℕ, zero, suc, ◌+◌, ◌<◌, ◌≡◌, refl, Bool, true, false, ◌&&◌, none, some, List, [], ◌∷◌, get_elem?,
  drop, Bool-cases, arith, inl, inr, if◌then◌else◌,
}
use arazzo_cli.Spec.{OnAction, SuccessCriterion}
use arazzo_cli.Env.{Env, ActionBranch, pure, action_checkpoint, criterion_checkpoint}
use arazzo_cli.Env.Interrupts.{
  Refines, Refines-bind, Refines-then, Refines-pure, Refines-check, Refines-gate,
}
use arazzo_cli.Routing.Decision.{Evaluator, MatchedAction}
use arazzo_cli.Routing.Select.{criteria_match, first_match, find_matching_action_from}
use arazzo_cli.Routing.Reference.{all_matched, first_matching}

module _ (env : Env) (ev : Evaluator) (branch : ActionBranch) where
  criteria_match-Refines :
      (i j : ℕ) (cs : List SuccessCriterion)
      → Refines env (λ b. b ≡ all_matched ev cs) (criteria_match env ev branch i j cs)
  unfolding criteria_match
  criteria_match-Refines i j [] = Refines-pure true refl
  criteria_match-Refines i j (c ∷ cs) = Refines-then (Refines-check env) (
      Refines-then (Refines-gate env (criterion_checkpoint branch i j)) (
        Refines-then (Refines-check env)
          (rest (ev.matched c) (criteria_match-Refines i (j + 1) cs))))
    where
      rest :
          (b : Bool)
          → Refines env (λ b. b ≡ all_matched ev cs) (criteria_match env ev branch i (j + 1) cs)
          → Refines env
              (λ r. r ≡ (b && all_matched ev cs))
              (if b then criteria_match env ev branch i (j + 1) cs else pure false)
      rest true ih = ih
      rest false ih = Refines-pure false refl

  first_match-Refines :
      (i : ℕ) (actions : List OnAction)
      → Refines env (λ r. r ≡ first_matching ev i actions) (first_match env ev branch i actions)
  unfolding first_match first_matching
  first_match-Refines i [] = Refines-pure none refl
  first_match-Refines i (a ∷ actions) = Refines-then (Refines-check env) (
      Refines-then (Refines-gate env (action_checkpoint branch i)) (
        Refines-then (Refines-check env) (
          Refines-bind (λ b. b ≡ all_matched ev a.criteria) (criteria_match-Refines i 0 a.criteria)
            λ b e. rw (← e) (rest b (first_match-Refines (i + 1) actions)))))
    where
      rest :
          (b : Bool)
          → Refines env
              (λ r. r ≡ first_matching ev (i + 1) actions)
              (first_match env ev branch (i + 1) actions)
          → Refines env
              (λ r. r ≡ (
                if b
                then some (record { index = i; action = a })
                else first_matching ev (i + 1) actions))
              (if b
                then pure (some (record { index = i; action = a }))
                else first_match env ev branch (i + 1) actions)
      rest true ih = Refines-pure _ refl
      rest false ih = ih

  pub find-Refines :
      (actions : List OnAction) (start : ℕ)
      → Refines env
          (λ r. r ≡ first_matching ev start (drop start actions))
          (find_matching_action_from env ev branch actions start)
  unfolding find_matching_action_from
  find-Refines actions start =
      Refines-then (Refines-check env) (first_match-Refines start (drop start actions))

pub first_matching-none :
    (ev : Evaluator) (i : ℕ) (l : List OnAction)
    → first_matching ev i l ≡ none
    → (j : ℕ) (a : OnAction) → get_elem? l j ≡ some a
    → all_matched ev a.criteria ≡ false
unfolding first_matching
first_matching-none ev i [] h j a e = cc
first_matching-none ev i (b ∷ l) h zero a e = ground (arith)
first_matching-none ev i (b ∷ l) h (suc j) a e =
    first_matching-none ev (i + 1) l (ground arith) j a e

-- The match found in a suffix stands at a position of the suffix, and nothing before it matches.
pub first_matching-some :
    (ev : Evaluator) (i : ℕ) (l : List OnAction) (m : MatchedAction)
    → first_matching ev i l ≡ some m
    → (k : ℕ) × (m.index ≡ i + k)
      × (get_elem? l k ≡ some m.action)
      × (all_matched ev m.action.criteria ≡ true)
      × ((j : ℕ) (a : OnAction)
          → j < k
          → get_elem? l j ≡ some a
          → all_matched ev a.criteria ≡ false)
unfolding first_matching
first_matching-some ev i [] m h = absurd (cc)
first_matching-some ev i (b ∷ l) m h = elim (Bool-cases (all_matched ev b.criteria)) [
  | inl hit ↦
      let e = rw hit at h in
      (0, ground arith, ground arith, ground arith, λ j a lt _. absurd (omega arith))
  | inr miss ↦
      let (k, at_k, elem, hit, before) = first_matching-some ev (i + 1) l m (rw miss at h) in
      (suc k, omega arith, elem, hit, skip miss k before)
]
  where
    skip :
        all_matched ev b.criteria ≡ false
        → (k : ℕ)
        → ((j : ℕ) (a : OnAction)
            → j < k
            → get_elem? l j ≡ some a
            → all_matched ev a.criteria ≡ false)
        → (j : ℕ) (a : OnAction) → j < suc k
        → get_elem? (b ∷ l) j ≡ some a
        → all_matched ev a.criteria ≡ false
    skip miss k before zero a lt e = ground arith
    skip miss k before (suc j) a lt e = before j a (omega arith) e
