-- ===== src/Budget/Left.antt =====
-- The retries that are left at all sites, and that each counted retry uses one of them up.
use arazzo_cli.Base.{
  ℕ, zero, suc, ◌+◌, ◌-◌, ◌<◌, ◌≡◌, ◌≢◌, refl, subst, true, List, [], ◌∷◌, some, get_elem?,
  if◌then◌else◌, arith,
}
use arazzo_cli.Spec.{ActionType, OnAction, Step, action_type, is_retry}
use arazzo_cli.Routing.Decision.{RetryCounts, effective_retry_limit}
use arazzo_cli.Budget.{failure_list, count_retry}

-- The retries left at the actions of a list, the first of which has the index `b`.
abbrev pub left_at : (ℕ → ℕ) → ℕ → List OnAction → ℕ
left_at c b [] = 0
left_at c b (a ∷ rest) =
    (if is_retry (action_type a) then effective_retry_limit a.retry_limit - c b else 0)
    + left_at c (b + 1) rest

-- The retries left at the steps of a list, the first of which has the index `b`.
abbrev pub left_in : List OnAction → RetryCounts → ℕ → List Step → ℕ
left_in w counts b [] = 0
left_in w counts b (s ∷ steps) =
    left_at (counts b) 0 (failure_list w s) + left_in w counts (b + 1) steps

module _ (c c' : ℕ → ℕ) (k : ℕ) (others : (m : ℕ) → m ≢ k → c' m ≡ c m) where
  left_at-behind : (b : ℕ) (l : List OnAction) → k < b → left_at c' b l ≡ left_at c b l
  left_at-behind b [] h = refl
  left_at-behind b (a ∷ l) h =
      let e : c' b ≡ c b = others b (λ e. omega arith) in
      rw (e, left_at-behind (b + 1) l (omega arith))

  left_at-used :
      (b : ℕ) (l : List OnAction) (j : ℕ) (a : OnAction)
      → c' k ≡ suc (c k)
      → b + j ≡ k
      → get_elem? l j ≡ some a
      → action_type a ≡ ActionType.retry
      → c k < effective_retry_limit a.retry_limit
      → suc (left_at c' b l) ≡ left_at c b l
  left_at-used b [] j a up at_k elem retries lt = absurd (cc)
  left_at-used b (x ∷ l) zero a up at_k elem retries lt =
      let same : x ≡ a = ground arith in
      let here : b ≡ k = omega arith in
      let counted : is_retry (action_type x) ≡ true = rw same (rw retries) in
      let up' : c' b ≡ suc (c b) = rw here up in
      let lt' : c b < effective_retry_limit x.retry_limit = rw (here, same) lt in
      let rest : left_at c' (b + 1) l ≡ left_at c (b + 1) l =
        left_at-behind (b + 1) l (omega arith) in
      rw (counted, up', rest) (omega arith)
  left_at-used b (x ∷ l) (suc j) a up at_k elem retries lt =
      let e : c' b ≡ c b = others b (λ e. omega arith) in
      rw e (omega (arith, left_at-used (b + 1) l j a up (omega arith) elem retries lt))

module _ (w : List OnAction) (counts : RetryCounts) (i k : ℕ) where
  abbrev counted : RetryCounts
  counted = count_retry counts (record { step_index = i; action_index = k })

  pub count_retry_self : counted i k ≡ suc (counts i k)
  unfolding count_retry
  count_retry_self = ground arith

  pub count_retry_other : (m : ℕ) → m ≢ k → counted i m ≡ counts i m
  unfolding count_retry
  count_retry_other m ne = ground arith

  count_retry-other_step : (b m : ℕ) → b ≢ i → counted b m ≡ counts b m
  unfolding count_retry
  count_retry-other_step b m ne = ground arith

  pub left_at-other_step :
      (b : ℕ)
      → b ≢ i
      → (n : ℕ) (l : List OnAction) → left_at (counted b) n l ≡ left_at (counts b) n l
  left_at-other_step b ne n [] = refl
  left_at-other_step b ne n (a ∷ l) =
      rw (count_retry-other_step b n ne, left_at-other_step b ne (n + 1) l)

  left_in-behind :
      (b : ℕ) (steps : List Step) → i < b → left_in w counted b steps ≡ left_in w counts b steps
  left_in-behind b [] h = refl
  left_in-behind b (s ∷ steps) h = rw (
    left_at-other_step b (λ e. omega arith) 0 (failure_list w s),
    left_in-behind (b + 1) steps (omega arith),
  )

  -- If the action at the index `k` of a step's failure list is a retry whose count is below its
  -- effective limit, then counting one more retry at its site takes exactly one off the retries
  -- left at the sites of all steps.
  pub left_in-used :
      (b j : ℕ) (steps : List Step) (s : Step) (a : OnAction)
      → b + j ≡ i
      → get_elem? steps j ≡ some s
      → get_elem? (failure_list w s) k ≡ some a
      → action_type a ≡ ActionType.retry
      → counts i k < effective_retry_limit a.retry_limit
      → suc (left_in w counted b steps) ≡ left_in w counts b steps
  left_in-used b j [] s a at_i elem act retries lt = absurd (cc)
  left_in-used b zero (x ∷ steps) s a at_i elem act retries lt =
      let same : s ≡ x = ground arith in
      let here : i ≡ b = omega arith in
      let used =
        left_at-used (counts i) (counted i) k count_retry_other 0 (failure_list w s) k a
          count_retry_self (omega arith) act retries lt in
      let rest = left_in-behind (b + 1) steps (omega arith) in
      let at_x =
        subst
          (λ y.
            suc (left_at (counted i) 0 (failure_list w y))
            ≡ left_at (counts i) 0 (failure_list w y))
          same used in
      let at_b =
        subst
          (λ t.
            suc (left_at (counted t) 0 (failure_list w x))
            ≡ left_at (counts t) 0 (failure_list w x))
          here at_x in
      omega (arith, at_b, rest)
  left_in-used b (suc j) (x ∷ steps) s a at_i elem act retries lt =
      let rest = left_in-used (b + 1) j steps s a (omega arith) elem act retries lt in
      rw (left_at-other_step b (λ e. omega arith) 0 (failure_list w x)) (omega (arith, rest))
