-- ===== src/Parameters/Overlay.antt =====
-- What a step's effective parameters are (effective_step.rs), and that the runtime merges the same
-- list (`merge_workflow_params` of engine_impl.rs).
use arazzo_cli.Base.{
  ℕ, suc, ◌+◌, ◌≡◌, refl, ap, ◌∙◌, Bool, true, false, not, ◌&&◌, ◌||◌, Option, none, some, List, [],
  ◌∷◌, ◌++◌, ◌==◌, get_elem?, All, str_eq, if◌then◌else◌, Bool-cases, inl, inr, arith, eq_iff,
  ==_iff, Option-cases, append-nil, All-append,
}
use arazzo_cli.Spec.{Parameter, Step, Workflow}
use arazzo_cli.Parameters.{
  Identity, identity, same_identity, holds_identity, EffectiveParameterOrigin, of_workflow, of_step,
  EffectiveParameterRef, tag, is_none_left, inherited, declared, effective_step_parameters,
  not_overridden, merge_workflow_params, is_workflow_target,
}

abbrev pub parameters_of : List EffectiveParameterRef → List Parameter
parameters_of [] = []
parameters_of (e ∷ es) = e.parameter ∷ parameters_of es

-- The declarations of an identity, in order.
abbrev pub declarations : Identity → List Parameter → List Parameter
declarations id [] = []
declarations id (p ∷ ps) =
    let rest = declarations id ps in if same_identity (identity p) id then p ∷ rest else rest

abbrev step_parameter : Option Step → ℕ → Option Parameter
step_parameter none i = none
step_parameter (some s) i = get_elem? s.parameters i

-- The declaration that an origin names.
abbrev pub declared_at : Workflow → EffectiveParameterOrigin → Option Parameter
declared_at w (of_workflow i) = get_elem? w.parameters i
declared_at w (of_step k i) = step_parameter (get_elem? w.steps k) i

-- What the effective parameters of a step are: those that the runtime merges, each with the place of its own
-- declaration; the step's declarations of an identity if it has one, and otherwise the workflow's.
pub record IsOverlay (w : Workflow) (s : Step) (es : List EffectiveParameterRef) : Type 0 where
  pub merged :
      is_workflow_target s.target ≡ false → parameters_of es ≡ merge_workflow_params w.parameters s
  pub located : All (λ e. declared_at w e.origin ≡ some e.parameter) es
  pub chosen :
      (id : Identity)
      → declarations id (parameters_of es) ≡ (
          if holds_identity s.parameters id
          then declarations id s.parameters
          else declarations id w.parameters)

parameters_of-append :
    (es fs : List EffectiveParameterRef)
    → parameters_of (es ++ fs) ≡ parameters_of es ++ parameters_of fs
parameters_of-append [] fs = refl
parameters_of-append (e ∷ es) fs = ap (λ ps. e.parameter ∷ ps) (parameters_of-append es fs)

parameters_of-inherited :
    (own : List Parameter) (i : ℕ) (ps : List Parameter)
    → parameters_of (inherited own i ps) ≡ not_overridden own ps
unfolding inherited not_overridden
parameters_of-inherited own i [] = refl
parameters_of-inherited own i (p ∷ ps) = elim (Bool-cases (holds_identity own (identity p))) [
  | inl h ↦ rw h (parameters_of-inherited own (suc i) ps)
  | inr h ↦ rw h (ap (λ qs. p ∷ qs) (parameters_of-inherited own (suc i) ps))
]

parameters_of-declared : (k i : ℕ) (ps : List Parameter) → parameters_of (declared k i ps) ≡ ps
unfolding declared
parameters_of-declared k i [] = refl
parameters_of-declared k i (p ∷ ps) = ap (λ qs. p ∷ qs) (parameters_of-declared k (suc i) ps)

declarations-append :
    (id : Identity) (ps qs : List Parameter)
    → declarations id (ps ++ qs) ≡ declarations id ps ++ declarations id qs
declarations-append id [] qs = refl
declarations-append id (p ∷ ps) qs = elim (Bool-cases (same_identity (identity p) id)) [
  | inl h ↦ rw h (ap (λ rs. p ∷ rs) (declarations-append id ps qs))
  | inr h ↦ rw h (declarations-append id ps qs)
]

same_parts : (a b : Identity) → same_identity a b ≡ true → (a.0 ≡ b.0) × (tag a.1 ≡ tag b.1)
same_parts a b h =
    let both = and_parts (str_eq a.0 b.0) (tag a.1 == tag b.1) h in
    ((eq_iff a.0 b.0).0 both.0, (==_iff (tag a.1) (tag b.1)).0 both.1)
  where
    and_parts : (x y : Bool) → (x && y) ≡ true → (x ≡ true) × (y ≡ true)
    and_parts x y e = ground arith

same_identity-right :
    (p a b : Identity) → same_identity a b ≡ true → same_identity p a ≡ same_identity p b
same_identity-right p a b h =
    let parts = same_parts a b h in
    ap (λ n. str_eq p.0 n && tag p.1 == tag a.1) parts.0
    ∙ ap (λ t. str_eq p.0 b.0 && tag p.1 == t) parts.1

-- Two parameters of one identity are overridden alike.
holds_identity-same :
    (a b : Identity) (own : List Parameter)
    → same_identity a b ≡ true
    → holds_identity own a ≡ holds_identity own b
holds_identity-same a b [] h = refl
holds_identity-same a b (p ∷ own) h =
    both (same_identity-right (identity p) a b h) (holds_identity-same a b own h)
  where
    both : {x x' y y' : Bool} → x ≡ x' → y ≡ y' → (x || y) ≡ (x' || y')
    both e f = rw (e, f) refl

declarations-none :
    (id : Identity) (ps : List Parameter) → holds_identity ps id ≡ false → declarations id ps ≡ []
declarations-none id [] h = refl
declarations-none id (p ∷ ps) h = elim (Bool-cases (same_identity (identity p) id)) [
  | inl same ↦ absurd (ground arith)
  | inr other ↦ rw other (declarations-none id ps (rw other at h))
]

declarations-not_overridden :
    (id : Identity) (own ps : List Parameter)
    → declarations id (not_overridden own ps)
      ≡ (if holds_identity own id then [] else declarations id ps)
unfolding not_overridden
declarations-not_overridden id own [] = elim (Bool-cases (holds_identity own id)) [
  | inl h ↦ rw h refl
  | inr h ↦ rw h refl
]
declarations-not_overridden id own (p ∷ ps) = elim (Bool-cases (same_identity (identity p) id)) [
  | inl same ↦ elim (Bool-cases (holds_identity own id)) [
    | inl h ↦
        rw (holds_identity-same (identity p) id own same, h)
          (declarations-not_overridden id own ps ∙ rw h refl)
    | inr h ↦
        rw (holds_identity-same (identity p) id own same, h, same)
          (ap (λ qs. p ∷ qs) (declarations-not_overridden id own ps ∙ rw h refl))
  ]
  | inr other ↦ elim (Bool-cases (holds_identity own (identity p))) [
    | inl h ↦ rw (h, other) (declarations-not_overridden id own ps)
    | inr h ↦ rw (h, other) (declarations-not_overridden id own ps)
  ]
]

chosen_from :
    (id : Identity) (own ps : List Parameter)
    → declarations id (not_overridden own ps ++ own)
      ≡ (if holds_identity own id then declarations id own else declarations id ps)
chosen_from id own ps = elim (Bool-cases (holds_identity own id)) [
  | inl h ↦
      rw
        (
          declarations-append id (not_overridden own ps) own,
          declarations-not_overridden id own ps,
          h,
        )
        refl
  | inr h ↦
      rw
        (
          declarations-append id (not_overridden own ps) own,
          declarations-not_overridden id own ps,
          h,
          declarations-none id own h,
        )
        (append-nil (declarations id ps))
]

-- `xs` from the index `i` of `ys` on.
From : {A : Type 0} → List A → ℕ → List A → Type 0
From {A} ys i xs = (k : ℕ) → get_elem? ys (i + k) ≡ get_elem? xs k

tail-From :
    {A : Type 0} (ys : List A) (i : ℕ) (x : A) (xs : List A)
    → From ys i (x ∷ xs)
    → From ys (suc i) xs
unfolding From
tail-From ys i x xs h k = ap (get_elem? ys) (omega arith) ∙ h (suc k)

head-From :
    {A : Type 0} (ys : List A) (i : ℕ) (x : A) (xs : List A)
    → From ys i (x ∷ xs)
    → get_elem? ys i ≡ some x
unfolding From
head-From ys i x xs h = ap (get_elem? ys) (omega arith) ∙ h 0

From-start : {A : Type 0} (xs : List A) → From xs 0 xs
unfolding From
From-start xs k = ap (get_elem? xs) (omega arith)

module _ (w : Workflow) where
  abbrev Located : EffectiveParameterRef → Type 0
  Located e = declared_at w e.origin ≡ some e.parameter

  inherited-Located :
      (own : List Parameter) (i : ℕ) (ps : List Parameter)
      → From w.parameters i ps
      → All Located (inherited own i ps)
  unfolding inherited
  inherited-Located own i [] h = tt
  inherited-Located own i (p ∷ ps) h =
      let rest = inherited-Located own (suc i) ps (tail-From w.parameters i p ps h) in
      elim (Bool-cases (holds_identity own (identity p))) [
        | inl o ↦ rw o rest
        | inr o ↦ rw o (head-From w.parameters i p ps h, rest)
      ]

  declared-Located :
      (k i : ℕ) (s : Step) (ps : List Parameter)
      → get_elem? w.steps k ≡ some s
      → From s.parameters i ps
      → All Located (declared k i ps)
  unfolding declared
  declared-Located k i s [] at h = tt
  declared-Located k i s (p ∷ ps) at h = (
    rw at (head-From s.parameters i p ps h),
    declared-Located k (suc i) s ps at (tail-From s.parameters i p ps h),
  )

merged_from :
    (ps own : List Parameter)
    → not_overridden own ps ++ own
      ≡ (if not (is_none_left ps) then not_overridden own ps ++ own else own)
unfolding not_overridden
merged_from [] own = refl
merged_from (p ∷ ps) own = refl

abbrev pub IsOverlayOf : Workflow → Option Step → Option (List EffectiveParameterRef) → Type 0
IsOverlayOf w none none = Unit
IsOverlayOf w (some s) (some es) = IsOverlay w s es
IsOverlayOf w _ _ = ⊥

-- For every workflow and index, there are effective parameters exactly when there is such a step. They are
-- what the runtime merges for it, unless it calls a workflow; each names the place of its own declaration;
-- and for every identity they hold the step's declarations in order, or the workflow's when the step has none.
pub effective_step_parameters-IsOverlay :
    (w : Workflow) (step_index : ℕ)
    → IsOverlayOf w (get_elem? w.steps step_index) (effective_step_parameters w step_index)
unfolding effective_step_parameters merge_workflow_params
effective_step_parameters-IsOverlay w step_index =
    elim (Option-cases (get_elem? w.steps step_index)) [
      | inl h ↦ rw h tt
      | inr (s, h) ↦ rw h (
          let own = s.parameters in
          let names =
            parameters_of-append (inherited own 0 w.parameters) (declared step_index 0 own)
            ∙ (rw
                (
                  parameters_of-inherited own 0 w.parameters,
                  parameters_of-declared step_index 0 own,
                )
                refl) in
          record {
            merged = λ target. names ∙ rw target (merged_from w.parameters own);
            located =
                All-append (Located w) (inherited own 0 w.parameters) (declared step_index 0 own)
                  (inherited-Located w own 0 w.parameters (From-start w.parameters))
                  (declared-Located w step_index 0 s own h (From-start own));
            chosen = λ id. ap (declarations id) names ∙ chosen_from id own w.parameters;
          })
    ]
