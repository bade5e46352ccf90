-- ===== src/Debug/Stack.antt =====
-- `upsert_stack_frame` of crates/arazzo-runtime/src/debug/controller.rs.
use arazzo_cli.Base.{
  ℕ, zero, suc, ◌+◌, ◌-◌, ◌≤◌, ◌<◌, ◌≡◌, refl, String, some, List, [], ◌∷◌, ◌++◌, length,
  length-append, get_elem?, take, ltb, ltb→lt, ltb→ge, if◌then◌else◌, arith, Bool-cases, inl, inr,
  ◌∙◌, ap,
}

pub record DebugStackFrame : Type 0 where
  pub depth : ℕ
  pub workflow_id : String
  pub step_id : String

-- `while stack.len() <= depth`, with `missing` frames to add.
abbrev pub fill : (missing : ℕ) → List DebugStackFrame → List DebugStackFrame
fill zero stack = stack
fill (suc missing) stack =
    fill missing (stack ++ (record { depth = length stack; workflow_id = ""; step_id = "" } ∷ []))

-- `if stack.len() > depth { truncate } else { fill }`.
unfoldable pub resized : List DebugStackFrame → ℕ → List DebugStackFrame
resized stack depth =
    if ltb depth (length stack)
    then take (suc depth) stack
    else fill (suc depth - length stack) stack

-- `stack.get_mut(depth)`: the frame keeps its depth.
abbrev pub name_frame : List DebugStackFrame → ℕ → String → String → List DebugStackFrame
name_frame [] i workflow_id step_id = []
name_frame (f ∷ stack) zero workflow_id step_id =
    record { depth = f.depth; workflow_id = workflow_id; step_id = step_id } ∷ stack
name_frame (f ∷ stack) (suc i) workflow_id step_id = f ∷ name_frame stack i workflow_id step_id

unfoldable pub upsert_stack_frame :
    List DebugStackFrame → String → String → ℕ → List DebugStackFrame
unfolding resized
upsert_stack_frame stack workflow_id step_id depth =
    name_frame (resized stack depth) depth workflow_id step_id

-- Every frame of the stack holds its own position as its depth.
abbrev pub HasDepths : ℕ → List DebugStackFrame → Type 0
HasDepths b [] = Unit
HasDepths b (f ∷ stack) = (f.depth ≡ b) × HasDepths (b + 1) stack

length-name_frame :
    (s : List DebugStackFrame) (i : ℕ) (w t : String) → length (name_frame s i w t) ≡ length s
length-name_frame [] i w t = refl
length-name_frame (f ∷ s) zero w t = refl
length-name_frame (f ∷ s) (suc i) w t = ap suc (length-name_frame s i w t)

length-take : (n : ℕ) (s : List DebugStackFrame) → n ≤ length s → length (take n s) ≡ n
length-take zero s h = refl
length-take (suc n) [] h = absurd (omega arith)
length-take (suc n) (f ∷ s) h = ap suc (length-take n s (omega arith))

length-fill : (m : ℕ) (s : List DebugStackFrame) → length (fill m s) ≡ m + length s
length-fill zero s = omega arith
length-fill (suc m) s =
    let frame : DebugStackFrame = record { depth = length s; workflow_id = ""; step_id = "" } in
    omega (arith, length-fill m (s ++ (frame ∷ [])), length-append s (frame ∷ []))

length-resized : (s : List DebugStackFrame) (d : ℕ) → length (resized s d) ≡ suc d
unfolding resized
length-resized s d = elim (Bool-cases (ltb d (length s))) [
  | inl e ↦ rw e (length-take (suc d) s (omega (arith, ltb→lt d (length s) e)))
  | inr e ↦ rw e (omega (arith, length-fill (suc d - length s) s, ltb→ge d (length s) e))
]

HasDepths-name_frame :
    (b : ℕ) (s : List DebugStackFrame) (i : ℕ) (w t : String)
    → HasDepths b s
    → HasDepths b (name_frame s i w t)
HasDepths-name_frame b [] i w t h = h
HasDepths-name_frame b (f ∷ s) zero w t h = h
HasDepths-name_frame b (f ∷ s) (suc i) w t (e, h) = (e, HasDepths-name_frame (b + 1) s i w t h)

HasDepths-take : (b n : ℕ) (s : List DebugStackFrame) → HasDepths b s → HasDepths b (take n s)
HasDepths-take b zero s h = tt
HasDepths-take b (suc n) [] h = tt
HasDepths-take b (suc n) (f ∷ s) (e, h) = (e, HasDepths-take (b + 1) n s h)

HasDepths-snoc :
    (b : ℕ) (s : List DebugStackFrame) (f : DebugStackFrame)
    → f.depth ≡ b + length s
    → HasDepths b s
    → HasDepths b (s ++ (f ∷ []))
HasDepths-snoc b [] f e h = (omega (arith, e), tt)
HasDepths-snoc b (g ∷ s) f e (p, h) = (p, HasDepths-snoc (b + 1) s f (omega (arith, e)) h)

HasDepths-fill : (m : ℕ) (s : List DebugStackFrame) → HasDepths 0 s → HasDepths 0 (fill m s)
HasDepths-fill zero s h = h
HasDepths-fill (suc m) s h = HasDepths-fill m _ (
    HasDepths-snoc 0 s (record { depth = length s; workflow_id = ""; step_id = "" }) (omega arith)
      h)

get_elem?-name_frame :
    (s : List DebugStackFrame) (i : ℕ) (w t : String)
    → i < length s
    → (f : DebugStackFrame) × (get_elem? (name_frame s i w t) i ≡ some f)
      × (f.workflow_id ≡ w)
      × (f.step_id ≡ t)
get_elem?-name_frame [] i w t h = absurd (omega arith)
get_elem?-name_frame (f ∷ s) zero w t h = (_, refl, refl, refl)
get_elem?-name_frame (f ∷ s) (suc i) w t h = get_elem?-name_frame s i w t (omega arith)

pub HasDepths-upsert :
    (s : List DebugStackFrame) (w t : String) (d : ℕ)
    → HasDepths 0 s
    → HasDepths 0 (upsert_stack_frame s w t d)
unfolding upsert_stack_frame
HasDepths-upsert s w t d h = HasDepths-name_frame 0 (resized s d) d w t resized-HasDepths
  where
    resized-HasDepths : HasDepths 0 (resized s d)
    resized-HasDepths = elim (Bool-cases (ltb d (length s))) [
      | inl e ↦ rw e (HasDepths-take 0 (suc d) s h)
      | inr e ↦ rw e (HasDepths-fill (suc d - length s) s h)
    ]

-- After an arrival at a depth, the stack ends with the frame of that depth, which names the
-- workflow and step that arrived; and if the frames held their positions as depths, they still do.
pub upsert_stack_frame-HasDepths :
    (s : List DebugStackFrame) (w t : String) (d : ℕ)
    → HasDepths 0 s
    → HasDepths 0 (upsert_stack_frame s w t d)
      × (length (upsert_stack_frame s w t d) ≡ suc d)
      × ((f : DebugStackFrame) × (get_elem? (upsert_stack_frame s w t d) d ≡ some f)
          × (f.workflow_id ≡ w)
          × (f.step_id ≡ t))
unfolding upsert_stack_frame
upsert_stack_frame-HasDepths s w t d h = (
  HasDepths-upsert s w t d h,
  length-name_frame (resized s d) d w t ∙ length-resized s d,
  get_elem?-name_frame (resized s d) d w t (omega (arith, length-resized s d)),
)
