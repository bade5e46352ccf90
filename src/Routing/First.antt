-- ===== src/Routing/First.antt =====
-- `find_matching_action_from` of engine_actions.rs selects the first match.
use arazzo_cli.Base.{
  ℕ, zero, suc, ◌+◌, ◌-◌, ◌≤◌, ◌≡◌, refl, Option, none, some, List, [], ◌∷◌, get_elem?, drop, arith,
  sym, ◌∙◌,
}
use native.Mathlib.Nat.{zero-add, suc-add}
use arazzo_cli.Spec.{OnAction}
use arazzo_cli.Env.{Env, ActionBranch}
use arazzo_cli.Env.Interrupts.{Ends, Refines-weaken}
use arazzo_cli.Routing.Decision.{Evaluator, MatchedAction}
use arazzo_cli.Routing.Select.{find_matching_action_from}
use arazzo_cli.Routing.Reference.{first_matching, IsFirstMatch}
use arazzo_cli.Routing.Selects.{find-Refines, first_matching-some, first_matching-none}

pub get_elem?-drop {ℓ} :
    {A : Type ℓ} (s k : ℕ) (l : List A) → get_elem? (drop s l) k ≡ get_elem? l (s + k)
get_elem?-drop zero k l = simp (zero-add)
get_elem?-drop (suc s) k [] = refl
get_elem?-drop (suc s) k (x ∷ l) = simp (suc-add) (get_elem?-drop s k l)

elem_behind :
    (actions : List OnAction) (start j : ℕ) (a : OnAction)
    → start ≤ j
    → get_elem? actions j ≡ some a
    → get_elem? (drop start actions) (j - start) ≡ some a
elem_behind actions start j a h e =
    let back : start + (j - start) ≡ j = omega arith in
    get_elem?-drop start (j - start) actions ∙ (rw back e)

first_matching-IsFirstMatch :
    (ev : Evaluator) (actions : List OnAction) (start : ℕ) (r : Option MatchedAction)
    → r ≡ first_matching ev start (drop start actions)
    → IsFirstMatch ev actions start r
first_matching-IsFirstMatch ev actions start none e = λ j a h at_j.
    first_matching-none ev start (drop start actions) (sym e) (j - start) a
      (elem_behind actions start j a h at_j)
first_matching-IsFirstMatch ev actions start (some m) e =
    let (k, at_k, elem, hit, before) =
      first_matching-some ev start (drop start actions) m (sym e) in
    (
      omega arith,
      rw at_k (rw (get_elem?-drop start k actions) at elem),
      hit,
      λ j a h lt at_j. before (j - start) a (omega arith) (elem_behind actions start j a h at_j),
    )

-- From every moment and in every environment, the search ends with the first action, from the
-- start index on, all of whose criteria match (or with none if there is none), unless a
-- cancellation or a debugger error interrupts it.
pub find-IsFirstMatch :
    (env : Env) (ev : Evaluator) (branch : ActionBranch) (actions : List OnAction) (start n : ℕ)
    → Ends env
        (IsFirstMatch ev actions start)
        ((find_matching_action_from env ev branch actions start).run n).0
find-IsFirstMatch env ev branch actions start n =
    (Refines-weaken (λ r. r ≡ first_matching ev start (drop start actions))
        (IsFirstMatch ev actions start) (first_matching-IsFirstMatch ev actions start)
        (find-Refines env ev branch actions start)).at
      n
