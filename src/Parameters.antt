-- ===== src/Parameters.antt =====
-- Parameter inheritance: crates/arazzo-spec/src/effective_step.rs, and `merge_workflow_params` of
-- crates/arazzo-runtime/src/runtime_core/engine_impl.rs, which the runtime uses.
pub mod Overlay
use arazzo_cli.Base.{
  ℕ, suc, String, Bool, true, false, not, ◌&&◌, ◌||◌, Option, none, some, List, [], ◌∷◌, ◌++◌, ◌==◌,
  get_elem?, str_eq, if◌then◌else◌,
}
use arazzo_cli.Spec.{Parameter, ParamLocation, Step, StepTarget, Workflow}

abbrev pub tag : Option ParamLocation → ℕ
tag none = 0
tag (some ParamLocation.path) = 1
tag (some ParamLocation.query) = 2
tag (some ParamLocation.querystring) = 3
tag (some ParamLocation.header) = 4
tag (some ParamLocation.cookie) = 5

-- The identity of a parameter: its name and its location, or that it has none.
abbrev pub Identity : Type 0
Identity = String × Option ParamLocation

abbrev pub identity : Parameter → Identity
identity p = (p.name, p.location)

abbrev pub same_identity : Identity → Identity → Bool
same_identity a b = str_eq a.0 b.0 && tag a.1 == tag b.1

-- Whether the set of a list's identities holds one.
abbrev pub holds_identity : List Parameter → Identity → Bool
holds_identity [] id = false
holds_identity (p ∷ ps) id = same_identity (identity p) id || holds_identity ps id

pub data EffectiveParameterOrigin : Type 0 where
  of_workflow : (parameter_index : ℕ) → EffectiveParameterOrigin
  of_step : (step_index parameter_index : ℕ) → EffectiveParameterOrigin

pub record EffectiveParameterRef : Type 0 where
  pub parameter : Parameter
  pub origin : EffectiveParameterOrigin

-- The workflow's declarations from an index on that the step does not override.
unfoldable pub inherited : List Parameter → ℕ → List Parameter → List EffectiveParameterRef
inherited own i [] = []
inherited own i (p ∷ ps) =
    let rest = inherited own (suc i) ps in
    if not (holds_identity own (identity p))
    then record { parameter = p; origin = of_workflow i } ∷ rest
    else rest

-- The step's declarations from an index on.
unfoldable pub declared : ℕ → ℕ → List Parameter → List EffectiveParameterRef
declared step_index i [] = []
declared step_index i (p ∷ ps) =
    record { parameter = p; origin = of_step step_index i } ∷ declared step_index (suc i) ps

overlay : Workflow → ℕ → Option Step → Option (List EffectiveParameterRef)
unfolding inherited declared
overlay w step_index none = none
overlay w step_index (some s) =
    some (inherited s.parameters 0 w.parameters ++ declared step_index 0 s.parameters)

unfoldable pub effective_step_parameters : Workflow → ℕ → Option (List EffectiveParameterRef)
unfolding overlay
effective_step_parameters w step_index = overlay w step_index (get_elem? w.steps step_index)

abbrev pub is_workflow_target : Option StepTarget → Bool
is_workflow_target (some (StepTarget.workflow_target id)) = true
is_workflow_target _ = false

unfoldable pub not_overridden : List Parameter → List Parameter → List Parameter
not_overridden own [] = []
not_overridden own (p ∷ ps) =
    let rest = not_overridden own ps in
    if not (holds_identity own (identity p)) then p ∷ rest else rest

abbrev pub is_none_left : List Parameter → Bool
is_none_left [] = true
is_none_left (p ∷ ps) = false

-- The parameters that the step is left with.
unfoldable pub merge_workflow_params : List Parameter → Step → List Parameter
unfolding not_overridden
merge_workflow_params workflow_params s =
    if not (is_workflow_target s.target) && not (is_none_left workflow_params)
    then not_overridden s.parameters workflow_params ++ s.parameters
    else s.parameters
