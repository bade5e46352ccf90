-- ===== src/Tests/Inheriting.antt =====
-- Parameter inheritance and the pattern cache at small inputs.
use arazzo_cli.Base.{
  ◌≡◌, refl, String, Bool, false, none, some, [], ◌∷◌, get_elem?, Fallible, fine, failed, map_fine,
}
use arazzo_cli.Spec.{Parameter, ParamLocation, ValueSource, Literal, Workflow}
use arazzo_cli.Parameters.{effective_step_parameters}
use arazzo_cli.Parameters.Overlay.{IsOverlayOf, effective_step_parameters-IsOverlay}
use arazzo_cli.RegexCache.{compiled, is_match, publish}
use arazzo_cli.RegexCache.Uncached.{new, published, IsValid, is_match-compile}

abbrev in_query : String → String → Parameter
in_query name value = record {
  name = name;
  location = some ParamLocation.query;
  value = ValueSource.literal (Literal.string value);
}

-- The step overrides the page and keeps the workflow's size.
abbrev paged : Workflow
paged = record {
  workflow_id = "main";
  depends_on = [];
  steps =
      (record {
        step_id = "list";
        target = none;
        depends_on = [];
        parameters = in_query "page" "2" ∷ [];
        request_body = none;
        success_criteria = [];
        on_success = [];
        on_failure = [];
        outputs = [];
      })
      ∷ [];
  success_actions = [];
  failure_actions = [];
  parameters = in_query "page" "1" ∷ in_query "size" "50" ∷ [];
}

effective_step_parameters-IsOverlay_example :
    IsOverlayOf paged (get_elem? paged.steps 0) (effective_step_parameters paged 0)
effective_step_parameters-IsOverlay_example = effective_step_parameters-IsOverlay paged 0

-- A pattern is compiled to itself, but the empty one is refused.
abbrev not_empty_pattern : String → Fallible String String
not_empty_pattern String.[] = failed "empty"
not_empty_pattern (String.◌∷◌ c s) = fine (String.◌∷◌ c s)

abbrev never_matches : String → String → Bool
never_matches regex text = false

is_match-compile_example :
    (is_match not_empty_pattern never_matches "" "text" [] (publish "a" (fine "a") []).1
      ≡ map_fine (λ regex. never_matches regex "text") (not_empty_pattern ""))
    × IsValid not_empty_pattern (compiled not_empty_pattern "" [] (publish "a" (fine "a") []).1).1
is_match-compile_example =
    is_match-compile not_empty_pattern never_matches "" "text" [] (publish "a" (fine "a") []).1 new
      (published "a" [] refl new)
