-- ===== src/Tests.antt =====
-- Small documents and environments, and what the engine decides on them. The engine's parts that
-- are parameters of the model are instantiated by concrete functions here.
pub mod Routes
pub mod Limits
pub mod Levelling
pub mod Debugging
pub mod Redirecting
pub mod Conditions
pub mod Inheriting
pub mod Cyclic
pub mod Levels
mod Pointing
pub mod Referring
pub mod Selecting
use arazzo_cli.Base.{ℕ, zero, suc, String, Bool, true, false, Option, none, some, List, [], ◌∷◌}
use arazzo_cli.Json.{Json}
use arazzo_cli.Spec.{ActionType, OnAction, SuccessCriterion, Step, Workflow}
use arazzo_cli.Errors.{http_request}
use arazzo_cli.Env.{Env}
use arazzo_cli.Routing.Decision.{Evaluator}
use arazzo_cli.Routing.Handle.{StepResult, StepDecisionContext}

-- Nothing interrupts.
abbrev pub calm : Env
calm = record { cancelled = λ n. false; timed_out = λ n. false; gate = λ c n. none }

-- A criterion matches unless its condition is empty.
abbrev pub not_empty : String → Bool
not_empty String.[] = false
not_empty (String.◌∷◌ c s) = true

abbrev pub plain : Evaluator
plain = record {
  matched = λ c. not_empty c.condition;
  interpolate = λ s. s;
  resolve = λ v. Json.null;
  try_from_secs_f64 = λ x. some zero;
  as_secs_f64 = λ x. x;
}

abbrev pub action : Option ActionType → Option ℕ → List SuccessCriterion → OnAction
action type limit criteria = record {
  declared_type = type;
  workflow_id = "";
  step_id = "";
  retry_after = 0;
  retry_limit = limit;
  criteria = criteria;
  parameters = [];
}

abbrev pub never : SuccessCriterion
never = record { condition = ""; context = "" }

-- An action that does not match, a retry, and the end.
abbrev pub on_error : List OnAction
on_error =
    action (some ActionType.goto) none (never ∷ [])
    ∷ action (some ActionType.retry) (some 2) []
    ∷ action none none []
    ∷ []

abbrev pub step_named : String → List String → List OnAction → Step
step_named id depends_on on_failure = record {
  step_id = id;
  target = none;
  depends_on = depends_on;
  parameters = [];
  request_body = none;
  success_criteria = [];
  on_success = [];
  on_failure = on_failure;
  outputs = [];
}

abbrev pub login : Step
login = step_named "login" [] on_error

abbrev pub workflow_of : List Step → Workflow
workflow_of steps = record {
  workflow_id = "main";
  depends_on = [];
  steps = steps;
  success_actions = [];
  failure_actions = [];
  parameters = [];
}

abbrev pub single : Workflow
single = workflow_of (login ∷ [])

abbrev pub refused : StepResult
refused = record {
  succeeded = false;
  headers = none;
  err = some "connection refused";
  err_kind = some http_request;
}

-- The attempt of `login` has failed for the second time.
abbrev pub retried_once : StepDecisionContext
retried_once = record {
  workflow = single;
  step = login;
  step_idx = 0;
  result = refused;
  retry_count = λ i k. 1;
}
