-- ===== src/Spec.antt =====
-- The document model of crates/arazzo-spec/src/lib.rs, as far as the runtime's core reads it.
-- Descriptions, vendor extensions and the fields that only the HTTP and message transports read
-- are left out. A list or mapping inside a literal holds its children as `ValueSource::from`
-- classifies them, which is how the code visits them.
use arazzo_cli.Base.{ℕ, String, Bool, Option, List, [], ◌∷◌, unwrap_or, is_empty, ◌&&◌}

pub data ActionType : Type 0 where
  end goto retry : ActionType

pub ActionType-discrete : Discrete ActionType
ActionType-discrete = hlevel

-- An `f64` is its bit pattern.
abbrev pub F64 : Type 0
F64 = ℕ

pub record SuccessCriterion : Type 0 where
  pub condition : String
  pub context : String

pub data ParamLocation : Type 0 where
  path query querystring header cookie : ParamLocation

mutual
  pub data ValueSource : Type 0 where
    -- The selector's `context`.
    selector : String → ValueSource
    literal : Literal → ValueSource

  pub data Literal : Type 0 where
    null : Literal
    boolean : Bool → Literal
    number : String → Literal
    string : String → Literal
    sequence : Sources → Literal
    mapping : Sources → Literal

  pub data Sources : Type 0 where
    nil : Sources
    cons : ValueSource → Sources → Sources

pub record Parameter : Type 0 where
  pub name : String
  pub location : Option ParamLocation
  pub value : ValueSource

pub record RequestBody : Type 0 where
  pub payload : Option ValueSource
  pub replacements : List ValueSource

pub data OutputValue : Type 0 where
  runtime_expression : String → OutputValue
  selected : String → OutputValue

pub data StepTarget : Type 0 where
  operation_id operation_path channel_path workflow_target : String → StepTarget

pub record OnAction : Type 0 where
  pub declared_type : Option ActionType
  pub workflow_id : String
  pub step_id : String
  pub retry_after : F64
  pub retry_limit : Option ℕ
  pub criteria : List SuccessCriterion
  pub parameters : List Parameter

pub record Step : Type 0 where
  pub step_id : String
  pub target : Option StepTarget
  pub depends_on : List String
  pub parameters : List Parameter
  pub request_body : Option RequestBody
  pub success_criteria : List SuccessCriterion
  pub on_success : List OnAction
  pub on_failure : List OnAction
  pub outputs : List OutputValue

pub record Workflow : Type 0 where
  pub workflow_id : String
  pub depends_on : List String
  pub steps : List Step
  pub success_actions : List OnAction
  pub failure_actions : List OnAction
  pub parameters : List Parameter

-- `OnAction::action_type`: `end` when the document declares none.
abbrev pub action_type : OnAction → ActionType
action_type a = unwrap_or ActionType.end a.declared_type

abbrev pub is_retry : ActionType → Bool
is_retry ActionType.retry = Bool.true
is_retry _ = Bool.false

-- The list a result is routed through: the step's own, or the workflow's if that is empty.
abbrev pub applicable_actions : List OnAction → List OnAction → List OnAction
applicable_actions [] workflow_actions = workflow_actions
applicable_actions (a ∷ rest) workflow_actions = a ∷ rest

-- A `retry` that names no recovery reference.
unfoldable pub is_plain_retry : OnAction → Bool
is_plain_retry a = is_retry (action_type a) && (is_empty a.step_id && is_empty a.workflow_id)
