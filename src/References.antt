-- ===== src/References.antt =====
-- References to source descriptions: source_reference.rs, operation_id.rs and
-- workflow_dependency.rs of crates/arazzo-spec/src.
pub mod Segments
pub mod RoundTrip
use Prim.Native.Char.{code, Char}
use arazzo_cli.Base.{
  ℕ, zero, suc, String, Bool, true, false, not, ◌&&◌, ◌||◌, Option, none, some, ◌==◌, leb, is_empty,
  if◌then◌else◌, Fallible, fine, failed,
}

abbrev pub namespace : String
namespace = "$sourceDescriptions"

-- `str::strip_prefix`.
abbrev pub strip_prefix : (prefix value : String) → Option String
strip_prefix String.[] value = some value
strip_prefix (String.◌∷◌ p prefix) String.[] = none
strip_prefix (String.◌∷◌ p prefix) (String.◌∷◌ c value) =
    let rest = strip_prefix prefix value in if code p == code c then rest else none

abbrev pub is_dot : Char → Bool
is_dot c = code c == 46

abbrev pub on_first : Char → Option (String × String) → Option (String × String)
on_first c none = none
on_first c (some (first, rest)) = some (String.◌∷◌ c first, rest)

-- `split_once('.')`.
abbrev pub split_once : String → Option (String × String)
split_once String.[] = none
split_once (String.◌∷◌ c value) =
    let rest = split_once value in if is_dot c then some (String.[], value) else on_first c rest

abbrev between : ℕ → ℕ → ℕ → Bool
between low high n = leb low n && leb n high

-- `is_ascii_alphanumeric`, a hyphen or an underscore.
abbrev pub is_identifier_char : Char → Bool
is_identifier_char c =
    let n = code c in between 48 57 n || between 65 90 n || between 97 122 n || n == 45 || n == 95

abbrev pub all_identifier : String → Bool
all_identifier String.[] = true
all_identifier (String.◌∷◌ c value) = is_identifier_char c && all_identifier value

unfoldable pub is_identifier_strict : String → Bool
is_identifier_strict value = not (is_empty value) && all_identifier value

-- Where the loop of `is_source_reference_id` is: between tokens, behind a backslash, or before
-- so many hexadecimal digits.
pub data IdState : Type 0 where
  token escaped : IdState
  hex : ℕ → IdState

abbrev is_hexdigit : ℕ → Bool
is_hexdigit n = between 48 57 n || between 65 70 n || between 97 102 n

-- `"`, `\`, `/`, and the letters of the short escapes.
abbrev is_short_escape : ℕ → Bool
is_short_escape n =
    n == 34 || n == 92 || n == 47 || n == 98 || n == 102 || n == 110 || n == 114 || n == 116

abbrev is_plain : ℕ → Bool
is_plain n =
    between 32 33 n || between 35 91 n || between 93 122 n || n == 124 || between 126 1114111 n

abbrev state_if : Bool → IdState → Option IdState
state_if ok state = if ok then some state else none

abbrev next_state : IdState → ℕ → Option IdState
next_state token n = if n == 92 then some escaped else state_if (is_plain n) token
next_state escaped n = if n == 117 then some (hex 3) else state_if (is_short_escape n) token
next_state (hex zero) n = state_if (is_hexdigit n) token
next_state (hex (suc k)) n = state_if (is_hexdigit n) (hex k)

abbrev goes_on : (IdState → Bool) → Option IdState → Bool
goes_on more none = false
goes_on more (some state) = more state

-- An escape that the text ends in is none.
abbrev is_complete : IdState → Bool
is_complete token = true
is_complete _ = false

scan_tokens : String → IdState → Bool
scan_tokens String.[] state = is_complete state
scan_tokens (String.◌∷◌ c value) state = goes_on (scan_tokens value) (next_state state (code c))

unfoldable pub is_source_reference_id : String → Bool
unfolding scan_tokens
is_source_reference_id value = scan_tokens value token && not (is_empty value)

pub record SourceReference : Type 0 where
  pub source_name : String
  pub reference_id : String

pub data SourceReferenceError : Type 0 where
  missing_separator bad_source_name bad_reference_id : SourceReferenceError

abbrev checked : Option (String × String) → Fallible SourceReferenceError SourceReference
checked none = failed missing_separator
checked (some (name, id)) =
    if not (is_identifier_strict name)
    then failed bad_source_name
    else if not (is_source_reference_id id)
    then failed bad_reference_id
    else fine (record { source_name = name; reference_id = id })

unfoldable pub parse_source_reference : String → Fallible SourceReferenceError SourceReference
parse_source_reference reference = checked (split_once reference)

pub data MalformedOperationId : Type 0 where
  missing_operation_id malformed_source_name malformed_operation_id : MalformedOperationId

abbrev from_error : SourceReferenceError → MalformedOperationId
from_error missing_separator = missing_operation_id
from_error bad_source_name = malformed_source_name
from_error bad_reference_id = malformed_operation_id

pub data OperationIdTarget : Type 0 where
  bare : String → OperationIdTarget
  source_qualified : (source_name operation_id : String) → OperationIdTarget
  malformed : MalformedOperationId → OperationIdTarget

abbrev pub qualified : Fallible SourceReferenceError SourceReference → OperationIdTarget
qualified (fine parsed) = source_qualified parsed.source_name parsed.reference_id
qualified (failed e) = malformed (from_error e)

abbrev pub after_namespace : String → String → Option String → OperationIdTarget
after_namespace operation_id rest none =
    if is_empty rest then malformed missing_operation_id else bare operation_id
after_namespace operation_id rest (some reference) = qualified (parse_source_reference reference)

abbrev pub by_namespace : String → Option String → OperationIdTarget
by_namespace operation_id none = bare operation_id
by_namespace operation_id (some rest) = after_namespace operation_id rest (strip_prefix "." rest)

unfoldable pub classify_operation_id : String → OperationIdTarget
classify_operation_id operation_id = by_namespace operation_id (strip_prefix namespace operation_id)

pub data WorkflowDependency : Type 0 where
  local : String → WorkflowDependency
  external : (source_name workflow_id : String) → WorkflowDependency
  invalid : WorkflowDependency

abbrev pub external_of : Fallible SourceReferenceError SourceReference → WorkflowDependency
external_of (fine parsed) = external parsed.source_name parsed.reference_id
external_of (failed e) = invalid

abbrev pub by_reference : Option String → WorkflowDependency
by_reference none = invalid
by_reference (some reference) = external_of (parse_source_reference reference)

unfoldable pub classify_workflow_dependency : String → WorkflowDependency
classify_workflow_dependency String.[] = invalid
classify_workflow_dependency (String.◌∷◌ c value) =
    if not (code c == 36)
    then local (String.◌∷◌ c value)
    else by_reference (strip_prefix "$sourceDescriptions." (String.◌∷◌ c value))
