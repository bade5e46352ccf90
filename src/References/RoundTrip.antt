-- ===== src/References/RoundTrip.antt =====
-- References to source descriptions are read back as they are written (source_reference.rs,
-- operation_id.rs and workflow_dependency.rs).
use Prim.Native.Char.{code}
use arazzo_cli.Base.{
  ◌≡◌, refl, sym, ap, ◌∙◌, ◌↔◌, String, Bool, true, false, ◌==◌, if◌then◌else◌, is_empty, Fallible,
  fine, failed, Bool-cases, Option-cases, inl, inr,
}
use arazzo_cli.References.{
  namespace, strip_prefix, SourceReference, SourceReferenceError, parse_source_reference,
  OperationIdTarget, bare, malformed, missing_operation_id, source_qualified, qualified,
  classify_operation_id, WorkflowDependency, local, invalid, external, external_of,
  classify_workflow_dependency,
}
use arazzo_cli.References.Segments.{
  joined, reference_text, joined-strip_prefix, AreSegments, IsReadFrom,
  parse_source_reference-joined, parse_source_reference-IsReadFrom,
}

-- An `operationId` as it is written for an operation of a source description.
abbrev pub operation_text : String → String → String
operation_text name id = joined "$sourceDescriptions." (reference_text name id)

source_qualified-parts :
    (a b c d : String) → source_qualified a b ≡ source_qualified c d → (a ≡ c) × (b ≡ d)
source_qualified-parts a b c d h = (ap source_of h, ap operation_of h)
  where
    source_of : OperationIdTarget → String
    source_of (source_qualified x y) = x
    source_of _ = ""

    operation_of : OperationIdTarget → String
    operation_of (source_qualified x y) = y
    operation_of _ = ""

qualified-read :
    (text name id : String) (r : Fallible SourceReferenceError SourceReference)
    → IsReadFrom text r
    → qualified r ≡ source_qualified name id
    → (text ≡ reference_text name id) × AreSegments name id
unfolding IsReadFrom
qualified-read text name id (failed e) read h = absurd (cc)
qualified-read text name id (fine r) read h =
    let same = source_qualified-parts r.source_name r.reference_id name id h in
    rw (sym same.0, sym same.1) read

-- An `operationId` names an operation of a source description exactly when it is the text of that name and
-- that operation, the name an identifier and the operation's id in the `CHAR` rule: it is read as it is written,
-- dots in the operation's id included.
pub classify_operation_id-operation_text :
    (value name id : String)
    → (classify_operation_id value ≡ source_qualified name id)
      ↔ ((value ≡ operation_text name id) × AreSegments name id)
unfolding classify_operation_id
classify_operation_id-operation_text value name id = (read, written)
  where
    bare_not : (v : String) → bare v ≡ source_qualified name id → ⊥
    bare_not v e = absurd (cc)

    no_reference :
        (b : Bool)
        → (if b then malformed missing_operation_id else bare value) ≡ source_qualified name id
        → ⊥
    no_reference true e = absurd (cc)
    no_reference false e = absurd (cc)

    read :
        classify_operation_id value ≡ source_qualified name id
        → (value ≡ operation_text name id) × AreSegments name id
    read h = elim (Option-cases (strip_prefix namespace value)) [
      | inl n ↦ absurd (bare_not value (rw n at h))
      | inr (rest, at) ↦ elim (Option-cases (strip_prefix "." rest)) [
        | inl n ↦ absurd (no_reference (is_empty rest) (rw (at, n) at h))
        | inr (reference, dotted) ↦
            let found =
              qualified-read reference name id (parse_source_reference reference)
                (parse_source_reference-IsReadFrom reference) (rw (at, dotted) at h) in
            (
              joined-strip_prefix namespace value rest at
                  ∙ ap (joined namespace)
                      (joined-strip_prefix "." rest reference dotted ∙ ap (joined ".") found.0),
              found.1,
            )
      ]
    ]

    written :
        (value ≡ operation_text name id) × AreSegments name id
        → classify_operation_id value ≡ source_qualified name id
    written h = rw (h.0, parse_source_reference-joined name id h.1) refl

external-read :
    (text name id : String) (r : Fallible SourceReferenceError SourceReference)
    → IsReadFrom text r
    → external_of r ≡ external name id
    → (text ≡ reference_text name id) × AreSegments name id
unfolding IsReadFrom
external-read text name id (failed e) read h = absurd (cc)
external-read text name id (fine r) read h = rw (sym (ap source_of h), sym (ap workflow_of h)) read
  where
    source_of : WorkflowDependency → String
    source_of (external x y) = x
    source_of _ = ""

    workflow_of : WorkflowDependency → String
    workflow_of (external x y) = y
    workflow_of _ = ""

-- A `dependsOn` entry of a workflow names a workflow of another description exactly when it is the text of that
-- description's name and that workflow, each by its own rule; it is read as it is written.
pub classify_workflow_dependency-operation_text :
    (value name id : String)
    → (classify_workflow_dependency value ≡ external name id)
      ↔ ((value ≡ operation_text name id) × AreSegments name id)
unfolding classify_workflow_dependency
classify_workflow_dependency-operation_text value name id = (read value, written)
  where
    local_not : (v : String) → local v ≡ external name id → ⊥
    local_not v e = absurd (cc)

    invalid_not : invalid ≡ external name id → ⊥
    invalid_not e = absurd (cc)

    read :
        (v : String)
        → classify_workflow_dependency v ≡ external name id
        → (v ≡ operation_text name id) × AreSegments name id
    read String.[] h = absurd (invalid_not h)
    read (String.◌∷◌ c v) h = elim (Bool-cases (code c == 36)) [
      | inr n ↦ absurd (local_not (String.◌∷◌ c v) (rw n at h))
      | inl dollar ↦ elim (Option-cases (strip_prefix "$sourceDescriptions." (String.◌∷◌ c v))) [
        | inl n ↦ absurd (invalid_not (rw (dollar, n) at h))
        | inr (reference, at) ↦
            let found =
              external-read reference name id (parse_source_reference reference)
                (parse_source_reference-IsReadFrom reference) (rw (dollar, at) at h) in
            (
              joined-strip_prefix "$sourceDescriptions." (String.◌∷◌ c v) reference at
                  ∙ ap (joined "$sourceDescriptions.") found.0,
              found.1,
            )
      ]
    ]

    written :
        (value ≡ operation_text name id) × AreSegments name id
        → classify_workflow_dependency value ≡ external name id
    written h = rw (h.0, parse_source_reference-joined name id h.1) refl
