-- ===== src/Tests/Referring.antt =====
-- References to source descriptions, read and written.
use arazzo_cli.Base.{◌≡◌, refl, ◌↔◌}
use arazzo_cli.References.{
  classify_operation_id, source_qualified, classify_workflow_dependency, external, malformed,
  malformed_source_name,
}
use arazzo_cli.References.Segments.{AreSegments}
use arazzo_cli.References.RoundTrip.{
  operation_text, classify_operation_id-operation_text, classify_workflow_dependency-operation_text,
}

dots_run :
    classify_operation_id "$sourceDescriptions.alpha.svc.v1.getPet"
    ≡ source_qualified "alpha" "svc.v1.getPet"
unfolding classify_operation_id arazzo_cli.References.parse_source_reference
    arazzo_cli.References.is_identifier_strict arazzo_cli.References.is_source_reference_id
dots_run = refl

empty_source_run :
    classify_operation_id "$sourceDescriptions..getPet" ≡ malformed malformed_source_name
unfolding classify_operation_id arazzo_cli.References.parse_source_reference
    arazzo_cli.References.is_identifier_strict arazzo_cli.References.is_source_reference_id
empty_source_run = refl

classify_operation_id-operation_text_example :
    (classify_operation_id "$sourceDescriptions.alpha.svc.getPet"
      ≡ source_qualified "alpha" "svc.getPet")
    ↔ (("$sourceDescriptions.alpha.svc.getPet" ≡ operation_text "alpha" "svc.getPet")
        × AreSegments "alpha" "svc.getPet")
classify_operation_id-operation_text_example =
    classify_operation_id-operation_text "$sourceDescriptions.alpha.svc.getPet" "alpha" "svc.getPet"

classify_workflow_dependency-operation_text_example :
    (classify_workflow_dependency "$sourceDescriptions.shop.buy" ≡ external "shop" "buy")
    ↔ (("$sourceDescriptions.shop.buy" ≡ operation_text "shop" "buy") × AreSegments "shop" "buy")
classify_workflow_dependency-operation_text_example =
    classify_workflow_dependency-operation_text "$sourceDescriptions.shop.buy" "shop" "buy"
