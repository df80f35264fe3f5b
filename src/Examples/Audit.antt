-- ===== src/Examples/Audit.antt =====
-- The redaction of metadata.
use supersurf_billing_phase.Common.{◌≡◌, ◌↔◌, some, codes}
use supersurf_billing_phase.Schema.Json.{Json, Items, Fields}
use supersurf_billing_phase.Audit.Redact.{safe_metadata}
use supersurf_billing_phase.Audit.Redacted.{RedactedFields, safe_metadata_lem}
use supersurf_billing_phase.Examples.Data.{ascii}

abbrev metadata : Fields
metadata = Fields.field (codes "outcome") (Json.text (codes "linked")) (
    Fields.field (codes "API_Key") (Json.arr (Items.cons (Json.text (codes "k-1")) Items.nil))
      Fields.end)

safe_metadata_lem_example :
    RedactedFields ascii (safe_metadata ascii (some metadata))
    × ((safe_metadata ascii (some metadata) ≡ metadata) ↔ RedactedFields ascii metadata)
    × (safe_metadata ascii (some (safe_metadata ascii (some metadata)))
        ≡ safe_metadata ascii (some metadata))
safe_metadata_lem_example = safe_metadata_lem ascii metadata
