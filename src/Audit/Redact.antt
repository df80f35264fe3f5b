-- ===== src/Audit/Redact.antt =====
-- `redact_value` and `safe_metadata` of audit/service.py.
use supersurf_billing_phase.Common.{
  Bool, Option, none, some, List, [], ◌∷◌, if◌then◌else◌, Text, codes, Unicode,
}
use supersurf_billing_phase.Schema.Json.{Json, Items, Fields}
use supersurf_billing_phase.Callbacks.Sanitize.{any_part}

abbrev pub sensitive_metadata_parts : List Text
sensitive_metadata_parts =
    codes "secret"
    ∷ codes "password"
    ∷ codes "token"
    ∷ codes "key"
    ∷ codes "credential"
    ∷ codes "consumer"
    ∷ codes "passphrase"
    ∷ codes "cookie"
    ∷ codes "authorization"
    ∷ codes "pin"
    ∷ codes "kra"
    ∷ []

abbrev pub redacted_value : Json
redacted_value = Json.text (codes "[redacted]")

module _ (u : Unicode) where
  unfoldable pub hides_key : Text → Bool
  unfolding any_part
  hides_key key = any_part sensitive_metadata_parts (u.lower key)

  unfoldable mutual
    -- `redact_value`
    pub redact_value : Text → Json → Json
    redact_value key (Json.obj fields) =
        if hides_key key then redacted_value else Json.obj (redact_fields fields)
    redact_value key (Json.arr items) =
        if hides_key key then redacted_value else Json.arr (redact_items key items)
    redact_value key Json.null = if hides_key key then redacted_value else Json.null
    redact_value key (Json.bool b) = if hides_key key then redacted_value else Json.bool b
    redact_value key (Json.number t) = if hides_key key then redacted_value else Json.number t
    redact_value key (Json.text t) = if hides_key key then redacted_value else Json.text t

    pub redact_items : Text → Items → Items
    redact_items key Items.nil = Items.nil
    redact_items key (Items.cons item items) =
        Items.cons (redact_value key item) (redact_items key items)

    pub redact_fields : Fields → Fields
    redact_fields Fields.end = Fields.end
    redact_fields (Fields.field key value fields) =
        Fields.field key (redact_value key value) (redact_fields fields)

  -- `safe_metadata`
  unfoldable pub safe_metadata : Option Fields → Fields
  unfolding redact_value
  safe_metadata none = Fields.end
  safe_metadata (some metadata) = redact_fields metadata
