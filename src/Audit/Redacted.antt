-- ===== src/Audit/Redacted.antt =====
-- What the redaction of metadata leaves to be seen.
use mathlib.Core.Path.{subst}
use supersurf_billing_phase.Common.{
  true, some, ◌≡◌, refl, sym, ap, ◌↔◌, inl, inr, Text, Bool-cases, Unicode,
}
use supersurf_billing_phase.Schema.Json.{Json, Items, Fields}
use supersurf_billing_phase.Audit.Redact.{
  redacted_value, hides_key, redact_value, redact_items, redact_fields, safe_metadata,
}

module _ (u : Unicode) where
  abbrev pub IsHidden : Text → Json → Type 0
  IsHidden key value = hides_key u key ≡ true → value ≡ redacted_value

  -- Whatever stands under a sensitive key, at any depth, has been replaced. The items of a list stand
  -- under the key of the list.
  unfoldable mutual
    pub Redacted : Text → Json → Type 0
    Redacted key (Json.arr items) = RedactedItems key items
    Redacted key (Json.obj fields) = RedactedFields fields
    Redacted key _ = Unit

    pub RedactedItems : Text → Items → Type 0
    RedactedItems key Items.nil = Unit
    RedactedItems key (Items.cons item items) =
        IsHidden key item × Redacted key item × RedactedItems key items

    pub RedactedFields : Fields → Type 0
    RedactedFields Fields.end = Unit
    RedactedFields (Fields.field key value fields) =
        IsHidden key value × Redacted key value × RedactedFields fields

  redact_value-IsHidden : (key : Text) (value : Json) → IsHidden key (redact_value u key value)
  unfolding redact_value
  redact_value-IsHidden key (Json.obj fields) h = rw h refl
  redact_value-IsHidden key (Json.arr items) h = rw h refl
  redact_value-IsHidden key Json.null h = rw h refl
  redact_value-IsHidden key (Json.bool b) h = rw h refl
  redact_value-IsHidden key (Json.number t) h = rw h refl
  redact_value-IsHidden key (Json.text t) h = rw h refl

  mutual
    unfolding redact_value redact_items redact_fields Redacted RedactedItems RedactedFields

    shown : (key : Text) (value : Json) → Redacted key (redact_value u key value)
    shown key (Json.obj fields) = elim (Bool-cases (hides_key u key)) [
      | inl h ↦ rw h tt
      | inr h ↦ rw h (shown_fields fields)
    ]
    shown key (Json.arr items) = elim (Bool-cases (hides_key u key)) [
      | inl h ↦ rw h tt
      | inr h ↦ rw h (shown_items key items)
    ]
    shown key Json.null = elim (Bool-cases (hides_key u key)) [ inl h ↦ rw h tt | inr h ↦ rw h tt ]
    shown key (Json.bool b) = elim (Bool-cases (hides_key u key)) [
      | inl h ↦ rw h tt
      | inr h ↦ rw h tt
    ]
    shown key (Json.number t) = elim (Bool-cases (hides_key u key)) [
      | inl h ↦ rw h tt
      | inr h ↦ rw h tt
    ]
    shown key (Json.text t) = elim (Bool-cases (hides_key u key)) [
      | inl h ↦ rw h tt
      | inr h ↦ rw h tt
    ]

    shown_items : (key : Text) (items : Items) → RedactedItems key (redact_items u key items)
    shown_items key Items.nil = tt
    shown_items key (Items.cons item items) =
        (redact_value-IsHidden key item, shown key item, shown_items key items)

    shown_fields : (fields : Fields) → RedactedFields (redact_fields u fields)
    shown_fields Fields.end = tt
    shown_fields (Fields.field key value fields) =
        (redact_value-IsHidden key value, shown key value, shown_fields fields)

  mutual
    unfolding redact_value redact_items redact_fields Redacted RedactedItems RedactedFields

    kept_value :
        (key : Text) (value : Json)
        → IsHidden key value
        → Redacted key value
        → redact_value u key value ≡ value
    kept_value key (Json.obj fields) hidden r = elim (Bool-cases (hides_key u key)) [
      | inl h ↦ rw h (sym (hidden h))
      | inr h ↦ rw h (ap Json.obj (kept_fields fields r))
    ]
    kept_value key (Json.arr items) hidden r = elim (Bool-cases (hides_key u key)) [
      | inl h ↦ rw h (sym (hidden h))
      | inr h ↦ rw h (ap Json.arr (kept_items key items r))
    ]
    kept_value key Json.null hidden r = elim (Bool-cases (hides_key u key)) [
      | inl h ↦ rw h (sym (hidden h))
      | inr h ↦ rw h refl
    ]
    kept_value key (Json.bool b) hidden r = elim (Bool-cases (hides_key u key)) [
      | inl h ↦ rw h (sym (hidden h))
      | inr h ↦ rw h refl
    ]
    kept_value key (Json.number t) hidden r = elim (Bool-cases (hides_key u key)) [
      | inl h ↦ rw h (sym (hidden h))
      | inr h ↦ rw h refl
    ]
    kept_value key (Json.text t) hidden r = elim (Bool-cases (hides_key u key)) [
      | inl h ↦ rw h (sym (hidden h))
      | inr h ↦ rw h refl
    ]

    kept_items :
        (key : Text) (items : Items) → RedactedItems key items → redact_items u key items ≡ items
    kept_items key Items.nil r = refl
    kept_items key (Items.cons item items) (hidden, here, rest) =
        λ i. Items.cons (kept_value key item hidden here i) (kept_items key items rest i)

    kept_fields : (fields : Fields) → RedactedFields fields → redact_fields u fields ≡ fields
    kept_fields Fields.end r = refl
    kept_fields (Fields.field key value fields) (hidden, here, rest) =
        λ i. Fields.field key (kept_value key value hidden here i) (kept_fields fields rest i)

  -- The metadata of an audit event show nothing under a sensitive key, at any depth: they read
  -- `[redacted]` there. Metadata that are like that already are kept as they are, and no others; so
  -- metadata that are redacted again do not change.
  pub safe_metadata_lem :
      (metadata : Fields)
      → RedactedFields (safe_metadata u (some metadata))
        × ((safe_metadata u (some metadata) ≡ metadata) ↔ RedactedFields metadata)
        × (safe_metadata u (some (safe_metadata u (some metadata)))
            ≡ safe_metadata u (some metadata))
  unfolding safe_metadata
  safe_metadata_lem metadata =
      let h = shown_fields metadata in
      (
        h,
        ((λ same. subst RedactedFields same h), kept_fields metadata),
        kept_fields (redact_fields u metadata) h,
      )
