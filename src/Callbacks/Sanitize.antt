-- ===== src/Callbacks/Sanitize.antt =====
-- `sanitize_payload` of billing/mpesa_callbacks.py.
use supersurf_billing_phase.Common.{
  Bool, true, false, ◌&&◌, ◌||◌, Option, none, some, List, [], ◌∷◌, ◌==◌, if◌then◌else◌, Text,
  codes, text_eq, Unicode,
}
use supersurf_billing_phase.Schema.Json.{Json, Items, Fields}

-- `text.startswith(part)`
unfoldable pub starts_with : Text → Text → Bool
starts_with [] t = true
starts_with (p ∷ part) [] = false
starts_with (p ∷ part) (c ∷ t) = c == p && starts_with part t

-- `part in text`
unfoldable pub contains : Text → Text → Bool
unfolding starts_with
contains part [] = starts_with part []
contains part (c ∷ t) = starts_with part (c ∷ t) || contains part t

-- `any(part in lowered for part in parts)`
unfoldable pub any_part : List Text → Text → Bool
unfolding contains
any_part [] t = false
any_part (part ∷ parts) t = contains part t || any_part parts t

abbrev pub sensitive_key_parts : List Text
sensitive_key_parts =
    codes "phone"
    ∷ codes "msisdn"
    ∷ codes "first_name"
    ∷ codes "firstname"
    ∷ codes "middle_name"
    ∷ codes "middlename"
    ∷ codes "last_name"
    ∷ codes "lastname"
    ∷ codes "full_name"
    ∷ codes "account_balance"
    ∷ codes "orgaccountbalance"
    ∷ codes "credential"
    ∷ codes "password"
    ∷ codes "passkey"
    ∷ codes "secret"
    ∷ codes "token"
    ∷ codes "authorization"
    ∷ []

abbrev pub redacted : Json
redacted = Json.text (codes "[REDACTED]")

-- `value.get(name)` of an object.
unfoldable pub get : Text → Fields → Option Json
get name Fields.end = none
get name (Fields.field key value fields) = if text_eq key name then some value else get name fields

module _ (u : Unicode) where
  -- `_is_sensitive_key`
  unfoldable pub is_sensitive_key : Text → Bool
  unfolding any_part
  is_sensitive_key key = any_part sensitive_key_parts (u.lower key)

  abbrev pub is_sensitive_text : Option Json → Bool
  is_sensitive_text (some (Json.text name)) = is_sensitive_key name
  is_sensitive_text _ = false

  -- `_metadata_item_name(value) is not None`
  unfoldable pub names_sensitive : Fields → Bool
  unfolding get is_sensitive_key
  names_sensitive fields = is_sensitive_text (get (codes "Name") fields)

  unfoldable mutual
    pub sanitize : Text → Json → Json
    sanitize key (Json.arr items) =
        if is_sensitive_key key then redacted else Json.arr (sanitize_items key items)
    sanitize key (Json.obj fields) =
        if is_sensitive_key key
        then redacted
        else Json.obj (sanitize_fields (names_sensitive fields) fields)
    sanitize key Json.null = if is_sensitive_key key then redacted else Json.null
    sanitize key (Json.bool b) = if is_sensitive_key key then redacted else Json.bool b
    sanitize key (Json.number t) = if is_sensitive_key key then redacted else Json.number t
    sanitize key (Json.text t) = if is_sensitive_key key then redacted else Json.text t

    pub sanitize_items : Text → Items → Items
    sanitize_items key Items.nil = Items.nil
    sanitize_items key (Items.cons item items) =
        Items.cons (sanitize key item) (sanitize_items key items)

    -- `hides` says that the object's `Name` is sensitive, which hides its `Value`.
    pub sanitize_fields : Bool → Fields → Fields
    sanitize_fields hides Fields.end = Fields.end
    sanitize_fields hides (Fields.field key value fields) =
        Fields.field key
          (if text_eq key (codes "Value") && hides then redacted else sanitize key value)
          (sanitize_fields hides fields)

  -- `sanitize_payload`
  abbrev pub sanitize_payload : Json → Json
  sanitize_payload payload = sanitize [] payload
