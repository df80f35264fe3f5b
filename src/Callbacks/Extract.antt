-- ===== src/Callbacks/Extract.antt =====
-- What is read out of a callback's payload (billing/mpesa_callbacks.py).
use supersurf_billing_phase.Common.{
  ℕ, Bool, false, not, ◌&&◌, ◌||◌, Option, none, some, List, [], ◌∷◌, ◌==◌, zero, suc,
  if◌then◌else◌, ltb, leb, length, Text, codes, text_eq, is_blank, strip, all_codes, Unicode,
}
use supersurf_billing_phase.Schema.Json.{Json, Items, Fields}
use supersurf_billing_phase.Money.{Decimal, cents, is_exact, precision_bound}
use supersurf_billing_phase.Callbacks.Sanitize.{get}

-- What the standard library makes of values: `str` of a list, an object, a boolean or null, and
-- `Decimal` of a text.
pub record Python : Type 0 where
  pub unicode : Unicode
  pub show : Json → Text
  pub decimal : Text → Decimal

abbrev take : {A : Type 0} → ℕ → List A → List A
take zero xs = []
take (suc n) [] = []
take (suc n) (x ∷ xs) = x ∷ take n xs

abbrev pub is_ascii_digit : ℕ → Bool
is_ascii_digit c = leb b'0' c && leb c b'9'

-- `_coalesce`, and a value that is `None`.
abbrev pub coalesce : Option Json → Option Json → Option Json
coalesce (some v) other = some v
coalesce none other = other

abbrev given : Json → Option Json
given Json.null = none
given value = some value

module _ (p : Python) where
  abbrev pub str : Json → Text
  str (Json.text t) = t
  str (Json.number t) = t
  str value = p.show value

  abbrev same_key : Text → Text → Bool
  same_key wanted key = text_eq (p.unicode.lower key) (p.unicode.lower wanted)

  -- The first field of an object with the key, in any case of letters.
  unfoldable pub direct : Text → Fields → Option Json
  direct wanted Fields.end = none
  direct wanted (Fields.field key value fields) =
      if same_key wanted key then some value else direct wanted fields

  -- `_first_value`
  unfoldable mutual
    unfolding direct

    pub first_value : Text → Json → Option Json
    first_value wanted (Json.obj fields) = elim (direct wanted fields) [
      | some value ↦ given value
      | none ↦ first_in_fields wanted fields
    ]
    first_value wanted (Json.arr items) = first_in_items wanted items
    first_value wanted _ = none

    pub first_in_fields : Text → Fields → Option Json
    first_in_fields wanted Fields.end = none
    first_in_fields wanted (Fields.field key value fields) =
        coalesce (first_value wanted value) (first_in_fields wanted fields)

    pub first_in_items : Text → Items → Option Json
    first_in_items wanted Items.nil = none
    first_in_items wanted (Items.cons item items) =
        coalesce (first_value wanted item) (first_in_items wanted items)

  abbrev named_value : Text → Option Json → Option Json → Option Json
  named_value wanted (some name) (some value) =
      if same_key wanted (str name) then some value else none
  named_value wanted _ _ = none

  -- The `Value` of an object with the wanted `Name`.
  unfoldable pub item_value : Text → Fields → Option Json
  unfolding get
  item_value wanted fields =
      named_value wanted (get (codes "Name") fields) (get (codes "Value") fields)

  -- `_metadata_value`
  unfoldable mutual
    unfolding item_value

    pub metadata_value : Text → Json → Option Json
    metadata_value wanted (Json.obj fields) = elim (item_value wanted fields) [
      | some value ↦ given value
      | none ↦ metadata_in_fields wanted fields
    ]
    metadata_value wanted (Json.arr items) = metadata_in_items wanted items
    metadata_value wanted _ = none

    pub metadata_in_fields : Text → Fields → Option Json
    metadata_in_fields wanted Fields.end = none
    metadata_in_fields wanted (Fields.field key value fields) =
        coalesce (metadata_value wanted value) (metadata_in_fields wanted fields)

    pub metadata_in_items : Text → Items → Option Json
    metadata_in_items wanted Items.nil = none
    metadata_in_items wanted (Items.cons item items) =
        coalesce (metadata_value wanted item) (metadata_in_items wanted items)

  abbrev fitting : ℕ → Bool → Text → Option Text
  fitting max truncate t =
      if is_blank t
      then none
      else if ltb max (length t)
      then if truncate then some (take max t) else none
      else some t

  -- `_normalize_text`
  unfoldable pub normalize_text : ℕ → Bool → Option Json → Option Text
  unfolding strip
  normalize_text max truncate none = none
  normalize_text max truncate (some value) = fitting max truncate (strip (str value))

  abbrev checked_identifier : Option Text → Option Text
  checked_identifier none = none
  checked_identifier (some t) =
      if all_codes is_ascii_digit t && leb 5 (length t) && leb (length t) 12 then some t else none

  -- `_normalize_provider_identifier`
  unfoldable pub normalize_provider_identifier : Option Json → Option Text
  unfolding normalize_text all_codes
  normalize_provider_identifier value = checked_identifier (normalize_text 64 false value)

  -- `MAX_CALLBACK_AMOUNT`, in cents
  abbrev pub max_callback_cents : ℕ
  max_callback_cents = 999999999999

  abbrev positive_cents : Decimal → Option ℕ
  positive_cents (Decimal.finite negative coefficient exponent) =
      if negative || coefficient == 0
      then none
      else if not (ltb (cents coefficient exponent) precision_bound)
      then none
      else if not (is_exact coefficient exponent (cents coefficient exponent))
      then none
      else if ltb max_callback_cents (cents coefficient exponent)
      then none
      else some (cents coefficient exponent)
  positive_cents _ = none

  -- `_normalize_decimal`: the cents of the amount.
  unfoldable pub normalize_decimal : Option Json → Option ℕ
  unfolding strip cents is_exact
  normalize_decimal none = none
  normalize_decimal (some value) =
      if is_blank (strip (str value)) then none else positive_cents (p.decimal (strip (str value)))
