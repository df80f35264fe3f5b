-- ===== src/Callbacks/Hidden.antt =====
-- What the sanitising of a payload hides.
use mathlib.Core.Path.{subst}
use supersurf_billing_phase.Common.{
  ◌↔◌, [], Bool, true, false, ◌&&◌, ◌≡◌, refl, ap, ◌∙◌, inl, inr, some, Text, codes, text_eq,
  text_eq-eq, Bool-cases, Unicode,
}
use supersurf_billing_phase.Schema.Json.{Json, Items, Fields}
use supersurf_billing_phase.Callbacks.Sanitize.{
  redacted, get, is_sensitive_key, is_sensitive_text, names_sensitive, sanitize, sanitize_items,
  sanitize_fields, sanitize_payload,
}

module _ (u : Unicode) where
  -- Whatever stands under a sensitive key, and whatever is the `Value` of an object with a sensitive
  -- `Name`, has been replaced.
  unfoldable mutual
    pub Hidden : Json → Type 0
    Hidden (Json.arr items) = HiddenItems items
    Hidden (Json.obj fields) = HiddenFields (names_sensitive u fields) fields
    Hidden _ = Unit

    pub HiddenItems : Items → Type 0
    HiddenItems Items.nil = Unit
    HiddenItems (Items.cons item items) = Hidden item × HiddenItems items

    pub HiddenFields : Bool → Fields → Type 0
    HiddenFields hides Fields.end = Unit
    HiddenFields hides (Fields.field key value fields) =
        (is_sensitive_key u key ≡ true → value ≡ redacted)
        × (text_eq key (codes "Value") && hides ≡ true → value ≡ redacted)
        × Hidden value
        × HiddenFields hides fields

  not_value : text_eq (codes "Name") (codes "Value") ≡ false
  unfolding text_eq
  not_value = refl

  sensitive :
      (key : Text) (value : Json) → is_sensitive_key u key ≡ true → sanitize u key value ≡ redacted
  unfolding sanitize
  sensitive key Json.null h = rw h
  sensitive key (Json.bool b) h = rw h
  sensitive key (Json.number t) h = rw h
  sensitive key (Json.text t) h = rw h
  sensitive key (Json.arr items) h = rw h
  sensitive key (Json.obj fields) h = rw h

  mutual
    unfolding sanitize sanitize_items sanitize_fields Hidden HiddenItems HiddenFields

    unchanged :
        (key : Text) (value : Json)
        → is_sensitive_key u key ≡ false
        → Hidden value
        → sanitize u key value ≡ value
    unchanged key Json.null h v = rw h
    unchanged key (Json.bool b) h v = rw h
    unchanged key (Json.number t) h v = rw h
    unchanged key (Json.text t) h v = rw h
    unchanged key (Json.arr items) h v = rw h (ap Json.arr (unchanged_items key items h v))
    unchanged key (Json.obj fields) h v =
        rw h (ap Json.obj (unchanged_fields (names_sensitive u fields) fields v))

    unchanged_items :
        (key : Text) (items : Items)
        → is_sensitive_key u key ≡ false
        → HiddenItems items
        → sanitize_items u key items ≡ items
    unchanged_items key Items.nil h v = refl
    unchanged_items key (Items.cons item items) h v =
        cc (unchanged key item h v.0, unchanged_items key items h v.1)

    unchanged_fields :
        (hides : Bool) (fields : Fields)
        → HiddenFields hides fields
        → sanitize_fields u hides fields ≡ fields
    unchanged_fields hides Fields.end v = refl
    unchanged_fields hides (Fields.field key value fields) (secret, beside, inside, rest) =
        elim (Bool-cases (text_eq key (codes "Value") && hides)) [
          | inl hit ↦ rw hit (cc (beside hit, unchanged_fields hides fields rest))
          | inr miss ↦ elim (Bool-cases (is_sensitive_key u key)) [
            | inl hit ↦
                rw miss
                  (cc (sensitive key value hit, secret hit, unchanged_fields hides fields rest))
            | inr public ↦
                rw miss (cc (unchanged key value public inside, unchanged_fields hides fields rest))
          ]
        ]

  module _ (plain : is_sensitive_key u (codes "Name") ≡ false) where
    kept_text :
        (key : Text) (value : Json)
        → is_sensitive_key u key ≡ false
        → is_sensitive_text u (some (sanitize u key value)) ≡ is_sensitive_text u (some value)
    unfolding sanitize
    kept_text key Json.null h = rw h
    kept_text key (Json.bool b) h = rw h
    kept_text key (Json.number t) h = rw h
    kept_text key (Json.text t) h = rw h
    kept_text key (Json.arr items) h = rw h
    kept_text key (Json.obj fields) h = rw h

    names-sanitize :
        (hides : Bool) (fields : Fields)
        → names_sensitive u (sanitize_fields u hides fields) ≡ names_sensitive u fields
    unfolding names_sensitive get sanitize_fields
    names-sanitize hides Fields.end = refl
    names-sanitize hides (Fields.field key value fields) =
        elim (Bool-cases (text_eq key (codes "Name"))) [
          | inl here ↦
              let is : key ≡ codes "Name" = text_eq-eq key (codes "Name") here in
              let other : text_eq key (codes "Value") ≡ false =
                ap (λ k. text_eq k (codes "Value")) is ∙ not_value in
              let public : is_sensitive_key u key ≡ false = ap (is_sensitive_key u) is ∙ plain in
              rw (here, other) (kept_text key value public)
          | inr miss ↦ rw miss (names-sanitize hides fields)
        ]

    mutual
      unfolding sanitize sanitize_items sanitize_fields Hidden HiddenItems HiddenFields

      pub hidden : (key : Text) (value : Json) → Hidden (sanitize u key value)
      hidden key Json.null = elim (Bool-cases (is_sensitive_key u key)) [
        | inl h ↦ rw h tt
        | inr h ↦ rw h tt
      ]
      hidden key (Json.bool b) = elim (Bool-cases (is_sensitive_key u key)) [
        | inl h ↦ rw h tt
        | inr h ↦ rw h tt
      ]
      hidden key (Json.number t) = elim (Bool-cases (is_sensitive_key u key)) [
        | inl h ↦ rw h tt
        | inr h ↦ rw h tt
      ]
      hidden key (Json.text t) = elim (Bool-cases (is_sensitive_key u key)) [
        | inl h ↦ rw h tt
        | inr h ↦ rw h tt
      ]
      hidden key (Json.arr items) = elim (Bool-cases (is_sensitive_key u key)) [
        | inl h ↦ rw h tt
        | inr h ↦ rw h (hidden_items key items)
      ]
      hidden key (Json.obj fields) = elim (Bool-cases (is_sensitive_key u key)) [
        | inl h ↦ rw h tt
        | inr h ↦
            rw (h, names-sanitize (names_sensitive u fields) fields)
              (hidden_fields (names_sensitive u fields) fields)
      ]

      hidden_items : (key : Text) (items : Items) → HiddenItems (sanitize_items u key items)
      hidden_items key Items.nil = tt
      hidden_items key (Items.cons item items) = (hidden key item, hidden_items key items)

      hidden_fields :
          (hides : Bool) (fields : Fields) → HiddenFields hides (sanitize_fields u hides fields)
      hidden_fields hides Fields.end = tt
      hidden_fields hides (Fields.field key value fields) =
          elim (Bool-cases (text_eq key (codes "Value") && hides)) [
            | inl hit ↦ rw hit ((λ _. refl), (λ _. refl), tt, hidden_fields hides fields)
            | inr miss ↦
                rw miss
                  (sensitive key value, (λ h. cc), hidden key value, hidden_fields hides fields)
          ]

-- What is kept of a payload hides everything sensitive: whatever stands under a sensitive key, and
-- the `Value` of every object with a sensitive `Name`, at any depth, reads `[REDACTED]`. A payload
-- that is like that already is kept as it is, and no other. The key `Name` and the empty key are not
-- sensitive.
pub sanitize_payload_lem :
    (u : Unicode) (payload : Json)
    → is_sensitive_key u (codes "Name") ≡ false
    → is_sensitive_key u [] ≡ false
    → Hidden u (sanitize_payload u payload)
      × ((sanitize_payload u payload ≡ payload) ↔ Hidden u payload)
sanitize_payload_lem u payload plain empty =
    let h = hidden u plain [] payload in
    (h, ((λ same. subst (Hidden u) same h), (λ v. unchanged u [] payload empty v)))
