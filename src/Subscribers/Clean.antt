-- ===== src/Subscribers/Clean.antt =====
-- `full_clean` of a subscriber and of a service (subscribers/models.py). `valid_email` is Django's
-- email validator.
use supersurf_billing_phase.Common.{
  ℕ, Bool, true, false, not, ◌&&◌, ◌||◌, Option, none, some, List, [], ◌∷◌, ◌++◌, ◌==◌,
  if◌then◌else◌, ltb, length, find, exists, is_some, Text, text_eq, is_blank, strip, all_codes,
  Unicode, zero_padded,
}
use supersurf_billing_phase.Exec.{Result, ok, err}
use supersurf_billing_phase.Errors.{Issue}
use supersurf_billing_phase.Schema.Rows.{Subscriber, Service}
use supersurf_billing_phase.Schema.Database.{Db}
use supersurf_billing_phase.Validation.{Checks, complaints, first_complaint}
use supersurf_billing_phase.Payments.References.{is_account_reference}
use supersurf_billing_phase.Subscribers.Phone.{normalize_kenyan_phone}

-- `$` also matches before a newline at the end.
unfoldable pub without_newline : Text → Text
without_newline [] = []
without_newline (c ∷ []) = if c == 10 then [] else c ∷ []
without_newline (c ∷ d ∷ t) = c ∷ without_newline (d ∷ t)

-- `^SS\d{6}$`
abbrev pub is_account_number : Unicode → Text → Bool
is_account_number u t = is_account_reference u (without_newline t)

-- `^SS\d{6}-\d{2}$`
unfoldable pub is_reference_form : Unicode → Text → Bool
unfolding all_codes is_account_reference
is_reference_form u (s ∷ s' ∷ a ∷ b ∷ c ∷ d ∷ e ∷ f ∷ dash ∷ number) =
    is_account_reference u (s ∷ s' ∷ a ∷ b ∷ c ∷ d ∷ e ∷ f ∷ [])
    && dash == b'-'
    && length number == 2
    && all_codes u.is_decimal number
is_reference_form u _ = false

abbrev pub is_service_reference : Unicode → Text → Bool
is_service_reference u t = is_reference_form u (without_newline t)

-- `f"{account_number}-{service_number:02d}"`
abbrev pub service_reference_of : Text → ℕ → Text
service_reference_of account n = account ++ b'-' ∷ zero_padded 2 n

abbrev none_of : List Issue → Bool
none_of [] = true
none_of (issue ∷ issues) = false

module _ (u : Unicode) where
  abbrev account_checks : Subscriber → Checks
  account_checks s =
      (is_blank s.account_number, Issue.text_blank)
      ∷ (
        not (is_blank s.account_number) && not (is_account_number u s.account_number),
        Issue.account_number_invalid,
      )
      ∷ (ltb 8 (length s.account_number), Issue.text_too_long)
      ∷ []

  abbrev profile_checks : (Text → Bool) → Subscriber → Checks
  profile_checks valid_email s =
      (is_blank s.display_name, Issue.text_blank)
      ∷ (ltb 160 (length s.display_name), Issue.text_too_long)
      ∷ (is_blank s.primary_phone, Issue.text_blank)
      ∷ (ltb 16 (length s.primary_phone), Issue.text_too_long)
      ∷ (not (is_blank s.email) && not (valid_email s.email), Issue.email_invalid)
      ∷ (ltb 254 (length s.email), Issue.text_too_long)
      ∷ []

  abbrev phone_complaints : Result Issue Text → List Issue
  phone_complaints (ok t) = []
  phone_complaints (err issue) = issue ∷ []

  -- `Subscriber.clean`
  abbrev subscriber_clean : Subscriber → List Issue
  subscriber_clean s =
      if is_blank (strip s.display_name)
      then Issue.display_name_required ∷ []
      else phone_complaints (normalize_kenyan_phone u s.primary_phone)

  abbrev taken_account : Db → Subscriber → Bool
  taken_account db s =
      exists (λ r. not (r.id == s.id) && text_eq r.account_number s.account_number) db.subscribers

  -- A column with a complaint of its own is not tested for being unique.
  unfoldable pub subscriber_full_clean : (Text → Bool) → Bool → Db → Subscriber → List Issue
  subscriber_full_clean valid_email adding db s =
      complaints (account_checks s)
      ++ complaints (profile_checks valid_email s)
      ++ subscriber_clean s
      ++ complaints (
          (adding && exists (λ r. r.id == s.id) db.subscribers, Issue.id_taken)
          ∷ (
            taken_account db s && none_of (complaints (account_checks s)),
            Issue.account_number_taken,
          )
          ∷ [])

  abbrev phone_or : Text → Result Issue Text → Text
  phone_or raw (ok t) = t
  phone_or raw (err issue) = raw

  -- What `clean` leaves in the row.
  abbrev pub cleaned_subscriber : Subscriber → Subscriber
  cleaned_subscriber s = record s {
    display_name = strip s.display_name;
    email = strip s.email;
    primary_phone = phone_or s.primary_phone (normalize_kenyan_phone u s.primary_phone);
  }

  abbrev number_checks : Service → Checks
  number_checks s =
      (ltb s.service_number 1, Issue.service_number_out_of_range)
      ∷ (ltb 99 s.service_number, Issue.service_number_out_of_range)
      ∷ []

  abbrev reference_checks : Service → Checks
  reference_checks s =
      (is_blank s.service_reference, Issue.text_blank)
      ∷ (
        not (is_blank s.service_reference) && not (is_service_reference u s.service_reference),
        Issue.service_reference_invalid,
      )
      ∷ (ltb 11 (length s.service_reference), Issue.text_too_long)
      ∷ []

  -- `Service.clean`; a service with a subscriber, a number and a reference has the reference that
  -- these lead to.
  abbrev service_clean : Option Subscriber → Service → Checks
  service_clean none s = []
  service_clean (some owner) s =
      (ltb s.service_number 1 || ltb 99 s.service_number, Issue.service_number_out_of_range)
      ∷ (
        not (s.service_number == 0)
            && not (is_blank s.service_reference)
            && not (
                text_eq s.service_reference
                  (service_reference_of owner.account_number s.service_number)),
        Issue.service_reference_differs,
      )
      ∷ []

  abbrev owner_of : Db → Service → Option Subscriber
  owner_of db s = find (λ r. r.id == s.subscriber_id) db.subscribers

  abbrev other_services : Service → Service → Bool
  other_services s r = not (r.id == s.id)

  abbrev service_uniques : Bool → Db → Service → Checks
  service_uniques adding db s =
      (adding && exists (λ r. r.id == s.id) db.services, Issue.id_taken)
      ∷ (
        exists (λ r. other_services s r && text_eq r.service_reference s.service_reference)
              db.services
            && none_of (complaints (reference_checks s))
            && none_of (first_complaint (service_clean (owner_of db s) s)),
        Issue.service_reference_taken,
      )
      ∷ (
        exists
              (λ r.
                other_services s r
                && r.subscriber_id == s.subscriber_id
                && r.service_number == s.service_number)
              db.services
            && none_of (complaints (number_checks s)),
        Issue.service_number_taken,
      )
      ∷ []

  unfoldable pub service_full_clean : Bool → Db → Service → List Issue
  service_full_clean adding db s =
      complaints ((not (is_some (owner_of db s)), Issue.row_missing) ∷ number_checks s)
      ++ complaints (reference_checks s)
      ++ complaints ((ltb 120 (length s.label), Issue.text_too_long) ∷ [])
      ++ first_complaint (service_clean (owner_of db s) s)
      ++ complaints (service_uniques adding db s)

abbrev pub cleaned_service : Service → Service
cleaned_service s = record s { label = strip s.label }
