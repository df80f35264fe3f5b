-- ===== src/Examples/Subscribers.antt =====
-- Phone numbers, subscribers and their services on small tables.
use supersurf_billing_phase.Common.{
  ℕ, ◌+◌, ◌≤◌, ◌<◌, ◌≡◌, refl, Bool, true, false, some, [], ◌∷◌, ◌++◌, ◌==◌, Text, codes, find,
  strip, all_codes, text_eq, is_space, arith, first_free, first_untaken, zero_padded, digits,
  lstrip, rstrip,
}
use supersurf_billing_phase.Exec.{ok, atomic, ◌>>=◌}
use supersurf_billing_phase.Schema.Choices.{CustomerType}
use supersurf_billing_phase.Schema.Rows.{Subscriber, Service, SequenceKey}
use supersurf_billing_phase.Schema.Database.{Db}
use supersurf_billing_phase.Ledger.Save.{save_valid}
use supersurf_billing_phase.Validation.{complaints, first_complaint, collect}
use supersurf_billing_phase.Service.Lookup.{fresh, lock_subscriber, record_event_labelled}
use supersurf_billing_phase.Payments.References.{is_account_reference}
use supersurf_billing_phase.Calls.{run}
use supersurf_billing_phase.Calls.Reach.{empty}
use supersurf_billing_phase.Subscribers.Phone.{
  country, without_separators, after_prefix, national_part, is_national, checked_national,
  international, normalize_kenyan_phone,
}
use supersurf_billing_phase.Subscribers.Normal.{
  IsPlain, IsNational, IsSpelling, normalize_kenyan_phone_ok, normalize_kenyan_phone-spellings,
}
use supersurf_billing_phase.Subscribers.Clean.{
  subscriber_full_clean, service_full_clean, without_newline, is_reference_form,
  service_reference_of,
}
use supersurf_billing_phase.Subscribers.Allocate.{
  account_number_of, account_taken, reference_taken, lock_sequence_at, lock_sequence, set_next,
  allocate_account_number, allocate_service_identity,
}
use supersurf_billing_phase.Subscribers.Services.{
  SubscriberForm, ServiceForm, save_new_subscriber, create_subscriber, save_new_service,
  create_service,
}
use supersurf_billing_phase.Subscribers.Sequences.{next_of}
use supersurf_billing_phase.Subscribers.Returns.{
  allocate_account_number-returns, allocate_service_identity-returns,
}
use supersurf_billing_phase.Subscribers.Accounts.{create_subscriber_ok, create_service_ok}
use supersurf_billing_phase.Examples.Data.{ascii, registry, subscriber}

normalize_kenyan_phone_ok_example :
    (t : Text) × IsNational ascii t
    × IsSpelling (without_separators (strip (codes "0712-345 678"))) t
    × (codes "+254712345678" ≡ codes "+254" ++ t)
unfolding normalize_kenyan_phone without_separators national_part after_prefix international
    checked_national is_national all_codes strip lstrip rstrip is_space
normalize_kenyan_phone_ok_example =
    normalize_kenyan_phone_ok ascii (codes "0712-345 678") (codes "+254712345678") refl

digit-IsPlain : (c : ℕ) → ascii.is_digit c ≡ true → IsPlain c
unfolding is_space
digit-IsPlain c h = (ground (arith, h), ground (arith, h))

normalize_kenyan_phone-spellings_example :
    (normalize_kenyan_phone ascii (country ++ codes "712345678")
      ≡ ok (country ++ codes "712345678"))
    × (normalize_kenyan_phone ascii (codes "254" ++ codes "712345678")
        ≡ ok (country ++ codes "712345678"))
    × (normalize_kenyan_phone ascii (codes "0" ++ codes "712345678")
        ≡ ok (country ++ codes "712345678"))
unfolding is_national all_codes
normalize_kenyan_phone-spellings_example =
    normalize_kenyan_phone-spellings ascii digit-IsPlain (codes "712345678") refl

abbrev unpaid : Db
unpaid = run ascii (registry ∷ []) empty

allocate_account_number-returns_example :
    (t : Text) × (db' : Db) × (allocate_account_number unpaid ≡ (ok t, db'))
allocate_account_number-returns_example = allocate_account_number-returns unpaid

allocate_service_identity-returns_example :
    (identity : ℕ × Text) × (db' : Db) × (allocate_service_identity subscriber unpaid
      ≡ (ok identity, db'))
unfolding zero_padded digits text_eq
allocate_service_identity-returns_example =
    allocate_service_identity-returns subscriber unpaid 2 (omega arith) (omega arith) refl

abbrev applicant : SubscriberForm
applicant = record {
  customer_type = CustomerType.individual;
  display_name = codes " Baraka ";
  primary_phone = codes "0712345678";
  email = [];
  reason = codes "New";
}

abbrev any_email : Text → Bool
any_email t = true

abbrev registered : Db
registered = (create_subscriber ascii any_email applicant (some 7) unpaid).1

abbrev baraka : Subscriber
baraka = record {
  id = 0;
  account_number = codes "SS000002";
  customer_type = CustomerType.individual;
  display_name = codes "Baraka";
  primary_phone = codes "+254712345678";
  email = [];
  is_active = true;
}

create_subscriber_ok_example :
    (n : ℕ) × (baraka.account_number ≡ account_number_of n)
    × (next_of SequenceKey.account unpaid.sequences ≤ n)
    × (account_taken unpaid n ≡ false)
    × ((k : ℕ)
        → next_of SequenceKey.account unpaid.sequences ≤ k
        → k < n
        → account_taken unpaid k ≡ true)
    × (next_of SequenceKey.account registered.sequences ≡ n + 1)
    × (baraka.display_name ≡ strip applicant.display_name)
    × (baraka.is_active ≡ true)
    × (registered.subscribers ≡ baraka ∷ unpaid.subscribers)
unfolding atomic ◌>>=◌ create_subscriber save_new_subscriber save_valid subscriber_full_clean
    without_newline is_account_reference allocate_account_number lock_sequence lock_sequence_at
    set_next first_free first_untaken zero_padded digits text_eq strip lstrip rstrip is_space
    all_codes fresh record_event_labelled complaints first_complaint collect normalize_kenyan_phone
    without_separators national_part after_prefix international checked_national is_national
create_subscriber_ok_example =
    create_subscriber_ok ascii any_email applicant (some 7) unpaid registered baraka refl

abbrev wanted : ServiceForm
wanted = record { label = codes "Shop"; reason = codes "New" }

abbrev connected : Db
connected = (create_service ascii 1 wanted (some 7) unpaid).1

abbrev shop : Service
shop = record {
  id = 0;
  subscriber_id = 1;
  service_number = 2;
  service_reference = codes "SS000001-02";
  label = codes "Shop";
  is_active = true;
}

create_service_ok_example :
    (owner : Subscriber) × (find (λ r. r.id == 1) unpaid.subscribers ≡ some owner)
    × (shop.subscriber_id ≡ owner.id)
    × (shop.service_reference ≡ service_reference_of owner.account_number shop.service_number)
    × (next_of (SequenceKey.services_of owner.id) unpaid.sequences ≤ shop.service_number)
    × (shop.service_number ≤ 99)
    × (reference_taken owner.account_number unpaid shop.service_number ≡ false)
    × (next_of (SequenceKey.services_of owner.id) connected.sequences ≡ shop.service_number + 1)
    × (shop.is_active ≡ true)
    × (connected.services ≡ shop ∷ unpaid.services)
unfolding atomic ◌>>=◌ create_service save_new_service save_valid service_full_clean without_newline
    is_account_reference is_reference_form allocate_service_identity lock_sequence lock_sequence_at
    set_next first_free first_untaken zero_padded digits text_eq strip lstrip rstrip is_space
    all_codes fresh record_event_labelled lock_subscriber complaints first_complaint collect
create_service_ok_example = create_service_ok ascii 1 wanted (some 7) unpaid connected shop refl
