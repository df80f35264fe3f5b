-- ===== src/Paybill/Skipped.antt =====
-- The events that are answered without a payment.
use mathlib.Core.Path.{subst}
use supersurf_billing_phase.Common.{
  ℕ, ◌≡◌, sym, ap, ◌∙◌, ◌⊎◌, Bool, true, false, none, some, List, ◌<◌, Text, is_blank, exists,
}
use supersurf_billing_phase.Exec.{ok}
use supersurf_billing_phase.Exec.Runs.{bind_then, pure_ok}
use supersurf_billing_phase.Schema.Choices.{is_confirmation}
use supersurf_billing_phase.Schema.Rows.{MpesaCallbackEvent, MpesaCallbackPaymentLink, Wallet}
use supersurf_billing_phase.Schema.Database.{Db}
use supersurf_billing_phase.Money.{max_money_minor}
use supersurf_billing_phase.Service.Lookup.{record_event}
use supersurf_billing_phase.Service.Effects.{Tables, tables}
use supersurf_billing_phase.Paybill.Settings.{Settings}
use supersurf_billing_phase.Paybill.Process.{
  Outcome, PaybillResult, without_payment, was_skipped, record_once, record_skip, skip,
}

-- The rows of money and the links.
abbrev pub Booked : Type 0
Booked = Tables × List Wallet × List MpesaCallbackPaymentLink

abbrev pub booked : Db → Booked
booked db = (tables db, db.wallets, db.links)

-- Why an event is answered without a payment.
abbrev pub IsSkipped : Settings → MpesaCallbackEvent → Outcome → Type 0
IsSkipped settings e Outcome.ingestion_disabled = settings.ingestion_enabled ≡ false
IsSkipped settings e Outcome.unsupported_event_type = is_confirmation e.event_type ≡ false
IsSkipped settings e Outcome.missing_transaction_id = is_blank e.provider_transaction_id ≡ true
IsSkipped settings e Outcome.invalid_amount =
    (e.amount ≡ none) ⊎ ((n : ℕ) × (e.amount ≡ some n) × ((n ≡ 0) ⊎ (max_money_minor < n)))
IsSkipped settings e Outcome.provider_identifier_mismatch =
    ¬ (e.provider_external_identifier ≡ settings.external_identifier)
IsSkipped settings e _ = ⊥

-- For its reason no payment is answered, and no money is booked.
abbrev pub IsIdle : Settings → MpesaCallbackEvent → PaybillResult → Db → Db → Type 0
IsIdle settings e result old new =
    IsSkipped settings e result.outcome
    × (result.payment ≡ none)
    × (result.link ≡ none)
    × (booked new ≡ booked old)

record_once_ok :
    (b : Bool) (k : ℕ) (reason : Text) (db db' : Db) (x : Unit)
    → record_once b k reason db ≡ (ok x, db')
    → booked db' ≡ booked db
unfolding record_event
record_once_ok true k reason db db' x h = sym (ap (λ r. booked r.1) h)
record_once_ok false k reason db db' x h = sym (ap (λ r. booked r.1) h)

pub skip_ok :
    (settings : Settings) (e : MpesaCallbackEvent) (k : ℕ) (reason : Text) (o : Outcome)
    (db db' : Db) (result : PaybillResult)
    → IsSkipped settings e o
    → skip k reason o db ≡ (ok result, db')
    → IsIdle settings e result db db'
unfolding skip record_skip
skip_ok settings e k reason o db db' result why h = bind_then _ _ db h λ x s1 noted h1.
    let (answer, same) = pure_ok (without_payment o) result s1 db' h1 in
    (
      subst (IsSkipped settings e) (ap (λ r. r.outcome) answer) why,
      sym (ap (λ r. r.payment) answer),
      sym (ap (λ r. r.link) answer),
      sym (ap booked same)
          ∙ record_once_ok (exists (was_skipped k reason) db.audit) k reason db s1 x noted,
    )
