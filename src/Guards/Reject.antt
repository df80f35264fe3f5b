-- ===== src/Guards/Reject.antt =====
-- `_reject_protected_changes` of BillingPeriod, Wallet, LedgerEntry, BillingCharge, Payment,
-- PaymentAllocation and MpesaCallbackPaymentLink, which differ in their columns.
use supersurf_billing_phase.Common.{
  ℕ, Bool, true, false, ◌&&◌, Option, none, some, List, [], ◌∷◌, ◌++◌, ◌==◌, opt_eq, if◌then◌else◌,
  find, exists, Text, codes, text_eq,
}
use supersurf_billing_phase.Exec.{Result, ok, err}
use supersurf_billing_phase.Errors.{Error}
use supersurf_billing_phase.Schema.Choices.{entry_type_eq, direction_eq, source_eq, period_type_eq}
use supersurf_billing_phase.Schema.Rows.{
  BillingPeriod, Wallet, LedgerEntry, BillingCharge, Payment, PaymentAllocation,
  MpesaCallbackPaymentLink,
}
use supersurf_billing_phase.Schema.Database.{Db}

-- An immutable column: its name, and whether two rows agree in it.
pub record Column (A : Type 0) : Type 0 where
  pub name : Text
  pub unchanged : A → A → Bool

abbrev nat : {A : Type 0} → Text → (A → ℕ) → Column A
nat name value = record { name = name; unchanged = λ a b. value a == value b }

abbrev opt : {A : Type 0} → Text → (A → Option ℕ) → Column A
opt name value = record { name = name; unchanged = λ a b. opt_eq (value a) (value b) }

abbrev text : {A : Type 0} → Text → (A → Text) → Column A
text name value = record { name = name; unchanged = λ a b. text_eq (value a) (value b) }

abbrev pub mentions : List Text → List Text → Bool
mentions protected fields = exists (λ f. exists (λ n. text_eq n f) protected) fields

abbrev names_protected : List Text → Option (List Text) → Bool
names_protected protected none = false
names_protected protected (some fields) = mentions protected fields

module _ {A : Type 0} where
  abbrev pub all_same : List (Column A) → A → A → Bool
  all_same [] a b = true
  all_same (c ∷ columns) a b = c.unchanged a b && all_same columns a b

  abbrev names : List (Column A) → List Text
  names [] = []
  names (c ∷ columns) = c.name ∷ names columns

  abbrev pub compare_stored : List (Column A) → Option A → A → Result Error Unit
  compare_stored columns none row = ok tt
  compare_stored columns (some current) row =
      if all_same columns current row then ok tt else err Error.immutable_row

  -- `more` are the names of `IMMUTABLE_UPDATE_FIELDS` beside those of the columns.
  unfoldable pub reject_changes :
      List (Column A) → List Text → Option (List Text) → Option A → A → Result Error Unit
  unfolding text_eq
  reject_changes columns more update_fields stored row =
      if names_protected (names columns ++ more) update_fields
      then err Error.immutable_row
      else compare_stored columns stored row

abbrev pub period_columns : List (Column BillingPeriod)
period_columns =
    nat (codes "service_id") (λ p. p.service_id)
    ∷ nat (codes "subscription_id") (λ p. p.subscription_id)
    ∷ nat (codes "sequence_number") (λ p. p.sequence_number)
    ∷ record {
      name = codes "period_type";
      unchanged = λ a b. period_type_eq a.period_type b.period_type;
    }
    ∷ nat (codes "operation_id") (λ p. p.operation_id)
    ∷ opt (codes "previous_period_id") (λ p. p.previous_period_id)
    ∷ nat (codes "effective_at") (λ p. p.effective_at)
    ∷ nat (codes "starts_at") (λ p. p.starts_at)
    ∷ nat (codes "expires_at") (λ p. p.expires_at)
    ∷ nat (codes "grace_until") (λ p. p.grace_until)
    ∷ text (codes "plan_name") (λ p. p.plan_name)
    ∷ nat (codes "download_speed_mbps") (λ p. p.download_speed_mbps)
    ∷ nat (codes "price_minor") (λ p. p.price_minor)
    ∷ text (codes "currency") (λ p. p.currency)
    ∷ nat (codes "duration_days") (λ p. p.duration_days)
    ∷ nat (codes "grace_period_hours") (λ p. p.grace_period_hours)
    ∷ []

abbrev pub wallet_columns : List (Column Wallet)
wallet_columns =
    nat (codes "subscriber_id") (λ w. w.subscriber_id)
    ∷ text (codes "currency") (λ w. w.currency)
    ∷ []

abbrev pub entry_columns : List (Column LedgerEntry)
entry_columns =
    nat (codes "wallet_id") (λ e. e.wallet_id)
    ∷ nat (codes "sequence_number") (λ e. e.sequence_number)
    ∷ nat (codes "operation_id") (λ e. e.operation_id)
    ∷ record {
      name = codes "entry_type";
      unchanged = λ a b. entry_type_eq a.entry_type b.entry_type;
    }
    ∷ record { name = codes "direction"; unchanged = λ a b. direction_eq a.direction b.direction }
    ∷ nat (codes "amount_minor") (λ e. e.amount_minor)
    ∷ nat (codes "balance_after_minor") (λ e. e.balance_after_minor)
    ∷ text (codes "currency") (λ e. e.currency)
    ∷ opt (codes "previous_entry_id") (λ e. e.previous_entry_id)
    ∷ opt (codes "reverses_entry_id") (λ e. e.reverses_entry_id)
    ∷ text (codes "reason") (λ e. e.reason)
    ∷ record {
      name = codes "creation_source";
      unchanged = λ a b. source_eq a.creation_source b.creation_source;
    }
    ∷ opt (codes "created_by_id") (λ e. e.created_by_id)
    ∷ []

abbrev pub charge_columns : List (Column BillingCharge)
charge_columns =
    nat (codes "service_id") (λ c. c.service_id)
    ∷ nat (codes "subscription_id") (λ c. c.subscription_id)
    ∷ nat (codes "billing_period_id") (λ c. c.billing_period_id)
    ∷ nat (codes "wallet_id") (λ c. c.wallet_id)
    ∷ nat (codes "ledger_entry_id") (λ c. c.ledger_entry_id)
    ∷ nat (codes "operation_id") (λ c. c.operation_id)
    ∷ record {
      name = codes "charge_type";
      unchanged = λ a b. period_type_eq a.charge_type b.charge_type;
    }
    ∷ nat (codes "amount_minor") (λ c. c.amount_minor)
    ∷ text (codes "currency") (λ c. c.currency)
    ∷ text (codes "reason") (λ c. c.reason)
    ∷ opt (codes "created_by_id") (λ c. c.created_by_id)
    ∷ []

abbrev pub payment_columns : List (Column Payment)
payment_columns =
    nat (codes "provider_profile_id") (λ p. p.provider_profile_id)
    ∷ text (codes "provider_transaction_id") (λ p. p.provider_transaction_id)
    ∷ nat (codes "amount_minor") (λ p. p.amount_minor)
    ∷ text (codes "currency") (λ p. p.currency)
    ∷ nat (codes "received_at") (λ p. p.received_at)
    ∷ text (codes "account_reference") (λ p. p.account_reference)
    ∷ text (codes "payload_digest") (λ p. p.payload_digest)
    ∷ []

abbrev pub allocation_columns : List (Column PaymentAllocation)
allocation_columns =
    nat (codes "payment_id") (λ a. a.payment_id)
    ∷ nat (codes "wallet_id") (λ a. a.wallet_id)
    ∷ nat (codes "ledger_entry_id") (λ a. a.ledger_entry_id)
    ∷ nat (codes "operation_id") (λ a. a.operation_id)
    ∷ nat (codes "amount_minor") (λ a. a.amount_minor)
    ∷ text (codes "currency") (λ a. a.currency)
    ∷ record {
      name = codes "creation_source";
      unchanged = λ a b. source_eq a.creation_source b.creation_source;
    }
    ∷ opt (codes "created_by_id") (λ a. a.created_by_id)
    ∷ []

abbrev pub link_columns : List (Column MpesaCallbackPaymentLink)
link_columns =
    nat (codes "callback_event_id") (λ l. l.callback_event_id)
    ∷ nat (codes "payment_id") (λ l. l.payment_id)
    ∷ []

-- The names of `IMMUTABLE_UPDATE_FIELDS` that no column above has.
abbrev pub wallet_names : List Text
wallet_names = codes "created_at" ∷ codes "subscriber" ∷ []

abbrev pub entry_names : List Text
entry_names =
    codes "created_at"
    ∷ codes "wallet"
    ∷ codes "previous_entry"
    ∷ codes "reverses_entry"
    ∷ codes "created_by"
    ∷ []

abbrev pub charge_names : List Text
charge_names =
    codes "created_at"
    ∷ codes "service"
    ∷ codes "subscription"
    ∷ codes "billing_period"
    ∷ codes "wallet"
    ∷ codes "ledger_entry"
    ∷ codes "created_by"
    ∷ []

abbrev pub payment_names : List Text
payment_names = codes "created_at" ∷ codes "provider_profile" ∷ []

abbrev pub allocation_names : List Text
allocation_names =
    codes "allocation_type"
    ∷ codes "created_at"
    ∷ codes "payment"
    ∷ codes "wallet"
    ∷ codes "ledger_entry"
    ∷ codes "created_by"
    ∷ []

abbrev pub link_names : List Text
link_names = codes "created_at" ∷ codes "callback_event" ∷ codes "payment" ∷ []

-- `save` of a billing period does not hand over its `update_fields`.
unfoldable pub reject_period_changes : BillingPeriod → Db → Result Error Unit
unfolding reject_changes
reject_period_changes p db =
    reject_changes period_columns [] none (find (λ r. r.id == p.id) db.periods) p

unfoldable pub reject_wallet_changes : Option (List Text) → Wallet → Db → Result Error Unit
unfolding reject_changes
reject_wallet_changes fields w db =
    reject_changes wallet_columns wallet_names fields (find (λ r. r.id == w.id) db.wallets) w

unfoldable pub reject_entry_changes : Option (List Text) → LedgerEntry → Db → Result Error Unit
unfolding reject_changes
reject_entry_changes fields e db =
    reject_changes entry_columns entry_names fields (find (λ r. r.id == e.id) db.entries) e

unfoldable pub reject_charge_changes : Option (List Text) → BillingCharge → Db → Result Error Unit
unfolding reject_changes
reject_charge_changes fields c db =
    reject_changes charge_columns charge_names fields (find (λ r. r.id == c.id) db.charges) c

unfoldable pub reject_payment_changes : Option (List Text) → Payment → Db → Result Error Unit
unfolding reject_changes
reject_payment_changes fields p db =
    reject_changes payment_columns payment_names fields (find (λ r. r.id == p.id) db.payments) p

unfoldable pub reject_allocation_changes :
    Option (List Text) → PaymentAllocation → Db → Result Error Unit
unfolding reject_changes
reject_allocation_changes fields a db =
    reject_changes allocation_columns allocation_names fields
      (find (λ r. r.id == a.id) db.allocations) a

unfoldable pub reject_link_changes :
    Option (List Text) → MpesaCallbackPaymentLink → Db → Result Error Unit
unfolding reject_changes
reject_link_changes fields l db =
    reject_changes link_columns link_names fields (find (λ r. r.id == l.id) db.links) l
