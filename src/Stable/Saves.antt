-- ===== src/Stable/Saves.antt =====
-- Every save keeps what every accepted row keeps: it raises and writes nothing, or it writes the row.
use supersurf_billing_phase.Common.{
  ℕ, ◌≡◌, refl, inl, inr, Bool, true, false, ◌&&◌, Option, none, some, List, [], ◌∷◌, ◌==◌,
  if◌then◌else◌, find, exists, Text,
}
use supersurf_billing_phase.Exec.{Result, ok, err}
use supersurf_billing_phase.Exec.Keeps.{Keeps}
use supersurf_billing_phase.Errors.{Issue, Error}
use supersurf_billing_phase.Schema.Choices.{is_resolved}
use supersurf_billing_phase.Schema.Rows.{
  AuditAction, Target, BillingCharge, BillingPeriod, LedgerEntry, Payment, PaymentAllocation,
  Subscription, UnmatchedPaymentCase, Wallet,
}
use supersurf_billing_phase.Schema.Database.{Db}
use supersurf_billing_phase.Validation.{complaints}
use supersurf_billing_phase.Ledger.Clean as Entry
use supersurf_billing_phase.Ledger.Save.{
  insert_entry, cleaned_entry, save_valid, save_valid_cases, save_ledger_entry,
}
use supersurf_billing_phase.Periods.Clean as Period
use supersurf_billing_phase.Periods.Save.{insert_period, cleaned_period, save_billing_period}
use supersurf_billing_phase.Charges.Clean as Charge
use supersurf_billing_phase.Charges.Clean.{insert_charge, cleaned_charge, save_billing_charge}
use supersurf_billing_phase.Common.{Unicode}
use supersurf_billing_phase.Payments.Clean.{
  cleaned_payment, payment_full_clean, allocation_full_clean, case_full_clean,
}
use supersurf_billing_phase.Payments.Save.{
  insert_allocation, insert_case, replace_case, create_payment_with, create_payment,
  save_allocation, save_case, save_resolution,
}
use supersurf_billing_phase.Subscriptions.Clean.{
  full_clean, cleaned_subscription, write_status, reject_protected, save_new_with,
  save_new_subscription, save_status_with, save_found, save_status,
}
use supersurf_billing_phase.Subscriptions.Assign.{ended_row}
use supersurf_billing_phase.Service.Lookup.{
  wallet_checks, insert_wallet, fresh, save_wallet, record_event,
}
use supersurf_billing_phase.Stable.{IsStable}

keeps_guarded :
    {A : Type 0} (P : Db → Type 0) (b : Bool) (x y : Result Error A × Db)
    → P x.1
    → P y.1
    → P (if b then x else y).1
keeps_guarded P true x y h k = h
keeps_guarded P false x y h k = k

module _ {P : Db → Type 0} where
  -- A save keeps `P` if every accepted row does.
  pub Keeps-save_valid :
      {A : Type 0} (used : Error) (issues : Db → List Issue) (insert : Db → Db) (row : A)
      → ((db : Db) → issues db ≡ [] → P db → P (insert db))
      → Keeps P (λ db. save_valid used (issues db) insert row db)
  Keeps-save_valid used issues insert row step = record {
    at = λ db h. elim (save_valid_cases used (issues db) insert row db) [
      | inl (error, raised) ↦ rw raised h
      | inr (accepted, saved) ↦ rw saved (step db accepted h)
    ];
  }

module _ {P : Db → Type 0} (stable : IsStable P) where
  pub fresh-Keeps : Keeps P fresh
  unfolding fresh
  fresh-Keeps = record { at = stable.key }

  pub record_event-Keeps :
      (actor : Option ℕ) (action : AuditAction) (target : ℕ) (reason : Text)
      → Keeps P (record_event actor action target reason)
  unfolding record_event
  record_event-Keeps actor action target reason = record {
    at = stable.event (record {
      actor_id = actor;
      action = action;
      target_identifier = Target.keyed target;
      reason = reason;
    });
  }

  pub save_wallet-Keeps : (w : Wallet) → Keeps P (save_wallet w)
  unfolding save_wallet
  save_wallet-Keeps w =
      Keeps-save_valid (Error.invalid_row Issue.id_taken) (λ db. complaints (wallet_checks db w))
        (insert_wallet w) w (stable.wallet w)

  pub save_ledger_entry-Keeps : (e : LedgerEntry) → Keeps P (save_ledger_entry e)
  unfolding save_ledger_entry
  save_ledger_entry-Keeps e =
      Keeps-save_valid Error.operation_used_for_entry (λ db. Entry.full_clean db e)
        (insert_entry (cleaned_entry e)) (cleaned_entry e) (stable.entry e)

  pub save_billing_period-Keeps : (p : BillingPeriod) → Keeps P (save_billing_period p)
  unfolding save_billing_period
  save_billing_period-Keeps p =
      Keeps-save_valid (Error.invalid_row Issue.operation_id_taken) (λ db. Period.full_clean db p)
        (insert_period (cleaned_period p)) (cleaned_period p) (stable.period p)

  pub save_billing_charge-Keeps : (c : BillingCharge) → Keeps P (save_billing_charge c)
  unfolding save_billing_charge
  save_billing_charge-Keeps c =
      Keeps-save_valid Error.operation_used_for_charge (λ db. Charge.full_clean db c)
        (insert_charge (cleaned_charge c)) (cleaned_charge c) (stable.charge c)

  create_payment-keeps :
      (u : Unicode) (p : Payment) (db : Db) (issues : List Issue)
      → payment_full_clean u db p ≡ issues
      → P db
      → P (create_payment_with (cleaned_payment u p) issues db).1
  create_payment-keeps u p db [] e h = stable.payment u p db e h
  create_payment-keeps u p db (issue ∷ issues) e h = h

  pub create_payment-Keeps : (u : Unicode) (p : Payment) → Keeps P (create_payment u p)
  unfolding create_payment
  create_payment-Keeps u p = record {
    at = λ db h. create_payment-keeps u p db (payment_full_clean u db p) refl h;
  }

  pub save_allocation-Keeps : (a : PaymentAllocation) → Keeps P (save_allocation a)
  unfolding save_allocation
  save_allocation-Keeps a =
      Keeps-save_valid Error.operation_used_for_allocation (λ db. allocation_full_clean db a)
        (insert_allocation a) a (stable.allocation a)

  pub save_case-Keeps : (c : UnmatchedPaymentCase) → Keeps P (save_case c)
  unfolding save_case
  save_case-Keeps c =
      Keeps-save_valid (Error.invalid_row Issue.payment_has_case) (λ db. case_full_clean true db c)
        (insert_case c) c (stable.case c)

  resolution-Keeps :
      (c : UnmatchedPaymentCase)
      → Keeps P (λ db.
        save_valid
          (Error.invalid_row Issue.payment_has_case)
          (case_full_clean false db c)
          (replace_case c)
          c
          db)
  resolution-Keeps c =
      Keeps-save_valid (Error.invalid_row Issue.payment_has_case) (λ db. case_full_clean false db c)
        (replace_case c) c (stable.resolution c)

  pub save_resolution-Keeps : (c : UnmatchedPaymentCase) → Keeps P (save_resolution c)
  unfolding save_resolution
  save_resolution-Keeps c = record {
    at = λ db h.
        keeps_guarded P (exists (λ r. r.id == c.id && is_resolved r.status) db.cases)
          (err Error.immutable_row, db)
          (save_valid (Error.invalid_row Issue.payment_has_case) (case_full_clean false db c)
            (replace_case c) c db)
          h ((resolution-Keeps c).at db h);
  }

  save_new-keeps :
      (s : Subscription) (db : Db) (issues : List Issue)
      → full_clean true db s ≡ issues
      → P db
      → P (save_new_with (cleaned_subscription s) issues db).1
  save_new-keeps s db [] e h = stable.subscription s db e h
  save_new-keeps s db (issue ∷ issues) e h = h

  pub save_new_subscription-Keeps : (s : Subscription) → Keeps P (save_new_subscription s)
  unfolding save_new_subscription
  save_new_subscription-Keeps s = record {
    at = λ db h. save_new-keeps s db (full_clean true db s) refl h;
  }

  module _ (now : ℕ) (s : Subscription) where
    save_status_with-keeps :
        (checked : Result Error Unit) (db : Db)
        → P db
        → P (save_status_with (ended_row now s) checked db).1
    save_status_with-keeps (err e) db h = h
    save_status_with-keeps (ok _) db h =
        (Keeps-save_valid Error.already_subscribed (λ db. full_clean false db (ended_row now s))
            (write_status (ended_row now s)) (ended_row now s) (stable.ending now s)).at
          db h

    save_found-keeps :
        (found : Option Subscription) (db : Db) → P db → P (save_found (ended_row now s) found db).1
    unfolding save_found
    save_found-keeps none db h = h
    save_found-keeps (some current) db h =
        save_status_with-keeps (reject_protected current (ended_row now s)) db h

    pub ended_row-Keeps : Keeps P (save_status (ended_row now s))
    unfolding save_status
    ended_row-Keeps = record {
      at = λ db h. save_found-keeps (find (λ r. r.id == s.id) db.subscriptions) db h;
    }
