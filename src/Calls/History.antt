-- ===== src/Calls/History.antt =====
-- What the calls leave alone: the rows written before, and the database of a call that raised.
use supersurf_billing_phase.Common.{◌≡◌, refl, ap, some, List, [], ◌∷◌, ◌++◌}
use supersurf_billing_phase.Exec.{Result, ok, err}
use supersurf_billing_phase.Exec.Runs.{atomic_err}
use supersurf_billing_phase.Errors.{Error}
use supersurf_billing_phase.Schema.Database.{Db}
use supersurf_billing_phase.Common.{Unicode}
use supersurf_billing_phase.Wallets.Adjust.{post_manual_wallet_adjustment}
use supersurf_billing_phase.Wallets.Reverse.{reverse_ledger_entry}
use supersurf_billing_phase.Periods.Renew.{activate_billing_period, renew_billing_period}
use supersurf_billing_phase.Charges.Post.{
  post_wallet_funded_period, activate_service_from_wallet, renew_service_from_wallet,
}
use supersurf_billing_phase.Payments.Ingest.{ingest_fake_payment}
use supersurf_billing_phase.Payments.Resolve.{resolve_unmatched_payment}
use supersurf_billing_phase.Subscriptions.Assign.{
  assign_package, change_subscription_package, end_subscription,
}
use supersurf_billing_phase.Service.Lookup.{record_event}
use supersurf_billing_phase.Callbacks.Captured.{capture_err}
use supersurf_billing_phase.Paybill.Process.{record_failure, process_confirmation}
use supersurf_billing_phase.Stable.{IsStable, IsCallbackStable}
use supersurf_billing_phase.Calls.{Call, outcome, attempt, run}
use supersurf_billing_phase.Calls.Stable.{run-keeps}

-- New rows stand before the old ones, which are all there as they were.
abbrev pub Extends {ℓ} : {A : Type ℓ} → List A → List A → Type ℓ
Extends old rows = (new : List _) × (rows ≡ new ++ old)

-- The append-only tables have their old rows still.
abbrev pub Remembers : Db → Db → Type 0
Remembers old db =
    Extends old.entries db.entries
    × Extends old.periods db.periods
    × Extends old.charges db.charges
    × Extends old.payments db.payments
    × Extends old.allocations db.allocations
    × Extends old.audit db.audit
    × Extends old.events db.events
    × Extends old.links db.links

one_more {ℓ} : {A : Type ℓ} (a : A) (old rows : List A) → Extends old rows → Extends old (a ∷ rows)
one_more a old rows (new, e) = (a ∷ new, ap (λ l. a ∷ l) e)

Remembers-IsStable : (old : Db) → IsStable (Remembers old)
Remembers-IsStable old = record {
  key = λ db h. h;
  event = λ e db (es, ps, cs, ys, als, audit, calls, links).
      (es, ps, cs, ys, als, one_more e _ _ audit, calls, links);
  wallet = λ w db accepted h. h;
  entry = λ e db accepted (es, ps, cs, ys, als, audit, calls, links).
      (one_more _ _ _ es, ps, cs, ys, als, audit, calls, links);
  period = λ p db accepted (es, ps, cs, ys, als, audit, calls, links).
      (es, one_more _ _ _ ps, cs, ys, als, audit, calls, links);
  charge = λ c db accepted (es, ps, cs, ys, als, audit, calls, links).
      (es, ps, one_more _ _ _ cs, ys, als, audit, calls, links);
  payment = λ u p db accepted (es, ps, cs, ys, als, audit, calls, links).
      (es, ps, cs, one_more _ _ _ ys, als, audit, calls, links);
  allocation = λ a db accepted (es, ps, cs, ys, als, audit, calls, links).
      (es, ps, cs, ys, one_more _ _ _ als, audit, calls, links);
  case = λ c db accepted h. h;
  resolution = λ c db accepted h. h;
  subscription = λ s db accepted h. h;
  ending = λ now s db accepted h. h;
}

Remembers-IsCallbackStable : (old : Db) → IsCallbackStable (Remembers old)
Remembers-IsCallbackStable old = record {
  stable = Remembers-IsStable old;
  callback = λ e db accepted (es, ps, cs, ys, als, audit, calls, links).
      (es, ps, cs, ys, als, audit, one_more _ _ _ calls, links);
  link = λ u l db accepted (es, ps, cs, ys, als, audit, calls, links).
      (es, ps, cs, ys, als, audit, calls, one_more _ _ _ links);
}

-- No sequence of calls changes, drops or reorders a ledger entry, a billing period, a charge, a
-- payment, an allocation, an audit event, a callback event or a callback link that is in the
-- database.
pub run-Remembers : (u : Unicode) (calls : List Call) (db : Db) → Remembers db (run u calls db)
run-Remembers u calls db =
    run-keeps (Remembers-IsCallbackStable db) (λ subscribers services plans profiles db h. h) u
      calls db
      (
        ([], refl),
        ([], refl),
        ([], refl),
        ([], refl),
        ([], refl),
        ([], refl),
        ([], refl),
        ([], refl),
      )

raised :
    {A : Type 0} {db : Db} (x : Result Error A × Db) (e : Error)
    → (x.0 ≡ err e → x.1 ≡ db)
    → (outcome x).0 ≡ some e
    → (outcome x).1 ≡ db
raised (ok a, s) e h k = cc
raised (err other, s) e h k = let same : other ≡ e = cc in h (ap err same)

-- A call that raises leaves the database as it found it.
pub attempt_err :
    (u : Unicode) (call : Call) (db : Db) (e : Error)
    → (attempt u call db).0 ≡ some e
    → (attempt u call db).1 ≡ db
unfolding post_manual_wallet_adjustment reverse_ledger_entry activate_billing_period
    renew_billing_period post_wallet_funded_period activate_service_from_wallet
    renew_service_from_wallet ingest_fake_payment resolve_unmatched_payment assign_package
    change_subscription_package end_subscription process_confirmation record_failure record_event
attempt_err u (Call.adjust subscriber direction amount operation reason actor) db e =
    raised _ e (atomic_err _ db)
attempt_err u (Call.reverse entry operation reason actor) db e = raised _ e (atomic_err _ db)
attempt_err u (Call.activate service operation expected reason actor at now) db e =
    raised _ e (atomic_err _ db)
attempt_err u (Call.renew service operation expected reason actor at now) db e =
    raised _ e (atomic_err _ db)
attempt_err u (Call.activate_from_wallet service operation expected reason actor at now) db e =
    raised _ e (atomic_err _ db)
attempt_err u (Call.renew_from_wallet service operation expected reason actor at now) db e =
    raised _ e (atomic_err _ db)
attempt_err u
      (Call.ingest production profile transaction amount at reference operation actor digest) db e =
    raised _ e (atomic_err _ db)
attempt_err u (Call.resolve unmatched subscriber operation reason actor now) db e =
    raised _ e (atomic_err _ db)
attempt_err u (Call.assign service plan reason actor now) db e = raised _ e (atomic_err _ db)
attempt_err u (Call.change subscription plan reason actor now) db e = raised _ e (atomic_err _ db)
attempt_err u (Call.end subscription reason actor now) db e = raised _ e (atomic_err _ db)
attempt_err u (Call.capture p digest t payload now) db e =
    raised _ e (capture_err p digest t payload now db e)
attempt_err u (Call.confirm settings operation_of event) db e = raised _ e (atomic_err _ db)
attempt_err u (Call.fail event reason) db e = λ h. cc
attempt_err u (Call.registry subscribers services plans profiles) db e = λ h. cc
