-- ===== src/Lib.antt =====
-- The billing core of the SuperSurf operator application: wallets and their ledgers, prepaid billing
-- periods, charges from a wallet, payments and unmatched cases, and subscriptions.
--
-- The program is a Django application. Each public function of billing/services.py is a transaction:
-- it checks the actor's permissions, normalises its arguments, looks for an earlier answer under the
-- same operation ID, locks rows, looks again, saves new rows, and records audit events. A row is
-- saved through its model (billing/models.py), whose `save` runs `full_clean`: the columns' own
-- tests, `clean`, the unique columns and the constraints. The parts meet in the database alone: a
-- charge writes a billing period, a ledger entry and a charge; a payment writes a ledger entry and an
-- allocation, or an unmatched case that a later call resolves.
--
-- How the files correspond to the code:
--   Common, Exec, Errors, Validation: lists, Python texts, actions on the database that return or
--     raise (an action is a function from the database to a result and the database after it;
--     `atomic` takes the writes back when the action raises), the errors, and how `full_clean`
--     collects complaints.
--   Schema: the choices, rows and tables of billing/models.py, subscribers/models.py and
--     audit/models.py. A table is a list, newest row first.
--   Money: billing/money.py (`ksh_to_minor_units`, `minor_units_to_ksh`, `format_ksh`) and
--     `_normalize_ledger_amount`.
--   Ledger: class LedgerEntry (Clean, Save) with `_save_ledger_entry`, `_lock_latest_ledger_entry`,
--     `_ledger_current_balance`, `_ledger_next_sequence`, `_ledger_resulting_balance`; Chain,
--     Accepted, Invariant and Balance hold the lemmas.
--   Service: what the services share: `_require_permission`, the `_normalize_` and `_validate_`
--     functions, the `_lock_` functions, class Wallet, `record_event` of audit/service.py.
--   Wallets: `post_manual_wallet_adjustment` (Adjust) and `reverse_ledger_entry` (Reverse).
--   Periods: class BillingPeriod (Clean, Save), `_create_billing_period` and `_billing_period_state`
--     (Dates), `activate_billing_period` and `renew_billing_period` (Renew).
--   Charges: class BillingCharge (Clean), `_post_wallet_funded_period` and its callers (Post).
--   Payments: classes Payment, PaymentAllocation and UnmatchedPaymentCase (Clean, Save), references
--     and digests (References), `_ingest_payment_core` and `ingest_fake_payment` (Ingest),
--     `resolve_unmatched_payment` (Resolve).
--   Subscriptions: class Subscription (Clean), `assign_package`, `change_subscription_package` and
--     `end_subscription` (Assign).
--   Subscribers: classes Subscriber and Service (Clean) of subscribers/models.py, the services of
--     subscribers/services.py (Services) with the account numbers and service references that they
--     allocate (Allocate), and subscribers/phone.py (Phone).
--   Callbacks: billing/mpesa_callbacks.py: what is kept of a payload (Sanitize), what is read out of it
--     (Extract), and `capture_mpesa_callback` with class MpesaCallbackEvent (Capture). A payload is a
--     value of Schema.Json.
--   Paybill: `process_mpesa_paybill_confirmation_event` (Process) and `sync_mpesa_paybill_profile` (Sync,
--     with class PaymentProviderProfile) of billing/services.py, with class MpesaCallbackPaymentLink
--     (Link) and the deployment's settings (Settings).
--   Webhook: `_mpesa_callback` of billing/views.py, which puts the capture and the processing together.
--   Packages: class Plan (Clean), and `create_package`, `update_package` and `set_package_active` (Edit).
--   Audit: `redact_value` and `safe_metadata` of audit/service.py (Redact).
--   Guards: `_reject_protected_changes` of the append-only models of billing/models.py (Reject).
--   Roles: `assign_roles_to_user` of users/services.py (Assign), on tables of its own (Rows).
--   Stable: a predicate that every accepted row keeps is kept by every service. Validity: one such
--     predicate, the invariant of the database. Calls: sequences of calls, reachable databases, and
--     what the calls leave alone. Examples: the services run on a small database.
--
-- Numbers: amounts are native naturals, bounded where the code bounds them (2147483647, also the
-- largest PositiveIntegerField); the code's differences are taken after a test for a negative one.
-- Decimals have the 28 digits of the default context. Instants are microseconds of UTC since the
-- year 1, and sums past the year 9999 raise. All recursion is on lists,
-- texts and payloads, but for the searches: the loop that looks for a free account number has a test for
-- each subscriber and one more, an error of the model if they are used up, and each subscriber takes
-- one number at most; the loop for a service number has a test for each number up to 99, where the code
-- stops too. Digits and their groups have the number itself as fuel.
--
-- What is taken as given, or left out:
--   Transactions that touch the same rows run one after the other, as their row locks make them; so
--   the branches that translate an IntegrityError of a lost race are not reached, and a lock is a
--   query. `uuid.uuid4` is a supply of new numbers. The choices of a column hold by its type. The
--   request, the address, the correlation ID and the metadata of audit events, and the columns
--   created_at and updated_at, are not in the rows. Python's Unicode database (`str.upper`,
--   `str.lower`, `str.isdigit`, the digits of a regular expression) is the parameter `Unicode`; `str`
--   of a composite value and `Decimal` of a text are in the parameter `Python`. The digest of a
--   payload, the operation ID that `uuid5` makes, the email validator, the reading of JSON and `int` of
--   a header are parameters too. In a sequence of calls the registry tables (subscribers, services,
--   plans, provider profiles) may change in any way between two calls.
--   Not here yet: the redaction of log lines, the guard of MpesaCallbackEvent and those of
--   the query sets, the seeding of roles. Other views, forms, admin, settings and deployment
--   are glue and stay out.
pub mod Common
pub mod Exec
pub mod Errors
pub mod Schema
pub mod Money
pub mod Validation
pub mod Ledger
pub mod Service
pub mod Wallets
pub mod Periods
pub mod Charges
pub mod Payments
pub mod Subscriptions
pub mod Subscribers
pub mod Callbacks
pub mod Paybill
pub mod Webhook
pub mod Roles
pub mod Packages
pub mod Audit
pub mod Guards
pub mod Stable
pub mod Validity
pub mod Calls
mod Examples
