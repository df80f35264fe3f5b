-- ===== src/Subscribers/Accounts.antt =====
-- What `create_subscriber` and `create_service` have done when they return.
use mathlib.Core.Path.{subst}
use supersurf_billing_phase.Common.{
  Bool, false, some, find, ◌==◌, ℕ, suc, ◌+◌, ◌≤◌, ◌<◌, ◌≡◌, sym, ap, ◌∙◌, true, false, Option, ◌∷◌,
  Text, Unicode, strip,
}
use supersurf_billing_phase.Exec.{ok}
use supersurf_billing_phase.Exec.Runs.{bind_then, pure_ok, atomic_ok, require_ok}
use supersurf_billing_phase.Schema.Rows.{Subscriber, Service, SequenceKey}
use supersurf_billing_phase.Schema.Database.{Db}
use supersurf_billing_phase.Ledger.Save.{save_valid_ok}
use supersurf_billing_phase.Service.Lookup.{fresh, lock_subscriber, record_event_labelled}
use supersurf_billing_phase.Subscribers.Clean.{service_reference_of}
use supersurf_billing_phase.Subscribers.Allocate.{account_number_of, account_taken, reference_taken}
use supersurf_billing_phase.Subscribers.Services.{
  SubscriberForm, ServiceForm, save_new_subscriber, create_subscriber, save_new_service,
  create_service,
}
use supersurf_billing_phase.Subscribers.Sequences.{
  next_of, allocate_account_number_ok, allocate_service_identity_ok,
}

-- A subscriber that is created has an account number that no subscriber has, the first such from
-- the next value of the sequence on, and the sequence goes on behind it, so that no later account
-- gets this number again. The subscriber is active, and is one new row of the table.
pub create_subscriber_ok :
    (u : Unicode) (valid_email : Text → Bool) (form : SubscriberForm) (actor : Option ℕ)
    (db db' : Db) (s : Subscriber)
    → create_subscriber u valid_email form actor db ≡ (ok s, db')
    → (n : ℕ) × (s.account_number ≡ account_number_of n)
      × (next_of SequenceKey.account db.sequences ≤ n)
      × (account_taken db n ≡ false)
      × ((k : ℕ) → next_of SequenceKey.account db.sequences ≤ k → k < n → account_taken db k ≡ true)
      × (next_of SequenceKey.account db'.sequences ≡ n + 1)
      × (s.display_name ≡ strip form.display_name)
      × (s.is_active ≡ true)
      × (db'.subscribers ≡ s ∷ db.subscribers)
unfolding create_subscriber save_new_subscriber fresh record_event_labelled
create_subscriber_ok u valid_email form actor db db' s h =
    bind_then _ _ db (atomic_ok _ db h) λ account s1 allocated h1.
      bind_then _ _ s1 h1 λ k s2 drawn h2. bind_then _ _ s2 h2 λ saved s3 inserted h3.
        bind_then _ _ s3 h3 λ x s4 recorded h4.
          let (n, is_n, low, free, least, after, same1) =
            allocate_account_number_ok db s1 account allocated in
          let same2 : record s1 { next_id = suc s1.next_id } ≡ s2 = ap (λ x. x.1) drawn in
          let (row, same3) = save_valid_ok _ _ _ _ saved s2 s3 inserted in
          let same4 = ap (λ x. x.1) recorded in
          let (result, same5) = pure_ok saved s s4 db' h4 in
          let rows : s1.subscribers ≡ db.subscribers = sym (ap (λ x. x.1) same1) in
          let is_row = row ∙ result in
          let sequences : s1.sequences ≡ db'.sequences =
            ap (λ d. d.sequences) same2
            ∙ ap (λ d. d.sequences) same3
            ∙ ap (λ d. d.sequences) same4
            ∙ ap (λ d. d.sequences) same5 in
          let table : saved ∷ db.subscribers ≡ db'.subscribers = cc (
            rows,
            row,
            ap (λ d. d.subscribers) same2,
            ap (λ d. d.subscribers) same3,
            ap (λ d. d.subscribers) same4,
            ap (λ d. d.subscribers) same5,
          ) in
          (
            n,
            sym (ap (λ x. x.account_number) is_row) ∙ is_n,
            low,
            free,
            least,
            sym (ap (next_of SequenceKey.account) sequences) ∙ after,
            sym (ap (λ x. x.display_name) is_row),
            sym (ap (λ x. x.is_active) is_row),
            sym table ∙ ap (λ x. x ∷ db.subscribers) result,
          )

-- A service that is created has the reference of its subscriber's account number and of a number up
-- to 99, which no service has; the sequence of its subscriber goes on behind the number, so that no
-- later service of this subscriber gets it again. The service is active, and is one new row of the
-- table.
pub create_service_ok :
    (u : Unicode) (subscriber : ℕ) (form : ServiceForm) (actor : Option ℕ) (db db' : Db)
    (s : Service)
    → create_service u subscriber form actor db ≡ (ok s, db')
    → (owner : Subscriber) × (find (λ r. r.id == subscriber) db.subscribers ≡ some owner)
      × (s.subscriber_id ≡ owner.id)
      × (s.service_reference ≡ service_reference_of owner.account_number s.service_number)
      × (next_of (SequenceKey.services_of owner.id) db.sequences ≤ s.service_number)
      × (s.service_number ≤ 99)
      × (reference_taken owner.account_number db s.service_number ≡ false)
      × (next_of (SequenceKey.services_of owner.id) db'.sequences ≡ s.service_number + 1)
      × (s.is_active ≡ true)
      × (db'.services ≡ s ∷ db.services)
unfolding create_service save_new_service fresh record_event_labelled lock_subscriber
create_service_ok u subscriber form actor db db' s h =
    bind_then _ _ db (atomic_ok _ db h) λ owner s0 locked h0.
      bind_then _ _ s0 h0 λ identity s1 allocated h1. bind_then _ _ s1 h1 λ k s2 drawn h2.
        bind_then _ _ s2 h2 λ saved s3 inserted h3. bind_then _ _ s3 h3 λ x s4 recorded h4.
          let (found, same0) = require_ok _ _ owner db s0 locked in
          let (reference, low, small, free, after, same1) =
            allocate_service_identity_ok owner s0 s1 identity allocated in
          let same2 : record s1 { next_id = suc s1.next_id } ≡ s2 = ap (λ x. x.1) drawn in
          let (row, same3) = save_valid_ok _ _ _ _ saved s2 s3 inserted in
          let same4 = ap (λ x. x.1) recorded in
          let (result, same5) = pure_ok saved s s4 db' h4 in
          let is_row = row ∙ result in
          let number : identity.0 ≡ s.service_number = ap (λ x. x.service_number) is_row in
          let sequences : s1.sequences ≡ db'.sequences =
            ap (λ d. d.sequences) same2
            ∙ ap (λ d. d.sequences) same3
            ∙ ap (λ d. d.sequences) same4
            ∙ ap (λ d. d.sequences) same5 in
          let table : s ∷ db.services ≡ db'.services = cc (
            ap (λ d. d.services) same0,
            ap (λ x. x.2) same1,
            is_row,
            ap (λ d. d.services) same2,
            ap (λ d. d.services) same3,
            ap (λ d. d.services) same4,
            ap (λ d. d.services) same5,
          ) in
          let low0 : next_of (SequenceKey.services_of owner.id) db.sequences ≤ identity.0 =
            subst (λ (d : Db). next_of (SequenceKey.services_of owner.id) d.sequences ≤ identity.0)
              (sym same0) low in
          let free0 : reference_taken owner.account_number db identity.0 ≡ false =
            subst (λ (d : Db). reference_taken owner.account_number d identity.0 ≡ false)
              (sym same0) free in
          (
            owner,
            found,
            sym (ap (λ x. x.subscriber_id) is_row),
            sym (ap (λ x. x.service_reference) is_row)
                ∙ reference
                ∙ ap (service_reference_of owner.account_number) number,
            subst (λ v. next_of (SequenceKey.services_of owner.id) db.sequences ≤ v) number low0,
            subst (λ v. v ≤ 99) number small,
            subst (λ v. reference_taken owner.account_number db v ≡ false) number free0,
            sym (ap (next_of (SequenceKey.services_of owner.id)) sequences)
                ∙ after
                ∙ ap (λ v. v + 1) number,
            sym (ap (λ x. x.is_active) is_row),
            sym table,
          )
