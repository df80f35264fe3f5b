-- ===== src/Subscribers/Sequences.antt =====
-- What the allocation of account numbers and service references has done when it returns.
use supersurf_billing_phase.Common.{
  ℕ, ◌+◌, ◌-◌, ◌≤◌, ◌<◌, ◌≡◌, refl, sym, ap, ◌∙◌, Bool, true, false, Option, none, some, List, [],
  ◌∷◌, length, find, update, Text, inl, inr, Bool-cases, arith, is_taken, first_free, first_free_ge,
  first_free-free, first_untaken_ok, first_free-found, first_free-passed, zero_padded-inj,
}
use supersurf_billing_phase.Exec.{Result, ok}
use supersurf_billing_phase.Errors.{Error}
use supersurf_billing_phase.Exec.Runs.{bind_then, gets_ok, require_ok, pure_ok, refuse_ok}
use supersurf_billing_phase.Schema.Rows.{Subscriber, Service, SequenceKey, SubscriberSequence}
use supersurf_billing_phase.Schema.Database.{Db}
use supersurf_billing_phase.Subscribers.Clean.{service_reference_of}
use supersurf_billing_phase.Subscribers.Allocate.{
  key_eq, sequence_at, lock_sequence_at, lock_sequence, set_next, account_number_of, account_taken,
  allocate_account_number, reference_taken, allocate_service_identity,
}

abbrev value_or_1 : Option SubscriberSequence → ℕ
value_or_1 none = 1
value_or_1 (some r) = r.next_value

-- The next value of a sequence, which starts at 1.
abbrev pub next_of : SequenceKey → List SubscriberSequence → ℕ
next_of k rows = value_or_1 (sequence_at k rows)

key_eq_refl : (k : SequenceKey) → key_eq k k ≡ true
key_eq_refl SequenceKey.account = refl
key_eq_refl (SequenceKey.services_of a) = ground arith

find-update {ℓ} :
    {A : Type ℓ} (test : A → Bool) (f : A → A) (rows : List A) (r : A)
    → ((x : A) → test (f x) ≡ test x)
    → find test rows ≡ some r
    → find test (update test f rows) ≡ some (f r)
find-update test f [] r same h = cc
find-update test f (x ∷ rows) r same h = elim (Bool-cases (test x)) [
  | inl hit ↦ ground (arith, hit, same x)
  | inr miss ↦ ground (arith, miss, find-update test f rows r same)
]

-- The tables that the allocation does not write.
abbrev pub Registry : Type 0
Registry = ℕ × List Subscriber × List Service

abbrev pub registry : Db → Registry
registry db = (db.next_id, db.subscribers, db.services)

result_of :
    {S A : Type 0} {m n : A} {s s' : S} → ◌≡◌ {A = Result Error A × S} (ok m, s) (ok n, s') → m ≡ n
result_of h = cc

lock_sequence_at_ok :
    (k : SequenceKey) (o : Option SubscriberSequence) (db db' : Db) (n : ℕ)
    → sequence_at k db.sequences ≡ o
    → lock_sequence_at k o db ≡ (ok n, db')
    → (n ≡ next_of k db.sequences)
      × (registry db ≡ registry db')
      × (r : SubscriberSequence) × (sequence_at k db'.sequences ≡ some r)
unfolding lock_sequence_at
lock_sequence_at_ok k none db db' n missing h =
    let row : SubscriberSequence = record { key = k; next_value = 1 } in
    let there : sequence_at k (row ∷ db.sequences) ≡ some row = ground (arith, key_eq_refl k) in
    let first : next_of k db.sequences ≡ 1 = ap value_or_1 missing in
    (
      sym (result_of h) ∙ sym first,
      ap (λ x. registry x.1) h,
      row,
      sym (ap (λ x. sequence_at k x.1.sequences) h) ∙ there,
    )
lock_sequence_at_ok k (some r) db db' n found h =
    let first : next_of k db.sequences ≡ r.next_value = ap value_or_1 found in
    (
      sym (result_of h) ∙ sym first,
      ap (λ x. registry x.1) h,
      r,
      sym (ap (λ x. sequence_at k x.1.sequences) h) ∙ found,
    )

pub lock_sequence_ok :
    (k : SequenceKey) (db db' : Db) (n : ℕ)
    → lock_sequence k db ≡ (ok n, db')
    → (n ≡ next_of k db.sequences)
      × (registry db ≡ registry db')
      × (r : SubscriberSequence) × (sequence_at k db'.sequences ≡ some r)
unfolding lock_sequence
lock_sequence_ok k db db' n h = lock_sequence_at_ok k (sequence_at k db.sequences) db db' n refl h

set_next_ok :
    (k : SequenceKey) (n : ℕ) (db db' : Db) (r : SubscriberSequence) (x : Unit)
    → sequence_at k db.sequences ≡ some r
    → set_next k n db ≡ (ok x, db')
    → (registry db ≡ registry db') × (next_of k db'.sequences ≡ n)
unfolding set_next
set_next_ok k n db db' r x found h =
    let moved : SubscriberSequence = record r { next_value = n } in
    let there : sequence_at k
          (update (λ r. key_eq r.key k) (λ r. record r { next_value = n }) db.sequences)
        ≡ some moved =
      find-update (λ (r : SubscriberSequence). key_eq r.key k) (λ r. record r { next_value = n })
        db.sequences r (λ x. refl) found in
    let now : sequence_at k db'.sequences ≡ some moved =
      sym (ap (λ x. sequence_at k x.1.sequences) h) ∙ there in
    (ap (λ x. registry x.1) h, ap value_or_1 now)

drop_two : Text → Text
drop_two (a ∷ b ∷ t) = t
drop_two t = []

pub account_number_of-inj : (m n : ℕ) → account_number_of m ≡ account_number_of n → m ≡ n
unfolding drop_two
account_number_of-inj m n h = zero_padded-inj 6 m n (ap (drop_two) h)

-- An account number is allocated for the first value, from the next one of the sequence on, whose
-- account number no subscriber has, and the sequence goes on behind it.
pub allocate_account_number_ok :
    (db db' : Db) (t : Text)
    → allocate_account_number db ≡ (ok t, db')
    → (n : ℕ) × (t ≡ account_number_of n)
      × (next_of SequenceKey.account db.sequences ≤ n)
      × (account_taken db n ≡ false)
      × ((k : ℕ) → next_of SequenceKey.account db.sequences ≤ k → k < n → account_taken db k ≡ true)
      × (next_of SequenceKey.account db'.sequences ≡ n + 1)
      × (registry db ≡ registry db')
unfolding allocate_account_number
allocate_account_number_ok db db' t h = bind_then _ _ db h λ next s1 locked h1.
    bind_then _ _ s1 h1 λ n s2 queried h2. bind_then _ _ s2 h2 λ x s3 moved h3.
      let (is_next, same1, r, there) = lock_sequence_ok SequenceKey.account db s1 next locked in
      let (found, same2) = require_ok _ _ n s1 s2 queried in
      let here : sequence_at SequenceKey.account s2.sequences ≡ some r =
        sym (ap (λ d. sequence_at SequenceKey.account d.sequences) same2) ∙ there in
      let (same3, after) = set_next_ok SequenceKey.account (n + 1) s2 s3 r x here moved in
      let (result, same4) = pure_ok (account_number_of n) t s3 db' h3 in
      let rows : s1.subscribers ≡ db.subscribers = sym (ap (λ x. x.1) same1) in
      let at_n : first_free (account_taken db) (length db.subscribers) next ≡ n =
        sym (
          ap
            (λ l. first_free (is_taken account_number_of (λ s. s.account_number) l) (length l) next)
            rows)
        ∙ first_untaken_ok (account_taken s1) (length s1.subscribers) next n found in
      (
        n,
        sym result,
        rw (sym is_next)
            (rw (sym at_n) (first_free_ge (account_taken db) (length db.subscribers) next)),
        rw (sym at_n) (
            first_free-free account_number_of account_number_of-inj (λ s. s.account_number)
              db.subscribers (length db.subscribers) next (omega arith)),
        λ k low high.
            first_free-passed (account_taken db) (length db.subscribers) next k (rw is_next low)
              (rw at_n high),
        ap (λ d. next_of SequenceKey.account d.sequences) (sym same4) ∙ after,
        same1 ∙ ap registry same2 ∙ same3 ∙ ap registry same4,
      )

-- A service number is allocated like that, up to 99.
pub allocate_service_identity_ok :
    (s : Subscriber) (db db' : Db) (identity : ℕ × Text)
    → allocate_service_identity s db ≡ (ok identity, db')
    → (identity.1 ≡ service_reference_of s.account_number identity.0)
      × (next_of (SequenceKey.services_of s.id) db.sequences ≤ identity.0)
      × (identity.0 ≤ 99)
      × (reference_taken s.account_number db identity.0 ≡ false)
      × (next_of (SequenceKey.services_of s.id) db'.sequences ≡ identity.0 + 1)
      × (registry db ≡ registry db')
unfolding allocate_service_identity
allocate_service_identity_ok s db db' identity h = bind_then _ _ db h λ next s1 locked h1.
    bind_then _ _ s1 h1 λ n s2 queried h2.
      let (small, h2') = refuse_ok _ _ _ s2 h2 in
      bind_then _ _ s2 h2' λ x s3 moved h3.
        let key = SequenceKey.services_of s.id in
        let (is_next, same1, r, there) =
          lock_sequence_ok (SequenceKey.services_of s.id) db s1 next locked in
        let (found, same2) = gets_ok _ n s1 s2 queried in
        let here : sequence_at (SequenceKey.services_of s.id) s2.sequences ≡ some r =
          sym (ap (λ d. sequence_at (SequenceKey.services_of s.id) d.sequences) same2) ∙ there in
        let (same3, after) =
          set_next_ok (SequenceKey.services_of s.id) (n + 1) s2 s3 r x here moved in
        let (result, same4) =
          pure_ok (n, service_reference_of s.account_number n) identity s3 db' h3 in
        let rows : s1.services ≡ db.services = sym (ap (λ x. x.2) same1) in
        let at_n : first_free (reference_taken s.account_number db) (100 - next) next ≡ n =
          sym (
            ap
              (λ l.
                first_free
                  (is_taken (service_reference_of s.account_number) (λ s. s.service_reference) l)
                  (100 - next) next)
              rows)
          ∙ found in
        let up_to : n ≤ 99 = ground (arith, small) in
        let low : next ≤ n =
          rw (sym at_n) (first_free_ge (reference_taken s.account_number db) (100 - next) next) in
        let free : reference_taken s.account_number db n ≡ false = rw (sym at_n) (
          first_free-found (reference_taken s.account_number db) (100 - next) next
            (rw at_n (omega arith))) in
        rw (sym result) (
          refl,
          rw (sym is_next) low,
          up_to,
          free,
          ap (λ d. next_of (SequenceKey.services_of s.id) d.sequences) (sym same4) ∙ after,
          same1 ∙ ap registry same2 ∙ same3 ∙ ap registry same4,
        )
