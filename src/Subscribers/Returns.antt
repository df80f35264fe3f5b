-- ===== src/Subscribers/Returns.antt =====
-- The allocation of account numbers and service references returns.
use supersurf_billing_phase.Common.{
  ℕ, ◌-◌, ◌≤◌, ◌≡◌, refl, sym, ap, ◌∙◌, Bool, false, not, leb, ltb, Option, none, some, Text, inl,
  inr, Bool-cases, arith, first_free, first_free-passed, first_free-free, first_untaken,
  first_untaken-returns, length, suc, is_taken, List,
}
use supersurf_billing_phase.Exec.{ok}
use supersurf_billing_phase.Exec.Runs.{bind_run, gets_run, require_run, refuse_run, pure_run}
use supersurf_billing_phase.Schema.Rows.{Subscriber, Service, SequenceKey, SubscriberSequence}
use supersurf_billing_phase.Schema.Database.{Db}
use supersurf_billing_phase.Subscribers.Allocate.{
  account_number_of, account_taken, sequence_at, lock_sequence_at, lock_sequence, set_next,
  allocate_account_number, reference_taken, allocate_service_identity,
}
use supersurf_billing_phase.Subscribers.Clean.{service_reference_of}
use supersurf_billing_phase.Subscribers.Sequences.{next_of, account_number_of-inj, lock_sequence_ok}

lock_at-returns :
    (k : SequenceKey) (o : Option SubscriberSequence) (db : Db)
    → (n : ℕ) × (db' : Db) × (lock_sequence_at k o db ≡ (ok n, db'))
unfolding lock_sequence_at
lock_at-returns k (some r) db = (_, _, refl)
lock_at-returns k none db = (_, _, refl)

-- One of the numbers that are tested is free.
account_found :
    (db : Db) (n : ℕ)
    → first_untaken (account_taken db) (suc (length db.subscribers)) n
      ≡ some (first_free (account_taken db) (length db.subscribers) n)
account_found db n = first_untaken-returns (account_taken db) (length db.subscribers) n (
    first_free-free account_number_of account_number_of-inj (λ s. s.account_number) db.subscribers
      (length db.subscribers) n (omega arith))

-- The allocation of an account number returns, whatever the tables hold: its loop, which has no bound
-- in the code, ends after no more tests than there are subscribers, and one more.
pub allocate_account_number-returns :
    (db : Db) → (t : Text) × (db' : Db) × (allocate_account_number db ≡ (ok t, db'))
unfolding allocate_account_number lock_sequence set_next
allocate_account_number-returns db =
    let (n, s1, locked) =
      lock_at-returns SequenceKey.account (sequence_at SequenceKey.account db.sequences) db in
    (
      _,
      _,
      bind_run _ _ db locked
          ∙ bind_run _ _ s1 (require_run _ _ _ s1 (account_found s1 n))
          ∙ bind_run _ _ s1 refl
          ∙ pure_run _ _,
    )

-- The search ends at a free number or before it.
search_le :
    (taken : ℕ → Bool) (fuel next n : ℕ)
    → next ≤ n
    → taken n ≡ false
    → first_free taken fuel next ≤ n
search_le taken fuel next n low free = elim (Bool-cases (ltb n (first_free taken fuel next))) [
  | inl passed ↦
      let used = first_free-passed taken fuel next n low (ground (arith, passed)) in
      absurd (cc (sym used ∙ free))
  | inr found ↦ ground (arith, found)
]

found_small :
    (taken : ℕ → Bool) (next n : ℕ)
    → next ≤ n
    → n ≤ 99
    → taken n ≡ false
    → not (leb (first_free taken (100 - next) next) 99) ≡ false
found_small taken next n low high free =
    let le = search_le taken (100 - next) next n low free in ground arith

abbrev reference_taken_in : Text → List Service → ℕ → Bool
reference_taken_in account rows =
    is_taken (service_reference_of account) (λ s. s.service_reference) rows

-- The allocation of a service number returns if a number up to 99 is free, from the next value of the
-- subscriber's sequence on.
pub allocate_service_identity-returns :
    (s : Subscriber) (db : Db) (n : ℕ)
    → next_of (SequenceKey.services_of s.id) db.sequences ≤ n
    → n ≤ 99
    → reference_taken s.account_number db n ≡ false
    → (identity : ℕ × Text) × (db' : Db) × (allocate_service_identity s db ≡ (ok identity, db'))
unfolding allocate_service_identity lock_sequence set_next
allocate_service_identity-returns s db n low high free =
    let key = SequenceKey.services_of s.id in
    let (next, s1, locked) = lock_at-returns key (sequence_at key db.sequences) db in
    let (is_next, same, r, there) = lock_sequence_ok key db s1 next locked in
    let free1 : reference_taken s.account_number s1 n ≡ false =
      ap (λ x. reference_taken_in s.account_number x.2 n) (sym same) ∙ free in
    let small : not (leb (first_free (reference_taken s.account_number s1) (100 - next) next) 99)
        ≡ false =
      found_small (reference_taken s.account_number s1) next n (rw is_next low) high free1 in
    (
      _,
      _,
      bind_run _ _ db locked
          ∙ bind_run _ _ s1 (gets_run _ s1)
          ∙ refuse_run _ _ _ s1 small
          ∙ bind_run _ _ s1 refl
          ∙ pure_run _ _,
    )
