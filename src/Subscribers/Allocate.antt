-- ===== src/Subscribers/Allocate.antt =====
-- The allocation of account numbers and service references (subscribers/services.py).
use supersurf_billing_phase.Common.{
  ℕ, ◌+◌, ◌-◌, Bool, true, false, not, Option, none, some, List, ◌∷◌, ◌++◌, ◌==◌, leb, length, find,
  update, Text, codes, zero_padded, first_free, first_untaken, suc, is_taken,
}
use supersurf_billing_phase.Exec.{ok, pure, require, gets, refuse, ◌>>=◌, ◌>>◌}
use supersurf_billing_phase.Errors.{Error}
use supersurf_billing_phase.Schema.Rows.{Subscriber, SequenceKey, SubscriberSequence}
use supersurf_billing_phase.Schema.Database.{Db, Action}
use supersurf_billing_phase.Subscribers.Clean.{service_reference_of}

abbrev pub key_eq : SequenceKey → SequenceKey → Bool
key_eq SequenceKey.account SequenceKey.account = true
key_eq (SequenceKey.services_of a) (SequenceKey.services_of b) = a == b
key_eq _ _ = false

abbrev pub sequence_at : SequenceKey → List SubscriberSequence → Option SubscriberSequence
sequence_at k rows = find (λ r. key_eq r.key k) rows

-- `_lock_sequence`: the sequence with the key, which is created with the value 1 where it is missing.
unfoldable pub lock_sequence_at : SequenceKey → Option SubscriberSequence → Action ℕ
lock_sequence_at k (some r) db = (ok r.next_value, db)
lock_sequence_at k none db =
    (ok 1, record db { sequences = record { key = k; next_value = 1 } ∷ db.sequences })

unfoldable pub lock_sequence : SequenceKey → Action ℕ
unfolding lock_sequence_at
lock_sequence k db = lock_sequence_at k (sequence_at k db.sequences) db

-- `sequence.next_value = n; sequence.save(...)`
unfoldable pub set_next : SequenceKey → ℕ → Action Unit
set_next k n db = (
  ok tt,
  record db {
    sequences = update (λ r. key_eq r.key k) (λ r. record r { next_value = n }) db.sequences;
  },
)

-- `f"SS{n:06d}"`
abbrev pub account_number_of : ℕ → Text
account_number_of n = codes "SS" ++ zero_padded 6 n

abbrev pub account_taken : Db → ℕ → Bool
account_taken db = is_taken account_number_of (λ s. s.account_number) db.subscribers

-- `allocate_account_number`. The fuel of its loop is a test for each row and one more; a loop that used
-- it up would not return.
unfoldable pub allocate_account_number : Action Text
unfolding lock_sequence set_next
allocate_account_number = do
  next ← lock_sequence SequenceKey.account
  n ←
      require (λ db. first_untaken (account_taken db) (suc (length db.subscribers)) next)
        Error.search_endless
  set_next SequenceKey.account (n + 1)
  pure (account_number_of n)

abbrev pub reference_taken : Text → Db → ℕ → Bool
reference_taken account db =
    is_taken (service_reference_of account) (λ s. s.service_reference) db.services

-- `allocate_service_identity`. The loop tests the numbers up to 99.
unfoldable pub allocate_service_identity : Subscriber → Action (ℕ × Text)
unfolding lock_sequence set_next
allocate_service_identity s = do
  next ← lock_sequence (SequenceKey.services_of s.id)
  n ← gets (λ db. first_free (reference_taken s.account_number db) (100 - next) next)
  refuse (not (leb n 99)) Error.too_many_services do
    set_next (SequenceKey.services_of s.id) (n + 1)
    pure (n, service_reference_of s.account_number n)
