-- ===== src/Errors.antt =====
-- The exceptions that the services raise (billing/services.py, billing/money.py,
-- subscribers/services.py), one
-- constructor for each message, and the complaints of a row's `full_clean` (billing/models.py).

-- One entry of a `ValidationError` of `full_clean`.
pub data Issue : Type 0 where
  -- Columns: ranges of `PositiveIntegerField` and the validators, lengths, missing rows.
  sequence_out_of_range amount_out_of_range balance_out_of_range price_out_of_range : Issue
  duration_out_of_range grace_out_of_range speed_out_of_range : Issue
  reason_blank reason_too_long text_too_long text_blank row_missing : Issue
  -- `clean` of the ledger entry.
  reason_required operator_required operator_forbidden system_payment_only currency_not_kes : Issue
  first_has_previous previous_required amount_not_positive amount_too_large : Issue
  balance_too_large previous_other_wallet previous_not_one_less direction_not_valid : Issue
  cannot_reverse target_required target_other_wallet target_is_reversal target_not_manual : Issue
  already_reversed reversal_amount_differs reversal_direction_same balance_negative : Issue
  balance_not_correct : Issue
  -- Unique columns and constraints.
  id_taken operation_id_taken reverses_entry_taken wallet_sequence_taken previous_has_successor :
      Issue
  subscriber_has_wallet constraint_violated : Issue
  -- `clean` of the plan, the subscription and the billing period.
  plan_name_taken plan_name_required ended_at_forbidden ended_at_required
        active_subscription_exists :
      Issue
  previous_forbidden subscription_other_service previous_other_service : Issue
  expires_not_after_start grace_before_expiry service_sequence_taken : Issue
  -- `clean` of the billing charge.
  period_other_service period_other_subscription wallet_other_subscriber : Issue
  ledger_entry_other_wallet not_a_billing_charge not_a_debit ledger_amount_differs : Issue
  ledger_currency_differs ledger_operation_differs ledger_operator_differs : Issue
  period_price_differs period_operation_differs period_type_differs : Issue
  period_already_charged ledger_entry_taken : Issue
  -- `clean` of the payment, the allocation, the unmatched case and the callback link.
  transaction_id_required digest_not_sha256 transaction_taken : Issue
  payment_amount_differs payment_currency_differs payment_already_allocated : Issue
  not_a_payment_credit not_a_credit ledger_source_differs not_sandbox_paybill : Issue
  resolution_fields_present resolution_fields_missing allocation_other_payment : Issue
  allocation_other_wallet payment_has_case event_taken payment_taken : Issue
  -- `clean` of the subscriber and the service.
  account_number_invalid display_name_required phone_required phone_prefix_invalid : Issue
  phone_invalid email_invalid account_number_taken : Issue
  service_number_out_of_range service_reference_invalid service_reference_differs : Issue
  service_reference_taken service_number_taken : Issue
  -- `clean` of the provider profile.
  name_required identifier_required product_not_of_provider profile_taken active_profile_exists :
      Issue
  not_a_confirmation provider_differs transaction_differs reference_differs digest_differs : Issue

pub data Error : Type 0 where
  -- `PermissionDenied`
  not_authenticated permission_denied period_permission_denied : Error
  -- `ValidationError` of the services
  invalid_operation_id invalid_direction invalid_previous_period : Error
  reason_required reason_too_long amount_too_large timestamp_naive : Error
  operation_used_for_period operation_used_for_charge operation_used_for_entry : Error
  operation_used_for_allocation payment_used_differently : Error
  balance_negative balance_too_large balance_insufficient wallet_required : Error
  service_inactive subscriber_inactive subscription_required plan_inactive : Error
  already_subscribed subscription_not_current same_plan : Error
  activation_has_previous renewal_needs_previous history_exists history_missing : Error
  stale_period entry_other_wallet reversal_of_reversal not_manual already_reversed : Error
  transaction_id_required invalid_digest production_forbidden profile_inactive : Error
  provider_not_fake product_not_fake environment_not_allowed : Error
  case_already_resolved payment_already_allocated : Error
  configuration_invalid profile_unavailable profile_not_approved conflicting_profile : Error
  too_many_services already_active already_inactive : Error
  -- `ksh_to_minor_units`
  invalid_amount price_not_positive too_many_decimals : Error
  -- `DoesNotExist`, `OverflowError`, `decimal.InvalidOperation`, `RuntimeError`
  does_not_exist date_overflow invalid_operation immutable_row ended_reactivated : Error
  -- No exception: the search for an account number did not end.
  search_endless : Error
  -- `full_clean`
  invalid_row : Issue → Error
