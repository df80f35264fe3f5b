-- ===== src/Schema/Choices.antt =====
-- The choice columns of billing/models.py as data types, and their equality tests. Membership in
-- the choices, which `clean` and the check constraints test again, holds by the type.
use supersurf_billing_phase.Common.{Bool, true, false, ◌≡◌, refl}

-- `Subscriber.CUSTOMER_TYPE_CHOICES`
pub data CustomerType : Type 0 where
  individual business : CustomerType

-- `LedgerEntry.ENTRY_TYPE_CHOICES`
pub data EntryType : Type 0 where
  manual_credit manual_debit billing_charge payment_credit reversal : EntryType

-- `LedgerEntry.DIRECTION_CHOICES`
pub data Direction : Type 0 where
  credit debit : Direction

-- `CREATION_SOURCE_CHOICES`
pub data Source : Type 0 where
  operator system : Source

-- `BillingPeriod.PERIOD_TYPE_CHOICES` and `BillingCharge.CHARGE_TYPE_CHOICES`, the same two words.
pub data PeriodType : Type 0 where
  activation renewal : PeriodType

-- `Subscription.STATUS_CHOICES`
pub data SubscriptionStatus : Type 0 where
  active ended : SubscriptionStatus

-- `PaymentProviderProfile.PROVIDER_CHOICES`, `PRODUCT_CHOICES` and `ENVIRONMENT_CHOICES`
pub data Provider : Type 0 where
  fake mpesa : Provider

pub data Product : Type 0 where
  fake paybill till : Product

pub data ProfileEnvironment : Type 0 where
  test sandbox production : ProfileEnvironment

-- `UnmatchedPaymentCase.STATUS_CHOICES` and `REASON_CODE_CHOICES`
pub data CaseStatus : Type 0 where
  opened resolved : CaseStatus

pub data ReasonCode : Type 0 where
  missing_reference invalid_reference subscriber_not_found : ReasonCode

-- `MpesaCallbackEvent.EVENT_TYPE_CHOICES`
pub data EventType : Type 0 where
  c2b_validation c2b_confirmation stk_result : EventType

abbrev pub entry_type_eq : EntryType → EntryType → Bool
entry_type_eq manual_credit manual_credit = true
entry_type_eq manual_debit manual_debit = true
entry_type_eq billing_charge billing_charge = true
entry_type_eq payment_credit payment_credit = true
entry_type_eq reversal reversal = true
entry_type_eq _ _ = false

abbrev pub direction_eq : Direction → Direction → Bool
direction_eq credit credit = true
direction_eq debit debit = true
direction_eq _ _ = false

abbrev pub source_eq : Source → Source → Bool
source_eq operator operator = true
source_eq system system = true
source_eq _ _ = false

abbrev pub period_type_eq : PeriodType → PeriodType → Bool
period_type_eq activation activation = true
period_type_eq renewal renewal = true
period_type_eq _ _ = false

abbrev pub is_active_status : SubscriptionStatus → Bool
is_active_status active = true
is_active_status ended = false

abbrev pub is_manual : EntryType → Bool
is_manual manual_credit = true
is_manual manual_debit = true
is_manual _ = false

abbrev pub is_fake : Provider → Bool
is_fake fake = true
is_fake mpesa = false

abbrev pub is_fake_product : Product → Bool
is_fake_product Product.fake = true
is_fake_product _ = false

abbrev pub is_paybill : Product → Bool
is_paybill paybill = true
is_paybill _ = false

abbrev pub is_sandbox : ProfileEnvironment → Bool
is_sandbox sandbox = true
is_sandbox _ = false

abbrev pub is_production : ProfileEnvironment → Bool
is_production production = true
is_production _ = false

abbrev pub is_mpesa : Provider → Bool
is_mpesa mpesa = true
is_mpesa fake = false

abbrev pub is_confirmation : EventType → Bool
is_confirmation c2b_confirmation = true
is_confirmation _ = false

abbrev pub provider_eq : Provider → Provider → Bool
provider_eq fake fake = true
provider_eq mpesa mpesa = true
provider_eq _ _ = false

abbrev pub product_eq : Product → Product → Bool
product_eq Product.fake Product.fake = true
product_eq paybill paybill = true
product_eq till till = true
product_eq _ _ = false

abbrev pub environment_eq : ProfileEnvironment → ProfileEnvironment → Bool
environment_eq test test = true
environment_eq sandbox sandbox = true
environment_eq production production = true
environment_eq _ _ = false

abbrev pub is_resolved : CaseStatus → Bool
is_resolved opened = false
is_resolved resolved = true

pub direction_eq-eq : (a b : Direction) → direction_eq a b ≡ true → a ≡ b
direction_eq-eq credit credit h = refl
direction_eq-eq debit debit h = refl
direction_eq-eq credit debit h = cc
direction_eq-eq debit credit h = cc

pub period_type_eq-eq : (a b : PeriodType) → period_type_eq a b ≡ true → a ≡ b
period_type_eq-eq activation activation h = refl
period_type_eq-eq renewal renewal h = refl
period_type_eq-eq activation renewal h = cc
period_type_eq-eq renewal activation h = cc
