-- ===== src/Examples/Data.antt =====
-- The rows and the arguments of the tests.
use supersurf_billing_phase.Common.{
  ascii_lower, true, false, Option, some, [], ◌∷◌, codes, leb, ◌&&◌,
}
use supersurf_billing_phase.Exec.{Result, ok, err}
use supersurf_billing_phase.Errors.{Error}
use supersurf_billing_phase.Schema.Choices.{CustomerType, Provider, Product, ProfileEnvironment}
use supersurf_billing_phase.Schema.Rows.{Subscriber, Service, Plan, PaymentProviderProfile}
use supersurf_billing_phase.Schema.Database.{Db}
use supersurf_billing_phase.Money.{kes, Exponent, Decimal}
use supersurf_billing_phase.Common.{Unicode}
use supersurf_billing_phase.Service.Access.{Actor}
use supersurf_billing_phase.Service.Inputs.{RawId}
use supersurf_billing_phase.Calls.{Call}

-- The characters of ASCII that the references of the tests have.
abbrev pub ascii : Unicode
ascii = record {
  upper = λ c. c ∷ [];
  is_decimal = λ c. leb 48 c && leb c 57;
  is_digit = λ c. leb 48 c && leb c 57;
  lower = ascii_lower;
}

abbrev pub operator : Option Actor
operator = some (record { id = 7; is_authenticated = true; has_perm = λ p. true })

abbrev pub subscriber : Subscriber
subscriber = record {
  id = 1;
  account_number = codes "SS000001";
  customer_type = CustomerType.individual;
  display_name = codes "Amina";
  primary_phone = codes "+254712345678";
  email = [];
  is_active = true;
}

abbrev pub line : Service
line = record {
  id = 2;
  subscriber_id = 1;
  service_number = 1;
  service_reference = codes "SS000001-01";
  label = [];
  is_active = true;
}

abbrev pub plan : Plan
plan = record {
  id = 3;
  name = codes "Home";
  download_speed_mbps = 10;
  price_minor = 150000;
  currency = kes;
  duration_days = 30;
  grace_period_hours = 24;
  description = [];
  is_active = true;
}

abbrev pub profile : PaymentProviderProfile
profile = record {
  id = 4;
  name = codes "Fake";
  provider = Provider.fake;
  product_type = Product.fake;
  environment = ProfileEnvironment.test;
  external_identifier = [];
  is_active = true;
}

-- 2000 shillings.
abbrev pub amount : Decimal
amount = Decimal.finite false 2000 (Exponent.decimals 0)

abbrev pub registry : Call
registry = Call.registry (subscriber ∷ []) (line ∷ []) (plan ∷ []) (profile ∷ [])

abbrev pub credit : Call
credit = Call.adjust 1 (codes "credit") amount (RawId.uuid 101) (codes "Opening") operator

-- The value of a call that returned, or the given one.
abbrev pub answer : {A : Type 0} → A → Result Error A × Db → A
answer a (ok b, db) = b
answer a (err e, db) = a
