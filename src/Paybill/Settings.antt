-- ===== src/Paybill/Settings.antt =====
-- The deployment's settings that the Paybill services read, and their approval.
use supersurf_billing_phase.Common.{Bool, ◌&&◌, leb, length, Text, codes, text_eq, all_codes}
use supersurf_billing_phase.Schema.Choices.{is_mpesa, is_paybill, is_sandbox}
use supersurf_billing_phase.Schema.Rows.{PaymentProviderProfile}
use supersurf_billing_phase.Callbacks.Extract.{is_ascii_digit}

pub record Settings : Type 0 where
  pub ingestion_enabled : Bool
  pub environment : Text
  pub public_deployment : Bool
  pub callback_token : Text
  pub external_identifier : Text

-- `re.fullmatch(r"[0-9]{5,12}", t)`
unfoldable pub is_identifier : Text → Bool
unfolding all_codes
is_identifier t = all_codes is_ascii_digit t && leb 5 (length t) && leb (length t) 12

unfoldable pub is_approved : Settings → Bool
unfolding is_identifier text_eq
is_approved s =
    text_eq s.environment (codes "LAB")
    && s.public_deployment
    && leb 32 (length s.callback_token)
    && is_identifier s.external_identifier

-- A profile of the sandbox Paybill.
abbrev pub is_sandbox_paybill_profile : PaymentProviderProfile → Bool
is_sandbox_paybill_profile p =
    is_mpesa p.provider && is_paybill p.product_type && is_sandbox p.environment
