-- ===== src/Disclosure/Calls.antt =====
-- The data of src/personal_assistant/core/models/router.py. A provider may be pointed at another recipient at any time: what `provider.recipient` is at
-- its first and at its second reading are arguments of a call, and so is what the provider answers.
-- Whether a provider is remote does not change.
use nju_personal_assistant.Base.{
  ℕ, String, Bool, true, false, List, [], ◌∷◌, Option, none, some, Dict, not, ◌==◌, nat_eq,
  string_eq, if◌then◌else◌,
}
use nju_personal_assistant.Domain.Errors.{
  Result, ok, raise, concat, reject_if, key_error, validation_error, disclosure_denied,
}
use nju_personal_assistant.Domain.Exec.{Exec}
use nju_personal_assistant.Domain.Text.{is_blank}
use nju_personal_assistant.Domain.Values.{Value}
use nju_personal_assistant.Approvals.Service.{Datetime, aware, naive}
use nju_personal_assistant.Audit.Writer.{AuditEvent}
use nju_personal_assistant.Disclosure.Fields.{
  ContextField, ModelRequest, RecipientIdentity, has_secret, is_protected,
}
use nju_personal_assistant.Disclosure.Consents.{Consent, ConsentStore, is_digest}

pub record ModelOutput : Type 0 where
  pub completion : String
  pub usage : Dict String Value

-- A registered provider with the identity and the fingerprint that are frozen then
pub record Provider : Type 0 where
  pub is_remote : Bool
  pub identity : RecipientIdentity
  pub fingerprint : String

pub data Disclosure : Type 0 where
  persistent ephemeral no_disclosure : Disclosure

pub record Router : Type 0 where
  pub providers : Dict String Provider
  pub disclosure : Disclosure
  pub default_local_fallback_id : Option String
  pub has_audit : Bool

-- A consent that is not stored
pub record DisclosureConsent : Type 0 where
  pub provider_id : String
  pub purpose : String
  pub field_digest : String
  pub recipient_fingerprint : String
  pub expires_at : ℕ
  pub user_id : String

-- What a provider was given: under which id, at which recipient, which request
pub record Sent : Type 0 where
  pub provider_id : String
  pub recipient : RecipientIdentity
  pub request : ModelRequest

pub record World : Type 0 where
  pub consents : ConsentStore
  pub audit : List AuditEvent
  pub sent : List Sent

abbrev pub on_consents {α} : {R : Type α} → Exec ConsentStore R → Exec World R
on_consents m w = let (r, s) = m w.consents in (r, record w { consents = s })

abbrev pub on_audit {α} : {R : Type α} → Exec (List AuditEvent) R → Exec World R
on_audit m w = let (r, s) = m w.audit in (r, record w { audit = s })

abbrev pub denied {α} : {R : Type α} → String → Result R
denied message = raise disclosure_denied message

unfoldable pub is_missing : Option String → Bool
is_missing none = true
is_missing (some s) = s == ""

unfoldable pub or_empty : Option String → String
or_empty none = ""
or_empty (some s) = s

unfoldable pub protected_fields : List ContextField → List ContextField
unfolding is_protected
protected_fields [] = []
protected_fields (f ∷ fs) =
    let rest = protected_fields fs in if is_protected f.classification then f ∷ rest else rest

-- `DisclosureConsent.__post_init__`
unfoldable pub check_ephemeral : DisclosureConsent → Result DisclosureConsent
unfolding is_digest
check_ephemeral c =
    if is_blank c.provider_id
    then raise validation_error "disclosure consent provider_id is required"
    else if is_blank c.purpose
    then raise validation_error "disclosure consent purpose is required"
    else if is_blank c.user_id
    then raise validation_error "disclosure consent user_id is required"
    else if not (is_digest c.field_digest)
    then raise validation_error "disclosure consent field_digest must be a sha256"
    else if not (is_digest c.recipient_fingerprint)
    then raise validation_error "disclosure consent recipient_fingerprint must be a sha256"
    else ok c

-- The current time that the router was given
unfoldable pub routing_time : Datetime → Result ℕ
routing_time (naive t) = raise validation_error "model routing time must be timezone-aware"
routing_time (aware t) = ok t

-- The outcome of `_decide`: whether the call is authorized, and by which stored consent
pub record DisclosureDecision : Type 0 where
  pub authorized : Bool
  pub consent_id : Option String

abbrev pub refused : DisclosureDecision
refused = record { authorized = false; consent_id = none }

unfoldable pub of_record : Option Consent → DisclosureDecision
of_record none = refused
of_record (some c) = record { authorized = true; consent_id = some c.id }

-- A call of `complete`
pub record Call : Type 0 where
  pub request : ModelRequest
  pub provider_id : String
  pub consent : Option DisclosureConsent
  pub consent_id : Option String
  pub user_id : Option String
  pub local_fallback_id : Option String
  pub now : Datetime
  pub first_recipient : String → RecipientIdentity
  pub second_recipient : String → RecipientIdentity
  pub answer : Result ModelOutput
  pub audited_at : ℕ

-- The provider that is called, and the stored consent that licenses it
pub record Choice : Type 0 where
  pub provider_id : String
  pub provider : Provider
  pub consent_id : Option String

unfoldable pub found_provider : Option Provider → String → Result Provider
unfolding concat
found_provider none i = raise key_error (concat ("unknown model provider: " ∷ i ∷ []))
found_provider (some p) i = ok p

unfoldable pub reject_secret : ModelRequest → Result (Unit {0})
unfolding has_secret
reject_secret request =
    reject_if (has_secret request.fields) disclosure_denied
      "secret material may never be sent to a model"

unfoldable pub fallback_provider : Option Provider → Result Provider
fallback_provider none = denied "configured local fallback is unavailable"
fallback_provider (some p) = if p.is_remote then denied "fallback provider must be local" else ok p

unfoldable pub or_else : Option String → Option String → Option String
or_else none d = d
or_else (some i) d = some i

-- Hands the request over; what was handed over stays so, whatever the provider answers.
unfoldable pub send : Choice → Call → Exec World ModelOutput
send choice call w = (
  call.answer,
  record w {
    sent =
        record {
          provider_id = choice.provider_id;
          recipient = call.second_recipient choice.provider_id;
          request = call.request;
        }
        ∷ w.sent;
  },
)
