-- ===== src/Disclosure/Previews.antt =====
-- The checks of src/personal_assistant/core/models/disclosure.py and `preview` of its
-- DisclosureConsentService. Times are in microseconds; the current time is an argument, and so is the
-- digest of a text. A time to live that is negative is refused as 0 is.
use Prim.Native.Char.{code}
use nju_personal_assistant.Base.{
  ℕ, ◌+◌, ◌/◌, String, List, [], ◌∷◌, Option, none, some, Dict, lookup, not, ltb, ◌==◌, ◌||◌,
  string_eq, if◌then◌else◌,
}
use Prim.Native.String.{◌++◌ as append}
use nju_personal_assistant.Domain.Errors.{
  Result, ok, raise, bind, concat, reject_if, validation_error, disclosure_forbidden,
  disclosure_recipient_unknown,
}
use nju_personal_assistant.Domain.Checking.{◌>>=◌, ◌>>◌}
use nju_personal_assistant.Domain.Text.{is_space, text_length, take_text}
use nju_personal_assistant.Domain.Values.{Key, pos, text, integer, object, Fields, end, field}
use nju_personal_assistant.Approvals.Canonical.{canonical_sha256}
use nju_personal_assistant.Approvals.Service.{Datetime, aware, naive}
use nju_personal_assistant.Disclosure.Fields.{
  ContextField, ModelRequest, RecipientIdentity, has_secret, protected_count, classification_value,
}
use nju_personal_assistant.Disclosure.Digest.{canonical_field_digest, recipient_fingerprint}
use nju_personal_assistant.Disclosure.Consents.{require_text}

abbrev pub policy_version : String
policy_version = "f04.1"

abbrev pub min_ttl : ℕ
min_ttl = 60000000

abbrev pub max_ttl : ℕ
max_ttl = 604800000000

-- `_validate_scoped_text`
unfoldable pub validate_scoped : String → String → Result (Unit {0})
unfolding require_text concat
validate_scoped value name = bind (require_text value name) (λ _.
    reject_if (ltb 128 (text_length value)) validation_error
      (concat (name ∷ " must be at most 128 characters" ∷ [])))

unfoldable pub validate_key : String → Result (Unit {0})
unfolding require_text
validate_key value = bind (require_text value "idempotency_key") (λ _.
    reject_if (ltb 200 (text_length value)) validation_error
      "idempotency_key must be at most 200 characters")

unfoldable pub validate_ttl : ℕ → Result (Unit {0})
validate_ttl ttl =
    reject_if (ltb ttl min_ttl || ltb max_ttl ttl) validation_error
      "disclosure ttl must be between 1 minute and 7 days"

-- `_require_aware`
unfoldable pub require_aware : Datetime → Result ℕ
require_aware (naive t) = raise validation_error "now must be timezone-aware"
require_aware (aware t) = ok t

unfoldable pub reject_secret : ModelRequest → Result (Unit {0})
unfolding has_secret
reject_secret request =
    reject_if (has_secret request.fields) disclosure_forbidden
      "secret material may never be previewed, confirmed or disclosed"

mask : String → String
unfolding is_space
mask String.[] = ""
mask (String.◌∷◌ c s) =
    let rest = mask s in if is_space (code c) then String.◌∷◌ c rest else append "*" rest

unfoldable pub redacted_field_preview : String → String
unfolding mask take_text text_length
redacted_field_preview value =
    if ltb 48 (text_length (mask value))
    then append (take_text 48 (mask value)) "..."
    else mask value

pub record FieldSummary : Type 0 where
  pub name : String
  pub classification : String
  pub source : String
  pub value_sha256 : String
  pub value_length : ℕ
  pub redacted_preview : String

pub record Preview : Type 0 where
  pub provider_id : String
  pub purpose : String
  pub policy : String
  pub field_digest : String
  pub recipient_fingerprint : String
  pub fields : List FieldSummary
  pub protected_field_count : ℕ
  pub ttl : ℕ
  pub suggested_expires_at : ℕ
  pub preview_hash : String
  pub recipient_identity : RecipientIdentity

-- What is digested of a command, one field after another
abbrev pub texts : List (String × String) → Fields → Fields
texts [] rest = rest
texts ((k, v) ∷ l) rest = field (Key.name k) (text v) (texts l rest)

abbrev pub counted : String → ℕ → Fields → Fields
counted k n rest = field (Key.name k) (integer (pos n)) rest

module _ (sha256 : String → String) where
  unfoldable pub preview_hash : String → String → String → String → ℕ → ℕ → Result String
  unfolding canonical_sha256
  preview_hash provider purpose digest recipient count ttl = canonical_sha256 sha256 (
      object (
        texts
          (("provider_id", provider)
            ∷ ("purpose", purpose)
            ∷ ("policy_version", policy_version)
            ∷ ("field_digest", digest)
            ∷ ("recipient_fingerprint", recipient)
            ∷ [])
          (counted "protected_field_count" count (counted "ttl_seconds" (ttl / 1000000) end))))

module _ (sha256 : String → String) (recipients : Dict String RecipientIdentity) where
  summary : ContextField → FieldSummary
  unfolding classification_value redacted_field_preview text_length
  summary f = record {
    name = f.name;
    classification = classification_value f.classification;
    source = f.source;
    value_sha256 = sha256 f.value;
    value_length = text_length f.value;
    redacted_preview = redacted_field_preview f.value;
  }

  summaries : List ContextField → List FieldSummary
  unfolding summary
  summaries [] = []
  summaries (f ∷ fs) = summary f ∷ summaries fs

  known_recipient : Option RecipientIdentity → String → Result (RecipientIdentity × String)
  unfolding recipient_fingerprint concat
  known_recipient none provider =
      raise disclosure_recipient_unknown
        (concat ("model recipient is not a registered remote provider: " ∷ provider ∷ []))
  known_recipient (some identity) provider =
      if not (identity.provider_id == provider)
      then raise disclosure_recipient_unknown
          (concat ("model recipient registry entry is inconsistent: " ∷ provider ∷ []))
      else bind (recipient_fingerprint sha256 identity) (λ f. ok (identity, f))

  unfoldable pub registered_recipient : String → Result (RecipientIdentity × String)
  unfolding known_recipient
  registered_recipient provider = known_recipient (lookup provider recipients) provider

  unfoldable pub preview : ModelRequest → String → ℕ → Datetime → Result Preview
  unfolding validate_scoped validate_ttl require_aware reject_secret registered_recipient
      canonical_field_digest preview_hash summaries protected_count
  preview request provider ttl now = do
    validate_scoped provider "provider_id"
    validate_scoped request.purpose "purpose"
    validate_ttl ttl
    current ← require_aware now
    reject_secret request
    (identity, recipient) ← registered_recipient provider
    digest ← canonical_field_digest sha256 request.fields
    let count = protected_count request.fields
    hash ← preview_hash sha256 provider request.purpose digest recipient count ttl
    ok (record {
      provider_id = provider;
      purpose = request.purpose;
      policy = policy_version;
      field_digest = digest;
      recipient_fingerprint = recipient;
      fields = summaries request.fields;
      protected_field_count = count;
      ttl = ttl;
      suggested_expires_at = current + ttl;
      preview_hash = hash;
      recipient_identity = identity;
    })
