-- ===== src/Disclosure/Service.antt =====
-- `DisclosureConsentService` of src/personal_assistant/core/models/disclosure.py, less `preview`, over
-- the store of Consents. The fresh identifier and the current time are arguments.
use nju_personal_assistant.Base.{
  ℕ, ◌+◌, ◌/◌, String, [], ◌∷◌, Option, none, some, Dict, List, not, ◌==◌, ◌&&◌, nat_eq, string_eq,
  if◌then◌else◌,
}
use nju_personal_assistant.Domain.Errors.{
  Result, ok, raise, bind, concat, reject_if, validation_error, disclosure_consent_not_found,
  disclosure_preview_mismatch,
}
use nju_personal_assistant.Domain.Exec.{Exec, ◌>>=◌, ◌>>◌, lift, pure}
use nju_personal_assistant.Domain.Values.{ℤ, pos, negsuc, object, end}
use nju_personal_assistant.Approvals.Canonical.{canonical_sha256}
use nju_personal_assistant.Approvals.Service.{Datetime}
use nju_personal_assistant.Disclosure.Fields.{
  ModelRequest, RecipientIdentity, has_secret, protected_count,
}
use nju_personal_assistant.Disclosure.Digest.{canonical_field_digest}
use nju_personal_assistant.Disclosure.Consents.{
  active, Consent, ConsentStore, Binding, require_digest, check_consent, create_consent,
  get_consent, revoke_consent, find_active, list_for_user, is_bound,
}
use nju_personal_assistant.Disclosure.Previews.{
  policy_version, validate_scoped, validate_key, validate_ttl, require_aware, reject_secret,
  registered_recipient, preview_hash, texts, counted,
}

unfoldable pub confirm_scope : String → String
unfolding concat
confirm_scope user = concat ("disclosure:confirm:" ∷ user ∷ [])

unfoldable pub revoke_scope : String → String
unfolding concat
revoke_scope user = concat ("disclosure:revoke:" ∷ user ∷ [])

-- `get`, where a consent of another user is as good as missing
owned : String → Option String → Consent → Exec ConsentStore Consent
unfolding concat
owned i none c = pure c
owned i (some user) c =
    if not (c.user_id == user)
    then lift
        (raise disclosure_consent_not_found (concat ("disclosure consent not found: " ∷ i ∷ [])))
    else pure c

unfoldable pub get_owned : String → Option String → Exec ConsentStore Consent
unfolding validate_scoped owned get_consent
get_owned i user = do lift (validate_scoped i "consent_id"); c ← get_consent i; owned i user c

unfoldable pub list_owned : String → Exec ConsentStore (List Consent)
unfolding validate_scoped list_for_user
list_owned user = do lift (validate_scoped user "user_id"); list_for_user user 100

-- expected_version, which may be negative
unfoldable pub expected_natural : ℤ → Result ℕ
expected_natural (pos n) = ok n
expected_natural (negsuc n) = raise validation_error "expected_version cannot be negative"

-- The binding that the service verifies again
unfoldable pub verified : Option Consent → Binding → ℕ → Option Consent
unfolding is_bound
verified none b now = none
verified (some c) b now = if not (c.id == b.consent_id && is_bound c b now) then none else some c

module _ (sha256 : String → String) where
  unfoldable pub revoke_fingerprint : String → String → ℕ → Result String
  unfolding canonical_sha256
  revoke_fingerprint user i expected = canonical_sha256 sha256 (
      object (
        texts (("user_id", user) ∷ ("consent_id", i) ∷ [])
          (counted "expected_version" expected end)))

  -- The version, the time and the fingerprint of a `revoke` whose checks pass
  unfoldable pub revoke_checked : String → String → ℤ → String → Datetime → Result (ℕ × ℕ × String)
  unfolding validate_scoped validate_key expected_natural require_aware revoke_fingerprint
  revoke_checked i user expected key now = bind (validate_scoped i "consent_id") (λ _.
      bind (validate_scoped user "user_id") (λ _. bind (validate_key key) (λ _.
        bind (expected_natural expected) (λ version. bind (require_aware now) (λ current.
          bind (revoke_fingerprint user i version)
            (λ fingerprint. ok (version, current, fingerprint)))))))

  unfoldable pub revoke : String → String → ℤ → String → Datetime → Exec ConsentStore Consent
  unfolding revoke_checked revoke_consent revoke_scope
  revoke i user expected key now = do
    (version, current, fingerprint) ← lift (revoke_checked i user expected key now)
    revoke_consent i user version current (revoke_scope user) key fingerprint

  unfoldable pub confirm_fingerprint : Consent → String → ℕ → Result String
  unfolding canonical_sha256
  confirm_fingerprint c hash ttl = canonical_sha256 sha256 (
      object (
        texts
          (("user_id", c.user_id)
            ∷ ("provider_id", c.provider_id)
            ∷ ("purpose", c.purpose)
            ∷ ("field_digest", c.field_digest)
            ∷ ("recipient_fingerprint", c.recipient_fingerprint)
            ∷ [])
          (counted "protected_field_count" c.field_count (
            texts (("policy_version", policy_version) ∷ ("preview_hash", hash) ∷ [])
              (counted "ttl_seconds" (ttl / 1000000) end)))))

  module _ (recipients : Dict String RecipientIdentity) where
    -- The record that `confirm` makes of the confirmed payload
    unfoldable pub confirmed :
        ModelRequest
        → String
        → String
        → String
        → String
        → String
        → ℕ
        → Datetime
        → Exec ConsentStore Consent
    unfolding validate_scoped validate_key validate_ttl require_aware reject_secret
        registered_recipient canonical_field_digest preview_hash protected_count check_consent
    confirmed request provider user hash key fresh ttl now = do
      lift (validate_scoped provider "provider_id")
      lift (validate_scoped request.purpose "purpose")
      lift (validate_scoped user "user_id")
      lift (validate_key key)
      lift (validate_ttl ttl)
      current ← lift (require_aware now)
      lift (reject_secret request)
      (identity, recipient) ← lift (registered_recipient sha256 recipients provider)
      let count = protected_count request.fields
      lift (
          reject_if (count == 0) validation_error
            "request has no protected fields requiring disclosure")
      digest ← lift (canonical_field_digest sha256 request.fields)
      expected ← lift (preview_hash sha256 provider request.purpose digest recipient count ttl)
      lift (
          reject_if (not (expected == hash)) disclosure_preview_mismatch
            "the confirmed fields do not match the previewed disclosure")
      lift (
          check_consent (record {
            id = fresh;
            user_id = user;
            provider_id = provider;
            purpose = request.purpose;
            field_digest = digest;
            recipient_fingerprint = recipient;
            field_count = count;
            policy_version = policy_version;
            state = active;
            created_at = current;
            expires_at = current + ttl;
            version = 0;
            revoked_at = none;
          }))

    unfoldable pub confirm :
        ModelRequest
        → String
        → String
        → String
        → String
        → String
        → ℕ
        → Datetime
        → Exec ConsentStore Consent
    unfolding confirmed confirm_fingerprint create_consent confirm_scope
    confirm request provider user hash key fresh ttl now = do
      c ← confirmed request provider user hash key fresh ttl now
      fingerprint ← lift (confirm_fingerprint c hash ttl)
      create_consent c (confirm_scope user) key fingerprint

  unfoldable pub authorized_fields :
      ModelRequest → String → String → String → String → ℕ → Exec ConsentStore (Option Consent)
  unfolding canonical_field_digest find_active verified
  authorized_fields request i user provider recipient now = do
    digest ← lift (canonical_field_digest sha256 request.fields)
    let binding : Binding = record {
      consent_id = i;
      user_id = user;
      provider_id = provider;
      purpose = request.purpose;
      field_digest = digest;
      recipient_fingerprint = recipient;
      policy_version = policy_version;
    }
    λ s. (ok (verified (find_active binding now s) binding now), s)

  unfoldable pub authorize :
      ModelRequest
      → String
      → String
      → String
      → String
      → Datetime
      → Exec ConsentStore (Option Consent)
  unfolding validate_scoped require_digest require_aware has_secret authorized_fields
  authorize request i user provider recipient now = do
    lift (validate_scoped i "consent_id")
    lift (validate_scoped user "user_id")
    lift (validate_scoped provider "provider_id")
    lift (validate_scoped request.purpose "purpose")
    lift (require_digest recipient "recipient_fingerprint")
    current ← lift (require_aware now)
    if has_secret request.fields
        then pure none
        else authorized_fields request i user provider recipient current
