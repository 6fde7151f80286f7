-- ===== src/Disclosure/Grants.antt =====
-- A previewed disclosure can be confirmed, and is then authorized until it expires.
use nju_personal_assistant.Base.{
  ℕ, ◌+◌, ◌<◌, String, true, false, none, some, lookup, Dict, lookup-insert_self, ==-refl, nat_eq,
  string_eq, pair_eq, ◌≡◌, refl, ap, ◌∙◌, arith,
}
use nju_personal_assistant.Domain.Errors.{ok}
use nju_personal_assistant.Domain.Text.{is_blank}
use nju_personal_assistant.Approvals.Canonical.{canonical_sha256, canonical_json}
use nju_personal_assistant.Disclosure.Consents.{
  Consent, with_command, create_consent, create_consent_unless, create_fresh_consent, ConsentStore,
  is_digest, check_consent, check_revocation, require_digest, is_active, is_bound, Binding,
  find_active,
}
use nju_personal_assistant.Disclosure.Service.{
  confirmed, confirm, confirm_scope, confirm_fingerprint, authorize, authorized_fields, verified,
}
use nju_personal_assistant.Approvals.Service.{Datetime, aware}
use nju_personal_assistant.Disclosure.Fields.{
  ModelRequest, RecipientIdentity, has_secret, protected_count,
}
use nju_personal_assistant.Disclosure.Digest.{canonical_field_digest}
use nju_personal_assistant.Disclosure.Previews.{
  Preview, preview, validate_scoped, validate_key, policy_version,
}
use nju_personal_assistant.Disclosure.Previewed.{
  Parts, preview-Parts, granted_consent, policy_not_blank, scoped-not_blank, digest-IsDigest,
  check_consent_passes, validate_ttl-pos, recipient-IsDigest, clean_fields, require_digest_passes,
  verified_passes,
}

module _ (sha256 : String → String) (hex : (x : String) → is_digest (sha256 x) ≡ true)
    (recipients : Dict String RecipientIdentity) (q : ModelRequest) (provider : String) (ttl : ℕ)
    (now : Datetime) (p : Preview) (parts : Parts sha256 recipients q provider ttl now p) where
  granted_passes :
      (user fresh : String) (t : ℕ)
      → is_blank user ≡ false
      → is_blank fresh ≡ false
      → 0 < protected_count q.fields
      → check_consent (granted_consent q ttl p user fresh t)
        ≡ ok (granted_consent q ttl p user fresh t)
  unfolding canonical_sha256 canonical_field_digest check_revocation
  granted_passes user fresh t hu hf n =
      check_consent_passes (granted_consent q ttl p user fresh t) hf hu
        (ap is_blank parts.receiver ∙ scoped-not_blank provider "provider_id" parts.provider_ok)
        (scoped-not_blank q.purpose "purpose" parts.purpose_ok) policy_not_blank
        (digest-IsDigest sha256 _ p.field_digest hex parts.digest)
        (recipient-IsDigest sha256 recipients provider
          (p.recipient_identity, p.recipient_fingerprint) hex parts.recipient)
        n (let pos = validate_ttl-pos ttl parts.ttl_ok in omega arith) refl

  confirmed_passes :
      (user key fresh : String) (s : ConsentStore)
      → validate_scoped user "user_id" ≡ ok tt
      → validate_key key ≡ ok tt
      → is_blank fresh ≡ false
      → 0 < protected_count q.fields
      → confirmed sha256 recipients q provider user p.preview_hash key fresh ttl now s
        ≡ (ok (granted_consent q ttl p user fresh parts.time.0), s)
  unfolding confirmed
  confirmed_passes user key fresh s hu hk hf n =
      let g = granted_passes user fresh parts.time.0 (scoped-not_blank user "user_id" hu) hf n in
      let (t, ht, _) = parts.time in
      ground (
        arith,
        g,
        ht,
        hu,
        hk,
        n,
        parts.receiver,
        parts.provider_ok,
        parts.purpose_ok,
        parts.ttl_ok,
        parts.clean,
        parts.digest,
        parts.recipient,
        parts.hash,
        ==-refl p.preview_hash,
      )

  confirm_passes :
      (user key fresh fingerprint : String) (s : ConsentStore)
      → validate_scoped user "user_id" ≡ ok tt
      → validate_key key ≡ ok tt
      → is_blank fresh ≡ false
      → 0 < protected_count q.fields
      → let c = granted_consent q ttl p user fresh parts.time.0 in
        confirm_fingerprint sha256 c p.preview_hash ttl ≡ ok fingerprint
        → lookup (confirm_scope user, key) s.commands ≡ none
        → lookup fresh s.records ≡ none
        → confirm sha256 recipients q provider user p.preview_hash key fresh ttl now s
          ≡ (ok c, with_command (confirm_scope user) key fingerprint fresh c s)
  unfolding confirm create_consent create_consent_unless create_fresh_consent
  confirm_passes user key fresh fingerprint s hu hk hf n e new unused =
      rw (confirmed_passes user key fresh s hu hk hf n, e, new, unused)

  granted_bound :
      (user fresh : String) (t t' : ℕ)
      → t' < t + ttl
      → is_bound
          (granted_consent q ttl p user fresh t)
          (record {
            consent_id = fresh;
            user_id = user;
            provider_id = provider;
            purpose = q.purpose;
            field_digest = p.field_digest;
            recipient_fingerprint = p.recipient_fingerprint;
            policy_version = policy_version;
          })
          t'
        ≡ true
  unfolding is_bound is_active
  granted_bound user fresh t t' late = ground (
    arith,
    ==-refl user,
    parts.receiver,
    ==-refl provider,
    ==-refl q.purpose,
    ==-refl p.field_digest,
    ==-refl p.recipient_fingerprint,
    ==-refl policy_version,
  )

  authorize_passes :
      (user fresh : String) (s : ConsentStore) (t t' : ℕ)
      → validate_scoped user "user_id" ≡ ok tt
      → validate_scoped fresh "consent_id" ≡ ok tt
      → lookup fresh s.records ≡ some (granted_consent q ttl p user fresh t)
      → t' < t + ttl
      → authorize sha256 q fresh user provider p.recipient_fingerprint (aware t') s
        ≡ (ok (some (granted_consent q ttl p user fresh t)), s)
  unfolding authorize authorized_fields
  authorize_passes user fresh s t t' hu hf k late =
      let b : Binding = record {
        consent_id = fresh;
        user_id = user;
        provider_id = provider;
        purpose = q.purpose;
        field_digest = p.field_digest;
        recipient_fingerprint = p.recipient_fingerprint;
        policy_version = policy_version;
      } in
      let c = granted_consent q ttl p user fresh t in
      let clean : has_secret q.fields ≡ false = clean_fields q parts.clean in
      let bound : is_bound c b t' ≡ true = granted_bound user fresh t t' late in
      let found : verified (find_active b t' s) b t' ≡ some c =
        verified_passes s b c t' k bound (==-refl fresh) in
      let recipient =
        recipient-IsDigest sha256 recipients provider
          (p.recipient_identity, p.recipient_fingerprint) hex parts.recipient in
      let passed : require_digest p.recipient_fingerprint "recipient_fingerprint" ≡ ok tt =
        require_digest_passes p.recipient_fingerprint "recipient_fingerprint" recipient in
      rw (hf, hu, parts.provider_ok, parts.purpose_ok, passed, clean, parts.digest, found)

-- A fingerprint is never missing.
fingerprint_total :
    (sha256 : String → String) (c : Consent) (hash : String) (ttl : ℕ)
    → (f : String) × (confirm_fingerprint sha256 c hash ttl ≡ ok f)
unfolding confirm_fingerprint canonical_sha256 canonical_json
fingerprint_total sha256 c hash ttl = (_, refl)

-- Where `preview` of a request with a protected field returned, then in a store that holds neither the
-- key of the user nor the fresh id, `confirm` with the hash of the preview returns a consent, and
-- `authorize` answers with that consent at any time before the suggested expiry. The user, the key and the
-- fresh id are well-formed, and the digest of a text is one.
pub previewed_is_authorized :
    (sha256 : String → String) (recipients : Dict String RecipientIdentity) (q : ModelRequest)
    (provider user key fresh : String) (ttl : ℕ) (now : Datetime) (p : Preview) (s : ConsentStore)
    (later : ℕ)
    → ((x : String) → is_digest (sha256 x) ≡ true)
    → preview sha256 recipients q provider ttl now ≡ ok p
    → 0 < protected_count q.fields
    → validate_scoped user "user_id" ≡ ok tt
    → validate_key key ≡ ok tt
    → validate_scoped fresh "consent_id" ≡ ok tt
    → lookup (confirm_scope user, key) s.commands ≡ none
    → lookup fresh s.records ≡ none
    → later < p.suggested_expires_at
    → (c : Consent) × (s' : ConsentStore) × (confirm sha256 recipients q provider user
          p.preview_hash key fresh ttl now s
        ≡ (ok c, s'))
      × (authorize sha256 q c.id user provider p.recipient_fingerprint (aware later) s'
          ≡ (ok (some c), s'))
previewed_is_authorized sha256 recipients q provider user key fresh ttl now p s later hex h n hu hk
      hf new unused before =
    let parts = preview-Parts sha256 recipients q provider ttl now p h in
    let (t, ht, end) = parts.time in
    let c = granted_consent q ttl p user fresh t in
    let (f, e) = fingerprint_total sha256 c p.preview_hash ttl in
    let s' = with_command (confirm_scope user) key f fresh c s in
    let blank = scoped-not_blank fresh "consent_id" hf in
    (
      c,
      s',
      confirm_passes sha256 hex recipients q provider ttl now p parts user key fresh f s hu hk blank
          n e new unused,
      authorize_passes sha256 hex recipients q provider ttl now p parts user fresh s' t later hu hf
          (lookup-insert_self fresh c s.records) (omega arith),
    )
