-- ===== src/Disclosure/Previewed.antt =====
-- What a preview that returned found out, and the checks that a confirmation of it passes.
use mathlib.Core.Path.{subst}
use nju_personal_assistant.Base.{
  ℕ, ◌+◌, ◌<◌, String, true, false, List, none, some, lookup, Dict, ◌==◌, nat_eq, string_eq,
  pair_eq, ◌≡◌, refl, arith, Option-cases, inl, inr,
}
use nju_personal_assistant.Domain.Errors.{ok}
use nju_personal_assistant.Domain.Checking.{Result-cases, bind-eq-ok}
use nju_personal_assistant.Domain.Text.{is_blank}
use nju_personal_assistant.Domain.Values.{Value}
use nju_personal_assistant.Approvals.Canonical.{canonical_sha256, canonical_json}
use nju_personal_assistant.Disclosure.Consents.{
  active, Consent, ConsentStore, is_digest, check_consent, check_revocation, require_text,
  require_digest, is_bound, Binding, find_active, keep_bound,
}
use nju_personal_assistant.Disclosure.Service.{verified}
use nju_personal_assistant.Approvals.Service.{Datetime}
use nju_personal_assistant.Disclosure.Fields.{
  ModelRequest, RecipientIdentity, has_secret, protected_count,
}
use nju_personal_assistant.Disclosure.Digest.{canonical_field_digest, recipient_fingerprint}
use nju_personal_assistant.Disclosure.Previews.{
  Preview, FieldSummary, preview, preview_hash, validate_scoped, validate_ttl, require_aware,
  reject_secret, registered_recipient, policy_version,
}

injected : (p p' : Preview) → ok p ≡ ok p' → p ≡ p'
injected p p' h = cc

module _ (sha256 : String → String) (recipients : Dict String RecipientIdentity) (q : ModelRequest)
    (provider : String) (ttl : ℕ) (now : Datetime) where
  -- What a preview that returned found out
  pub record Parts (p : Preview) : Type 0 where
    pub provider_ok : validate_scoped provider "provider_id" ≡ ok tt
    pub purpose_ok : validate_scoped q.purpose "purpose" ≡ ok tt
    pub ttl_ok : validate_ttl ttl ≡ ok tt
    pub clean : reject_secret q ≡ ok tt
    pub digest : canonical_field_digest sha256 q.fields ≡ ok p.field_digest
    pub recipient :
        registered_recipient sha256 recipients provider
        ≡ ok (p.recipient_identity, p.recipient_fingerprint)
    pub hash :
        preview_hash sha256 provider q.purpose p.field_digest p.recipient_fingerprint
          (protected_count q.fields)
          ttl
        ≡ ok p.preview_hash
    pub receiver : p.provider_id ≡ provider
    pub time : (t : ℕ) × (require_aware now ≡ ok t) × (p.suggested_expires_at ≡ t + ttl)

  -- The preview that is made of these parts
  abbrev made : ℕ → RecipientIdentity × String → List FieldSummary → String → String → Preview
  made t r l f g = record {
    provider_id = provider;
    purpose = q.purpose;
    policy = policy_version;
    field_digest = f;
    recipient_fingerprint = r.1;
    fields = l;
    protected_field_count = protected_count q.fields;
    ttl = ttl;
    suggested_expires_at = t + ttl;
    preview_hash = g;
    recipient_identity = r.0;
  }

  made-Parts :
      (t : ℕ) (r : RecipientIdentity × String) (l : List FieldSummary) (f g : String)
      → validate_scoped provider "provider_id" ≡ ok tt
      → validate_scoped q.purpose "purpose" ≡ ok tt
      → validate_ttl ttl ≡ ok tt
      → require_aware now ≡ ok t
      → reject_secret q ≡ ok tt
      → registered_recipient sha256 recipients provider ≡ ok r
      → canonical_field_digest sha256 q.fields ≡ ok f
      → preview_hash sha256 provider q.purpose f r.1 (protected_count q.fields) ttl ≡ ok g
      → Parts (made t r l f g)
  made-Parts t r l f g a b c d e hr hf hg = record {
    provider_ok = a;
    purpose_ok = b;
    ttl_ok = c;
    clean = e;
    digest = hf;
    recipient = hr;
    hash = hg;
    receiver = refl;
    time = (t, d, refl);
  }

  pub preview-Parts : (p : Preview) → preview sha256 recipients q provider ttl now ≡ ok p → Parts p
  unfolding preview
  preview-Parts p h =
      let (a, ha, h1) = bind-eq-ok (validate_scoped provider "provider_id") _ h in
      let (b, hb, h2) = bind-eq-ok (validate_scoped q.purpose "purpose") _ h1 in
      let (c, hc, h3) = bind-eq-ok (validate_ttl ttl) _ h2 in
      let (t, ht, h4) = bind-eq-ok (require_aware now) _ h3 in
      let (d, hd, h5) = bind-eq-ok (reject_secret q) _ h4 in
      let (r, hr, h6) = bind-eq-ok (registered_recipient sha256 recipients provider) _ h5 in
      let (f, hf, h7) = bind-eq-ok (canonical_field_digest sha256 q.fields) _ h6 in
      let (g, hg, h8) =
        bind-eq-ok (preview_hash sha256 provider q.purpose f r.1 (protected_count q.fields) ttl) _
          h7 in
      subst Parts (injected _ p h8) (made-Parts t r _ f g ha hb hc ht hd hr hf hg)

-- The consent that a confirmation of the preview makes
abbrev pub granted_consent : ModelRequest → ℕ → Preview → String → String → ℕ → Consent
granted_consent q ttl p user fresh t = record {
  id = fresh;
  user_id = user;
  provider_id = p.provider_id;
  purpose = q.purpose;
  field_digest = p.field_digest;
  recipient_fingerprint = p.recipient_fingerprint;
  field_count = protected_count q.fields;
  policy_version = policy_version;
  state = active;
  created_at = t;
  expires_at = t + ttl;
  version = 0;
  revoked_at = none;
}

pub policy_not_blank : is_blank policy_version ≡ false
unfolding is_blank
policy_not_blank = refl

pub scoped-not_blank :
    (value name : String) → validate_scoped value name ≡ ok tt → is_blank value ≡ false
unfolding validate_scoped
scoped-not_blank value name h = ground arith

pub digest-IsDigest :
    (sha256 : String → String) (v : Value) (d : String)
    → ((s : String) → is_digest (sha256 s) ≡ true)
    → canonical_sha256 sha256 v ≡ ok d
    → is_digest d ≡ true
unfolding canonical_sha256
digest-IsDigest sha256 v d hex h =
    let (s, _, e) = bind-eq-ok (canonical_json v) _ h in
    let at : sha256 s ≡ d = ground (arith, e) in rw (← at) (hex s)

pub check_consent_passes :
    (c : Consent)
    → is_blank c.id ≡ false
    → is_blank c.user_id ≡ false
    → is_blank c.provider_id ≡ false
    → is_blank c.purpose ≡ false
    → is_blank c.policy_version ≡ false
    → is_digest c.field_digest ≡ true
    → is_digest c.recipient_fingerprint ≡ true
    → 0 < c.field_count
    → c.created_at < c.expires_at
    → check_revocation c c.revoked_at ≡ ok c
    → check_consent c ≡ ok c
unfolding check_consent require_text require_digest
check_consent_passes c h1 h2 h3 h4 h5 h6 h7 h8 h9 h10 = ground arith

pub validate_ttl-pos : (ttl : ℕ) → validate_ttl ttl ≡ ok tt → 0 < ttl
unfolding validate_ttl
validate_ttl-pos ttl h = ground arith

pub recipient-IsDigest :
    (sha256 : String → String) (recipients : Dict String RecipientIdentity) (provider : String)
    (r : RecipientIdentity × String)
    → ((s : String) → is_digest (sha256 s) ≡ true)
    → registered_recipient sha256 recipients provider ≡ ok r
    → is_digest r.1 ≡ true
unfolding registered_recipient recipient_fingerprint
recipient-IsDigest sha256 recipients provider r hex h =
    elim (Option-cases (lookup provider recipients)) [
      | inl e ↦ absurd (ground (arith, e))
      | inr (identity, e) ↦ elim (Result-cases (recipient_fingerprint sha256 identity)) [
        | inr (x, f) ↦ absurd (ground (arith, e, f))
        | inl (d, f) ↦
            let at : d ≡ r.1 = ground (arith, e, f) in rw (← at) (digest-IsDigest sha256 _ d hex f)
      ]
    ]

pub clean_fields : (q : ModelRequest) → reject_secret q ≡ ok tt → has_secret q.fields ≡ false
unfolding reject_secret
clean_fields q h = ground arith

pub require_digest_passes :
    (value name : String) → is_digest value ≡ true → require_digest value name ≡ ok tt
unfolding require_digest
require_digest_passes value name h = rw h

pub verified_passes :
    (s : ConsentStore) (b : Binding) (c : Consent) (now : ℕ)
    → lookup b.consent_id s.records ≡ some c
    → is_bound c b now ≡ true
    → (c.id == b.consent_id) ≡ true
    → verified (find_active b now s) b now ≡ some c
unfolding verified find_active keep_bound
verified_passes s b c now k bound same = ground arith
