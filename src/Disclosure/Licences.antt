-- ===== src/Disclosure/Licences.antt =====
-- What the router hands over, and under which consent.
use nju_personal_assistant.Base.{
  ℕ, ◌<◌, String, true, some, lookup, ◌≡◌, sym, ap, ◌∙◌, arith, inl, inr, string_eq, ==→eq,
}
use nju_personal_assistant.Domain.Errors.{ok}
use nju_personal_assistant.Approvals.Service.{Datetime, aware}
use nju_personal_assistant.Disclosure.Fields.{ModelRequest}
use nju_personal_assistant.Disclosure.Digest.{canonical_field_digest}
use nju_personal_assistant.Disclosure.Consents.{
  Consent, ConsentStore, Binding, is_active, is_bound, find_active, keep_bound,
}
use nju_personal_assistant.Disclosure.Service.{authorize, authorized_fields, verified}
use nju_personal_assistant.Disclosure.Previews.{policy_version, require_aware}
use nju_personal_assistant.Domain.Checking.{Result-cases}

-- A stored consent for exactly this disclosure, at this time
pub record Licence (sha256 : String → String) (q : ModelRequest)
    (i user provider recipient : String) (now : ℕ) (s : ConsentStore) (c : Consent) : Type 0 where
  pub stored : lookup i s.records ≡ some c
  pub is_active : is_active c.state ≡ true
  pub owner : c.user_id ≡ user
  pub receiver : c.provider_id ≡ provider
  pub purpose : c.purpose ≡ q.purpose
  pub digest : canonical_field_digest sha256 q.fields ≡ ok c.field_digest
  pub fingerprint : c.recipient_fingerprint ≡ recipient
  pub in_time : now < c.expires_at

is_bound-Parts :
    (c : Consent) (b : Binding) (now : ℕ)
    → is_bound c b now ≡ true
    → (c.user_id ≡ b.user_id)
      × (c.provider_id ≡ b.provider_id)
      × (c.purpose ≡ b.purpose)
      × (c.field_digest ≡ b.field_digest)
      × (c.recipient_fingerprint ≡ b.recipient_fingerprint)
      × (is_active c.state ≡ true)
      × (now < c.expires_at)
unfolding is_bound
is_bound-Parts c b now h = ground (
  arith,
  ==→eq c.user_id b.user_id,
  ==→eq c.provider_id b.provider_id,
  ==→eq c.purpose b.purpose,
  ==→eq c.field_digest b.field_digest,
  ==→eq c.recipient_fingerprint b.recipient_fingerprint,
)

verified-IsBound :
    (s : ConsentStore) (b : Binding) (now : ℕ) (c : Consent)
    → verified (find_active b now s) b now ≡ some c
    → (lookup b.consent_id s.records ≡ some c) × (is_bound c b now ≡ true)
unfolding verified find_active keep_bound
verified-IsBound s b now c h = ground arith

module _ (sha256 : String → String) (q : ModelRequest) (i user provider recipient : String) where
  pub authorize_unchanged :
      (now : Datetime) (s : ConsentStore)
      → (authorize sha256 q i user provider recipient now s).1 ≡ s
  unfolding authorize authorized_fields
  authorize_unchanged now s = ground arith

  authorized_fields-Licence :
      (now : ℕ) (s : ConsentStore) (c : Consent)
      → (authorized_fields sha256 q i user provider recipient now s).0 ≡ ok (some c)
      → Licence sha256 q i user provider recipient now s c
  unfolding authorized_fields
  authorized_fields-Licence now s c h =
      elim (Result-cases (canonical_field_digest sha256 q.fields)) [
        | inl (d, e) ↦
            let b : Binding = record {
              consent_id = i;
              user_id = user;
              provider_id = provider;
              purpose = q.purpose;
              field_digest = d;
              recipient_fingerprint = recipient;
              policy_version = policy_version;
            } in
            let (k, bound) = verified-IsBound s b now c (ground (arith, e)) in
            let (u, p, r, f, g, a, t) = is_bound-Parts c b now bound in
            record {
              stored = k;
              is_active = a;
              owner = u;
              receiver = p;
              purpose = r;
              digest = e ∙ ap ok (sym f);
              fingerprint = g;
              in_time = t;
            }
        | inr (x, e) ↦ absurd (ground (arith, e))
      ]

  authorize-fields :
      (now : ℕ) (s : ConsentStore) (c : Consent)
      → (authorize sha256 q i user provider recipient (aware now) s).0 ≡ ok (some c)
      → (authorized_fields sha256 q i user provider recipient now s).0 ≡ ok (some c)
  unfolding authorize require_aware
  authorize-fields now s c h = ground arith

  pub authorize-Licence :
      (now : ℕ) (s : ConsentStore) (c : Consent)
      → (authorize sha256 q i user provider recipient (aware now) s).0 ≡ ok (some c)
      → Licence sha256 q i user provider recipient now s c
  authorize-Licence now s c h = authorized_fields-Licence now s c (authorize-fields now s c h)
