-- ===== src/Disclosure/Lifecycle.antt =====
-- Each call of the consent service follows the evolution of the consents.
use nju_personal_assistant.Base.{
  ℕ, ◌+◌, String, true, some, lookup, ◌==◌, string_eq, pair_eq, nat_eq, leb, ◌≡◌, refl, arith,
  Bool-cases, Option-cases, inl, inr, Dict,
}
use nju_personal_assistant.Domain.Checking.{Result-cases}
use nju_personal_assistant.Approvals.Service.{Datetime}
use nju_personal_assistant.Disclosure.Fields.{ModelRequest, RecipientIdentity}
use nju_personal_assistant.Disclosure.Consents.{
  Consent, ConsentStore, revoked, expired, is_active, is_revoked, check_consent,
  create_fresh_consent, create_consent_unless, create_consent, store_expired, store_revoked,
  revoke_found, revoke_unless, revoke_consent, revoked_copy, expired_copy,
}
use nju_personal_assistant.Disclosure.Service.{confirm_scope, revoke_scope, confirmed}
use nju_personal_assistant.Disclosure.Evolution.{
  IsSound, Follows, Follows-refl, check_consent-same, created, expired_written, revoked_written,
  moved,
}

module _ (s : ConsentStore) (h : IsSound s) where
  pub create_consent-Follows :
      (user key fingerprint : String) (c : Consent)
      → Follows s (create_consent c (confirm_scope user) key fingerprint s).1
  unfolding create_consent create_consent_unless create_fresh_consent
  create_consent-Follows user key fingerprint c =
      elim (Option-cases (lookup (confirm_scope user, key) s.commands)) [
        | inr (earlier, e) ↦ rw e (Follows-refl s h)
        | inl e ↦ elim (Option-cases (lookup c.id s.records)) [
          | inr (d, f) ↦ rw (e, f) (Follows-refl s h)
          | inl f ↦ rw (e, f) (created s h user key fingerprint c f)
        ]
      ]

  module _ (i user key fingerprint : String) (expected now : ℕ) where
    store_expired-Follows :
        (c : Consent)
        → lookup i s.records ≡ some c
        → is_active c.state ≡ true
        → Follows s (store_expired i (check_consent (expired_copy c)) s).1
    unfolding store_expired
    store_expired-Follows c k a = elim (Result-cases (check_consent (expired_copy c))) [
      | inr (x, e) ↦ rw e (Follows-refl s h)
      | inl (d, e) ↦
          let same = check_consent-same (expired_copy c) d e in
          rw (e, same)
            (expired_written s h i c (expired_copy c) k a
              (moved c expired (c.version + 1) c.revoked_at a))
    ]

    store_revoked-Follows :
        (c : Consent)
        → lookup i s.records ≡ some c
        → is_active c.state ≡ true
        → Follows s
            (store_revoked i
              (check_consent (revoked_copy c now))
              (revoke_scope user)
              key
              fingerprint
              s).1
    unfolding store_revoked is_revoked
    store_revoked-Follows c k a = elim (Result-cases (check_consent (revoked_copy c now))) [
      | inr (x, e) ↦ rw e (Follows-refl s h)
      | inl (d, e) ↦
          let same = check_consent-same (revoked_copy c now) d e in
          rw (e, same)
            (revoked_written s h i c (revoked_copy c now) k a
              (moved c revoked (c.version + 1) (some now) a) user key fingerprint refl)
    ]

    revoke_found-Follows :
        (c : Consent)
        → lookup i s.records ≡ some c
        → Follows s
            (revoke_found i user expected now (revoke_scope user) key fingerprint (some c) s).1
    unfolding revoke_found
    revoke_found-Follows c k = elim (Bool-cases (c.user_id == user)) [
      | inr e ↦ rw e (Follows-refl s h)
      | inl e ↦ elim (Bool-cases (c.version == expected)) [
        | inr f ↦ rw (e, f) (Follows-refl s h)
        | inl f ↦ elim (Bool-cases (is_active c.state)) [
          | inr g ↦ rw (e, f, g) (Follows-refl s h)
          | inl g ↦ elim (Bool-cases (leb c.expires_at now)) [
            | inl l ↦ rw (e, f, g, l) (store_expired-Follows c k g)
            | inr l ↦ rw (e, f, g, l) (store_revoked-Follows c k g)
          ]
        ]
      ]
    ]

    pub revoke_consent-Follows :
        Follows s (revoke_consent i user expected now (revoke_scope user) key fingerprint s).1
    unfolding revoke_consent revoke_unless
    revoke_consent-Follows = elim (Option-cases (lookup (revoke_scope user, key) s.commands)) [
      | inr (earlier, e) ↦ rw e (Follows-refl s h)
      | inl e ↦ elim (Option-cases (lookup i s.records)) [
        | inr (c, k) ↦ rw (e, k) (revoke_found-Follows c k)
        | inl k ↦ rw (e, k) (unfold revoke_found in Follows-refl s h)
      ]
    ]

module _ (sha256 : String → String) (recipients : Dict String RecipientIdentity) where
  pub confirmed_unchanged :
      (q : ModelRequest) (provider user hash key fresh : String) (ttl : ℕ) (now : Datetime)
      (s : ConsentStore)
      → (confirmed sha256 recipients q provider user hash key fresh ttl now s).1 ≡ s
  unfolding confirmed
  confirmed_unchanged q provider user hash key fresh ttl now s = ground arith
