-- ===== src/Disclosure/Revocation.antt =====
-- What `revoke` of the consent service returns.
use nju_personal_assistant.Base.{
  ℕ, String, true, Option, none, some, lookup, insert, ◌==◌, string_eq, pair_eq, nat_eq, leb, not,
  ◌≡◌, refl, ap, ◌∙◌, arith, Option-cases, if_both, lookup-insert_self, inl, inr,
}
use nju_personal_assistant.Domain.Errors.{Result, ok, err}
use nju_personal_assistant.Domain.Checking.{Result-cases}
use nju_personal_assistant.Disclosure.Consents.{
  Consent, ConsentStore, is_active, is_revoked, check_consent, repeated, stored_consent,
  store_expired, store_revoked, revoke_found, revoke_unless, revoke_consent, revoked_copy,
  expired_copy,
}
use nju_personal_assistant.Disclosure.Service.{revoke_scope}
use nju_personal_assistant.Disclosure.Evolution.{IsSound, check_consent-same}

-- A consent that is returned is revoked, and stored so under its id.
abbrev pub Revokes : Result Consent × ConsentStore → Type 0
Revokes p =
    (c : Consent) → p.0 ≡ ok c → (is_revoked c.state ≡ true) × (lookup c.id p.1.records ≡ some c)

module _ (s : ConsentStore) (h : IsSound s) (i user key fingerprint : String)
    (expected now : ℕ) where
  store_expired-Revokes : (r : Result Consent) → Revokes (store_expired i r s)
  unfolding store_expired
  store_expired-Revokes (ok c) = λ d e. absurd (ground (arith, e))
  store_expired-Revokes (err x) = λ d e. absurd (ground (arith, e))

  store_revoked-Revokes :
      (c : Consent)
      → c.id ≡ i
      → Revokes (
          store_revoked i
            (check_consent (revoked_copy c now))
            (revoke_scope user)
            key
            fingerprint
            s)
  unfolding store_revoked is_revoked
  store_revoked-Revokes c own = elim (Result-cases (check_consent (revoked_copy c now))) [
    | inr (x, e) ↦ rw e (λ d r. absurd (ground (arith, r)))
    | inl (b, e) ↦
        let same = check_consent-same (revoked_copy c now) b e in
        rw (e, same)
          (λ d r.
            let at : revoked_copy c now ≡ d = ground (arith, r) in
            rw (← at) (
              refl,
              ap (λ x. lookup x (insert i (revoked_copy c now) s.records)) own
                  ∙ lookup-insert_self i (revoked_copy c now) s.records,
            ))
  ]

  revoke_found-Revokes :
      (o : Option Consent)
      → lookup i s.records ≡ o
      → Revokes (revoke_found i user expected now (revoke_scope user) key fingerprint o s)
  unfolding revoke_found
  revoke_found-Revokes none k = λ c r. absurd (ground (arith, r))
  revoke_found-Revokes (some c) k =
      if_both Revokes (not (c.user_id == user)) _ _ (λ d r. absurd (ground (arith, r)))
        (if_both Revokes (not (c.version == expected)) _ _ (λ d r. absurd (ground (arith, r)))
          (if_both Revokes (not (is_active c.state)) _ _ (λ d r. absurd (ground (arith, r)))
            (if_both Revokes (leb c.expires_at now) _ _
              (store_expired-Revokes (check_consent (expired_copy c)))
              (store_revoked-Revokes c (h.ids i c k)))))

  -- What a repeated command returns
  repeated-Revokes :
      (original j : String)
      → lookup (revoke_scope user, key) s.commands ≡ some (original, j)
      → Revokes (repeated (original, j) fingerprint s, s)
  unfolding repeated stored_consent
  repeated-Revokes original j k = λ c r.
      let (d, m, t) = h.revocations user key original j k in
      let at : d ≡ c = ground (arith, r, m) in
      rw (← at) (t, ap (λ x. lookup x s.records) (h.ids j d m) ∙ m)

  pub revoke_consent-Revokes :
      Revokes (revoke_consent i user expected now (revoke_scope user) key fingerprint s)
  unfolding revoke_consent revoke_unless
  revoke_consent-Revokes = elim (Option-cases (lookup (revoke_scope user, key) s.commands)) [
    | inr ((original, j), e) ↦ rw e (repeated-Revokes original j e)
    | inl e ↦ rw e (revoke_found-Revokes (lookup i s.records) refl)
  ]
