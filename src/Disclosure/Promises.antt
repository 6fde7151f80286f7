-- ===== src/Disclosure/Promises.antt =====
-- What the consent service and the router promise after any calls.
use nju_personal_assistant.Base.{
  ℕ, String, true, false, List, [], ◌∷◌, some, lookup, Dict, ◌≡◌, ◌≢◌, sym, ap, ◌∙◌, arith, ◌⊎◌,
  inl, inr, string_eq,
}
use mathlib.Core.Path.{subst}
use nju_personal_assistant.Domain.Errors.{ok}
use nju_personal_assistant.Domain.Checking.{Result-cases}
use nju_personal_assistant.Domain.Values.{ℤ}
use nju_personal_assistant.Approvals.Service.{Datetime}
use nju_personal_assistant.Disclosure.Fields.{ModelRequest, RecipientIdentity, has_protected}
use nju_personal_assistant.Disclosure.Consents.{Consent, ConsentStore, is_active, is_revoked}
use nju_personal_assistant.Disclosure.Service.{
  confirmed, confirm, revoke, revoke_checked, confirm_fingerprint,
}
use nju_personal_assistant.Disclosure.Evolution.{
  Evolves, IsSound, Follows, Follows-refl, Follows-trans,
}
use nju_personal_assistant.Disclosure.Lifecycle.{
  create_consent-Follows, revoke_consent-Follows, confirmed_unchanged,
}
use nju_personal_assistant.Disclosure.Revocation.{Revokes, revoke_consent-Revokes}
use nju_personal_assistant.Disclosure.Licences.{Licence}
use nju_personal_assistant.Disclosure.Calls.{World, Provider, Router, ephemeral, Call, or_empty}
use nju_personal_assistant.Disclosure.Router.{complete}
use nju_personal_assistant.Disclosure.Permission.{handed, complete-IsPermitted, complete_consents}
use nju_personal_assistant.Disclosure.Runs.{
  Command, confirm_call, revoke_call, complete_call, step, run, fresh_world,
}

module _ (sha256 : String → String) where
  -- A call of `revoke` ends at a check, or it is one of the store.
  module _ (i user key : String) (expected : ℤ) (now : Datetime) (s : ConsentStore)
      (h : IsSound s) where
    revoke-Follows : Follows s (revoke sha256 i user expected key now s).1
    unfolding revoke
    revoke-Follows = elim (Result-cases (revoke_checked sha256 i user expected key now)) [
      | inr (x, e) ↦ rw e (Follows-refl s h)
      | inl ((n, t, fp), e) ↦ rw e (revoke_consent-Follows s h i user key fp n t)
    ]

    revoke-Revokes : Revokes (revoke sha256 i user expected key now s)
    unfolding revoke
    revoke-Revokes = elim (Result-cases (revoke_checked sha256 i user expected key now)) [
      | inr (x, e) ↦ rw e (λ c r. absurd (ground (arith, r)))
      | inl ((n, t, fp), e) ↦ rw e (revoke_consent-Revokes s h i user key fp n t)
    ]

  module _ (recipients : Dict String RecipientIdentity) where
    confirm-Follows :
        (q : ModelRequest) (provider user hash key fresh : String) (ttl : ℕ) (now : Datetime)
        (s : ConsentStore)
        → IsSound s
        → Follows s (confirm sha256 recipients q provider user hash key fresh ttl now s).1
    unfolding confirm
    confirm-Follows q provider user hash key fresh ttl now s h =
        let m = confirmed sha256 recipients q provider user hash key fresh ttl now s in
        let same = confirmed_unchanged sha256 recipients q provider user hash key fresh ttl now s in
        elim (Result-cases m.0) [
          | inr (x, e) ↦ rw (e, same) (Follows-refl s h)
          | inl (c, e) ↦ elim (Result-cases (confirm_fingerprint sha256 c hash ttl)) [
            | inr (x, f) ↦ rw (e, f, same) (Follows-refl s h)
            | inl (fp, f) ↦ rw (e, f, same) (create_consent-Follows s h user key fp c)
          ]
        ]

module _ (sha256 : String → String) (isoformat : ℕ → String)
    (recipients : Dict String RecipientIdentity) (router : Router) where
  step-Follows :
      (c : Command) (w : World)
      → IsSound w.consents
      → Follows w.consents (step sha256 isoformat recipients router c w).consents
  unfolding step
  step-Follows (confirm_call q provider user hash key fresh ttl now) w h =
      confirm-Follows sha256 recipients q provider user hash key fresh ttl now w.consents h
  step-Follows (revoke_call i user expected key now) w h =
      revoke-Follows sha256 i user key expected now w.consents h
  step-Follows (complete_call call) w h =
      subst (Follows w.consents) (sym (complete_consents sha256 isoformat router call w))
        (Follows-refl w.consents h)

  run-Follows :
      (commands : List Command) (w : World)
      → IsSound w.consents
      → Follows w.consents (run sha256 isoformat recipients router commands w).consents
  unfolding run
  run-Follows [] w h = Follows-refl w.consents h
  run-Follows (c ∷ commands) w h =
      let w' = step sha256 isoformat recipients router c w in
      let f = step-Follows c w h in
      Follows-trans w.consents w'.consents
        (run sha256 isoformat recipients router commands w').consents f
        (run-Follows commands w' f.sound)

  fresh_world-IsSound : IsSound fresh_world.consents
  unfolding lookup
  fresh_world-IsSound = record {
    ids = λ i c k. absurd (ground (arith, k));
    revocations = λ u k f i l. absurd (ground (arith, l));
  }

  -- A consent that is stored after some calls is stored after any further calls too, for the same user,
  -- provider, purpose, fields, recipient and expiry, and one that is not active is unchanged.
  pub run-Evolves :
      (commands more : List Command) (i : String) (c : Consent)
      → lookup i (run sha256 isoformat recipients router commands fresh_world).consents.records
        ≡ some c
      → (d : Consent) × (lookup i
            (run sha256 isoformat recipients router more
              (run sha256 isoformat recipients router commands fresh_world)).consents.records
          ≡ some d)
        × Evolves c d
  run-Evolves commands more i c k =
      let w = run sha256 isoformat recipients router commands fresh_world in
      let f = run-Follows commands fresh_world fresh_world-IsSound in
      (run-Follows more w f.sound).kept i c k

  -- Nothing, or nothing protected to a remote provider
  abbrev pub Withheld : Call → World → Type 0
  Withheld call w =
      ((complete sha256 isoformat router call w).1.sent ≡ w.sent)
      ⊎ ((i : String) × (p : Provider) × ((complete sha256 isoformat router call w).1.sent
            ≡ handed call i ∷ w.sent)
          × (lookup i router.providers ≡ some p)
          × ((p.is_remote ≡ false) ⊎ (has_protected call.request.fields ≡ false)))

  -- A consent that is stored as revoked licenses nothing.
  Licence-not_revoked :
      (s : ConsentStore) (i user provider recipient : String) (q : ModelRequest) (now : ℕ)
      (c d : Consent)
      → lookup i s.records ≡ some d
      → is_revoked d.state ≡ true
      → ¬ Licence sha256 q i user provider recipient now s c
  unfolding is_revoked is_active
  Licence-not_revoked s i user provider recipient q now c d k r = λ l.
      let at : c ≡ d = ground (arith, k, l.stored) in absurd (ground (arith, r, l.is_active, at))

  revoked-Withheld :
      (call : Call) (w : World) (i : String) (d : Consent)
      → router.disclosure ≢ ephemeral
      → lookup i w.consents.records ≡ some d
      → is_revoked d.state ≡ true
      → call.consent_id ≡ some i
      → Withheld call w
  unfolding or_empty
  revoked-Withheld call w i d stored k r named =
      let at : or_empty call.consent_id ≡ i = ap or_empty named in
      let k' = ap (λ x. lookup x w.consents.records) at ∙ k in
      elim (complete-IsPermitted sha256 isoformat router call w stored) [
        | inl same ↦ inl same
        | inr (j, p, one, (known, clean, inl local)) ↦ inr (j, p, one, known, inl local)
        | inr (j, p, one, (known, clean, inr (registered, inl clear))) ↦
            inr (j, p, one, known, inr clear)
        | inr (j, p, one, (known, clean, inr (registered, inr (t, at', c, licence)))) ↦ absurd (
            Licence-not_revoked w.consents (or_empty call.consent_id) (or_empty call.user_id) j
              p.fingerprint call.request t c d k' r licence)
      ]

  -- After any calls, where `revoke` returns a consent, then after any further calls no call of
  -- `complete` under that consent hands personal or sensitive fields to a remote provider. The router
  -- has no ephemeral consents.
  pub revoked_never_sent :
      (commands more : List Command) (i user key : String) (expected : ℤ) (now : Datetime)
      (c : Consent) (call : Call)
      → router.disclosure ≢ ephemeral
      → (revoke sha256 i user expected key now
          (run sha256 isoformat recipients router commands fresh_world).consents).0
        ≡ ok c
      → call.consent_id ≡ some c.id
      → Withheld call (
          run sha256 isoformat recipients router more (
            step sha256 isoformat recipients router
              (revoke_call i user expected key now)
              (run sha256 isoformat recipients router commands fresh_world)))
  unfolding step is_active is_revoked
  revoked_never_sent commands more i user key expected now c call stored r named =
      let w = run sha256 isoformat recipients router commands fresh_world in
      let w' = step sha256 isoformat recipients router (revoke_call i user expected key now) w in
      let f = run-Follows commands fresh_world fresh_world-IsSound in
      let (gone, k) = revoke-Revokes sha256 i user key expected now w.consents f.sound c r in
      let g = revoke-Follows sha256 i user key expected now w.consents f.sound in
      let (d, l, e) = (run-Follows more w' g.sound).kept c.id c k in
      let same : d ≡ c = e.settled (ground (arith, gone)) in
      revoked-Withheld call (run sha256 isoformat recipients router more w') c.id d stored l
        (ap (λ (x : Consent). is_revoked x.state) same ∙ gone) named
