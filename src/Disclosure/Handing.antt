-- ===== src/Disclosure/Handing.antt =====
-- What `complete` hands to a provider.
use mathlib.Core.Path.{subst}
use nju_personal_assistant.Base.{
  ℕ, String, Bool, true, false, Option, none, some, lookup, not, ◌&&◌, ◌≡◌, ◌≢◌, refl, arith,
  Bool-cases, Option-cases, inl, inr, string_eq, ==→eq,
}
use nju_personal_assistant.Domain.Errors.{ok}
use nju_personal_assistant.Domain.Checking.{Result-cases}
use nju_personal_assistant.Approvals.Service.{aware}
use nju_personal_assistant.Disclosure.Fields.{ModelRequest, RecipientIdentity, has_protected}
use nju_personal_assistant.Disclosure.Digest.{recipient_fingerprint}
use nju_personal_assistant.Disclosure.Consents.{Consent, ConsentStore}
use nju_personal_assistant.Disclosure.Service.{authorize}
use nju_personal_assistant.Disclosure.Licences.{Licence, authorize_unchanged, authorize-Licence}
use nju_personal_assistant.Disclosure.Calls.{
  World, Provider, Router, Disclosure, persistent, ephemeral, no_disclosure, Call, Choice,
  DisclosureDecision, or_empty, or_else, of_record, fallback_provider, reject_secret,
}
use nju_personal_assistant.Disclosure.Router.{
  unchanged_recipient, decide_disclosure, fall_back, choose,
}

module _ (sha256 : String → String) where
  pub unchanged-Fingerprint :
      (remote : Bool) (live : RecipientIdentity) (registered : String)
      → unchanged_recipient sha256 remote live registered ≡ ok tt
      → remote ≡ true
      → recipient_fingerprint sha256 live ≡ ok registered
  unfolding unchanged_recipient
  unchanged-Fingerprint false live registered h remote = absurd (ground (arith, remote))
  unchanged-Fingerprint true live registered h remote =
      elim (Result-cases (recipient_fingerprint sha256 live)) [
        | inl (f, e) ↦ ground (arith, e, ==→eq f registered)
        | inr (x, e) ↦ absurd (ground (arith, e))
      ]

  -- Nothing that `decide_disclosure` does shows, and where it authorizes by a stored consent, there is one.
  abbrev pub Licensed : Call → String → String → ℕ → ConsentStore → Type 0
  Licensed call i fingerprint now s =
      (c : Consent) × Licence sha256 call.request (or_empty call.consent_id) (or_empty call.user_id)
        i fingerprint now s c

  decide_disclosure_unchanged :
      (d : Disclosure) (call : Call) (p : Provider) (now : ℕ) (w : World)
      → (decide_disclosure sha256 d call p now w).1 ≡ w
  unfolding decide_disclosure
  decide_disclosure_unchanged persistent call p now w = ground (
    arith,
    authorize_unchanged sha256 call.request (or_empty call.consent_id) (or_empty call.user_id)
        call.provider_id p.fingerprint (aware now) w.consents,
  )
  decide_disclosure_unchanged ephemeral call p now w = refl
  decide_disclosure_unchanged no_disclosure call p now w = refl

  -- Where the authorizer answers with a decision to go on, it found a consent.
  by_record :
      (call : Call) (p : Provider) (now : ℕ) (w : World) (decision : DisclosureDecision)
      → (decide_disclosure sha256 persistent call p now w).0 ≡ ok decision
      → decision.authorized ≡ true
      → (c : Consent) × ((authorize sha256 call.request
            (or_empty call.consent_id)
            (or_empty call.user_id)
            call.provider_id
            p.fingerprint
            (aware now)
            w.consents).0
          ≡ ok (some c))
  unfolding decide_disclosure of_record
  by_record call p now w decision h a =
      let m =
        authorize sha256 call.request (or_empty call.consent_id) (or_empty call.user_id)
          call.provider_id p.fingerprint (aware now) w.consents in
      elim (Result-cases m.0) [
        | inl (some c, e) ↦ (c, e)
        | inl (none, e) ↦ absurd (ground (arith, e))
        | inr (x, e) ↦ absurd (ground (arith, e))
      ]

  decide_disclosure-Licensed :
      (d : Disclosure) (call : Call) (p : Provider) (now : ℕ) (w : World)
      (decision : DisclosureDecision)
      → d ≢ ephemeral
      → (decide_disclosure sha256 d call p now w).0 ≡ ok decision
      → decision.authorized ≡ true
      → Licensed call call.provider_id p.fingerprint now w.consents
  unfolding decide_disclosure of_record
  decide_disclosure-Licensed persistent call p now w decision stored h a =
      let (c, e) = by_record call p now w decision h a in
      (
        c,
        authorize-Licence sha256 call.request (or_empty call.consent_id) (or_empty call.user_id)
            call.provider_id p.fingerprint now w.consents c e,
      )
  decide_disclosure-Licensed ephemeral call p now w decision stored h a = absurd (stored refl)
  decide_disclosure-Licensed no_disclosure call p now w decision stored h a =
      absurd (ground (arith, h))

  fall_back-IsLocal :
      (router : Router) (i : Option String) (q : ModelRequest) (choice : Choice)
      → fall_back router.providers i q ≡ ok choice
      → (lookup choice.provider_id router.providers ≡ some choice.provider)
        × (choice.provider.is_remote ≡ false)
  unfolding fall_back fallback_provider reject_secret
  fall_back-IsLocal router none q choice h = absurd (ground (arith, h))
  fall_back-IsLocal router (some i) q choice h = elim (Option-cases (lookup i router.providers)) [
    | inl e ↦ absurd (ground (arith, e))
    | inr (p, e) ↦ ground (arith, e)
  ]

  module _ (router : Router) (call : Call) (now : ℕ) (w : World) where
    -- The chosen provider is registered, and a remote one is licensed for protected data.
    pub record IsChosen (choice : Choice) : Type 0 where
      pub known : lookup choice.provider_id router.providers ≡ some choice.provider
      pub licensed :
          choice.provider.is_remote ≡ true
          → has_protected call.request.fields ≡ true
          → Licensed call choice.provider_id choice.provider.fingerprint now w.consents

    pub choose_unchanged : (p : Provider) → (choose sha256 router call p now w).1 ≡ w
    unfolding choose
    choose_unchanged p = ground (arith, decide_disclosure_unchanged router.disclosure call p now w)

    pub choose-IsChosen :
        (p : Provider) (choice : Choice)
        → router.disclosure ≢ ephemeral
        → lookup call.provider_id router.providers ≡ some p
        → (choose sha256 router call p now w).0 ≡ ok choice
        → IsChosen choice
    unfolding choose
    choose-IsChosen p choice stored k h =
        elim (Bool-cases (not (p.is_remote && has_protected call.request.fields))) [
          | inl e ↦
              let o : Choice = record {
                provider_id = call.provider_id;
                provider = p;
                consent_id = none;
              } in
              let same : o ≡ choice = ground (arith, e) in
              subst IsChosen same
                (record { known = k; licensed = λ r q. absurd (ground (arith, e)) })
          | inr e ↦
              elim (Result-cases (decide_disclosure sha256 router.disclosure call p now w).0) [
                | inr (x, d) ↦ absurd (ground (arith, e, d))
                | inl (decision, d) ↦ elim (Bool-cases decision.authorized) [
                  | inl a ↦
                      let o : Choice = record {
                        provider_id = call.provider_id;
                        provider = p;
                        consent_id = decision.consent_id;
                      } in
                      let same : o ≡ choice = ground (arith, e, d, a) in
                      subst IsChosen same (record {
                        known = k;
                        licensed = λ _ _.
                            decide_disclosure-Licensed router.disclosure call p now w decision
                              stored d a;
                      })
                  | inr a ↦
                      let (known, local) =
                        fall_back-IsLocal router
                          (or_else call.local_fallback_id router.default_local_fallback_id)
                          call.request choice (ground (arith, e, d, a)) in
                      record { known = known; licensed = λ r _. absurd (ground (arith, r, local)) }
                ]
              ]
        ]
