-- ===== src/Disclosure/Permission.antt =====
-- Which requests `complete` hands to which provider.
use nju_personal_assistant.Base.{
  ℕ, String, true, false, ◌∷◌, some, lookup, ◌≡◌, ◌≢◌, refl, ap, arith, Bool-cases, Option-cases,
  ◌⊎◌, inl, inr, string_eq,
}
use nju_personal_assistant.Domain.Errors.{Error, ok, err}
use nju_personal_assistant.Domain.Checking.{Result-cases}
use nju_personal_assistant.Domain.Exec.{◌>>=◌}
use nju_personal_assistant.Approvals.Service.{Datetime, aware, naive}
use nju_personal_assistant.Disclosure.Fields.{has_secret, has_protected}
use nju_personal_assistant.Disclosure.Digest.{recipient_fingerprint}
use nju_personal_assistant.Disclosure.Consents.{Consent}
use nju_personal_assistant.Disclosure.Licences.{Licence}
use nju_personal_assistant.Disclosure.Calls.{
  Sent, World, Provider, Router, ephemeral, Call, Choice, ModelOutput, or_empty, reject_secret,
  routing_time, found_provider, send,
}
use nju_personal_assistant.Disclosure.Router.{
  unchanged_recipient, choose, record_success, deliver, complete,
}
use nju_personal_assistant.Disclosure.Handing.{
  unchanged-Fingerprint, IsChosen, choose_unchanged, choose-IsChosen,
}

abbrev pub handed : Call → String → Sent
handed call i = record {
  provider_id = i;
  recipient = call.second_recipient i;
  request = call.request;
}

-- The request has no secret, and goes to a local provider, or to a remote one at the recipient that was
-- registered; there its fields are public, or a stored consent allows exactly them.
abbrev pub Permitted : (String → String) → Router → Call → World → String → Provider → Type 0
Permitted sha256 router call w i p =
    (lookup i router.providers ≡ some p)
    × (has_secret call.request.fields ≡ false)
    × ((p.is_remote ≡ false)
        ⊎ ((recipient_fingerprint sha256 (call.second_recipient i) ≡ ok p.fingerprint)
            × ((has_protected call.request.fields ≡ false)
                ⊎ ((now : ℕ) × (call.now ≡ aware now)
                    × (c : Consent) × Licence sha256 call.request (or_empty call.consent_id)
                        (or_empty call.user_id) i p.fingerprint now w.consents c))))

Datetime-cases : (d : Datetime) → ((t : ℕ) × (d ≡ aware t)) ⊎ ((t : ℕ) × (d ≡ naive t))
Datetime-cases (aware t) = inl (t, refl)
Datetime-cases (naive t) = inr (t, refl)

module _ (sha256 : String → String) (isoformat : ℕ → String) (router : Router) (call : Call) where
  record_success_sent :
      (now : ℕ) (choice : Choice) (output : ModelOutput) (w : World)
      → (record_success sha256 isoformat router choice call output now w).1.sent ≡ w.sent
  unfolding record_success
  record_success_sent now choice output w = ground arith

  pub record_success_consents :
      (now : ℕ) (choice : Choice) (output : ModelOutput) (w : World)
      → (record_success sha256 isoformat router choice call output now w).1.consents ≡ w.consents
  unfolding record_success
  record_success_consents now choice output w = ground arith

  -- A remote provider's recipient is the registered one when the request is handed over.
  abbrev IsRegistered : Choice → Type 0
  IsRegistered choice =
      choice.provider.is_remote ≡ true
      → recipient_fingerprint sha256 (call.second_recipient choice.provider_id)
        ≡ ok choice.provider.fingerprint

  abbrev Delivers : Choice → World → World → Type 0
  Delivers choice w w' =
      (w'.sent ≡ w.sent)
      ⊎ ((w'.sent ≡ handed call choice.provider_id ∷ w.sent) × IsRegistered choice)

  -- What follows the handing over shows no more of it.
  after_send :
      (now : ℕ) (choice : Choice) (w : World)
      → unchanged_recipient sha256 choice.provider.is_remote
          (call.second_recipient choice.provider_id)
          choice.provider.fingerprint
        ≡ ok tt
      → (deliver sha256 isoformat router call now choice w).1.sent
        ≡ handed call choice.provider_id ∷ w.sent
  unfolding deliver send
  after_send now choice w e =
      let w' : World = record w { sent = handed call choice.provider_id ∷ w.sent } in
      elim (Result-cases call.answer) [
        | inl (output, a) ↦ ground (arith, e, a, record_success_sent now choice output w')
        | inr (x, a) ↦ ground (arith, e, a)
      ]

  stopped :
      (now : ℕ) (choice : Choice) (w : World) (x : Error)
      → unchanged_recipient sha256 choice.provider.is_remote
          (call.second_recipient choice.provider_id)
          choice.provider.fingerprint
        ≡ err x
      → (deliver sha256 isoformat router call now choice w).1.sent ≡ w.sent
  unfolding deliver
  stopped now choice w x e = rw e

  deliver-Delivers :
      (now : ℕ) (choice : Choice) (w : World)
      → Delivers choice w (deliver sha256 isoformat router call now choice w).1
  deliver-Delivers now choice w =
      let live = call.second_recipient choice.provider_id in
      let registered = choice.provider.fingerprint in
      let remote = choice.provider.is_remote in
      elim (Result-cases (unchanged_recipient sha256 remote live registered)) [
        | inl (u, e) ↦
            inr (after_send now choice w e, unchanged-Fingerprint sha256 remote live registered e)
        | inr (x, e) ↦ inl (stopped now choice w x e)
      ]

  abbrev pub Handles : World → World → Type 0
  Handles w w' =
      (w'.sent ≡ w.sent)
      ⊎ ((i : String) × (p : Provider) × (w'.sent ≡ handed call i ∷ w.sent)
          × Permitted sha256 router call w i p)

  chosen-Handles :
      (now : ℕ) (choice : Choice) (w : World)
      → call.now ≡ aware now
      → has_secret call.request.fields ≡ false
      → IsChosen sha256 router call now w choice
      → Handles w (deliver sha256 isoformat router call now choice w).1
  chosen-Handles now choice w t clean c = elim (deliver-Delivers now choice w) [
    | inl same ↦ inl same
    | inr (one, registered) ↦ inr (
      choice.provider_id,
      choice.provider,
      one,
      (
        c.known,
        clean,
        elim (Bool-cases choice.provider.is_remote) [
          | inr local ↦ inl local
          | inl remote ↦ inr (
            registered remote,
            elim (Bool-cases (has_protected call.request.fields)) [
              | inr clear ↦ inl clear
              | inl q ↦ let (l, h) = c.licensed remote q in inr (now, t, l, h)
            ],
          )
        ],
      ),
    )
  ]

  -- From the choice of a provider on
  continued-Handles :
      (p : Provider) (now : ℕ) (w : World)
      → router.disclosure ≢ ephemeral
      → lookup call.provider_id router.providers ≡ some p
      → call.now ≡ aware now
      → has_secret call.request.fields ≡ false
      → Handles w
          ((choose sha256 router call p now >>= deliver sha256 isoformat router call now) w).1
  continued-Handles p now w stored k t clean =
      let m = choose sha256 router call p now w in
      let same = choose_unchanged sha256 router call now w p in
      elim (Result-cases m.0) [
        | inr (x, e) ↦ inl (ground (arith, e, same))
        | inl (choice, e) ↦
            let c = choose-IsChosen sha256 router call now w p choice stored k e in
            rw (e, same) (chosen-Handles now choice w t clean c)
      ]

  -- Either the call ends before a provider is chosen, or its checks are passed.
  started :
      (w : World)
      → ((complete sha256 isoformat router call w).1 ≡ w)
        ⊎ ((p : Provider) × (now : ℕ) × (lookup call.provider_id router.providers ≡ some p)
            × (call.now ≡ aware now)
            × (has_secret call.request.fields ≡ false)
            × (complete sha256 isoformat router call w
                ≡ (choose sha256 router call p now >>= deliver sha256 isoformat router call now) w))
  unfolding complete found_provider reject_secret routing_time
  started w = elim (Option-cases (lookup call.provider_id router.providers)) [
    | inl e ↦ inl (ground (arith, e))
    | inr (p, k) ↦ elim (Bool-cases (has_secret call.request.fields)) [
      | inl dirty ↦ inl (ground (arith, k, dirty))
      | inr clean ↦ elim (Datetime-cases call.now) [
        | inr (now, t) ↦ inl (ground (arith, k, clean, t))
        | inl (now, t) ↦
            elim (Result-cases (
              unchanged_recipient sha256 p.is_remote (call.first_recipient call.provider_id)
                p.fingerprint)) [
                  | inr (x, e) ↦ inl (ground (arith, k, clean, t, e))
                  | inl (u, e) ↦ inr (p, now, k, t, clean, ground (arith, k, clean, t, e))
                ]
      ]
    ]
  ]

  -- What `complete` hands to a provider in one call is at most one request, the request of the call
  -- and with no secret field. A remote provider is called only at the recipient it was registered
  -- with, and with personal or sensitive fields only under a stored consent, active and unexpired, of
  -- this user for this provider, purpose, recipient and the digest of exactly these fields. The router
  -- has no ephemeral consents.
  pub complete-IsPermitted :
      (w : World)
      → router.disclosure ≢ ephemeral
      → ((complete sha256 isoformat router call w).1.sent ≡ w.sent)
        ⊎ ((i : String) × (p : Provider) × ((complete sha256 isoformat router call w).1.sent
              ≡ handed call i ∷ w.sent)
            × Permitted sha256 router call w i p)
  complete-IsPermitted w stored = elim (started w) [
    | inl same ↦ inl (ap (λ (v : World). v.sent) same)
    | inr (p, now, k, t, clean, e) ↦ rw e (continued-Handles p now w stored k t clean)
  ]

  deliver_consents :
      (now : ℕ) (choice : Choice) (w : World)
      → (deliver sha256 isoformat router call now choice w).1.consents ≡ w.consents
  unfolding deliver send
  deliver_consents now choice w =
      let w' : World = record w { sent = handed call choice.provider_id ∷ w.sent } in
      let live = call.second_recipient choice.provider_id in
      let checks =
        unchanged_recipient sha256 choice.provider.is_remote live choice.provider.fingerprint in
      elim (Result-cases checks) [
        | inr (x, e) ↦ rw e
        | inl (u, e) ↦ elim (Result-cases call.answer) [
          | inl (output, a) ↦ ground (arith, e, a, record_success_consents now choice output w')
          | inr (x, a) ↦ ground (arith, e, a)
        ]
      ]

  -- `complete` changes no consent.
  pub complete_consents :
      (w : World) → (complete sha256 isoformat router call w).1.consents ≡ w.consents
  complete_consents w = elim (started w) [
    | inl same ↦ ap (λ (v : World). v.consents) same
    | inr (p, now, _, _, _, e) ↦
        let m = choose sha256 router call p now w in
        let same = choose_unchanged sha256 router call now w p in
        rw e (elim (Result-cases m.0) [
          | inr (x, f) ↦ ground (arith, f, same)
          | inl (choice, f) ↦ rw (f, same) (deliver_consents now choice w)
        ])
  ]
