-- ===== src/Disclosure/Router.antt =====
-- `ModelRouter` of src/personal_assistant/core/models/router.py over the consent service and the audit.
use nju_personal_assistant.Base.{
  ℕ, String, Bool, true, false, List, [], ◌∷◌, Option, none, some, Dict, lookup, map, contains, not,
  ltb, ◌==◌, ◌&&◌, ◌||◌, nat_eq, string_eq, if◌then◌else◌,
}
use nju_personal_assistant.Domain.Errors.{
  Result, ok, raise, bind, reject_if, value_error, disclosure_denied,
}
use nju_personal_assistant.Domain.Exec.{Exec, ◌>>=◌, ◌>>◌, lift, pure}
use nju_personal_assistant.Approvals.Service.{aware}
use nju_personal_assistant.Audit.Writer.{append_event}
use nju_personal_assistant.Disclosure.Fields.{ModelRequest, RecipientIdentity, has_protected}
use nju_personal_assistant.Disclosure.Digest.{canonical_field_digest, recipient_fingerprint}
use nju_personal_assistant.Disclosure.Service.{authorize}
use nju_personal_assistant.Disclosure.Calls.{
  Provider, Disclosure, persistent, ephemeral, no_disclosure, Router, DisclosureConsent, World,
  on_consents, on_audit, denied, is_missing, or_empty, protected_fields, routing_time,
  DisclosureDecision, refused, of_record, Call, Choice, found_provider, reject_secret,
  fallback_provider, or_else, send, ModelOutput,
}
use nju_personal_assistant.Disclosure.AuditData.{or_system, audit_data}

unfoldable pub fall_back : Dict String Provider → Option String → ModelRequest → Result Choice
unfolding fallback_provider reject_secret
fall_back providers none request =
    denied "remote disclosure requires consent bound to provider, purpose and exact fields"
fall_back providers (some i) request = bind (fallback_provider (lookup i providers)) (λ p.
    bind (reject_secret request)
      (λ _. ok (record { provider_id = i; provider = p; consent_id = none })))

module _ (sha256 : String → String) where
  -- `permits`
  unfoldable pub permits : DisclosureConsent → String → String → ModelRequest → ℕ → Result Bool
  unfolding protected_fields canonical_field_digest
  permits c provider recipient request now =
      bind (canonical_field_digest sha256 (protected_fields request.fields)) (λ digest. ok (
        c.provider_id == provider
        && c.purpose == request.purpose
        && c.field_digest == digest
        && c.recipient_fingerprint == recipient
        && ltb now c.expires_at))

  -- The recipient is the registered one, where the provider is remote.
  unfoldable pub unchanged_recipient : Bool → RecipientIdentity → String → Result (Unit {0})
  unfolding recipient_fingerprint
  unchanged_recipient false live registered = ok tt
  unchanged_recipient true live registered =
      bind (recipient_fingerprint sha256 live) (λ fingerprint.
        reject_if (not (fingerprint == registered)) disclosure_denied
          "the registered model recipient has changed; rebuild the provider")

  unfoldable pub by_ephemeral :
      Option DisclosureConsent → Call → Provider → ℕ → Result DisclosureDecision
  unfolding permits
  by_ephemeral none call p now = ok refused
  by_ephemeral (some c) call p now =
      bind (permits c call.provider_id p.fingerprint call.request now)
        (λ b. ok (record { authorized = b; consent_id = none }))

  -- `_decide`
  unfoldable pub decide_disclosure :
      Disclosure → Call → Provider → ℕ → Exec World DisclosureDecision
  unfolding authorize of_record is_missing or_empty by_ephemeral
  decide_disclosure persistent call p now =
      if is_missing call.consent_id || is_missing call.user_id then pure refused else (do
        found ← on_consents (
            authorize sha256 call.request (or_empty call.consent_id) (or_empty call.user_id)
              call.provider_id p.fingerprint (aware now))
        pure (of_record found))
  decide_disclosure ephemeral call p now = lift (by_ephemeral call.consent call p now)
  decide_disclosure no_disclosure call p now = pure refused

module _ (sha256 : String → String) (router : Router) where
  -- Which provider is called
  unfoldable pub choose : Call → Provider → ℕ → Exec World Choice
  unfolding decide_disclosure fall_back or_else has_protected
  choose call p now =
      if not (p.is_remote && has_protected call.request.fields)
      then pure (record { provider_id = call.provider_id; provider = p; consent_id = none })
      else (do
        decision ← decide_disclosure sha256 router.disclosure call p now
        if not decision.authorized
            then lift (
                fall_back router.providers
                  (or_else call.local_fallback_id router.default_local_fallback_id) call.request)
            else pure (record {
              provider_id = call.provider_id;
              provider = p;
              consent_id = decision.consent_id;
            }))

module _ (sha256 : String → String) (isoformat : ℕ → String) (router : Router) where
  -- `_record_success`
  unfoldable pub record_success : Choice → Call → ModelOutput → ℕ → Exec World (Unit {0})
  unfolding audit_data append_event or_system
  record_success choice call output now = if not router.has_audit then pure tt else (do
    fields ← lift (audit_data sha256 isoformat choice call output now)
    on_audit (
        append_event (record {
          event_type = "model.completed";
          actor = or_system call.user_id;
          resource_type = "model_call";
          resource_id = choice.provider.identity.model_id;
          fields = fields;
          occurred_at = call.audited_at;
        })))

  -- From the second reading of the recipient on
  unfoldable pub deliver : Call → ℕ → Choice → Exec World ModelOutput
  unfolding unchanged_recipient send record_success
  deliver call now choice = do
    lift (
        unchanged_recipient sha256 choice.provider.is_remote
          (call.second_recipient choice.provider_id) choice.provider.fingerprint)
    output ← send choice call
    record_success choice call output now
    pure output

  unfoldable pub complete : Call → Exec World ModelOutput
  unfolding found_provider reject_secret routing_time unchanged_recipient choose deliver
  complete call = do
    p ← lift (found_provider (lookup call.provider_id router.providers) call.provider_id)
    lift (reject_secret call.request)
    now ← lift (routing_time call.now)
    lift (
        unchanged_recipient sha256 p.is_remote (call.first_recipient call.provider_id)
          p.fingerprint)
    choice ← choose sha256 router call p now
    deliver call now choice

-- `ModelRouter.__init__`
pub record Adapter : Type 0 where
  pub provider_id : String
  pub is_remote : Bool
  pub recipient : RecipientIdentity

register : (String → String) → List Adapter → Result (Dict String Provider)
unfolding recipient_fingerprint
register sha256 [] = ok []
register sha256 (a ∷ l) =
    let rest = register sha256 l in
    bind (recipient_fingerprint sha256 a.recipient) (λ f. bind rest (λ ps. ok (
      (a.provider_id, record { is_remote = a.is_remote; identity = a.recipient; fingerprint = f })
      ∷ ps)))

repeats : List Adapter → Bool
repeats [] = false
repeats (a ∷ l) = contains a.provider_id (map (λ (b : Adapter). b.provider_id) l) || repeats l

mode : Bool → Bool → Disclosure
mode true allow_ephemeral = persistent
mode false true = ephemeral
mode false false = no_disclosure

unfoldable pub make_router :
    (String → String) → List Adapter → Bool → Bool → Option String → Bool → Result Router
unfolding register repeats mode
make_router sha256 adapters has_disclosure allow_ephemeral fallback has_audit =
    if has_disclosure && allow_ephemeral
    then raise value_error "persistent disclosure and ephemeral consents are mutually exclusive"
    else if repeats adapters
    then raise value_error "model provider ids must be unique"
    else bind (register sha256 adapters) (λ ps. ok (record {
      providers = ps;
      disclosure = mode has_disclosure allow_ephemeral;
      default_local_fallback_id = fallback;
      has_audit = has_audit;
    }))
