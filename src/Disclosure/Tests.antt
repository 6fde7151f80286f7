-- ===== src/Disclosure/Tests.antt =====
-- Runs of the consent service and of the router, and each theorem at a concrete input.
use nju_personal_assistant.Base.{
  ℕ, String, true, [], ◌∷◌, none, some, Dict, lookup, length, ◌==◌, string_eq, nat_eq, pair_eq,
  if◌then◌else◌, if_both, ◌≡◌, ◌≢◌, refl, arith, ◌⊎◌,
}
use nju_personal_assistant.Domain.Errors.{ok}
use nju_personal_assistant.Domain.Text.{is_blank, text_length, all_chars, is_space}
use nju_personal_assistant.Domain.Values.{pos}
use nju_personal_assistant.Approvals.Service.{aware}
use nju_personal_assistant.Approvals.Canonical.{canonical_json}
use nju_personal_assistant.Base.{insert}
use nju_personal_assistant.Disclosure.Fields.{
  ContextField, personal, ModelRequest, RecipientIdentity, protected_count,
}
use nju_personal_assistant.Disclosure.Consents.{
  active, Consent, ConsentStore, fresh_store, is_digest, revoked_copy,
}
use nju_personal_assistant.Disclosure.Previews.{
  preview, Preview, validate_scoped, validate_key, redacted_field_preview,
}
use nju_personal_assistant.Disclosure.Service.{confirm, authorize, revoke}
use nju_personal_assistant.Disclosure.Calls.{World, Provider, Router, persistent, ephemeral, Call}
use nju_personal_assistant.Disclosure.Router.{complete}
use nju_personal_assistant.Disclosure.Runs.{
  Command, confirm_call, revoke_call, complete_call, step, run, fresh_world,
}
use nju_personal_assistant.Disclosure.Evolution.{Evolves}
use nju_personal_assistant.Disclosure.Permission.{Permitted, handed, complete-IsPermitted}
use nju_personal_assistant.Disclosure.Promises.{Withheld, run-Evolves, revoked_never_sent}
use nju_personal_assistant.Disclosure.Grants.{previewed_is_authorized}

-- A digest that tells the two recipients below apart, by their lengths
abbrev digest_of : String → String
digest_of x =
    if text_length x == 102
    then "bbbbbbbbbbbbbbbbbbbbbbbbbbbbbbbbbbbbbbbbbbbbbbbbbbbbbbbbbbbbbbbb"
    else "aaaaaaaaaaaaaaaaaaaaaaaaaaaaaaaaaaaaaaaaaaaaaaaaaaaaaaaaaaaaaaaa"

digest_of-IsDigest : (x : String) → is_digest (digest_of x) ≡ true
unfolding is_digest all_chars text_length
digest_of-IsDigest x =
    if_both (λ d. is_digest d ≡ true) (text_length x == 102)
      "bbbbbbbbbbbbbbbbbbbbbbbbbbbbbbbbbbbbbbbbbbbbbbbbbbbbbbbbbbbbbbbb"
      "aaaaaaaaaaaaaaaaaaaaaaaaaaaaaaaaaaaaaaaaaaaaaaaaaaaaaaaaaaaaaaaa" refl refl

abbrev iso : ℕ → String
iso t = "2026-01-01T00:00:00+00:00"

abbrev identity : RecipientIdentity
identity = record {
  provider_id = "remote";
  adapter = "openai";
  endpoint = "https://models.example.org";
  model_id = "m1";
}

abbrev moved_identity : RecipientIdentity
moved_identity = record identity { endpoint = "https://elsewhere.example.org" }

abbrev recipients : Dict String RecipientIdentity
recipients = ("remote", identity) ∷ []

abbrev router : Router
router = record {
  providers =
      (
        "remote",
        record {
          is_remote = true;
          identity = identity;
          fingerprint = "aaaaaaaaaaaaaaaaaaaaaaaaaaaaaaaaaaaaaaaaaaaaaaaaaaaaaaaaaaaaaaaa";
        },
      )
      ∷ [];
  disclosure = persistent;
  default_local_fallback_id = none;
  has_audit = true;
}

abbrev mail_field : ContextField
mail_field = record {
  name = "mail";
  value = "alice@example.org";
  classification = personal;
  source = "form";
}

abbrev request : ModelRequest
request = record { purpose = "draft"; instruction = "write"; fields = mail_field ∷ [] }

abbrev hour : ℕ
hour = 3600000000

abbrev confirmation : Command
confirmation =
    confirm_call request "remote" "u1"
      "aaaaaaaaaaaaaaaaaaaaaaaaaaaaaaaaaaaaaaaaaaaaaaaaaaaaaaaaaaaaaaaa" "k1" "c1" hour (aware 5)

abbrev call : Call
call = record {
  request = request;
  provider_id = "remote";
  consent = none;
  consent_id = some "c1";
  user_id = some "u1";
  local_fallback_id = none;
  now = aware 10;
  first_recipient = λ _. identity;
  second_recipient = λ _. identity;
  answer = ok (record { completion = "Dear Alice"; usage = [] });
  audited_at = 11;
}

abbrev consent : Consent
consent = record {
  id = "c1";
  user_id = "u1";
  provider_id = "remote";
  purpose = "draft";
  field_digest = "aaaaaaaaaaaaaaaaaaaaaaaaaaaaaaaaaaaaaaaaaaaaaaaaaaaaaaaaaaaaaaaa";
  recipient_fingerprint = "aaaaaaaaaaaaaaaaaaaaaaaaaaaaaaaaaaaaaaaaaaaaaaaaaaaaaaaaaaaaaaaa";
  field_count = 1;
  policy_version = "f04.1";
  state = active;
  created_at = 5;
  expires_at = 3600000005;
  version = 0;
  revoked_at = none;
}

abbrev after_confirmation : World
after_confirmation = run digest_of iso recipients router (confirmation ∷ []) fresh_world

confirmation_stored : lookup "c1" after_confirmation.consents.records ≡ some consent
unfolding run lookup is_blank text_length canonical_json all_chars insert
confirmation_stored = refl

request_sent : length (complete digest_of iso router call after_confirmation).1.sent ≡ 1
unfolding run complete lookup canonical_json is_blank text_length all_chars insert
request_sent = refl

-- A recipient that moved between the two readings gets nothing.
moved_recipient :
    length
      (complete digest_of iso router
        (record call { second_recipient = λ _. moved_identity })
        after_confirmation).1.sent
    ≡ 0
unfolding run complete lookup canonical_json is_blank text_length all_chars insert
moved_recipient = refl

-- A field that is changed after the confirmation changes the digest, and nothing is sent.
abbrev other_call : Call
other_call = record call {
  request = record request {
    fields = record mail_field { source = "alice@example.org" } ∷ mail_field ∷ [];
  };
  consent_id = some "c2";
}

unknown_consent : length (complete digest_of iso router other_call after_confirmation).1.sent ≡ 0
unfolding run complete lookup canonical_json is_blank text_length all_chars insert
unknown_consent = refl

masked_preview : redacted_field_preview "a b" ≡ "* *"
unfolding redacted_field_preview text_length is_space
masked_preview = refl

persistent_kept : persistent ≢ ephemeral
persistent_kept h = cc

complete-IsPermitted_example :
    ((complete digest_of iso router call after_confirmation).1.sent ≡ after_confirmation.sent)
    ⊎ ((i : String) × (p : Provider) × ((complete digest_of iso router call
            after_confirmation).1.sent
          ≡ handed call i ∷ after_confirmation.sent)
        × Permitted digest_of router call after_confirmation i p)
complete-IsPermitted_example =
    complete-IsPermitted digest_of iso router call after_confirmation persistent_kept

run-Evolves_example :
    (d : Consent) × (lookup "c1"
        (run digest_of iso recipients router
          (revoke_call "c1" "u1" (pos 0) "k2" (aware 9) ∷ [])
          after_confirmation).consents.records
      ≡ some d)
    × Evolves consent d
run-Evolves_example =
    run-Evolves digest_of iso recipients router (confirmation ∷ [])
      (revoke_call "c1" "u1" (pos 0) "k2" (aware 9) ∷ []) "c1" consent confirmation_stored

abbrev revoked_consent : Consent
revoked_consent = revoked_copy consent 9

consent_revoked :
    (revoke digest_of "c1" "u1" (pos 0) "k2" (aware 9) after_confirmation.consents).0
    ≡ ok revoked_consent
unfolding run revoke lookup canonical_json is_blank text_length all_chars insert
consent_revoked = refl

revoked_never_sent_example : Withheld digest_of iso recipients router call (
    run digest_of iso recipients router (complete_call call ∷ []) (
      step digest_of iso recipients router
        (revoke_call "c1" "u1" (pos 0) "k2" (aware 9))
        after_confirmation))
revoked_never_sent_example =
    revoked_never_sent digest_of iso recipients router (confirmation ∷ []) (complete_call call ∷ [])
      "c1" "u1" "k2" (pos 0) (aware 9) revoked_consent call persistent_kept consent_revoked refl

abbrev sample_preview : Preview
sample_preview = record {
  provider_id = "remote";
  purpose = "draft";
  policy = "f04.1";
  field_digest = digest_of "";
  recipient_fingerprint = digest_of "";
  fields =
      record {
        name = "mail";
        classification = "PERSONAL";
        source = "form";
        value_sha256 = digest_of "alice@example.org";
        value_length = 17;
        redacted_preview = "*****************";
      }
      ∷ [];
  protected_field_count = 1;
  ttl = hour;
  suggested_expires_at = 3600000005;
  preview_hash = digest_of "";
  recipient_identity = identity;
}

previewed : preview digest_of recipients request "remote" hour (aware 5) ≡ ok sample_preview
unfolding preview lookup canonical_json is_blank text_length is_space
previewed = refl

previewed_is_authorized_example :
    (c : Consent) × (s' : ConsentStore) × (confirm digest_of recipients request "remote" "u1"
        sample_preview.preview_hash "k1" "c1" hour
        (aware 5)
        fresh_store
      ≡ (ok c, s'))
    × (authorize digest_of request c.id "u1" "remote" sample_preview.recipient_fingerprint
          (aware 3600000004)
          s'
        ≡ (ok (some c), s'))
unfolding lookup validate_scoped validate_key is_blank text_length protected_count
previewed_is_authorized_example =
    previewed_is_authorized digest_of recipients request "remote" "u1" "k1" "c1" hour (aware 5)
      sample_preview fresh_store 3600000004 digest_of-IsDigest previewed (omega arith) refl refl
      refl refl refl (omega arith)
