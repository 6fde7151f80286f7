-- ===== src/Disclosure/AuditData.antt =====
-- `_audit_data` of src/personal_assistant/core/models/router.py, with `bounded_usage` of provider.py.
use nju_personal_assistant.Base.{
  ℕ, String, List, [], ◌∷◌, Option, none, some, Dict, lookup, map, contains, length, ◌==◌, nat_eq,
  string_eq, if◌then◌else◌,
}
use nju_personal_assistant.Domain.Errors.{Result, ok, bind}
use nju_personal_assistant.Domain.Values.{
  Key, pos, Value, null, text, integer, array, object, Items, nil, cons, Fields, end, field,
}
use nju_personal_assistant.Disclosure.Fields.{ContextField, classification_value}
use nju_personal_assistant.Disclosure.Digest.{canonical_field_digest}
use nju_personal_assistant.Disclosure.Previews.{texts, counted}
use nju_personal_assistant.Disclosure.Calls.{Choice, Call, ModelOutput}

-- The keys that reach the audit, and what a counter must be
abbrev auditable_usage_keys : List String
auditable_usage_keys =
    "prompt_tokens" ∷ "completion_tokens" ∷ "total_tokens" ∷ "prompt_eval_count" ∷ "eval_count" ∷ []

unfoldable pub usage_field : String → Option Value → Fields → Fields
usage_field key (some (integer (pos n))) rest = field (Key.name key) (integer (pos n)) rest
usage_field key _ rest = rest

unfoldable pub bounded_usage : List String → Dict String Value → Fields
unfolding usage_field
bounded_usage [] usage = end
bounded_usage (key ∷ keys) usage = usage_field key (lookup key usage) (bounded_usage keys usage)

-- sorted({…}) of the classifications of the fields
unfoldable pub present : List String → List String → Items
present [] given = nil
present (c ∷ cs) given =
    let rest = present cs given in if contains c given then cons (text c) rest else rest

unfoldable pub classifications : List ContextField → Items
unfolding present classification_value
classifications fields =
    present ("PERSONAL" ∷ "PUBLIC" ∷ "SECRET" ∷ "SENSITIVE" ∷ [])
      (map (λ (f : ContextField). classification_value f.classification) fields)

unfoldable pub or_none : Option String → Value
or_none none = null
or_none (some s) = text s

-- `x or "system"`
unfoldable pub or_system : Option String → String
or_system none = "system"
or_system (some s) = if s == "" then "system" else s

module _ (sha256 : String → String) (isoformat : ℕ → String) where
  -- `_audit_data`
  unfoldable pub audit_data : Choice → Call → ModelOutput → ℕ → Result Fields
  unfolding canonical_field_digest classifications or_none bounded_usage
  audit_data choice call output now =
      bind (canonical_field_digest sha256 call.request.fields) (λ digest. ok (
        texts
          (("provider_id", choice.provider_id)
            ∷ ("model_id", choice.provider.identity.model_id)
            ∷ ("purpose", call.request.purpose)
            ∷ [])
          (counted "field_count" (length call.request.fields) (
            field (Key.name "field_digest") (text digest) (
              field (Key.name "classifications") (array (classifications call.request.fields)) (
                field (Key.name "consent_id") (or_none choice.consent_id) (
                  texts
                    (("output_sha256", sha256 output.completion)
                      ∷ ("recorded_at", isoformat now)
                      ∷ [])
                    (field (Key.name "usage")
                      (object (bounded_usage auditable_usage_keys output.usage)) end))))))))
