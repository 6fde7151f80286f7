-- ===== src/Audit/Masking.antt =====
-- What redacted data holds under the secret keys.
use mathlib.Core.Path.{subst}
use nju_personal_assistant.Base.{
  sym, String, Bool, true, false, List, [], ◌∷◌, ◌≡◌, refl, arith, All, All-append, Bool-cases, inl,
  inr, ==→eq, ◌==◌, ◌&&◌, string_eq, if◌then◌else◌,
}
use nju_personal_assistant.Domain.Values.{
  Value, null, boolean, integer, real, text, array, object, other, Items, nil, cons, Fields, end,
  field,
}
use nju_personal_assistant.Audit.Redaction.{
  key_text, is_secret_key, set_field, redact, redact_items, redact_fields,
}
use nju_personal_assistant.Audit.Writer.{AuditEvent, safe_event, append_event}

-- The mask itself.
abbrev is_mask : Value → Bool
is_mask (text s) = s == "[REDACTED]"
is_mask _ = false

abbrev mutual
  -- Under each secret key, at any depth, is the mask.
  pub is_masked : Value → Bool
  is_masked (array xs) = is_masked_items xs
  is_masked (object fs) = is_masked_fields fs
  is_masked v = true

  pub is_masked_items : Items → Bool
  is_masked_items nil = true
  is_masked_items (cons v xs) = is_masked v && is_masked_items xs

  pub is_masked_fields : Fields → Bool
  is_masked_fields end = true
  is_masked_fields (field k v fs) =
      (if is_secret_key (key_text k) then is_mask v else is_masked v) && is_masked_fields fs

-- What may stand under a key.
abbrev fits : String → Value → Bool
fits key v = if is_secret_key key then is_mask v else is_masked v

both : (a b : Bool) → a ≡ true → b ≡ true → (a && b) ≡ true
both a b h k = ground arith

left : (a b : Bool) → (a && b) ≡ true → a ≡ true
left a b h = ground arith

right : (a b : Bool) → (a && b) ≡ true → b ≡ true
right a b h = ground arith

set_field-is_masked_fields :
    (key : String) (v : Value) (fs : Fields)
    → fits key v ≡ true
    → is_masked_fields fs ≡ true
    → is_masked_fields (set_field key v fs) ≡ true
unfolding set_field key_text
set_field-is_masked_fields key v end f m = both _ true f refl
set_field-is_masked_fields key v (field k w fs) f m = elim (Bool-cases (key_text k == key)) [
  | inl e ↦
      let f' = subst (λ t. fits t v ≡ true) (sym (==→eq (key_text k) key e)) f in
      rw e (both _ _ f' (right (fits (key_text k) w) _ m))
  | inr e ↦
      let rest = set_field-is_masked_fields key v fs f (right (fits (key_text k) w) _ m) in
      rw e (both _ _ (left _ (is_masked_fields fs) m) rest)
]

masked_fits :
    (key : String) (v : Value)
    → is_masked v ≡ true
    → fits key (if is_secret_key key then text "[REDACTED]" else v) ≡ true
masked_fits key v h = ground arith

mutual
  unfolding redact

  redact-is_masked : (v : Value) → is_masked (redact v) ≡ true
  redact-is_masked null = refl
  redact-is_masked (boolean _) = refl
  redact-is_masked (integer _) = refl
  redact-is_masked (real _) = refl
  redact-is_masked (text _) = refl
  redact-is_masked (other _) = refl
  redact-is_masked (array xs) = redact_items-is_masked xs
  redact-is_masked (object fs) = redact_fields-is_masked fs end refl

  redact_items-is_masked : (xs : Items) → is_masked_items (redact_items xs) ≡ true
  redact_items-is_masked nil = refl
  redact_items-is_masked (cons v xs) = ground (arith, redact-is_masked v, redact_items-is_masked xs)

  redact_fields-is_masked :
      (fs built : Fields)
      → is_masked_fields built ≡ true
      → is_masked_fields (redact_fields fs built) ≡ true
  redact_fields-is_masked end built m = m
  redact_fields-is_masked (field k v fs) built m = redact_fields-is_masked fs _ (
      set_field-is_masked_fields (key_text k) _ built
        (masked_fits (key_text k) (redact v) (redact-is_masked v)) m)

-- The data of a written event holds the mask under each secret key.
abbrev pub IsSafeEvent : AuditEvent → Type 0
IsSafeEvent event = is_masked_fields event.fields ≡ true

-- Whatever event is appended, if the written events hold the mask under each of their secret keys, at any depth, then so do they afterwards.
pub append_event_masked :
    (event : AuditEvent) (events : List AuditEvent)
    → All IsSafeEvent events
    → All IsSafeEvent (append_event event events).1
unfolding append_event safe_event
append_event_masked event events h =
    All-append IsSafeEvent events (safe_event event ∷ []) h
      (redact_fields-is_masked event.fields end refl, tt)
