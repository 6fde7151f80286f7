-- ===== src/Disclosure/Fields.antt =====
-- The data of src/personal_assistant/core/models/provider.py. What a caller hands over is any Python
-- value; what was checked is typed. A `DataClassification` is also the text of its value.
use nju_personal_assistant.Base.{
  String, Bool, true, false, List, [], ◌∷◌, Option, none, some, ◌==◌, string_eq, ◌||◌, ℕ, suc,
  if◌then◌else◌,
}
use nju_personal_assistant.Domain.Errors.{Result, ok, err, raise, bind, validation_error}
use nju_personal_assistant.Domain.Text.{is_blank}
use nju_personal_assistant.Domain.Values.{Value, text}

pub data DataClassification : Type 0 where
  public personal sensitive secret : DataClassification

unfoldable pub classification_value : DataClassification → String
classification_value public = "PUBLIC"
classification_value personal = "PERSONAL"
classification_value sensitive = "SENSITIVE"
classification_value secret = "SECRET"

-- `DataClassification(value)` on a text
classification_named : String → Option DataClassification
classification_named s =
    if s == "PUBLIC"
    then some public
    else if s == "PERSONAL"
    then some personal
    else if s == "SENSITIVE"
    then some sensitive
    else if s == "SECRET"
    then some secret
    else none

unfoldable pub classification_of : Value → Option DataClassification
unfolding classification_named
classification_of (text s) = classification_named s
classification_of _ = none

-- The test of `is_secret_classification` on what `classification_of` returned
unfoldable pub counts_as_secret : Option DataClassification → Bool
counts_as_secret none = true
counts_as_secret (some secret) = true
counts_as_secret (some _) = false

unfoldable pub is_secret_classification : Value → Bool
unfolding classification_of counts_as_secret
is_secret_classification v = counts_as_secret (classification_of v)

-- classification in {PERSONAL, SENSITIVE}
unfoldable pub is_protected : DataClassification → Bool
is_protected personal = true
is_protected sensitive = true
is_protected _ = false

pub record ContextField : Type 0 where
  pub name : String
  pub value : String
  pub classification : DataClassification
  pub source : String

-- An object with these four attributes, whatever they are
pub record RawField : Type 0 where
  pub name : Value
  pub value : Value
  pub classification : Value
  pub source : Value

classified_field : String → String → String → Option DataClassification → Result ContextField
classified_field name value source none =
    raise validation_error "model request fields must be valid context fields"
classified_field name value source (some c) =
    if is_blank name || is_blank source
    then raise validation_error "context field name and source are required"
    else ok (record { name = name; value = value; classification = c; source = source })

text_field : Value → Value → Value → Option DataClassification → Result ContextField
unfolding classified_field
text_field (text name) (text value) (text source) c = classified_field name value source c
text_field _ _ _ c = raise validation_error "model request fields must be valid context fields"

-- With `ContextField.__post_init__`
unfoldable pub coerce_context_field : RawField → Result ContextField
unfolding text_field classification_of
coerce_context_field f = text_field f.name f.value f.source (classification_of f.classification)

unfoldable pub coerce_fields : List RawField → Result (List ContextField)
unfolding coerce_context_field
coerce_fields [] = ok []
coerce_fields (f ∷ fs) =
    let rest = coerce_fields fs in
    bind (coerce_context_field f) (λ c. bind rest (λ cs. ok (c ∷ cs)))

pub record ModelRequest : Type 0 where
  pub purpose : String
  pub instruction : String
  pub fields : List ContextField

normalized : String → String → Result (List ContextField) → Result ModelRequest
normalized purpose instruction (ok fields) =
    ok (record { purpose = purpose; instruction = instruction; fields = fields })
normalized purpose instruction (err e) =
    raise validation_error "model request fields must be valid context fields"

-- `ModelRequest.__post_init__`; `none` is a value of `fields` that cannot be iterated.
unfoldable pub make_request : Value → Value → Option (List RawField) → Result ModelRequest
unfolding normalized coerce_fields
make_request (text purpose) (text instruction) none =
    raise validation_error "model request fields must be valid context fields"
make_request (text purpose) (text instruction) (some fields) =
    normalized purpose instruction (coerce_fields fields)
make_request (text purpose) _ fields =
    raise validation_error "model request instruction must be a string"
make_request _ _ fields = raise validation_error "model request purpose must be a string"

-- Over the fields of a checked request, where a classification is its own canonical form.
unfoldable pub has_secret : List ContextField → Bool
unfolding counts_as_secret
has_secret [] = false
has_secret (f ∷ fs) = counts_as_secret (some f.classification) || has_secret fs

unfoldable pub has_protected : List ContextField → Bool
unfolding is_protected
has_protected [] = false
has_protected (f ∷ fs) = is_protected f.classification || has_protected fs

-- How many fields are protected
unfoldable pub protected_count : List ContextField → ℕ
unfolding is_protected
protected_count [] = 0
protected_count (f ∷ fs) =
    let rest = protected_count fs in if is_protected f.classification then suc rest else rest

pub record RecipientIdentity : Type 0 where
  pub provider_id : String
  pub adapter : String
  pub endpoint : String
  pub model_id : String

-- `RecipientIdentity.__post_init__`
unfoldable pub check_recipient : RecipientIdentity → Result (Unit {0})
check_recipient r =
    if is_blank r.provider_id
    then raise validation_error "recipient provider_id is required"
    else if is_blank r.adapter
    then raise validation_error "recipient adapter is required"
    else if is_blank r.endpoint
    then raise validation_error "recipient endpoint is required"
    else if is_blank r.model_id
    then raise validation_error "recipient model_id is required"
    else ok tt
