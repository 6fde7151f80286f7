-- ===== src/Context/Models.antt =====
-- src/personal_assistant/core/context/models.py. Datetimes are in microseconds.
use nju_personal_assistant.Base.{
  ℕ, ◌+◌, String, Bool, true, false, List, [], ◌∷◌, Option, ltb, contains, any, ◌==◌, string_eq,
  ◌||◌, if◌then◌else◌,
}
use nju_personal_assistant.Domain.Enums.{
  ContextLayer, Sensitivity, secret, TrustLevel, sensitivity_eq,
}
use nju_personal_assistant.Domain.Errors.{Result, ok, raise, bind, reject_if, validation_error}
use nju_personal_assistant.Domain.Text.{is_blank, text_length}
use nju_personal_assistant.Domain.Values.{Value}
use nju_personal_assistant.Approvals.Service.{Datetime, aware, naive}

pub data EvidenceState : Type 0 where
  current stale deleted : EvidenceState

pub record Evidence : Type 0 where
  pub id : String
  pub content : String
  pub source_uri : String
  pub locator : Value
  pub content_hash : String
  pub source_version : String
  pub observed_at : Datetime
  pub producer_extension_id : String
  pub producer_extension_version : String
  pub sensitivity : Sensitivity
  pub trust : TrustLevel
  pub state : EvidenceState
  pub valid_from : Option Datetime
  pub valid_until : Option Datetime
  pub derived_from : List String

is_naive : Datetime → Bool
is_naive (naive t) = true
is_naive (aware t) = false

-- `Evidence.__post_init__`
unfoldable pub check_evidence : Evidence → Result (Unit {0})
unfolding is_naive
check_evidence e =
    bind
      (reject_if
        (any is_blank (
          e.id ∷ e.source_uri ∷ e.content_hash ∷ e.source_version ∷ e.producer_extension_id
          ∷ e.producer_extension_version ∷ []))
        validation_error "evidence identity and provenance fields are required")
      (λ _.
        reject_if (is_naive e.observed_at) validation_error "observed_at must be timezone-aware")

pub record ContextRequest : Type 0 where
  pub task_id : String
  pub purpose : String
  pub query : String
  pub max_chars : ℕ
  pub allowed_sensitivity : List Sensitivity

-- `ContextRequest.__post_init__`
unfoldable pub check_request : ContextRequest → Result (Unit {0})
check_request r =
    if r.task_id == "" || is_blank r.purpose || is_blank r.query
    then raise validation_error "task_id, purpose and query are required"
    else if ltb r.max_chars 1
    then raise validation_error "max_chars must be positive"
    else if contains secret r.allowed_sensitivity
    then raise validation_error "SECRET may not be composed into model context"
    else ok tt

pub record ContextSection : Type 0 where
  pub layer : ContextLayer
  pub content : String
  pub source_ids : List String
  pub untrusted_data : Bool

pub record ComposedContext : Type 0 where
  pub sections : List ContextSection
  pub evidence : List Evidence
  pub omitted_evidence_ids : List String
  pub warnings : List String

unfoldable pub sum_lengths : List ContextSection → ℕ
sum_lengths [] = 0
sum_lengths (s ∷ l) = text_length s.content + sum_lengths l

-- `character_count`
unfoldable pub character_count : ComposedContext → ℕ
unfolding sum_lengths
character_count c = sum_lengths c.sections
