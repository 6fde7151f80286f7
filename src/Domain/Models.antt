-- ===== src/Domain/Models.antt =====
-- src/personal_assistant/domain/models.py. `check_…` are the `__post_init__` methods; a count that
-- cannot be negative is a natural number, so its own check is left out. A datetime is an aware
-- instant in microseconds; `None` as a result or a target is `Value.null`. Timeouts, floats in the
-- source, are in microseconds.
use nju_personal_assistant.Base.{
  ℕ, String, Bool, false, List, Option, none, some, not, leb, ltb, ◌==◌, nat_eq, string_eq, ◌&&◌,
  ◌||◌, if◌then◌else◌,
}
use nju_personal_assistant.Domain.Enums.{
  RiskLevel, RetryPolicy, TaskState, ToolOutcomeKind, success, failure, outcome_unknown,
}
use nju_personal_assistant.Domain.Errors.{Result, ok, validation_error, raise, bind, reject_if}
use nju_personal_assistant.Domain.Text.{is_blank, to_lower, text_length, all_chars}
use nju_personal_assistant.Domain.Values.{ℤ, pos, negsuc, Value, null}

pub record AttachmentDigest : Type 0 where
  pub name : String
  pub sha256 : String
  pub size_bytes : ℕ

-- ch in "0123456789abcdef"
unfoldable pub is_hex : ℕ → Bool
is_hex c = (leb b'0' c && leb c b'9') || (leb b'a' c && leb c b'f')

-- The digest is stored in lower case.
unfoldable pub make_attachment : String → String → ℤ → Result AttachmentDigest
unfolding is_hex
make_attachment name sha256 (negsuc n) =
    if name == ""
    then raise validation_error "attachment name is required"
    else let digest = to_lower sha256 in
      if not (text_length digest == 64) || not (all_chars is_hex digest)
      then raise validation_error "attachment sha256 must be 64 hexadecimal characters"
      else raise validation_error "attachment size_bytes cannot be negative"
make_attachment name sha256 (pos n) =
    if name == ""
    then raise validation_error "attachment name is required"
    else let digest = to_lower sha256 in
      if not (text_length digest == 64) || not (all_chars is_hex digest)
      then raise validation_error "attachment sha256 must be 64 hexadecimal characters"
      else ok (record { name = name; sha256 = digest; size_bytes = n })

pub record ToolDescriptor : Type 0 where
  pub id : String
  pub version : String
  pub extension_id : String
  pub input_schema : Value
  pub output_schema : Value
  pub risk : RiskLevel
  pub extension_version : Option String
  pub required_capabilities : List String
  pub timeout : ℕ
  pub retry_policy : RetryPolicy
  pub data_classes_in : List String
  pub data_classes_out : List String

with_extension_version : Option String → ToolDescriptor → Result ToolDescriptor
with_extension_version none d = ok (record d { extension_version = some d.version })
with_extension_version (some v) d =
    if is_blank v then raise validation_error "extension_version cannot be blank" else ok d

-- A descriptor without an extension version is bound to its tool version.
unfoldable pub check_descriptor : ToolDescriptor → Result ToolDescriptor
unfolding with_extension_version
check_descriptor d =
    if is_blank d.id
    then raise validation_error "tool id is required"
    else if is_blank d.version
    then raise validation_error "tool version is required"
    else if is_blank d.extension_id
    then raise validation_error "tool extension_id is required"
    else if leb d.timeout 0
    then raise validation_error "tool timeout_seconds must be positive"
    else if ltb 900000000 d.timeout
    then raise validation_error "tool timeout_seconds cannot exceed 15 minutes"
    else with_extension_version d.extension_version d

pub record ToolCall : Type 0 where
  pub tool_id : String
  pub tool_version : String
  pub arguments : Value
  pub task_id : String
  pub target : Value
  pub attachments : List AttachmentDigest
  pub granted_capabilities : List String
  pub workflow_allowed_tools : List String
  pub approval_id : Option String
  pub idempotency_key : Option String
  pub form_version : Option String

unfoldable pub check_call : ToolCall → Result (Unit {0})
check_call c =
    reject_if (c.tool_id == "" || c.tool_version == "" || c.task_id == "") validation_error
      "tool_id, tool_version and task_id are required"

pub record ToolOutcome : Type 0 where
  pub kind : ToolOutcomeKind
  pub result : Value
  pub message : Option String
  pub reference_id : Option String
  pub approval_id : Option String
  pub extension_id : Option String
  pub retryable : Bool

abbrev pub outcome_of : ToolOutcomeKind → ToolOutcome
outcome_of kind = record {
  kind = kind;
  result = null;
  message = none;
  reference_id = none;
  approval_id = none;
  extension_id = none;
  retryable = false;
}

abbrev pub outcome_success : Value → ToolOutcome
outcome_success result = record (outcome_of success) { result = result }

abbrev pub outcome_failed : String → Bool → ToolOutcome
outcome_failed message retryable = record (outcome_of failure) {
  message = some message;
  retryable = retryable;
}

abbrev pub outcome_unknown_at : String → Option String → ToolOutcome
outcome_unknown_at reference_id message = record (outcome_of outcome_unknown) {
  message = message;
  reference_id = some reference_id;
}

pub record TaskRun : Type 0 where
  pub id : String
  pub task_id : String
  pub objective : String
  pub state : TaskState
  pub version : ℕ
  pub segment_number : ℕ
  pub active_started_at : ℕ
  pub updated_at : ℕ
  pub consecutive_errors : ℕ
  pub no_progress_rounds : ℕ
  pub same_call_without_progress : ℕ
  pub last_call_fingerprint : Option String
  pub last_observation_fingerprint : Option String
  pub waiting_reference : Option String
  pub pause_reason : Option String

unfoldable pub check_run : TaskRun → Result (Unit {0})
check_run r =
    bind
      (reject_if (r.id == "" || r.task_id == "" || is_blank r.objective) validation_error
        "run id, task_id and objective are required")
      (λ _.
        reject_if (ltb r.segment_number 1) validation_error "invalid run version or segment number")
