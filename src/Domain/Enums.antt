-- ===== src/Domain/Enums.antt =====
-- src/personal_assistant/domain/enums.py
use nju_personal_assistant.Base.{ℕ, String, Bool, true, false, ◌≡◌, ◌↔◌, arith, HasEq, ◌==◌, nat_eq}

pub data RiskLevel : Type 0 where
  read internal_write external_write prohibited : RiskLevel

unfoldable pub code : RiskLevel → String
code read = "R0"
code internal_write = "R1"
code external_write = "R2"
code prohibited = "R3"

pub data RetryPolicy : Type 0 where
  no_retry idempotent_only : RetryPolicy

-- WAITING_EXTENSION is an alias of PAUSED_EXTENSION.
pub data TaskState : Type 0 where
  created queued running waiting_user waiting_approval waiting_reconciliation : TaskState
  paused_safety paused_extension succeeded failed cancelled : TaskState

pub TaskState-discrete : Discrete TaskState
TaskState-discrete = hlevel

pub data ToolOutcomeKind : Type 0 where
  success approval_required user_action_required extension_unavailable : ToolOutcomeKind
  outcome_unknown safety_pause failure : ToolOutcomeKind

pub data ApprovalState : Type 0 where
  draft prepared waiting_approval approved executing : ApprovalState
  succeeded failed unknown expired cancelled : ApprovalState

pub ApprovalState-discrete : Discrete ApprovalState
ApprovalState-discrete = hlevel

pub data ContextLayer : Type 0 where
  policy workflow approved_rule task_working_set retrieved_evidence : ContextLayer
  episodic_summary tool_observation : ContextLayer

pub data Sensitivity : Type 0 where
  public personal sensitive secret : Sensitivity

pub data TrustLevel : Type 0 where
  user_source official_source external_message model_generated inferred tool_output : TrustLevel

-- `TaskState.terminal`
unfoldable pub task_terminal : TaskState → Bool
task_terminal TaskState.succeeded = true
task_terminal TaskState.failed = true
task_terminal TaskState.cancelled = true
task_terminal _ = false

-- `ApprovalState.terminal`
unfoldable pub approval_terminal : ApprovalState → Bool
approval_terminal ApprovalState.succeeded = true
approval_terminal ApprovalState.failed = true
approval_terminal unknown = true
approval_terminal expired = true
approval_terminal ApprovalState.cancelled = true
approval_terminal _ = false

-- The persisted values.
pub task_value : TaskState → String
task_value created = "CREATED"
task_value queued = "QUEUED"
task_value running = "RUNNING"
task_value waiting_user = "WAITING_USER"
task_value TaskState.waiting_approval = "WAITING_APPROVAL"
task_value waiting_reconciliation = "WAITING_RECONCILIATION"
task_value paused_safety = "PAUSED_SAFETY"
task_value paused_extension = "PAUSED_EXTENSION"
task_value TaskState.succeeded = "SUCCEEDED"
task_value TaskState.failed = "FAILED"
task_value TaskState.cancelled = "CANCELLED"

pub approval_value : ApprovalState → String
approval_value draft = "DRAFT"
approval_value prepared = "PREPARED"
approval_value ApprovalState.waiting_approval = "WAITING_APPROVAL"
approval_value approved = "APPROVED"
approval_value executing = "EXECUTING"
approval_value ApprovalState.succeeded = "SUCCEEDED"
approval_value ApprovalState.failed = "FAILED"
approval_value unknown = "UNKNOWN"
approval_value expired = "EXPIRED"
approval_value ApprovalState.cancelled = "CANCELLED"

pub risk_value : RiskLevel → String
risk_value read = "READ"
risk_value internal_write = "INTERNAL_WRITE"
risk_value external_write = "EXTERNAL_WRITE"
risk_value prohibited = "PROHIBITED"

-- `is` and `in` on members: each has its place in its enumeration.
abbrev pub task_place : TaskState → ℕ
task_place created = 0
task_place queued = 1
task_place running = 2
task_place waiting_user = 3
task_place TaskState.waiting_approval = 4
task_place waiting_reconciliation = 5
task_place paused_safety = 6
task_place paused_extension = 7
task_place TaskState.succeeded = 8
task_place TaskState.failed = 9
task_place TaskState.cancelled = 10

abbrev pub approval_place : ApprovalState → ℕ
approval_place draft = 0
approval_place prepared = 1
approval_place ApprovalState.waiting_approval = 2
approval_place approved = 3
approval_place executing = 4
approval_place ApprovalState.succeeded = 5
approval_place ApprovalState.failed = 6
approval_place unknown = 7
approval_place expired = 8
approval_place ApprovalState.cancelled = 9

pub task_place_iff : (s t : TaskState) → ((task_place s == task_place t) ≡ true) ↔ (s ≡ t)
task_place_iff s t = ground arith

pub approval_place_iff :
    (s t : ApprovalState) → ((approval_place s == approval_place t) ≡ true) ↔ (s ≡ t)
approval_place_iff s t = ground arith

instance abbrev pub task_state_eq : HasEq TaskState
task_state_eq = record { equal = λ s t. task_place s == task_place t; equal_iff = task_place_iff }

instance abbrev pub approval_state_eq : HasEq ApprovalState
approval_state_eq = record {
  equal = λ s t. approval_place s == approval_place t;
  equal_iff = approval_place_iff;
}

unfoldable pub trust_value : TrustLevel → String
trust_value user_source = "USER_SOURCE"
trust_value official_source = "OFFICIAL_SOURCE"
trust_value external_message = "EXTERNAL_MESSAGE"
trust_value model_generated = "MODEL_GENERATED"
trust_value inferred = "INFERRED"
trust_value tool_output = "TOOL_OUTPUT"

abbrev sensitivity_place : Sensitivity → ℕ
sensitivity_place public = 0
sensitivity_place personal = 1
sensitivity_place sensitive = 2
sensitivity_place secret = 3

pub sensitivity_place_iff :
    (s t : Sensitivity) → ((sensitivity_place s == sensitivity_place t) ≡ true) ↔ (s ≡ t)
sensitivity_place_iff s t = ground arith

instance abbrev pub sensitivity_eq : HasEq Sensitivity
sensitivity_eq = record {
  equal = λ s t. sensitivity_place s == sensitivity_place t;
  equal_iff = sensitivity_place_iff;
}
