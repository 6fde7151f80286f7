-- ===== src/Jobs/Outbox.antt =====
-- src/personal_assistant/core/jobs/outbox.py
use nju_personal_assistant.Base.{ℕ, String, Bool, true, false, Option}
use nju_personal_assistant.Domain.Exec.{Exec}

pub data SideEffectState : Type 0 where
  prepared executing succeeded failed unknown : SideEffectState

unfoldable pub side_effect_terminal : SideEffectState → Bool
side_effect_terminal prepared = false
side_effect_terminal executing = false
side_effect_terminal _ = true

pub record SideEffectIntent : Type 0 where
  pub id : String
  pub task_id : String
  pub tool_id : String
  pub idempotency_key : String
  pub approval_id : String
  pub canonical_payload_sha256 : String
  pub state : SideEffectState
  pub created_at : ℕ
  pub action_fingerprint : String

-- What `finalize` records.
pub record Finalization : Type 0 where
  pub state : SideEffectState
  pub result_reference : Option String
  pub failure_reason : Option String
  pub diagnostic_code : Option String

-- `SideEffectOutboxPort`: the production adapter is a database, and an argument of the gateway.
pub record Outbox (S : Type 0) : Type 0 where
  pub create_with_approval_consumption : SideEffectIntent → Exec S (Unit {0})
  pub finalize : String → String → Finalization → Exec S (Unit {0})
