-- ===== src/Approvals/Follows.antt =====
-- What a plan may write over the copy that was read.
use nju_personal_assistant.Base.{ℕ, String, Bool, true, ◌≡◌, arith, Option, none, some, contains}
use nju_personal_assistant.Domain.Enums.{ApprovalState, approval_state_eq}
use nju_personal_assistant.Domain.Errors.{Result}
use nju_personal_assistant.Approvals.StateMachine.{allowed_approval_transitions}
use nju_personal_assistant.Approvals.Record.{ApprovalRecord}
use nju_personal_assistant.Approvals.Service.{
  Plan, keep, refuse, write, write_then_raise, get_plan, approve_plan, reject_plan, consume_plan,
  finish_plan,
}

-- The methods of the service that act on a stored approval.
pub data Request : Type 0 where
  get_request : Bool → ℕ → Request
  approve_request : String → String → ℕ → Request
  reject_request : ℕ → Option String → Request
  consume_request : Result String → ℕ → Request
  finish_request : ApprovalState → ℕ → Option String → Option String → Request

unfoldable pub plan_of : Request → ApprovalRecord → Plan
plan_of (get_request refresh now) = get_plan refresh now
plan_of (approve_request nonce actor now) = approve_plan nonce actor now
plan_of (reject_request now reason) = reject_plan now reason
plan_of (consume_request presented now) = consume_plan presented now
plan_of (finish_request target now reference reason) = finish_plan target now reference reason

abbrev pub written : Plan → Option ApprovalRecord
written keep = none
written (refuse e) = none
written (write new) = some new
written (write_then_raise new e) = some new

-- The state moves along the table, and what identifies the approved action stays as it is.
pub record Follows (old new : ApprovalRecord) : Type 0 where
  pub allowed : contains new.state (allowed_approval_transitions old.state) ≡ true
  pub same_id : new.id ≡ old.id
  pub same_version : new.version ≡ old.version
  pub same_fingerprint : new.action_fingerprint ≡ old.action_fingerprint
  pub same_action : new.canonical_action ≡ old.canonical_action
  pub same_nonce : new.nonce ≡ old.nonce
  pub same_expiry : new.expires_at ≡ old.expires_at

pub plan_of-Follows :
    (q : Request) (old new : ApprovalRecord) → written (plan_of q old) ≡ some new → Follows old new
unfolding plan_of get_plan approve_plan reject_plan consume_plan finish_plan
plan_of-Follows (get_request refresh now) old new h = ground arith
plan_of-Follows (approve_request nonce actor now) old new h = ground arith
plan_of-Follows (reject_request now reason) old new h = ground arith
plan_of-Follows (consume_request presented now) old new h = ground arith
plan_of-Follows (finish_request target now reference reason) old new h = ground arith
