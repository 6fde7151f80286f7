-- ===== src/Approvals/OutboxTests.antt =====
-- The outbox at concrete inputs: one approval, two intents that want it.
use nju_personal_assistant.Base.{
  String, List, [], ◌∷◌, none, lookup, insert, string_eq, pair_eq, ◌≡◌, refl,
}
use nju_personal_assistant.Domain.Errors.{Result, ok}
use nju_personal_assistant.Domain.Values.{pos, text, Fields, end, field, name, null}
use nju_personal_assistant.Jobs.Outbox.{SideEffectIntent, prepared}
use nju_personal_assistant.Approvals.Binding.{ApprovalBinding, envelope}
use nju_personal_assistant.Domain.Text.{is_blank}
use nju_personal_assistant.Approvals.Record.{save}
use nju_personal_assistant.Approvals.Follows.{approve_request}
use nju_personal_assistant.Approvals.Service.{aware, approve_plan}
use nju_personal_assistant.Approvals.Interleaving.{Distinct}
use nju_personal_assistant.Approvals.MemoryOutbox.{Times}
use nju_personal_assistant.Approvals.Refinement.{Reachable}
use nju_personal_assistant.Approvals.Operations.{
  Operation, prepare_call, client_call, create_call, carry_out_all, fresh_trace,
}
use nju_personal_assistant.Approvals.Simulation.{carry_out_all-Reachable, carry_out_all-Distinct}

abbrev digest : String → String
digest s = "h"

abbrev binding : ApprovalBinding
binding = record {
  action_type = "mail.send";
  task_id = "t";
  tool_id = "mail.send";
  tool_version = "1";
  extension_id = "mail";
  extension_version = "1";
  target = text "a@b";
  payload = null;
  attachments = [];
  form_version = none;
}

-- What the stored action reads back as
abbrev loaded : String → Result Fields
loaded s = ok (
    field (name "action_type") (text "mail.send") (
      field (name "task_id") (text "t") (
        field (name "tool_id") (text "mail.send") (
          field (name "tool_version") (text "1") (
            field (name "extension_id") (text "mail") (
              field (name "extension_version") (text "1")
                (field (name "target") (text "a@b") end)))))))

abbrev at : Times
at = record { read_at = 20; rejected_at = 21; consumed_at = 22 }

abbrev intent : String → String → SideEffectIntent
intent id key = record {
  id = id;
  task_id = "t";
  tool_id = "mail.send";
  idempotency_key = key;
  approval_id = "a";
  canonical_payload_sha256 = "h";
  state = prepared;
  created_at = 20;
  action_fingerprint = "h";
}

abbrev operations : List Operation
operations =
    prepare_call binding "a" "n" (aware 0) (pos 1000)
    ∷ client_call (approve_request "n" "owner" 10) "a"
    ∷ create_call at (intent "i1" "k1")
    ∷ create_call at (intent "i2" "k2")
    ∷ []

-- The second intent is refused.
consumed_once : (carry_out_all digest loaded operations fresh_trace).consumed ≡ "a" ∷ []
unfolding carry_out_all lookup insert envelope approve_plan is_blank save
consumed_once = refl

carry_out_all-Reachable_example :
    Reachable
      (carry_out_all digest loaded operations fresh_trace).ledger.approvals
      (carry_out_all digest loaded operations fresh_trace).consumed
carry_out_all-Reachable_example = carry_out_all-Reachable digest loaded operations

carry_out_all-Distinct_example :
    Distinct (carry_out_all digest loaded operations fresh_trace).consumed
carry_out_all-Distinct_example = carry_out_all-Distinct digest loaded operations
