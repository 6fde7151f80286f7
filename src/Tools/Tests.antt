-- ===== src/Tools/Tests.antt =====
-- Tools at concrete inputs: an external tool that is called with an approval, and times out.
use nju_personal_assistant.Base.{
  ℕ, String, true, false, ◌≡◌, ◌≢◌, ap, refl, arith, [], ◌∷◌, none, some, insert, lookup, length,
  string_eq, pair_eq,
}
use nju_personal_assistant.Domain.Enums.{
  read, executing, approved, external_write, prohibited, no_retry,
}
use nju_personal_assistant.Domain.Errors.{Result, Error, ok, err}
use nju_personal_assistant.Domain.Text.{is_blank}
use nju_personal_assistant.Domain.Values.{Value, null, text}
use nju_personal_assistant.Domain.Models.{ToolDescriptor, ToolCall, ToolOutcome}
use nju_personal_assistant.Approvals.Canonical.{canonical_json, canonical_sha256}
use nju_personal_assistant.Approvals.Binding.{envelope, check_binding}
use nju_personal_assistant.Approvals.Record.{ApprovalRecord, find, get, save}
use nju_personal_assistant.Approvals.Service.{consume_for_execution, consume_plan, settle}
use nju_personal_assistant.Tools.Policy.{ToolPolicy, check, missing}
use nju_personal_assistant.Tools.Registry.{RegistrySnapshot, empty, resolve, stage, publish}
use nju_personal_assistant.Tools.Permission.{Permitted, check-Permitted}
use nju_personal_assistant.Tools.Host.{
  Host, Environment, timed_out, on_approvals, append_event, call_executor,
}
use nju_personal_assistant.Tools.Gateway.{
  invoke, checked, dispatch, dispatch_checked, by_approval, consume, consumed, or_failed, execute,
  after_second_check, binding_of, approval_binding, ending,
}
use nju_personal_assistant.Tools.Endings.{conclude}
use nju_personal_assistant.Tools.Invocation.{RanOnce}
use nju_personal_assistant.Tools.Safety.{
  invoke-RanOnce, invoke_prohibited, invoke_not_retryable, invoke-Authorisation, Authorisation,
}

abbrev send : ToolDescriptor
send = record {
  id = "smail.send";
  version = "1";
  extension_id = "nju.smail";
  input_schema = null;
  output_schema = null;
  risk = external_write;
  extension_version = some "1.0.0";
  required_capabilities = "mail" ∷ [];
  timeout = 30000000;
  retry_policy = no_retry;
  data_classes_in = [];
  data_classes_out = [];
}

-- The same tool, prohibited.
abbrev forbidden : ToolDescriptor
forbidden = record send { risk = prohibited }

abbrev call : ToolCall
call = record {
  tool_id = "smail.send";
  tool_version = "1";
  arguments = null;
  task_id = "t1";
  target = text "a";
  attachments = [];
  granted_capabilities = "mail" ∷ [];
  workflow_allowed_tools = "smail.send" ∷ [];
  approval_id = some "a1";
  idempotency_key = none;
  form_version = none;
}

abbrev policy : ToolPolicy
policy = record { external_writes_enabled = true; frozen = false }

abbrev digest : String → String
digest s = s

abbrev show_timeout : ℕ → String
show_timeout t = "30"

abbrev accept : Value → Value → Result (Unit {0})
accept value schema = ok tt

abbrev granted : ApprovalRecord
granted = record {
  id = "a1";
  state = approved;
  action_fingerprint =
      "{\"action_type\":\"smail.send\",\"attachments\":[],\"extension_id\":\"nju.smail\",\"extension_version\":\"1.0.0\",\"form_version\":null,\"payload\":null,\"target\":\"a\",\"task_id\":\"t1\",\"tool_id\":\"smail.send\",\"tool_version\":\"1\"}";
  canonical_action = "";
  nonce = "n";
  created_at = 0;
  expires_at = 100;
  version = 1;
  approved_at = some 2;
  approved_by = some "me";
  consumed_at = none;
  completed_at = none;
  result_reference = none;
  failure_reason = none;
}

abbrev host : Host
host = record { approvals = record { records = ("a1", granted) ∷ [] }; audit = []; executions = [] }

abbrev environment : Environment
environment = record {
  policy_before = policy;
  policy_after = policy;
  start_time = 50;
  end_time = 60;
  new_approval_id = "a2";
  new_nonce = "m";
  intent_id = "i1";
  intent_key = "k1";
  attempt_id = "x1";
  delivered = none;
  answer = timed_out;
  meanwhile = λ repo. repo;
}

abbrev holding : ToolDescriptor → RegistrySnapshot
holding d = record { generation = 1; tools = (("smail.send", "1"), d) ∷ [] }

permitted : check policy send call ≡ ok tt
unfolding check missing
permitted = refl

check-Permitted_example : Permitted policy send call
check-Permitted_example = check-Permitted policy send call permitted

publish_runs : (publish (send ∷ []) empty).0 ≡ ok (holding send)
unfolding publish stage insert lookup
publish_runs = refl

publish_fails : (e : Error) × ((publish (send ∷ send ∷ []) empty).0 ≡ err e)
unfolding publish stage insert lookup
publish_fails = (_, refl)

publish_keeps : (publish (send ∷ send ∷ []) empty).1 ≡ empty
unfolding publish stage insert lookup
publish_keeps = refl

invoke-RanOnce_example :
    RanOnce environment call host
      (invoke digest show_timeout accept none (holding send) environment call host).1
invoke-RanOnce_example =
    invoke-RanOnce digest show_timeout accept environment (holding send) call host

resolve_send : (d : ToolDescriptor) → resolve (holding d) "smail.send" "1" ≡ ok d
unfolding resolve lookup
resolve_send d = refl

invoke_prohibited_example :
    (invoke digest show_timeout accept none (holding forbidden) environment call host).1 ≡ host
invoke_prohibited_example =
    invoke_prohibited digest show_timeout accept environment none (holding forbidden) forbidden call
      host (resolve_send forbidden) refl

-- The call runs, and its timeout leaves the approval unknown.
invoke_runs :
    (length
        (invoke digest show_timeout accept none (holding send) environment call host).1.executions
      ≡ 1)
    × ((o : ToolOutcome) × ((invoke digest show_timeout accept none
            (holding send)
            environment
            call
            host).0
          ≡ ok o))
unfolding invoke or_failed checked resolve lookup check missing approval_binding check_binding
    is_blank binding_of dispatch_checked dispatch by_approval consume on_approvals
    consume_for_execution consume_plan settle get save find insert canonical_sha256 canonical_json
    envelope consumed execute after_second_check append_event call_executor ending conclude
invoke_runs = (refl, (_, refl))

invoke_not_retryable_example : invoke_runs.1.0.retryable ≡ false
invoke_not_retryable_example =
    invoke_not_retryable digest show_timeout accept environment none (holding send) send call host
      invoke_runs.1.0 (resolve_send send) refl invoke_runs.1.1

has_run :
    (invoke digest show_timeout accept none (holding send) environment call host).1.executions
    ≢ host.executions
has_run e = ground (arith, invoke_runs.0, ap length e)

invoke-Authorisation_example :
    (i : String) × (call.approval_id ≡ some i)
    × Authorisation digest show_timeout accept environment
        (holding send)
        send
        call
        host
        (binding_of send call)
        i
invoke-Authorisation_example =
    invoke-Authorisation digest show_timeout accept environment (holding send) send call host
      (resolve_send send) refl has_run

abbrev search : ToolDescriptor
search = record send { risk = read }

abbrev running : ApprovalRecord
running = record granted { state = executing }

abbrev busy : Host
busy = record host { approvals = record { records = ("a1", running) ∷ [] } }

find-running : find "a1" busy.approvals ≡ some running
unfolding find lookup
find-running = refl
