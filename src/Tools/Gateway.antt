-- ===== src/Tools/Gateway.antt =====
-- `ToolGateway.invoke` of src/personal_assistant/core/tools/gateway.py. The validator of schemas is an
-- argument too.
use nju_personal_assistant.Base.{
  ℕ, String, Bool, true, false, [], ◌∷◌, Option, none, some, not, if◌then◌else◌,
}
use nju_personal_assistant.Domain.Enums.{approval_required}
use nju_personal_assistant.Domain.Errors.{
  Result, ok, err, raise, bind, concat, error_code, class_name, is_domain_error, validation_error,
}
use nju_personal_assistant.Domain.Exec.{Exec, pure, lift, throw, ◌>>=◌, ◌>>◌}
use nju_personal_assistant.Domain.Models.{
  ToolDescriptor, ToolCall, ToolOutcome, outcome_of, outcome_failed,
}
use nju_personal_assistant.Domain.Values.{pos, Value, null, object, field, end, name}
use nju_personal_assistant.Approvals.Canonical.{canonical_sha256}
use nju_personal_assistant.Approvals.Binding.{
  ApprovalBinding, check_binding, envelope, text_or_null,
}
use nju_personal_assistant.Approvals.Service.{
  prepare, consume_for_execution, aware, max_approval_ttl, or_default,
}
use nju_personal_assistant.Jobs.Outbox.{SideEffectIntent, Outbox, prepared}
use nju_personal_assistant.Tools.Policy.{check, is_external}
use nju_personal_assistant.Tools.Registry.{RegistrySnapshot, resolve}
use nju_personal_assistant.Tools.Sanitizer.{sanitize_result}
use nju_personal_assistant.Tools.Host.{
  ToolExecutionContext, Host, Answer, Environment, returned, definitive_failure, other_error,
  on_approvals, append_event, call_executor,
}
use nju_personal_assistant.Tools.Endings.{event_of, conclude}

is_null : Value → Bool
is_null null = true
is_null _ = false

unfoldable pub binding_of : ToolDescriptor → ToolCall → ApprovalBinding
unfolding or_default
binding_of d call = record {
  action_type = d.id;
  task_id = call.task_id;
  tool_id = d.id;
  tool_version = d.version;
  extension_id = d.extension_id;
  extension_version = or_default d.extension_version d.version;
  target = call.target;
  payload = call.arguments;
  attachments = call.attachments;
  form_version = call.form_version;
}

-- A binding for an external tool, none for another.
unfoldable pub approval_binding : ToolDescriptor → ToolCall → Result (Option ApprovalBinding)
unfolding is_null binding_of check_binding
approval_binding d call =
    if not (is_external d.risk)
    then ok none
    else if is_null call.target
    then raise validation_error "R2 external writes require an explicit target"
    else bind (check_binding (binding_of d call)) (λ _. ok (some (binding_of d call)))

notice : Option Bool → String
notice (some false) =
    "exact approval is required before this action; notification delivery is unconfirmed"
notice _ = "exact approval is required before this action"

-- `except DomainError as exc: return ToolOutcome.failed(f"{exc.code}: {exc}")`
unfoldable pub or_failed {α} :
    {R : Type α} → Result R → (R → Exec Host ToolOutcome) → Exec Host ToolOutcome
unfolding is_domain_error error_code concat
or_failed (ok r) rest = rest r
or_failed (err e) rest =
    if is_domain_error e.cls
    then pure (outcome_failed (concat (error_code e.cls ∷ ": " ∷ e.message ∷ [])) false)
    else throw e

unfoldable pub execution_context : Environment → ToolCall → ToolExecutionContext
unfolding or_default
execution_context env call = record {
  attempt_id = env.attempt_id;
  task_id = call.task_id;
  idempotency_key = or_default call.idempotency_key (or_default call.approval_id env.attempt_id);
  approval_id = call.approval_id;
}

module _ (sha256 : String → String) (show_timeout : ℕ → String)
    (validate : Value → Value → Result (Unit {0})) (outbox : Option (Outbox Host)) where
  -- What precedes the approval, in one `try`.
  unfoldable pub checked :
      RegistrySnapshot → Environment → ToolCall → Result (ToolDescriptor × Option ApprovalBinding)
  unfolding resolve check approval_binding
  checked snapshot env call = bind (resolve snapshot call.tool_id call.tool_version) (λ d.
      bind (validate call.arguments d.input_schema) (λ _.
        bind (check env.policy_before d call)
          (λ _. bind (approval_binding d call) (λ b. ok (d, b)))))

  -- The result of an executor that returned is made plain, bounded and validated.
  unfoldable pub received : ToolDescriptor → Result Value → Answer
  unfolding class_name
  received d (err e) = other_error (class_name e.cls)
  received d (ok v) = elim (validate v d.output_schema) [
    | ok _ ↦ returned v
    | err e ↦ other_error (class_name e.cls)
  ]

  unfoldable pub ending : ToolDescriptor → Answer → Answer
  unfolding received sanitize_result
  ending d (returned v) = received d (sanitize_result v)
  ending d answer = answer

  module _ (env : Environment) (d : ToolDescriptor) (call : ToolCall) where
    unfoldable pub after_second_check :
        Result (Unit {0}) → Option SideEffectIntent → Exec Host ToolOutcome
    unfolding conclude call_executor ending execution_context
    after_second_check (err e) intent h =
        conclude outbox env d call sha256 show_timeout
          (definitive_failure "host policy changed before execution" false) intent h
    after_second_check (ok _) intent h =
        conclude outbox env d call sha256 show_timeout (ending d env.answer) intent
          (call_executor (execution_context env call) env.meanwhile h)

    unfoldable pub execute : Option SideEffectIntent → Exec Host ToolOutcome
    unfolding after_second_check append_event event_of text_or_null check
    execute intent =
        append_event (
          event_of env d call "INTENT_RECORDED" env.start_time
            (object (field (name "approval_id") (text_or_null call.approval_id) end)))
        >> after_second_check (check env.policy_after d call) intent

    side_effect_intent : ApprovalBinding → Result SideEffectIntent
    unfolding canonical_sha256 or_default
    side_effect_intent b = bind (canonical_sha256 sha256 call.arguments) (λ payload.
        bind (canonical_sha256 sha256 (envelope b)) (λ action. ok (record {
          id = env.intent_id;
          task_id = call.task_id;
          tool_id = d.id;
          idempotency_key =
              or_default call.idempotency_key (or_default call.approval_id env.intent_key);
          approval_id = or_default call.approval_id "";
          canonical_payload_sha256 = payload;
          state = prepared;
          created_at = env.start_time;
          action_fingerprint = action;
        })))

    unfoldable pub request_approval : ApprovalBinding → Exec Host ToolOutcome
    unfolding on_approvals prepare notice
    request_approval b = do
      r ← on_approvals (
          prepare sha256 b env.new_approval_id env.new_nonce (aware env.start_time)
            (pos max_approval_ttl))
      pure (record (outcome_of approval_required) {
        approval_id = some r.id;
        reference_id = some r.id;
        message = some (notice env.delivered);
      })

    -- The approval is consumed, by the outbox where there is one.
    unfoldable pub consume : String → ApprovalBinding → Exec Host (Option SideEffectIntent)
    unfolding on_approvals consume_for_execution side_effect_intent
    consume i b = elim outbox [
      | none ↦ on_approvals (consume_for_execution sha256 i b env.start_time) >> pure none
      | some o ↦
          (lift (side_effect_intent b) >>= λ s.
          o.create_with_approval_consumption s >> pure (some s))
    ]

    unfoldable pub consumed : Result (Option SideEffectIntent) × Host → Result ToolOutcome × Host
    unfolding execute or_failed
    consumed (r, h) = or_failed r execute h

    -- An external call asks for an approval, or uses the one that it names.
    unfoldable pub by_approval : Option String → ApprovalBinding → Exec Host ToolOutcome
    unfolding request_approval consumed consume
    by_approval none b h = request_approval b h
    by_approval (some i) b h = consumed (consume i b h)

    -- A binding is there exactly for an external tool.
    unfoldable pub dispatch : Option ApprovalBinding → Exec Host ToolOutcome
    unfolding execute by_approval
    dispatch none h = execute none h
    dispatch (some b) h = by_approval call.approval_id b h

  unfoldable pub dispatch_checked :
      Environment → ToolCall → ToolDescriptor × Option ApprovalBinding → Exec Host ToolOutcome
  unfolding dispatch
  dispatch_checked env call (d, b) = dispatch env d call b

  unfoldable pub invoke : RegistrySnapshot → Environment → ToolCall → Exec Host ToolOutcome
  unfolding checked dispatch_checked or_failed
  invoke snapshot env call = or_failed (checked snapshot env call) (dispatch_checked env call)
