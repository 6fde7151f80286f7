-- ===== src/Agent/DecisionTests.antt =====
-- Proposals of a model, validated against one tool.
use nju_personal_assistant.Base.{[], ◌∷◌, none, some, lookup, insert, string_eq, pair_eq, ◌≡◌, refl}
use nju_personal_assistant.Domain.Enums.{read, idempotent_only}
use nju_personal_assistant.Domain.Errors.{Result, ok, raise, type_error}
use nju_personal_assistant.Domain.Models.{ToolDescriptor, ToolCall}
use nju_personal_assistant.Domain.Values.{Value, null, text, array, object, nil, end, field, name}
use nju_personal_assistant.Agent.Decisions.{
  ValidatedDecision, call_tool, Grants, by_tool, make_validator, validate,
}
use nju_personal_assistant.Agent.Authority.{IsHostBound, validate-IsHostBound}

abbrev accept : Value → Value → Result (Unit {0})
accept value schema = ok tt

abbrev search : ToolDescriptor
search = record {
  id = "kb.search";
  version = "1";
  extension_id = "kb";
  input_schema = null;
  output_schema = null;
  risk = read;
  extension_version = some "1";
  required_capabilities = "kb" ∷ [];
  timeout = 1000000;
  retry_policy = idempotent_only;
  data_classes_in = [];
  data_classes_out = [];
}

abbrev grants : Grants
grants = by_tool (("kb.search", "kb" ∷ []) ∷ [])

abbrev proposal : Value
proposal = object (
    field (name "kind") (text "CALL_TOOL") (
      field (name "tool_id") (text "kb.search")
        (field (name "tool_version") (text "1") (field (name "arguments") (object end) end))))

abbrev call : ToolCall
call = record {
  tool_id = "kb.search";
  tool_version = "1";
  arguments = object end;
  task_id = "t";
  target = null;
  attachments = [];
  granted_capabilities = "kb" ∷ [];
  workflow_allowed_tools = "kb.search" ∷ [];
  approval_id = none;
  idempotency_key = none;
  form_version = none;
}

abbrev decision : ValidatedDecision
decision = record { kind = call_tool; tool_call = some call; message = none; result = null }

validated : validate accept (make_validator (search ∷ []) grants) "t" proposal ≡ ok decision
unfolding validate make_validator lookup insert
validated = refl

-- A kind that is a list is no ValidationError.
unhashable_kind :
    validate accept
      (make_validator (search ∷ []) grants)
      "t"
      (object (field (name "kind") (array nil) end))
    ≡ raise type_error "unhashable type: 'list'"
unfolding validate make_validator
unhashable_kind = refl

validate-IsHostBound_example : IsHostBound accept (search ∷ []) grants "t" call
validate-IsHostBound_example =
    validate-IsHostBound accept (search ∷ []) grants "t" proposal decision call validated refl
