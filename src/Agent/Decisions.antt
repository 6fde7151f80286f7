-- ===== src/Agent/Decisions.antt =====
-- `DecisionValidator` of src/personal_assistant/core/agent/decisions.py, with `DecisionKind` and
-- `ValidatedDecision` of src/personal_assistant/core/agent/engine.py. The validator of schemas is an
-- argument.
use nju_personal_assistant.Base.{
  String, Bool, true, false, List, [], ◌∷◌, Option, none, some, Dict, lookup, insert, map, contains,
  not, all, ltb, ◌==◌, ◌&&◌, ◌||◌, string_eq, pair_eq, if◌then◌else◌,
}
use nju_personal_assistant.Domain.Enums.{RiskLevel, prohibited}
use nju_personal_assistant.Domain.Errors.{Result, ok, raise, bind, validation_error, type_error}
use nju_personal_assistant.Domain.Models.{ToolDescriptor, ToolCall, check_call}
use nju_personal_assistant.Domain.Text.{is_blank, text_length}
use nju_personal_assistant.Domain.Values.{
  Key, name, numeric, Value, null, text, array, object, Fields, end, field, value_at,
}

pub data DecisionKind : Type 0 where
  call_tool needs_user complete : DecisionKind

pub record ValidatedDecision : Type 0 where
  pub kind : DecisionKind
  pub tool_call : Option ToolCall
  pub message : Option String
  pub result : Value

-- One set of capabilities for every tool, or one for each
pub data Grants : Type 0 where
  for_all : List String → Grants
  by_tool : Dict String (List String) → Grants

pub record DecisionValidator : Type 0 where
  pub descriptors : Dict (String × String) ToolDescriptor
  pub allowed : List String
  pub grants : Grants

-- {(d.id, d.version): d for d in descriptors}
unfoldable pub by_identity :
    List ToolDescriptor
    → Dict (String × String) ToolDescriptor
    → Dict (String × String) ToolDescriptor
by_identity [] known = known
by_identity (d ∷ ds) known = by_identity ds (insert (d.id, d.version) d known)

unfoldable pub make_validator : List ToolDescriptor → Grants → DecisionValidator
unfolding by_identity
make_validator descriptors grants = record {
  descriptors = by_identity descriptors [];
  allowed = map (λ (d : ToolDescriptor). d.id) descriptors;
  grants = grants;
}

or_none : Option (List String) → List String
or_none none = []
or_none (some l) = l

unfoldable pub granted : Grants → String → List String
unfolding or_none
granted (for_all l) tool_id = l
granted (by_tool d) tool_id = or_none (lookup tool_id d)

is_among : List String → Key → Bool
is_among names (name s) = contains s names
is_among names (numeric n) = false

-- No key of the proposal is outside the set.
unfoldable pub only_keys : List String → Fields → Bool
unfolding is_among
only_keys names end = true
only_keys names (field k v fs) = is_among names k && only_keys names fs

is_there : Option Value → Bool
is_there none = false
is_there (some v) = true

-- set(proposal) == names
unfoldable pub exact_keys : List String → Fields → Bool
unfolding only_keys is_there value_at
exact_keys names fs = only_keys names fs && all (λ n. is_there (value_at n fs)) names

-- A text that `proposal.get` found
unfoldable pub is_text : String → Option Value → Bool
is_text s (some (text t)) = t == s
is_text s _ = false

-- isinstance(value, str)
text_in : Option Value → Option String
text_in (some (text s)) = some s
text_in _ = none

abbrev pub is_prohibited : RiskLevel → Bool
is_prohibited prohibited = true
is_prohibited _ = false

-- `kind in {"COMPLETE", "NEEDS_USER"}`: a list or a dictionary has no hash.
unfoldable pub message_kind : Option Value → Result (Option DecisionKind)
message_kind (some (array _)) = raise type_error "unhashable type: 'list'"
message_kind (some (object _)) = raise type_error "unhashable type: 'dict'"
message_kind (some (text s)) =
    if s == "COMPLETE"
    then ok (some complete)
    else if s == "NEEDS_USER"
    then ok (some needs_user)
    else ok none
message_kind _ = ok none

or_null : Option Value → Value
or_null none = null
or_null (some v) = v

module _ (validate_schema : Value → Value → Result (Unit {0})) (v : DecisionValidator)
    (task_id : String) where
  unfoldable pub proposed_call : String → String → Value → ToolCall
  unfolding granted
  proposed_call tool_id version arguments = record {
    tool_id = tool_id;
    tool_version = version;
    arguments = arguments;
    task_id = task_id;
    target = null;
    attachments = [];
    granted_capabilities = granted v.grants tool_id;
    workflow_allowed_tools = v.allowed;
    approval_id = none;
    idempotency_key = none;
    form_version = none;
  }

  unfoldable pub with_arguments :
      ToolDescriptor → String → String → Option Value → Result ValidatedDecision
  unfolding proposed_call check_call
  with_arguments d tool_id version (some (object a)) =
      bind (validate_schema (object a) d.input_schema) (λ _.
        bind (check_call (proposed_call tool_id version (object a))) (λ _. ok (record {
          kind = call_tool;
          tool_call = some (proposed_call tool_id version (object a));
          message = none;
          result = null;
        })))
  with_arguments d tool_id version _ = raise validation_error "tool arguments must be an object"

  unfoldable pub with_descriptor :
      Option ToolDescriptor → String → String → Fields → Result ValidatedDecision
  unfolding with_arguments value_at
  with_descriptor none tool_id version fs =
      raise validation_error "tool/version is not in this run's allowed snapshot"
  with_descriptor (some d) tool_id version fs =
      if is_prohibited d.risk
      then raise validation_error "tool/version is not in this run's allowed snapshot"
      else with_arguments d tool_id version (value_at "arguments" fs)

  unfoldable pub with_identity : Option String → Option String → Fields → Result ValidatedDecision
  unfolding with_descriptor
  with_identity (some tool_id) (some version) fs =
      with_descriptor (lookup (tool_id, version) v.descriptors) tool_id version fs
  with_identity _ _ fs = raise validation_error "tool identity is invalid"

  unfoldable pub validate_call : Fields → Result ValidatedDecision
  unfolding with_identity exact_keys value_at text_in
  validate_call fs =
      if not (exact_keys ("kind" ∷ "tool_id" ∷ "tool_version" ∷ "arguments" ∷ []) fs)
      then raise validation_error "tool proposal cannot supply authority or extra fields"
      else with_identity (text_in (value_at "tool_id" fs)) (text_in (value_at "tool_version" fs)) fs

  unfoldable pub with_message : DecisionKind → Option Value → Fields → Result ValidatedDecision
  unfolding is_blank text_length or_null value_at
  with_message kind (some (text m)) fs =
      if is_blank m || ltb 20000 (text_length m)
      then raise validation_error "a bounded decision message is required"
      else ok (record {
        kind = kind;
        tool_call = none;
        message = some m;
        result = or_null (value_at "result" fs);
      })
  with_message kind _ fs = raise validation_error "a bounded decision message is required"

  unfoldable pub with_kind : Option DecisionKind → Fields → Result ValidatedDecision
  unfolding with_message only_keys value_at
  with_kind none fs = raise validation_error "unsupported model decision"
  with_kind (some kind) fs =
      if not (only_keys ("kind" ∷ "message" ∷ "result" ∷ []) fs)
      then raise validation_error "unsupported model decision"
      else with_message kind (value_at "message" fs) fs

  unfoldable pub validate_message : Fields → Result ValidatedDecision
  unfolding message_kind with_kind value_at
  validate_message fs = bind (message_kind (value_at "kind" fs)) (λ kind. with_kind kind fs)

  unfoldable pub validate : Value → Result ValidatedDecision
  unfolding is_text validate_call validate_message value_at
  validate (object fs) =
      if is_text "CALL_TOOL" (value_at "kind" fs) then validate_call fs else validate_message fs
  validate _ = raise validation_error "proposal must be an object"
