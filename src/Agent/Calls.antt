-- ===== src/Agent/Calls.antt =====
-- `plain` of src/personal_assistant/core/agent/planner.py, and `serialize_call` and `restore_call` of
-- src/personal_assistant/core/agent/runtime.py. The dictionary that they exchange is a record of its
-- keys; a set is a list without repetitions, in any order.
use nju_personal_assistant.Base.{String, List, [], ◌∷◌, Option, map}
use nju_personal_assistant.Domain.Errors.{Result, ok, bind}
use nju_personal_assistant.Domain.Models.{AttachmentDigest, make_attachment, ToolCall, check_call}
use nju_personal_assistant.Domain.Values.{
  ℤ, pos, Value, array, object, Items, nil, cons, Fields, end, field,
}
use nju_personal_assistant.Domain.Sorting.{sorted}
use nju_personal_assistant.Audit.Redaction.{key_text, set_field}

unfoldable mutual
  unfolding key_text set_field

  pub plain : Value → Value
  plain (array xs) = array (plain_items xs)
  plain (object fs) = object (plain_fields fs end)
  plain v = v

  pub plain_items : Items → Items
  plain_items nil = nil
  plain_items (cons v xs) = cons (plain v) (plain_items xs)

  -- The comprehension; what it built so far comes last.
  pub plain_fields : Fields → Fields → Fields
  plain_fields end built = built
  plain_fields (field k v fs) built = plain_fields fs (set_field (key_text k) (plain v) built)

-- `asdict(attachment)`
pub record AttachmentFields : Type 0 where
  pub name : String
  pub sha256 : String
  pub size_bytes : ℤ

pub record SerializedCall : Type 0 where
  pub tool_id : String
  pub tool_version : String
  pub arguments : Value
  pub task_id : String
  pub target : Value
  pub attachments : List AttachmentFields
  pub granted_capabilities : List String
  pub workflow_allowed_tools : List String
  pub idempotency_key : Option String
  pub form_version : Option String
  pub approval_id : Option String

unfoldable pub as_dict : AttachmentDigest → AttachmentFields
as_dict a = record { name = a.name; sha256 = a.sha256; size_bytes = pos a.size_bytes }

unfoldable pub serialize_call : ToolCall → SerializedCall
unfolding plain sorted as_dict
serialize_call c = record {
  tool_id = c.tool_id;
  tool_version = c.tool_version;
  arguments = plain c.arguments;
  task_id = c.task_id;
  target = plain c.target;
  attachments = map as_dict c.attachments;
  granted_capabilities = sorted c.granted_capabilities;
  workflow_allowed_tools = sorted c.workflow_allowed_tools;
  idempotency_key = c.idempotency_key;
  form_version = c.form_version;
  approval_id = c.approval_id;
}

-- `AttachmentDigest(**a)`, which checks its fields
unfoldable pub restore_attachments : List AttachmentFields → Result (List AttachmentDigest)
unfolding make_attachment
restore_attachments [] = ok []
restore_attachments (a ∷ l) =
    let rest = restore_attachments l in
    bind (make_attachment a.name a.sha256 a.size_bytes) (λ d. bind rest (λ ds. ok (d ∷ ds)))

abbrev pub with_attachments : SerializedCall → List AttachmentDigest → ToolCall
with_attachments s attachments = record {
  tool_id = s.tool_id;
  tool_version = s.tool_version;
  arguments = s.arguments;
  task_id = s.task_id;
  target = s.target;
  attachments = attachments;
  granted_capabilities = s.granted_capabilities;
  workflow_allowed_tools = s.workflow_allowed_tools;
  approval_id = s.approval_id;
  idempotency_key = s.idempotency_key;
  form_version = s.form_version;
}

-- `ToolCall(**fields)` checks too.
unfoldable pub restore_call : SerializedCall → Result ToolCall
unfolding restore_attachments check_call
restore_call s =
    bind (restore_attachments s.attachments)
      (λ attachments. let c = with_attachments s attachments in bind (check_call c) (λ _. ok c))
