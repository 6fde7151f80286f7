-- ===== src/Approvals/Binding.antt =====
-- `ApprovalBinding` of src/personal_assistant/core/approvals/service.py
use nju_personal_assistant.Base.{String, List, [], ◌∷◌, Option, none, some, any}
use nju_personal_assistant.Domain.Errors.{Result, validation_error, reject_if}
use nju_personal_assistant.Domain.Text.{is_blank}
use nju_personal_assistant.Domain.Models.{AttachmentDigest}
use nju_personal_assistant.Domain.Values.{
  pos, Value, null, integer, text, array, object, Items, nil, cons, end, field, name,
}

pub record ApprovalBinding : Type 0 where
  pub action_type : String
  pub task_id : String
  pub tool_id : String
  pub tool_version : String
  pub extension_id : String
  pub extension_version : String
  pub target : Value
  pub payload : Value
  pub attachments : List AttachmentDigest
  pub form_version : Option String

-- `__post_init__`
unfoldable pub check_binding : ApprovalBinding → Result (Unit {0})
check_binding b =
    reject_if
      (any is_blank (
        b.action_type ∷ b.task_id ∷ b.tool_id ∷ b.tool_version ∷ b.extension_id
        ∷ b.extension_version ∷ []))
      validation_error "approval binding identity fields are required"

attachment_items : List AttachmentDigest → Items
attachment_items [] = nil
attachment_items (a ∷ l) =
    cons
      (object (
        field (name "name") (text a.name) (
          field (name "sha256") (text a.sha256)
            (field (name "size_bytes") (integer (pos a.size_bytes)) end))))
      (attachment_items l)

unfoldable pub text_or_null : Option String → Value
text_or_null none = null
text_or_null (some s) = text s

unfoldable pub envelope : ApprovalBinding → Value
unfolding attachment_items text_or_null
envelope b = object (
    field (name "action_type") (text b.action_type) (
      field (name "task_id") (text b.task_id) (
        field (name "tool_id") (text b.tool_id) (
          field (name "tool_version") (text b.tool_version) (
            field (name "extension_id") (text b.extension_id) (
              field (name "extension_version") (text b.extension_version) (
                field (name "target") b.target (
                  field (name "payload") b.payload (
                    field (name "attachments") (array (attachment_items b.attachments))
                      (field (name "form_version") (text_or_null b.form_version) end))))))))))
