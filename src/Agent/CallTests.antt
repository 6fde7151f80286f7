-- ===== src/Agent/CallTests.antt =====
-- A call with an attachment and two capabilities, written and restored.
use nju_personal_assistant.Base.{[], ◌∷◌, none, some, ◌≡◌, refl, string_eq}
use nju_personal_assistant.Domain.Errors.{ok}
use nju_personal_assistant.Domain.Text.{text_length, to_lower, all_chars}
use nju_personal_assistant.Domain.Models.{AttachmentDigest, make_attachment, ToolCall, check_call}
use nju_personal_assistant.Domain.Values.{name, text, object, field, end}
use nju_personal_assistant.Agent.Calls.{plain, serialize_call, restore_call}
use nju_personal_assistant.Agent.Restoring.{IsMade, IsSameCall, restore_call-serialize_call}

abbrev digest : AttachmentDigest
digest = record {
  name = "form.pdf";
  sha256 = "abababababababababababababababababababababababababababababababab";
  size_bytes = 7;
}

abbrev call : ToolCall
call = record {
  tool_id = "mail.send";
  tool_version = "1";
  arguments = object (field (name "to") (text "a@b") end);
  task_id = "task_1";
  target = text "a@b";
  attachments = digest ∷ [];
  granted_capabilities = "net" ∷ "mail" ∷ [];
  workflow_allowed_tools = [];
  approval_id = none;
  idempotency_key = some "k";
  form_version = none;
}

call-IsValid : check_call call ≡ ok tt
unfolding check_call
call-IsValid = refl

arguments-IsPlain : plain call.arguments ≡ call.arguments
unfolding plain
arguments-IsPlain = refl

target-IsPlain : plain call.target ≡ call.target
unfolding plain
target-IsPlain = refl

digest-IsMade : IsMade digest
unfolding make_attachment text_length to_lower all_chars
digest-IsMade = ("ABABABABABABABABABABABABABABABABABABABABABABABABABABABABABABABAB", refl)

capabilities_sorted : (serialize_call call).granted_capabilities ≡ "mail" ∷ "net" ∷ []
unfolding serialize_call
capabilities_sorted = refl

restore_call-serialize_call_example :
    (d : ToolCall) × (restore_call (serialize_call call) ≡ ok d) × IsSameCall call d
restore_call-serialize_call_example =
    restore_call-serialize_call call call-IsValid arguments-IsPlain target-IsPlain
      (digest-IsMade, tt)
