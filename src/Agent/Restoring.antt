-- ===== src/Agent/Restoring.antt =====
-- A call that was written to a checkpoint is restored from it.
use Prim.Native.Char.{code}
use Prim.Native.String.append
use nju_personal_assistant.Base.{
  ℕ, String, true, List, [], ◌∷◌, map, All, ◌≡◌, refl, ap, ◌∙◌, arith, contains, string_eq, nat_eq,
}
use nju_personal_assistant.Domain.Errors.{ok}
use nju_personal_assistant.Domain.Text.{to_lower, all_chars, lower_hex}
use nju_personal_assistant.Domain.Models.{
  AttachmentDigest, make_attachment, ToolCall, check_call, is_hex,
}
use nju_personal_assistant.Domain.Values.{pos}
use nju_personal_assistant.Domain.Sorting.{contains-sorted}
use nju_personal_assistant.Agent.Calls.{
  plain, as_dict, serialize_call, restore_attachments, with_attachments, restore_call,
}

lower_hex_lem : (c : ℕ) (s : String) → is_hex c ≡ true → lower_hex c s ≡ s
unfolding lower_hex is_hex
lower_hex_lem c s h = ground arith

to_lower_hex : (s : String) → all_chars is_hex s ≡ true → to_lower s ≡ s
unfolding to_lower all_chars
to_lower_hex String.[] h = refl
to_lower_hex (String.◌∷◌ c s) h =
    rw
      (
        lower_hex_lem (code c) (String.◌∷◌ c String.[]) (ground (arith, h)),
        to_lower_hex s (ground (arith, h)),
        append.cons c String.[] s,
        append.nil s,
      )
      refl

-- An attachment that its constructor returned, for some spelling of the digest
abbrev pub IsMade : AttachmentDigest → Type 0
IsMade a = (sha256 : String) × (make_attachment a.name sha256 (pos a.size_bytes) ≡ ok a)

made_lower :
    (a : AttachmentDigest) (sha256 : String)
    → make_attachment a.name sha256 (pos a.size_bytes) ≡ ok a
    → (a.sha256 ≡ to_lower sha256) × (all_chars is_hex (to_lower sha256) ≡ true)
unfolding make_attachment
made_lower a sha256 h = (ground (arith, h), ground (arith, h))

-- Its fields make it again.
remade :
    (a : AttachmentDigest) → IsMade a → make_attachment a.name a.sha256 (pos a.size_bytes) ≡ ok a
unfolding make_attachment
remade a (sha256, h) =
    let (e, x) = made_lower a sha256 h in
    let lower = ap to_lower e ∙ to_lower_hex (to_lower sha256) x in rw (lower) h

restored_attachments :
    (l : List AttachmentDigest) → All IsMade l → restore_attachments (map as_dict l) ≡ ok l
unfolding restore_attachments as_dict
restored_attachments [] m = refl
restored_attachments (a ∷ l) (h, m) = rw (remade a h, restored_attachments l m) refl

-- The same call, up to the order of its two sets
pub record IsSameCall (c d : ToolCall) : Type 0 where
  pub fields :
      record d {
        granted_capabilities = c.granted_capabilities;
        workflow_allowed_tools = c.workflow_allowed_tools;
      }
      ≡ c
  pub capabilities :
      (x : String) → contains x d.granted_capabilities ≡ contains x c.granted_capabilities
  pub tools :
      (x : String) → contains x d.workflow_allowed_tools ≡ contains x c.workflow_allowed_tools

-- A checked call whose arguments and target are plain, and whose attachments were checked, is restored from what `serialize_call` writes, up to the order of its sets of capabilities and of tools.
pub restore_call-serialize_call :
    (c : ToolCall)
    → check_call c ≡ ok tt
    → plain c.arguments ≡ c.arguments
    → plain c.target ≡ c.target
    → All IsMade c.attachments
    → (d : ToolCall) × (restore_call (serialize_call c) ≡ ok d) × IsSameCall c d
unfolding restore_call serialize_call check_call
restore_call-serialize_call c valid a t m = (
  with_attachments (serialize_call c) c.attachments,
  rw (restored_attachments c.attachments m, valid) refl,
  record {
    fields = rw (a, t) refl;
    capabilities = λ x. contains-sorted x c.granted_capabilities;
    tools = λ x. contains-sorted x c.workflow_allowed_tools;
  },
)
