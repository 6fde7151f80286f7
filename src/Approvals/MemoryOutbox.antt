-- ===== src/Approvals/MemoryOutbox.antt =====
-- `InMemorySideEffectOutbox` of src/personal_assistant/infrastructure/memory/outbox.py. What
-- `json.loads` makes of a stored action is an argument, and so are the times that the calls of the
-- approval service read. The receipts of intents, which nothing reads, are left out.
use nju_personal_assistant.Base.{
  ℕ, String, Bool, true, false, List, [], ◌∷◌, Option, none, some, Dict, lookup, insert, contains,
  not, ◌==◌, ◌||◌, string_eq, nat_eq, pair_eq, if◌then◌else◌,
}
use nju_personal_assistant.Domain.Enums.{approved, expired, approval_value, approval_state_eq}
use nju_personal_assistant.Domain.Errors.{
  Result, ok, raise, bind, concat, reject_if, validation_error, approval_expired,
  approval_state_error, key_error, type_error, not_found,
}
use nju_personal_assistant.Domain.Exec.{Exec, pure, lift, throw, ◌>>=◌, ◌>>◌}
use nju_personal_assistant.Domain.Models.{AttachmentDigest, make_attachment}
use nju_personal_assistant.Domain.Values.{
  value_at, ℤ, pos, negsuc, finite, Value, null, boolean, real, other, text, integer, array, object,
  Items, nil, cons, Fields, end, field,
}
use nju_personal_assistant.Approvals.Binding.{ApprovalBinding, check_binding}
use nju_personal_assistant.Approvals.Record.{ApprovalRecord, Repository}
use nju_personal_assistant.Approvals.Service.{
  get_approval, reject, consume_for_execution, mark_succeeded, mark_failed, mark_unknown,
  drift_error, or_default,
}
use nju_personal_assistant.Jobs.Outbox.{SideEffectState, SideEffectIntent, Finalization}

pub record Ledger : Type 0 where
  pub intents : Dict String SideEffectIntent
  -- A set
  pub keys : List (String × String)
  pub approvals : Repository

pub record Times : Type 0 where
  pub read_at : ℕ
  pub rejected_at : ℕ
  pub consumed_at : ℕ

-- action.get(key), where a missing key is None
or_null : Option Value → Value
or_null none = null
or_null (some v) = v

-- `action[key]` that is used as a text. Another value has no `strip` or `lower`.
text_of : Option Value → Result String
text_of none = raise key_error ""
text_of (some (text s)) = ok s
text_of (some _) = raise type_error ""

number_of : Option Value → Result ℤ
number_of none = raise key_error ""
number_of (some (integer n)) = ok n
number_of (some _) = raise type_error ""

-- A form version is a text or null.
optional_text : Value → Option String
optional_text (text s) = some s
optional_text _ = none

attachment_of : Fields → Result AttachmentDigest
unfolding text_of number_of value_at make_attachment
attachment_of fs = bind (text_of (value_at "name" fs)) (λ n.
    bind (text_of (value_at "sha256" fs))
      (λ s. bind (number_of (value_at "size_bytes" fs)) (λ size. make_attachment n s size)))

attachments_of : Items → Result (List AttachmentDigest)
unfolding attachment_of
attachments_of nil = ok []
attachments_of (cons (object fs) l) =
    let rest = attachments_of l in bind (attachment_of fs) (λ a. bind rest (λ l'. ok (a ∷ l')))
attachments_of (cons _ l) = raise type_error ""

-- `not value`
is_falsy : Value → Bool
is_falsy null = true
is_falsy (boolean b) = not b
is_falsy (integer (pos n)) = n == 0
is_falsy (integer (negsuc n)) = false
is_falsy (real (finite s)) = s == "0.0" || s == "-0.0"
is_falsy (real _) = false
is_falsy (text s) = s == ""
is_falsy (array nil) = true
is_falsy (array (cons _ _)) = false
is_falsy (object end) = true
is_falsy (object (field _ _ _)) = false
is_falsy (other _) = false

attachments_in : Value → Result (List AttachmentDigest)
unfolding attachments_of
attachments_in (array l) = attachments_of l
attachments_in _ = raise type_error ""

-- `action.get("attachments") or ()`
attachments_at : Value → Result (List AttachmentDigest)
unfolding attachments_in is_falsy
attachments_at v = if is_falsy v then ok [] else attachments_in v

checked_binding : ApprovalBinding → Result ApprovalBinding
unfolding check_binding
checked_binding b = bind (check_binding b) (λ _. ok b)

-- `_binding_from_record`
unfoldable pub binding_from : Fields → Result ApprovalBinding
unfolding attachments_at text_of value_at or_null optional_text checked_binding
binding_from a = bind (attachments_at (or_null (value_at "attachments" a))) (λ attachments.
    bind (text_of (value_at "action_type" a)) (λ action_type.
      bind (text_of (value_at "task_id" a)) (λ task_id.
        bind (text_of (value_at "tool_id" a)) (λ tool_id.
          bind (text_of (value_at "tool_version" a)) (λ tool_version.
            bind (text_of (value_at "extension_id" a)) (λ extension_id.
              bind (text_of (value_at "extension_version" a)) (λ extension_version.
                checked_binding (record {
                  action_type = action_type;
                  task_id = task_id;
                  tool_id = tool_id;
                  tool_version = tool_version;
                  extension_id = extension_id;
                  extension_version = extension_version;
                  target = or_null (value_at "target" a);
                  payload = or_null (value_at "payload" a);
                  attachments = attachments;
                  form_version = optional_text (or_null (value_at "form_version" a));
                }))))))))

abbrev pub on_ledger {ℓ} : {R : Type ℓ} → Exec Repository R → Exec Ledger R
on_ledger m s = let (r, repo) = m s.approvals in (r, record s { approvals = repo })

is_task : String → Option Value → Bool
is_task i (some (text s)) = s == i
is_task i _ = false

-- `drifted`
unfoldable pub is_drifted : ApprovalRecord → SideEffectIntent → Fields → Bool
unfolding is_task value_at
is_drifted r intent action =
    not (r.action_fingerprint == intent.action_fingerprint)
    || not (is_task intent.task_id (value_at "task_id" action))

unfoldable pub store_intent : SideEffectIntent → Exec Ledger (Unit {0})
store_intent intent s = (
  ok tt,
  record s {
    intents = insert intent.id intent s.intents;
    keys = (intent.tool_id, intent.idempotency_key) ∷ s.keys;
  },
)

module _ (sha256 : String → String) (loads : String → Result Fields) (at : Times)
    (intent : SideEffectIntent) where
  unfoldable pub refuse_drifted : Exec Ledger (Unit {0})
  unfolding reject
  refuse_drifted =
      on_ledger
        (reject intent.approval_id at.rejected_at (some "approved action changed after preview"))
      >> throw drift_error

  unfoldable pub consume_intent : ApprovalBinding → Exec Ledger (Unit {0})
  unfolding consume_for_execution store_intent
  consume_intent b =
      on_ledger (consume_for_execution sha256 intent.approval_id b at.consumed_at)
      >> store_intent intent

  unfoldable pub consume_recorded : ApprovalRecord → Fields → Exec Ledger (Unit {0})
  unfolding is_drifted refuse_drifted consume_intent binding_from
  consume_recorded r action s =
      if is_drifted r intent action
      then refuse_drifted s
      else (lift (binding_from action) >>= consume_intent) s

  unfoldable pub require_approved : ApprovalRecord → Result (Unit {0})
  require_approved r =
      if r.state == expired
      then raise approval_expired (concat ("approval expired: " ∷ intent.approval_id ∷ []))
      else reject_if (not (r.state == approved)) approval_state_error (
          concat (
            "approval "
            ∷ intent.approval_id
            ∷ " is "
            ∷ approval_value r.state
            ∷ ", not approved"
            ∷ []))

  unfoldable pub check_approved : ApprovalRecord → Exec Ledger (Unit {0})
  unfolding consume_recorded require_approved
  check_approved r =
      lift (require_approved r) >> (lift (loads r.canonical_action) >>= consume_recorded r)

  unfoldable pub create_with_approval_consumption : Exec Ledger (Unit {0})
  unfolding check_approved get_approval
  create_with_approval_consumption s =
      if intent.action_fingerprint == ""
      then (raise validation_error "side-effect intent requires the complete action fingerprint", s)
      else if contains (intent.tool_id, intent.idempotency_key) s.keys
      then (raise validation_error "side-effect intent idempotency key was reused", s)
      else (on_ledger (get_approval intent.approval_id at.read_at true) >>= check_approved) s

finish_at : Option SideEffectIntent → String → SideEffectState → Exec Ledger (Unit {0})
finish_at none i state s = (raise not_found (concat ("side-effect intent not found: " ∷ i ∷ [])), s)
finish_at (some intent) i state s =
    (ok tt, record s { intents = insert i (record intent { state = state }) s.intents })

-- `_finish`, which `mark_succeeded`, `mark_failed` and `mark_unknown` of the outbox are too
unfoldable pub finish_intent : String → SideEffectState → Exec Ledger (Unit {0})
unfolding finish_at
finish_intent i state s = finish_at (lookup i s.intents) i state s

unfoldable pub mark_approval :
    SideEffectState → String → Finalization → ℕ → Exec Repository ApprovalRecord
unfolding mark_succeeded mark_failed mark_unknown or_default
mark_approval SideEffectState.succeeded i f now =
    mark_succeeded i (or_default f.result_reference "") now
mark_approval SideEffectState.failed i f now =
    mark_failed i (or_default f.failure_reason "failed") now
mark_approval _ i f now = mark_unknown i (or_default f.result_reference "unknown") now

unfoldable pub finalize : String → String → Finalization → ℕ → Exec Ledger (Unit {0})
unfolding finish_intent mark_approval
finalize intent_id approval_id f now = do
  finish_intent intent_id f.state
  on_ledger (mark_approval f.state approval_id f now)
  pure tt
