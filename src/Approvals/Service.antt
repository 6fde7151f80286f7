-- ===== src/Approvals/Service.antt =====
-- `ApprovalService` of src/personal_assistant/core/approvals/service.py. Each method reads the
-- record, decides on a plan from that copy alone, and carries the plan out: at most one `save`, at
-- the version that was read. The clock, the new id and the nonce are arguments.
use nju_personal_assistant.Base.{
  ℕ, suc, ◌+◌, ◌-◌, String, Bool, true, List, [], ◌∷◌, Option, none, some, leb, ltb, not, contains,
  ◌==◌, ◌||◌, string_eq, ◌&&◌, if◌then◌else◌,
}
use nju_personal_assistant.Domain.Enums.{
  ApprovalState, waiting_approval, approved, executing, succeeded, failed, unknown, expired,
  cancelled, approval_value, approval_state_eq,
}
use nju_personal_assistant.Domain.Errors.{
  ErrorClass, Error, Result, ok, err, raise, bind, concat, validation_error, approval_expired,
  approval_state_error, approval_binding_mismatch, invalid_approval_nonce,
}
use nju_personal_assistant.Domain.Exec.{Exec, pure, lift, throw, ◌>>=◌, ◌>>◌}
use nju_personal_assistant.Domain.Text.{is_blank}
use nju_personal_assistant.Domain.Values.{ℤ, pos, negsuc}
use nju_personal_assistant.Approvals.Canonical.{normalize_json, canonical_json, canonical_sha256}
use nju_personal_assistant.Approvals.StateMachine.{ensure_approval_transition}
use nju_personal_assistant.Approvals.Binding.{ApprovalBinding, envelope}
use nju_personal_assistant.Approvals.Record.{ApprovalRecord, Repository, create, get, save}

-- What a method does with the copy that it read.
pub data Plan : Type 0 where
  keep : Plan
  refuse : Error → Plan
  write : ApprovalRecord → Plan
  write_then_raise : ApprovalRecord → Error → Plan

unfoldable pub settle : ApprovalRecord → Plan → Exec Repository ApprovalRecord
settle r keep = pure r
settle r (refuse e) = throw e
settle r (write new) = save new r.version
settle r (write_then_raise new e) = save new r.version >> throw e

abbrev refuse_with : ErrorClass → List String → Plan
refuse_with c m = refuse (record { cls = c; message = concat m })

-- `ensure_approval_transition`, then the rest
unfoldable pub ensuring : Result (Unit {0}) → Plan → Plan
ensuring (ok _) p = p
ensuring (err e) p = refuse e

unfoldable pub is_expirable : ApprovalRecord → Bool
is_expirable r = contains r.state (waiting_approval ∷ approved ∷ [])

unfoldable pub is_due : ApprovalRecord → ℕ → Bool
unfolding is_expirable
is_due r now = is_expirable r && leb r.expires_at now

unfoldable pub expired_copy : ApprovalRecord → ApprovalRecord
expired_copy r = record r {
  state = expired;
  completed_at = some r.expires_at;
  failure_reason = some "approval expired";
}

expire : ApprovalRecord → Plan
unfolding expired_copy is_expirable ensuring ensure_approval_transition
expire r =
    if not (is_expirable r)
    then keep
    else ensuring (ensure_approval_transition r.state expired) (write (expired_copy r))

abbrev pub expired_error : ApprovalRecord → Error
expired_error r = record {
  cls = approval_expired;
  message = concat ("approval expired: " ∷ r.id ∷ []);
}

-- `_expire`, then `raise ApprovalExpiredError`
expire_and_raise : ApprovalRecord → Plan
unfolding expired_copy ensuring ensure_approval_transition
expire_and_raise r =
    ensuring (ensure_approval_transition r.state expired)
      (write_then_raise (expired_copy r) (expired_error r))

unfoldable pub get_plan : Bool → ℕ → ApprovalRecord → Plan
unfolding is_due expire
get_plan refresh_expiry now r = if refresh_expiry && is_due r now then expire r else keep

unfoldable pub approve_plan : String → String → ℕ → ApprovalRecord → Plan
unfolding is_due expire_and_raise ensuring ensure_approval_transition
approve_plan nonce actor_id now r =
    if is_due r now
    then expire_and_raise r
    else if not (r.state == waiting_approval)
    then refuse_with approval_state_error
        ("approval " ∷ r.id ∷ " is " ∷ approval_value r.state ∷ ", not waiting" ∷ [])
    else if is_blank actor_id
    then refuse_with validation_error ("actor_id is required" ∷ [])
    else if not (r.nonce == nonce)
    then refuse_with invalid_approval_nonce ("approval nonce does not match" ∷ [])
    else ensuring (ensure_approval_transition r.state approved)
        (write (record r { state = approved; approved_at = some now; approved_by = some actor_id }))

-- `s or d`: an absent or empty text is replaced.
unfoldable pub or_default : Option String → String → String
or_default none d = d
or_default (some s) d = if s == "" then d else s

unfoldable pub reject_plan : ℕ → Option String → ApprovalRecord → Plan
unfolding ensuring ensure_approval_transition or_default
reject_plan now reason r =
    if not (contains r.state (waiting_approval ∷ approved ∷ []))
    then refuse_with approval_state_error
        ("approval cannot be rejected from " ∷ approval_value r.state ∷ [])
    else ensuring (ensure_approval_transition r.state cancelled) (
        write (record r {
          state = cancelled;
          completed_at = some now;
          failure_reason = some (or_default reason "rejected by user");
        }))

unfoldable pub drifted_copy : ApprovalRecord → ℕ → ApprovalRecord
drifted_copy r now = record r {
  state = cancelled;
  completed_at = some now;
  failure_reason = some "approved action changed after preview";
}

abbrev pub drift_error : Error
drift_error = record {
  cls = approval_binding_mismatch;
  message = "target, payload, attachment or extension version changed";
}

consume_presented : Result String → ℕ → ApprovalRecord → Plan
unfolding ensuring ensure_approval_transition drifted_copy
consume_presented (err e) now r = refuse e
consume_presented (ok presented) now r =
    if not (r.action_fingerprint == presented)
    then ensuring (ensure_approval_transition r.state cancelled)
        (write_then_raise (drifted_copy r now) drift_error)
    else ensuring (ensure_approval_transition r.state executing)
        (write (record r { state = executing; consumed_at = some now }))

-- `presented` is `canonical_sha256(binding.envelope())`, which raises on a value that is no JSON.
unfoldable pub consume_plan : Result String → ℕ → ApprovalRecord → Plan
unfolding is_due expire_and_raise consume_presented
consume_plan presented now r =
    if is_due r now
    then expire_and_raise r
    else if not (r.state == approved)
    then refuse_with approval_state_error
        ("approval " ∷ r.id ∷ " is " ∷ approval_value r.state ∷ ", not approved" ∷ [])
    else consume_presented presented now r

unfoldable pub finish_plan :
    ApprovalState → ℕ → Option String → Option String → ApprovalRecord → Plan
unfolding ensuring ensure_approval_transition
finish_plan target now result_reference failure_reason r =
    if not (r.state == executing)
    then refuse_with approval_state_error
        ("approval action cannot finish from " ∷ approval_value r.state ∷ [])
    else ensuring (ensure_approval_transition r.state target) (
        write (record r {
          state = target;
          completed_at = some now;
          result_reference = result_reference;
          failure_reason = failure_reason;
        }))

-- A datetime carries a time zone or none.
pub data Datetime : Type 0 where
  aware naive : ℕ → Datetime

-- In microseconds.
abbrev pub max_approval_ttl : ℕ
max_approval_ttl = 300000000

unfoldable pub ttl_out_of_range : ℤ → Bool
ttl_out_of_range (pos n) = leb n 0 || ltb max_approval_ttl n
ttl_out_of_range (negsuc n) = true

abbrev pub after : ℕ → ℤ → ℕ
after now (pos n) = now + n
after now (negsuc n) = now - suc n

module _ (sha256 : String → String) where
  unfoldable pub new_record : ApprovalBinding → String → String → ℕ → ℤ → Result ApprovalRecord
  unfolding canonical_json canonical_sha256
  new_record binding new_id nonce now ttl =
      bind (normalize_json "$" (envelope binding)) (λ normalized.
        bind (canonical_json normalized) (λ encoded.
          bind (canonical_sha256 sha256 normalized) (λ fingerprint. ok (record {
            id = new_id;
            state = waiting_approval;
            action_fingerprint = fingerprint;
            canonical_action = encoded;
            nonce = nonce;
            created_at = now;
            expires_at = after now ttl;
            version = 0;
            approved_at = none;
            approved_by = none;
            consumed_at = none;
            completed_at = none;
            result_reference = none;
            failure_reason = none;
          }))))

  unfoldable pub prepare_checked :
      ApprovalBinding → String → String → Datetime → ℤ → Result ApprovalRecord
  unfolding ttl_out_of_range new_record
  prepare_checked binding new_id nonce (naive now) ttl =
      raise validation_error "approval timestamps must be timezone-aware"
  prepare_checked binding new_id nonce (aware now) ttl =
      if ttl_out_of_range ttl
      then raise validation_error "approval ttl must be positive and at most 5 minutes"
      else new_record binding new_id nonce now ttl

  unfoldable pub prepare :
      ApprovalBinding → String → String → Datetime → ℤ → Exec Repository ApprovalRecord
  unfolding prepare_checked create
  prepare binding new_id nonce now ttl = do
    r ← lift (prepare_checked binding new_id nonce now ttl)
    create r
    pure r

  unfoldable pub consume_for_execution :
      String → ApprovalBinding → ℕ → Exec Repository ApprovalRecord
  unfolding consume_plan settle
  consume_for_execution approval_id binding now = do
    r ← get approval_id
    settle r (consume_plan (canonical_sha256 sha256 (envelope binding)) now r)

unfoldable pub get_approval : String → ℕ → Bool → Exec Repository ApprovalRecord
unfolding get_plan settle
get_approval approval_id now refresh_expiry = do
  r ← get approval_id
  settle r (get_plan refresh_expiry now r)

unfoldable pub approve : String → String → String → ℕ → Exec Repository ApprovalRecord
unfolding approve_plan settle
approve approval_id nonce actor_id now = do
  r ← get approval_id
  settle r (approve_plan nonce actor_id now r)

unfoldable pub reject : String → ℕ → Option String → Exec Repository ApprovalRecord
unfolding reject_plan settle
reject approval_id now reason = do r ← get approval_id; settle r (reject_plan now reason r)

unfoldable pub finish :
    String → ApprovalState → ℕ → Option String → Option String → Exec Repository ApprovalRecord
unfolding finish_plan settle
finish approval_id target now result_reference failure_reason = do
  r ← get approval_id
  settle r (finish_plan target now result_reference failure_reason r)

unfoldable pub mark_succeeded : String → String → ℕ → Exec Repository ApprovalRecord
unfolding finish
mark_succeeded approval_id result_reference now =
    finish approval_id succeeded now (some result_reference) none

unfoldable pub mark_failed : String → String → ℕ → Exec Repository ApprovalRecord
unfolding finish
mark_failed approval_id reason now = finish approval_id failed now none (some reason)

unfoldable pub mark_unknown : String → String → ℕ → Exec Repository ApprovalRecord
unfolding finish
mark_unknown approval_id reference_id now = finish approval_id unknown now (some reference_id) none
