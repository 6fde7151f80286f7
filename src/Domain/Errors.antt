-- ===== src/Domain/Errors.antt =====
-- src/personal_assistant/domain/errors.py, the exceptions that the other packages derive from it,
-- and the built-in exceptions that the modelled code raises. A computation that may raise returns a
-- `Result`; one that also writes to an object is an `Exec`, which keeps what was written before the
-- raise.
use nju_personal_assistant.Base.{String, List, [], ◌∷◌, Bool, true, false, if◌then◌else◌}
use Prim.Native.String.{◌++◌ as append}

pub data ErrorClass : Type 0 where
  domain_error validation_error not_found already_exists concurrent_modification : ErrorClass
  invalid_state_transition canonicalization_error approval_error approval_expired : ErrorClass
  approval_state_error approval_binding_mismatch invalid_approval_nonce : ErrorClass
  tool_policy_denied prohibited_tool schema_validation_error : ErrorClass
  disclosure_forbidden disclosure_state_error disclosure_preview_mismatch : ErrorClass
  disclosure_idempotency_conflict disclosure_recipient_unknown : ErrorClass
  disclosure_consent_not_found : ErrorClass
  key_error value_error type_error runtime_error lease_conflict cancelled_error : ErrorClass
  disclosure_denied extension_error duplicate_capability invalid_lifecycle_transition : ErrorClass
  extension_operation_error rpc_timeout : ErrorClass

pub record Error : Type 0 where
  pub cls : ErrorClass
  pub message : String

-- `code` of the class
unfoldable pub error_code : ErrorClass → String
error_code domain_error = "domain_error"
error_code validation_error = "validation_error"
error_code not_found = "not_found"
error_code already_exists = "already_exists"
error_code concurrent_modification = "concurrent_modification"
error_code invalid_state_transition = "invalid_state_transition"
error_code canonicalization_error = "canonicalization_error"
error_code approval_error = "approval_error"
error_code approval_expired = "approval_expired"
error_code approval_state_error = "approval_state_error"
error_code approval_binding_mismatch = "approval_binding_mismatch"
error_code invalid_approval_nonce = "invalid_approval_nonce"
error_code tool_policy_denied = "tool_policy_denied"
error_code prohibited_tool = "prohibited_tool"
error_code schema_validation_error = "schema_validation_error"
error_code disclosure_forbidden = "disclosure_denied"
error_code disclosure_state_error = "disclosure_state_error"
error_code disclosure_preview_mismatch = "disclosure_preview_mismatch"
error_code disclosure_idempotency_conflict = "idempotency_conflict"
error_code disclosure_recipient_unknown = "disclosure_recipient_unknown"
error_code disclosure_consent_not_found = "not_found"
error_code _ = ""

-- `type(exc).__name__`
unfoldable pub class_name : ErrorClass → String
class_name domain_error = "DomainError"
class_name validation_error = "ValidationError"
class_name not_found = "NotFoundError"
class_name already_exists = "AlreadyExistsError"
class_name concurrent_modification = "ConcurrentModificationError"
class_name invalid_state_transition = "InvalidStateTransitionError"
class_name canonicalization_error = "CanonicalizationError"
class_name approval_error = "ApprovalError"
class_name approval_expired = "ApprovalExpiredError"
class_name approval_state_error = "ApprovalStateError"
class_name approval_binding_mismatch = "ApprovalBindingMismatchError"
class_name invalid_approval_nonce = "InvalidApprovalNonceError"
class_name tool_policy_denied = "ToolPolicyError"
class_name prohibited_tool = "ProhibitedToolError"
class_name schema_validation_error = "SchemaValidationError"
class_name key_error = "KeyError"
class_name value_error = "ValueError"
class_name type_error = "TypeError"
class_name runtime_error = "RuntimeError"
class_name lease_conflict = "LeaseConflict"
class_name cancelled_error = "CancelledError"
class_name disclosure_forbidden = "DisclosureDeniedError"
class_name disclosure_state_error = "DisclosureStateError"
class_name disclosure_preview_mismatch = "DisclosurePreviewMismatchError"
class_name disclosure_idempotency_conflict = "DisclosureIdempotencyConflictError"
class_name disclosure_recipient_unknown = "DisclosureRecipientUnknownError"
class_name disclosure_consent_not_found = "DisclosureConsentNotFoundError"
class_name disclosure_denied = "DisclosureDenied"
class_name extension_error = "ExtensionError"
class_name duplicate_capability = "DuplicateCapabilityError"
class_name invalid_lifecycle_transition = "InvalidLifecycleTransition"
class_name extension_operation_error = "ExtensionOperationError"
class_name rpc_timeout = "RpcTimeoutError"

-- isinstance(exc, DomainError)
unfoldable pub is_domain_error : ErrorClass → Bool
is_domain_error key_error = false
is_domain_error value_error = false
is_domain_error type_error = false
is_domain_error runtime_error = false
is_domain_error lease_conflict = false
is_domain_error cancelled_error = false
is_domain_error disclosure_denied = false
is_domain_error extension_error = false
is_domain_error duplicate_capability = false
is_domain_error invalid_lifecycle_transition = false
is_domain_error extension_operation_error = false
is_domain_error rpc_timeout = false
is_domain_error _ = true

-- An f-string: its parts, one after another.
unfoldable pub concat : List String → String
concat [] = ""
concat (s ∷ ss) = append s (concat ss)

pub data Result {ℓ} (A : Type ℓ) : Type ℓ where
  ok : A → Result A
  err : Error → Result A

abbrev pub raise {ℓ} : {A : Type ℓ} → ErrorClass → String → Result A
raise c m = err (record { cls = c; message = m })

abbrev pub bind {ℓ κ} : {A : Type ℓ} {B : Type κ} → Result A → (A → Result B) → Result B
bind (ok a) f = f a
bind (err e) f = err e

-- `if failing: raise e`
abbrev pub reject_if : Bool → ErrorClass → String → Result (Unit {0})
reject_if failing c m = if failing then raise c m else ok tt
