-- ===== src/Tools/Permission.antt =====
-- What `ToolPolicy.check` lets pass.
use nju_personal_assistant.Base.{
  String, List, [], ◌∷◌, true, false, ◌≡◌, ◌≢◌, refl, arith, contains, string_eq, All,
}
use nju_personal_assistant.Domain.Enums.{prohibited}
use nju_personal_assistant.Domain.Errors.{ok}
use nju_personal_assistant.Domain.Models.{ToolDescriptor, ToolCall}
use nju_personal_assistant.Tools.Policy.{ToolPolicy, check, missing, is_external}

pub record Permitted (policy : ToolPolicy) (d : ToolDescriptor) (call : ToolCall) : Type 0 where
  pub allowed : contains d.id call.workflow_allowed_tools ≡ true
  pub granted : All (λ c. contains c call.granted_capabilities ≡ true) d.required_capabilities
  pub possible : d.risk ≢ prohibited
  pub enabled :
      is_external d.risk ≡ true → (policy.external_writes_enabled ≡ true) × (policy.frozen ≡ false)

missing_none :
    (required granted : List String)
    → missing required granted ≡ []
    → All (λ c. contains c granted ≡ true) required
unfolding missing
missing_none [] granted h = tt
missing_none (c ∷ required) granted h = (ground arith, missing_none required granted (ground arith))

none_missing :
    (required granted : List String)
    → All (λ c. contains c granted ≡ true) required
    → missing required granted ≡ []
unfolding missing
none_missing [] granted a = refl
none_missing (c ∷ required) granted (h, a) = ground (arith, none_missing required granted a)

-- A call passes only where the workflow allows the tool, every required capability is granted, the
-- tool is not prohibited, and an external one is not held by the kill switch.
pub check-Permitted :
    (policy : ToolPolicy) (d : ToolDescriptor) (call : ToolCall)
    → check policy d call ≡ ok tt
    → Permitted policy d call
unfolding check
check-Permitted policy d call h = record {
  allowed = ground arith;
  granted = missing_none d.required_capabilities call.granted_capabilities (ground arith);
  possible = ground arith;
  enabled = ground arith;
}

-- A call that is so permitted passes.
check_complete :
    (policy : ToolPolicy) (d : ToolDescriptor) (call : ToolCall)
    → Permitted policy d call
    → check policy d call ≡ ok tt
unfolding check
check_complete policy d call p = ground (
  arith,
  p.allowed,
  p.possible,
  p.enabled,
  none_missing d.required_capabilities call.granted_capabilities p.granted,
)
