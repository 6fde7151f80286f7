-- ===== src/Tools/Policy.antt =====
-- src/personal_assistant/core/tools/policy.py. `frozen` is what the probe answers, `false` where
-- there is none.
use nju_personal_assistant.Base.{
  String, Bool, true, false, List, [], ◌∷◌, not, contains, string_eq, ◌&&◌, ◌||◌, if◌then◌else◌,
}
use nju_personal_assistant.Domain.Sorting.{sorted}
use nju_personal_assistant.Domain.Enums.{RiskLevel, external_write, prohibited}
use nju_personal_assistant.Domain.Errors.{
  Result, ok, raise, concat, tool_policy_denied, prohibited_tool,
}
use nju_personal_assistant.Domain.Models.{ToolDescriptor, ToolCall}

pub record ToolPolicy : Type 0 where
  pub external_writes_enabled : Bool
  pub frozen : Bool

-- The members of the first set that are not in the second.
unfoldable pub missing : List String → List String → List String
missing [] granted = []
missing (c ∷ required) granted =
    let rest = missing required granted in if contains c granted then rest else c ∷ rest

join_texts : List String → String
join_texts [] = ""
join_texts (s ∷ []) = s
join_texts (s ∷ t ∷ l) = concat (s ∷ ", " ∷ join_texts (t ∷ l) ∷ [])

abbrev pub is_external : RiskLevel → Bool
is_external external_write = true
is_external _ = false

abbrev pub is_prohibited : RiskLevel → Bool
is_prohibited prohibited = true
is_prohibited _ = false

abbrev is_empty : List String → Bool
is_empty [] = true
is_empty (_ ∷ _) = false

unfoldable pub check : ToolPolicy → ToolDescriptor → ToolCall → Result (Unit {0})
unfolding sorted join_texts
check policy descriptor call =
    let lacking = missing descriptor.required_capabilities call.granted_capabilities in
    if not (contains descriptor.id call.workflow_allowed_tools)
    then raise tool_policy_denied (concat ("workflow does not allow tool " ∷ descriptor.id ∷ []))
    else if not (is_empty lacking)
    then raise tool_policy_denied
        (concat ("missing capability grant(s): " ∷ join_texts (sorted lacking) ∷ []))
    else if is_prohibited descriptor.risk
    then raise prohibited_tool (concat ("R3 tool is permanently prohibited: " ∷ descriptor.id ∷ []))
    else if is_external descriptor.risk && (not policy.external_writes_enabled || policy.frozen)
    then raise tool_policy_denied "external side effects are disabled by the kill switch"
    else ok tt
