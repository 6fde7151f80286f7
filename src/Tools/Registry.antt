-- ===== src/Tools/Registry.antt =====
-- src/personal_assistant/core/tools/registry.py. `_freeze` copies a schema into an immutable one;
-- values are immutable here.
use nju_personal_assistant.Base.{
  ℕ, ◌+◌, String, List, [], ◌∷◌, Option, none, some, Dict, lookup, insert, string_eq, pair_eq, map,
}
use nju_personal_assistant.Domain.Errors.{Result, ok, err, raise, concat, already_exists, not_found}
use nju_personal_assistant.Domain.Exec.{Exec}
use nju_personal_assistant.Domain.Models.{ToolDescriptor}

abbrev pub ToolKey : Type 0
ToolKey = String × String

pub record RegistrySnapshot : Type 0 where
  pub generation : ℕ
  pub tools : Dict ToolKey ToolDescriptor

abbrev pub empty : RegistrySnapshot
empty = record { generation = 0; tools = [] }

unfoldable pub resolved : String → String → Option ToolDescriptor → Result ToolDescriptor
resolved tool_id version none =
    raise not_found (concat ("tool not registered: " ∷ tool_id ∷ "@" ∷ version ∷ []))
resolved tool_id version (some d) = ok d

unfoldable pub resolve : RegistrySnapshot → String → String → Result ToolDescriptor
unfolding resolved
resolve snapshot tool_id version =
    resolved tool_id version (lookup (tool_id, version) snapshot.tools)

unfoldable pub descriptors : RegistrySnapshot → List ToolDescriptor
descriptors snapshot = map (λ entry. entry.1) snapshot.tools

-- The loop of `publish`, with the descriptors that are staged so far.
unfoldable pub stage :
    Dict ToolKey ToolDescriptor → List ToolDescriptor → Result (Dict ToolKey ToolDescriptor)
stage staged [] = ok staged
stage staged (d ∷ ds) =
    let rest = stage (insert (d.id, d.version) d staged) ds in
    elim (lookup (d.id, d.version) staged) [
      | none ↦ rest
      | some _ ↦
          raise already_exists
            (concat ("duplicate tool descriptor: " ∷ d.id ∷ "@" ∷ d.version ∷ []))
    ]

unfoldable pub published :
    Result (Dict ToolKey ToolDescriptor) → Exec RegistrySnapshot RegistrySnapshot
published (err e) snapshot = (err e, snapshot)
published (ok staged) snapshot =
    let next : RegistrySnapshot = record { generation = snapshot.generation + 1; tools = staged } in
    (ok next, next)

-- The registry holds the current snapshot.
unfoldable pub publish : List ToolDescriptor → Exec RegistrySnapshot RegistrySnapshot
unfolding published stage
publish ds = published (stage [] ds)
