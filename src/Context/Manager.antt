-- ===== src/Context/Manager.antt =====
-- `ContextManager.compose` of src/personal_assistant/core/context/manager.py. The providers answer from
-- outside: evidence, or an exception, in the order of the providers.
use nju_personal_assistant.Base.{
  String, Bool, true, false, List, [], ◌∷◌, Option, none, some, Dict, lookup, insert, map, contains,
  ◌&&◌, string_eq, pair_eq, if◌then◌else◌,
}
use nju_personal_assistant.Domain.Enums.{sensitivity_eq}
use nju_personal_assistant.Domain.Errors.{concat}
use nju_personal_assistant.Domain.Values.{Value}
use nju_personal_assistant.Context.Models.{
  EvidenceState, current, Evidence, ContextRequest, ComposedContext,
}
use nju_personal_assistant.Context.Composer.{Texts, compose}

pub record ProviderAnswer : Type 0 where
  pub provider_id : String
  -- `none` is an exception.
  pub retrieved : Option (List Evidence)

abbrev pub Identity : Type 0
Identity = (String × String) × String

abbrev is_current : EvidenceState → Bool
is_current current = true
is_current _ = false

unfoldable pub is_admitted : ContextRequest → Evidence → Bool
is_admitted request e = is_current e.state && contains e.sensitivity request.allowed_sensitivity

abbrev pub identity : Evidence → Identity
identity e = ((e.source_uri, e.source_version), e.content_hash)

unfoldable pub keep_first :
    Option Evidence → Evidence → Dict Identity Evidence → Dict Identity Evidence
keep_first (some _) e known = known
keep_first none e known = insert (identity e) e known

-- The loop over one provider's evidence, with `setdefault`.
unfoldable pub gather :
    ContextRequest → List Evidence → Dict Identity Evidence → Dict Identity Evidence
unfolding keep_first is_admitted
gather request [] known = known
gather request (e ∷ es) known =
    gather request es
      (if is_admitted request e then keep_first (lookup (identity e) known) e known else known)

-- A provider that raised gives no evidence.
unfoldable pub answered :
    ContextRequest → Option (List Evidence) → Dict Identity Evidence → Dict Identity Evidence
unfolding gather
answered request none known = known
answered request (some es) known = gather request es known

unfoldable pub gather_all :
    ContextRequest → List ProviderAnswer → Dict Identity Evidence → Dict Identity Evidence
unfolding answered
gather_all request [] known = known
gather_all request (a ∷ answers) known =
    gather_all request answers (answered request a.retrieved known)

unfoldable pub unavailable : List ProviderAnswer → List String
unfolding concat
unavailable [] = []
unavailable (a ∷ answers) =
    let rest = unavailable answers in
    elim a.retrieved [
      | none ↦ concat ("context provider unavailable: " ∷ a.provider_id ∷ []) ∷ rest
      | some es ↦ rest
    ]

-- The method itself.
unfoldable pub retrieve_and_compose :
    (Value → String) → ContextRequest → List ProviderAnswer → Texts → ComposedContext
unfolding gather_all unavailable compose
retrieve_and_compose show_locator request answers texts =
    compose show_locator request (map (λ entry. entry.1) (gather_all request answers [])) texts
      (unavailable answers)
