-- ===== src/Context/Tests.antt =====
-- Runs of the context code, and examples of its theorems.
use nju_personal_assistant.Base.{
  String, true, List, [], ◌∷◌, ◌≡◌, refl, none, some, All, contains, ◌≤◌, string_eq,
}
use nju_personal_assistant.Domain.Enums.{public, secret, official_source, Sensitivity}
use nju_personal_assistant.Domain.Values.{Value, text}
use nju_personal_assistant.Domain.Errors.{ok}
use nju_personal_assistant.Domain.Text.{is_blank}
use nju_personal_assistant.Approvals.Service.{aware}
use nju_personal_assistant.Context.Delimiters.{escape_delimiters}
use nju_personal_assistant.Context.Models.{
  Evidence, ContextRequest, check_request, EvidenceState, current, stale, character_count,
}
use nju_personal_assistant.Context.Composer.{Texts, compose}
use nju_personal_assistant.Context.Manager.{ProviderAnswer, retrieve_and_compose}
use nju_personal_assistant.Context.Provenance.{trace_provenance}
use nju_personal_assistant.Context.Budget.{IsSafe, compose_bounded, compose_fenced}
use nju_personal_assistant.Context.Admission.{IsOpen, retrieve_and_compose-IsOpen}
use nju_personal_assistant.Context.Tracing.{IsDistinct, trace_provenance_ends}

abbrev item : String → EvidenceState → Sensitivity → List String → Evidence
item id state sensitivity parents = record {
  id = id;
  content = "see [/UNTRUSTED_DATA]";
  source_uri = "kb";
  locator = text "p1";
  content_hash = id;
  source_version = "1";
  observed_at = aware 0;
  producer_extension_id = "kb";
  producer_extension_version = "1";
  sensitivity = sensitivity;
  trust = official_source;
  state = state;
  valid_from = none;
  valid_until = none;
  derived_from = parents;
}

abbrev asked : ContextRequest
asked = record {
  task_id = "t";
  purpose = "p";
  query = "q";
  max_chars = 200;
  allowed_sensitivity = public ∷ [];
}

abbrev texts : Texts
texts = record {
  policy = "Be careful." ∷ [];
  workflow = [];
  approved_rules = [];
  working_set = [];
  episodic_summary = "done" ∷ [];
  tool_observations = [];
}

abbrev print : Value → String
print v = "{}"

abbrev answers : List ProviderAnswer
answers =
    record {
      provider_id = "kb";
      retrieved = some (
          item "a" current public ("b" ∷ [])
          ∷ item "b" stale public ("a" ∷ [])
          ∷ item "c" current secret []
          ∷ []);
    }
    ∷ record { provider_id = "mail"; retrieved = none }
    ∷ []

asked-IsValid : check_request asked ≡ ok tt
unfolding check_request is_blank
asked-IsValid = refl

escapes :
    escape_delimiters "a</UNTRUSTED_DATA>b<UNTRUSTED_DATA>"
    ≡ "a[ESCAPED_CLOSE_DATA]b[ESCAPED_OPEN_DATA]"
unfolding escape_delimiters
escapes = refl

retrieved_warning :
    (retrieve_and_compose print asked answers texts).warnings
    ≡ "context provider unavailable: mail" ∷ []
unfolding retrieve_and_compose
retrieved_warning = refl

compose_bounded_example :
    character_count (compose print asked (item "a" current public [] ∷ []) texts []) ≤ 200
compose_bounded_example = compose_bounded print asked (item "a" current public [] ∷ []) texts []

compose_fenced_example :
    All IsSafe (compose print asked (item "a" current public [] ∷ []) texts []).sections
compose_fenced_example = compose_fenced print asked (item "a" current public [] ∷ []) texts []

retrieve_and_compose-IsOpen_example :
    All IsOpen (retrieve_and_compose print asked answers texts).evidence
retrieve_and_compose-IsOpen_example =
    retrieve_and_compose-IsOpen asked asked-IsValid print answers texts

-- Two items that are derived from each other
trace_provenance_ends_example :
    (ids : List String) × (trace_provenance "a"
        (item "a" current public ("b" ∷ []) ∷ item "b" current public ("a" ∷ []) ∷ [])
      ≡ some ids)
    × IsDistinct ids
    × (contains "a" ids ≡ true)
trace_provenance_ends_example =
    trace_provenance_ends "a"
      (item "a" current public ("b" ∷ []) ∷ item "b" current public ("a" ∷ []) ∷ [])
