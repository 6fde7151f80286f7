-- ===== src/Context/Composer.antt =====
-- `ContextComposer.compose` of src/personal_assistant/core/context/composer.py. What Python prints for a
-- locator is an argument.
use nju_personal_assistant.Base.{
  ℕ, ◌-◌, String, Bool, true, false, List, [], ◌∷◌, ◌++◌, leb, ltb, ◌==◌, string_eq, ◌||◌,
  if◌then◌else◌,
}
use nju_personal_assistant.Domain.Enums.{
  ContextLayer, policy, workflow, approved_rule, task_working_set, retrieved_evidence,
  episodic_summary, tool_observation, trust_value, sensitivity_eq,
}
use nju_personal_assistant.Domain.Errors.{concat}
use nju_personal_assistant.Domain.Text.{is_blank, strip, text_length, take_text}
use nju_personal_assistant.Domain.Values.{Value}
use nju_personal_assistant.Context.Delimiters.{wrap_untrusted, join_lines}
use nju_personal_assistant.Context.Models.{
  Evidence, ContextRequest, ContextSection, ComposedContext,
}

-- What the loops of `compose` change.
pub record Composing : Type 0 where
  pub remaining : ℕ
  pub sections : List ContextSection
  pub selected : List Evidence
  pub omitted : List String

unfoldable pub stripped : List String → List String
unfolding strip is_blank
stripped [] = []
stripped (v ∷ values) = let rest = stripped values in if is_blank v then rest else strip v ∷ rest

unfoldable pub add_section : ContextSection → Composing → Composing
add_section s c = record c {
  remaining = c.remaining - text_length s.content;
  sections = c.sections ++ s ∷ [];
}

unfoldable pub add_content : ContextLayer → Bool → String → Composing → Composing
unfolding add_section
add_content layer untrusted content c =
    if content == ""
    then c
    else add_section
        (record { layer = layer; content = content; source_ids = []; untrusted_data = untrusted }) c

-- What one layer shows: all of it if it fits, or what fits.
unfoldable pub shown : Bool → String → ℕ → String
unfolding wrap_untrusted take_text
shown true raw remaining = wrap_untrusted raw remaining
shown false raw remaining = take_text remaining raw

-- The local function `add`.
unfoldable pub add : ContextLayer → Bool → List String → Composing → Composing
unfolding stripped add_content shown join_lines
add layer untrusted values c =
    let raw = join_lines (stripped values) in
    if leb c.remaining 0
    then c
    else if raw == ""
    then c
    else add_content layer untrusted (shown untrusted raw c.remaining) c

-- The texts of the layers, in their order of authority.
pub record Texts : Type 0 where
  pub policy : List String
  pub workflow : List String
  pub approved_rules : List String
  pub working_set : List String
  pub episodic_summary : List String
  pub tool_observations : List String

unfoldable pub before_evidence : Texts → Composing → Composing
before_evidence texts c = add task_working_set false texts.working_set (
    add approved_rule false texts.approved_rules
      (add workflow false texts.workflow (add policy false texts.policy c)))

unfoldable pub after_evidence : Texts → Composing → Composing
after_evidence texts c =
    add tool_observation true texts.tool_observations
      (add episodic_summary true texts.episodic_summary c)

abbrev pub started : ℕ → Composing
started max_chars = record { remaining = max_chars; sections = []; selected = []; omitted = [] }

-- One item of evidence, rendered and fenced, is added, or is omitted where it does not fit.
unfoldable pub offer_wrapped : Evidence → String → Composing → Composing
unfolding add_section
offer_wrapped e wrapped c =
    if wrapped == "" || ltb c.remaining (text_length wrapped)
    then record c { omitted = c.omitted ++ e.id ∷ [] }
    else add_section
        (record {
          layer = retrieved_evidence;
          content = wrapped;
          source_ids = e.id ∷ [];
          untrusted_data = true;
        })
        (record c { selected = c.selected ++ e ∷ [] })

module _ (show_locator : Value → String) where
  unfoldable pub rendered : Evidence → String
  unfolding concat trust_value
  rendered e = concat (
      "source="
      ∷ e.source_uri
      ∷ "; locator="
      ∷ show_locator e.locator
      ∷ "; hash="
      ∷ e.content_hash
      ∷ "; trust="
      ∷ trust_value e.trust
      ∷ "\n"
      ∷ e.content
      ∷ [])

  unfoldable pub offer : Evidence → Composing → Composing
  unfolding rendered wrap_untrusted offer_wrapped
  offer e c = offer_wrapped e (wrap_untrusted (rendered e) c.remaining) c

  unfoldable pub offer_all : List Evidence → Composing → Composing
  unfolding offer
  offer_all [] c = c
  offer_all (e ∷ es) c = offer_all es (offer e c)

  unfoldable pub composed : ContextRequest → List Evidence → Texts → Composing
  unfolding before_evidence after_evidence offer_all
  composed request evidence texts =
      after_evidence texts (offer_all evidence (before_evidence texts (started request.max_chars)))

  unfoldable pub compose : ContextRequest → List Evidence → Texts → List String → ComposedContext
  unfolding composed
  compose request evidence texts warnings =
      let c = composed request evidence texts in
      record {
        sections = c.sections;
        evidence = c.selected;
        omitted_evidence_ids = c.omitted;
        warnings = warnings;
      }
