-- ===== src/Tasks/DraftTests.antt =====
-- A form draft that is replaced twice, and the first command once more.
use nju_personal_assistant.Base.{Bool, false, List, [], ◌∷◌, lookup, insert, string_eq, ◌≡◌, refl}
use nju_personal_assistant.Domain.Errors.{ok}
use nju_personal_assistant.Domain.Values.{Value, text, object, field, end, name}
use nju_personal_assistant.Tasks.Drafts.{FormDraft, DraftStore, create_draft, replace_draft}
use nju_personal_assistant.Tasks.Receipts.{
  DraftCommand, replace_command, obey_all, replace_draft_replayed,
}

abbrev never_same : Value → Value → Bool
never_same v w = false

abbrev draft : FormDraft
draft = record {
  task_id = "t";
  extension_id = "forms";
  extension_version = "1";
  form_id = "leave";
  json_schema = ("properties", object (field (name "reason") (object end) end)) ∷ [];
  ui_schema = [];
  values = [];
  sources = [];
  version = 1;
  updated_at = 0;
}

abbrev store : DraftStore
store = (create_draft draft "k0" "f0" (record { drafts = []; commands = [] })).1

abbrev first : FormDraft
first = record draft {
  values = ("reason", text "ill") ∷ [];
  sources = ("reason", "USER_INPUT") ∷ [];
  version = 2;
  updated_at = 5;
}

abbrev further : List DraftCommand
further = replace_command "t" (("reason", text "well") ∷ []) 2 "k2" "f2" 6 ∷ []

replaced :
    (replace_draft never_same "t" (("reason", text "ill") ∷ []) 1 "k1" "f1" 5 store).0 ≡ ok first
unfolding replace_draft create_draft lookup insert
replaced = refl

replace_draft_replayed_example :
    replace_draft never_same "t" (("reason", text "ill") ∷ []) 1 "k1" "f1" 9 (
      obey_all never_same further
        (replace_draft never_same "t" (("reason", text "ill") ∷ []) 1 "k1" "f1" 5 store).1)
    ≡ (
      ok first,
      obey_all never_same further
          (replace_draft never_same "t" (("reason", text "ill") ∷ []) 1 "k1" "f1" 5 store).1,
    )
replace_draft_replayed_example =
    replace_draft_replayed never_same "t" (("reason", text "ill") ∷ []) 1 "k1" "f1" 5 9 further
      store first replaced
