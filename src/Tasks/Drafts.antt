-- ===== src/Tasks/Drafts.antt =====
-- `FormDraft` of src/personal_assistant/core/tasks/form_drafts.py and `InMemoryFormDraftStore` of
-- src/personal_assistant/infrastructure/memory/form_drafts.py. Each method holds the lock, so a call is
-- one step. Python's `==` on the values of a form is an argument.
use nju_personal_assistant.Base.{
  ℕ, ◌+◌, String, Bool, List, [], ◌∷◌, Option, none, some, Dict, lookup, insert, map, not, ◌==◌,
  nat_eq, string_eq, if◌then◌else◌,
}
use nju_personal_assistant.Domain.Errors.{
  Result, ok, err, raise, bind, concat, concurrent_modification, not_found, key_error, type_error,
}
use nju_personal_assistant.Domain.Exec.{Exec}
use nju_personal_assistant.Domain.Values.{Value, object, Fields, end, field}
use nju_personal_assistant.Audit.Redaction.{key_text}

pub record FormDraft : Type 0 where
  pub task_id : String
  pub extension_id : String
  pub extension_version : String
  pub form_id : String
  pub json_schema : Dict String Value
  pub ui_schema : Dict String Value
  pub values : Dict String Value
  pub sources : Dict String String
  pub version : ℕ
  pub updated_at : ℕ

pub record DraftStore : Type 0 where
  pub drafts : Dict String FormDraft
  -- Per idempotency key: the fingerprint of the command and what it returned
  pub commands : Dict String (String × FormDraft)

unfoldable pub found_draft : String → Option FormDraft → Exec DraftStore FormDraft
unfolding concat
found_draft task_id none s =
    (raise not_found (concat ("form draft not found for task " ∷ task_id ∷ [])), s)
found_draft task_id (some d) s = (ok d, s)

unfoldable pub get_draft : String → Exec DraftStore FormDraft
unfolding found_draft
get_draft task_id s = found_draft task_id (lookup task_id s.drafts) s

unfoldable pub command_receipt : String → DraftStore → Option (String × FormDraft)
command_receipt key s = lookup key s.commands

-- `_replay`
unfoldable pub replay : Option (String × FormDraft) → String → Result (Option FormDraft)
replay none fingerprint = ok none
replay (some (original, d)) fingerprint =
    if not (original == fingerprint)
    then raise concurrent_modification "draft idempotency key was reused with new content"
    else ok (some d)

abbrev pub with_draft : String → String → FormDraft → DraftStore → DraftStore
with_draft key fingerprint d s = record {
  drafts = insert d.task_id d s.drafts;
  commands = insert key (fingerprint, d) s.commands;
}

unfoldable pub create_first :
    Option FormDraft → FormDraft → String → String → Exec DraftStore FormDraft
create_first (some _) d key fingerprint s =
    (raise concurrent_modification "task already has a form draft", s)
create_first none d key fingerprint s = (ok d, with_draft key fingerprint d s)

unfoldable pub create_unless :
    Result (Option FormDraft) → FormDraft → String → String → Exec DraftStore FormDraft
unfolding create_first
create_unless (err e) d key fingerprint s = (err e, s)
create_unless (ok (some earlier)) d key fingerprint s = (ok earlier, s)
create_unless (ok none) d key fingerprint s =
    create_first (lookup d.task_id s.drafts) d key fingerprint s

unfoldable pub create_draft : FormDraft → String → String → Exec DraftStore FormDraft
unfolding create_unless replay
create_draft d key fingerprint s =
    create_unless (replay (lookup key s.commands) fingerprint) d key fingerprint s

field_names : Fields → List String
unfolding key_text
field_names end = []
field_names (field k v fs) = key_text k ∷ field_names fs

-- `current.json_schema["properties"]`, a dictionary in each schema that the service stores
properties_of : Option Value → Result (List String)
unfolding field_names
properties_of none = raise key_error "properties"
properties_of (some (object fs)) = ok (field_names fs)
properties_of (some _) = raise type_error ""

-- `current.sources.get(name, "UNKNOWN")`
or_unknown : Option String → String
or_unknown none = "UNKNOWN"
or_unknown (some s) = s

module _ (same : Value → Value → Bool) where
  -- Where the value of a field comes from once it is replaced
  unfoldable pub source_of : Option String → Option Value → Option Value → String
  unfolding or_unknown
  source_of earlier old none = "UNKNOWN"
  source_of earlier none (some new) = "USER_INPUT"
  source_of earlier (some old) (some new) =
      if same old new then or_unknown earlier else "USER_INPUT"

  sources_for : FormDraft → Dict String Value → List String → Dict String String
  unfolding source_of
  sources_for d values names =
      map
        (λ name.
          (name, source_of (lookup name d.sources) (lookup name d.values) (lookup name values)))
        names

  unfoldable pub saved_draft : FormDraft → Dict String Value → ℕ → ℕ → Result FormDraft
  unfolding properties_of sources_for
  saved_draft d values version now =
      bind (properties_of (lookup "properties" d.json_schema)) (λ names. ok (record d {
        values = values;
        sources = sources_for d values names;
        version = version + 1;
        updated_at = now;
      }))

  unfoldable pub store_saved :
      Result FormDraft → String → String → String → Exec DraftStore FormDraft
  store_saved (err e) task_id key fingerprint s = (err e, s)
  store_saved (ok d) task_id key fingerprint s = (
    ok d,
    record {
      drafts = insert task_id d s.drafts;
      commands = insert key (fingerprint, d) s.commands;
    },
  )

  unfoldable pub replace_current :
      Option FormDraft
      → String
      → Dict String Value
      → ℕ
      → String
      → String
      → ℕ
      → Exec DraftStore FormDraft
  unfolding concat saved_draft store_saved
  replace_current none task_id values version key fingerprint now s =
      (raise not_found (concat ("form draft not found for task " ∷ task_id ∷ [])), s)
  replace_current (some current) task_id values version key fingerprint now s =
      if not (current.version == version)
      then (raise concurrent_modification "form draft version changed", s)
      else store_saved (saved_draft current values version now) task_id key fingerprint s

  unfoldable pub replace_unless :
      Result (Option FormDraft)
      → String
      → Dict String Value
      → ℕ
      → String
      → String
      → ℕ
      → Exec DraftStore FormDraft
  unfolding replace_current
  replace_unless (err e) task_id values version key fingerprint now s = (err e, s)
  replace_unless (ok (some earlier)) task_id values version key fingerprint now s = (ok earlier, s)
  replace_unless (ok none) task_id values version key fingerprint now s =
      replace_current (lookup task_id s.drafts) task_id values version key fingerprint now s

  unfoldable pub replace_draft :
      String → Dict String Value → ℕ → String → String → ℕ → Exec DraftStore FormDraft
  unfolding replace_unless replay
  replace_draft task_id values version key fingerprint now s =
      replace_unless (replay (lookup key s.commands) fingerprint) task_id values version key
        fingerprint now s
