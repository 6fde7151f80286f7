-- ===== src/Extensions/Ports.antt =====
-- The ports of `LifecycleManager` of src/personal_assistant/core/extensions/lifecycle.py, and what its
-- methods are made of. What a port does is a function of the number of calls of ports so far; each of
-- them may raise, a save before or after it wrote. The calls of one manager follow one another. The
-- store keeps what infrastructure/memory/extensions.py keeps.
use nju_personal_assistant.Base.{
  ℕ, zero, suc, ◌+◌, String, Bool, true, false, List, [], ◌∷◌, Option, none, some, Dict, lookup,
  insert, not, contains, ◌||◌, string_eq, nat_eq, if◌then◌else◌,
}
use nju_personal_assistant.Domain.Errors.{
  ErrorClass, Error, Result, ok, err, raise, concat, extension_error, duplicate_capability,
  invalid_lifecycle_transition, extension_operation_error, rpc_timeout,
}
use nju_personal_assistant.Domain.Exec.{Exec, pure, throw}
use nju_personal_assistant.Domain.Values.{value_at, pos, Value, boolean, integer, Fields}
use nju_personal_assistant.Extensions.Registry.{
  ExtensionState, extension_state_eq, uninstalled, ExtensionRecord, Snapshot, withdraw,
  publish_extension,
}

-- What a save does: it writes and returns, raises, or writes and then raises.
pub data SaveOutcome : Type 0 where
  wrote : SaveOutcome
  lost torn : Error → SaveOutcome

pub record Ports : Type 0 where
  pub read : ℕ → Result (Unit {0})
  pub save : ℕ → ExtensionRecord → SaveOutcome
  pub start : ℕ → ExtensionRecord → Result (Unit {0})
  pub health : ℕ → ExtensionRecord → Result Bool
  pub drain : ℕ → ExtensionRecord → Result (Option Fields)
  pub stop : ℕ → ExtensionRecord → Result (Unit {0})
  pub uninstall_code : ℕ → ExtensionRecord → Result (Unit {0})

-- A worker that was drained or stopped, or whose code was deleted, and whether the registry published
-- its extension then
pub record Touch : Type 0 where
  pub extension_id : String
  pub published : Bool

pub record World : Type 0 where
  pub records : Dict String ExtensionRecord
  pub registry : Snapshot
  pub touched : List Touch
  pub calls : ℕ

unfoldable pub is_published : String → World → Bool
is_published i w = elim (lookup i w.registry.extensions) [ none ↦ false | some _ ↦ true ]

-- A call of a port that only answers
abbrev pub ask {α} : {R : Type α} → (ℕ → Result R) → Exec World R
ask answer w = (answer w.calls, record w { calls = w.calls + 1 })

-- The same, of a port that takes the worker down or deletes its code
unfoldable pub touch {α} : {R : Type α} → ExtensionRecord → (ℕ → Result R) → Exec World R
unfolding is_published
touch r answer w = (
  answer w.calls,
  record w {
    calls = w.calls + 1;
    touched =
        record { extension_id = r.manifest.id; published = is_published r.manifest.id w }
        ∷ w.touched;
  },
)

-- The result of a part under `try`
abbrev pub caught {α} : {R : Type α} → Exec World R → Exec World (Result R)
caught m w = let (r, w') = m w in (ok r, w')

-- isinstance(exc, ExtensionError)
is_extension_error : ErrorClass → Bool
is_extension_error extension_error = true
is_extension_error duplicate_capability = true
is_extension_error invalid_lifecycle_transition = true
is_extension_error extension_operation_error = true
is_extension_error rpc_timeout = true
is_extension_error _ = false

is_timeout : ErrorClass → Bool
is_timeout rpc_timeout = true
is_timeout _ = false

is_false : Option Value → Bool
is_false (some (boolean b)) = not b
is_false _ = false

-- isinstance(active, int) and active > 0
is_positive : Option Value → Bool
is_positive (some (integer (pos zero))) = false
is_positive (some (integer (pos (suc n)))) = true
is_positive (some (boolean b)) = b
is_positive _ = false

in_flight : Option Fields → Bool
unfolding is_false is_positive
in_flight none = false
in_flight (some report) =
    is_false (value_at "drained" report) || is_positive (value_at "active_calls" report)

drain_timeout : String → Error
drain_timeout message = record { cls = extension_operation_error; message = message }

-- What is raised at the end, after the drain returned or raised; `err` is what goes on at once.
unfoldable pub drain_error : Result (Option Fields) → Result (Option Error)
unfolding in_flight drain_timeout is_extension_error is_timeout concat
drain_error (ok report) =
    if in_flight report
    then ok
        (some (drain_timeout "extension reported in-flight calls when the drain deadline expired"))
    else ok none
drain_error (err e) =
    if is_timeout e.cls
    then ok (
        some (
          drain_timeout
            (concat ("extension did not drain before the deadline: " ∷ e.message ∷ []))))
    else if is_extension_error e.cls
    then ok (some e)
    else err e

unfoldable pub raise_or {α} : {R : Type α} → Option Error → R → Exec World R
raise_or none r = pure r
raise_or (some e) r = throw e

unfoldable pub known_extension : Option ExtensionRecord → String → Result ExtensionRecord
unfolding concat
known_extension none i = raise extension_error (concat ("unknown extension: " ∷ i ∷ []))
known_extension (some r) i = ok r

-- `_require_state`; the message lists the states.
unfoldable pub require_state : ExtensionRecord → List ExtensionState → Result (Unit {0})
require_state r states =
    if not (contains r.state states)
    then raise invalid_lifecycle_transition "cannot do this from the state of the extension"
    else ok tt

abbrev pub in_state : ExtensionState → ExtensionRecord → ExtensionRecord
in_state state r = record r { state = state }

abbrev pub store_record : ExtensionRecord → World → World
store_record r w = record w { records = insert r.manifest.id r w.records }

-- `store.save`
unfoldable pub save_ending : SaveOutcome → ExtensionRecord → Exec World (Unit {0})
save_ending wrote r w = (ok tt, store_record r w)
save_ending (lost e) r w = (err e, w)
save_ending (torn e) r w = (err e, store_record r w)

unfoldable pub published_as : Result Snapshot → Exec World (Unit {0})
published_as (ok s) w = (ok tt, record w { registry = s })
published_as (err e) w = (err e, w)

unfoldable pub registry_disable : String → Exec World (Unit {0})
unfolding published_as withdraw
registry_disable i w = published_as (withdraw i w.registry) w

unfoldable pub registry_enable : ExtensionRecord → Exec World (Unit {0})
unfolding published_as publish_extension
registry_enable r w = published_as (publish_extension r w.registry) w

abbrev pub removed : ExtensionRecord → ExtensionRecord
removed r = record r {
  state = uninstalled;
  install_path = none;
  data_retained = true;
  tombstone = true;
}
