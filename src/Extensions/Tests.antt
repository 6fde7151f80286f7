-- ===== src/Extensions/Tests.antt =====
-- Two extensions, and ports that answer, the drain with calls in flight.
use nju_personal_assistant.Base.{
  String, true, false, List, [], ◌∷◌, some, Dict, lookup, insert, delete, ◌≡◌, ◌≢◌, refl, arith,
  string_eq, All,
}
use nju_personal_assistant.Domain.Errors.{ok, extension_operation_error, raise}
use nju_personal_assistant.Domain.Values.{Fields, name, end, field, integer, pos, value_at}
use nju_personal_assistant.Extensions.Registry.{
  ExtensionRecord, owner_of, claims_of, enabled, disabled, installed_disabled,
}
use nju_personal_assistant.Extensions.Owners.{IsOwner}
use nju_personal_assistant.Extensions.Lifecycle.{disable}
use nju_personal_assistant.Extensions.Ports.{World, Ports, Touch, wrote, in_state}
use nju_personal_assistant.Extensions.Runs.{
  Command, enable_call, disable_call, uninstall_call, run, fresh_world,
}
use nju_personal_assistant.Extensions.Promises.{IsFiled, capability_enabled, revoked_first}
use nju_personal_assistant.Extensions.Revocation.{disable_revokes}

abbrev mail : ExtensionRecord
mail = record {
  manifest = record {
    id = "mail";
    version = "1.2.0";
    slots = ("tools", "mail.send" ∷ "mail.read" ∷ []) ∷ [];
  };
  artifact_hash = "a1";
  state = installed_disabled;
  install_path = some "mail/1.2.0";
  data_retained = true;
  tombstone = false;
}

abbrev calendar : ExtensionRecord
calendar = record {
  manifest = record {
    id = "calendar";
    version = "0.3.1";
    slots = ("tools", "calendar.read" ∷ []) ∷ [];
  };
  artifact_hash = "c1";
  state = installed_disabled;
  install_path = some "calendar/0.3.1";
  data_retained = true;
  tombstone = false;
}

abbrev installed : Dict String ExtensionRecord
installed = ("mail", mail) ∷ ("calendar", calendar) ∷ []

abbrev busy : Fields
busy = field (name "active_calls") (integer (pos 2)) end

abbrev answering : Ports
answering = record {
  read = λ n. ok tt;
  save = λ n r. wrote;
  start = λ n r. ok tt;
  health = λ n r. ok true;
  drain = λ n r. ok (some busy);
  stop = λ n r. ok tt;
  uninstall_code = λ n r. ok tt;
}

abbrev both : List Command
both = enable_call "mail" ∷ enable_call "calendar" ∷ []

installed-IsFiled : IsFiled installed
unfolding lookup
installed-IsFiled i r h =
    ground (arith, h, string_eq.equal_iff "mail" i, string_eq.equal_iff "calendar" i)

-- Both are enabled.
abbrev after : World
after = run answering both (fresh_world installed)

capability_enabled_example :
    (r : ExtensionRecord) × (lookup "mail" (run answering both (fresh_world installed)).records
      ≡ some r)
    × (r.state ≡ enabled)
    × IsOwner r (record { extension_id = "mail"; extension_version = "1.2.0"; slot = "tools" })
unfolding run owner_of lookup insert claims_of
capability_enabled_example =
    capability_enabled answering installed both "mail.read"
      (record { extension_id = "mail"; extension_version = "1.2.0"; slot = "tools" })
      installed-IsFiled refl

revoked_first_example :
    All
      (λ (t : Touch). t.published ≡ false)
      (run answering
        (enable_call "mail" ∷ uninstall_call "mail" ∷ disable_call "mail" ∷ [])
        (fresh_world installed)).touched
revoked_first_example =
    revoked_first answering installed
      (enable_call "mail" ∷ uninstall_call "mail" ∷ disable_call "mail" ∷ []) installed-IsFiled

disable_revokes_example : ◌≢◌ {A = String} "calendar" "mail"
unfolding run owner_of lookup disable insert delete claims_of value_at
disable_revokes_example =
    disable_revokes answering installed both "mail" (in_state enabled mail) "calendar.read"
      (record { extension_id = "calendar"; extension_version = "0.3.1"; slot = "tools" })
      installed-IsFiled refl refl refl refl

-- The drain reports calls in flight: the extension is disabled all the same, and the caller is told.
disable_busy :
    (lookup "mail" (disable answering "mail" after).1.records ≡ some (in_state disabled mail))
    × ((disable answering "mail" after).0
        ≡ raise extension_operation_error
            "extension reported in-flight calls when the drain deadline expired")
unfolding run disable lookup insert delete claims_of value_at
disable_busy = (refl, refl)

-- A worker that does not pass its health check is stopped, and the extension is not published.
enable_unhealthy :
    (run
      (record answering { health = λ n r. ok false })
      (enable_call "mail" ∷ [])
      (fresh_world installed)).touched
    ≡ record { extension_id = "mail"; published = false } ∷ []
unfolding run lookup
enable_unhealthy = refl
