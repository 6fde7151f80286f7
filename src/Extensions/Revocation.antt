-- ===== src/Extensions/Revocation.antt =====
-- `disable` of a published extension takes every capability of it out of the registry.
use nju_personal_assistant.Base.{
  String, List, [], ◌∷◌, ◌+◌, none, some, Dict, lookup, ◌≡◌, ◌≢◌, refl, sym, ap, ◌∙◌, arith,
  string_eq, nat_eq,
}
use mathlib.Core.Path.{subst}
use nju_personal_assistant.Domain.Errors.{ok}
use nju_personal_assistant.Domain.Exec.{continue, ◌>>◌, lift}
use nju_personal_assistant.Extensions.Registry.{
  ExtensionRecord, CapabilityOwner, owner_of, values_of, enabled, extension_state_eq,
}
use nju_personal_assistant.Extensions.Owners.{build_from-IsServed}
use nju_personal_assistant.Extensions.Soundness.{
  IsSound, IsOut, registry_disable-IsOut, IsSound-IsBetween,
}
use nju_personal_assistant.Extensions.Lifecycle.{require, take_down, disable}
use nju_personal_assistant.Extensions.Ports.{
  World, Ports, known_extension, require_state, registry_disable,
}
use nju_personal_assistant.Extensions.Steps.{counted-IsCoherent}
use nju_personal_assistant.Extensions.Preservation.{continue-keeps}
use nju_personal_assistant.Extensions.Runs.{Command, run, fresh_world}
use nju_personal_assistant.Extensions.Calls.{take_down-Keeps}
use nju_personal_assistant.Extensions.Promises.{IsFiled, run-IsSound}

module _ (ports : Ports) (i : String) (r : ExtensionRecord) (w : World) where
  require-eq :
      ports.read w.calls ≡ ok tt
      → lookup i w.records ≡ some r
      → require ports i w ≡ (ok r, record w { calls = w.calls + 1 })
  unfolding require known_extension
  require-eq read stored = rw (read, stored) refl

  require_enabled : r.state ≡ enabled → require_state r (enabled ∷ []) ≡ ok tt
  unfolding require_state
  require_enabled running = rw running refl

  taken_down-IsOut :
      r.manifest.id ≡ i → IsSound w → IsOut i ((registry_disable i >> take_down ports r) w).1
  taken_down-IsOut own h =
      let (out, _) = registry_disable-IsOut i w (IsSound-IsBetween i w h) in
      continue-keeps (IsOut i) (registry_disable i w).0 (λ _. take_down ports r)
        (registry_disable i w).1 out
        λ x.
          subst (λ j. (v : World) → IsOut j v → IsOut j (take_down ports r v).1) own
            (take_down-Keeps ports i r)

module _ (ports : Ports) (i : String) (r : ExtensionRecord) (w : World) where
  disable-IsOut :
      ports.read w.calls ≡ ok tt
      → lookup i w.records ≡ some r
      → r.state ≡ enabled
      → IsSound w
      → IsOut i (disable ports i w).1
  unfolding disable
  disable-IsOut read stored running (h, s) =
      let v = record w { calls = w.calls + 1 } in
      let rest = λ (q : ExtensionRecord).
        lift (require_state q (enabled ∷ [])) >> (registry_disable i >> take_down ports q) in
      subst (λ p. IsOut i (continue p.0 rest p.1).1) (sym (require-eq ports i r w read stored))
        (subst (λ z. IsOut i (continue z (λ _. registry_disable i >> take_down ports r) v).1)
          (sym (require_enabled ports i r w running))
          (taken_down-IsOut ports i r v (h.keyed i r stored)
            (counted-IsCoherent w (w.calls + 1) h, s)))

-- After any calls, where the store can be read and holds the extension as ENABLED, `disable` leaves no
-- capability that the extension owns, whether it returns or raises at a later port.
pub disable_revokes :
    (ports : Ports) (records : Dict String ExtensionRecord) (commands : List Command) (i : String)
    (r : ExtensionRecord) (c : String) (o : CapabilityOwner)
    → IsFiled records
    → ports.read (run ports commands (fresh_world records)).calls ≡ ok tt
    → lookup i (run ports commands (fresh_world records)).records ≡ some r
    → r.state ≡ enabled
    → owner_of c (disable ports i (run ports commands (fresh_world records))).1.registry ≡ some o
    → o.extension_id ≢ i
unfolding owner_of lookup
disable_revokes ports records commands i r c o filed read stored running k named =
    let w = run ports commands (fresh_world records) in
    let ((h, s), out) =
      disable-IsOut ports i r w read stored running (run-IsSound ports records commands filed) in
    let e = (disable ports i w).1.registry in
    let (q, at, own) =
      build_from-IsServed (values_of e.extensions) ([], []) (e.extensions, e.capabilities) h.built
        (λ c o e. absurd (ground (arith, e))) c o k in
    let gone : lookup o.extension_id e.extensions ≡ none =
      ap (λ j. lookup j e.extensions) named ∙ out in
    ground (arith, at, gone)
