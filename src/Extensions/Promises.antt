-- ===== src/Extensions/Promises.antt =====
-- What the lifecycle manager promises after any calls.
use nju_personal_assistant.Base.{
  String, List, [], ◌∷◌, some, Dict, lookup, ◌≡◌, refl, arith, All, false, string_eq,
}
use nju_personal_assistant.Extensions.Registry.{
  ExtensionRecord, CapabilityOwner, owner_of, values_of, enabled, build_from,
}
use nju_personal_assistant.Extensions.Rebuilding.{IsKeyed}
use nju_personal_assistant.Extensions.Owners.{IsOwner, build_from-IsServed}
use nju_personal_assistant.Extensions.Soundness.{IsSound}
use nju_personal_assistant.Extensions.Ports.{World, Ports, Touch}
use nju_personal_assistant.Extensions.Runs.{
  Command, enable_call, disable_call, uninstall_call, step, run, fresh_world,
}
use nju_personal_assistant.Extensions.Calls.{enable-IsSound, disable-IsSound}
use nju_personal_assistant.Extensions.Uninstalls.{uninstall-IsSound}

-- Each stored record stands under the id of its manifest.
abbrev pub IsFiled : Dict String ExtensionRecord → Type 0
IsFiled records = (i : String) (r : ExtensionRecord) → lookup i records ≡ some r → r.manifest.id ≡ i

module _ (ports : Ports) where
  step-IsSound : (c : Command) (w : World) → IsSound w → IsSound (step ports c w)
  unfolding step
  step-IsSound (enable_call i) w h = enable-IsSound ports i w h
  step-IsSound (disable_call i) w h = disable-IsSound ports i w h
  step-IsSound (uninstall_call i) w h = uninstall-IsSound ports i w h

  from-IsSound : (commands : List Command) (w : World) → IsSound w → IsSound (run ports commands w)
  unfolding run
  from-IsSound [] w h = h
  from-IsSound (c ∷ commands) w h = from-IsSound commands (step ports c w) (step-IsSound c w h)

  fresh-IsSound :
      (records : Dict String ExtensionRecord) → IsFiled records → IsSound (fresh_world records)
  unfolding lookup build_from IsKeyed
  fresh-IsSound records filed = (
    record { keyed = filed; shelved = tt; built = refl; revoked = tt },
    (λ i r h. absurd (ground (arith, h))),
  )

  pub run-IsSound :
      (records : Dict String ExtensionRecord) (commands : List Command)
      → IsFiled records
      → IsSound (run ports commands (fresh_world records))
  run-IsSound records commands filed =
      from-IsSound commands (fresh_world records) (fresh-IsSound records filed)

  -- After any calls, each of which may raise at any port, the owner of a capability in the registry is
  -- an extension that is stored as ENABLED, in the version that the registry names.
  pub capability_enabled :
      (records : Dict String ExtensionRecord) (commands : List Command) (c : String)
      (o : CapabilityOwner)
      → IsFiled records
      → owner_of c (run ports commands (fresh_world records)).registry ≡ some o
      → (r : ExtensionRecord) × (lookup o.extension_id
            (run ports commands (fresh_world records)).records
          ≡ some r)
        × (r.state ≡ enabled)
        × IsOwner r o
  unfolding owner_of lookup
  capability_enabled records commands c o filed k =
      let w = run ports commands (fresh_world records) in
      let (h, s) = run-IsSound records commands filed in
      let (r, at, own) =
        build_from-IsServed (values_of w.registry.extensions) ([], [])
          (w.registry.extensions, w.registry.capabilities) h.built
          (λ c o e. absurd (ground (arith, e))) c o k in
      let (stored, running) = s o.extension_id r at in (r, stored, running, own)

  -- After any calls, each of which may raise at any port, no worker was drained or stopped, and no code
  -- deleted, while the registry published its extension.
  pub revoked_first :
      (records : Dict String ExtensionRecord) (commands : List Command)
      → IsFiled records
      → All (λ (t : Touch). t.published ≡ false) (run ports commands (fresh_world records)).touched
  revoked_first records commands filed = (run-IsSound records commands filed).0.revoked
