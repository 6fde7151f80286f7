-- ===== src/Extensions/Lifecycle.antt =====
-- `LifecycleManager` of src/personal_assistant/core/extensions/lifecycle.py: enable, recover, disable and
-- uninstall. A cleanup under `shield_cleanup` runs to its end.
use nju_personal_assistant.Base.{
  ◌+◌, String, Bool, true, false, [], ◌∷◌, Option, lookup, ◌==◌, string_eq, nat_eq, if◌then◌else◌,
}
use nju_personal_assistant.Domain.Errors.{Error, Result, ok, err, raise, extension_operation_error}
use nju_personal_assistant.Domain.Exec.{Exec, ◌>>=◌, ◌>>◌, lift, pure, throw}
use nju_personal_assistant.Domain.Values.{Fields}
use nju_personal_assistant.Extensions.Registry.{
  extension_state_eq, installed_disabled, starting, enabled, quarantined, draining, disabled,
  uninstalling, rolled_back, ExtensionRecord,
}
use nju_personal_assistant.Extensions.Ports.{
  Ports, World, ask, caught, drain_error, in_state, known_extension, raise_or, registry_disable,
  registry_enable, removed, require_state, touch, save_ending,
}

module _ (ports : Ports) where
  unfoldable pub save_record : ExtensionRecord → Exec World (Unit {0})
  unfolding save_ending
  save_record r w = save_ending (ports.save w.calls r) r (record w { calls = w.calls + 1 })

  -- `_require`
  unfoldable pub require : String → Exec World ExtensionRecord
  unfolding known_extension
  require i = do ask ports.read; λ w. (known_extension (lookup i w.records) i, w)

  unfoldable pub stop_worker : ExtensionRecord → Exec World (Unit {0})
  unfolding touch
  stop_worker r = touch r (λ n. ports.stop n r)

  -- The cleanup of `_start_and_publish`
  unfoldable pub quarantine : ExtensionRecord → Error → Exec World ExtensionRecord
  unfolding stop_worker save_record
  quarantine r e = do
    stop_worker (in_state starting r)
    save_record (in_state quarantined r)
    throw e

  unfoldable pub healthy : Bool → Result (Unit {0})
  healthy true = ok tt
  healthy false = raise extension_operation_error "extension healthcheck failed"

  -- The part of the `try` before the record is published
  unfoldable pub launch : ExtensionRecord → Exec World (Unit {0})
  unfolding healthy
  launch r = do
    ask (λ n. ports.start n (in_state starting r))
    b ← ask (λ n. ports.health n (in_state starting r))
    lift (healthy b)

  unfoldable pub after_publish : ExtensionRecord → Result (Unit {0}) → Exec World ExtensionRecord
  unfolding registry_disable quarantine
  after_publish r (ok _) = pure (in_state enabled r)
  after_publish r (err e) = do registry_disable r.manifest.id; quarantine r e

  unfoldable pub after_launch : ExtensionRecord → Result (Unit {0}) → Exec World ExtensionRecord
  unfolding save_record after_publish quarantine
  after_launch r (err e) = quarantine r e
  after_launch r (ok _) = do
    outcome ← caught (save_record (in_state enabled r))
    after_publish r outcome

  -- `_start_and_publish`
  unfoldable pub start_and_publish : ExtensionRecord → Exec World ExtensionRecord
  unfolding save_record launch registry_enable after_launch
  start_and_publish r = do
    save_record (in_state starting r)
    outcome ← caught (do launch r; registry_enable (in_state enabled r))
    after_launch r outcome

  unfoldable pub enable : String → Exec World ExtensionRecord
  unfolding require require_state start_and_publish
  enable i = do
    r ← require i
    lift (require_state r (installed_disabled ∷ disabled ∷ rolled_back ∷ quarantined ∷ []))
    start_and_publish r

  unfoldable pub recover : String → Exec World ExtensionRecord
  unfolding require require_state start_and_publish
  recover i = do r ← require i; lift (require_state r (enabled ∷ [])); start_and_publish r

  unfoldable pub settle_down : ExtensionRecord → Option Error → Exec World ExtensionRecord
  unfolding save_record raise_or
  settle_down r e = do save_record (in_state disabled r); raise_or e (in_state disabled r)

  -- After the drain returned or raised
  unfoldable pub after_drain : ExtensionRecord → Result (Option Fields) → Exec World ExtensionRecord
  unfolding stop_worker drain_error settle_down
  after_drain r outcome = do
    stop_worker (in_state draining r)
    e ← lift (drain_error outcome)
    settle_down r e

  unfoldable pub drain_worker : ExtensionRecord → Exec World (Result (Option Fields))
  unfolding touch
  drain_worker r = caught (touch (in_state draining r) (λ n. ports.drain n (in_state draining r)))

  -- From the revocation on
  unfoldable pub take_down : ExtensionRecord → Exec World ExtensionRecord
  unfolding save_record drain_worker after_drain
  take_down r = do
    save_record (in_state draining r)
    outcome ← drain_worker r
    after_drain r outcome

  unfoldable pub disable : String → Exec World ExtensionRecord
  unfolding require require_state registry_disable take_down
  disable i = do
    r ← require i
    lift (require_state r (enabled ∷ []))
    registry_disable i
    take_down r

  unfoldable pub delete_code : ExtensionRecord → Exec World (Unit {0})
  unfolding touch
  delete_code r =
      touch (in_state uninstalling r) (λ n. ports.uninstall_code n (in_state uninstalling r))

  unfoldable pub tombstone_record : ExtensionRecord → Exec World ExtensionRecord
  unfolding save_record
  tombstone_record r = do save_record (removed r); pure (removed r)

  -- From the revocation on
  unfoldable pub remove_code : ExtensionRecord → Exec World ExtensionRecord
  unfolding save_record stop_worker delete_code tombstone_record
  remove_code r = do
    save_record (in_state uninstalling r)
    stop_worker (in_state uninstalling r)
    delete_code r
    tombstone_record r

  -- The record that `uninstall` goes on with
  unfoldable pub taken_down : String → ExtensionRecord → Exec World ExtensionRecord
  unfolding disable
  taken_down i r = if r.state == enabled then disable i else pure r

  unfoldable pub uninstall : String → Exec World ExtensionRecord
  unfolding require require_state registry_disable taken_down remove_code
  uninstall i = do
    r ← require i
    r' ← taken_down i r
    lift (require_state r' (installed_disabled ∷ disabled ∷ quarantined ∷ rolled_back ∷ []))
    registry_disable i
    remove_code r'
