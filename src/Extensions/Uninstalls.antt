-- ===== src/Extensions/Uninstalls.antt =====
-- `uninstall` keeps what holds between the calls; the record that a method returns is one of the
-- extension.
use nju_personal_assistant.Base.{
  String, [], ◌∷◌, Option, none, some, ◌==◌, string_eq, ◌≡◌, sym, ap, ◌∙◌, arith, if_both, nat_eq,
}
use nju_personal_assistant.Domain.Errors.{Error, Result, ok, err}
use nju_personal_assistant.Domain.Exec.{Exec, continue, ◌>>=◌, ◌>>◌, lift, pure}
use nju_personal_assistant.Extensions.Registry.{
  extension_state_eq, ExtensionRecord, enabled, installed_disabled, rolled_back, quarantined,
  draining, disabled, uninstalling,
}
use nju_personal_assistant.Extensions.Ports.{
  World, registry_disable, in_state, Ports, require_state, drain_error, raise_or, removed,
}
use nju_personal_assistant.Extensions.Lifecycle.{
  save_record, stop_worker, take_down, disable, settle_down, after_drain, drain_worker, delete_code,
  tombstone_record, remove_code, taken_down, uninstall,
}
use nju_personal_assistant.Extensions.Soundness.{IsSound, IsOut}
use nju_personal_assistant.Extensions.Steps.{save_record-IsOut, touch-IsOut}
use nju_personal_assistant.Domain.Values.{Fields}
use nju_personal_assistant.Extensions.Preservation.{
  Keeps, continue-to, continue-keeps, then-Keeps, save_in-Keeps, stop_in-Keeps,
}
use nju_personal_assistant.Extensions.Calls.{
  required-IsSound, required-ends, revoked-IsSound, disable-IsSound,
}

module _ (ports : Ports) (i : String) where
  tombstone_record-Keeps :
      (r : ExtensionRecord) → Keeps (IsOut r.manifest.id) (tombstone_record ports r)
  unfolding tombstone_record
  tombstone_record-Keeps r =
      then-Keeps (IsOut r.manifest.id) (save_record ports (removed r)) (λ _. pure (removed r))
        (save_record-IsOut ports (removed r)) λ a w h. h

  remove_code-Keeps : (r : ExtensionRecord) → Keeps (IsOut r.manifest.id) (remove_code ports r)
  unfolding remove_code delete_code
  remove_code-Keeps r =
      let last : Unit {0} → Exec World ExtensionRecord =
        λ _. delete_code ports r >> tombstone_record ports r in
      save_in-Keeps ports r uninstalling (λ _. stop_worker ports (in_state uninstalling r) >>= last)
        λ x. stop_in-Keeps ports r uninstalling last λ y.
          then-Keeps (IsOut r.manifest.id) (delete_code ports r) (λ _. tombstone_record ports r)
            (touch-IsOut (in_state uninstalling r)
              (λ n. ports.uninstall_code n (in_state uninstalling r)))
            λ z. tombstone_record-Keeps r

  -- The record that a method returns is one of the extension.
  abbrev Names : Result ExtensionRecord × World → Type 0
  Names p = (y : ExtensionRecord) → p.0 ≡ ok y → y.manifest.id ≡ i

  continue-Names {α} :
      {R : Type α} (o : Result R) (f : R → Exec World ExtensionRecord) (w : World)
      → ((x : R) (v : World) → Names (f x v))
      → Names (continue o f w)
  continue-Names (ok x) f w k = k x w
  continue-Names (err e) f w k = λ y h. absurd (ground (arith, h))

  raise_or-Names :
      (r : ExtensionRecord) (e : Option Error) (w : World)
      → r.manifest.id ≡ i
      → Names (raise_or e (in_state disabled r) w)
  unfolding raise_or
  raise_or-Names r none w own y h =
      let same : in_state disabled r ≡ y = ground (arith, h) in
      ap (λ (z : ExtensionRecord). z.manifest.id) (sym same) ∙ own
  raise_or-Names r (some e) w own y h = absurd (ground (arith, h))

  settle_down-Names :
      (r : ExtensionRecord) (e : Option Error) (w : World)
      → r.manifest.id ≡ i
      → Names (settle_down ports r e w)
  unfolding settle_down
  settle_down-Names r e w own =
      let m = save_record ports (in_state disabled r) w in
      continue-Names m.0 (λ _. raise_or e (in_state disabled r)) m.1 λ z v. raise_or-Names r e v own

  after_drain-Names :
      (r : ExtensionRecord) (o : Result (Option Fields)) (w : World)
      → r.manifest.id ≡ i
      → Names (after_drain ports r o w)
  unfolding after_drain
  after_drain-Names r o w own =
      let m = stop_worker ports (in_state draining r) w in
      continue-Names m.0 (λ _. lift (drain_error o) >>= settle_down ports r) m.1
        λ y v.
          continue-Names (drain_error o) (settle_down ports r) v λ e u. settle_down-Names r e u own

  take_down-Names :
      (r : ExtensionRecord) (w : World) → r.manifest.id ≡ i → Names (take_down ports r w)
  unfolding take_down
  take_down-Names r w own =
      let m = save_record ports (in_state draining r) w in
      continue-Names m.0 (λ _. drain_worker ports r >>= after_drain ports r) m.1
        λ x v.
          continue-Names (drain_worker ports r v).0 (after_drain ports r) (drain_worker ports r v).1
            λ o u. after_drain-Names r o u own

  disable-Names : (w : World) → IsSound w → Names (disable ports i w)
  unfolding disable
  disable-Names =
      required-ends ports i Names (λ e w h y k. absurd (ground (arith, k))) _
        λ r w h at own.
          continue-Names (require_state r (enabled ∷ []))
            (λ _. registry_disable i >> take_down ports r) w
            λ x v.
              continue-Names (registry_disable i v).0 (λ _. take_down ports r)
                (registry_disable i v).1 λ y u. take_down-Names r u own

  taken_down-ends :
      (r : ExtensionRecord) (w : World)
      → IsSound w
      → r.manifest.id ≡ i
      → IsSound (taken_down ports i r w).1 × Names (taken_down ports i r w)
  unfolding taken_down
  taken_down-ends r w h own =
      if_both (λ (m : Exec World ExtensionRecord). IsSound (m w).1 × Names (m w))
        (r.state == enabled) (disable ports i) (pure r)
        (disable-IsSound ports i w h, disable-Names w h)
        (
          h,
          λ y k.
              let same : r ≡ y = ground (arith, k) in
              ap (λ (z : ExtensionRecord). z.manifest.id) (sym same) ∙ own,
        )

  pub uninstall-IsSound : Keeps IsSound (uninstall ports i)
  unfolding uninstall
  uninstall-IsSound = required-IsSound ports i _ λ r w h at own.
      let (s, named) = taken_down-ends r w h own in
      let check = λ (q : ExtensionRecord).
        require_state q (installed_disabled ∷ disabled ∷ quarantined ∷ rolled_back ∷ []) in
      let m = taken_down ports i r w in
      continue-to IsSound IsSound m.0
        (λ q. lift (check q) >> (registry_disable i >> remove_code ports q)) m.1 s (λ v z. z)
        λ q e.
          continue-keeps IsSound (check q) (λ _. registry_disable i >> remove_code ports q) m.1 s
            λ x. revoked-IsSound ports i q (remove_code ports q) (named q e) (remove_code-Keeps q)
