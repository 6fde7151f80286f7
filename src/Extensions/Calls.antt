-- ===== src/Extensions/Calls.antt =====
-- The calls of the lifecycle manager keep what holds between them.
use nju_personal_assistant.Base.{
  ◌+◌, String, true, false, List, [], ◌∷◌, Option, none, some, lookup, string_eq, ◌≡◌, ◌≢◌, refl,
  sym, ap, ◌∙◌, arith, inl, inr, Option-cases, contains, nat_eq,
}
use mathlib.Core.Path.{subst}
use nju_personal_assistant.Domain.Errors.{Error, Result, ok, err}
use nju_personal_assistant.Domain.Exec.{Exec, continue, ◌>>=◌, ◌>>◌, lift}
use nju_personal_assistant.Extensions.Registry.{
  ExtensionState, extension_state_eq, ExtensionRecord, enabled, installed_disabled, rolled_back,
  quarantined, draining, disabled,
}
use nju_personal_assistant.Extensions.Ports.{
  World, registry_disable, in_state, Ports, known_extension, require_state, drain_error, raise_or,
}
use nju_personal_assistant.Extensions.Lifecycle.{
  require, enable, take_down, disable, settle_down, after_drain, drain_worker,
}
use nju_personal_assistant.Extensions.Soundness.{
  IsSound, IsOut, registry_disable-IsOut, IsSound-IsBetween,
}
use nju_personal_assistant.Extensions.Steps.{touch-IsOut, counted-IsCoherent}
use nju_personal_assistant.Domain.Values.{Fields}
use nju_personal_assistant.Extensions.Preservation.{
  Keeps, continue-to, continue-keeps, then-Keeps, save_in-Keeps, stop_in-Keeps,
  start_and_publish-IsSound,
}

-- What is not stored as ENABLED is not published.
stored-IsOut :
    (i : String) (r : ExtensionRecord) (w : World)
    → IsSound w
    → lookup i w.records ≡ some r
    → r.state ≢ enabled
    → IsOut i w
stored-IsOut i r w (h, s) k idle = elim (Option-cases (lookup i w.registry.extensions)) [
  | inl out ↦ ((h, s), out)
  | inr (q, at) ↦
      let (stored, running) = s i q at in
      let same : q ≡ r = ground (arith, stored, k) in
      absurd (idle (ap (λ (z : ExtensionRecord). z.state) (sym same) ∙ running))
]

module _ (ports : Ports) (i : String) where
  -- What goes on from the stored record
  abbrev pub GoesOn {α} :
      {R : Type α} → (Result R × World → Type 0) → (ExtensionRecord → Exec World R) → Type 0
  GoesOn Q f =
      (r : ExtensionRecord) (w : World)
      → IsSound w
      → lookup i w.records ≡ some r
      → r.manifest.id ≡ i
      → Q (f r w)

  module _ {α} {R : Type α} (Q : Result R × World → Type 0)
      (raised : (e : Error) (w : World) → IsSound w → Q (err e, w))
      (f : ExtensionRecord → Exec World R) (k : GoesOn Q f) where
    known-ends :
        (o : Option ExtensionRecord) (w : World)
        → IsSound w
        → lookup i w.records ≡ o
        → Q (continue (known_extension o i) f w)
    unfolding known_extension
    known-ends none w h at = raised _ w h
    known-ends (some r) w h at = k r w h at (h.0.keyed i r at)

    read-ends :
        (o : Result (Unit {0})) (w : World)
        → IsSound w
        → Q (
            continue
              (continue o (λ _ v. (known_extension (lookup i v.records) i, v)) w).0
              f
              (continue o (λ _ v. (known_extension (lookup i v.records) i, v)) w).1)
    read-ends (err e) w h = raised e w h
    read-ends (ok _) w h = known-ends (lookup i w.records) w h refl

    pub required-ends : (w : World) → IsSound w → Q ((require ports i >>= f) w)
    unfolding require
    required-ends w (h, s) =
        read-ends (ports.read w.calls) (record w { calls = w.calls + 1 })
          (counted-IsCoherent w (w.calls + 1) h, s)

  pub required-IsSound {α} :
      {R : Type α} (f : ExtensionRecord → Exec World R)
      → GoesOn (λ p. IsSound p.1) f
      → Keeps IsSound (require ports i >>= f)
  required-IsSound f k = required-ends (λ p. IsSound p.1) (λ e w h. h) f k

  idle_state :
      (s : ExtensionState)
      → contains s (installed_disabled ∷ disabled ∷ rolled_back ∷ quarantined ∷ []) ≡ true
      → s ≢ enabled
  idle_state s h at =
      let no : contains s (installed_disabled ∷ disabled ∷ rolled_back ∷ quarantined ∷ []) ≡ false =
        ap (λ z. contains z (installed_disabled ∷ disabled ∷ rolled_back ∷ quarantined ∷ [])) at in
      ground (arith, h, no)

  -- What a check of the state says where it passes
  require_state-eq :
      (r : ExtensionRecord) (states : List ExtensionState) (x : Unit {0})
      → require_state r states ≡ ok x
      → contains r.state states ≡ true
  unfolding require_state
  require_state-eq r states x h = ground (arith, h)

  pub enable-IsSound : Keeps IsSound (enable ports i)
  unfolding enable
  enable-IsSound = required-IsSound _ λ r w h at own.
      continue-to IsSound IsSound
        (require_state r (installed_disabled ∷ disabled ∷ rolled_back ∷ quarantined ∷ [])) _ w h
        (λ v s. s)
        λ x e. start_and_publish-IsSound ports r w (
          subst (λ j. IsOut j w) (sym own)
            (stored-IsOut i r w h at (
              idle_state r.state (
                require_state-eq r (installed_disabled ∷ disabled ∷ rolled_back ∷ quarantined ∷ [])
                  x e))))

  -- From the revocation on
  pub revoked-IsSound {α} :
      {R : Type α} (r : ExtensionRecord) (m : Exec World R)
      → r.manifest.id ≡ i
      → Keeps (IsOut r.manifest.id) m
      → Keeps IsSound (registry_disable i >> m)
  revoked-IsSound r m own keeps w h =
      let (out, _) = registry_disable-IsOut i w (IsSound-IsBetween i w h) in
      continue-to (IsOut i) IsSound (registry_disable i w).0 (λ x. m) (registry_disable i w).1 out
        (λ v o. o.0)
        λ x e.
          (keeps (registry_disable i w).1
            (subst (λ j. IsOut j (registry_disable i w).1) (sym own) out)).0

  raise_or-IsOut :
      (r : ExtensionRecord) (e : Option Error) (w : World)
      → IsOut r.manifest.id w
      → IsOut r.manifest.id (raise_or e (in_state disabled r) w).1
  unfolding raise_or
  raise_or-IsOut r none w h = h
  raise_or-IsOut r (some e) w h = h

  settle_down-Keeps :
      (r : ExtensionRecord) (e : Option Error) → Keeps (IsOut r.manifest.id) (settle_down ports r e)
  unfolding settle_down
  settle_down-Keeps r e =
      save_in-Keeps ports r disabled (λ _. raise_or e (in_state disabled r)) λ z. raise_or-IsOut r e

  after_drain-Keeps :
      (r : ExtensionRecord) (o : Result (Option Fields))
      → Keeps (IsOut r.manifest.id) (after_drain ports r o)
  unfolding after_drain
  after_drain-Keeps r o =
      stop_in-Keeps ports r draining (λ _. lift (drain_error o) >>= settle_down ports r)
        λ x w h.
          continue-keeps (IsOut r.manifest.id) (drain_error o) (settle_down ports r) w h
            (settle_down-Keeps r)

  pub take_down-Keeps : (r : ExtensionRecord) → Keeps (IsOut r.manifest.id) (take_down ports r)
  unfolding take_down drain_worker
  take_down-Keeps r =
      save_in-Keeps ports r draining (λ _. drain_worker ports r >>= after_drain ports r)
        λ x.
          then-Keeps (IsOut r.manifest.id) (drain_worker ports r) (after_drain ports r)
            (touch-IsOut (in_state draining r) (λ n. ports.drain n (in_state draining r)))
            (after_drain-Keeps r)

  pub disable-IsSound : Keeps IsSound (disable ports i)
  unfolding disable
  disable-IsSound = required-IsSound _ λ r w h at own.
      continue-keeps IsSound (require_state r (enabled ∷ [])) _ w h
        λ x. revoked-IsSound r (take_down ports r) own (take_down-Keeps r)
