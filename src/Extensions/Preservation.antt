-- ===== src/Extensions/Preservation.antt =====
-- Each call of the lifecycle manager keeps what holds between the calls.
use nju_personal_assistant.Base.{◌+◌, some, lookup, string_eq, ◌≡◌, refl, sym, inl, inr, nat_eq}
use mathlib.Core.Path.{subst}
use nju_personal_assistant.Domain.Errors.{Error, Result, ok, err}
use nju_personal_assistant.Domain.Exec.{Exec, continue, ◌>>=◌}
use nju_personal_assistant.Extensions.Registry.{
  ExtensionState, extension_state_eq, ExtensionRecord, enabled, starting, quarantined,
}
use nju_personal_assistant.Extensions.Ports.{
  World, registry_disable, registry_enable, in_state, Ports, SaveOutcome, wrote, lost, torn,
  save_ending, store_record, ask,
}
use nju_personal_assistant.Extensions.Lifecycle.{
  save_record, stop_worker, quarantine, launch, after_publish, after_launch, start_and_publish,
}
use nju_personal_assistant.Extensions.Soundness.{
  IsSound, IsOut, IsBetween, registry_disable-IsOut, registry_enable-IsBetween,
}
use nju_personal_assistant.Extensions.Steps.{
  save_record-IsOut, store-IsBetween, store-IsSound, touch-IsOut, counted-IsOut, counted-IsCoherent,
}

-- What the method keeps, whether it returns or raises
abbrev pub Keeps {α} : {R : Type α} → (World → Type 0) → Exec World R → Type 0
Keeps P m = (w : World) → P w → P (m w).1

pub continue-to {α β} :
    {R : Type α} {S : Type β} (P Q : World → Type 0) (o : Result R) (f : R → Exec World S)
    (w : World)
    → P w
    → ((v : World) → P v → Q v)
    → ((x : R) → o ≡ ok x → Q (f x w).1)
    → Q (continue o f w).1
continue-to P Q (ok x) f w p weaken k = k x refl
continue-to P Q (err e) f w p weaken k = weaken w p

pub continue-keeps {α β} :
    {R : Type α} {S : Type β} (P : World → Type 0) (o : Result R) (f : R → Exec World S) (w : World)
    → P w
    → ((x : R) → Keeps P (f x))
    → P (continue o f w).1
continue-keeps P (ok x) f w p k = k x w p
continue-keeps P (err e) f w p k = p

-- One part after another
pub then-Keeps {α β} :
    {R : Type α} {S : Type β} (P : World → Type 0) (m : Exec World R) (f : R → Exec World S)
    → Keeps P m
    → ((x : R) → Keeps P (f x))
    → Keeps P (m >>= f)
then-Keeps P m f h k w p = continue-keeps P (m w).0 f (m w).1 (h w p) k

module _ (ports : Ports) (r : ExtensionRecord) where
  abbrev Out : World → Type 0
  Out = IsOut r.manifest.id

  -- What happens to the extension while it is not published
  stop_worker-Keeps : Keeps Out (stop_worker ports r)
  unfolding stop_worker
  stop_worker-Keeps w h = touch-IsOut r (λ n. ports.stop n r) w h

  pub save_in-Keeps {β} :
      {S : Type β} (state : ExtensionState) (f : Unit {0} → Exec World S)
      → ((x : Unit {0}) → Keeps Out (f x))
      → Keeps Out (save_record ports (in_state state r) >>= f)
  save_in-Keeps state f =
      then-Keeps Out (save_record ports (in_state state r)) f
        (save_record-IsOut ports (in_state state r))

  pub stop_in-Keeps {β} :
      {S : Type β} (state : ExtensionState) (f : Unit {0} → Exec World S)
      → ((x : Unit {0}) → Keeps Out (f x))
      → Keeps Out (stop_worker ports (in_state state r) >>= f)
  unfolding stop_worker
  stop_in-Keeps state f =
      then-Keeps Out (stop_worker ports (in_state state r)) f
        (touch-IsOut (in_state state r) (λ n. ports.stop n (in_state state r)))

  quarantine-Keeps : (e : Error) → Keeps Out (quarantine ports r e)
  unfolding quarantine
  quarantine-Keeps e = stop_in-Keeps starting _ λ x. save_in-Keeps quarantined _ λ y w h. h

  launch-Keeps : Keeps Out (launch ports r)
  unfolding launch
  launch-Keeps =
      then-Keeps Out (ask (λ n. ports.start n (in_state starting r))) _
        (λ w. counted-IsOut r.manifest.id w (w.calls + 1))
        λ x.
          then-Keeps Out (ask (λ n. ports.health n (in_state starting r))) _
            (λ w. counted-IsOut r.manifest.id w (w.calls + 1)) λ b w h. h

  -- Published, but perhaps not stored so yet
  abbrev IsLaunched : World → Type 0
  IsLaunched w =
      IsBetween r.manifest.id w
      × (lookup r.manifest.id w.registry.extensions ≡ some (in_state enabled r))

  after_publish-err :
      (e : Error) (w : World)
      → IsBetween r.manifest.id w
      → IsSound (after_publish ports r (err e) w).1
  unfolding after_publish
  after_publish-err e w h =
      (continue-keeps Out (registry_disable r.manifest.id w).0 (λ x. quarantine ports r e)
        (registry_disable r.manifest.id w).1 (registry_disable-IsOut r.manifest.id w h).0
        (λ x. quarantine-Keeps e)).0

  after_save-IsSound :
      (o : SaveOutcome) (w : World)
      → IsLaunched w
      → IsSound
          (after_publish ports r
            (save_ending o (in_state enabled r) w).0
            (save_ending o (in_state enabled r) w).1).1
  unfolding save_ending after_publish
  after_save-IsSound wrote w (h, k) = store-IsSound (in_state enabled r) w h k refl
  after_save-IsSound (lost e) w (h, k) = after_publish-err e w h
  after_save-IsSound (torn e) w (h, k) =
      after_publish-err e (store_record (in_state enabled r) w)
        (store-IsBetween (in_state enabled r) w h)

  after_launch-IsSound : (w : World) → IsLaunched w → IsSound (after_launch ports r (ok tt) w).1
  unfolding after_launch save_record
  after_launch-IsSound w ((c, s), k) =
      after_save-IsSound (ports.save w.calls (in_state enabled r))
        (record w { calls = w.calls + 1 }) ((counted-IsCoherent w (w.calls + 1) c, s), k)

  published-IsSound :
      (w : World)
      → Out w
      → IsSound
          (after_launch ports r
            (registry_enable (in_state enabled r) w).0
            (registry_enable (in_state enabled r) w).1).1
  unfolding after_launch
  published-IsSound w h = elim (registry_enable-IsBetween (in_state enabled r) w h) [
    | inl ((e, at), out) ↦
        subst (λ z. IsSound (after_launch ports r z (registry_enable (in_state enabled r) w).1).1)
          (sym at) (quarantine-Keeps e (registry_enable (in_state enabled r) w).1 out).0
    | inr (at, between, k, _) ↦
        subst (λ z. IsSound (after_launch ports r z (registry_enable (in_state enabled r) w).1).1)
          (sym at) (after_launch-IsSound (registry_enable (in_state enabled r) w).1 (between, k))
  ]

  launched-IsSound :
      (o : Result (Unit {0})) (w : World)
      → Out w
      → IsSound
          (after_launch ports r
            (continue o (λ x. registry_enable (in_state enabled r)) w).0
            (continue o (λ x. registry_enable (in_state enabled r)) w).1).1
  unfolding after_launch
  launched-IsSound (ok _) w h = published-IsSound w h
  launched-IsSound (err e) w h = (quarantine-Keeps e w h).0

  -- `_start_and_publish` of an extension that is not published
  pub start_and_publish-IsSound : (w : World) → Out w → IsSound (start_and_publish ports r w).1
  unfolding start_and_publish
  start_and_publish-IsSound w h =
      let saving = save_record ports (in_state starting r) w in
      let h1 = save_record-IsOut ports (in_state starting r) w h in
      continue-to Out IsSound saving.0 _ saving.1 h1 (λ v o. o.0)
        λ x at.
          launched-IsSound (launch ports r saving.1).0 (launch ports r saving.1).1
            (launch-Keeps saving.1 h1)
