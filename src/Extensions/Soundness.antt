-- ===== src/Extensions/Soundness.antt =====
-- What holds between the calls of the lifecycle manager, and what holds while a call has an extension
-- out of the registry.
use nju_personal_assistant.Base.{
  ℕ, ◌+◌, String, false, [], none, some, Dict, lookup, insert, delete, ◌==◌, string_eq, ◌≡◌, ◌≢◌,
  refl, sym, ap, ◌∙◌, arith, ◌⊎◌, inl, inr, Bool-cases, lookup-insert, lookup-insert_self,
  lookup-delete, All, nat_eq,
}
use mathlib.Core.Path.{subst}
use nju_personal_assistant.Domain.Errors.{Error, ok, err}
use nju_personal_assistant.Domain.Checking.{Result-cases}
use nju_personal_assistant.Extensions.Registry.{
  extension_state_eq, ExtensionRecord, Built, values_of, build_from, build, snapshot_of, withdraw,
  publish_extension, enabled,
}
use nju_personal_assistant.Extensions.Rebuilding.{
  IsKeyed, IsKeyed-insert, IsKeyed-delete, build_from-same,
}
use nju_personal_assistant.Extensions.Withdrawal.{build_from-delete}
use nju_personal_assistant.Extensions.Ports.{
  World, Touch, registry_disable, registry_enable, published_as,
}

pub record IsCoherent (w : World) : Type 0 where
  pub keyed : (i : String) (r : ExtensionRecord) → lookup i w.records ≡ some r → r.manifest.id ≡ i
  pub shelved : IsKeyed w.registry.extensions
  pub built :
      build_from (values_of w.registry.extensions) ([], [])
      ≡ ok (w.registry.extensions, w.registry.capabilities)
  -- No worker was drained or stopped, and no code deleted, while its extension was published.
  pub revoked : All (λ (t : Touch). t.published ≡ false) w.touched

-- What is published under the id is what is stored, as ENABLED.
abbrev IsStored : String → World → Type 0
IsStored i w =
    (r : ExtensionRecord)
    → lookup i w.registry.extensions ≡ some r
    → (lookup i w.records ≡ some r) × (r.state ≡ enabled)

abbrev pub IsSound : World → Type 0
IsSound w = IsCoherent w × ((i : String) → IsStored i w)

-- The same, and the extension is not published
abbrev pub IsOut : String → World → Type 0
IsOut i w = IsSound w × (lookup i w.registry.extensions ≡ none)

-- The same, except for what is stored of the extension
abbrev pub IsBetween : String → World → Type 0
IsBetween i w = IsCoherent w × ((j : String) → i ≢ j → IsStored j w)

pub IsSound-IsBetween : (i : String) (w : World) → IsSound w → IsBetween i w
IsSound-IsBetween i w (c, s) = (c, λ j n. s j)

rebuilt-IsCoherent :
    (w : World) (n : ℕ) (d : Dict String ExtensionRecord) (b : Built)
    → IsCoherent w
    → IsKeyed d
    → build_from (values_of d) ([], []) ≡ ok b
    → IsCoherent (record w { registry = snapshot_of n b }) × (b.0 ≡ d)
rebuilt-IsCoherent w n d (e, c) h k at =
    let same : e ≡ d = build_from-same d ([], []) (e, c) k at in
    (
      record {
        keyed = h.keyed;
        shelved = subst IsKeyed (sym same) k;
        built = ap (λ z. build_from (values_of z) ([], [])) same ∙ at;
        revoked = h.revoked;
      },
      same,
    )

lookup_deleted : (i : String) (d : Dict String ExtensionRecord) → lookup i (delete i d) ≡ none
lookup_deleted i d = ground (arith, lookup-delete i i d, string_eq.equal_iff i i)

lookup_kept :
    (i j : String) (r : ExtensionRecord) (d : Dict String ExtensionRecord)
    → lookup j (delete i d) ≡ some r
    → (i ≢ j) × (lookup j d ≡ some r)
lookup_kept i j r d h = elim (Bool-cases (i == j)) [
  | inl e ↦ absurd (ground (arith, e, h, lookup-delete i j d))
  | inr e ↦ (
    (λ same. ground (arith, e, same, string_eq.equal_iff i j)),
    ground (arith, e, h, lookup-delete i j d),
  )
]

-- The revocation never raises.
pub registry_disable-IsOut :
    (i : String) (w : World)
    → IsBetween i w
    → IsOut i (registry_disable i w).1 × ((registry_disable i w).0 ≡ ok tt)
unfolding registry_disable withdraw build published_as
registry_disable-IsOut i w (h, s) =
    let d = delete i w.registry.extensions in
    let (b, at) =
      build_from-delete i w.registry.extensions ([], []) ([], [])
        (w.registry.extensions, w.registry.capabilities) h.built (λ k e. e) (λ k e. e) in
    let (c, same) =
      rebuilt-IsCoherent w (w.registry.generation + 1) d b h
        (IsKeyed-delete i w.registry.extensions h.shelved) at in
    rw at (
      (
        (
          c,
          (λ j r e.
              let (n, k) = lookup_kept i j r w.registry.extensions (ap (lookup j) (sym same) ∙ e) in
              s j n r k),
        ),
        ap (lookup i) same ∙ lookup_deleted i w.registry.extensions,
      ),
      refl,
    )

-- A record that is published is the only one under its id; where the registry refuses it, nothing is
-- written.
pub registry_enable-IsBetween :
    (r : ExtensionRecord) (w : World)
    → IsOut r.manifest.id w
    → (((e : Error) × ((registry_enable r w).0 ≡ err e))
        × IsOut r.manifest.id (registry_enable r w).1)
      ⊎ (((registry_enable r w).0 ≡ ok tt)
          × IsBetween r.manifest.id (registry_enable r w).1
          × (lookup r.manifest.id (registry_enable r w).1.registry.extensions ≡ some r)
          × (r.state ≡ enabled))
unfolding registry_enable publish_extension build published_as
registry_enable-IsBetween r w ((h, s), out) = elim (Bool-cases (r.state == enabled)) [
  | inr e ↦ rw e (inl ((_, refl), ((h, s), out)))
  | inl e ↦
      let d = insert r.manifest.id r w.registry.extensions in
      elim (Result-cases (build_from (values_of d) ([], []))) [
        | inr (x, at) ↦ rw (e, at) (inl ((x, refl), ((h, s), out)))
        | inl (b, at) ↦
            let (c, same) =
              rebuilt-IsCoherent w (w.registry.generation + 1) d b h
                (IsKeyed-insert r w.registry.extensions h.shelved) at in
            rw (e, at)
              (inr (
                refl,
                (
                  c,
                  (λ j n q k. s j q (
                      ground (
                        arith,
                        n,
                        string_eq.equal_iff r.manifest.id j,
                        lookup-insert r.manifest.id j r w.registry.extensions,
                        ap (lookup j) (sym same) ∙ k,
                      ))),
                ),
                ap (lookup r.manifest.id) same
                    ∙ lookup-insert_self r.manifest.id r w.registry.extensions,
                (extension_state_eq.equal_iff r.state enabled).0 e,
              ))
      ]
]
