-- ===== src/Extensions/Steps.antt =====
-- What the calls of ports keep, made on an extension that the registry does not publish.
use nju_personal_assistant.Base.{
  ℕ, ◌+◌, String, true, false, Option, none, some, lookup, ◌==◌, string_eq, ◌≡◌, sym, ap, ◌∙◌,
  arith, inl, inr, Bool-cases, lookup-insert, lookup-insert_other, nat_eq,
}
use nju_personal_assistant.Domain.Errors.{Result}
use nju_personal_assistant.Extensions.Registry.{extension_state_eq, ExtensionRecord, enabled}
use nju_personal_assistant.Extensions.Ports.{
  World, is_published, touch, Ports, SaveOutcome, wrote, lost, torn, save_ending, store_record,
}
use nju_personal_assistant.Extensions.Lifecycle.{save_record}
use nju_personal_assistant.Extensions.Soundness.{IsCoherent, IsSound, IsOut, IsBetween}

store-IsCoherent : (r : ExtensionRecord) (w : World) → IsCoherent w → IsCoherent (store_record r w)
store-IsCoherent r w h = record {
  keyed = λ i q k. elim (Bool-cases (r.manifest.id == i)) [
    | inl e ↦
        let at : r ≡ q = ground (arith, e, k, lookup-insert r.manifest.id i r w.records) in
        ap (λ (z : ExtensionRecord). z.manifest.id) (sym at)
        ∙ (string_eq.equal_iff r.manifest.id i).0 e
    | inr e ↦ h.keyed i q (ground (arith, e, k, lookup-insert r.manifest.id i r w.records))
  ];
  shelved = h.shelved;
  built = h.built;
  revoked = h.revoked;
}

pub store-IsBetween :
    (r : ExtensionRecord) (w : World)
    → IsBetween r.manifest.id w
    → IsBetween r.manifest.id (store_record r w)
store-IsBetween r w (h, s) = (
  store-IsCoherent r w h,
  (λ j n q k.
      let (stored, at) = s j n q k in
      (lookup-insert_other r.manifest.id j r q w.records n stored, at)),
)

-- The record that is published is stored.
pub store-IsSound :
    (r : ExtensionRecord) (w : World)
    → IsBetween r.manifest.id w
    → lookup r.manifest.id w.registry.extensions ≡ some r
    → r.state ≡ enabled
    → IsSound (store_record r w)
store-IsSound r w h k at =
    let (c, s) = store-IsBetween r w h in
    (
      c,
      λ j q l. elim (Bool-cases (r.manifest.id == j)) [
        | inl e ↦
            let same : r ≡ q = ground (arith, e, string_eq.equal_iff r.manifest.id j, k, l) in
            (
              ground (arith, same, e, lookup-insert r.manifest.id j r w.records),
              ap (λ (z : ExtensionRecord). z.state) (sym same) ∙ at,
            )
        | inr e ↦ s j (λ same. ground (arith, e, same, string_eq.equal_iff r.manifest.id j)) q l
      ],
    )

store-IsOut :
    (r : ExtensionRecord) (w : World)
    → IsOut r.manifest.id w
    → IsOut r.manifest.id (store_record r w)
store-IsOut r w ((h, s), out) =
    let (c, s') = store-IsBetween r w (h, λ j n. s j) in
    (
      (
        c,
        (λ j q l. elim (Bool-cases (r.manifest.id == j)) [
          | inl e ↦ absurd (ground (arith, e, string_eq.equal_iff r.manifest.id j, out, l))
          | inr e ↦ s' j (λ same. ground (arith, e, same, string_eq.equal_iff r.manifest.id j)) q l
        ]),
      ),
      out,
    )

pub touch-IsOut {α} :
    {R : Type α} (r : ExtensionRecord) (answer : ℕ → Result R) (w : World)
    → IsOut r.manifest.id w
    → IsOut r.manifest.id (touch r answer w).1
unfolding touch is_published
touch-IsOut r answer w ((h, s), out) = (
  (
    record {
      keyed = h.keyed;
      shelved = h.shelved;
      built = h.built;
      revoked = (
        ap (λ (o : Option ExtensionRecord). elim o [ none ↦ false | some _ ↦ true ]) out,
        h.revoked,
      );
    },
    s,
  ),
  out,
)

written-IsOut :
    (o : SaveOutcome) (r : ExtensionRecord) (w : World)
    → IsOut r.manifest.id w
    → IsOut r.manifest.id (save_ending o r w).1
unfolding save_ending
written-IsOut wrote r w h = store-IsOut r w h
written-IsOut (lost e) r w h = h
written-IsOut (torn e) r w h = store-IsOut r w h

-- The number of calls is nothing that the invariants read.
pub counted-IsCoherent : (w : World) (n : ℕ) → IsCoherent w → IsCoherent (record w { calls = n })
counted-IsCoherent w n h = record {
  keyed = h.keyed;
  shelved = h.shelved;
  built = h.built;
  revoked = h.revoked;
}

pub counted-IsOut : (i : String) (w : World) (n : ℕ) → IsOut i w → IsOut i (record w { calls = n })
counted-IsOut i w n ((h, s), out) = ((counted-IsCoherent w n h, s), out)

module _ (ports : Ports) where
  pub save_record-IsOut :
      (r : ExtensionRecord) (w : World)
      → IsOut r.manifest.id w
      → IsOut r.manifest.id (save_record ports r w).1
  unfolding save_record
  save_record-IsOut r w h =
      written-IsOut (ports.save w.calls r) r (record w { calls = w.calls + 1 })
        (counted-IsOut r.manifest.id w (w.calls + 1) h)
