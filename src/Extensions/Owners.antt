-- ===== src/Extensions/Owners.antt =====
-- Each capability that the registry publishes belongs to an extension that it publishes.
use nju_personal_assistant.Base.{
  String, List, [], ◌∷◌, some, Dict, lookup, insert, ◌==◌, string_eq, ◌≡◌, refl, sym, ap, ◌∙◌,
  arith, inl, inr, Bool-cases, All, All-map, All-append, lookup-insert_fresh, lookup-insert,
  lookup-insert_self,
}
use nju_personal_assistant.Domain.Errors.{ok}
use nju_personal_assistant.Domain.Checking.{bind-eq-ok}
use nju_personal_assistant.Extensions.Registry.{
  ExtensionRecord, CapabilityOwner, Built, claims_of, claims_of_slot, claims_of_slots, add_claims,
  build_one, build_from,
}
use nju_personal_assistant.Extensions.Rebuilding.{build_one-eq, add_claims-eq}
use mathlib.Core.Path.{subst}

-- The owner is the extension and its version.
abbrev pub IsOwner : ExtensionRecord → CapabilityOwner → Type 0
IsOwner r o = (r.manifest.id ≡ o.extension_id) × (r.manifest.version ≡ o.extension_version)

claims_of_slot-IsOwner :
    (r : ExtensionRecord) (slot : String) (cs : List String)
    → All (λ x. IsOwner r x.1) (claims_of_slot r.manifest slot cs)
unfolding claims_of_slot
claims_of_slot-IsOwner r slot [] = tt
claims_of_slot-IsOwner r slot (c ∷ cs) = ((refl, refl), claims_of_slot-IsOwner r slot cs)

claims_of_slots-IsOwner :
    (r : ExtensionRecord) (slots : Dict String (List String))
    → All (λ x. IsOwner r x.1) (claims_of_slots r.manifest slots)
unfolding claims_of_slots
claims_of_slots-IsOwner r [] = tt
claims_of_slots-IsOwner r ((slot, cs) ∷ rest) =
    All-append (λ x. IsOwner r x.1) (claims_of_slot r.manifest slot cs)
      (claims_of_slots r.manifest rest) (claims_of_slot-IsOwner r slot cs)
      (claims_of_slots-IsOwner r rest)

-- What holds of all the owners
abbrev EachOwner : (CapabilityOwner → Type 0) → Dict String CapabilityOwner → Type 0
EachOwner P d = (c : String) (o : CapabilityOwner) → lookup c d ≡ some o → P o

insert-EachOwner :
    (P : CapabilityOwner → Type 0) (c : String) (o : CapabilityOwner)
    (d : Dict String CapabilityOwner)
    → P o
    → EachOwner P d
    → EachOwner P (insert c o d)
insert-EachOwner P c o d p each k q h = elim (Bool-cases (c == k)) [
  | inl e ↦ let at : o ≡ q = ground (arith, e, lookup-insert c k o d, h) in subst P at p
  | inr e ↦ each k q (ground (arith, e, lookup-insert c k o d, h))
]

add_claims-EachOwner :
    (P : CapabilityOwner → Type 0) (l : List (String × CapabilityOwner))
    (d d' : Dict String CapabilityOwner)
    → All (λ x. P x.1) l
    → EachOwner P d
    → add_claims l d ≡ ok d'
    → EachOwner P d'
unfolding add_claims
add_claims-EachOwner P [] d d' p each h =
    let same : d ≡ d' = ground (arith, h) in λ c o k. each c o (ap (lookup c) same ∙ k)
add_claims-EachOwner P ((c, o) ∷ l) d d' (p, ps) each h =
    let (fresh, h') = add_claims-eq c o l d d' h in
    add_claims-EachOwner P l (insert c o d) d' ps (insert-EachOwner P c o d p each) h'

-- An extension of the version is published under the owner's id.
abbrev IsServed : Dict String ExtensionRecord → CapabilityOwner → Type 0
IsServed e o = (r : ExtensionRecord) × (lookup o.extension_id e ≡ some r) × IsOwner r o

build_one-IsServed :
    (r : ExtensionRecord) (b b' : Built)
    → build_one (lookup r.manifest.id b.0) r b ≡ ok b'
    → EachOwner (IsServed b.0) b.1
    → EachOwner (IsServed b'.0) b'.1
unfolding claims_of
build_one-IsServed r b b' h each =
    let (fresh, one, at) = build_one-eq r b b' h in
    let e = insert r.manifest.id r b.0 in
    subst (λ e. EachOwner (IsServed e) b'.1) (sym one)
      (add_claims-EachOwner (IsServed e) (claims_of r) b.1 b'.1
        (All-map
          (λ x (own, at).
            (r, ap (λ z. lookup z e) (sym own) ∙ lookup-insert_self r.manifest.id r b.0, (own, at)))
          (claims_of r) (claims_of_slots-IsOwner r r.manifest.slots))
        (λ c o k.
          let (q, stored, own) = each c o k in
          (q, lookup-insert_fresh r.manifest.id o.extension_id r q b.0 fresh stored, own))
        at)

pub build_from-IsServed :
    (rs : List ExtensionRecord) (b b' : Built)
    → build_from rs b ≡ ok b'
    → EachOwner (IsServed b.0) b.1
    → EachOwner (IsServed b'.0) b'.1
unfolding build_from
build_from-IsServed [] b b' h each =
    let same : b ≡ b' = ground (arith, h) in subst (λ z. EachOwner (IsServed z.0) z.1) same each
build_from-IsServed (r ∷ rs) b b' h each =
    let (b1, h1, h2) = bind-eq-ok (build_one (lookup r.manifest.id b.0) r b) (build_from rs) h in
    build_from-IsServed rs b1 b' h2 (build_one-IsServed r b b1 h1 each)
