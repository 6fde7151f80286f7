-- ===== src/Extensions/Rebuilding.antt =====
-- What the registry builds: the records that it is given, under their ids, and their capabilities.
use nju_personal_assistant.Base.{
  String, List, [], ◌∷◌, ◌++◌, none, Dict, lookup, insert, delete, ◌==◌, string_eq, ◌≡◌, refl, sym,
  ap, ◌∙◌, arith, inl, inr, Option-cases, Bool-cases, lookup-insert,
}
use nju_personal_assistant.Domain.Errors.{ok, bind}
use nju_personal_assistant.Domain.Checking.{bind-eq-ok}
use nju_personal_assistant.Extensions.Registry.{
  ExtensionRecord, CapabilityOwner, Built, values_of, claims_of, claim_fresh, add_claims, build_one,
  build_from,
}

-- Each record under the id of its manifest
unfoldable pub IsKeyed : Dict String ExtensionRecord → Type 0
IsKeyed [] = Unit {0}
IsKeyed ((i, r) ∷ d) = (r.manifest.id ≡ i) × IsKeyed d

pub IsKeyed-insert :
    (r : ExtensionRecord) (d : Dict String ExtensionRecord)
    → IsKeyed d
    → IsKeyed (insert r.manifest.id r d)
unfolding IsKeyed insert
IsKeyed-insert r [] k = (refl, tt)
IsKeyed-insert r ((j, q) ∷ d) (at, k) = elim (Bool-cases (j == r.manifest.id)) [
  | inl e ↦ rw e (ground (arith, string_eq.equal_iff j r.manifest.id), k)
  | inr e ↦ rw e (at, IsKeyed-insert r d k)
]

pub IsKeyed-delete :
    (i : String) (d : Dict String ExtensionRecord) → IsKeyed d → IsKeyed (delete i d)
unfolding IsKeyed delete
IsKeyed-delete i [] k = tt
IsKeyed-delete i ((j, q) ∷ d) (at, k) = elim (Bool-cases (j == i)) [
  | inl e ↦ rw e (IsKeyed-delete i d k)
  | inr e ↦ rw e (at, IsKeyed-delete i d k)
]

insert_new :
    (i : String) (r : ExtensionRecord) (d : Dict String ExtensionRecord)
    → lookup i d ≡ none
    → insert i r d ≡ d ++ ((i, r) ∷ [])
unfolding insert lookup
insert_new i r [] e = refl
insert_new i r ((j, q) ∷ d) e = elim (Bool-cases (j == i)) [
  | inl same ↦ absurd (ground (arith, same, e))
  | inr other ↦ rw other (ap (λ z. (j, q) ∷ z) (insert_new i r d (ground (arith, other, e))))
]

append_nil : (a : Dict String ExtensionRecord) → a ++ [] ≡ a
append_nil [] = refl
append_nil (x ∷ a) = ap (λ z. x ∷ z) (append_nil a)

append_assoc_one :
    (a d : Dict String ExtensionRecord) (x : String × ExtensionRecord)
    → (a ++ (x ∷ [])) ++ d ≡ a ++ (x ∷ d)
append_assoc_one [] d x = refl
append_assoc_one (y ∷ a) d x = ap (λ z. y ∷ z) (append_assoc_one a d x)

-- What one record adds
pub build_one-eq :
    (r : ExtensionRecord) (b b' : Built)
    → build_one (lookup r.manifest.id b.0) r b ≡ ok b'
    → (lookup r.manifest.id b.0 ≡ none)
      × (b'.0 ≡ insert r.manifest.id r b.0)
      × (add_claims (claims_of r) b.1 ≡ ok b'.1)
unfolding build_one
build_one-eq r (e, c) b' h = elim (Option-cases (lookup r.manifest.id e)) [
  | inr (q, k) ↦ absurd (ground (arith, k, h))
  | inl k ↦
      let h' = ap (λ o. build_one o r (e, c)) (sym k) ∙ h in
      let (c', at, same) =
        bind-eq-ok (add_claims (claims_of r) c) (λ c'. ok (insert r.manifest.id r e, c')) h' in
      let all : (insert r.manifest.id r e, c') ≡ b' = ground (arith, same) in
      (k, ap (λ z. z.0) (sym all), at ∙ ap (λ z. ok z.1) all)
]

pub build_from-same :
    (d : Dict String ExtensionRecord) (b b' : Built)
    → IsKeyed d
    → build_from (values_of d) b ≡ ok b'
    → b'.0 ≡ b.0 ++ d
unfolding IsKeyed build_from
build_from-same [] b b' k h =
    let same : b ≡ b' = ground (arith, h) in ap (λ z. z.0) (sym same) ∙ sym (append_nil b.0)
build_from-same ((i, r) ∷ d) b b' (at, k) h =
    let (b1, h1, h2) =
      bind-eq-ok (build_one (lookup r.manifest.id b.0) r b) (build_from (values_of d)) h in
    let (fresh, one, _) = build_one-eq r b b1 h1 in
    build_from-same d b1 b' k h2
    ∙ ap (λ z. z ++ d) (one ∙ insert_new r.manifest.id r b.0 fresh)
    ∙ append_assoc_one b.0 d (r.manifest.id, r)
    ∙ ap (λ z. b.0 ++ ((z, r) ∷ d)) at

-- The keys of the first are keys of the second.
abbrev pub HasFewer {ℓ} : {V : Type ℓ} → Dict String V → Dict String V → Type ℓ
HasFewer d d' = (c : String) → lookup c d' ≡ none → lookup c d ≡ none

pub insert-HasFewer {ℓ} :
    {V : Type ℓ} (c : String) (o : V) (d d' : Dict String V)
    → HasFewer d d'
    → HasFewer (insert c o d) (insert c o d')
insert-HasFewer c o d d' l k h =
    ground (arith, string_eq.equal_iff c k, lookup-insert c k o d, lookup-insert c k o d', h, l k)

pub insert-grows {ℓ} :
    {V : Type ℓ} (c : String) (o : V) (d : Dict String V) → HasFewer d (insert c o d)
insert-grows c o d k h = ground (arith, string_eq.equal_iff c k, lookup-insert c k o d, h)

-- The rest of the claims, where the first one is accepted
pub add_claims-eq :
    (c : String) (o : CapabilityOwner) (l : List (String × CapabilityOwner))
    (d d' : Dict String CapabilityOwner)
    → add_claims ((c, o) ∷ l) d ≡ ok d'
    → (lookup c d ≡ none) × (add_claims l (insert c o d) ≡ ok d')
unfolding add_claims claim_fresh
add_claims-eq c o l d d' h = elim (Option-cases (lookup c d)) [
  | inl k ↦ (k, ap (λ z. bind (claim_fresh z c o d) (add_claims l)) (sym k) ∙ h)
  | inr (q, k) ↦ absurd (ground (arith, k, h))
]

add_claims-first :
    (c : String) (o : CapabilityOwner) (l : List (String × CapabilityOwner))
    (d : Dict String CapabilityOwner)
    → lookup c d ≡ none
    → add_claims ((c, o) ∷ l) d ≡ add_claims l (insert c o d)
unfolding add_claims claim_fresh
add_claims-first c o l d k = ap (λ z. bind (claim_fresh z c o d) (add_claims l)) k

pub add_claims-grows :
    (l : List (String × CapabilityOwner)) (d d' : Dict String CapabilityOwner)
    → add_claims l d ≡ ok d'
    → HasFewer d d'
unfolding add_claims
add_claims-grows [] d d' h = let same : d ≡ d' = ground (arith, h) in λ c e. ap (lookup c) same ∙ e
add_claims-grows ((c, o) ∷ l) d d' h =
    let (k, h') = add_claims-eq c o l d d' h in
    λ j e. insert-grows c o d j (add_claims-grows l (insert c o d) d' h' j e)

-- Claims that were accepted are accepted where less is claimed.
pub add_claims-HasFewer :
    (l : List (String × CapabilityOwner)) (d e d' : Dict String CapabilityOwner)
    → add_claims l d ≡ ok d'
    → HasFewer e d
    → (e' : Dict String CapabilityOwner) × (add_claims l e ≡ ok e') × HasFewer e' d'
unfolding add_claims
add_claims-HasFewer [] d e d' h less =
    let same : d ≡ d' = ground (arith, h) in (e, refl, λ c k. less c (ap (lookup c) same ∙ k))
add_claims-HasFewer ((c, o) ∷ l) d e d' h less =
    let (k, h') = add_claims-eq c o l d d' h in
    let (e', at, less') =
      add_claims-HasFewer l (insert c o d) (insert c o e) d' h' (insert-HasFewer c o e d less) in
    (e', add_claims-first c o l e (less c k) ∙ at, less')
