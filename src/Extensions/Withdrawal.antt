-- ===== src/Extensions/Withdrawal.antt =====
-- A registry that was built is built again without any one of its extensions.
use nju_personal_assistant.Base.{
  String, [], ◌∷◌, Dict, lookup, insert, delete, ◌==◌, string_eq, ◌≡◌, refl, sym, ap, ◌∙◌, inl, inr,
  Bool-cases,
}
use nju_personal_assistant.Domain.Errors.{ok, bind}
use nju_personal_assistant.Domain.Checking.{bind-eq-ok}
use nju_personal_assistant.Extensions.Registry.{
  ExtensionRecord, Built, values_of, claims_of, build_one, build_from,
}
use nju_personal_assistant.Extensions.Rebuilding.{
  build_one-eq, HasFewer, insert-HasFewer, insert-grows, add_claims-grows, add_claims-HasFewer,
}

build_one-HasFewer :
    (r : ExtensionRecord) (b a b' : Built)
    → build_one (lookup r.manifest.id b.0) r b ≡ ok b'
    → HasFewer a.0 b.0
    → HasFewer a.1 b.1
    → (a' : Built) × (build_one (lookup r.manifest.id a.0) r a ≡ ok a')
      × HasFewer a'.0 b'.0
      × HasFewer a'.1 b'.1
unfolding build_one
build_one-HasFewer r b (ae, ac) b' h fewer less =
    let (fresh, one, at) = build_one-eq r b b' h in
    let (c', at', less') = add_claims-HasFewer (claims_of r) b.1 ac b'.1 at less in
    (
      (insert r.manifest.id r ae, c'),
      ap (λ z. build_one z r (ae, ac)) (fewer r.manifest.id fresh)
          ∙ ap (λ z. bind z (λ c'. ok (insert r.manifest.id r ae, c'))) at',
      (λ k e. insert-HasFewer r.manifest.id r ae b.0 fewer k (ap (lookup k) (sym one) ∙ e)),
      less',
    )

build_one-grows :
    (r : ExtensionRecord) (b b' : Built)
    → build_one (lookup r.manifest.id b.0) r b ≡ ok b'
    → HasFewer b.0 b'.0 × HasFewer b.1 b'.1
build_one-grows r b b' h =
    let (fresh, one, at) = build_one-eq r b b' h in
    (
      (λ k e. insert-grows r.manifest.id r b.0 k (ap (lookup k) (sym one) ∙ e)),
      add_claims-grows (claims_of r) b.1 b'.1 at,
    )

pub build_from-delete :
    (i : String) (d : Dict String ExtensionRecord) (b a b' : Built)
    → build_from (values_of d) b ≡ ok b'
    → HasFewer a.0 b.0
    → HasFewer a.1 b.1
    → (a' : Built) × (build_from (values_of (delete i d)) a ≡ ok a')
unfolding build_from delete
build_from-delete i [] b a b' h fewer less = (a, refl)
build_from-delete i ((j, r) ∷ d) b a b' h fewer less =
    let (b1, h1, h2) =
      bind-eq-ok (build_one (lookup r.manifest.id b.0) r b) (build_from (values_of d)) h in
    elim (Bool-cases (j == i)) [
      | inl e ↦
          let (more, most) = build_one-grows r b b1 h1 in
          rw e (
            build_from-delete i d b1 a b' h2 (λ k z. fewer k (more k z)) (λ k z. less k (most k z)))
      | inr e ↦
          let (a1, at, fewer', less') = build_one-HasFewer r b a b1 h1 fewer less in
          let (a', rest) = build_from-delete i d b1 a1 b' h2 fewer' less' in
          rw e (a', ap (λ z. bind z (build_from (values_of (delete i d)))) at ∙ rest)
    ]
