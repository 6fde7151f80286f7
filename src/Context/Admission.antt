-- ===== src/Context/Admission.antt =====
-- Which evidence a composed context holds.
use nju_personal_assistant.Base.{
  String, Bool, true, false, List, [], ◌∷◌, ◌≡◌, ◌≢◌, refl, ap, arith, Option, none, some, Dict,
  lookup, insert, map, contains, All, All-append, if_both, Bool-cases, inl, inr, ◌==◌, ◌||◌, leb,
  ltb, string_eq, pair_eq, HasEq,
}
use nju_personal_assistant.Domain.Enums.{secret, sensitivity_eq, ContextLayer}
use nju_personal_assistant.Domain.Errors.{ok}
use nju_personal_assistant.Domain.Text.{text_length}
use nju_personal_assistant.Domain.Values.{Value}
use nju_personal_assistant.Context.Delimiters.{join_lines}
use nju_personal_assistant.Context.Models.{current, Evidence, ContextRequest, check_request}
use nju_personal_assistant.Context.Composer.{
  Composing, Texts, stripped, add_content, add_section, add, shown, offer, offer_wrapped, offer_all,
  before_evidence, after_evidence, composed, compose, started,
}
use nju_personal_assistant.Context.Manager.{
  ProviderAnswer, Identity, identity, is_admitted, keep_first, gather, gather_all, answered,
  unavailable, retrieve_and_compose,
}

-- The values that a dictionary holds.
abbrev values {ℓ κ} : {K : Type ℓ} {V : Type κ} → Dict K V → List V
values d = map (λ entry. entry.1) d

module _ {ℓ κ μ} {K : Type ℓ} {V : Type κ} ⦃e : HasEq K⦄ (P : V → Type μ) where
  All-insert :
      (k : K) (v : V) (d : Dict K V) → P v → All P (values d) → All P (values (insert k v d))
  unfolding insert
  All-insert k v [] p a = (p, tt)
  All-insert k v ((j, w) ∷ d) p (q, a) = elim (Bool-cases (j == k)) [
    | inl h ↦ rw h (p, a)
    | inr h ↦ rw h (q, All-insert k v d p a)
  ]

add_content-selected :
    (layer : ContextLayer) (untrusted : Bool) (content : String) (c : Composing)
    → (add_content layer untrusted content c).selected ≡ c.selected
unfolding add_content add_section
add_content-selected layer untrusted content c = ground arith

add-selected :
    (layer : ContextLayer) (untrusted : Bool) (texts : List String) (c : Composing)
    → (add layer untrusted texts c).selected ≡ c.selected
unfolding add
add-selected layer untrusted texts c =
    let raw = join_lines (stripped texts) in
    let whole = add_content-selected layer untrusted (shown untrusted raw c.remaining) c in
    if_both (λ (x : Composing). x.selected ≡ c.selected) (leb c.remaining 0) c _ refl
      (if_both (λ (x : Composing). x.selected ≡ c.selected) (raw == "") c _ refl whole)

before_evidence-selected :
    (texts : Texts) (c : Composing) → (before_evidence texts c).selected ≡ c.selected
unfolding before_evidence
before_evidence-selected texts c = simp add-selected

after_evidence-selected :
    (texts : Texts) (c : Composing) → (after_evidence texts c).selected ≡ c.selected
unfolding after_evidence
after_evidence-selected texts c = simp add-selected

module _ (P : Evidence → Type 0) where
  abbrev Chosen : Composing → Type 0
  Chosen c = All P c.selected

  offer_wrapped-Chosen :
      (e : Evidence) (wrapped : String) (c : Composing)
      → P e
      → Chosen c
      → Chosen (offer_wrapped e wrapped c)
  unfolding offer_wrapped add_section
  offer_wrapped-Chosen e wrapped c p h =
      if_both Chosen (wrapped == "" || ltb c.remaining (text_length wrapped)) _ _ h
        (All-append P c.selected (e ∷ []) h (p, tt))

  offer_all-Chosen :
      (show_locator : Value → String) (es : List Evidence) (c : Composing)
      → All P es
      → Chosen c
      → Chosen (offer_all show_locator es c)
  unfolding offer_all offer
  offer_all-Chosen show_locator [] c p h = h
  offer_all-Chosen show_locator (e ∷ es) c (p, ps) h =
      offer_all-Chosen show_locator es _ ps (offer_wrapped-Chosen e _ c p h)

  -- The evidence of a composed context is of the evidence that was offered.
  compose-Chosen :
      (show_locator : Value → String) (request : ContextRequest) (evidence : List Evidence)
      (texts : Texts) (warnings : List String)
      → All P evidence
      → All P (compose show_locator request evidence texts warnings).evidence
  unfolding compose composed
  compose-Chosen show_locator request evidence texts warnings p =
      let first = before_evidence texts (started request.max_chars) in
      let start : Chosen first =
        rw (before_evidence-selected texts (started request.max_chars)) tt in
      rw (after_evidence-selected texts (offer_all show_locator evidence first))
        (offer_all-Chosen show_locator evidence first p start)

-- Current, and not secret
abbrev pub IsOpen : Evidence → Type 0
IsOpen e = (e.state ≡ current) × (e.sensitivity ≢ secret)

module _ (request : ContextRequest) (valid : check_request request ≡ ok tt) where
  no_secret : contains secret request.allowed_sensitivity ≡ false
  unfolding check_request
  no_secret = ground arith

  is_admitted-IsOpen : (e : Evidence) → is_admitted request e ≡ true → IsOpen e
  unfolding is_admitted
  is_admitted-IsOpen e h = (
    ground arith,
    λ s. ground (arith, no_secret, ap (λ x. contains x request.allowed_sensitivity) s),
  )

  keep_first-IsOpen :
      (o : Option Evidence) (e : Evidence) (known : Dict Identity Evidence)
      → IsOpen e
      → All IsOpen (values known)
      → All IsOpen (values (keep_first o e known))
  unfolding keep_first
  keep_first-IsOpen (some _) e known p h = h
  keep_first-IsOpen none e known p h = All-insert IsOpen (identity e) e known p h

  gather-IsOpen :
      (es : List Evidence) (known : Dict Identity Evidence)
      → All IsOpen (values known)
      → All IsOpen (values (gather request es known))
  unfolding gather
  gather-IsOpen [] known h = h
  gather-IsOpen (e ∷ es) known h = gather-IsOpen es _ (elim (Bool-cases (is_admitted request e)) [
    | inl a ↦
        rw a (keep_first-IsOpen (lookup (identity e) known) e known (is_admitted-IsOpen e a) h)
    | inr a ↦ rw a h
  ])

  answered-IsOpen :
      (o : Option (List Evidence)) (known : Dict Identity Evidence)
      → All IsOpen (values known)
      → All IsOpen (values (answered request o known))
  unfolding answered
  answered-IsOpen none known h = h
  answered-IsOpen (some es) known h = gather-IsOpen es known h

  gather_all-IsOpen :
      (answers : List ProviderAnswer) (known : Dict Identity Evidence)
      → All IsOpen (values known)
      → All IsOpen (values (gather_all request answers known))
  unfolding gather_all
  gather_all-IsOpen [] known h = h
  gather_all-IsOpen (a ∷ answers) known h =
      gather_all-IsOpen answers _ (answered-IsOpen a.retrieved known h)

  -- Whatever the providers answer, the evidence of a context that is composed for a valid request is
  -- current, and none of it is secret.
  pub retrieve_and_compose-IsOpen :
      (show_locator : Value → String) (answers : List ProviderAnswer) (texts : Texts)
      → All IsOpen (retrieve_and_compose show_locator request answers texts).evidence
  unfolding retrieve_and_compose
  retrieve_and_compose-IsOpen show_locator answers texts =
      compose-Chosen IsOpen show_locator request _ texts (unavailable answers)
        (gather_all-IsOpen answers [] tt)
