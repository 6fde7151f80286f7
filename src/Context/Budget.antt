-- ===== src/Context/Budget.antt =====
-- How long a composed context is, and what its untrusted sections hold.
use nju_personal_assistant.Base.{
  ℕ, ◌+◌, ◌≤◌, String, Bool, true, false, List, [], ◌∷◌, ◌++◌, ◌≡◌, ◌≢◌, arith, All, All-append,
  Bool-cases, if_both, if◌then◌else◌, inl, inr, ◌==◌, string_eq, leb, ltb, ◌||◌,
}
use nju_personal_assistant.Domain.Enums.{ContextLayer}
use nju_personal_assistant.Domain.Text.{text_length}
use nju_personal_assistant.Domain.Values.{Value}
use nju_personal_assistant.Context.Delimiters.{join_lines}
use nju_personal_assistant.Context.Fences.{
  length-take, length-wrap_untrusted, IsFenced, wrap_untrusted-IsFenced,
}
use nju_personal_assistant.Context.Models.{
  Evidence, ContextRequest, ContextSection, sum_lengths, character_count,
}
use nju_personal_assistant.Context.Composer.{
  Composing, Texts, stripped, add_section, add_content, add, shown, offer_wrapped, rendered, offer,
  offer_all, before_evidence, after_evidence, composed, compose, started,
}

abbrev Shape : Bool → String → Type 0
Shape true content = IsFenced content
Shape false content = Unit

-- A section of untrusted data is fenced.
abbrev pub IsSafe : ContextSection → Type 0
IsSafe s = Shape s.untrusted_data s.content

pub record IsSound (max : ℕ) (c : Composing) : Type 0 where
  pub fits : sum_lengths c.sections + c.remaining ≤ max
  pub safe : All IsSafe c.sections

sum_lengths-append :
    (l m : List ContextSection) → sum_lengths (l ++ m) ≡ sum_lengths l + sum_lengths m
unfolding sum_lengths
sum_lengths-append [] m = omega arith
sum_lengths-append (s ∷ l) m = omega (arith, sum_lengths-append l m)

add_section-IsSound :
    (max : ℕ) (s : ContextSection) (c : Composing)
    → text_length s.content ≤ c.remaining
    → IsSafe s
    → IsSound max c
    → IsSound max (add_section s c)
unfolding add_section sum_lengths
add_section-IsSound max s c n p i = record {
  fits = omega (arith, sum_lengths-append c.sections (s ∷ []), i.fits);
  safe = All-append IsSafe c.sections (s ∷ []) i.safe (p, tt);
}

add_content-IsSound :
    (max : ℕ) (layer : ContextLayer) (untrusted : Bool) (content : String) (c : Composing)
    → text_length content ≤ c.remaining
    → (content ≢ "" → Shape untrusted content)
    → IsSound max c
    → IsSound max (add_content layer untrusted content c)
unfolding add_content
add_content-IsSound max layer untrusted content c n p i = elim (Bool-cases (content == "")) [
  | inl e ↦ rw e i
  | inr e ↦
      rw e
        (add_section-IsSound max _ c n (p (λ h. ground (arith, string_eq.equal_iff content ""))) i)
]

shown_lem :
    (untrusted : Bool) (raw : String) (n : ℕ)
    → (text_length (shown untrusted raw n) ≤ n)
      × (shown untrusted raw n ≢ "" → Shape untrusted (shown untrusted raw n))
unfolding shown
shown_lem true raw n = (length-wrap_untrusted raw n, wrap_untrusted-IsFenced raw n)
shown_lem false raw n = (length-take n raw, λ h. tt)

add-IsSound :
    (max : ℕ) (layer : ContextLayer) (untrusted : Bool) (values : List String) (c : Composing)
    → IsSound max c
    → IsSound max (add layer untrusted values c)
unfolding add
add-IsSound max layer untrusted values c i =
    let raw = join_lines (stripped values) in
    let (short, shape) = shown_lem untrusted raw c.remaining in
    let content = add_content layer untrusted (shown untrusted raw c.remaining) c in
    if_both (IsSound max) (leb c.remaining 0) c (if raw == "" then c else content) i (
      if_both (IsSound max) (raw == "") c content i
        (add_content-IsSound max layer untrusted _ c short shape i))

module _ (show_locator : Value → String) (max : ℕ) where
  offer_wrapped-IsSound :
      (e : Evidence) (wrapped : String) (c : Composing)
      → text_length wrapped ≤ c.remaining
      → (wrapped ≢ "" → IsFenced wrapped)
      → IsSound max c
      → IsSound max (offer_wrapped e wrapped c)
  unfolding offer_wrapped
  offer_wrapped-IsSound e wrapped c n p i =
      elim (Bool-cases (wrapped == "" || ltb c.remaining (text_length wrapped))) [
        | inl h ↦ rw h (record { fits = i.fits; safe = i.safe })
        | inr h ↦ rw h (
            add_section-IsSound max _ _ n (p (λ k. ground (arith, string_eq.equal_iff wrapped "")))
              (record { fits = i.fits; safe = i.safe }))
      ]

  offer-IsSound :
      (e : Evidence) (c : Composing) → IsSound max c → IsSound max (offer show_locator e c)
  unfolding offer
  offer-IsSound e c i =
      offer_wrapped-IsSound e _ c (length-wrap_untrusted (rendered show_locator e) c.remaining)
        (wrap_untrusted-IsFenced (rendered show_locator e) c.remaining) i

  offer_all-IsSound :
      (es : List Evidence) (c : Composing)
      → IsSound max c
      → IsSound max (offer_all show_locator es c)
  unfolding offer_all
  offer_all-IsSound [] c i = i
  offer_all-IsSound (e ∷ es) c i =
      offer_all-IsSound es (offer show_locator e c) (offer-IsSound e c i)

started-IsSound : (max : ℕ) → IsSound max (started max)
unfolding sum_lengths
started-IsSound max = record { fits = omega arith; safe = tt }

before_evidence-IsSound :
    (max : ℕ) (texts : Texts) (c : Composing)
    → IsSound max c
    → IsSound max (before_evidence texts c)
unfolding before_evidence
before_evidence-IsSound max texts c i = add-IsSound max _ false texts.working_set _ (
    add-IsSound max _ false texts.approved_rules _
      (add-IsSound max _ false texts.workflow _ (add-IsSound max _ false texts.policy c i)))

after_evidence-IsSound :
    (max : ℕ) (texts : Texts) (c : Composing) → IsSound max c → IsSound max (after_evidence texts c)
unfolding after_evidence
after_evidence-IsSound max texts c i =
    add-IsSound max _ true texts.tool_observations _
      (add-IsSound max _ true texts.episodic_summary c i)

module _ (show_locator : Value → String) (request : ContextRequest) (evidence : List Evidence)
    (texts : Texts) (warnings : List String) where
  abbrev m : ℕ
  m = request.max_chars

  composed-IsSound : IsSound m (composed show_locator request evidence texts)
  unfolding composed
  composed-IsSound = after_evidence-IsSound m texts _ (
      offer_all-IsSound show_locator m evidence _
        (before_evidence-IsSound m texts (started m) (started-IsSound m)))

  -- A composed context has at most the characters that were asked for.
  pub compose_bounded :
      character_count (compose show_locator request evidence texts warnings) ≤ request.max_chars
  unfolding character_count compose
  compose_bounded = omega (arith, composed-IsSound.fits)

  -- Each of its sections of untrusted data is a text between the two delimiters that holds neither.
  pub compose_fenced : All IsSafe (compose show_locator request evidence texts warnings).sections
  unfolding compose
  compose_fenced = composed-IsSound.safe
