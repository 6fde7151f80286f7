-- ===== src/Context/Escaping.antt =====
-- What is left of the delimiters in a text that was escaped, and how long a fenced text is.
use Prim.Native.Char.{Char, code}
use Prim.Native.String.{◌++◌ as append}
use Prim.Native.String.append
use nju_personal_assistant.Base.{
  ℕ, zero, suc, ◌-◌, String, Bool, true, false, not, ◌==◌, nat_eq, ◌≡◌, ◌≢◌, refl, inl, inr, arith,
  Bool-cases,
}
use nju_personal_assistant.Domain.Text.{text_length, all_chars}
use nju_personal_assistant.Context.Delimiters.{starts_with, occurs, replace_from}

-- No character of the text is the given one.
abbrev free : ℕ → String → Bool
free x s = all_chars (λ c. not (c == x)) s

abbrev headed : ℕ → String → Bool
headed x String.[] = false
headed x (String.◌∷◌ c s) = code c == x

-- A text that begins with a character which another one lacks occurs only behind the other.
occurs-append :
    (x : ℕ) (q new t : String)
    → headed x q ≡ true
    → free x new ≡ true
    → occurs q (append new t) ≡ true
    → occurs q t ≡ true
unfolding occurs starts_with all_chars
occurs-append x String.[] new t h f o = absurd (ground arith)
occurs-append x (String.◌∷◌ c q) String.[] t h f o = rw (append.nil t) at o
occurs-append x (String.◌∷◌ c q) (String.◌∷◌ d new) t h f o =
    occurs-append x (String.◌∷◌ c q) new t h (ground arith) (
      let o' : occurs (String.◌∷◌ c q) (String.◌∷◌ d (append new t)) ≡ true =
        rw (append.cons d new t) at o in
      ground arith)

unheaded : (q : String) → headed b'<' q ≡ true → starts_with q "" ≡ false
unfolding starts_with
unheaded String.[] h = absurd (ground arith)
unheaded (String.◌∷◌ c q) h = refl

-- What a text with a known first character begins with.
starts_with-headed :
    (x : ℕ) (q new t : String)
    → free x q ≡ true
    → headed x new ≡ true
    → starts_with q (append new t) ≡ true
    → q ≡ ""
unfolding starts_with all_chars
starts_with-headed x String.[] new t f h o = refl
starts_with-headed x (String.◌∷◌ c q) String.[] t f h o = absurd (ground arith)
starts_with-headed x (String.◌∷◌ c q) (String.◌∷◌ d new) t f h o =
    let o' : starts_with (String.◌∷◌ c q) (String.◌∷◌ d (append new t)) ≡ true =
      rw (append.cons d new t) at o in
    absurd (ground arith)

module _ (old new : String) (c : Char) (s : String) where
  replace-found :
      starts_with old (String.◌∷◌ c s) ≡ true
      → replace_from old new 0 (String.◌∷◌ c s)
        ≡ append new (replace_from old new (text_length old - 1) s)
  unfolding replace_from
  replace-found e = rw e

  replace-kept :
      starts_with old (String.◌∷◌ c s) ≡ false
      → replace_from old new 0 (String.◌∷◌ c s) ≡ String.◌∷◌ c (replace_from old new 0 s)
  unfolding replace_from
  replace-kept e = rw e

module _ (old new : String) (bracket : headed b'[' new ≡ true) where
  starts_with-replace :
      (q s : String)
      → free b'[' q ≡ true
      → starts_with q (replace_from old new 0 s) ≡ true
      → starts_with q s ≡ true
  unfolding starts_with replace_from all_chars
  starts_with-replace String.[] s f h = refl
  starts_with-replace (String.◌∷◌ c q) String.[] f h = h
  starts_with-replace (String.◌∷◌ c q) (String.◌∷◌ d s) f h =
      elim (Bool-cases (starts_with old (String.◌∷◌ d s))) [
        | inl e ↦
            let empty : String.◌∷◌ c q ≡ "" =
              starts_with-headed b'[' (String.◌∷◌ c q) new
                (replace_from old new (text_length old - 1) s) f bracket
                (rw (replace-found old new d s e) at h) in
            cc
        | inr e ↦
            let h' : starts_with (String.◌∷◌ c q) (String.◌∷◌ d (replace_from old new 0 s)) ≡ true =
              rw (replace-kept old new d s e) at h in
            ground (arith, starts_with-replace q s)
      ]

  module _ (q : String) (start : headed b'<' q ≡ true) (plain : free b'[' q ≡ true)
      (safe : free b'<' new ≡ true) where
    -- A replacement makes no new occurrence of such a text.
    pub occurs-replace :
        (k : ℕ) (s : String) → occurs q (replace_from old new k s) ≡ true → occurs q s ≡ true
    unfolding replace_from occurs
    occurs-replace k String.[] o = o
    occurs-replace (suc k) (String.◌∷◌ c s) o = ground (arith, occurs-replace k s)
    occurs-replace zero (String.◌∷◌ c s) o = elim (Bool-cases (starts_with old (String.◌∷◌ c s))) [
      | inl e ↦
          let o' =
            occurs-append b'<' q new (replace_from old new (text_length old - 1) s) start safe
              (rw (replace-found old new c s e) at o) in
          ground (arith, occurs-replace (text_length old - 1) s o')
      | inr e ↦
          let o' : occurs q (String.◌∷◌ c (replace_from old new 0 s)) ≡ true =
            rw (replace-kept old new c s e) at o in
          let first : starts_with q (String.◌∷◌ c (replace_from old new 0 s)) ≡ true
              → starts_with q (String.◌∷◌ c s) ≡ true =
            λ h. starts_with-replace q (String.◌∷◌ c s) plain (rw (replace-kept old new c s e) h) in
          elim (Bool-cases (starts_with q (String.◌∷◌ c (replace_from old new 0 s)))) [
            | inl h ↦ ground (arith, first h)
            | inr h ↦ ground (arith, occurs-replace 0 s)
          ]
    ]

  module _ (start : headed b'<' old ≡ true) (plain : free b'[' old ≡ true)
      (safe : free b'<' new ≡ true) where
    -- No occurrence of the text that is replaced is left.
    pub replaced : (k : ℕ) (s : String) → occurs old (replace_from old new k s) ≢ true
    unfolding replace_from occurs
    replaced k String.[] o = ground (arith, unheaded old start)
    replaced (suc k) (String.◌∷◌ c s) o = replaced k s o
    replaced zero (String.◌∷◌ c s) o = elim (Bool-cases (starts_with old (String.◌∷◌ c s))) [
      | inl e ↦ replaced (text_length old - 1) s (
          occurs-append b'<' old new (replace_from old new (text_length old - 1) s) start safe
            (rw (replace-found old new c s e) at o))
      | inr e ↦
          let o' : occurs old (String.◌∷◌ c (replace_from old new 0 s)) ≡ true =
            rw (replace-kept old new c s e) at o in
          elim (Bool-cases (starts_with old (String.◌∷◌ c (replace_from old new 0 s)))) [
            | inl h ↦
                let there =
                  starts_with-replace old (String.◌∷◌ c s) plain
                    (rw (replace-kept old new c s e) h) in
                ground arith
            | inr h ↦ ground (arith, replaced 0 s)
          ]
    ]
