-- ===== src/Context/Fences.antt =====
-- A fenced text holds no delimiter but its own two, and fits the characters that are left.
use Prim.Native.String.{◌++◌ as append}
use Prim.Native.String.append
use nju_personal_assistant.Base.{
  ℕ, zero, suc, ◌+◌, ◌-◌, ◌≤◌, ◌<◌, String, true, false, ◌≡◌, ◌≢◌, refl, ap, ◌∙◌, arith, Bool-cases,
  inl, inr, leb,
}
use nju_personal_assistant.Domain.Errors.{concat}
use nju_personal_assistant.Domain.Text.{text_length, take_text, all_chars}
use nju_personal_assistant.Context.Delimiters.{
  starts_with, occurs, escape_delimiters, wrap_untrusted, fence, open_data, close_data, overhead,
  replace,
}
use nju_personal_assistant.Context.Escaping.{occurs-replace, replaced}

pub length-append : (s t : String) → text_length (append s t) ≡ text_length s + text_length t
unfolding text_length
length-append String.[] t = ap text_length (append.nil t) ∙ omega arith
length-append (String.◌∷◌ c s) t =
    ap text_length (append.cons c s t) ∙ omega (arith, length-append s t)

pub length-take : (n : ℕ) (s : String) → text_length (take_text n s) ≤ n
unfolding text_length take_text
length-take zero s = omega arith
length-take (suc n) String.[] = omega arith
length-take (suc n) (String.◌∷◌ c s) = omega (arith, length-take n s)

starts_with-take :
    (q : String) (n : ℕ) (s : String)
    → starts_with q (take_text n s) ≡ true
    → starts_with q s ≡ true
unfolding starts_with take_text
starts_with-take String.[] n s h = refl
starts_with-take (String.◌∷◌ c q) zero s h = cc
starts_with-take (String.◌∷◌ c q) (suc n) String.[] h = h
starts_with-take (String.◌∷◌ c q) (suc n) (String.◌∷◌ d s) h =
    ground (arith, starts_with-take q n s)

-- What occurs in the beginning of a text occurs in it.
occurs-take :
    (q : String) (n : ℕ) (s : String) → occurs q (take_text n s) ≡ true → occurs q s ≡ true
unfolding occurs take_text
occurs-take q zero String.[] h = h
occurs-take q zero (String.◌∷◌ c s) h = ground (arith, starts_with-take q 0 (String.◌∷◌ c s))
occurs-take q (suc n) String.[] h = h
occurs-take q (suc n) (String.◌∷◌ c s) h =
    ground (arith, starts_with-take q (suc n) (String.◌∷◌ c s), occurs-take q n s)

delimiter_lengths :
    (text_length open_data ≡ 16) × (text_length "\n" ≡ 1) × (text_length "\n</UNTRUSTED_DATA>" ≡ 18)
unfolding text_length
delimiter_lengths = (refl, refl, refl)

length-fence : (safe : String) → text_length (fence safe) ≡ text_length safe + overhead
unfolding concat
length-fence safe = omega (
  arith,
  length-append open_data (append "\n" (append safe "\n</UNTRUSTED_DATA>")),
  length-append "\n" (append safe "\n</UNTRUSTED_DATA>"),
  length-append safe "\n</UNTRUSTED_DATA>",
  delimiter_lengths,
)

length-empty : text_length "" ≡ 0
unfolding text_length
length-empty = refl

beyond : (n : ℕ) → leb n overhead ≡ false → overhead < n
beyond n e = ground arith

-- A fenced text is at most as long as what is left.
pub length-wrap_untrusted : (value : String) (n : ℕ) → text_length (wrap_untrusted value n) ≤ n
unfolding wrap_untrusted
length-wrap_untrusted value n = elim (Bool-cases (leb n overhead)) [
  | inl e ↦ rw e (omega (arith, length-empty))
  | inr e ↦
      let safe = take_text (n - overhead) (escape_delimiters value) in
      let fits = length-take (n - overhead) (escape_delimiters value) in
      rw e (omega (arith, length-fence safe, fits, beyond n e))
]

-- The text between the delimiters
pub record IsFenced (content : String) : Type 0 where
  pub body : String
  pub fenced : content ≡ fence body
  pub no_open : occurs open_data body ≢ true
  pub no_close : occurs close_data body ≢ true

-- An escaped text, cut anywhere, holds neither delimiter.
pub escaped_plain :
    (n : ℕ) (value : String)
    → (occurs open_data (take_text n (escape_delimiters value)) ≢ true)
      × (occurs close_data (take_text n (escape_delimiters value)) ≢ true)
unfolding escape_delimiters all_chars
escaped_plain n value = (
  λ o. replaced open_data "[ESCAPED_OPEN_DATA]" refl refl refl refl 0 value (
      occurs-replace close_data "[ESCAPED_CLOSE_DATA]" refl open_data refl refl refl 0 _
        (occurs-take open_data n (escape_delimiters value) o)),
  λ o.
      replaced close_data "[ESCAPED_CLOSE_DATA]" refl refl refl refl 0
        (replace open_data "[ESCAPED_OPEN_DATA]" value)
        (occurs-take close_data n (escape_delimiters value) o),
)

-- What `wrap_untrusted` returns is empty, or a text between its two delimiters that holds neither.
pub wrap_untrusted-IsFenced :
    (value : String) (n : ℕ) → wrap_untrusted value n ≢ "" → IsFenced (wrap_untrusted value n)
unfolding wrap_untrusted
wrap_untrusted-IsFenced value n ne = elim (Bool-cases (leb n overhead)) [
  | inl e ↦ absurd (ne (rw e))
  | inr e ↦ record {
    body = take_text (n - overhead) (escape_delimiters value);
    fenced = rw e;
    no_open = (escaped_plain (n - overhead) value).0;
    no_close = (escaped_plain (n - overhead) value).1;
  }
]
