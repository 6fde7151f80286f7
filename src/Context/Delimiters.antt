-- ===== src/Context/Delimiters.antt =====
-- `_escape_delimiters` and `_wrap_untrusted` of src/personal_assistant/core/context/composer.py, with
-- `str.replace` and `str.join`.
use Prim.Native.Char.{code}
use Prim.Native.String.{◌++◌ as append}
use nju_personal_assistant.Base.{
  ℕ, zero, suc, ◌-◌, ◌≡◌, refl, String, Bool, true, false, List, [], ◌∷◌, ◌&&◌, ◌||◌, ◌==◌, nat_eq,
  leb, if◌then◌else◌,
}
use nju_personal_assistant.Domain.Errors.{concat}
use nju_personal_assistant.Domain.Text.{text_length, take_text}

-- s.startswith(p)
unfoldable pub starts_with : String → String → Bool
starts_with String.[] s = true
starts_with (String.◌∷◌ c p) String.[] = false
starts_with (String.◌∷◌ c p) (String.◌∷◌ d s) = code c == code d && starts_with p s

-- `p in s`
unfoldable pub occurs : String → String → Bool
unfolding starts_with
occurs p String.[] = starts_with p String.[]
occurs p (String.◌∷◌ c s) = starts_with p (String.◌∷◌ c s) || occurs p s

-- `s.replace(old, new)`, where the first characters are still those of an occurrence that was
-- replaced.
unfoldable pub replace_from : String → String → ℕ → String → String
unfolding starts_with text_length
replace_from old new skipped String.[] = ""
replace_from old new (suc skipped) (String.◌∷◌ c s) = replace_from old new skipped s
replace_from old new zero (String.◌∷◌ c s) =
    let found = append new (replace_from old new (text_length old - 1) s) in
    let kept = String.◌∷◌ c (replace_from old new zero s) in
    if starts_with old (String.◌∷◌ c s) then found else kept

abbrev pub replace : String → String → String → String
replace old new s = replace_from old new 0 s

abbrev pub open_data : String
open_data = "<UNTRUSTED_DATA>"

abbrev pub close_data : String
close_data = "</UNTRUSTED_DATA>"

unfoldable pub escape_delimiters : String → String
unfolding replace_from
escape_delimiters value =
    replace close_data "[ESCAPED_CLOSE_DATA]" (replace open_data "[ESCAPED_OPEN_DATA]" value)

-- The two delimiters and two line ends.
abbrev pub overhead : ℕ
overhead = 35

abbrev pub fence : String → String
fence safe = concat (open_data ∷ "\n" ∷ safe ∷ "\n" ∷ close_data ∷ [])

unfoldable pub wrap_untrusted : String → ℕ → String
unfolding escape_delimiters take_text concat
wrap_untrusted value max_chars =
    if leb max_chars overhead
    then ""
    else fence (take_text (max_chars - overhead) (escape_delimiters value))

-- "\n".join(lines)
unfoldable pub join_lines : List String → String
unfolding concat
join_lines [] = ""
join_lines (s ∷ []) = s
join_lines (s ∷ t ∷ l) = concat (s ∷ "\n" ∷ join_lines (t ∷ l) ∷ [])

overhead_exact : overhead ≡ text_length (fence "")
unfolding text_length concat
overhead_exact = refl
