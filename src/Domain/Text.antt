-- ===== src/Domain/Text.antt =====
-- What the program uses of Python's texts: white space, `str.strip`, lengths and prefixes.
use Prim.Native.Char.{code}
use Prim.Native.String.{◌++◌ as append}
use nju_personal_assistant.Base.{
  ℕ, zero, suc, String, Bool, true, ◌≡◌, refl, if◌then◌else◌, ◌==◌, nat_eq, leb, ◌&&◌, ◌||◌,
}

unfoldable pub is_space : ℕ → Bool
is_space c =
    (leb 9 c && leb c 13)
    || (leb 28 c && leb c 32)
    || c == 133
    || c == 160
    || c == 5760
    || (leb 8192 c && leb c 8202)
    || c == 8232
    || c == 8233
    || c == 8239
    || c == 8287
    || c == 12288

-- `not value.strip()`
unfoldable pub is_blank : String → Bool
unfolding is_space
is_blank String.[] = true
is_blank (String.◌∷◌ c s) = is_space (code c) && is_blank s

skip_spaces : String → String
unfolding is_space
skip_spaces String.[] = ""
skip_spaces (String.◌∷◌ c s) = if is_space (code c) then skip_spaces s else String.◌∷◌ c s

drop_trailing : String → String
unfolding is_blank
drop_trailing String.[] = ""
drop_trailing (String.◌∷◌ c s) =
    if is_blank (String.◌∷◌ c s) then "" else String.◌∷◌ c (drop_trailing s)

-- s.strip()
unfoldable pub strip : String → String
unfolding skip_spaces drop_trailing
strip s = drop_trailing (skip_spaces s)

strips : strip " \n a b \t" ≡ "a b"
unfolding strip
strips = refl

-- `str.lower` on a text of hexadecimal digits: no other character becomes a digit by it.
unfoldable pub lower_hex : ℕ → String → String
lower_hex c s =
    if c == b'A'
    then "a"
    else if c == b'B'
    then "b"
    else if c == b'C'
    then "c"
    else if c == b'D'
    then "d"
    else if c == b'E'
    then "e"
    else if c == b'F'
    then "f"
    else s

unfoldable pub to_lower : String → String
unfolding lower_hex
to_lower String.[] = ""
to_lower (String.◌∷◌ c s) = append (lower_hex (code c) (String.◌∷◌ c String.[])) (to_lower s)

unfoldable pub text_length : String → ℕ
text_length String.[] = 0
text_length (String.◌∷◌ c s) = suc (text_length s)

unfoldable pub all_chars : (ℕ → Bool) → String → Bool
all_chars p String.[] = true
all_chars p (String.◌∷◌ c s) = p (code c) && all_chars p s

-- s[:n]
unfoldable pub take_text : ℕ → String → String
take_text zero s = ""
take_text (suc n) String.[] = ""
take_text (suc n) (String.◌∷◌ c s) = String.◌∷◌ c (take_text n s)
