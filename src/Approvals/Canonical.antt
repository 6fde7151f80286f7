-- ===== src/Approvals/Canonical.antt =====
-- src/personal_assistant/core/approvals/canonicalize.py, with the part of `json.dumps` that it
-- uses: no spaces, sorted keys, `ensure_ascii=False`, `allow_nan=False`.
use Prim.Native.Char.{Char, code}
use Prim.Native.String.{◌++◌ as append}
use nju_personal_assistant.Base.{
  ℕ, zero, suc, ◌/◌, ◌%◌, String, true, false, ltb, List, [], ◌∷◌, ◌==◌, nat_eq, if◌then◌else◌, map,
}
use nju_personal_assistant.Domain.Errors.{
  Result, ok, raise, bind, concat, canonicalization_error, type_error,
}
use nju_personal_assistant.Approvals.Sorting.{sort_keys, comparable}
use nju_personal_assistant.Domain.Values.{
  ℤ, pos, negsuc, finite, nan, infinite, Key, name, numeric, Value, null, boolean, integer, real,
  text, array, object, other, Items, nil, cons, Fields, end, field,
}

digit : ℕ → String
digit n =
    if n == 0
    then "0"
    else if n == 1
    then "1"
    else if n == 2
    then "2"
    else if n == 3
    then "3"
    else if n == 4
    then "4"
    else if n == 5
    then "5"
    else if n == 6
    then "6"
    else if n == 7
    then "7"
    else if n == 8
    then "8"
    else if n == 9
    then "9"
    else if n == 10
    then "a"
    else if n == 11
    then "b"
    else if n == 12
    then "c"
    else if n == 13
    then "d"
    else if n == 14
    then "e"
    else "f"

-- The digits of a number; `n + 1` rounds are enough for `n`.
decimal_rounds : ℕ → ℕ → String
unfolding digit
decimal_rounds zero n = ""
decimal_rounds (suc f) n =
    let more = append (decimal_rounds f (n / 10)) (digit (n % 10)) in
    if ltb n 10 then digit n else more

pub decimal : ℕ → String
unfolding decimal_rounds
decimal n = decimal_rounds (suc n) n

pub print_int : ℤ → String
unfolding decimal
print_int (pos n) = decimal n
print_int (negsuc n) = append "-" (decimal (suc n))

-- A character of a text, escaped as the encoder does: `\`, `"` and the control characters.
escape_char : Char → String
unfolding digit
escape_char c =
    let n = code c in
    if n == 92
    then "\\\\"
    else if n == 34
    then "\\\""
    else if n == 10
    then "\\n"
    else if n == 13
    then "\\r"
    else if n == 9
    then "\\t"
    else if n == 12
    then "\\f"
    else if n == 8
    then "\\b"
    else if ltb n 32
    then concat ("\\u00" ∷ digit (n / 16) ∷ digit (n % 16) ∷ [])
    else String.◌∷◌ c String.[]

escape : String → String
unfolding escape_char
escape String.[] = ""
escape (String.◌∷◌ c s) = append (escape_char c) (escape s)

pub quote : String → String
unfolding escape concat
quote s = concat ("\"" ∷ escape s ∷ "\"" ∷ [])

abbrev pub to_fields : List (Key × Value) → Fields
to_fields [] = end
to_fields ((k, v) ∷ l) = field k v (to_fields l)

-- The normalised values of a dictionary's keys, in sorted order. A key that is no text raises when
-- its turn comes.
collect : String → List (Key × Result Value) → Result (List (Key × Value))
unfolding concat
collect path [] = ok []
collect path ((numeric n, r) ∷ l) =
    raise canonicalization_error (concat (path ∷ ": object keys must be strings" ∷ []))
collect path ((name s, r) ∷ l) =
    let rest = collect path l in bind r (λ v. bind rest (λ l'. ok ((name s, v) ∷ l')))

from_mapping : String → List (Key × Result Value) → Result Value
unfolding collect sort_keys comparable
from_mapping path l =
    if comparable l
    then bind (collect path (sort_keys l)) (λ l'. ok (object (to_fields l')))
    else raise type_error "'<' not supported between keys of two types"

child_path : String → Key → String
unfolding concat print_int
child_path path (name s) = concat (path ∷ "." ∷ s ∷ [])
child_path path (numeric n) = concat (path ∷ "." ∷ print_int n ∷ [])

mutual
  unfolding concat decimal from_mapping child_path

  pub normalize_json : String → Value → Result Value
  normalize_json path null = ok null
  normalize_json path (boolean b) = ok (boolean b)
  normalize_json path (integer n) = ok (integer n)
  normalize_json path (real (finite r)) = ok (real (finite r))
  normalize_json path (real nan) =
      raise canonicalization_error (concat (path ∷ ": NaN and Infinity are not allowed" ∷ []))
  normalize_json path (real infinite) =
      raise canonicalization_error (concat (path ∷ ": NaN and Infinity are not allowed" ∷ []))
  normalize_json path (text s) = ok (text s)
  normalize_json path (array xs) = bind (normalize_items path 0 xs) (λ ys. ok (array ys))
  normalize_json path (object fs) = from_mapping path (normalize_fields path fs)
  normalize_json path (other t) =
      raise canonicalization_error
        (concat (path ∷ ": unsupported value type " ∷ t ∷ "; use JSON values" ∷ []))

  normalize_items : String → ℕ → Items → Result Items
  normalize_items path i nil = ok nil
  normalize_items path i (cons v vs) =
      bind (normalize_json (concat (path ∷ "[" ∷ decimal i ∷ "]" ∷ [])) v)
        (λ w. bind (normalize_items path (suc i) vs) (λ ws. ok (cons w ws)))

  normalize_fields : String → Fields → List (Key × Result Value)
  normalize_fields path end = []
  normalize_fields path (field k v fs) =
      (k, normalize_json (child_path path k) v) ∷ normalize_fields path fs

-- `json.dumps` of a normalised value. The texts of the entries are sorted with their keys.
join_comma : List String → String
unfolding concat
join_comma [] = ""
join_comma (s ∷ []) = s
join_comma (s ∷ t ∷ l) = concat (s ∷ "," ∷ join_comma (t ∷ l) ∷ [])

entry : Key × String → String
unfolding concat quote print_int
entry (name k, v) = concat (quote k ∷ ":" ∷ v ∷ [])
entry (numeric n, v) = concat (quote (print_int n) ∷ ":" ∷ v ∷ [])

mutual
  unfolding concat print_int quote join_comma entry sort_keys

  pub dumps : Value → String
  dumps null = "null"
  dumps (boolean true) = "true"
  dumps (boolean false) = "false"
  dumps (integer n) = print_int n
  dumps (real (finite r)) = r
  dumps (real nan) = "NaN"
  dumps (real infinite) = "Infinity"
  dumps (text s) = quote s
  dumps (array xs) = concat ("[" ∷ join_comma (dump_items xs) ∷ "]" ∷ [])
  dumps (object fs) = concat ("{" ∷ join_comma (map entry (sort_keys (dump_fields fs))) ∷ "}" ∷ [])
  dumps (other t) = ""

  dump_items : Items → List String
  dump_items nil = []
  dump_items (cons v vs) = dumps v ∷ dump_items vs

  dump_fields : Fields → List (Key × String)
  dump_fields end = []
  dump_fields (field k v fs) = (k, dumps v) ∷ dump_fields fs

unfoldable pub canonical_json : Value → Result String
unfolding normalize_json dumps
canonical_json v = bind (normalize_json "$" v) (λ n. ok (dumps n))

-- `hashlib` is the standard library's; a digest is the function `sha256` of the encoded text.
unfoldable pub canonical_sha256 : (String → String) → Value → Result String
canonical_sha256 sha256 v = bind (canonical_json v) (λ s. ok (sha256 s))
