-- ===== src/Audit/Redaction.antt =====
-- `redact` of src/personal_assistant/core/audit/redaction.py. A tuple is an array; `Value.other` is neither
-- a mapping nor a sequence.
use Prim.Native.String.{◌++◌ as append}
use nju_personal_assistant.Base.{
  ◌+◌, String, Bool, List, [], ◌∷◌, contains, ◌==◌, nat_eq, string_eq, if◌then◌else◌,
}
use nju_personal_assistant.Domain.Values.{
  pos, negsuc, Key, name, numeric, Value, text, array, object, Items, nil, cons, Fields, end, field,
}
use nju_personal_assistant.Approvals.Canonical.{decimal}

-- `str(key)`
unfoldable pub key_text : Key → String
key_text (name s) = s
key_text (numeric (pos n)) = decimal n
key_text (numeric (negsuc n)) = append "-" (decimal (n + 1))

abbrev letters : List (String × String)
letters =
    ("A", "a")
    ∷ ("B", "b")
    ∷ ("C", "c")
    ∷ ("D", "d")
    ∷ ("E", "e")
    ∷ ("F", "f")
    ∷ ("G", "g")
    ∷ ("H", "h")
    ∷ ("I", "i")
    ∷ ("J", "j")
    ∷ ("K", "k")
    ∷ ("L", "l")
    ∷ ("M", "m")
    ∷ ("N", "n")
    ∷ ("O", "o")
    ∷ ("P", "p")
    ∷ ("Q", "q")
    ∷ ("R", "r")
    ∷ ("S", "s")
    ∷ ("T", "t")
    ∷ ("U", "u")
    ∷ ("V", "v")
    ∷ ("W", "w")
    ∷ ("X", "x")
    ∷ ("Y", "y")
    ∷ ("Z", "z")
    ∷ ("K", "k")
    ∷ []

lower_letter : List (String × String) → String → String
lower_letter [] s = s
lower_letter ((upper, lower) ∷ l) s =
    let rest = lower_letter l s in if upper == s then lower else rest

-- `s.lower()`, as far as a comparison with the secret keys can tell: of all characters, the capital
-- letters and the Kelvin sign become one of their letters.
unfoldable pub lower_text : String → String
unfolding lower_letter
lower_text String.[] = ""
lower_text (String.◌∷◌ c s) = append (lower_letter letters (String.◌∷◌ c String.[])) (lower_text s)

-- `_SECRET_KEYS`
abbrev pub secret_keys : List String
secret_keys =
    "authorization" ∷ "cookie" ∷ "password" ∷ "private_key" ∷ "secret" ∷ "set-cookie" ∷ "token" ∷ []

unfoldable pub is_secret_key : String → Bool
unfolding lower_text
is_secret_key key = contains (lower_text key) secret_keys

-- `d[key] = value` of the dictionary that is built
unfoldable pub set_field : String → Value → Fields → Fields
set_field key value end = field (name key) value end
set_field key value (field k v fs) =
    let rest = set_field key value fs in
    if key_text k == key then field k value fs else field k v rest

unfoldable mutual
  unfolding is_secret_key set_field key_text

  pub redact : Value → Value
  redact (array xs) = array (redact_items xs)
  redact (object fs) = object (redact_fields fs end)
  redact v = v

  pub redact_items : Items → Items
  redact_items nil = nil
  redact_items (cons v xs) = cons (redact v) (redact_items xs)

  -- The comprehension; what it built so far comes last.
  pub redact_fields : Fields → Fields → Fields
  redact_fields end built = built
  redact_fields (field k v fs) built =
      let key = key_text k in
      let masked = if is_secret_key key then text "[REDACTED]" else redact v in
      redact_fields fs (set_field key masked built)
