-- ===== src/Domain/Values.antt =====
-- The Python values that approval payloads are made of, with the order of dictionary keys.
-- A text is a sequence of Unicode scalar values; a finite float is given by its shortest
-- representation, the text that `float.__repr__` prints. `other` is any type that is no JSON value.
-- The keys of one dictionary are texts or numbers; those are the only keys modelled.
use Prim.Native.String.{compare}
use Prim.Native.Nat.{Ordering}
use nju_personal_assistant.Base.{
  ℕ, String, Bool, true, false, leb, Option, none, some, ◌==◌, string_eq, if◌then◌else◌,
}

-- `negsuc n` is -(n + 1).
pub data ℤ : Type 0 where
  pos : ℕ → ℤ
  negsuc : ℕ → ℤ

pub data Float : Type 0 where
  finite : String → Float
  nan infinite : Float

pub data Key : Type 0 where
  name : String → Key
  numeric : ℤ → Key

mutual
  pub data Value : Type 0 where
    null : Value
    boolean : Bool → Value
    integer : ℤ → Value
    real : Float → Value
    text : String → Value
    array : Items → Value
    object : Fields → Value
    other : String → Value

  pub data Items : Type 0 where
    nil : Items
    cons : Value → Items → Items

  pub data Fields : Type 0 where
    end : Fields
    field : Key → Value → Fields → Fields

-- `a <= b` on numbers and on texts, by code points.
abbrev pub leb_ℤ : ℤ → ℤ → Bool
leb_ℤ (pos a) (pos b) = leb a b
leb_ℤ (pos a) (negsuc b) = false
leb_ℤ (negsuc a) (pos b) = true
leb_ℤ (negsuc a) (negsuc b) = leb b a

abbrev pub leb_text : String → String → Bool
leb_text s t = elim (compare s t) [ Ordering.gt ↦ false | _ ↦ true ]

-- `sorted` compares keys of one kind; a comparison of a number and a text raises (`comparable`).
unfoldable pub leb_key : Key → Key → Bool
leb_key (name s) (name t) = leb_text s t
leb_key (numeric a) (numeric b) = leb_ℤ a b
leb_key (numeric a) (name t) = true
leb_key (name s) (numeric b) = false

unfoldable pub is_name : Key → Bool
is_name (name s) = true
is_name (numeric n) = false

is_key : String → Key → Bool
is_key s (name t) = t == s
is_key s (numeric n) = false

-- d.get(key) of a dictionary with that content
unfoldable pub value_at : String → Fields → Option Value
unfolding is_key
value_at key end = none
value_at key (field k v fs) = let rest = value_at key fs in if is_key key k then some v else rest
