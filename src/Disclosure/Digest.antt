-- ===== src/Disclosure/Digest.antt =====
-- The digests of src/personal_assistant/core/models/disclosure.py: `canonical_field_digest` and
-- `recipient_fingerprint`. The digest of a text is the argument `sha256`.
use Prim.Native.String.{compare}
use Prim.Native.Nat.{Ordering}
use nju_personal_assistant.Base.{String, Bool, true, false, List, [], ◌∷◌, if◌then◌else◌}
use nju_personal_assistant.Domain.Errors.{Result}
use nju_personal_assistant.Domain.Values.{
  Key, Value, text, array, object, Items, nil, cons, end, field,
}
use nju_personal_assistant.Approvals.Canonical.{canonical_sha256}
use nju_personal_assistant.Disclosure.Fields.{ContextField, classification_value, RecipientIdentity}

-- What is digested of a field
pub record Material : Type 0 where
  pub name : String
  pub source : String
  pub classification : String
  pub value_sha256 : String

-- `<=` on tuples of texts
abbrev pub then_leb : Ordering → Bool → Bool
then_leb Ordering.lt rest = true
then_leb Ordering.eq rest = rest
then_leb Ordering.gt rest = false

-- `key(a) <= key(b)` of the key that sorts the material
unfoldable pub leb_material : Material → Material → Bool
leb_material a b = then_leb (compare a.name b.name) (
    then_leb (compare a.source b.source) (
      then_leb (compare a.classification b.classification)
        (then_leb (compare a.value_sha256 b.value_sha256) true)))

unfoldable pub insert_material : Material → List Material → List Material
unfolding leb_material
insert_material a [] = a ∷ []
insert_material a (b ∷ l) =
    let rest = insert_material a l in if leb_material a b then a ∷ b ∷ l else b ∷ rest

-- sorted(material, key=…)
unfoldable pub sort_material : List Material → List Material
unfolding insert_material
sort_material [] = []
sort_material (a ∷ l) = insert_material a (sort_material l)

unfoldable pub material_value : Material → Value
material_value a = object (
    field (Key.name "name") (text a.name) (
      field (Key.name "value_sha256") (text a.value_sha256) (
        field (Key.name "classification") (text a.classification)
          (field (Key.name "source") (text a.source) end))))

unfoldable pub material_items : List Material → Items
unfolding material_value
material_items [] = nil
material_items (a ∷ l) = cons (material_value a) (material_items l)

module _ (sha256 : String → String) where
  unfoldable pub material_of : ContextField → Material
  unfolding classification_value
  material_of f = record {
    name = f.name;
    source = f.source;
    classification = classification_value f.classification;
    value_sha256 = sha256 f.value;
  }

  unfoldable pub materials : List ContextField → List Material
  unfolding material_of
  materials [] = []
  materials (f ∷ fs) = material_of f ∷ materials fs

  unfoldable pub canonical_field_digest : List ContextField → Result String
  unfolding materials sort_material material_items canonical_sha256
  canonical_field_digest fields =
      canonical_sha256 sha256 (array (material_items (sort_material (materials fields))))

  unfoldable pub recipient_fingerprint : RecipientIdentity → Result String
  unfolding canonical_sha256
  recipient_fingerprint r = canonical_sha256 sha256 (
      object (
        field (Key.name "provider_id") (text r.provider_id) (
          field (Key.name "adapter") (text r.adapter) (
            field (Key.name "endpoint") (text r.endpoint)
              (field (Key.name "model_id") (text r.model_id) end)))))
