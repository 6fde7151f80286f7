-- ===== src/Approvals/Sorting.antt =====
-- `sorted` on the keys of a dictionary: stable insertion by key.
use nju_personal_assistant.Base.{Bool, true, false, List, [], ◌∷◌, all, if◌then◌else◌}
use nju_personal_assistant.Domain.Values.{Key, leb_key, is_name}

module _ {ℓ} {A : Type ℓ} where
  unfoldable pub insert_key : Key × A → List (Key × A) → List (Key × A)
  unfolding leb_key
  insert_key p [] = p ∷ []
  insert_key (k, a) ((j, b) ∷ l) =
      if leb_key k j then (k, a) ∷ (j, b) ∷ l else (j, b) ∷ insert_key (k, a) l

  unfoldable pub sort_keys : List (Key × A) → List (Key × A)
  unfolding insert_key
  sort_keys [] = []
  sort_keys (p ∷ l) = insert_key p (sort_keys l)

abbrev same_kind : Bool → Bool → Bool
same_kind true b = b
same_kind false true = false
same_kind false false = true

-- Keys of two kinds cannot be compared.
unfoldable pub comparable {ℓ} : {A : Type ℓ} → List (Key × A) → Bool
unfolding is_name
comparable [] = true
comparable ((k, a) ∷ l) = all (λ p. same_kind (is_name k) (is_name p.0)) l
