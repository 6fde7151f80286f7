-- ===== src/Domain/Sorting.antt =====
-- `sorted` on texts, by code points.
use nju_personal_assistant.Base.{
  String, List, [], ◌∷◌, ◌≡◌, refl, arith, contains, ◌==◌, string_eq, ◌||◌, if◌then◌else◌,
}
use nju_personal_assistant.Domain.Values.{leb_text}

unfoldable pub insert_text : String → List String → List String
insert_text s [] = s ∷ []
insert_text s (t ∷ l) = let rest = insert_text s l in if leb_text s t then s ∷ t ∷ l else t ∷ rest

unfoldable pub sorted : List String → List String
unfolding insert_text
sorted [] = []
sorted (s ∷ l) = insert_text s (sorted l)

contains-insert_text :
    (x s : String) (l : List String) → contains x (insert_text s l) ≡ (x == s || contains x l)
unfolding insert_text
contains-insert_text x s [] = refl
contains-insert_text x s (t ∷ l) = ground (arith, contains-insert_text x s l)

pub contains-sorted : (x : String) (l : List String) → contains x (sorted l) ≡ contains x l
unfolding sorted
contains-sorted x [] = refl
contains-sorted x (s ∷ l) = ground (arith, contains-insert_text x s (sorted l), contains-sorted x l)
