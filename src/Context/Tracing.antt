-- ===== src/Context/Tracing.antt =====
-- The recursion of `trace_provenance` ends, and lists each id once.
use nju_personal_assistant.Base.{
  ℕ, zero, suc, ◌+◌, ◌≤◌, ◌<◌, String, true, false, List, [], ◌∷◌, ◌++◌, Option, none, some, Dict,
  lookup, contains, length, string_eq, if◌then◌else◌, ◌≡◌, refl, ap, ◌∙◌, arith, Bool-cases, inl,
  inr, ◌==◌, ◌||◌,
}
use nju_personal_assistant.Context.Models.{Evidence}
use nju_personal_assistant.Context.Provenance.{
  Trail, mark, walk, follow, visit, by_id, trace_provenance,
}

-- How many of the known items were not visited.
abbrev fresh : Dict String Evidence → List String → ℕ
fresh [] visited = 0
fresh ((k, e) ∷ known) visited = (if contains k visited then 0 else 1) + fresh known visited

fresh-le :
    (known : Dict String Evidence) (c : String) (v : List String)
    → fresh known (c ∷ v) ≤ fresh known v
fresh-le [] c v = omega arith
fresh-le ((k, e) ∷ known) c v = ground (arith, fresh-le known c v)

fresh-lt :
    (known : Dict String Evidence) (c : String) (v : List String) (item : Evidence)
    → lookup c known ≡ some item
    → contains c v ≡ false
    → fresh known (c ∷ v) < fresh known v
unfolding lookup
fresh-lt [] c v item h n = absurd (ground arith)
fresh-lt ((k, e) ∷ known) c v item h n =
    ground (arith, string_eq.equal_iff k c, fresh-le known c v, fresh-lt known c v item)

fresh-le-length : (known : Dict String Evidence) → fresh known [] ≤ length known
fresh-le-length [] = omega arith
fresh-le-length ((k, e) ∷ known) = omega (arith, fresh-le-length known)

abbrev pub IsDistinct : List String → Type 0
IsDistinct [] = Unit
IsDistinct (x ∷ xs) = (contains x xs ≡ false) × IsDistinct xs

contains-append :
    (x c : String) (xs : List String) → contains x (xs ++ c ∷ []) ≡ (contains x xs || x == c)
contains-append x c [] = ground arith
contains-append x c (y ∷ xs) = ground (arith, contains-append x c xs)

IsDistinct-append :
    (c : String) (xs : List String)
    → contains c xs ≡ false
    → IsDistinct xs
    → IsDistinct (xs ++ c ∷ [])
IsDistinct-append c [] n d = (refl, tt)
IsDistinct-append c (x ∷ xs) n (m, d) = (
  ground (arith, contains-append x c xs, string_eq.equal_iff x c, string_eq.equal_iff c x),
  IsDistinct-append c xs (ground arith) d,
)

-- The result lists what was visited, each once.
record IsListed (t : Trail) : Type 0 where
  distinct : IsDistinct t.result
  same : (x : String) → contains x t.result ≡ contains x t.visited

mark-IsListed :
    (c : String) (t : Trail) → contains c t.visited ≡ false → IsListed t → IsListed (mark c t)
unfolding mark
mark-IsListed c t n l = record {
  distinct = IsDistinct-append c t.result (l.same c ∙ n) l.distinct;
  same = λ x. ground (arith, contains-append x c t.result, l.same x);
}

module _ (known : Dict String Evidence) where
  -- A call that ends, with no more items to visit than before.
  abbrev Ends : Option Trail → Trail → Type 0
  Ends o t =
      (t' : Trail) × (o ≡ some t')
      × (fresh known t'.visited ≤ fresh known t.visited)
      × IsListed t'
      × ((x : String) → contains x t.visited ≡ true → contains x t'.visited ≡ true)

  abbrev Suffices : ℕ → (String → Trail → Option Trail) → Type 0
  Suffices fuel call =
      (c : String) (t : Trail) → fresh known t.visited < fuel → IsListed t → Ends (call c t) t

  walk_on :
      (call : String → Trail → Option Trail) (p : String) (parents : List String) (t t' : Trail)
      → call p t ≡ some t'
      → walk call (p ∷ parents) t ≡ walk call parents t'
  unfolding walk
  walk_on call p parents t t' e = ap (λ o. elim o [ none ↦ none | some u ↦ walk call parents u ]) e

  walk-Ends :
      (fuel : ℕ) (call : String → Trail → Option Trail) (parents : List String) (t : Trail)
      → Suffices fuel call
      → fresh known t.visited < fuel
      → IsListed t
      → Ends (walk call parents t) t
  unfolding walk
  walk-Ends fuel call [] t s h l = (t, refl, omega arith, l, λ x m. m)
  walk-Ends fuel call (p ∷ parents) t s h l =
      let (t', e, n, l', k) = s p t h l in
      let (t'', e', n', l'', k') = walk-Ends fuel call parents t' s (omega arith) l' in
      (t'', walk_on call p parents t t' e ∙ e', omega arith, l'', λ x m. k' x (k x m))

  follow-Ends :
      (fuel : ℕ) (call : String → Trail → Option Trail) (o : Option Evidence) (t : Trail)
      → Suffices fuel call
      → ((item : Evidence) → o ≡ some item → fresh known t.visited < fuel)
      → IsListed t
      → Ends (follow call o t) t
  unfolding follow
  follow-Ends fuel call none t s h l = (t, refl, omega arith, l, λ x m. m)
  follow-Ends fuel call (some item) t s h l =
      walk-Ends fuel call item.derived_from t s (h item refl) l

  enter-Ends :
      (fuel : ℕ) (c : String) (t : Trail)
      → Suffices fuel (visit fuel known)
      → fresh known t.visited < suc fuel
      → contains c t.visited ≡ false
      → IsListed t
      → (t' : Trail) × (follow (visit fuel known) (lookup c known) (mark c t) ≡ some t')
        × (fresh known t'.visited ≤ fresh known t.visited)
        × IsListed t'
        × ((x : String) → contains x (mark c t).visited ≡ true → contains x t'.visited ≡ true)
  unfolding mark
  enter-Ends fuel c t s h n l =
      let (t', e, m, l', k) =
        follow-Ends fuel (visit fuel known) (lookup c known) (mark c t) s
          (λ item e. ground (arith, fresh-lt known c t.visited item e n)) (mark-IsListed c t n l) in
      (t', e, omega (arith, fresh-le known c t.visited), l', k)

  visit-Suffices : (fuel : ℕ) → Suffices fuel (visit fuel known)
  unfolding visit mark
  visit-Suffices zero c t h l = absurd (omega arith)
  visit-Suffices (suc fuel) c t h l = elim (Bool-cases (contains c t.visited)) [
    | inl seen ↦ (t, rw seen refl, omega arith, l, λ x m. m)
    | inr new ↦
        let (t', e, n, l', k) = enter-Ends fuel c t (visit-Suffices fuel) h new l in
        (t', rw new e, n, l', λ x m. k x (ground arith))
  ]

  -- The first id that is visited is listed.
  visit_first :
      (c : String)
      → (t : Trail) × (visit (suc (length known)) known c (record { visited = []; result = [] })
          ≡ some t)
        × IsDistinct t.result
        × (contains c t.result ≡ true)
  unfolding visit mark
  visit_first c =
      let start : Trail = record { visited = []; result = [] } in
      let l : IsListed start = record { distinct = tt; same = λ x. refl } in
      let (t, e, n, m, k) =
        enter-Ends (length known) c start (visit-Suffices (length known))
          (omega (arith, fresh-le-length known)) refl l in
      (t, e, m.distinct, m.same c ∙ k c (ground (arith, string_eq.equal_iff c c)))

-- Whatever the evidence says it is derived from, also in a circle, the search ends within its fuel, and the ids that it returns are distinct and hold the one it started from.
pub trace_provenance_ends :
    (evidence_id : String) (evidence : List Evidence)
    → (ids : List String) × (trace_provenance evidence_id evidence ≡ some ids)
      × IsDistinct ids
      × (contains evidence_id ids ≡ true)
unfolding trace_provenance
trace_provenance_ends evidence_id evidence =
    let (t, e, d, m) = visit_first (by_id [] evidence) evidence_id in
    (t.result, ap (λ o. elim o [ none ↦ none | some u ↦ some u.result ]) e, d, m)
