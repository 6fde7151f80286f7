-- ===== src/Context/Provenance.antt =====
-- `trace_provenance` of src/personal_assistant/core/context/provenance.py. The recursion of `visit` takes
-- fuel, and `none` means that it ran out; Python's own limit on the depth of calls is left out.
use nju_personal_assistant.Base.{
  ℕ, zero, suc, String, List, [], ◌∷◌, ◌++◌, Option, none, some, Dict, lookup, insert, contains,
  length, string_eq, if◌then◌else◌,
}
use nju_personal_assistant.Context.Models.{Evidence}

pub record Trail : Type 0 where
  pub visited : List String
  pub result : List String

unfoldable pub mark : String → Trail → Trail
mark c t = record { visited = c ∷ t.visited; result = t.result ++ c ∷ [] }

-- `for parent in item.derived_from: visit(parent)`
unfoldable pub walk : (String → Trail → Option Trail) → List String → Trail → Option Trail
walk visit [] t = some t
walk visit (p ∷ parents) t = elim (visit p t) [ none ↦ none | some t' ↦ walk visit parents t' ]

unfoldable pub follow : (String → Trail → Option Trail) → Option Evidence → Trail → Option Trail
unfolding walk
follow visit none t = some t
follow visit (some item) t = walk visit item.derived_from t

unfoldable pub visit : ℕ → Dict String Evidence → String → Trail → Option Trail
unfolding follow mark
visit zero known c t = none
visit (suc fuel) known c t =
    let rest = follow (visit fuel known) (lookup c known) (mark c t) in
    if contains c t.visited then some t else rest

-- {item.id: item for item in evidence}
unfoldable pub by_id : Dict String Evidence → List Evidence → Dict String Evidence
by_id known [] = known
by_id known (e ∷ es) = by_id (insert e.id e known) es

-- One level of recursion for each item that is known, and one more.
unfoldable pub trace_provenance : String → List Evidence → Option (List String)
unfolding visit by_id
trace_provenance evidence_id evidence =
    let known = by_id [] evidence in
    elim (visit (suc (length known)) known evidence_id (record { visited = []; result = [] })) [
      | none ↦ none
      | some t ↦ some t.result
    ]
