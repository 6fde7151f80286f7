-- ===== src/Extensions/Registry.antt =====
-- src/personal_assistant/core/extensions/models.py and registry.py. Of a manifest, what the registry and
-- the lifecycle read. A method holds the lock, so a call is one step.
use nju_personal_assistant.Base.{
  ℕ, ◌+◌, String, Bool, true, List, [], ◌∷◌, ◌++◌, Option, none, some, Dict, lookup, insert, delete,
  not, any, ◌==◌, HasEq, nat_eq, string_eq, ◌≡◌, ◌↔◌, arith, if◌then◌else◌,
}
use nju_personal_assistant.Domain.Errors.{
  Result, ok, raise, bind, concat, extension_error, duplicate_capability,
}

pub data ExtensionState : Type 0 where
  discovered staged rejected installed_disabled starting enabled quarantined : ExtensionState
  draining disabled uninstalling uninstalled upgrading rolled_back : ExtensionState

abbrev pub state_place : ExtensionState → ℕ
state_place discovered = 0
state_place staged = 1
state_place rejected = 2
state_place installed_disabled = 3
state_place starting = 4
state_place enabled = 5
state_place quarantined = 6
state_place draining = 7
state_place disabled = 8
state_place uninstalling = 9
state_place uninstalled = 10
state_place upgrading = 11
state_place rolled_back = 12

pub state_place_iff : (s t : ExtensionState) → ((state_place s == state_place t) ≡ true) ↔ (s ≡ t)
state_place_iff s t = ground arith

instance abbrev pub extension_state_eq : HasEq ExtensionState
extension_state_eq = record {
  equal = λ s t. state_place s == state_place t;
  equal_iff = state_place_iff;
}

pub record Manifest : Type 0 where
  pub id : String
  pub version : String
  -- Per slot, the identifiers that it provides
  pub slots : Dict String (List String)

pub record ExtensionRecord : Type 0 where
  pub manifest : Manifest
  pub artifact_hash : String
  pub state : ExtensionState
  pub install_path : Option String
  pub data_retained : Bool
  pub tombstone : Bool

pub record CapabilityOwner : Type 0 where
  pub extension_id : String
  pub extension_version : String
  pub slot : String

pub record Snapshot : Type 0 where
  pub generation : ℕ
  pub extensions : Dict String ExtensionRecord
  pub capabilities : Dict String CapabilityOwner

-- owner_of
unfoldable pub owner_of : String → Snapshot → Option CapabilityOwner
owner_of c s = lookup c s.capabilities

abbrev pub values_of : Dict String ExtensionRecord → List ExtensionRecord
values_of [] = []
values_of ((i, r) ∷ d) = r ∷ values_of d

-- The capabilities that a manifest declares, in order
unfoldable pub claims_of_slot : Manifest → String → List String → List (String × CapabilityOwner)
claims_of_slot m slot [] = []
claims_of_slot m slot (c ∷ cs) =
    (c, record { extension_id = m.id; extension_version = m.version; slot = slot })
    ∷ claims_of_slot m slot cs

unfoldable pub claims_of_slots :
    Manifest → Dict String (List String) → List (String × CapabilityOwner)
unfolding claims_of_slot
claims_of_slots m [] = []
claims_of_slots m ((slot, cs) ∷ rest) = claims_of_slot m slot cs ++ claims_of_slots m rest

unfoldable pub claims_of : ExtensionRecord → List (String × CapabilityOwner)
unfolding claims_of_slots
claims_of r = claims_of_slots r.manifest r.manifest.slots

unfoldable pub claim_fresh :
    Option CapabilityOwner
    → String
    → CapabilityOwner
    → Dict String CapabilityOwner
    → Result (Dict String CapabilityOwner)
unfolding concat
claim_fresh (some previous) c owner d = raise duplicate_capability (
    concat (
      "capability '" ∷ c ∷ "' is declared by both '" ∷ previous.extension_id ∷ "' and '"
      ∷ owner.extension_id ∷ "'" ∷ []))
claim_fresh none c owner d = ok (insert c owner d)

unfoldable pub add_claims :
    List (String × CapabilityOwner)
    → Dict String CapabilityOwner
    → Result (Dict String CapabilityOwner)
unfolding claim_fresh
add_claims [] d = ok d
add_claims ((c, owner) ∷ l) d = bind (claim_fresh (lookup c d) c owner d) (add_claims l)

-- What was built so far
abbrev pub Built : Type 0
Built = Dict String ExtensionRecord × Dict String CapabilityOwner

unfoldable pub build_one : Option ExtensionRecord → ExtensionRecord → Built → Result Built
unfolding concat
build_one (some _) r (e, c) =
    raise duplicate_capability (concat ("extension id already registered: " ∷ r.manifest.id ∷ []))
build_one none r (e, c) =
    bind (add_claims (claims_of r) c) (λ c'. ok (insert r.manifest.id r e, c'))

unfoldable pub build_from : List ExtensionRecord → Built → Result Built
unfolding build_one add_claims
build_from [] b = ok b
build_from (r ∷ rs) b = bind (build_one (lookup r.manifest.id b.0) r b) (build_from rs)

abbrev pub snapshot_of : ℕ → Built → Snapshot
snapshot_of generation (e, c) = record { generation = generation; extensions = e; capabilities = c }

-- `_build`
unfoldable pub build : ℕ → List ExtensionRecord → Result Snapshot
unfolding build_from
build generation rs = bind (build_from rs ([], [])) (λ b. ok (snapshot_of generation b))

-- `disable`
unfoldable pub withdraw : String → Snapshot → Result Snapshot
unfolding build
withdraw i s = build (s.generation + 1) (values_of (delete i s.extensions))

-- `enable`
unfoldable pub publish_extension : ExtensionRecord → Snapshot → Result Snapshot
unfolding build
publish_extension r s =
    if not (r.state == enabled)
    then raise extension_error "only a healthy ENABLED record can enter the registry"
    else build (s.generation + 1) (values_of (insert r.manifest.id r s.extensions))

-- `replace_all`; the message lists the ids.
unfoldable pub replace_all : List ExtensionRecord → Snapshot → Result Snapshot
unfolding build
replace_all rs s =
    if any (λ (r : ExtensionRecord). not (r.state == enabled)) rs
    then raise extension_error "registry records are not enabled"
    else build (s.generation + 1) rs
