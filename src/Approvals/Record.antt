-- ===== src/Approvals/Record.antt =====
-- `ApprovalRecord` and `InMemoryApprovalRepository` of
-- src/personal_assistant/core/approvals/service.py. A datetime is an instant, in microseconds; each
-- method holds the lock throughout, so a call is one step.
use nju_personal_assistant.Base.{
  ℕ, ◌+◌, String, [], ◌∷◌, Option, none, some, Dict, lookup, insert, not, ◌==◌, nat_eq, string_eq,
  if◌then◌else◌,
}
use nju_personal_assistant.Domain.Enums.{ApprovalState}
use nju_personal_assistant.Domain.Errors.{
  concat, already_exists, not_found, concurrent_modification, raise, ok,
}
use nju_personal_assistant.Domain.Exec.{Exec}
use nju_personal_assistant.Approvals.Canonical.{decimal}

pub record ApprovalRecord : Type 0 where
  pub id : String
  pub state : ApprovalState
  pub action_fingerprint : String
  pub canonical_action : String
  pub nonce : String
  pub created_at : ℕ
  pub expires_at : ℕ
  pub version : ℕ
  pub approved_at : Option ℕ
  pub approved_by : Option String
  pub consumed_at : Option ℕ
  pub completed_at : Option ℕ
  pub result_reference : Option String
  pub failure_reason : Option String

pub record Repository : Type 0 where
  pub records : Dict String ApprovalRecord

abbrev pub empty : Repository
empty = record { records = [] }

-- What the repository holds under an id.
unfoldable pub find : String → Repository → Option ApprovalRecord
find i repo = lookup i repo.records

put : String → ApprovalRecord → Repository → Repository
put i r repo = record { records = insert i r repo.records }

create_at : Option ApprovalRecord → ApprovalRecord → Exec Repository (Unit {0})
unfolding put
create_at (some _) r repo =
    (raise already_exists (concat ("approval already exists: " ∷ r.id ∷ [])), repo)
create_at none r repo = (ok tt, put r.id r repo)

unfoldable pub create : ApprovalRecord → Exec Repository (Unit {0})
unfolding create_at find
create r repo = create_at (find r.id repo) r repo

found : String → Option ApprovalRecord → Exec Repository ApprovalRecord
found i none repo = (raise not_found (concat ("approval not found: " ∷ i ∷ [])), repo)
found i (some r) repo = (ok r, repo)

unfoldable pub get : String → Exec Repository ApprovalRecord
unfolding found find
get i repo = found i (find i repo) repo

save_over : Option ApprovalRecord → ApprovalRecord → ℕ → Exec Repository ApprovalRecord
unfolding put
save_over none r expected repo =
    (raise not_found (concat ("approval not found: " ∷ r.id ∷ [])), repo)
save_over (some current) r expected repo =
    let saved = record r { version = expected + 1 } in
    if not (current.version == expected)
    then (
      raise concurrent_modification (
          concat (
            "approval "
            ∷ r.id
            ∷ " expected version "
            ∷ decimal expected
            ∷ ", found "
            ∷ decimal current.version
            ∷ [])),
      repo,
    )
    else (ok saved, put r.id saved repo)

-- A compare-and-swap on the version.
unfoldable pub save : ApprovalRecord → ℕ → Exec Repository ApprovalRecord
unfolding save_over find
save r expected repo = save_over (find r.id repo) r expected repo
