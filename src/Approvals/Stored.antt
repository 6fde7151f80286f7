-- ===== src/Approvals/Stored.antt =====
-- What a call leaves in the repository.
use nju_personal_assistant.Base.{
  ℕ, ◌+◌, String, ◌≡◌, refl, arith, Option, none, some, lookup-insert, ◌==◌, nat_eq, string_eq,
  if◌then◌else◌, ◌&&◌,
}
use nju_personal_assistant.Approvals.Record.{ApprovalRecord, Repository, find, save}
use nju_personal_assistant.Approvals.Service.{Plan, keep, refuse, write, write_then_raise, settle}
use nju_personal_assistant.Approvals.Follows.{written}

-- The record after a save at the version that was read.
abbrev pub bumped : ApprovalRecord → ℕ → ApprovalRecord
bumped r v = record r { version = v + 1 }

abbrev pub saved_at :
    String → Option ApprovalRecord → ApprovalRecord → ℕ → Repository → Option ApprovalRecord
saved_at i none r v repo = find i repo
saved_at i (some c) r v repo =
    if (c.version == v) && (r.id == i) then some (bumped r v) else find i repo

-- A save replaces the record exactly where the version is the one expected.
pub find-save :
    (i : String) (r : ApprovalRecord) (v : ℕ) (repo : Repository)
    → find i (save r v repo).1 ≡ saved_at i (find r.id repo) r v repo
unfolding find save
find-save i r v repo = ground (arith, lookup-insert r.id i (bumped r v) repo.records)

abbrev pub settled_at :
    String → ApprovalRecord → Option ApprovalRecord → Repository → Option ApprovalRecord
settled_at i old none repo = find i repo
settled_at i old (some new) repo = saved_at i (find new.id repo) new old.version repo

pub find-settle :
    (i : String) (old : ApprovalRecord) (p : Plan) (repo : Repository)
    → find i (settle old p repo).1 ≡ settled_at i old (written p) repo
unfolding settle
find-settle i old keep repo = refl
find-settle i old (refuse e) repo = refl
find-settle i old (write new) repo = find-save i new old.version repo
find-settle i old (write_then_raise new e) repo = ground (arith, find-save i new old.version repo)
