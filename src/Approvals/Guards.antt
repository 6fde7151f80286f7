-- ===== src/Approvals/Guards.antt =====
-- When `approve` and `consume_for_execution` succeed, and what they leave where they refuse.
use nju_personal_assistant.Base.{
  ℕ, ◌+◌, ◌<◌, String, false, ◌≡◌, arith, Option, none, some, lookup-insert_self, string_eq,
}
use nju_personal_assistant.Domain.Enums.{waiting_approval, approved, executing}
use nju_personal_assistant.Domain.Errors.{Result, ok, err}
use nju_personal_assistant.Domain.Text.{is_blank}
use nju_personal_assistant.Approvals.Canonical.{canonical_sha256}
use nju_personal_assistant.Approvals.Binding.{ApprovalBinding, envelope}
use nju_personal_assistant.Approvals.Record.{ApprovalRecord, Repository, find, get, save}
use nju_personal_assistant.Approvals.Service.{
  settle, approve_plan, approve, consume_plan, consume_for_execution,
}
use nju_personal_assistant.Approvals.ExactlyOnce.{consume_returns}

-- What `approve` checks.
pub record Approvable (c : ApprovalRecord) (nonce actor : String) (now : ℕ) : Type 0 where
  pub waiting : c.state ≡ waiting_approval
  pub in_time : now < c.expires_at
  pub named : is_blank actor ≡ false
  pub same_nonce : c.nonce ≡ nonce

abbrev pub approved_copy : ApprovalRecord → String → ℕ → ApprovalRecord
approved_copy c actor now = record c {
  state = approved;
  approved_at = some now;
  approved_by = some actor;
  version = c.version + 1;
}

-- `approve` of a stored approval returns only where it is waiting, in time, named and has the nonce.
pub approve_guards :
    (nonce actor : String) (now : ℕ) (repo : Repository) (c r : ApprovalRecord)
    → find c.id repo ≡ some c
    → (approve c.id nonce actor now repo).0 ≡ ok r
    → Approvable c nonce actor now
unfolding approve settle approve_plan get save find
approve_guards nonce actor now repo c r stored h = ground (arith, string_eq.equal_iff c.nonce nonce)

-- Where an approval is waiting, in time, named and has the nonce, `approve` returns the approved
-- record, one version up, and stores it.
approve_succeeds :
    (nonce actor : String) (now : ℕ) (repo : Repository) (c : ApprovalRecord)
    → find c.id repo ≡ some c
    → Approvable c nonce actor now
    → ((approve c.id nonce actor now repo).0 ≡ ok (approved_copy c actor now))
      × (find c.id (approve c.id nonce actor now repo).1 ≡ some (approved_copy c actor now))
unfolding approve settle approve_plan get save find
approve_succeeds nonce actor now repo c stored a = ground (
  arith,
  string_eq.equal_iff c.nonce nonce,
  lookup-insert_self c.id (approved_copy c actor now) repo.records,
)

consume_plan_authorises :
    (presented : Result String) (now : ℕ) (c r : ApprovalRecord) (repo : Repository)
    → (settle c (consume_plan presented now c) repo).0 ≡ ok r
    → (c.state ≡ approved) × (now < c.expires_at) × (presented ≡ ok c.action_fingerprint)
unfolding settle consume_plan save
consume_plan_authorises (err e) now c r repo h = ground arith
consume_plan_authorises (ok p) now c r repo h =
    ground (arith, string_eq.equal_iff c.action_fingerprint p)

module _ (sha256 : String → String) (binding : ApprovalBinding) (now : ℕ) (repo : Repository) where
  -- `consume_for_execution` returns only for an approved record, in time, whose fingerprint is that
  -- of the presented action; and it leaves the record executing.
  pub consume_guards :
      (c r : ApprovalRecord)
      → find c.id repo ≡ some c
      → (consume_for_execution sha256 c.id binding now repo).0 ≡ ok r
      → (c.state ≡ approved)
        × (now < c.expires_at)
        × (canonical_sha256 sha256 (envelope binding) ≡ ok c.action_fingerprint)
        × (r.state ≡ executing)
        × (find c.id (consume_for_execution sha256 c.id binding now repo).1 ≡ some r)
  unfolding consume_for_execution get
  consume_guards c r stored h =
      ground
        (arith, consume_returns (canonical_sha256 sha256 (envelope binding)) now c c r repo stored)

  -- The stored record is approved, in time, and its fingerprint is that of the presented action.
  abbrev pub IsAuthorised : ApprovalRecord → Type 0
  IsAuthorised c =
      (c.state ≡ approved)
      × (now < c.expires_at)
      × (canonical_sha256 sha256 (envelope binding) ≡ ok c.action_fingerprint)

  -- Whatever id it is asked for, `consume_for_execution` returns only where that id is stored, and
  -- authorised.
  pub consume-IsAuthorised :
      (i : String) (r : ApprovalRecord) (stored : Option ApprovalRecord)
      → find i repo ≡ stored
      → (consume_for_execution sha256 i binding now repo).0 ≡ ok r
      → (c : ApprovalRecord) × (find i repo ≡ some c) × IsAuthorised c
  unfolding consume_for_execution get find
  consume-IsAuthorised i r none e h = ground arith
  consume-IsAuthorised i r (some c) e h = (
    c,
    e,
    consume_plan_authorises (canonical_sha256 sha256 (envelope binding)) now c r repo
        (ground arith),
  )
