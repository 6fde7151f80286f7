-- ===== src/Approvals/Evolution.antt =====
-- How one record changes when a plan made from an older copy is carried out.
use nju_personal_assistant.Base.{
  ◌+◌, ◌<◌, String, Bool, true, false, ◌≡◌, ◌⊎◌, inl, inr, refl, sym, ap, arith, some, contains,
  ◌==◌, nat_eq, string_eq, ==→eq, Bool-cases, Option-cases,
}
use nju_personal_assistant.Domain.Enums.{
  ApprovalState, executing, succeeded, failed, unknown, approval_state_eq,
}
use nju_personal_assistant.Approvals.StateMachine.{allowed_approval_transitions}
use nju_personal_assistant.Approvals.Record.{ApprovalRecord, Repository, find}
use nju_personal_assistant.Approvals.Service.{settle}
use nju_personal_assistant.Approvals.Follows.{Follows, Request, plan_of, plan_of-Follows, written}
use nju_personal_assistant.Approvals.Stored.{bumped, saved_at, find-settle}

-- One write: an allowed transition, one version up, the approved action untouched.
pub record Moves (old new : ApprovalRecord) : Type 0 where
  pub allowed : contains new.state (allowed_approval_transitions old.state) ≡ true
  pub same_id : new.id ≡ old.id
  pub next_version : new.version ≡ old.version + 1
  pub same_fingerprint : new.action_fingerprint ≡ old.action_fingerprint
  pub same_action : new.canonical_action ≡ old.canonical_action
  pub same_nonce : new.nonce ≡ old.nonce
  pub same_expiry : new.expires_at ≡ old.expires_at

abbrev pub Evolves : ApprovalRecord → ApprovalRecord → Type 0
Evolves old new = (old ≡ new) ⊎ Moves old new

Follows-Moves : (old new : ApprovalRecord) → Follows old new → Moves old (bumped new old.version)
Follows-Moves old new f = record {
  allowed = f.allowed;
  same_id = f.same_id;
  next_version = refl;
  same_fingerprint = f.same_fingerprint;
  same_action = f.same_action;
  same_nonce = f.same_nonce;
  same_expiry = f.same_expiry;
}

-- The copy is the stored record, or an older version of it.
abbrev pub IsCopy : ApprovalRecord → ApprovalRecord → Type 0
IsCopy old d = (old.version < d.version) ⊎ (old ≡ d)

module _ (repo : Repository) (old new d : ApprovalRecord) (stored : find old.id repo ≡ some d) where
  save-Evolves :
      (i : String) (c : ApprovalRecord)
      → IsCopy old d
      → Follows old new
      → find i repo ≡ some c
      → (c' : ApprovalRecord) × (saved_at i (find new.id repo) new old.version repo ≡ some c')
        × Evolves c c'
  save-Evolves i c (inl older) f at_i = (c, ground (arith, f.same_id), inl refl)
  save-Evolves i c (inr same) f at_i = elim (Bool-cases (new.id == i)) [
    | inl hit ↦ (
      bumped new old.version,
      ground (arith, f.same_id),
      inr (rw (c_is_old hit) (Follows-Moves old new f)),
    )
    | inr miss ↦ (c, ground (arith, f.same_id), inl refl)
  ]
    where
      c_is_old : (new.id == i) ≡ true → c ≡ old
      c_is_old hit = cc (f.same_id, ==→eq new.id i hit, at_i, stored, same)

-- Carrying out a request made from a copy moves each stored record by one allowed step, or not at
-- all.
pub settle-Evolves :
    (repo : Repository) (old d : ApprovalRecord) (q : Request) (i : String) (c : ApprovalRecord)
    → find old.id repo ≡ some d
    → IsCopy old d
    → find i repo ≡ some c
    → (c' : ApprovalRecord) × (find i (settle old (plan_of q old) repo).1 ≡ some c') × Evolves c c'
settle-Evolves repo old d q i c stored copy at_i = elim (Option-cases (written (plan_of q old))) [
  | inl nothing ↦ (c, rw (find-settle, nothing) at_i, inl refl)
  | inr (new, wrote) ↦
      let (c', at_i', e) =
        save-Evolves repo old new d stored i c copy (plan_of-Follows q old new wrote) at_i in
      (c', rw (find-settle, wrote) at_i', e)
]

-- The action was handed to the executor: these states are never left for `approved`.
unfoldable pub is_spent : ApprovalState → Bool
is_spent executing = true
is_spent succeeded = true
is_spent failed = true
is_spent unknown = true
is_spent _ = false

pub Evolves-is_spent :
    (c c' : ApprovalRecord) → Evolves c c' → is_spent c.state ≡ true → is_spent c'.state ≡ true
unfolding is_spent allowed_approval_transitions
Evolves-is_spent c c' (inl same) h = rw (← same) h
Evolves-is_spent c c' (inr m) h = ground (arith, m.allowed)

pub Evolves-IsCopy : (old c c' : ApprovalRecord) → IsCopy old c → Evolves c c' → IsCopy old c'
Evolves-IsCopy old c c' k (inl same) = rw (← same) k
Evolves-IsCopy old c c' (inl older) (inr m) = inl (omega (arith, m.next_version))
Evolves-IsCopy old c c' (inr same) (inr m) = inl (rw same (omega (arith, m.next_version)))

pub Evolves-id : (c c' : ApprovalRecord) → Evolves c c' → c'.id ≡ c.id
Evolves-id c c' (inl same) = ap (λ (r : ApprovalRecord). r.id) (sym same)
Evolves-id c c' (inr m) = m.same_id
