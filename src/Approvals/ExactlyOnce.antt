-- ===== src/Approvals/ExactlyOnce.antt =====
-- The invariant of every interleaving, and what follows from it.
use mathlib.Core.List.{Memᴰ}
use nju_personal_assistant.Base.{
  ℕ, ◌<◌, String, true, ◌≡◌, inl, inr, refl, arith, some, ◌∷◌, lookup, lookup-insert,
  lookup-insert_self, string_eq, ==→eq, Option-cases,
}
use nju_personal_assistant.Domain.Enums.{approved, executing}
use nju_personal_assistant.Domain.Errors.{Result, ok, err}
use nju_personal_assistant.Approvals.Record.{ApprovalRecord, Repository, find, create, save}
use nju_personal_assistant.Approvals.Stored.{bumped, saved_at, find-settle}
use nju_personal_assistant.Approvals.Service.{settle, consume_plan}
use nju_personal_assistant.Approvals.Follows.{Request, consume_request, plan_of, written}
use nju_personal_assistant.Approvals.Evolution.{
  Evolves, IsCopy, settle-Evolves, is_spent, Evolves-is_spent, Evolves-IsCopy,
}
use nju_personal_assistant.Approvals.Interleaving.{
  World, Step, prepare_step, read_step, settle_step, Reach, here, next, act, note, start, Distinct,
}

abbrev Stored : Repository → (ApprovalRecord → Type 0) → String → Type 0
Stored repo P i = (c : ApprovalRecord) × (find i repo ≡ some c) × P c

pub record Inv (w : World) : Type 0 where
  pub keyed : (i : String) (c : ApprovalRecord) → find i w.repo ≡ some c → c.id ≡ i
  pub copies : (r : ApprovalRecord) → Memᴰ r w.seen → Stored w.repo (IsCopy r) r.id
  pub spent : (i : String) → Memᴰ i w.consumed → Stored w.repo (λ c. is_spent c.state ≡ true) i
  pub once : Distinct w.consumed

-- A step keeps every record, up to one move.
abbrev Grows : Repository → Repository → Type 0
Grows a b =
    (i : String) (c : ApprovalRecord)
    → find i a ≡ some c
    → (c' : ApprovalRecord) × (find i b ≡ some c') × Evolves c c'

create-Grows : (r : ApprovalRecord) (repo : Repository) → Grows repo (create r repo).1
unfolding create find
create-Grows r repo i c h =
    (c, ground (arith, lookup-insert r.id i r repo.records, ==→eq r.id i), inl refl)

keyed_create :
    (r : ApprovalRecord) (repo : Repository)
    → ((i : String) (c : ApprovalRecord) → find i repo ≡ some c → c.id ≡ i)
    → (i : String) (c : ApprovalRecord) → find i (create r repo).1 ≡ some c
    → c.id ≡ i
unfolding create find
keyed_create r repo k i c h =
    ground (arith, lookup-insert r.id i r repo.records, ==→eq r.id i, k i c)

Grows-Stored :
    (a b : Repository) (P : ApprovalRecord → Type 0) (i : String)
    → ((c c' : ApprovalRecord) → Evolves c c' → P c → P c')
    → Grows a b
    → Stored a P i
    → Stored b P i
Grows-Stored a b P i keep grows (c, at_i, p) =
    let (c', at_i', e) = grows i c at_i in (c', at_i', keep c c' e p)

settle-Grows :
    (old : ApprovalRecord) (q : Request) (repo : Repository)
    → Stored repo (IsCopy old) old.id
    → Grows repo (settle old (plan_of q old) repo).1
settle-Grows old q repo (d, stored, copy) i c h = settle-Evolves repo old d q i c stored copy h

keyed_settle :
    (old : ApprovalRecord) (q : Request) (repo : Repository)
    → ((i : String) (c : ApprovalRecord) → find i repo ≡ some c → c.id ≡ i)
    → (i : String) (c : ApprovalRecord) → find i (settle old (plan_of q old) repo).1 ≡ some c
    → c.id ≡ i
keyed_settle old q repo k i c h = elim (Option-cases (written (plan_of q old))) [
  | inl nothing ↦ k i c (rw (find-settle, nothing) at h)
  | inr (new, wrote) ↦ keyed_write new (rw (find-settle, wrote) at h)
]
  where
    keyed_write :
        (new : ApprovalRecord)
        → saved_at i (find new.id repo) new old.version repo ≡ some c
        → c.id ≡ i
    keyed_write new e = ground (arith, ==→eq new.id i, k i c)

-- A consumption that returns was made from the stored, approved record, and leaves it executing.
pub consume_returns :
    (presented : Result String) (now : ℕ) (old d r : ApprovalRecord) (repo : Repository)
    → find old.id repo ≡ some d
    → (settle old (consume_plan presented now old) repo).0 ≡ ok r
    → (old.state ≡ approved)
      × (d.version ≡ old.version)
      × (r.id ≡ old.id)
      × (r.state ≡ executing)
      × (find old.id (settle old (consume_plan presented now old) repo).1 ≡ some r)
      × (presented ≡ ok old.action_fingerprint)
      × (now < old.expires_at)
unfolding settle consume_plan save find
consume_returns (err e) now old d r repo stored h = ground arith
consume_returns (ok p) now old d r repo stored h = ground (
  arith,
  string_eq.equal_iff old.action_fingerprint p,
  lookup-insert_self old.id
      (bumped (record old { state = executing; consumed_at = some now }) old.version) repo.records,
)

-- What was consumed is spent, so a second consumption does not return.
fresh_consumption :
    (presented : Result String) (now : ℕ) (old d r c : ApprovalRecord) (repo : Repository)
    → find old.id repo ≡ some d
    → IsCopy old d
    → (settle old (consume_plan presented now old) repo).0 ≡ ok r
    → find r.id repo ≡ some c
    → is_spent c.state ≡ true
    → ⊥
unfolding is_spent
fresh_consumption presented now old d r c repo stored (inl older) h at_r sp =
    let facts = consume_returns presented now old d r repo stored h in omega (arith, facts.1)
fresh_consumption presented now old d r c repo stored (inr same) h at_r sp =
    let facts = consume_returns presented now old d r repo stored h in
    ground (arith, facts.0, facts.2)

note_once :
    (w : World) (q : Request) (old d : ApprovalRecord) (result : Result ApprovalRecord)
    → Inv w
    → find old.id w.repo ≡ some d
    → IsCopy old d
    → (settle old (plan_of q old) w.repo).0 ≡ result
    → Distinct (note q result w.consumed)
unfolding note plan_of
note_once w (consume_request presented now) old d (ok r) inv stored copy h = (
  λ m.
      let (c, at_r, sp) = inv.spent r.id m in
      fresh_consumption presented now old d r c w.repo stored copy h at_r sp,
  inv.once,
)
note_once w _ old d _ inv stored copy h = inv.once

still_spent :
    (w : World) (q : Request) (old : ApprovalRecord)
    → Inv w
    → Stored w.repo (IsCopy old) old.id
    → (i : String) → Memᴰ i w.consumed
    → Stored (settle old (plan_of q old) w.repo).1 (λ c. is_spent c.state ≡ true) i
still_spent w q old inv copy i m =
    Grows-Stored w.repo (settle old (plan_of q old) w.repo).1 (λ c. is_spent c.state ≡ true) i
      Evolves-is_spent (settle-Grows old q w.repo copy) (inv.spent i m)

note_spent :
    (w : World) (q : Request) (old : ApprovalRecord) (result : Result ApprovalRecord)
    → Inv w
    → Stored w.repo (IsCopy old) old.id
    → (settle old (plan_of q old) w.repo).0 ≡ result
    → (i : String) → Memᴰ i (note q result w.consumed)
    → Stored (settle old (plan_of q old) w.repo).1 (λ c. is_spent c.state ≡ true) i
unfolding note plan_of is_spent
note_spent w (consume_request presented now) old (ok r) inv (d, stored, copy) h i (Memᴰ.head e) =
    let facts = consume_returns presented now old d r w.repo stored h in
    (r, cc (e, facts.2, facts.4), rw facts.3)
note_spent w (consume_request presented now) old (ok r) inv copy h i (Memᴰ.tail m) =
    still_spent w (consume_request presented now) old inv copy i m
note_spent w q old result inv copy h i m = still_spent w q old inv copy i m

pub act-Inv :
    (w : World) (q : Request) (old : ApprovalRecord) → Memᴰ old w.seen → Inv w → Inv (act q old w)
unfolding act
act-Inv w q old m inv =
    let (d, stored, copy) = inv.copies old m in
    let grows = settle-Grows old q w.repo (d, stored, copy) in
    record {
      keyed = keyed_settle old q w.repo inv.keyed;
      copies = λ r k.
          Grows-Stored w.repo (settle old (plan_of q old) w.repo).1 (IsCopy r) r.id
            (λ c c' e p. Evolves-IsCopy r c c' p e) grows (inv.copies r k);
      spent = note_spent w q old (settle old (plan_of q old) w.repo).0 inv (d, stored, copy) refl;
      once = note_once w q old d (settle old (plan_of q old) w.repo).0 inv stored copy refl;
    }

prepare-Inv :
    (w : World) (r : ApprovalRecord) → Inv w → Inv (record w { repo = (create r w.repo).1 })
prepare-Inv w r inv =
    let grows = create-Grows r w.repo in
    record {
      keyed = keyed_create r w.repo inv.keyed;
      copies = λ k m.
          Grows-Stored w.repo (create r w.repo).1 (IsCopy k) k.id
            (λ c c' e p. Evolves-IsCopy k c c' p e) grows (inv.copies k m);
      spent = λ i m.
          Grows-Stored w.repo (create r w.repo).1 (λ c. is_spent c.state ≡ true) i Evolves-is_spent
            grows (inv.spent i m);
      once = inv.once;
    }

read-Inv :
    (w : World) (i : String) (r : ApprovalRecord)
    → find i w.repo ≡ some r
    → Inv w
    → Inv (record w { seen = r ∷ w.seen })
read-Inv w i r h inv = record {
  keyed = inv.keyed;
  copies = copies_of;
  spent = inv.spent;
  once = inv.once;
}
  where
    copies_of : (k : ApprovalRecord) → Memᴰ k (r ∷ w.seen) → Stored w.repo (IsCopy k) k.id
    copies_of k (Memᴰ.head e) = (r, cc (e, inv.keyed i r h, h), inr e)
    copies_of k (Memᴰ.tail m) = inv.copies k m

pub Step-Inv : {w w' : World} → Step w w' → Inv w → Inv w'
Step-Inv (prepare_step w r h) inv = prepare-Inv w r inv
Step-Inv (read_step w i r h) inv = read-Inv w i r h inv
Step-Inv (settle_step w q old m) inv = act-Inv w q old m inv

start-Inv : Inv start
unfolding find lookup
start-Inv = record {
  keyed = λ i c h. cc;
  copies = λ r m. elim m [ ];
  spent = λ i m. elim m [ ];
  once = tt;
}

pub Reach-Inv : {w : World} → Reach start w → Inv w
Reach-Inv here = start-Inv
Reach-Inv (next r s) = Step-Inv s (Reach-Inv r)

-- In every interleaving of any number of clients, no approval is consumed twice: the licence to run
-- the external action is given at most once for each approval.
pub consumed-Distinct : {w : World} → Reach start w → Distinct w.consumed
consumed-Distinct r = (Reach-Inv r).once

-- In every interleaving, one more step leaves each stored approval as it is or moves it along the
-- transition table, with its version one higher and its id, action, fingerprint, nonce and expiry
-- unchanged; no approval disappears.
pub Step-Evolves :
    {w w' : World} (i : String) (c : ApprovalRecord)
    → Reach start w
    → Step w w'
    → find i w.repo ≡ some c
    → (c' : ApprovalRecord) × (find i w'.repo ≡ some c') × Evolves c c'
Step-Evolves i c r (prepare_step w k h) at_i = create-Grows k w.repo i c at_i
Step-Evolves i c r (read_step w j k h) at_i = (c, at_i, inl refl)
Step-Evolves i c r (settle_step w q old m) at_i =
    unfold act in settle-Grows old q w.repo ((Reach-Inv r).copies old m) i c at_i
