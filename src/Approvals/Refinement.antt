-- ===== src/Approvals/Refinement.antt =====
-- A method of the approval service, called as a whole, is a run of the interleaving of clients.
use mathlib.Core.Path.{subst}
use mathlib.Core.List.{Memᴰ}
use nju_personal_assistant.Base.{
  lookup, string_eq, ℕ, String, List, [], ◌∷◌, Option, none, some, Option-cases, inl, inr, ◌≡◌,
  refl, sym, ap, ◌∙◌, arith,
}
use nju_personal_assistant.Domain.Enums.{waiting_approval}
use nju_personal_assistant.Domain.Errors.{Error, Result, ok, err, concat, not_found}
use nju_personal_assistant.Domain.Exec.{Exec, ◌>>=◌, ◌>>◌, continue, lift, pure}
use nju_personal_assistant.Domain.Values.{ℤ}
use nju_personal_assistant.Approvals.Binding.{ApprovalBinding}
use nju_personal_assistant.Approvals.Record.{ApprovalRecord, Repository, find, get, create}
use nju_personal_assistant.Approvals.Service.{
  settle, consume_plan, prepare, prepare_checked, new_record, Datetime, aware, naive,
}
use nju_personal_assistant.Approvals.Follows.{
  Request, get_request, reject_request, consume_request, finish_request, approve_request, plan_of,
}
use nju_personal_assistant.Approvals.Interleaving.{
  World, prepare_step, read_step, settle_step, Reach, next, start, note, act,
}
use nju_personal_assistant.Approvals.ExactlyOnce.{Reach-Inv, consume_returns}

-- A method of the service that acts on one stored approval
unfoldable pub method : Request → String → Exec Repository ApprovalRecord
unfolding get settle plan_of
method q i = get i >>= λ r. settle r (plan_of q r)

note_nothing : (q : Request) (e : Error) (log : List String) → note q (err e) log ≡ log
unfolding note
note_nothing (get_request _ _) e log = refl
note_nothing (approve_request _ _ _) e log = refl
note_nothing (reject_request _ _) e log = refl
note_nothing (consume_request _ _) e log = refl
note_nothing (finish_request _ _ _ _) e log = refl

-- Some interleaving of clients leads to these approvals and these consumptions.
abbrev pub Reachable : Repository → List String → Type 0
Reachable repo log = (w : World) × Reach start w × (w.repo ≡ repo) × (w.consumed ≡ log)

method-none :
    (q : Request) (i : String) (repo : Repository)
    → lookup i repo.records ≡ none
    → (e : Error) × (method q i repo ≡ (err e, repo))
unfolding method get find
method-none q i repo h =
    (record { cls = not_found; message = concat ("approval not found: " ∷ i ∷ []) }, rw h refl)

method-some :
    (q : Request) (i : String) (repo : Repository) (c : ApprovalRecord)
    → lookup i repo.records ≡ some c
    → method q i repo ≡ settle c (plan_of q c) repo
unfolding method get find
method-some q i repo c h = rw h refl

method_at :
    (q : Request) (i : String) (w : World) (o : Option ApprovalRecord)
    → lookup i w.repo.records ≡ o
    → Reach start w
    → Reachable (method q i w.repo).1 (note q (method q i w.repo).0 w.consumed)
unfolding act find
method_at q i w none h r =
    let (e, m) = method-none q i w.repo h in
    (
      w,
      r,
      ap (λ (p : Result ApprovalRecord × Repository). p.1) (sym m),
      sym (note_nothing q e w.consumed)
          ∙ ap (λ (p : Result ApprovalRecord × Repository). note q p.0 w.consumed) (sym m),
    )
method_at q i w (some c) h r =
    let m = method-some q i w.repo c h in
    let v : World = record w { seen = c ∷ w.seen } in
    (
      act q c v,
      next (next r (read_step w i c h)) (settle_step v q c (Memᴰ.head refl)),
      ap (λ (p : Result ApprovalRecord × Repository). p.1) (sym m),
      ap (λ (p : Result ApprovalRecord × Repository). note q p.0 w.consumed) (sym m),
    )

pub method-Reachable :
    (q : Request) (i : String) (repo : Repository) (log : List String)
    → Reachable repo log
    → Reachable (method q i repo).1 (note q (method q i repo).0 log)
method-Reachable q i repo log (w, r, e, f) =
    subst (λ l. Reachable (method q i repo).1 (note q (method q i repo).0 l)) f
      (subst (λ x. Reachable (method q i x).1 (note q (method q i x).0 w.consumed)) e
        (method_at q i w (lookup i w.repo.records) refl r))

-- What a consumption returns has the id that was asked for.
pub consumed_id :
    (presented : Result String) (now : ℕ) (i : String) (repo : Repository) (log : List String)
    (r : ApprovalRecord)
    → Reachable repo log
    → (method (consume_request presented now) i repo).0 ≡ ok r
    → r.id ≡ i
unfolding find consume_plan plan_of
consumed_id presented now i repo log r (w, reach, e, f) h =
    elim (Option-cases (lookup i repo.records)) [
      | inl none_there ↦
          let (x, m) = method-none (consume_request presented now) i repo none_there in
          absurd (ground (arith, h, ap (λ (p : Result ApprovalRecord × Repository). p.0) m))
      | inr (c, there) ↦
          let m = method-some (consume_request presented now) i repo c there in
          let own : c.id ≡ i =
            (Reach-Inv reach).keyed i c (ap (λ (x : Repository). lookup i x.records) e ∙ there) in
          let stored = ap (λ x. lookup x repo.records) own ∙ there in
          let facts =
            consume_returns presented now c c r repo stored
              (ap (λ (p : Result ApprovalRecord × Repository). p.0) (sym m) ∙ h) in
          facts.2 ∙ own
    ]

prepared_waits :
    (sha256 : String → String) (b : ApprovalBinding) (i nonce : String) (now : Datetime) (ttl : ℤ)
    (r : ApprovalRecord)
    → prepare_checked sha256 b i nonce now ttl ≡ ok r
    → r.state ≡ waiting_approval
unfolding prepare_checked new_record
prepared_waits sha256 b i nonce (naive now) ttl r h = absurd (ground (arith, h))
prepared_waits sha256 b i nonce (aware now) ttl r h = ground (arith, h)

unchanged_after :
    (p : Result (Unit {0}) × Repository) (r : ApprovalRecord)
    → (continue p.0 (λ _. pure r) p.1).1 ≡ p.1
unchanged_after (err e, repo) r = refl
unchanged_after (ok _, repo) r = refl

created-Reachable :
    (res : Result ApprovalRecord) (repo : Repository) (log : List String)
    → ((r : ApprovalRecord) → res ≡ ok r → r.state ≡ waiting_approval)
    → Reachable repo log
    → Reachable ((lift res >>= λ r. create r >> pure r) repo).1 log
created-Reachable (err e) repo log wait h = h
created-Reachable (ok r) repo log wait (w, reach, e, f) = (
  record w { repo = (create r w.repo).1 },
  next reach (prepare_step w r (wait r refl)),
  ap (λ x. (create r x).1) e ∙ sym (unchanged_after (create r repo) r),
  f,
)

pub prepare-Reachable :
    (sha256 : String → String) (b : ApprovalBinding) (i nonce : String) (now : Datetime) (ttl : ℤ)
    (repo : Repository) (log : List String)
    → Reachable repo log
    → Reachable (prepare sha256 b i nonce now ttl repo).1 log
unfolding prepare
prepare-Reachable sha256 b i nonce now ttl repo log h =
    created-Reachable (prepare_checked sha256 b i nonce now ttl) repo log
      (prepared_waits sha256 b i nonce now ttl) h
