-- ===== src/Approvals/Simulation.antt =====
-- Any run of the in-memory outbox and of the other clients of its approvals, call by call.
use mathlib.Core.Path.{subst}
use nju_personal_assistant.Base.{
  string_eq, pair_eq, ℕ, String, true, List, [], ◌∷◌, none, some, ◌≡◌, refl, sym, arith, if_both,
  contains, ◌==◌,
}
use nju_personal_assistant.Domain.Enums.{ApprovalState}
use nju_personal_assistant.Domain.Errors.{Result, ok, err}
use nju_personal_assistant.Domain.Exec.{Exec, ◌>>=◌, ◌>>◌, continue, lift, pure, throw}
use nju_personal_assistant.Domain.Values.{Fields}
use nju_personal_assistant.Approvals.Binding.{ApprovalBinding, envelope}
use nju_personal_assistant.Approvals.Canonical.{canonical_sha256}
use nju_personal_assistant.Approvals.Record.{ApprovalRecord, Repository}
use nju_personal_assistant.Approvals.Service.{
  get_approval, reject, consume_for_execution, drift_error, finish, mark_succeeded, mark_failed,
  mark_unknown, or_default,
}
use nju_personal_assistant.Approvals.Follows.{
  get_request, reject_request, consume_request, finish_request, plan_of,
}
use nju_personal_assistant.Approvals.Interleaving.{here, start, note, Distinct}
use nju_personal_assistant.Approvals.ExactlyOnce.{consumed-Distinct}
use nju_personal_assistant.Jobs.Outbox.{SideEffectState, SideEffectIntent, Finalization}
use nju_personal_assistant.Approvals.MemoryOutbox.{
  Ledger, Times, on_ledger, store_intent, refuse_drifted, consume_intent, consume_recorded,
  check_approved, require_approved, is_drifted, binding_from, create_with_approval_consumption,
  finish_intent, mark_approval, finalize,
}
use nju_personal_assistant.Approvals.Refinement.{
  method, Reachable, method-Reachable, consumed_id, prepare-Reachable,
}
use nju_personal_assistant.Approvals.Operations.{
  Operation, prepare_call, client_call, create_call, finalize_call, Traced, issue, carry_out,
  carry_out_all, fresh_trace,
}

module _ (sha256 : String → String) (loads : String → Result Fields) where
  module _ (at : Times) (intent : SideEffectIntent) (log : List String) where
    -- The approvals of an outcome, with its own consumption, are reached by clients.
    abbrev Good : Result (Unit {0}) × Ledger → Type 0
    Good p = Reachable p.1.approvals (issue p.0 intent.approval_id log)

    lifted-Good :
        {Q : Type 0} (res : Result Q) (rest : Q → Exec Ledger (Unit {0})) (s : Ledger)
        → Reachable s.approvals log
        → ((q : Q) → Good (rest q s))
        → Good ((lift res >>= rest) s)
    lifted-Good (err e) rest s h f = h
    lifted-Good (ok q) rest s h f = f q

    refused-Good :
        (p : Result ApprovalRecord × Repository) (s : Ledger)
        → Reachable p.1 log
        → Good (continue p.0 (λ _. throw drift_error) (record s { approvals = p.1 }))
    refused-Good (err e, repo) s h = h
    refused-Good (ok r, repo) s h = h

    refuse_drifted-Good :
        (s : Ledger) → Reachable s.approvals log → Good (refuse_drifted sha256 loads at intent s)
    unfolding refuse_drifted reject method plan_of note
    refuse_drifted-Good s h =
        let q = reject_request at.rejected_at (some "approved action changed after preview") in
        refused-Good (method q intent.approval_id s.approvals) s
          (method-Reachable q intent.approval_id s.approvals log h)

    stored-Good :
        (p : Result ApprovalRecord × Repository) (s : Ledger) (presented : Result String) (now : ℕ)
        → Reachable p.1 (note (consume_request presented now) p.0 log)
        → ((r : ApprovalRecord) → p.0 ≡ ok r → r.id ≡ intent.approval_id)
        → Good (continue p.0 (λ _. store_intent intent) (record s { approvals = p.1 }))
    unfolding note store_intent
    stored-Good (err e, repo) s presented now h own = h
    stored-Good (ok r, repo) s presented now h own =
        subst (λ i. Reachable repo (i ∷ log)) (own r refl) h

    consume_intent-Good :
        (b : ApprovalBinding) (s : Ledger)
        → Reachable s.approvals log
        → Good (consume_intent sha256 loads at intent b s)
    unfolding consume_intent consume_for_execution method plan_of
    consume_intent-Good b s h =
        let presented = canonical_sha256 sha256 (envelope b) in
        let q = consume_request presented at.consumed_at in
        stored-Good (method q intent.approval_id s.approvals) s presented at.consumed_at
          (method-Reachable q intent.approval_id s.approvals log h)
          (λ r e. consumed_id presented at.consumed_at intent.approval_id s.approvals log r h e)

    consume_recorded-Good :
        (r : ApprovalRecord) (action : Fields) (s : Ledger)
        → Reachable s.approvals log
        → Good (consume_recorded sha256 loads at intent r action s)
    unfolding consume_recorded
    consume_recorded-Good r action s h =
        if_both Good (is_drifted r intent action) _ _ (refuse_drifted-Good s h) (
          lifted-Good (binding_from action) (consume_intent sha256 loads at intent) s h
            (λ b. consume_intent-Good b s h))

    check_approved-Good :
        (r : ApprovalRecord) (s : Ledger)
        → Reachable s.approvals log
        → Good (check_approved sha256 loads at intent r s)
    unfolding check_approved
    check_approved-Good r s h =
        let next = lift (loads r.canonical_action) >>= consume_recorded sha256 loads at intent r in
        lifted-Good (require_approved sha256 loads at intent r) (λ _. next) s h
          (λ _.
            lifted-Good (loads r.canonical_action) (consume_recorded sha256 loads at intent r) s h
              (λ action. consume_recorded-Good r action s h))

    read-Good :
        (p : Result ApprovalRecord × Repository) (s : Ledger)
        → Reachable p.1 log
        → Good (continue p.0 (check_approved sha256 loads at intent) (record s { approvals = p.1 }))
    read-Good (err e, repo) s h = h
    read-Good (ok r, repo) s h = check_approved-Good r (record s { approvals = repo }) h

    create-Good :
        (s : Ledger)
        → Reachable s.approvals log
        → Good (create_with_approval_consumption sha256 loads at intent s)
    unfolding create_with_approval_consumption get_approval method plan_of note
    create-Good s h =
        let q = get_request true at.read_at in
        let key : String × String = (intent.tool_id, intent.idempotency_key) in
        if_both Good (intent.action_fingerprint == "") _ _ h (
          if_both Good (contains key s.keys) _ _ h (
            read-Good (method q intent.approval_id s.approvals) s
              (method-Reachable q intent.approval_id s.approvals log h)))

  marked :
      (p : Result ApprovalRecord × Repository) (s : Ledger)
      → (continue p.0
          (λ (_ : ApprovalRecord). pure (tt {0}))
          (record s { approvals = p.1 })).1.approvals
        ≡ p.1
  marked (err e, repo) s = refl
  marked (ok r, repo) s = refl

  mark_approval-Reachable :
      (state : SideEffectState) (i : String) (f : Finalization) (now : ℕ) (repo : Repository)
      (log : List String)
      → Reachable repo log
      → Reachable (mark_approval state i f now repo).1 log
  unfolding mark_approval mark_succeeded mark_failed mark_unknown finish method plan_of note
  mark_approval-Reachable SideEffectState.succeeded i f now repo log h =
      method-Reachable
        (finish_request ApprovalState.succeeded now (some (or_default f.result_reference "")) none)
        i repo log h
  mark_approval-Reachable SideEffectState.failed i f now repo log h =
      method-Reachable
        (finish_request ApprovalState.failed now none (some (or_default f.failure_reason "failed")))
        i repo log h
  mark_approval-Reachable SideEffectState.unknown i f now repo log h =
      method-Reachable
        (finish_request ApprovalState.unknown now (some (or_default f.result_reference "unknown"))
          none)
        i repo log h
  mark_approval-Reachable SideEffectState.prepared i f now repo log h =
      method-Reachable
        (finish_request ApprovalState.unknown now (some (or_default f.result_reference "unknown"))
          none)
        i repo log h
  mark_approval-Reachable SideEffectState.executing i f now repo log h =
      method-Reachable
        (finish_request ApprovalState.unknown now (some (or_default f.result_reference "unknown"))
          none)
        i repo log h

  finalized :
      (p : Result (Unit {0}) × Ledger) (approval_id : String) (f : Finalization) (now : ℕ)
      (log : List String)
      → Reachable p.1.approvals log
      → Reachable
          (continue p.0
            (λ _. on_ledger (mark_approval f.state approval_id f now) >> pure (tt {0}))
            p.1).1.approvals
          log
  finalized (err e, s) approval_id f now log h = h
  finalized (ok _, s) approval_id f now log h =
      let p = mark_approval f.state approval_id f now s.approvals in
      subst (λ r. Reachable r log) (sym (marked p s))
        (mark_approval-Reachable f.state approval_id f now s.approvals log h)

  finish_intent_approvals :
      (i : String) (state : SideEffectState) (s : Ledger)
      → (finish_intent i state s).1.approvals ≡ s.approvals
  unfolding finish_intent
  finish_intent_approvals i state s = ground arith

  -- What the clients reach, with the consumptions that are noted
  abbrev IsSimulated : Traced → Type 0
  IsSimulated t = Reachable t.ledger.approvals t.consumed

  carry_out-IsSimulated :
      (o : Operation) (t : Traced) → IsSimulated t → IsSimulated (carry_out sha256 loads o t)
  unfolding carry_out finalize
  carry_out-IsSimulated (prepare_call b i nonce now ttl) t h =
      prepare-Reachable sha256 b i nonce now ttl t.ledger.approvals t.consumed h
  carry_out-IsSimulated (client_call q i) t h = method-Reachable q i t.ledger.approvals t.consumed h
  carry_out-IsSimulated (create_call at intent) t h = create-Good at intent t.consumed t.ledger h
  carry_out-IsSimulated (finalize_call i approval_id f now) t h =
      finalized (finish_intent i f.state t.ledger) approval_id f now t.consumed
        (subst (λ r. Reachable r t.consumed) (sym (finish_intent_approvals i f.state t.ledger)) h)

  carry_out_all-IsSimulated :
      (operations : List Operation) (t : Traced)
      → IsSimulated t
      → IsSimulated (carry_out_all sha256 loads operations t)
  unfolding carry_out_all
  carry_out_all-IsSimulated [] t h = h
  carry_out_all-IsSimulated (o ∷ operations) t h =
      carry_out_all-IsSimulated operations (carry_out sha256 loads o t)
        (carry_out-IsSimulated o t h)

-- Whatever the outbox and the other clients of its approvals are called to do, some interleaving of clients of the approval service alone leads to the same approvals and the same consumptions, where the outbox counts an approval as consumed for each intent that it created.
pub carry_out_all-Reachable :
    (sha256 : String → String) (loads : String → Result Fields) (operations : List Operation)
    → Reachable
        (carry_out_all sha256 loads operations fresh_trace).ledger.approvals
        (carry_out_all sha256 loads operations fresh_trace).consumed
carry_out_all-Reachable sha256 loads operations =
    carry_out_all-IsSimulated sha256 loads operations fresh_trace (start, here, refl, refl)

-- In every such run, no approval is consumed twice, whether for an intent, also under another idempotency key, or by a client.
pub carry_out_all-Distinct :
    (sha256 : String → String) (loads : String → Result Fields) (operations : List Operation)
    → Distinct (carry_out_all sha256 loads operations fresh_trace).consumed
carry_out_all-Distinct sha256 loads operations =
    let (w, r, _, f) = carry_out_all-Reachable sha256 loads operations in
    subst Distinct f (consumed-Distinct r)
