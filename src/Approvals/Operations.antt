-- ===== src/Approvals/Operations.antt =====
-- The calls of the in-memory outbox of src/personal_assistant/infrastructure/memory/outbox.py and of the
-- other clients of its approvals, one after another.
use nju_personal_assistant.Base.{string_eq, pair_eq, ℕ, String, List, [], ◌∷◌}
use nju_personal_assistant.Domain.Errors.{Result, ok, err}
use nju_personal_assistant.Domain.Values.{ℤ, Fields}
use nju_personal_assistant.Approvals.Binding.{ApprovalBinding}
use nju_personal_assistant.Approvals.Service.{prepare, Datetime}
use nju_personal_assistant.Approvals.Follows.{Request}
use nju_personal_assistant.Approvals.Interleaving.{note}
use nju_personal_assistant.Jobs.Outbox.{SideEffectIntent, Finalization}
use nju_personal_assistant.Approvals.MemoryOutbox.{
  Ledger, Times, on_ledger, create_with_approval_consumption, finalize,
}
use nju_personal_assistant.Approvals.Refinement.{method}

-- A call of the outbox, or of another client of the same approvals
pub data Operation : Type 0 where
  prepare_call : ApprovalBinding → String → String → Datetime → ℤ → Operation
  client_call : Request → String → Operation
  create_call : Times → SideEffectIntent → Operation
  finalize_call : String → String → Finalization → ℕ → Operation

-- The ledger, and the approvals that were consumed so far
pub record Traced : Type 0 where
  pub ledger : Ledger
  pub consumed : List String

-- An intent that was created consumed its approval.
abbrev pub issue : Result (Unit {0}) → String → List String → List String
issue (ok _) i log = i ∷ log
issue (err _) i log = log

module _ (sha256 : String → String) (loads : String → Result Fields) where
  unfoldable pub carry_out : Operation → Traced → Traced
  unfolding prepare method create_with_approval_consumption finalize note
  carry_out (prepare_call b i nonce now ttl) t = record t {
    ledger = (on_ledger (prepare sha256 b i nonce now ttl) t.ledger).1;
  }
  carry_out (client_call q i) t =
      let (result, ledger) = on_ledger (method q i) t.ledger in
      record { ledger = ledger; consumed = note q result t.consumed }
  carry_out (create_call at intent) t =
      let (result, ledger) = create_with_approval_consumption sha256 loads at intent t.ledger in
      record { ledger = ledger; consumed = issue result intent.approval_id t.consumed }
  carry_out (finalize_call i approval_id f now) t = record t {
    ledger = (finalize i approval_id f now t.ledger).1;
  }

  unfoldable pub carry_out_all : List Operation → Traced → Traced
  unfolding carry_out
  carry_out_all [] t = t
  carry_out_all (o ∷ operations) t = carry_out_all operations (carry_out o t)

abbrev pub fresh_trace : Traced
fresh_trace = record {
  ledger = record { intents = []; keys = []; approvals = record { records = [] } };
  consumed = [];
}
