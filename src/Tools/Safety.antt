-- ===== src/Tools/Safety.antt =====
-- What `ToolGateway.invoke` guarantees of every call.
use nju_personal_assistant.Base.{
  ℕ, String, true, false, ◌≡◌, ◌≢◌, arith, refl, ap, ◌∙◌, Option, none, some,
}
use nju_personal_assistant.Domain.Enums.{external_write, prohibited}
use nju_personal_assistant.Domain.Errors.{Result, ok, err, is_domain_error}
use nju_personal_assistant.Domain.Values.{Value}
use nju_personal_assistant.Domain.Models.{ToolDescriptor, ToolCall, ToolOutcome}
use nju_personal_assistant.Approvals.Binding.{ApprovalBinding}
use nju_personal_assistant.Approvals.Record.{ApprovalRecord, find}
use nju_personal_assistant.Approvals.Service.{consume_for_execution}
use nju_personal_assistant.Approvals.Guards.{IsAuthorised, consume-IsAuthorised}
use nju_personal_assistant.Jobs.Outbox.{Outbox, SideEffectIntent}
use nju_personal_assistant.Tools.Policy.{check, is_external}
use nju_personal_assistant.Tools.Registry.{RegistrySnapshot, resolve}
use nju_personal_assistant.Tools.Host.{
  Host, Environment, on_approvals, append_event, call_executor, definitive_failure,
}
use nju_personal_assistant.Tools.Gateway.{
  approval_binding, binding_of, checked, dispatch, dispatch_checked, by_approval, consume, consumed,
  execute, invoke, or_failed, request_approval, execution_context, after_second_check, ending,
}
use nju_personal_assistant.Tools.Invocation.{
  RanOnce, execute-RanOnce, consume-IsQuiet, request_approval-IsQuiet, conclude-retryable,
}

-- An outcome that is returned asks for no other try.
abbrev IsFinal : Result ToolOutcome → Type 0
IsFinal r = (o : ToolOutcome) → r ≡ ok o → o.retryable ≡ false

module _ (sha256 : String → String) (show_timeout : ℕ → String)
    (validate : Value → Value → Result (Unit {0})) (env : Environment) where
  dispatch-RanOnce :
      (d : ToolDescriptor) (call : ToolCall) (b : Option ApprovalBinding) (h : Host)
      → RanOnce env call h (dispatch sha256 show_timeout validate none env d call b h).1
  unfolding dispatch by_approval consumed or_failed
  dispatch-RanOnce d call b h = ground (
    arith,
    execute-RanOnce sha256 show_timeout validate env d call,
    consume-IsQuiet sha256 show_timeout validate env d call,
    request_approval-IsQuiet sha256 show_timeout validate env d call,
  )

  or_failed-RanOnce :
      (call : ToolCall) (h : Host) (c : Result (ToolDescriptor × Option ApprovalBinding))
      → RanOnce env call h
          (or_failed c (dispatch_checked sha256 show_timeout validate none env call) h).1
  unfolding or_failed dispatch_checked
  or_failed-RanOnce call h (ok (d, b)) = dispatch-RanOnce d call b h
  or_failed-RanOnce call h (err e) = ground arith

  -- Without an outbox, one call of `invoke` calls the executor at most once, in the context of the
  -- call.
  pub invoke-RanOnce :
      (snapshot : RegistrySnapshot) (call : ToolCall) (h : Host)
      → RanOnce env call h (invoke sha256 show_timeout validate none snapshot env call h).1
  unfolding invoke
  invoke-RanOnce snapshot call h =
      or_failed-RanOnce call h (checked sha256 show_timeout validate none snapshot env call)

  -- What passes the checks: the resolved descriptor, and its binding.
  checked-binding :
      (outbox : Option (Outbox Host)) (snapshot : RegistrySnapshot) (d e : ToolDescriptor)
      (call : ToolCall) (b : Option ApprovalBinding)
      → resolve snapshot call.tool_id call.tool_version ≡ ok d
      → checked sha256 show_timeout validate outbox snapshot env call ≡ ok (e, b)
      → (e ≡ d) × (approval_binding d call ≡ ok b)
  unfolding checked
  checked-binding outbox snapshot d e call b r h = ground arith

  module _ (outbox : Option (Outbox Host)) (d : ToolDescriptor) (call : ToolCall)
      (external : is_external d.risk ≡ true) where
    second_check-IsFinal :
        (c : Result (Unit {0})) (intent : Option SideEffectIntent) (h : Host)
        → IsFinal (after_second_check sha256 show_timeout validate outbox env d call c intent h).0
    unfolding after_second_check
    second_check-IsFinal (ok _) intent h o q =
        conclude-retryable env d call sha256 show_timeout outbox
          (ending sha256 show_timeout validate outbox d env.answer) intent
          (call_executor (execution_context env call) env.meanwhile h) o external q
    second_check-IsFinal (err e) intent h o q =
        conclude-retryable env d call sha256 show_timeout outbox
          (definitive_failure "host policy changed before execution" false) intent h o external q

    execute-IsFinal :
        (intent : Option SideEffectIntent) (h : Host)
        → IsFinal (execute sha256 show_timeout validate outbox env d call intent h).0
    unfolding execute append_event
    execute-IsFinal intent h = second_check-IsFinal (check env.policy_after d call) intent _

    consumed-IsFinal :
        (r : Result (Option SideEffectIntent)) (h : Host)
        → IsFinal (consumed sha256 show_timeout validate outbox env d call (r, h)).0
    unfolding consumed or_failed
    consumed-IsFinal (ok intent) h o q = execute-IsFinal intent h o q
    consumed-IsFinal (err e) h o q = ground arith

    request_approval-IsFinal :
        (b : ApprovalBinding) (h : Host)
        → IsFinal (request_approval sha256 show_timeout validate outbox env d call b h).0
    unfolding request_approval
    request_approval-IsFinal b h o q = ground arith

    by_approval-IsFinal :
        (i : Option String) (b : ApprovalBinding) (h : Host)
        → IsFinal (by_approval sha256 show_timeout validate outbox env d call i b h).0
    unfolding by_approval
    by_approval-IsFinal none b h = request_approval-IsFinal b h
    by_approval-IsFinal (some i) b h = consumed-IsFinal _ _

    dispatch-IsFinal :
        (b : Option ApprovalBinding) (h : Host)
        → IsFinal (dispatch sha256 show_timeout validate outbox env d call b h).0
    unfolding dispatch
    dispatch-IsFinal none h = execute-IsFinal none h
    dispatch-IsFinal (some b) h = by_approval-IsFinal call.approval_id b h

  module _ (outbox : Option (Outbox Host)) (snapshot : RegistrySnapshot) (d : ToolDescriptor)
      (call : ToolCall) (h : Host) where
    -- An `invoke` of a prohibited tool leaves the approvals, the audit and the executor as they were.
    pub invoke_prohibited :
        resolve snapshot call.tool_id call.tool_version ≡ ok d
        → d.risk ≡ prohibited
        → (invoke sha256 show_timeout validate outbox snapshot env call h).1 ≡ h
    unfolding invoke or_failed checked check is_domain_error
    invoke_prohibited r p = ground arith

    or_failed-IsFinal :
        (c : Result (ToolDescriptor × Option ApprovalBinding))
        → checked sha256 show_timeout validate outbox snapshot env call ≡ c
        → resolve snapshot call.tool_id call.tool_version ≡ ok d
        → d.risk ≡ external_write
        → IsFinal (or_failed c (dispatch_checked sha256 show_timeout validate outbox env call) h).0
    unfolding or_failed dispatch_checked
    or_failed-IsFinal (ok (e, b)) q r p o x =
        dispatch-IsFinal outbox e call
          (ground (arith, checked-binding outbox snapshot d e call b r q)) b h o x
    or_failed-IsFinal (err e) q r p o x = ground arith

    -- No answer of the executor makes `invoke` tell its caller to try an external tool again.
    pub invoke_not_retryable :
        (o : ToolOutcome)
        → resolve snapshot call.tool_id call.tool_version ≡ ok d
        → d.risk ≡ external_write
        → (invoke sha256 show_timeout validate outbox snapshot env call h).0 ≡ ok o
        → o.retryable ≡ false
    unfolding invoke
    invoke_not_retryable o r p q =
        or_failed-IsFinal (checked sha256 show_timeout validate outbox snapshot env call) refl r p o
          q

  module _ (snapshot : RegistrySnapshot) (d : ToolDescriptor) (call : ToolCall) (h : Host) where
    abbrev pub Authorisation : ApprovalBinding → String → Type 0
    Authorisation b i =
        (c : ApprovalRecord) × (find i h.approvals ≡ some c)
        × IsAuthorised sha256 b env.start_time h.approvals c

    consume-returned :
        (i : String) (b : ApprovalBinding) (s : Option SideEffectIntent)
        → (consume sha256 show_timeout validate none env d call i b h).0 ≡ ok s
        → (r : ApprovalRecord) × ((consume_for_execution sha256 i b env.start_time h.approvals).0
            ≡ ok r)
    unfolding consume on_approvals
    consume-returned i b s q = ground arith

    consumed-Authorisation :
        (i : String) (b : ApprovalBinding) (r : Result (Option SideEffectIntent))
        → (consume sha256 show_timeout validate none env d call i b h).0 ≡ r
        → (consumed sha256 show_timeout validate none env d call
            (r, (consume sha256 show_timeout validate none env d call i b h).1)).1.executions
          ≢ h.executions
        → Authorisation b i
    unfolding consumed or_failed
    consumed-Authorisation i b (ok s) q ne =
        let (r, returned) = consume-returned i b s q in
        consume-IsAuthorised sha256 b env.start_time h.approvals i r (find i h.approvals) refl
          returned
    consumed-Authorisation i b (err e) q ne =
        ground (arith, consume-IsQuiet sha256 show_timeout validate env d call i b h)

    by_approval-Authorisation :
        (a : Option String) (b : ApprovalBinding)
        → (by_approval sha256 show_timeout validate none env d call a b h).1.executions
          ≢ h.executions
        → (i : String) × (a ≡ some i) × Authorisation b i
    unfolding by_approval
    by_approval-Authorisation none b ne =
        absurd (ne (request_approval-IsQuiet sha256 show_timeout validate env d call b h))
    by_approval-Authorisation (some i) b ne = (i, refl, consumed-Authorisation i b _ refl ne)

    binding_exact :
        (b : Option ApprovalBinding)
        → d.risk ≡ external_write
        → approval_binding d call ≡ ok b
        → b ≡ some (binding_of d call)
    unfolding approval_binding
    binding_exact b p q = ground arith

    dispatch-Authorisation :
        (e : ToolDescriptor) (b : Option ApprovalBinding)
        → e ≡ d
        → b ≡ some (binding_of d call)
        → (dispatch sha256 show_timeout validate none env e call b h).1.executions ≢ h.executions
        → (i : String) × (call.approval_id ≡ some i) × Authorisation (binding_of d call) i
    unfolding dispatch
    dispatch-Authorisation e b p q ne =
        by_approval-Authorisation call.approval_id (binding_of d call) (λ same. ne (
          let at : dispatch sha256 show_timeout validate none env e call b h
              ≡ dispatch sha256 show_timeout validate none env d call (some (binding_of d call)) h =
            cc in
          ap (λ x. x.1.executions) at ∙ same))

    or_failed-Authorisation :
        (c : Result (ToolDescriptor × Option ApprovalBinding))
        → checked sha256 show_timeout validate none snapshot env call ≡ c
        → resolve snapshot call.tool_id call.tool_version ≡ ok d
        → d.risk ≡ external_write
        → (or_failed c (dispatch_checked sha256 show_timeout validate none env call) h).1.executions
          ≢ h.executions
        → (i : String) × (call.approval_id ≡ some i) × Authorisation (binding_of d call) i
    unfolding or_failed dispatch_checked
    or_failed-Authorisation (ok (e, b)) q r p ne =
        let (same, bound) = checked-binding none snapshot d e call b r q in
        dispatch-Authorisation e b same (binding_exact b p bound) ne
    or_failed-Authorisation (err e) q r p ne = ground arith

    -- Without an outbox, an external tool runs only with the approval that the call names, which is
    -- stored, approved, in time, and for exactly the action of the call.
    pub invoke-Authorisation :
        resolve snapshot call.tool_id call.tool_version ≡ ok d
        → d.risk ≡ external_write
        → (invoke sha256 show_timeout validate none snapshot env call h).1.executions ≢ h.executions
        → (i : String) × (call.approval_id ≡ some i) × Authorisation (binding_of d call) i
    unfolding invoke
    invoke-Authorisation r p ne =
        or_failed-Authorisation (checked sha256 show_timeout validate none snapshot env call) refl r
          p ne
