-- ===== src/Agent/Authority.antt =====
-- What a decision that the validator returns may call.
use mathlib.Core.Path.{subst}
use mathlib.Core.List.{Memᴰ}
use nju_personal_assistant.Base.{
  String, false, List, [], ◌∷◌, Option, none, some, Dict, lookup, insert, lookup-insert, map, ◌≡◌,
  ◌≢◌, ◌⊎◌, inl, inr, refl, sym, ap, ◌∙◌, arith, Bool-cases, not, string_eq, pair_eq, ==→eq, ◌==◌,
  if_both,
}
use nju_personal_assistant.Domain.Enums.{prohibited}
use nju_personal_assistant.Domain.Errors.{Result, ok, err, bind}
use nju_personal_assistant.Domain.Models.{ToolDescriptor, ToolCall, check_call}
use nju_personal_assistant.Domain.Values.{
  Value, null, boolean, integer, real, text, array, object, other, Fields, value_at,
}
use nju_personal_assistant.Agent.Decisions.{
  DecisionKind, call_tool, ValidatedDecision, Grants, DecisionValidator, by_identity,
  make_validator, granted, proposed_call, with_arguments, with_descriptor, with_identity,
  validate_call, validate_message, with_kind, with_message, message_kind, validate, is_text,
  exact_keys, only_keys, is_prohibited,
}

abbrev Identity : Type 0
Identity = String × String

abbrev the_identity : String → String → Identity
the_identity i version = (i, version)

by_identity-Mem :
    (k : Identity) (ds : List ToolDescriptor) (known : Dict Identity ToolDescriptor)
    (d : ToolDescriptor)
    → lookup k (by_identity ds known) ≡ some d
    → (Memᴰ d ds × ((d.id, d.version) ≡ k)) ⊎ (lookup k known ≡ some d)
unfolding by_identity
by_identity-Mem k [] known d h = inr h
by_identity-Mem k (x ∷ ds) known d h =
    elim (by_identity-Mem k ds (insert (x.id, x.version) x known) d h) [
      | inl (m, e) ↦ inl (Memᴰ.tail m, e)
      | inr there ↦ elim (Bool-cases ((x.id, x.version) == k)) [
        | inl e ↦
            let same : x ≡ d =
              ground (arith, lookup-insert (x.id, x.version) k x known, there, e) in
            inl (
              Memᴰ.head (sym same),
              ap (λ (y : ToolDescriptor). (y.id, y.version)) (sym same)
                  ∙ ==→eq (x.id, x.version) k e,
            )
        | inr e ↦ inr (ground (arith, lookup-insert (x.id, x.version) k x known, there, e))
      ]
    ]

-- The call is of a tool of the snapshot that is not prohibited; its arguments pass the schema of that
-- tool; and the task, the capabilities and the allowed tools are those of the host, with no approval.
pub record IsHostBound (validate_schema : Value → Value → Result (Unit {0}))
    (descriptors : List ToolDescriptor) (grants : Grants) (task_id : String) (c : ToolCall)
    : Type 0 where
  pub tool : ToolDescriptor
  pub listed : Memᴰ tool descriptors
  pub same_id : tool.id ≡ c.tool_id
  pub same_version : tool.version ≡ c.tool_version
  pub possible : tool.risk ≢ prohibited
  pub arguments : validate_schema c.arguments tool.input_schema ≡ ok tt
  pub task : c.task_id ≡ task_id
  pub capabilities : c.granted_capabilities ≡ granted grants c.tool_id
  pub tools : c.workflow_allowed_tools ≡ map (λ (d : ToolDescriptor). d.id) descriptors
  pub unapproved : c.approval_id ≡ none

module _ (validate_schema : Value → Value → Result (Unit {0})) (descriptors : List ToolDescriptor)
    (grants : Grants) (task_id : String) where
  abbrev v : DecisionValidator
  v = make_validator descriptors grants

  -- What a decision that was returned calls, if anything, is bound by the host.
  abbrev Bound : Result ValidatedDecision → Type 0
  Bound r =
      (d : ValidatedDecision) (c : ToolCall)
      → r ≡ ok d
      → d.tool_call ≡ some c
      → IsHostBound validate_schema descriptors grants task_id c

  bound_call :
      (r q : Result (Unit {0})) (x c : ToolCall) (d : ValidatedDecision)
      → bind r (λ _.
        bind q (λ _.
          ok (record { kind = call_tool; tool_call = some x; message = none; result = null })))
        ≡ ok d
      → d.tool_call ≡ some c
      → (r ≡ ok tt) × (x ≡ c)
  bound_call (err e) q x c d h k = absurd (ground (arith, h))
  bound_call (ok _) (err e) x c d h k = absurd (ground (arith, h))
  bound_call (ok _) (ok _) x c d h k = (refl, ground (arith, h, k))

  module _ (tool : ToolDescriptor) (tool_id version : String) (m : Memᴰ tool descriptors)
      (e : (tool.id, tool.version) ≡ the_identity tool_id version)
      (p : is_prohibited tool.risk ≡ false) where
    proposed-IsHostBound :
        (a : Fields) (c : ToolCall)
        → validate_schema (object a) tool.input_schema ≡ ok tt
        → proposed_call validate_schema v task_id tool_id version (object a) ≡ c
        → IsHostBound validate_schema descriptors grants task_id c
    unfolding proposed_call make_validator
    proposed-IsHostBound a c s x =
        subst (IsHostBound validate_schema descriptors grants task_id) x (record {
          tool = tool;
          listed = m;
          same_id = ap (λ (k : Identity). k.0) e;
          same_version = ap (λ (k : Identity). k.1) e;
          possible = λ q. ground (arith, p, q);
          arguments = s;
          task = refl;
          capabilities = refl;
          tools = refl;
          unapproved = refl;
        })

    arguments-Bound :
        (o : Option Value) → Bound (with_arguments validate_schema v task_id tool tool_id version o)
    unfolding with_arguments
    arguments-Bound none d c h k = absurd (ground (arith, h))
    arguments-Bound (some (object a)) d c h k =
        let x = proposed_call validate_schema v task_id tool_id version (object a) in
        let (s, y) =
          bound_call (validate_schema (object a) tool.input_schema) (check_call x) x c d h k in
        proposed-IsHostBound a c s y
    arguments-Bound (some null) d c h k = absurd (ground (arith, h))
    arguments-Bound (some (boolean _)) d c h k = absurd (ground (arith, h))
    arguments-Bound (some (integer _)) d c h k = absurd (ground (arith, h))
    arguments-Bound (some (real _)) d c h k = absurd (ground (arith, h))
    arguments-Bound (some (text _)) d c h k = absurd (ground (arith, h))
    arguments-Bound (some (array _)) d c h k = absurd (ground (arith, h))
    arguments-Bound (some (other _)) d c h k = absurd (ground (arith, h))

  descriptor-Bound :
      (o : Option ToolDescriptor) (tool_id version : String) (fs : Fields)
      → lookup (the_identity tool_id version) (by_identity descriptors []) ≡ o
      → Bound (with_descriptor validate_schema v task_id o tool_id version fs)
  unfolding with_descriptor lookup
  descriptor-Bound none tool_id version fs h = λ d c x k. absurd (ground (arith, x))
  descriptor-Bound (some tool) tool_id version fs h = elim (Bool-cases (is_prohibited tool.risk)) [
    | inl p ↦ rw p (λ d c x k. absurd (ground (arith, x)))
    | inr p ↦ elim (by_identity-Mem (the_identity tool_id version) descriptors [] tool h) [
      | inl (m, e) ↦ rw p (arguments-Bound tool tool_id version m e p (value_at "arguments" fs))
      | inr nowhere ↦ absurd (ground (arith, nowhere))
    ]
  ]

  identity-Bound :
      (i o : Option String) (fs : Fields) → Bound (with_identity validate_schema v task_id i o fs)
  unfolding with_identity make_validator
  identity-Bound none o fs = λ d c x k. absurd (ground (arith, x))
  identity-Bound (some i) none fs = λ d c x k. absurd (ground (arith, x))
  identity-Bound (some i) (some version) fs =
      descriptor-Bound (lookup (the_identity i version) (by_identity descriptors [])) i version fs
        refl

  call-Bound : (fs : Fields) → Bound (validate_call validate_schema v task_id fs)
  unfolding validate_call
  call-Bound fs =
      if_both Bound (not (exact_keys ("kind" ∷ "tool_id" ∷ "tool_version" ∷ "arguments" ∷ []) fs)) _
        _ (λ d c x k. absurd (ground (arith, x))) (identity-Bound _ _ fs)

  message-Bound :
      (kind : DecisionKind) (o : Option Value) (fs : Fields)
      → Bound (with_message validate_schema v task_id kind o fs)
  unfolding with_message
  message-Bound kind o fs d c h k = absurd (ground (arith, h, k))

  kind-Bound :
      (r : Result (Option DecisionKind)) (fs : Fields)
      → Bound (bind r (λ kind. with_kind validate_schema v task_id kind fs))
  unfolding with_kind
  kind-Bound (err e) fs = λ d c x k. absurd (ground (arith, x))
  kind-Bound (ok none) fs = λ d c x k. absurd (ground (arith, x))
  kind-Bound (ok (some kind)) fs =
      if_both Bound (not (only_keys ("kind" ∷ "message" ∷ "result" ∷ []) fs)) _ _
        (λ d c x k. absurd (ground (arith, x))) (message-Bound kind (value_at "message" fs) fs)

  validate-Bound : (proposal : Value) → Bound (validate validate_schema v task_id proposal)
  unfolding validate validate_message
  validate-Bound (object fs) =
      if_both Bound (is_text "CALL_TOOL" (value_at "kind" fs)) _ _ (call-Bound fs)
        (kind-Bound (message_kind (value_at "kind" fs)) fs)
  validate-Bound null = λ d c x k. absurd (ground (arith, x))
  validate-Bound (boolean _) = λ d c x k. absurd (ground (arith, x))
  validate-Bound (integer _) = λ d c x k. absurd (ground (arith, x))
  validate-Bound (real _) = λ d c x k. absurd (ground (arith, x))
  validate-Bound (text _) = λ d c x k. absurd (ground (arith, x))
  validate-Bound (array _) = λ d c x k. absurd (ground (arith, x))
  validate-Bound (other _) = λ d c x k. absurd (ground (arith, x))

-- Whatever a model proposes, where the validator of a list of tools returns a decision that calls one, the
-- call is of a listed tool that is not prohibited, with arguments that the schema of that tool accepts, and
-- its task, its capabilities and its allowed tools are those of the host, with no approval.
pub validate-IsHostBound :
    (validate_schema : Value → Value → Result (Unit {0})) (descriptors : List ToolDescriptor)
    (grants : Grants) (task_id : String) (proposal : Value) (d : ValidatedDecision) (c : ToolCall)
    → validate validate_schema (make_validator descriptors grants) task_id proposal ≡ ok d
    → d.tool_call ≡ some c
    → IsHostBound validate_schema descriptors grants task_id c
validate-IsHostBound validate_schema descriptors grants task_id proposal d c h k =
    validate-Bound validate_schema descriptors grants task_id proposal d c h k
