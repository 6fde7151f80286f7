-- ===== src/Approvals/Tests.antt =====
-- Approvals at concrete inputs: a mail that is prepared, approved and consumed.
use mathlib.Core.List.{Memᴰ}
use nju_personal_assistant.Base.{String, true, ◌≡◌, refl, none, some, [], ◌∷◌, lookup, insert, ◌<◌}
use nju_personal_assistant.Domain.Enums.{waiting_approval, approved, executing}
use nju_personal_assistant.Domain.Errors.{Result, ok}
use nju_personal_assistant.Domain.Values.{
  Value, null, boolean, integer, text, array, object, nil, cons, end, field, name, negsuc,
}
use nju_personal_assistant.Approvals.Canonical.{canonical_json, canonical_sha256}
use nju_personal_assistant.Approvals.Binding.{ApprovalBinding, envelope}
use nju_personal_assistant.Domain.Text.{is_blank}
use nju_personal_assistant.Approvals.Record.{ApprovalRecord, Repository, find, create, get, save}
use nju_personal_assistant.Approvals.Service.{
  approve, consume_for_execution, settle, approve_plan, consume_plan,
}
use nju_personal_assistant.Approvals.Guards.{
  Approvable, approved_copy, approve_guards, consume_guards,
}
use nju_personal_assistant.Approvals.Follows.{Request, approve_request, consume_request, plan_of}
use nju_personal_assistant.Approvals.Interleaving.{
  World, Step, prepare_step, read_step, settle_step, Reach, here, next, act, start, Distinct,
}
use nju_personal_assistant.Approvals.ExactlyOnce.{consumed-Distinct, Step-Evolves}
use nju_personal_assistant.Approvals.Evolution.{Evolves}

abbrev payload : Value
payload = object (
    field (name "subject") (text "a\"b") (
      field (name "n") (integer (negsuc 41))
        (field (name "list") (array (cons (boolean true) (cons null nil))) end)))

payload_text : canonical_json payload ≡ ok "{\"list\":[true,null],\"n\":-42,\"subject\":\"a\\\"b\"}"
unfolding canonical_json
payload_text = refl

abbrev mail : ApprovalBinding
mail = record {
  action_type = "smail.send";
  task_id = "t1";
  tool_id = "smail.send";
  tool_version = "1";
  extension_id = "nju.smail";
  extension_version = "1.0.0";
  target = text "a@nju.edu.cn";
  payload = payload;
  attachments = [];
  form_version = none;
}

abbrev digest : String → String
digest s = s

mail_text : Result String
mail_text = canonical_sha256 digest (envelope mail)

abbrev waiting : ApprovalRecord
waiting = record {
  id = "a1";
  state = waiting_approval;
  action_fingerprint =
      "{\"action_type\":\"smail.send\",\"attachments\":[],\"extension_id\":\"nju.smail\",\"extension_version\":\"1.0.0\",\"form_version\":null,\"payload\":{\"list\":[true,null],\"n\":-42,\"subject\":\"a\\\"b\"},\"target\":\"a@nju.edu.cn\",\"task_id\":\"t1\",\"tool_id\":\"smail.send\",\"tool_version\":\"1\"}";
  canonical_action = "";
  nonce = "n";
  created_at = 0;
  expires_at = 100;
  version = 0;
  approved_at = none;
  approved_by = none;
  consumed_at = none;
  completed_at = none;
  result_reference = none;
  failure_reason = none;
}

abbrev granted : ApprovalRecord
granted = record waiting { state = approved; version = 1 }

abbrev holding : ApprovalRecord → Repository
holding r = record { records = (r.id, r) ∷ [] }

find-waiting : find "a1" (holding waiting) ≡ some waiting
unfolding find lookup
find-waiting = refl

find-granted : find "a1" (holding granted) ≡ some granted
unfolding find lookup
find-granted = refl

approve_returns : (r : ApprovalRecord) × ((approve "a1" "n" "me" 5 (holding waiting)).0 ≡ ok r)
unfolding approve find lookup insert is_blank get save
approve_returns = (approved_copy waiting "me" 5, refl)

approve_guards_example : Approvable waiting "n" "me" 5
approve_guards_example =
    approve_guards "n" "me" 5 (holding waiting) waiting approve_returns.0 find-waiting
      approve_returns.1

abbrev running : ApprovalRecord
running = record granted { state = executing; consumed_at = some 50; version = 2 }

consume_returned : (consume_for_execution digest "a1" mail 50 (holding granted)).0 ≡ ok running
unfolding consume_for_execution find lookup insert canonical_sha256 canonical_json envelope get save
consume_returned = refl

consume_guards_example :
    (granted.state ≡ approved)
    × (50 < granted.expires_at)
    × (canonical_sha256 digest (envelope mail) ≡ ok granted.action_fingerprint)
    × (running.state ≡ executing)
    × (find "a1" (consume_for_execution digest "a1" mail 50 (holding granted)).1 ≡ some running)
consume_guards_example =
    consume_guards digest mail 50 (holding granted) granted running find-granted consume_returned

abbrev changed : ApprovalBinding
changed = record mail { target = text "b@nju.edu.cn" }

-- One approval is prepared and approved, and then consumed twice from one copy.
abbrev first_request : Request
first_request = approve_request "n" "me" 5

abbrev second_request : Request
second_request = consume_request (ok waiting.action_fingerprint) 50

abbrev prepared_world : World
prepared_world = record start { repo = (create waiting start.repo).1 }

abbrev read_world : World
read_world = record prepared_world { seen = waiting ∷ [] }

abbrev approved_world : World
approved_world = act first_request waiting read_world

abbrev approval : ApprovalRecord
approval = approved_copy waiting "me" 5

abbrev reread_world : World
reread_world = record approved_world { seen = approval ∷ approved_world.seen }

abbrev consumed_world : World
consumed_world = act second_request approval reread_world

abbrev raced_world : World
raced_world = act second_request approval consumed_world

Reach-consumed : Reach start consumed_world
unfolding find lookup insert create get save act approve is_blank plan_of settle approve_plan
Reach-consumed =
    next
      (next
        (next
          (next (next here (prepare_step start waiting refl))
            (read_step prepared_world "a1" waiting refl))
          (settle_step read_world first_request waiting (Memᴰ.head refl)))
        (read_step approved_world "a1" approval refl))
      (settle_step reread_world second_request approval (Memᴰ.head refl))

race : Step consumed_world raced_world
unfolding act
race = settle_step consumed_world second_request approval (Memᴰ.head refl)

one_consumption : raced_world.consumed ≡ "a1" ∷ []
unfolding find lookup insert create get save act approve is_blank plan_of settle approve_plan
    consume_plan
one_consumption = refl

consumed-Distinct_example : Distinct raced_world.consumed
consumed-Distinct_example = consumed-Distinct {w = raced_world} (next Reach-consumed race)

abbrev consumed_approval : ApprovalRecord
consumed_approval = record approval { state = executing; consumed_at = some 50; version = 2 }

find-consumed : find "a1" consumed_world.repo ≡ some consumed_approval
unfolding find lookup insert create get save act approve is_blank plan_of settle approve_plan
    consume_plan
find-consumed = refl

Step-Evolves_example :
    (c' : ApprovalRecord) × (find "a1" raced_world.repo ≡ some c') × Evolves consumed_approval c'
Step-Evolves_example = Step-Evolves "a1" consumed_approval Reach-consumed race find-consumed
