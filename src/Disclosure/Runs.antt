-- ===== src/Disclosure/Runs.antt =====
-- Any calls of the consent service and of the router that write, one after another. The clock and the
-- fresh identifiers are in the calls.
use nju_personal_assistant.Base.{ℕ, String, List, [], ◌∷◌, Dict}
use nju_personal_assistant.Domain.Values.{ℤ}
use nju_personal_assistant.Approvals.Service.{Datetime}
use nju_personal_assistant.Disclosure.Fields.{ModelRequest, RecipientIdentity}
use nju_personal_assistant.Disclosure.Consents.{fresh_store}
use nju_personal_assistant.Disclosure.Service.{confirm, revoke}
use nju_personal_assistant.Disclosure.Calls.{World, Router, Call, on_consents}
use nju_personal_assistant.Disclosure.Router.{complete}

pub data Command : Type 0 where
  -- request, provider_id, user_id, preview_hash, key, fresh, ttl, now
  confirm_call : ModelRequest → String → String → String → String → String → ℕ → Datetime → Command
  -- consent_id, user_id, expected_version, key, now
  revoke_call : String → String → ℤ → String → Datetime → Command
  complete_call : Call → Command

module _ (sha256 : String → String) (isoformat : ℕ → String)
    (recipients : Dict String RecipientIdentity) (router : Router) where
  unfoldable pub step : Command → World → World
  unfolding confirm revoke complete
  step (confirm_call request provider user hash key fresh ttl now) w =
      (on_consents (confirm sha256 recipients request provider user hash key fresh ttl now) w).1
  step (revoke_call i user expected key now) w =
      (on_consents (revoke sha256 i user expected key now) w).1
  step (complete_call call) w = (complete sha256 isoformat router call w).1

  unfoldable pub run : List Command → World → World
  unfolding step
  run [] w = w
  run (c ∷ commands) w = run commands (step c w)

abbrev pub fresh_world : World
fresh_world = record { consents = fresh_store; audit = []; sent = [] }
