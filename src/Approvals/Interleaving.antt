-- ===== src/Approvals/Interleaving.antt =====
-- Any number of coroutines share one repository. A method reads a copy, and its `save` may come any
-- number of other steps later: `seen` holds the copies that are in somebody's hands. `consumed`
-- records each `consume_for_execution` that returned, which is the licence to execute.
use mathlib.Core.List.{Memᴰ}
use nju_personal_assistant.Base.{String, ◌≡◌, some, List, [], ◌∷◌}
use nju_personal_assistant.Domain.Enums.{waiting_approval}
use nju_personal_assistant.Domain.Errors.{Result, ok}
use nju_personal_assistant.Approvals.Record.{ApprovalRecord, Repository, find, create}
use nju_personal_assistant.Approvals.Service.{settle}
use nju_personal_assistant.Approvals.Follows.{Request, consume_request, plan_of}

pub record World : Type 0 where
  pub repo : Repository
  pub seen : List ApprovalRecord
  pub consumed : List String

unfoldable pub note : Request → Result ApprovalRecord → List String → List String
note (consume_request presented now) (ok r) log = r.id ∷ log
note _ _ log = log

unfoldable pub act : Request → ApprovalRecord → World → World
unfolding note
act q old w =
    let (result, repo') = settle old (plan_of q old) w.repo in
    record w { repo = repo'; consumed = note q result w.consumed }

pub data Step : World → World → Type 0 where
  prepare_step :
      (w : World) (r : ApprovalRecord)
      → r.state ≡ waiting_approval
      → Step w (record w { repo = (create r w.repo).1 })
  read_step :
      (w : World) (i : String) (r : ApprovalRecord)
      → find i w.repo ≡ some r
      → Step w (record w { seen = r ∷ w.seen })
  settle_step :
      (w : World) (q : Request) (old : ApprovalRecord) → Memᴰ old w.seen → Step w (act q old w)

pub data Reach (w : World) : World → Type 0 where
  here : Reach w w
  next : {u v : World} → Reach w u → Step u v → Reach w v

abbrev pub start : World
start = record { repo = record { records = [] }; seen = []; consumed = [] }

-- No id was consumed twice.
abbrev pub Distinct : List String → Type 0
Distinct [] = Unit
Distinct (i ∷ l) = (Memᴰ i l → ⊥) × Distinct l
