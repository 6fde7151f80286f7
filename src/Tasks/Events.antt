-- ===== src/Tasks/Events.antt =====
-- `TaskEvent` of src/personal_assistant/core/tasks/service.py and `InMemoryEventStream` of
-- src/personal_assistant/infrastructure/memory/tasks.py, less the waiting of `wait_after`. Each method
-- holds the condition, so a call is one step.
use nju_personal_assistant.Base.{
  ℕ, zero, suc, ◌+◌, ◌≤◌, String, List, [], ◌∷◌, ◌++◌, Dict, ltb, length, drop, ◌≡◌, refl, arith,
  if◌then◌else◌,
}
use nju_personal_assistant.Domain.Errors.{ok}
use nju_personal_assistant.Domain.Exec.{Exec}

pub record TaskEvent : Type 0 where
  pub sequence : ℕ
  pub kind : String
  pub task_id : String
  pub fields : Dict String String
  pub occurred_at : ℕ

unfoldable pub publish : String → String → Dict String String → ℕ → Exec (List TaskEvent) TaskEvent
publish kind task_id fields now events =
    let event : TaskEvent = record {
      sequence = length events + 1;
      kind = kind;
      task_id = task_id;
      fields = fields;
      occurred_at = now;
    } in
    (ok event, events ++ event ∷ [])

unfoldable pub after : ℕ → List TaskEvent → List TaskEvent
after n [] = []
after n (e ∷ es) = let rest = after n es in if ltb n e.sequence then e ∷ rest else rest

-- Numbered without a gap, the first after `n`
abbrev pub IsNumbered : ℕ → List TaskEvent → Type 0
IsNumbered n [] = Unit
IsNumbered n (e ∷ es) = (e.sequence ≡ suc n) × IsNumbered (suc n) es

IsNumbered-append :
    (n : ℕ) (es : List TaskEvent) (e : TaskEvent)
    → IsNumbered n es
    → e.sequence ≡ n + length es + 1
    → IsNumbered n (es ++ e ∷ [])
IsNumbered-append n [] e i h = (omega arith, tt)
IsNumbered-append n (x ∷ es) e (s, i) h = (s, IsNumbered-append (suc n) es e i (omega arith))

pub publish-IsNumbered :
    (kind task_id : String) (fields : Dict String String) (now : ℕ) (es : List TaskEvent)
    → IsNumbered 0 es
    → IsNumbered 0 (publish kind task_id fields now es).1
unfolding publish
publish-IsNumbered kind task_id fields now es i = IsNumbered-append 0 es _ i (omega arith)

after_all : (n m : ℕ) (es : List TaskEvent) → n ≤ m → IsNumbered m es → after n es ≡ es
unfolding after
after_all n m [] h i = refl
after_all n m (e ∷ es) h (s, i) = ground (arith, s, after_all n (suc m) es (omega arith) i)

-- In a numbered list, `after` drops as many events as were seen.
pub after-drop :
    (n m k : ℕ) (es : List TaskEvent) → k ≡ m + n → IsNumbered m es → after k es ≡ drop n es
unfolding after
after-drop zero m k es h i = after_all k m es (omega arith) i
after-drop (suc n) m k [] h i = refl
after-drop (suc n) m k (e ∷ es) h (s, i) =
    ground (arith, s, after-drop n (suc m) k es (omega arith) i)
