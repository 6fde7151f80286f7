-- ===== src/Agent/Progress.antt =====
-- src/personal_assistant/core/agent/progress_detector.py and safety_fuse.py
use nju_personal_assistant.Base.{
  ℕ, ◌+◌, String, Bool, true, false, Option, none, some, leb, ltb, not, ◌==◌, string_eq, nat_eq,
  ◌&&◌, if◌then◌else◌,
}
use nju_personal_assistant.Domain.Enums.{ToolOutcomeKind, success, failure}
use nju_personal_assistant.Domain.Errors.{Result, ok, raise, value_error}
use nju_personal_assistant.Domain.Models.{TaskRun, ToolCall, ToolOutcome}
use nju_personal_assistant.Domain.Values.{Value, null, text, object, end, field, name}
use nju_personal_assistant.Approvals.Canonical.{dumps}

abbrev is_success : ToolOutcomeKind → Bool
is_success success = true
is_success _ = false

abbrev is_failure : ToolOutcomeKind → Bool
is_failure failure = true
is_failure _ = false

-- `==` with a fingerprint that may be `None`
abbrev is_fingerprint : String → Option String → Bool
is_fingerprint s none = false
is_fingerprint s (some t) = s == t

module _ (sha256 : String → String) where
  -- Of values that hold JSON only; `default=str` is not reached on them.
  unfoldable pub stable_fingerprint : Value → String
  stable_fingerprint value = sha256 (dumps value)

  unfoldable pub call_fingerprint : ToolCall → String
  call_fingerprint call = stable_fingerprint (
      object (
        field (name "tool") (text call.tool_id) (
          field (name "version") (text call.tool_version)
            (field (name "arguments") call.arguments end))))

  unfoldable pub observation_of : Value → Option String
  observation_of null = none
  observation_of value = some (stable_fingerprint value)

  is_new : Option String → Option String → Bool
  is_new none last = false
  is_new (some observation) last = not (is_fingerprint observation last)

  -- A success whose result differs from the last one.
  unfoldable pub progressed : Option String → ToolOutcome → Bool
  unfolding is_new
  progressed last outcome = is_success outcome.kind && is_new (observation_of outcome.result) last

  unfoldable pub record_round : TaskRun → ToolCall → ToolOutcome → ℕ → TaskRun
  record_round run call outcome now =
      let progress = progressed run.last_observation_fingerprint outcome in
      record run {
        version = run.version + 1;
        updated_at = now;
        last_call_fingerprint = some (call_fingerprint call);
        last_observation_fingerprint =
            if progress then observation_of outcome.result else run.last_observation_fingerprint;
        same_call_without_progress =
            if progress
            then 0
            else if is_fingerprint (call_fingerprint call) run.last_call_fingerprint
            then run.same_call_without_progress + 1
            else 1;
        no_progress_rounds = if progress then 0 else run.no_progress_rounds + 1;
        consecutive_errors = if is_failure outcome.kind then run.consecutive_errors + 1 else 0;
      }

pub record FuseThresholds : Type 0 where
  pub same_call_without_progress : ℕ
  pub consecutive_errors : ℕ
  pub no_progress_rounds : ℕ
  pub active_duration : ℕ  -- microseconds

abbrev pub default_thresholds : FuseThresholds
default_thresholds = record {
  same_call_without_progress = 3;
  consecutive_errors = 5;
  no_progress_rounds = 8;
  active_duration = 86400000000;
}

-- `__post_init__`
unfoldable pub check_thresholds : FuseThresholds → Result (Unit {0})
check_thresholds t =
    if ltb t.same_call_without_progress 1
    then raise value_error "emergency fuse thresholds may not be disabled"
    else if ltb t.consecutive_errors 1
    then raise value_error "emergency fuse thresholds may not be disabled"
    else if ltb t.no_progress_rounds 1
    then raise value_error "emergency fuse thresholds may not be disabled"
    else if leb t.active_duration 0
    then raise value_error "active duration fuse may not be disabled"
    else ok tt

-- `now - started >= duration`, written as a sum: the clock may stand before the start.
unfoldable pub pause_reason : FuseThresholds → TaskRun → ℕ → Option String
pause_reason t run now =
    if leb t.same_call_without_progress run.same_call_without_progress
    then some "SAME_CALL_WITHOUT_PROGRESS"
    else if leb t.consecutive_errors run.consecutive_errors
    then some "CONSECUTIVE_ERRORS"
    else if leb t.no_progress_rounds run.no_progress_rounds
    then some "NO_PROGRESS_ROUNDS"
    else if leb (run.active_started_at + t.active_duration) now
    then some "ACTIVE_RUN_DURATION"
    else none
