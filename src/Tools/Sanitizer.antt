-- ===== src/Tools/Sanitizer.antt =====
-- src/personal_assistant/core/tools/result_sanitizer.py, with its default limit. The source does
-- not sort the keys that it dumps; the number of bytes is the same.
use nju_personal_assistant.Base.{[], ◌∷◌, ltb, if◌then◌else◌}
use nju_personal_assistant.Domain.Errors.{Result, ok, raise, bind, concat, validation_error}
use nju_personal_assistant.Domain.Values.{Value}
use nju_personal_assistant.Approvals.Canonical.{decimal, normalize_json, dumps}
use Prim.Native.String.{len}

limited : Value → Result Value
unfolding concat
limited normalized =
    if ltb 262144 (len (dumps normalized))
    then raise validation_error (
        concat
          ("tool result is " ∷ decimal (len (dumps normalized)) ∷ " bytes; maximum is 262144" ∷ []))
    else ok normalized

unfoldable pub sanitize_result : Value → Result Value
unfolding limited
sanitize_result value = bind (normalize_json "$" value) limited
