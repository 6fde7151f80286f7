-- ===== src/Disclosure/Consents.antt =====
-- `DisclosureConsentRecord` of src/personal_assistant/core/models/disclosure.py and
-- `InMemoryDisclosureConsentStore` of src/personal_assistant/infrastructure/memory/disclosures.py. Each
-- method holds the lock, so a call is one step. The times of a record are aware: what makes one checks
-- them.
use nju_personal_assistant.Base.{
  ℕ, ◌+◌, String, Bool, true, false, List, [], ◌∷◌, Option, none, some, Dict, lookup, insert, not,
  ltb, leb, take, ◌==◌, ◌&&◌, ◌||◌, nat_eq, string_eq, pair_eq, if◌then◌else◌,
}
use nju_personal_assistant.Domain.Errors.{
  Result, ok, err, raise, concat, validation_error, already_exists, key_error,
  concurrent_modification, disclosure_consent_not_found, disclosure_idempotency_conflict,
  disclosure_state_error,
}
use nju_personal_assistant.Domain.Exec.{Exec}
use nju_personal_assistant.Domain.Checking.{◌>>◌}
use nju_personal_assistant.Domain.Text.{is_blank, text_length, all_chars}
use nju_personal_assistant.Domain.Values.{leb_text}
use nju_personal_assistant.Approvals.Canonical.{decimal}

pub data DisclosureConsentState : Type 0 where
  active revoked expired : DisclosureConsentState

unfoldable pub is_active : DisclosureConsentState → Bool
is_active active = true
is_active _ = false

unfoldable pub is_revoked : DisclosureConsentState → Bool
is_revoked revoked = true
is_revoked _ = false

consent_state_value : DisclosureConsentState → String
consent_state_value active = "ACTIVE"
consent_state_value revoked = "REVOKED"
consent_state_value expired = "EXPIRED"

pub record Consent : Type 0 where
  pub id : String
  pub user_id : String
  pub provider_id : String
  pub purpose : String
  pub field_digest : String
  pub recipient_fingerprint : String
  pub field_count : ℕ
  pub policy_version : String
  pub state : DisclosureConsentState
  pub created_at : ℕ
  pub expires_at : ℕ
  pub version : ℕ
  pub revoked_at : Option ℕ

-- `c in "0123456789abcdef"`
hex_digit : ℕ → Bool
hex_digit c = (leb b'0' c && leb c b'9') || (leb b'a' c && leb c b'f')

-- `_require_digest` is passed
unfoldable pub is_digest : String → Bool
unfolding hex_digit
is_digest s = text_length s == 64 && all_chars hex_digit s

-- `_require_text` and `_require_digest`
unfoldable pub require_text : String → String → Result (Unit {0})
unfolding concat
require_text value name =
    if is_blank value then raise validation_error (concat (name ∷ " is required" ∷ [])) else ok tt

unfoldable pub require_digest : String → String → Result (Unit {0})
unfolding concat is_digest
require_digest value name =
    if not (is_digest value)
    then raise validation_error (concat (name ∷ " must be a lowercase 64 character sha256" ∷ []))
    else ok tt

unfoldable pub check_revocation : Consent → Option ℕ → Result Consent
unfolding is_revoked
check_revocation c (some t) =
    if not (is_revoked c.state)
    then raise validation_error "only revoked consent may carry a revocation time"
    else ok c
check_revocation c none =
    if is_revoked c.state
    then raise validation_error "revoked consent requires a revocation time"
    else ok c

-- `DisclosureConsentRecord.__post_init__`
unfoldable pub check_consent : Consent → Result Consent
unfolding require_text require_digest check_revocation
check_consent c = do
  require_text c.id "id"
  require_text c.user_id "user_id"
  require_text c.provider_id "provider_id"
  require_text c.purpose "purpose"
  require_text c.policy_version "policy_version"
  require_digest c.field_digest "field_digest"
  require_digest c.recipient_fingerprint "recipient_fingerprint"
  if ltb c.field_count 1
      then raise validation_error "disclosure consent requires at least one field"
      else if leb c.expires_at c.created_at
      then raise validation_error "disclosure consent expiry must follow creation"
      else check_revocation c c.revoked_at

pub record ConsentStore : Type 0 where
  pub records : Dict String Consent
  -- Per scope and idempotency key: the fingerprint of the command and the consent's id
  pub commands : Dict (String × String) (String × String)

abbrev pub fresh_store : ConsentStore
fresh_store = record { records = []; commands = [] }

unfoldable pub stored_consent : Option Consent → Result Consent
stored_consent none = raise key_error ""
stored_consent (some c) = ok c

-- What a repeated command returns
unfoldable pub repeated : String × String → String → ConsentStore → Result Consent
unfolding stored_consent
repeated (original, i) fingerprint s =
    if not (original == fingerprint)
    then raise disclosure_idempotency_conflict
        "the idempotency key was already used with different content"
    else stored_consent (lookup i s.records)

abbrev pub with_command : String → String → String → String → Consent → ConsentStore → ConsentStore
with_command scope key fingerprint i c s = record {
  records = insert i c s.records;
  commands = insert (scope, key) (fingerprint, i) s.commands;
}

abbrev pub with_consent : String → Consent → ConsentStore → ConsentStore
with_consent i c s = record s { records = insert i c s.records }

outdated : String → ℕ → ℕ → Result Consent
unfolding concat
outdated i expected found = raise concurrent_modification (
    concat (
      "disclosure consent "
      ∷ i
      ∷ " expected version "
      ∷ decimal expected
      ∷ ", found "
      ∷ decimal found
      ∷ []))

unfoldable pub create_fresh_consent :
    Option Consent → Consent → String → String → String → Exec ConsentStore Consent
unfolding concat
create_fresh_consent (some _) c scope key fingerprint s =
    (raise already_exists (concat ("disclosure consent already exists: " ∷ c.id ∷ [])), s)
create_fresh_consent none c scope key fingerprint s =
    (ok c, with_command scope key fingerprint c.id c s)

unfoldable pub create_consent_unless :
    Option (String × String) → Consent → String → String → String → Exec ConsentStore Consent
unfolding create_fresh_consent repeated
create_consent_unless (some earlier) c scope key fingerprint s = (repeated earlier fingerprint s, s)
create_consent_unless none c scope key fingerprint s =
    create_fresh_consent (lookup c.id s.records) c scope key fingerprint s

unfoldable pub create_consent : Consent → String → String → String → Exec ConsentStore Consent
unfolding create_consent_unless
create_consent c scope key fingerprint s =
    create_consent_unless (lookup (scope, key) s.commands) c scope key fingerprint s

not_found_error : String → Result Consent
unfolding concat
not_found_error i =
    raise disclosure_consent_not_found (concat ("disclosure consent not found: " ∷ i ∷ []))

found_consent : Option Consent → String → Result Consent
unfolding not_found_error
found_consent none i = not_found_error i
found_consent (some c) i = ok c

unfoldable pub get_consent : String → Exec ConsentStore Consent
unfolding found_consent
get_consent i s = (found_consent (lookup i s.records) i, s)

-- `replace(…)` of a stored record, checked again; what passes is stored.
unfoldable pub store_replaced : Result Consent → Exec ConsentStore Consent
store_replaced (err e) s = (err e, s)
store_replaced (ok c) s = (ok c, with_consent c.id c s)

save_over_consent : Option Consent → Consent → ℕ → Exec ConsentStore Consent
unfolding not_found_error store_replaced check_consent outdated
save_over_consent none c expected s = (not_found_error c.id, s)
save_over_consent (some current) c expected s =
    if not (current.version == expected)
    then (outdated c.id expected current.version, s)
    else store_replaced (check_consent (record c { version = expected + 1 })) s

unfoldable pub save_consent : Consent → ℕ → Exec ConsentStore Consent
unfolding save_over_consent
save_consent c expected s = save_over_consent (lookup c.id s.records) c expected s

abbrev pub revoked_copy : Consent → ℕ → Consent
revoked_copy c now = record c { state = revoked; revoked_at = some now; version = c.version + 1 }

abbrev pub expired_copy : Consent → Consent
expired_copy c = record c { state = expired; version = c.version + 1 }

-- The end of `revoke` at a passed expiry
unfoldable pub store_expired : String → Result Consent → Exec ConsentStore Consent
unfolding concat
store_expired i (err e) s = (err e, s)
store_expired i (ok c) s = (
  raise disclosure_state_error (concat ("disclosure consent " ∷ i ∷ " is expired" ∷ [])),
  with_consent i c s,
)

unfoldable pub store_revoked :
    String → Result Consent → String → String → String → Exec ConsentStore Consent
store_revoked i (err e) scope key fingerprint s = (err e, s)
store_revoked i (ok c) scope key fingerprint s = (ok c, with_command scope key fingerprint i c s)

module _ (i user : String) (expected now : ℕ) (scope key fingerprint : String) where
  unfoldable pub revoke_found : Option Consent → Exec ConsentStore Consent
  unfolding not_found_error store_expired store_revoked check_consent concat is_active
      consent_state_value outdated
  revoke_found none s = (not_found_error i, s)
  revoke_found (some c) s =
      if not (c.user_id == user)
      then (not_found_error i, s)
      else if not (c.version == expected)
      then (outdated i expected c.version, s)
      else if not (is_active c.state)
      then (
        raise disclosure_state_error (
            concat (
              "disclosure consent "
              ∷ i
              ∷ " is "
              ∷ consent_state_value c.state
              ∷ ", not active"
              ∷ [])),
        s,
      )
      else if leb c.expires_at now
      then store_expired i (check_consent (expired_copy c)) s
      else store_revoked i (check_consent (revoked_copy c now)) scope key fingerprint s

  unfoldable pub revoke_unless : Option (String × String) → Exec ConsentStore Consent
  unfolding revoke_found repeated
  revoke_unless (some earlier) s = (repeated earlier fingerprint s, s)
  revoke_unless none s = revoke_found (lookup i s.records) s

  unfoldable pub revoke_consent : Exec ConsentStore Consent
  unfolding revoke_unless
  revoke_consent s = revoke_unless (lookup (scope, key) s.commands) s

-- What a consent is asked for
pub record Binding : Type 0 where
  pub consent_id : String
  pub user_id : String
  pub provider_id : String
  pub purpose : String
  pub field_digest : String
  pub recipient_fingerprint : String
  pub policy_version : String

-- The condition of `find_active`
unfoldable pub is_bound : Consent → Binding → ℕ → Bool
unfolding is_active
is_bound c b now =
    c.user_id == b.user_id
    && c.provider_id == b.provider_id
    && c.purpose == b.purpose
    && c.field_digest == b.field_digest
    && c.recipient_fingerprint == b.recipient_fingerprint
    && c.policy_version == b.policy_version
    && is_active c.state
    && ltb now c.expires_at

unfoldable pub keep_bound : Option Consent → Binding → ℕ → Option Consent
unfolding is_bound
keep_bound none b now = none
keep_bound (some c) b now = if is_bound c b now then some c else none

unfoldable pub find_active : Binding → ℕ → ConsentStore → Option Consent
unfolding keep_bound
find_active b now s = keep_bound (lookup b.consent_id s.records) b now

-- `list_for_user`, sorted by the time of creation and then by id
insert_consent : Consent → List Consent → List Consent
insert_consent c [] = c ∷ []
insert_consent c (d ∷ l) =
    let rest = insert_consent c l in
    if ltb c.created_at d.created_at || (c.created_at == d.created_at && leb_text c.id d.id)
    then c ∷ d ∷ l
    else d ∷ rest

consents_of : String → Dict String Consent → List Consent
unfolding insert_consent
consents_of user [] = []
consents_of user ((i, c) ∷ l) =
    let rest = consents_of user l in if c.user_id == user then insert_consent c rest else rest

unfoldable pub list_for_user : String → ℕ → Exec ConsentStore (List Consent)
unfolding consents_of
list_for_user user limit s =
    if ltb limit 1
    then (raise validation_error "limit must be positive", s)
    else (ok (take limit (consents_of user s.records)), s)
