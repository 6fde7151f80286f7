-- ===== src/Disclosure/Evolution.antt =====
-- What the calls of the consent service make of the stored consents.
use Prim.Native.String.{◌++◌ as append}
use text.Mathlib.TextLemmas.{append_assoc, append_inj}
use nju_personal_assistant.Base.{
  ℕ, String, true, false, Option, none, some, lookup, insert, lookup-insert, lookup-insert_self,
  lookup-insert_fresh, ◌==◌, ==→eq, string_eq, pair_eq, nat_eq, ◌≡◌, ◌≢◌, refl, sym, ap, ◌∙◌, arith,
  Bool-cases, inl, inr,
}
use nju_personal_assistant.Domain.Errors.{ok, concat}
use nju_personal_assistant.Disclosure.Consents.{
  Consent, ConsentStore, DisclosureConsentState, is_active, is_revoked, check_consent,
  check_revocation, with_command, with_consent,
}
use nju_personal_assistant.Disclosure.Service.{confirm_scope, revoke_scope}

-- A consent keeps what it is bound to, and one that is not active keeps everything.
pub record Evolves (c d : Consent) : Type 0 where
  pub id : d.id ≡ c.id
  pub user_id : d.user_id ≡ c.user_id
  pub provider_id : d.provider_id ≡ c.provider_id
  pub purpose : d.purpose ≡ c.purpose
  pub field_digest : d.field_digest ≡ c.field_digest
  pub recipient_fingerprint : d.recipient_fingerprint ≡ c.recipient_fingerprint
  pub expires_at : d.expires_at ≡ c.expires_at
  pub settled : is_active c.state ≡ false → d ≡ c

pub Evolves-refl : (c : Consent) → Evolves c c
Evolves-refl c = record {
  id = refl;
  user_id = refl;
  provider_id = refl;
  purpose = refl;
  field_digest = refl;
  recipient_fingerprint = refl;
  expires_at = refl;
  settled = λ _. refl;
}

pub Evolves-trans : (b c d : Consent) → Evolves b c → Evolves c d → Evolves b d
Evolves-trans b c d e f = record {
  id = f.id ∙ e.id;
  user_id = f.user_id ∙ e.user_id;
  provider_id = f.provider_id ∙ e.provider_id;
  purpose = f.purpose ∙ e.purpose;
  field_digest = f.field_digest ∙ e.field_digest;
  recipient_fingerprint = f.recipient_fingerprint ∙ e.recipient_fingerprint;
  expires_at = f.expires_at ∙ e.expires_at;
  settled = λ h. let same = e.settled h in f.settled (ground (arith, h, same)) ∙ same;
}

-- An active consent that only changes its state, its version and its time of revocation
pub moved :
    (c : Consent) (state : DisclosureConsentState) (n : ℕ) (t : Option ℕ)
    → is_active c.state ≡ true
    → Evolves c (record c { state = state; version = n; revoked_at = t })
moved c state n t h = record {
  id = refl;
  user_id = refl;
  provider_id = refl;
  purpose = refl;
  field_digest = refl;
  recipient_fingerprint = refl;
  expires_at = refl;
  settled = λ g. absurd (ground (arith, g));
}

-- Each consent stands under its id, and a consent that was revoked by a command is still revoked.
pub record IsSound (s : ConsentStore) : Type 0 where
  pub ids : (i : String) (c : Consent) → lookup i s.records ≡ some c → c.id ≡ i
  pub revocations :
      (user key fingerprint i : String)
      → lookup (revoke_scope user, key) s.commands ≡ some (fingerprint, i)
      → (c : Consent) × (lookup i s.records ≡ some c) × (is_revoked c.state ≡ true)

pub record Follows (s s' : ConsentStore) : Type 0 where
  pub sound : IsSound s'
  pub kept :
      (i : String) (c : Consent)
      → lookup i s.records ≡ some c
      → (d : Consent) × (lookup i s'.records ≡ some d) × Evolves c d

pub Follows-refl : (s : ConsentStore) → IsSound s → Follows s s
Follows-refl s h = record { sound = h; kept = λ i c k. (c, k, Evolves-refl c) }

pub Follows-trans : (s t u : ConsentStore) → Follows s t → Follows t u → Follows s u
Follows-trans s t u f g = record {
  sound = g.sound;
  kept = λ i c k.
      let (d, l, e) = f.kept i c k in
      let (b, m, o) = g.kept i d l in (b, m, Evolves-trans c d b e o);
}

pub check_consent-same : (c d : Consent) → check_consent c ≡ ok d → d ≡ c
unfolding check_consent check_revocation
check_consent-same c d h = ground arith

pub scopes_differ : (u v : String) → confirm_scope u ≢ revoke_scope v
unfolding confirm_scope revoke_scope concat
scopes_differ u v = λ h.
    let x = append u "" in
    let y = append v "" in
    let e =
      sym (append_assoc "disclosure:c" "onfirm:" x) ∙ h ∙ append_assoc "disclosure:r" "evoke:" y in
    let (same, _) = append_inj e refl in
    let t : true ≡ false = ap (λ (z : String). z == "disclosure:c") same in
    absurd (ground (arith, t))

scopes_unequal : (u v : String) → (confirm_scope u == revoke_scope v) ≡ false
scopes_unequal u v = elim (Bool-cases (confirm_scope u == revoke_scope v)) [
  | inl e ↦ absurd (scopes_differ u v (==→eq (confirm_scope u) (revoke_scope v) e))
  | inr e ↦ e
]

module _ (s : ConsentStore) (h : IsSound s) where
  -- What stands under an id after a write
  ids-insert :
      (j : String) (c : Consent)
      → c.id ≡ j
      → (i : String) (d : Consent) → lookup i (insert j c s.records) ≡ some d
      → d.id ≡ i
  ids-insert j c own i d k =
      ground (arith, k, own, lookup-insert j i c s.records, ==→eq j i, h.ids i d)

  -- A new record under a fresh id, with its command
  pub created :
      (user key fingerprint : String) (c : Consent)
      → lookup c.id s.records ≡ none
      → Follows s (with_command (confirm_scope user) key fingerprint c.id c s)
  created user key fingerprint c fresh = record {
    sound = record {
      ids = ids-insert c.id c refl;
      revocations = λ u k f i l.
          let old : lookup (revoke_scope u, k) s.commands ≡ some (f, i) = ground (
            arith,
            l,
            scopes_unequal user u,
            lookup-insert (confirm_scope user, key) (revoke_scope u, k) (fingerprint, c.id)
                s.commands,
          ) in
          let (d, m, r) = h.revocations u k f i old in
          (d, lookup-insert_fresh c.id i c d s.records fresh m, r);
    };
    kept = λ i d k. (d, lookup-insert_fresh c.id i c d s.records fresh k, Evolves-refl d);
  }

  -- An active consent is replaced by one that it evolves to.
  module _ (i : String) (c d : Consent) (k : lookup i s.records ≡ some c)
      (live : is_active c.state ≡ true) (e : Evolves c d) where
    kept_after :
        (j : String) (b : Consent)
        → lookup j s.records ≡ some b
        → (b' : Consent) × (lookup j (insert i d s.records) ≡ some b') × Evolves b b'
    kept_after j b l = elim (Bool-cases (i == j)) [
      | inl same ↦
          let at : b ≡ c = ground (arith, l, k, ==→eq i j same) in
          (d, ground (arith, same, lookup-insert i j d s.records), rw at e)
      | inr other ↦ (b, ground (arith, other, l, lookup-insert i j d s.records), Evolves-refl b)
    ]

    still_revoked :
        (j : String) (b : Consent)
        → lookup j s.records ≡ some b
        → is_revoked b.state ≡ true
        → lookup j (insert i d s.records) ≡ some b
    unfolding is_active is_revoked
    still_revoked j b l r = elim (Bool-cases (i == j)) [
      | inl same ↦
          let at : b ≡ c = ground (arith, l, k, ==→eq i j same) in
          absurd (ground (arith, live, r, at))
      | inr other ↦ ground (arith, other, l, lookup-insert i j d s.records)
    ]

    own : d.id ≡ i
    own = e.id ∙ h.ids i c k

    pub expired_written : Follows s (with_consent i d s)
    expired_written = record {
      sound = record {
        ids = ids-insert i d own;
        revocations = λ u key f j l.
            let (b, m, r) = h.revocations u key f j l in (b, still_revoked j b m r, r);
      };
      kept = kept_after;
    }

    module _ (user key fingerprint : String) (r : is_revoked d.state ≡ true) where
      revocation_at :
          (u k' f j : String)
          → lookup
              (revoke_scope u, k')
              (insert (revoke_scope user, key) (fingerprint, i) s.commands)
            ≡ some (f, j)
          → (b : Consent) × (lookup j (insert i d s.records) ≡ some b) × (is_revoked b.state ≡ true)
      revocation_at u k' f j l =
          let p : String × String = (revoke_scope user, key) in
          let q : String × String = (revoke_scope u, k') in
          let both = lookup-insert p q (fingerprint, i) s.commands in
          elim (Bool-cases (p == q)) [
            | inl same ↦
                let at : i ≡ j = ground (arith, l, same, both) in
                (d, rw (← at) (lookup-insert_self i d s.records), r)
            | inr other ↦
                let old : lookup q s.commands ≡ some (f, j) = ground (arith, l, other, both) in
                let (b, m, t) = h.revocations u k' f j old in (b, still_revoked j b m t, t)
          ]

      pub revoked_written : Follows s (with_command (revoke_scope user) key fingerprint i d s)
      revoked_written = record {
        sound = record { ids = ids-insert i d own; revocations = revocation_at };
        kept = kept_after;
      }
