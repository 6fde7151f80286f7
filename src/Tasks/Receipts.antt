-- ===== src/Tasks/Receipts.antt =====
-- What the store of drafts remembers of a command.
use nju_personal_assistant.Base.{
  ℕ, String, Bool, List, [], ◌∷◌, Option, none, some, Dict, lookup, insert, lookup-insert_self,
  lookup-insert_fresh, ◌≡◌, refl, ap, ◌∙◌, arith, Bool-cases, inl, inr, if_both, ◌==◌, nat_eq,
  string_eq, ==-refl, ==→eq, not,
}
use nju_personal_assistant.Domain.Errors.{Result, ok, err}
use nju_personal_assistant.Domain.Values.{Value}
use nju_personal_assistant.Tasks.Drafts.{
  FormDraft, DraftStore, replay, create_draft, create_unless, create_first, store_saved,
  saved_draft, replace_draft, replace_unless, replace_current,
}

pub data DraftCommand : Type 0 where
  create_command : FormDraft → String → String → DraftCommand
  replace_command : String → Dict String Value → ℕ → String → String → ℕ → DraftCommand

abbrev Receipt : String → String × FormDraft → DraftStore → Type 0
Receipt k v s = lookup k s.commands ≡ some v

-- A receipt under a new key hides no other.
another :
    (k key fingerprint : String) (v : String × FormDraft) (d : FormDraft) (s : DraftStore)
    → lookup key s.commands ≡ none
    → Receipt k v s
    → lookup k (insert key (fingerprint, d) s.commands) ≡ some v
another k key fingerprint v d s n h = lookup-insert_fresh key k (fingerprint, d) v s.commands n h

-- Nothing is replayed only where the key is new.
replay_nothing :
    (o : Option (String × FormDraft)) (fingerprint : String)
    → replay o fingerprint ≡ ok none
    → o ≡ none
unfolding replay
replay_nothing none fingerprint h = refl
replay_nothing (some (f, d)) fingerprint h = absurd (ground (arith, h))

replay_again :
    (fingerprint : String) (d : FormDraft)
    → replay (some (fingerprint, d)) fingerprint ≡ ok (some d)
unfolding replay
replay_again fingerprint d = rw (==-refl fingerprint) refl

replay-some :
    (o : Option (String × FormDraft)) (fingerprint : String) (d : FormDraft)
    → replay o fingerprint ≡ ok (some d)
    → o ≡ some (fingerprint, d)
unfolding replay
replay-some none fingerprint d h = absurd (ground (arith, h))
replay-some (some (f, e)) fingerprint d h = elim (Bool-cases (f == fingerprint)) [
  | inl q ↦ ground (arith, h, ==→eq f fingerprint q)
  | inr q ↦ absurd (ground (arith, h, q))
]

module _ (same : Value → Value → Bool) where
  unfoldable pub obey : DraftCommand → DraftStore → DraftStore
  unfolding create_draft replace_draft
  obey (create_command d key fingerprint) s = (create_draft d key fingerprint s).1
  obey (replace_command i values version key fingerprint now) s =
      (replace_draft same i values version key fingerprint now s).1

  unfoldable pub obey_all : List DraftCommand → DraftStore → DraftStore
  unfolding obey
  obey_all [] s = s
  obey_all (c ∷ commands) s = obey_all commands (obey c s)

  module _ (k : String) (v : String × FormDraft) (s : DraftStore) (h : Receipt k v s) where
    create_first_keeps :
        (o : Option FormDraft) (d : FormDraft) (key fingerprint : String)
        → lookup key s.commands ≡ none
        → Receipt k v (create_first o d key fingerprint s).1
    unfolding create_first
    create_first_keeps (some _) d key fingerprint n = h
    create_first_keeps none d key fingerprint n = another k key fingerprint v d s n h

    create_unless_keeps :
        (r : Result (Option FormDraft)) (d : FormDraft) (key fingerprint : String)
        → replay (lookup key s.commands) fingerprint ≡ r
        → Receipt k v (create_unless r d key fingerprint s).1
    unfolding create_unless
    create_unless_keeps (err e) d key fingerprint q = h
    create_unless_keeps (ok (some _)) d key fingerprint q = h
    create_unless_keeps (ok none) d key fingerprint q =
        create_first_keeps (lookup d.task_id s.drafts) d key fingerprint
          (replay_nothing (lookup key s.commands) fingerprint q)

    store_saved_keeps :
        (r : Result FormDraft) (i key fingerprint : String)
        → lookup key s.commands ≡ none
        → Receipt k v (store_saved same r i key fingerprint s).1
    unfolding store_saved
    store_saved_keeps (err e) i key fingerprint n = h
    store_saved_keeps (ok d) i key fingerprint n = another k key fingerprint v d s n h

    replace_current_keeps :
        (o : Option FormDraft) (i : String) (values : Dict String Value) (version : ℕ)
        (key fingerprint : String) (now : ℕ)
        → lookup key s.commands ≡ none
        → Receipt k v (replace_current same o i values version key fingerprint now s).1
    unfolding replace_current
    replace_current_keeps none i values version key fingerprint now n = h
    replace_current_keeps (some c) i values version key fingerprint now n =
        if_both (λ (p : Result FormDraft × DraftStore). Receipt k v p.1)
          (not (c.version == version)) _ _ h
          (store_saved_keeps (saved_draft same c values version now) i key fingerprint n)

    replace_unless_keeps :
        (r : Result (Option FormDraft)) (i : String) (values : Dict String Value) (version : ℕ)
        (key fingerprint : String) (now : ℕ)
        → replay (lookup key s.commands) fingerprint ≡ r
        → Receipt k v (replace_unless same r i values version key fingerprint now s).1
    unfolding replace_unless
    replace_unless_keeps (err e) i values version key fingerprint now q = h
    replace_unless_keeps (ok (some _)) i values version key fingerprint now q = h
    replace_unless_keeps (ok none) i values version key fingerprint now q =
        replace_current_keeps (lookup i s.drafts) i values version key fingerprint now
          (replay_nothing (lookup key s.commands) fingerprint q)

    obey_keeps : (c : DraftCommand) → Receipt k v (obey c s)
    unfolding obey create_draft replace_draft
    obey_keeps (create_command d key fingerprint) =
        create_unless_keeps (replay (lookup key s.commands) fingerprint) d key fingerprint refl
    obey_keeps (replace_command i values version key fingerprint now) =
        replace_unless_keeps (replay (lookup key s.commands) fingerprint) i values version key
          fingerprint now refl

  obey_all_keeps :
      (k : String) (v : String × FormDraft) (commands : List DraftCommand) (s : DraftStore)
      → Receipt k v s
      → Receipt k v (obey_all commands s)
  unfolding obey_all
  obey_all_keeps k v [] s h = h
  obey_all_keeps k v (c ∷ commands) s h =
      obey_all_keeps k v commands (obey c s) (obey_keeps k v s h c)

  module _ (i : String) (values : Dict String Value) (version : ℕ) (key fingerprint : String)
      (now : ℕ) where
    -- Where the command returned, its receipt is there.
    abbrev Receives : Result FormDraft × DraftStore → Type 0
    Receives p = (d : FormDraft) → p.0 ≡ ok d → Receipt key (fingerprint, d) p.1

    saved-Receives :
        (r : Result FormDraft) (s : DraftStore) → Receives (store_saved same r i key fingerprint s)
    unfolding store_saved
    saved-Receives (err e) s d h = absurd (ground (arith, h))
    saved-Receives (ok c) s d h =
        lookup-insert_self key (fingerprint, c) s.commands
        ∙ ap (λ x. some (fingerprint, x)) (ground (arith, h))

    current-Receives :
        (o : Option FormDraft) (s : DraftStore)
        → Receives (replace_current same o i values version key fingerprint now s)
    unfolding replace_current
    current-Receives none s = λ d h. absurd (ground (arith, h))
    current-Receives (some c) s =
        if_both Receives (not (c.version == version)) _ _ (λ d h. absurd (ground (arith, h)))
          (saved-Receives (saved_draft same c values version now) s)

    unless-Receives :
        (r : Result (Option FormDraft)) (s : DraftStore)
        → replay (lookup key s.commands) fingerprint ≡ r
        → Receives (replace_unless same r i values version key fingerprint now s)
    unfolding replace_unless
    unless-Receives (err e) s q d h = absurd (ground (arith, h))
    unless-Receives (ok (some c)) s q d h =
        replay-some (lookup key s.commands) fingerprint c q
        ∙ ap (λ x. some (fingerprint, x)) (ground (arith, h))
    unless-Receives (ok none) s q d h = current-Receives (lookup i s.drafts) s d h

    replace_received :
        (s : DraftStore) (d : FormDraft)
        → Receipt key (fingerprint, d) s
        → replace_draft same i values version key fingerprint now s ≡ (ok d, s)
    unfolding replace_draft replace_unless
    replace_received s d h = rw (h, replay_again fingerprint d) refl

-- Where `replace` returned a draft, the same command, at any time and after any further commands on the
-- store, returns that draft again and changes nothing, even where the draft has a later version by then.
pub replace_draft_replayed :
    (same : Value → Value → Bool) (i : String) (values : Dict String Value) (version : ℕ)
    (key fingerprint : String) (now later : ℕ) (commands : List DraftCommand) (s : DraftStore)
    (d : FormDraft)
    → (replace_draft same i values version key fingerprint now s).0 ≡ ok d
    → replace_draft same i values version key fingerprint later
        (obey_all same commands (replace_draft same i values version key fingerprint now s).1)
      ≡ (ok d, obey_all same commands (replace_draft same i values version key fingerprint now s).1)
unfolding replace_draft
replace_draft_replayed same i values version key fingerprint now later commands s d h =
    let r = replay (lookup key s.commands) fingerprint in
    let receipt = unless-Receives same i values version key fingerprint now r s refl d h in
    replace_received same i values version key fingerprint later _ d
      (obey_all_keeps same key (fingerprint, d) commands _ receipt)
