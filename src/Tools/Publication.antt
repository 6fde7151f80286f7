-- ===== src/Tools/Publication.antt =====
-- What `ToolRegistry.publish` leaves to `resolve`.
use nju_personal_assistant.Base.{
  ◌+◌, List, [], ◌∷◌, some, ◌≡◌, refl, arith, Dict, lookup, insert, lookup-insert_self, string_eq,
  pair_eq, All, All-map, ap, lookup-insert_fresh,
}
use nju_personal_assistant.Domain.Errors.{Result, ok, err, Error}
use nju_personal_assistant.Domain.Models.{ToolDescriptor}
use nju_personal_assistant.Tools.Registry.{
  ToolKey, RegistrySnapshot, resolve, stage, publish, published, resolved,
}

stage_keeps :
    (staged s : Dict ToolKey ToolDescriptor) (ds : List ToolDescriptor) (k : ToolKey)
    (d : ToolDescriptor)
    → stage staged ds ≡ ok s
    → lookup k staged ≡ some d
    → lookup k s ≡ some d
unfolding stage
stage_keeps staged s [] k d h e = ground arith
stage_keeps staged s (x ∷ ds) k d h e =
    stage_keeps (insert (x.id, x.version) x staged) s ds k d (ground arith)
      (lookup-insert_fresh (x.id, x.version) k x d staged (ground arith) e)

stage_lists :
    (staged s : Dict ToolKey ToolDescriptor) (ds : List ToolDescriptor)
    → stage staged ds ≡ ok s
    → All (λ d. lookup (d.id, d.version) s ≡ some d) ds
unfolding stage
stage_lists staged s [] h = tt
stage_lists staged s (x ∷ ds) h = (
  stage_keeps (insert (x.id, x.version) x staged) s ds (x.id, x.version) x (ground arith)
      (lookup-insert_self (x.id, x.version) x staged),
  stage_lists (insert (x.id, x.version) x staged) s ds (ground arith),
)

resolve_found :
    (r : RegistrySnapshot) (d : ToolDescriptor)
    → lookup (d.id, d.version) r.tools ≡ some d
    → resolve r d.id d.version ≡ ok d
unfolding resolve
resolve_found r d h = ap (resolved d.id d.version) h

published-resolve :
    (ds : List ToolDescriptor) (old new : RegistrySnapshot)
    (s : Result (Dict ToolKey ToolDescriptor))
    → stage [] ds ≡ s
    → (published s old).0 ≡ ok new
    → ((published s old).1 ≡ new)
      × (new.generation ≡ old.generation + 1)
      × All (λ d. resolve new d.id d.version ≡ ok d) ds
unfolding published
published-resolve ds old new (err e) q h = ground arith
published-resolve ds old new (ok s) q h = (
  ground arith,
  ground arith,
  All-map (λ d p. resolve_found new d p) ds (stage_lists [] new.tools ds (ground arith)),
)

-- Every descriptor of a list that was published is what `resolve` finds at its id and version, in
-- the snapshot that is current then, which is the next generation.
publish-resolve :
    (ds : List ToolDescriptor) (old new : RegistrySnapshot)
    → (publish ds old).0 ≡ ok new
    → ((publish ds old).1 ≡ new)
      × (new.generation ≡ old.generation + 1)
      × All (λ d. resolve new d.id d.version ≡ ok d) ds
unfolding publish
publish-resolve ds old new h = published-resolve ds old new (stage [] ds) refl h

-- Where `publish` raises, the current snapshot stays.
publish_refused :
    (ds : List ToolDescriptor) (old : RegistrySnapshot) (e : Error)
    → (publish ds old).0 ≡ err e
    → (publish ds old).1 ≡ old
unfolding publish
publish_refused ds old e h = ground arith
