-- ===== src/Binding/Ledger.antt =====
-- What a round of the controller may write to its binding, told from the log of that round: the
-- specification that `Binding.Refines` relates `reconcile` to.
use aws_global_accelerator_c.Prelude.{
  Text, Bool, true, false, ◌&&◌, ◌≡◌, refl, ◌⊎◌, List, [], ◌∷◌, ◌++◌, ◌==◌,
}
use aws_global_accelerator_c.Errors.{Result, ok, err, error_code}
use aws_global_accelerator_c.Apis.{EndpointGroupBinding}
use aws_global_accelerator_c.Binding.Update.{finalizer, with_status}
use aws_global_accelerator_c.Binding.Delete.{is_group_gone}
use aws_global_accelerator_c.Binding.Converge.{delete_ids}
use aws_global_accelerator_c.Cloud.Types.{Request, Answer, Log, CloudService}
use aws_global_accelerator_c.Cloud.Exec.{call}
use aws_global_accelerator_c.Cloud.Keeps.{Keeps, Keeps-call}

-- The endpoints of a group, after a request that was answered.
abbrev pub applied : (q : Request) → Answer q → List Text → List Text
applied (Request.add_endpoints arn endpoints) (ok (id ∷ _)) ids = ids ++ (id ∷ [])
applied (Request.remove_endpoints arn removed) (ok _) ids = delete_ids removed ids
applied _ _ ids = ids

-- The endpoints after all the requests of the log, from those at the start of the round on.
abbrev pub ledger : Log → List Text → List Text
ledger [] ids = ids
ledger (e ∷ log) ids = applied e.request e.answer (ledger log ids)

-- The answer says that there is no such endpoint group.
abbrev pub says_gone : Text → (q : Request) → Answer q → Bool
says_gone arn (Request.describe_endpoint_group arn') (err e) =
    (arn' == arn) && is_group_gone (error_code e)
says_gone arn _ _ = false

-- It is the newest one.
abbrev pub JustGone : Text → Log → Type 0
JustGone arn [] = ⊥
JustGone arn (e ∷ log) = says_gone arn e.request e.answer ≡ true

module _ (obj : EndpointGroupBinding) where
  -- An object that is not being deleted gets its finalizer, once.
  abbrev pub Protects : EndpointGroupBinding → Type 0
  Protects b =
      (obj.is_deleting ≡ false)
      × (obj.finalizers ≡ [])
      × (b ≡ record obj { finalizers = finalizer ∷ [] })

  -- One that is being deleted is let go when no endpoint is left, or there is no group.
  abbrev pub Releases : Log → EndpointGroupBinding → Type 0
  Releases log b =
      (obj.is_deleting ≡ true)
      × (b ≡ record obj { finalizers = [] })
      × ((obj.status.endpoint_ids ≡ []) ⊎ JustGone obj.spec.endpoint_group_arn log)

  -- What is known of a request, from the log before it: a status that is written is the ledger.
  abbrev pub Write : Log → Request → Type 0
  Write log (Request.update_binding b) = Protects b ⊎ Releases log b
  Write log (Request.update_binding_status b) =
      b ≡ with_status obj (ledger log obj.status.endpoint_ids)
  Write log _ = Unit {0}

  abbrev pub Follows : Log → Type 0
  Follows [] = Unit {0}
  Follows (e ∷ log) = Write log e.request × Follows log

  -- Besides, the ledger is known.
  abbrev pub At : List Text → Log → Type 0
  At ids log = (ledger log obj.status.endpoint_ids ≡ ids) × Follows log

-- Requests that neither write the binding nor change its endpoint group.
abbrev pub is_quiet : Request → Bool
is_quiet (Request.update_binding b) = false
is_quiet (Request.update_binding_status b) = false
is_quiet (Request.add_endpoints arn endpoints) = false
is_quiet (Request.remove_endpoints arn ids) = false
is_quiet _ = true

quiet-Write :
    (obj : EndpointGroupBinding) (log : Log) (q : Request) → is_quiet q ≡ true → Write obj log q
quiet-Write obj log (Request.update_binding b) h = cc
quiet-Write obj log (Request.update_binding_status b) h = cc
quiet-Write obj log _ h = tt

quiet-applied :
    (q : Request) (answer : Answer q) (ids : List Text)
    → is_quiet q ≡ true
    → applied q answer ids ≡ ids
quiet-applied (Request.add_endpoints arn endpoints) answer ids h = cc
quiet-applied (Request.remove_endpoints arn removed) answer ids h = cc
quiet-applied _ answer ids h = refl

-- Such a request changes nothing.
pub quiet-At :
    {W A : Type 0} (obj : EndpointGroupBinding) (ids : List Text) (cloud : CloudService W)
    (q : Request) (result : Answer q → Result A)
    → is_quiet q ≡ true
    → Keeps (At obj ids) (call cloud q result)
quiet-At obj ids cloud q result h =
    Keeps-call cloud q result
      (λ answer log p. (rw (quiet-applied q answer _ h) p.0, (quiet-Write obj log q h, p.1)))
