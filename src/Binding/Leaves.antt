-- ===== src/Binding/Leaves.antt =====
-- `reconcileDelete` and `reconcile` against the ledger of `Binding.Ledger`.
use aws_global_accelerator_c.Prelude.{
  ap, sym, Text, Bool, true, false, ◌≡◌, refl, ◌⊎◌, inl, inr, List, [], ◌∷◌, eq_refl, if◌then◌else◌,
}
use aws_global_accelerator_c.Errors.{Error, Result, ok, err, panic, error_code}
use aws_global_accelerator_c.Apis.{EndpointGroupBinding}
use aws_global_accelerator_c.Controller.{SplitKey}
use aws_global_accelerator_c.Endpoint.{describe_endpoint_group}
use aws_global_accelerator_c.Binding.Endpoints.{first_elements}
use aws_global_accelerator_c.Binding.Update.{
  finalizer, with_status, reconcile_create, reconcile_update,
}
use aws_global_accelerator_c.Binding.Delete.{
  is_group_gone, drop_finalizers, delete_endpoints, delete_unless_empty, reconcile_delete,
}
use aws_global_accelerator_c.Binding.Sync.{reconcile}
use aws_global_accelerator_c.Binding.Ledger.{Follows, At, JustGone}
use aws_global_accelerator_c.Binding.Refines.{quiet-Triple, new_aws-At, reconcile_update-At}
use aws_global_accelerator_c.Cloud.Types.{EndpointGroup, Request, Log, CloudService}
use aws_global_accelerator_c.Cloud.Exec.{throw, call, attempt, attempted}
use aws_global_accelerator_c.Cloud.Triple.{
  After, Triple, Triple-bind, Triple-pure, Triple-throw, Triple-call, Triple-always,
}
use aws_global_accelerator_c.Cloud.Rules.{After-both, Triple-before, Triple-weaken}
use aws_global_accelerator_c.Cloud.Keeps.{Keeps, Keeps-bind, Keeps-call, keeps_rules}
use aws_global_accelerator_c.Binding.Removes.{remove_loop-At}

module _ {W : Type 0} (cloud : CloudService W) (obj : EndpointGroupBinding) where
  drop_finalizers-Follows :
      obj.is_deleting ≡ true
      → Triple
          (λ log.
            Follows obj log
            × ((obj.status.endpoint_ids ≡ []) ⊎ JustGone obj.spec.endpoint_group_arn log))
          (drop_finalizers cloud obj)
          (λ _. Follows obj)
          (Follows obj)
  unfolding drop_finalizers
  drop_finalizers-Follows deleting =
      Triple-bind _ _
        (Triple-call cloud (Request.update_binding (record obj { finalizers = [] })) (λ r. r)
          (λ answer log h. After-both (Follows obj) answer _ (inr (deleting, refl, h.1), h.0)))
        (λ _. Triple-pure _ (λ log h. h))

  -- What is known of the endpoint group, or of the error in its place.
  abbrev Described : List Text → Error ⊎ EndpointGroup → Log → Type 0
  Described ids (inl e) log =
      Follows obj log
      × (is_group_gone (error_code e) ≡ true → JustGone obj.spec.endpoint_group_arn log)
  Described ids (inr group) log = At obj ids log

  described :
      (ids : List Text) (r : Result EndpointGroup) (log : Log)
      → At obj ids log
      → After (Described ids) (Follows obj) (attempted r) (
          record {
            request = Request.describe_endpoint_group obj.spec.endpoint_group_arn;
            answer = r;
          }
          ∷ log)
  described ids (ok group) log h = (h.0, (tt, h.1))
  described ids (err e) log h = ((tt, h.1), λ gone. rw (eq_refl obj.spec.endpoint_group_arn) gone)
  described ids panic log h = (tt, h.1)

  describe-At :
      (ids : List Text)
      → Triple
          (At obj ids)
          (attempt (describe_endpoint_group cloud obj.spec.endpoint_group_arn))
          (Described ids)
          (Follows obj)
  unfolding attempt describe_endpoint_group call
  describe-At ids = record { at = λ s p. described ids _ s.log p }

  gone_or_fails :
      (b : Bool) (e : Error)
      → obj.is_deleting ≡ true
      → Triple
          (λ log. Follows obj log × (b ≡ true → JustGone obj.spec.endpoint_group_arn log))
          (if b then drop_finalizers cloud obj else throw e)
          (λ _. Follows obj)
          (Follows obj)
  gone_or_fails true e deleting =
      Triple-before (λ log h. (h.0, inr (h.1 refl))) (drop_finalizers-Follows deleting)
  gone_or_fails false e deleting = Triple-throw e (λ log h. h.0)

  delete_endpoints-Follows :
      (found : Error ⊎ EndpointGroup)
      → obj.is_deleting ≡ true
      → Triple
          (Described obj.status.endpoint_ids found)
          (delete_endpoints cloud obj found)
          (λ _. Follows obj)
          (Follows obj)
  unfolding delete_endpoints
  delete_endpoints-Follows (inl e) deleting = gone_or_fails _ e deleting
  delete_endpoints-Follows (inr group) deleting =
      Triple-bind _ _ (remove_loop-At cloud obj group obj.status.endpoint_ids) (λ rest.
        let left = first_elements rest.array rest.length in
        Triple-bind _ _
          (quiet-Triple cloud obj (
            Keeps-call cloud (Request.update_binding_status (with_status obj left)) _
              (λ answer log h. (h.0, (ap (with_status obj) (sym h.0), h.1)))))
          (λ _. Triple-pure _ (λ log h. h.1)))

  delete_unless_empty-Follows :
      (ids : List Text)
      → obj.is_deleting ≡ true
      → obj.status.endpoint_ids ≡ ids
      → Triple
          (At obj obj.status.endpoint_ids)
          (delete_unless_empty cloud obj ids)
          (λ _. Follows obj)
          (Follows obj)
  unfolding delete_unless_empty
  delete_unless_empty-Follows [] deleting e =
      Triple-before (λ log h. (h.1, inl e)) (drop_finalizers-Follows deleting)
  delete_unless_empty-Follows (id ∷ ids) deleting e =
      Triple-bind _ _ (describe-At obj.status.endpoint_ids)
        (λ found. delete_endpoints-Follows found deleting)

  reconcile_create-Follows :
      obj.is_deleting ≡ false
      → obj.finalizers ≡ []
      → Keeps (At obj obj.status.endpoint_ids) (reconcile_create cloud obj)
  unfolding reconcile_create
  reconcile_create-Follows staying fresh =
      Keeps-bind _ _
        (Keeps-call cloud (Request.update_binding (record obj { finalizers = finalizer ∷ [] }))
          (λ r. r) (λ answer log h. (h.0, (inl (staying, fresh, refl), h.1))))
        (λ _. search keeps_rules)

  module _ (order weight_order : List Text → List Text) where
    phase-Follows :
        (deleting : Bool) (finalizers : List Text)
        → obj.is_deleting ≡ deleting
        → obj.finalizers ≡ finalizers
        → Triple
            (At obj obj.status.endpoint_ids)
            (if deleting then reconcile_delete cloud obj else elim finalizers [
              | [] ↦ reconcile_create cloud obj
              | _ ∷ _ ↦ reconcile_update cloud order weight_order obj
            ])
            (λ _. Follows obj)
            (Follows obj)
    unfolding reconcile_delete
    phase-Follows true finalizers d f = delete_unless_empty-Follows _ d refl
    phase-Follows false [] d f =
        Triple-weaken (λ _ log h. h.1) (λ log h. h)
          (quiet-Triple cloud obj (reconcile_create-Follows d f))
    phase-Follows false (_ ∷ _) d f = reconcile_update-At cloud obj order weight_order

    -- A round of the controller for a binding writes, whatever AWS and Kubernetes answer and whether
    -- it returns, fails or panics: the finalizer, only for an object without one that is not being
    -- deleted; the removal of the finalizers, only for one that is being deleted and whose status has
    -- no endpoint IDs or whose endpoint group AWS has just said not to exist; and a status, with the
    -- generation of the object as the observed one, and as its endpoint IDs those of the old status
    -- with the endpoints that the requests of this round have added appended and those that they
    -- have removed taken out, in their order. Of the object nothing else is changed.
    pub reconcile-Follows :
        (split_key : SplitKey) (w : W)
        → Follows obj
            (reconcile cloud order weight_order split_key obj
              (record { world = w; log = [] })).1.log
    unfolding reconcile
    reconcile-Follows split_key w =
        Triple-always _
          (Triple-bind _ _ (quiet-Triple cloud obj (new_aws-At cloud obj obj.status.endpoint_ids _))
            (λ _. phase-Follows obj.is_deleting obj.finalizers refl refl))
          (λ _ log h. h) (λ log h. h) (record { world = w; log = [] }) (refl, tt)
