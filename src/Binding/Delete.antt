-- ===== src/Binding/Delete.antt =====
-- `reconcileDelete`. The loop ranges over the slice that it deletes from: `endpointIds` and
-- `obj.Status.EndpointIds` share their array, and the number of rounds is taken once.
use aws_global_accelerator_c.Prelude.{
  ℕ, zero, suc, ◌+◌, Text, Bool, true, false, ◌⊎◌, inl, inr, Option, none, some, List, [], ◌∷◌,
  length, codes, ◌==◌, if◌then◌else◌,
}
use aws_global_accelerator_c.Errors.{Error, Result, panic, error_code}
use aws_global_accelerator_c.Apis.{EndpointGroupBinding}
use aws_global_accelerator_c.LoadBalancer.{index, get_region_from_arn}
use aws_global_accelerator_c.Reconcile.{Outcome, finished}
use aws_global_accelerator_c.Controller.{new_aws}
use aws_global_accelerator_c.Endpoint.{describe_endpoint_group, remove_lb_from_endpoint_group}
use aws_global_accelerator_c.Binding.Endpoints.{Slice, delete_at, first_elements}
use aws_global_accelerator_c.Binding.Update.{with_status}
use aws_global_accelerator_c.Cloud.Types.{EndpointGroup, Request, CloudService}
use aws_global_accelerator_c.Cloud.Exec.{Exec, pure, throw, lift, attempt, call, ◌>>=◌}

-- A slice expression out of range panics.
abbrev pub or_panic : Option Slice → Result Slice
or_panic none = panic
or_panic (some s) = Result.ok s

-- `awsErr.ErrorCode() == ErrEndpointGroupNotFoundException`
abbrev pub is_group_gone : Option Text → Bool
is_group_gone none = false
is_group_gone (some code) = code == codes "EndpointGroupNotFoundException"

module _ {W : Type 0} (cloud : CloudService W) where
  -- The finalizers are taken off, so Kubernetes drops the object.
  unfoldable pub drop_finalizers : EndpointGroupBinding → Exec W Outcome
  drop_finalizers obj = do
    _ ← call cloud (Request.update_binding (record obj { finalizers = [] })) (λ r. r)
    pure finished

  -- `rounds` rounds of the loop, from the index `i` on.
  unfoldable pub remove_loop : EndpointGroup → ℕ → ℕ → Slice → Exec W Slice
  remove_loop group zero i ids = pure ids
  remove_loop group (suc rounds) i ids = do
    id ← lift (index ids.array i)
    region ← lift (get_region_from_arn id)
    _ ← new_aws cloud region
    _ ← remove_lb_from_endpoint_group cloud group id
    ids' ← lift (or_panic (delete_at ids i))
    remove_loop group rounds (i + 1) ids'

  -- With the endpoint group, or the error that came in its place.
  unfoldable pub delete_endpoints : EndpointGroupBinding → Error ⊎ EndpointGroup → Exec W Outcome
  delete_endpoints obj (inl e) =
      if is_group_gone (error_code e) then drop_finalizers obj else throw e
  delete_endpoints obj (inr group) = do
    let ids = obj.status.endpoint_ids
    rest ← remove_loop group (length ids) 0 (record { array = ids; length = length ids })
    _ ←
        call cloud
          (Request.update_binding_status (with_status obj (first_elements rest.array rest.length)))
          (λ r. r)
    pure (record { requeue = true; requeue_after = 1 })

  -- With the endpoint IDs of the status.
  unfoldable pub delete_unless_empty : EndpointGroupBinding → List Text → Exec W Outcome
  delete_unless_empty obj [] = drop_finalizers obj
  delete_unless_empty obj (_ ∷ _) = do
    group ← attempt (describe_endpoint_group cloud obj.spec.endpoint_group_arn)
    delete_endpoints obj group

  -- `reconcileDelete`
  unfoldable pub reconcile_delete : EndpointGroupBinding → Exec W Outcome
  reconcile_delete obj = delete_unless_empty obj obj.status.endpoint_ids
