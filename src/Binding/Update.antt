-- ===== src/Binding/Update.antt =====
-- `getLoadBalancerHostName`, `reconcileCreate` and `reconcileUpdate`. A Go map is ranged over in an
-- order of the runtime's choice: `order` and `weight_order` give the orders of the two loops.
use aws_global_accelerator_c.Prelude.{
  Text, Dict, Bool, true, false, ◌&&◌, ◌⊎◌, inl, inr, Option, none, some, List, [], ◌∷◌, ◌++◌, map,
  codes, insert, get, ltb, nat_beq, if◌then◌else◌,
}
use aws_global_accelerator_c.Errors.{panic}
use aws_global_accelerator_c.Apis.{EndpointGroupBinding, LoadBalancerIngress}
use aws_global_accelerator_c.LoadBalancer.{get_lb_name_from_hostname}
use aws_global_accelerator_c.Reconcile.{Outcome, finished}
use aws_global_accelerator_c.Controller.{new_aws}
use aws_global_accelerator_c.Endpoint.{
  get_load_balancer, describe_endpoint_group, add_lb_to_endpoint_group,
  remove_lb_from_endpoint_group, update_weight,
}
use aws_global_accelerator_c.Binding.Endpoints.{
  keys, new_endpoint_ids, removed_endpoint_ids, delete_id,
}
use aws_global_accelerator_c.Cloud.Types.{EndpointGroup, Request, CloudService}
use aws_global_accelerator_c.Cloud.Exec.{Exec, pure, lift, call, ◌>>=◌}

abbrev pub finalizer : Text
finalizer = codes "operator.h3poteto.dev/endpointgroupbindings"

abbrev hostnames_of : List LoadBalancerIngress → List Text
hostnames_of = map (λ i. i.hostname)

abbrev is_nil : List Text → Bool
is_nil [] = true
is_nil (x ∷ xs) = false

-- The variables of the first loop: the ARNs with their names, and the client of the last region.
pub record Found : Type 0 where
  pub arns : Dict
  pub regional : Option Text

-- The status that the last step writes.
abbrev pub with_status : EndpointGroupBinding → List Text → EndpointGroupBinding
with_status obj results = record obj {
  status = record { endpoint_ids = results; observed_generation = obj.generation };
}

module _ {W : Type 0} (cloud : CloudService W) where
  unfoldable pub ingress_hostnames : EndpointGroupBinding → Exec W (List Text)
  ingress_hostnames obj = elim obj.spec.ingress_ref [
    | none ↦ pure []
    | some name ↦ do
      ing ← call cloud (Request.get_ingress obj.meta.namespace name) (λ r. r)
      pure (hostnames_of ing.lb_ingress)
  ]

  -- `getLoadBalancerHostName`: the service comes first; with no reference there is no name.
  unfoldable pub get_load_balancer_host_name : EndpointGroupBinding → Exec W (List Text)
  get_load_balancer_host_name obj = elim obj.spec.service_ref [
    | none ↦ ingress_hostnames obj
    | some name ↦ do
      svc ← call cloud (Request.get_service obj.meta.namespace name) (λ r. r)
      pure (hostnames_of svc.lb_ingress)
  ]

  -- `reconcileCreate`
  unfoldable pub reconcile_create : EndpointGroupBinding → Exec W Outcome
  reconcile_create obj = do
    _ ← call cloud (Request.update_binding (record obj { finalizers = finalizer ∷ [] })) (λ r. r)
    pure finished

  -- The first loop of `reconcileUpdate`.
  unfoldable pub find_load_balancers : List Text → Found → Exec W Found
  find_load_balancers [] found = pure found
  find_load_balancers (hostname ∷ hostnames) found = do
    parts ← lift (get_lb_name_from_hostname hostname)
    region ← new_aws cloud parts.1
    lb ← get_load_balancer cloud region parts.0
    find_load_balancers hostnames
        (record { arns = insert lb.load_balancer_arn parts.0 found.arns; regional = some region })

  -- A method of `regionalCloud`: a nil client panics.
  unfoldable pub regional_client : Option Text → Exec W Text
  regional_client none = lift panic
  regional_client (some region) = pure region

  module _ (found : Found) (group : EndpointGroup) where
    unfoldable pub remove_endpoints : List Text → List Text → Exec W (List Text)
    remove_endpoints [] results = pure results
    remove_endpoints (id ∷ ids) results = do
      _ ← regional_client found.regional
      _ ← remove_lb_from_endpoint_group cloud group id
      remove_endpoints ids (delete_id id results)

    abbrev pub append_id : List Text → Option Text → List Text
    append_id results none = results
    append_id results (some id) = results ++ (id ∷ [])

    -- A load balancer that is not active ends the round: come back later.
    unfoldable pub add_endpoints :
        EndpointGroupBinding → List Text → List Text → Exec W (Outcome ⊎ List Text)
    add_endpoints obj [] results = pure (inr results)
    add_endpoints obj (id ∷ ids) results = do
      region ← regional_client found.regional
      added ←
          add_lb_to_endpoint_group cloud region group (get id found.arns)
            obj.spec.client_ip_preservation obj.spec.weight
      if ltb 0 added.retry_after
          then pure (inl (record { requeue = true; requeue_after = added.retry_after }))
          else add_endpoints obj ids (append_id results added.endpoint_id)

    unfoldable pub update_weights : EndpointGroupBinding → List Text → Exec W (Unit {0})
    update_weights obj [] = pure tt
    update_weights obj (id ∷ ids) = do
      _ ← regional_client found.regional
      _ ← update_weight cloud group id obj.spec.weight
      update_weights obj ids

    -- After the second loop.
    unfoldable pub finish_update :
        EndpointGroupBinding → List Text → Outcome ⊎ List Text → Exec W Outcome
    finish_update obj ids (inl outcome) = pure outcome
    finish_update obj ids (inr results) = do
      _ ← update_weights obj ids
      _ ← call cloud (Request.update_binding_status (with_status obj results)) (λ r. r)
      pure finished

    -- `reconcileUpdate` from the endpoint group on.
    unfoldable pub apply_update :
        EndpointGroupBinding → List Text → List Text → List Text → Exec W Outcome
    apply_update obj removed added ids = do
      results ← remove_endpoints removed obj.status.endpoint_ids
      results' ← add_endpoints obj added results
      finish_update obj ids results'

  -- Nothing is done if there is nothing to add or to remove and the generation was handled.
  unfoldable pub update_unless_done :
      EndpointGroupBinding → Found → List Text → List Text → List Text → Exec W Outcome
  update_unless_done obj found removed added ids =
      if is_nil added && (is_nil removed && nat_beq obj.status.observed_generation obj.generation)
      then pure finished
      else do
        group ← describe_endpoint_group cloud obj.spec.endpoint_group_arn
        apply_update found group obj removed added ids

  module _ (order weight_order : List Text → List Text) where
    -- `reconcileUpdate` from the load balancers on.
    unfoldable pub update_found : EndpointGroupBinding → Found → Exec W Outcome
    update_found obj found =
        let arns = keys found.arns in
        let added = new_endpoint_ids (order arns) obj.status.endpoint_ids in
        let removed = removed_endpoint_ids arns obj.status.endpoint_ids in
        update_unless_done obj found removed added (weight_order arns)

    -- `reconcileUpdate`
    unfoldable pub reconcile_update : EndpointGroupBinding → Exec W Outcome
    reconcile_update obj = do
      hostnames ← get_load_balancer_host_name obj
      found ← find_load_balancers hostnames (record { arns = []; regional = none })
      update_found obj found
