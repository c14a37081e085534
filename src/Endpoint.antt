-- ===== src/Endpoint.antt =====
-- pkg/cloudprovider/aws/global_accelerator.go, "Listener methods" and "EndpointGroup methods", and
-- pkg/cloudprovider/aws/load_balancer.go, `GetLoadBalancer`.
use aws_global_accelerator_c.Prelude.{
  ℕ, Text, Bool, true, false, Option, none, some, List, [], ◌∷◌, ◌++◌, codes, ◌==◌, contains,
  if◌then◌else◌,
}
use aws_global_accelerator_c.Errors.{
  Error, Result, ok, err, errorf, listener_not_found, endpoint_group_not_found,
}
use aws_global_accelerator_c.Listener.{Listener, Protocol, port_ranges}
use aws_global_accelerator_c.Cloud.Types.{
  Accelerator, LoadBalancer, LoadBalancerState, active, EndpointGroup, EndpointConfiguration,
  ListenerInput, no_affinity, Request, CloudService, Pages,
}
use aws_global_accelerator_c.Cloud.Exec.{Exec, pure, call, read_pages, ◌>>=◌}

-- None is one error, several are another.
abbrev pub only_one : {A : Type 0} → Error → Text → List A → Result A
only_one missing many [] = err missing
only_one missing many (x ∷ []) = ok x
only_one missing many _ = err (errorf many)

abbrev pub joined : {A B : Type 0} → (List A → Result B) → Pages A → Result B
joined f pages = elim (read_pages pages []) [
  | ok found ↦ f found
  | err e ↦ err e
  | Result.panic ↦ Result.panic
]

abbrev pub one_listener : List Listener → Result Listener
one_listener = only_one listener_not_found (codes "Too many listeners")

abbrev pub one_endpoint_group : List EndpointGroup → Result EndpointGroup
one_endpoint_group = only_one endpoint_group_not_found (codes "Too many endpoint groups")

-- What `createListener` and `updateListener` send.
unfoldable pub listener_input : List ℕ → Protocol → ListenerInput
unfolding port_ranges
listener_input ports protocol = record {
  client_affinity = no_affinity;
  port_ranges = port_ranges ports;
  protocol = protocol;
}

-- One endpoint with client IP preservation, and the weight if one is sent.
abbrev pub configuration : Text → Option Bool → Option ℕ → EndpointConfiguration
configuration endpoint_id ip_preserve weight = record {
  endpoint_id = endpoint_id;
  client_ip_preservation_enabled = ip_preserve;
  weight = weight;
}

-- `endpointContainsLB`
unfoldable pub endpoint_contains_lb : EndpointGroup → LoadBalancer → Bool
unfolding contains
endpoint_contains_lb endpoint lb = contains lb.load_balancer_arn endpoint.endpoint_ids

abbrev pub first_endpoint : List Text → Result Text
first_endpoint [] = err (errorf (codes "No endpoint is added"))
first_endpoint (id ∷ ids) = ok id

-- The loop of `GetLoadBalancer`.
abbrev find_load_balancer : Text → List LoadBalancer → Result LoadBalancer
find_load_balancer name [] = err (errorf (codes "Could not find LoadBalancer: " ++ name))
find_load_balancer name (lb ∷ lbs) =
    if lb.load_balancer_name == name then ok lb else find_load_balancer name lbs

abbrev found_load_balancer : Text → Result (List LoadBalancer) → Result LoadBalancer
found_load_balancer name (ok lbs) = find_load_balancer name lbs
found_load_balancer name (err e) = err e
found_load_balancer name Result.panic = Result.panic

abbrev pub added_endpoint : Result (List Text) → Result Text
added_endpoint (ok ids) = first_endpoint ids
added_endpoint (err e) = err e
added_endpoint Result.panic = Result.panic

-- What `AddLBToEndpointGroup` returns: the endpoint, and the seconds to wait.
pub record Added : Type 0 where
  pub endpoint_id : Option Text
  pub retry_after : ℕ

abbrev pub is_active : LoadBalancerState → Bool
is_active active = true
is_active _ = false

module _ {W : Type 0} (service : CloudService W) where
  -- `GetLoadBalancer`, with the region of the client.
  unfoldable pub get_load_balancer : Text → Text → Exec W LoadBalancer
  get_load_balancer region name =
      call service (Request.describe_load_balancers region (name ∷ [])) (found_load_balancer name)

  -- `GetListener`: one request for each page, all of them one event of the log.
  unfoldable pub get_listener : Text → Exec W Listener
  get_listener accelerator_arn =
      call service (Request.list_listeners accelerator_arn 100) (joined one_listener)

  -- `createListener`
  unfoldable pub create_listener : Accelerator → List ℕ → Protocol → Exec W Listener
  create_listener accelerator ports protocol =
      call service
        (Request.create_listener accelerator.accelerator_arn (listener_input ports protocol))
        (λ r. r)

  -- `updateListener`
  unfoldable pub update_listener : Listener → List ℕ → Protocol → Exec W Listener
  update_listener listener ports protocol =
      call service (Request.update_listener listener.listener_arn (listener_input ports protocol))
        (λ r. r)

  -- `deleteListener`
  unfoldable pub delete_listener : Text → Exec W (Unit {0})
  delete_listener arn = call service (Request.delete_listener arn) (λ r. r)

  -- `DescribeEndpointGroup`
  unfoldable pub describe_endpoint_group : Text → Exec W EndpointGroup
  describe_endpoint_group arn = call service (Request.describe_endpoint_group arn) (λ r. r)

  -- `GetEndpointGroup`: likewise.
  unfoldable pub get_endpoint_group : Text → Exec W EndpointGroup
  get_endpoint_group listener_arn =
      call service (Request.list_endpoint_groups listener_arn 100) (joined one_endpoint_group)

  -- `addEndpoint`
  unfoldable pub add_endpoint : Text → Text → Bool → Option ℕ → Exec W Text
  add_endpoint arn lb_arn ip_preserve weight =
      call service (Request.add_endpoints arn (configuration lb_arn (some ip_preserve) weight ∷ []))
        added_endpoint

  -- `updateEndpointWeight`
  unfoldable pub update_endpoint_weight : Text → Text → Option ℕ → Exec W (Unit {0})
  update_endpoint_weight arn endpoint_id weight = do
    _ ←
        call service
          (Request.update_endpoint_group arn (configuration endpoint_id none weight ∷ [])) (λ r. r)
    pure tt

  -- `removeEndpoint`
  unfoldable pub remove_endpoint : Text → Text → Exec W (Unit {0})
  remove_endpoint arn endpoint_id =
      call service (Request.remove_endpoints arn (endpoint_id ∷ [])) (λ r. r)

  -- `createEndpointGroup`
  unfoldable pub create_endpoint_group : Listener → Text → Text → Bool → Exec W EndpointGroup
  create_endpoint_group listener lb_arn region ip_preserve =
      call service
        (Request.create_endpoint_group listener.listener_arn region
          (configuration lb_arn (some ip_preserve) none ∷ []))
        (λ r. r)

  -- `updateEndpointGroup`
  unfoldable pub update_endpoint_group : EndpointGroup → Text → Bool → Exec W EndpointGroup
  update_endpoint_group endpoint lb_arn ip_preserve =
      call service
        (Request.update_endpoint_group endpoint.endpoint_group_arn
          (configuration lb_arn (some ip_preserve) none ∷ []))
        (λ r. r)

  -- `deleteEndpointGroup`
  unfoldable pub delete_endpoint_group : Text → Exec W (Unit {0})
  delete_endpoint_group arn = call service (Request.delete_endpoint_group arn) (λ r. r)

  -- `AddLBToEndpointGroup`
  unfoldable pub add_lb_to_endpoint_group :
      Text → EndpointGroup → Text → Bool → Option ℕ → Exec W Added
  add_lb_to_endpoint_group region endpoint_group lb_name ip_preserve weight = do
    lb ← get_load_balancer region lb_name
    if is_active lb.state
        then (do
          id ←
              add_endpoint endpoint_group.endpoint_group_arn lb.load_balancer_arn ip_preserve weight
          pure (record { endpoint_id = some id; retry_after = 0 }))
        else pure (record { endpoint_id = none; retry_after = 30 })

  -- `RemoveLBFromEdnpointGroup`
  unfoldable pub remove_lb_from_endpoint_group : EndpointGroup → Text → Exec W (Unit {0})
  remove_lb_from_endpoint_group endpoint_group endpoint_id =
      remove_endpoint endpoint_group.endpoint_group_arn endpoint_id

  -- `UpdateEndpointWeight`
  unfoldable pub update_weight : EndpointGroup → Text → Option ℕ → Exec W (Unit {0})
  update_weight endpoint_group endpoint_id weight =
      update_endpoint_weight endpoint_group.endpoint_group_arn endpoint_id weight
