-- ===== src/GlobalAccelerator/Ensure.antt =====
-- `EnsureGlobalAcceleratorForService`, `EnsureGlobalAcceleratorForIngress` and what they create.
use aws_global_accelerator_c.Prelude.{
  ℕ, Text, Bool, true, false, not, ◌⊎◌, inl, inr, Option, none, some, List, [], ◌∷◌, ◌++◌, codes,
  ◌==◌, get, if◌then◌else◌,
}
use aws_global_accelerator_c.Errors.{Error, errorf}
use aws_global_accelerator_c.Apis.{
  ObjectMeta, Service, Ingress, LoadBalancerIngress, ip_address_type_annotation,
}
use aws_global_accelerator_c.Tags.{accelerator_name, accelerator_tags, accelerator_owner_tag_value}
use aws_global_accelerator_c.Listener.{Listener, UnmarshalPorts}
use aws_global_accelerator_c.Cloud.Types.{Accelerator, LoadBalancer, EndpointGroup, CloudService}
use aws_global_accelerator_c.Cloud.Exec.{Exec, pure, throw, attempt, ◌>>=◌, ◌>>◌}
use aws_global_accelerator_c.Accelerator.{create_accelerator}
use aws_global_accelerator_c.Endpoint.{
  get_load_balancer, is_active, create_listener, create_endpoint_group,
}
use aws_global_accelerator_c.GlobalAccelerator.Lookup.{list_global_accelerator_by_resource}
use aws_global_accelerator_c.GlobalAccelerator.Cleanup.{cleanup_global_accelerator}
use aws_global_accelerator_c.GlobalAccelerator.Update.{
  Wanted, wanted_for_service, wanted_for_ingress, ip_preserve,
  update_global_accelerator_for_service, update_global_accelerator_for_ingress,
}

-- `(*string, error)` of the two functions that create: an ARN may come with an error.
pub record Created : Type 0 where
  pub arn : Option Text
  pub error : Option Error

-- `(*string, bool, time.Duration)`; the duration in seconds.
pub record Ensured : Type 0 where
  pub arn : Option Text
  pub created : Bool
  pub retry_after : ℕ

abbrev pub with_endpoint : Accelerator → Error ⊎ EndpointGroup → Created
with_endpoint accelerator (inl e) = record {
  arn = some accelerator.accelerator_arn;
  error = some e;
}
with_endpoint accelerator (inr endpoint) = record {
  arn = some accelerator.accelerator_arn;
  error = none;
}

module _ {W : Type 0} (service : CloudService W) (lb : LoadBalancer) (region : Text)
    (wanted : Wanted) where
  -- The first step of both functions.
  unfoldable pub create_wanted : Text → Exec W (Error ⊎ Accelerator)
  create_wanted cluster_name = attempt (
      create_accelerator service (accelerator_name wanted.resource wanted.meta) cluster_name
        (accelerator_owner_tag_value wanted.resource wanted.meta.namespace wanted.meta.name)
        lb.dns_name (get ip_address_type_annotation wanted.meta.annotations)
        (accelerator_tags wanted.meta))

  -- The last step of both.
  unfoldable pub create_endpoint : Accelerator → Listener → Exec W Created
  create_endpoint accelerator listener = do
    endpoint ← attempt (
        create_endpoint_group service listener lb.load_balancer_arn region
          (ip_preserve wanted.meta))
    pure (with_endpoint accelerator endpoint)

  -- After `createListener`, for a service: its error is returned with the ARN.
  unfoldable pub service_listener_created : Accelerator → Error ⊎ Listener → Exec W Created
  service_listener_created accelerator (inl e) =
      pure (record { arn = some accelerator.accelerator_arn; error = some e })
  service_listener_created accelerator (inr listener) = create_endpoint accelerator listener

  -- After `createListener`, for an ingress: `return accelerator.AcceleratorArn, nil`.
  unfoldable pub ingress_listener_created : Accelerator → Error ⊎ Listener → Exec W Created
  ingress_listener_created accelerator (inl e) =
      pure (record { arn = some accelerator.accelerator_arn; error = none })
  ingress_listener_created accelerator (inr listener) = create_endpoint accelerator listener

  unfoldable pub service_accelerator_created : Error ⊎ Accelerator → Exec W Created
  service_accelerator_created (inl e) = pure (record { arn = none; error = some e })
  service_accelerator_created (inr accelerator) = do
    listener ← attempt (create_listener service accelerator wanted.ports wanted.protocol)
    service_listener_created accelerator listener

  unfoldable pub ingress_accelerator_created : Error ⊎ Accelerator → Exec W Created
  ingress_accelerator_created (inl e) = pure (record { arn = none; error = some e })
  ingress_accelerator_created (inr accelerator) = do
    listener ← attempt (create_listener service accelerator wanted.ports wanted.protocol)
    ingress_listener_created accelerator listener

module _ {W : Type 0} (service : CloudService W) where
  -- `createGlobalAcceleratorForService`
  unfoldable pub create_global_accelerator_for_service :
      LoadBalancer → Service → Text → Text → Exec W Created
  create_global_accelerator_for_service lb svc cluster_name region = do
    accelerator ← create_wanted service lb region (wanted_for_service svc) cluster_name
    service_accelerator_created service lb region (wanted_for_service svc) accelerator

  -- `createGlobalAcceleratorForIngress`
  unfoldable pub create_global_accelerator_for_ingress :
      UnmarshalPorts → LoadBalancer → Ingress → Text → Text → Exec W Created
  create_global_accelerator_for_ingress unmarshal lb ingress cluster_name region = do
    accelerator ←
        create_wanted service lb region (wanted_for_ingress unmarshal ingress) cluster_name
    ingress_accelerator_created service lb region (wanted_for_ingress unmarshal ingress) accelerator

  -- The cleanup after a failed creation; its error is dropped.
  unfoldable pub cleanup_created : ℕ → Option Text → Exec W (Unit {0})
  cleanup_created attempts none = pure tt
  cleanup_created attempts (some arn) = do
    _ ← attempt (cleanup_global_accelerator service attempts arn)
    pure tt

  -- The branch `len(accelerators) == 0` after the creation.
  unfoldable pub after_create : ℕ → Created → Exec W Ensured
  after_create attempts created = elim created.error [
    | none ↦ pure (record { arn = created.arn; created = true; retry_after = 0 })
    | some e ↦ cleanup_created attempts created.arn >> throw e
  ]

  -- The loop over the accelerators that there are.
  unfoldable pub update_each :
      (Accelerator → Exec W (Unit {0})) → List Accelerator → Exec W (Unit {0})
  update_each update [] = pure tt
  update_each update (accelerator ∷ accelerators) = do
    _ ← update accelerator
    update_each update accelerators

  -- The two functions from the accelerators of the resource on.
  unfoldable pub create_or_update :
      ℕ → Exec W Created → (Accelerator → Exec W (Unit {0})) → List Accelerator → Exec W Ensured
  create_or_update attempts create update [] = do created ← create; after_create attempts created
  create_or_update attempts create update (first ∷ rest) = do
    _ ← update_each update (first ∷ rest)
    pure (record { arn = some first.accelerator_arn; created = false; retry_after = 0 })

  -- The two functions up to the accelerators of the resource.
  unfoldable pub ensure_with :
      ℕ
      → (LoadBalancer → Exec W Created)
      → (LoadBalancer → Accelerator → Exec W (Unit {0}))
      → Text
      → ObjectMeta
      → LoadBalancerIngress
      → Text
      → Text
      → Text
      → Exec W Ensured
  ensure_with attempts create update resource meta lb_ingress cluster_name lb_name region = do
    lb ← get_load_balancer service region lb_name
    if not (lb.dns_name == lb_ingress.hostname)
        then throw (errorf (codes "LoadBalancer's DNS name is not matched: " ++ lb.dns_name))
        else if not (is_active lb.state)
        then pure (record { arn = none; created = false; retry_after = 30 })
        else (do
          accelerators ←
              list_global_accelerator_by_resource service cluster_name resource meta.namespace
                meta.name
          create_or_update attempts (create lb) (update lb) accelerators)

  -- `EnsureGlobalAcceleratorForService`
  unfoldable pub ensure_global_accelerator_for_service :
      ℕ → Service → LoadBalancerIngress → Text → Text → Text → Exec W Ensured
  ensure_global_accelerator_for_service attempts svc lb_ingress cluster_name lb_name region =
      ensure_with attempts (λ lb. create_global_accelerator_for_service lb svc cluster_name region)
        (λ lb accelerator. update_global_accelerator_for_service service accelerator lb svc region)
        (codes "service") svc.meta lb_ingress cluster_name lb_name region

  -- `EnsureGlobalAcceleratorForIngress`
  unfoldable pub ensure_global_accelerator_for_ingress :
      ℕ → UnmarshalPorts → Ingress → LoadBalancerIngress → Text → Text → Text → Exec W Ensured
  ensure_global_accelerator_for_ingress attempts unmarshal ingress lb_ingress cluster_name lb_name
        region =
      ensure_with attempts
        (λ lb. create_global_accelerator_for_ingress unmarshal lb ingress cluster_name region)
        (λ lb accelerator.
          update_global_accelerator_for_ingress service unmarshal accelerator lb ingress region)
        (codes "ingress") ingress.meta lb_ingress cluster_name lb_name region
