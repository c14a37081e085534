-- ===== src/GlobalAccelerator/Update.antt =====
-- `updateGlobalAcceleratorForService` and `updateGlobalAcceleratorForIngress`.
use aws_global_accelerator_c.Prelude.{
  ℕ, Text, Bool, ◌||◌, ◌⊎◌, inl, inr, List, codes, ◌==◌, get, if◌then◌else◌,
}
use aws_global_accelerator_c.Errors.{Error, is_listener_not_found, is_endpoint_group_not_found}
use aws_global_accelerator_c.Apis.{ObjectMeta, Service, Ingress, client_ip_preservation_annotation}
use aws_global_accelerator_c.Tags.{accelerator_name, accelerator_tags, accelerator_owner_tag_value}
use aws_global_accelerator_c.Listener.{
  Listener, Protocol, UnmarshalPorts, listener_for_service, listener_for_ingress,
  listener_protocol_changed_from_service, listener_port_changed_from_service,
  listener_protocol_changed_from_ingress, listener_port_changed_from_ingress,
}
use aws_global_accelerator_c.Cloud.Types.{Accelerator, LoadBalancer, EndpointGroup, CloudService}
use aws_global_accelerator_c.Cloud.Exec.{Exec, pure, throw, attempt, ◌>>=◌}
use aws_global_accelerator_c.Accelerator.{update_accelerator}
use aws_global_accelerator_c.Endpoint.{
  get_listener, create_listener, update_listener, get_endpoint_group, create_endpoint_group,
  update_endpoint_group, endpoint_contains_lb,
}
use aws_global_accelerator_c.GlobalAccelerator.Lookup.{accelerator_changed}

-- What the two functions read of their object: its kind, its metadata, the ports and protocol that
-- its listener wants, and the test for a changed listener.
pub record Wanted : Type 0 where
  pub resource : Text
  pub meta : ObjectMeta
  pub ports : List ℕ
  pub protocol : Protocol
  pub listener_changed : Listener → Bool

unfoldable pub wanted_for_service : Service → Wanted
wanted_for_service svc = record {
  resource = codes "service";
  meta = svc.meta;
  ports = (listener_for_service svc).0;
  protocol = (listener_for_service svc).1;
  listener_changed =
      λ l. listener_protocol_changed_from_service l svc || listener_port_changed_from_service l svc;
}

unfoldable pub wanted_for_ingress : UnmarshalPorts → Ingress → Wanted
wanted_for_ingress unmarshal ingress = record {
  resource = codes "ingress";
  meta = ingress.meta;
  ports = (listener_for_ingress unmarshal ingress).0;
  protocol = (listener_for_ingress unmarshal ingress).1;
  listener_changed = λ l.
      listener_protocol_changed_from_ingress l
      || listener_port_changed_from_ingress unmarshal l ingress;
}

-- `obj.Annotations[apis.ClientIPPreservationAnnotation] == "true"`
unfoldable pub ip_preserve : ObjectMeta → Bool
ip_preserve obj = get client_ip_preservation_annotation obj.annotations == codes "true"

module _ {W : Type 0} (service : CloudService W) (wanted : Wanted) (lb : LoadBalancer) where
  -- The accelerator's name, its being enabled, and its tags.
  unfoldable pub sync_accelerator : Accelerator → Exec W (Unit {0})
  sync_accelerator accelerator = do
    changed ← accelerator_changed service accelerator lb.dns_name wanted.resource wanted.meta
    if changed
        then (do
          _ ←
              update_accelerator service accelerator.accelerator_arn
                (accelerator_name wanted.resource wanted.meta)
                (accelerator_owner_tag_value wanted.resource wanted.meta.namespace wanted.meta.name)
                lb.dns_name (accelerator_tags wanted.meta)
          pure tt)
        else pure tt

  -- The listener that there is, or a new one if there is none.
  unfoldable pub listener_or_create : Accelerator → Error ⊎ Listener → Exec W Listener
  listener_or_create accelerator (inr listener) = pure listener
  listener_or_create accelerator (inl e) =
      if is_listener_not_found e
      then create_listener service accelerator wanted.ports wanted.protocol
      else throw e

  -- The listener after its update, if it needs one.
  unfoldable pub sync_listener : Listener → Exec W Listener
  sync_listener listener =
      if wanted.listener_changed listener
      then update_listener service listener wanted.ports wanted.protocol
      else pure listener

  -- The endpoint group that there is, or a new one if there is none.
  unfoldable pub endpoint_group_or_create :
      Text → Listener → Error ⊎ EndpointGroup → Exec W EndpointGroup
  endpoint_group_or_create region listener (inr endpoint) = pure endpoint
  endpoint_group_or_create region listener (inl e) =
      if is_endpoint_group_not_found e
      then create_endpoint_group service listener lb.load_balancer_arn region
          (ip_preserve wanted.meta)
      else throw e

  unfoldable pub sync_endpoint_group : EndpointGroup → Exec W (Unit {0})
  sync_endpoint_group endpoint = if endpoint_contains_lb endpoint lb then pure tt else do
    _ ← update_endpoint_group service endpoint lb.load_balancer_arn (ip_preserve wanted.meta)
    pure tt

  -- The body that the two functions have in common.
  unfoldable pub update_global_accelerator : Text → Accelerator → Exec W (Unit {0})
  update_global_accelerator region accelerator = do
    _ ← sync_accelerator accelerator
    found ← attempt (get_listener service accelerator.accelerator_arn)
    listener ← listener_or_create accelerator found
    listener' ← sync_listener listener
    found' ← attempt (get_endpoint_group service listener'.listener_arn)
    endpoint ← endpoint_group_or_create region listener' found'
    sync_endpoint_group endpoint

module _ {W : Type 0} (service : CloudService W) where
  -- `updateGlobalAcceleratorForService`
  unfoldable pub update_global_accelerator_for_service :
      Accelerator → LoadBalancer → Service → Text → Exec W (Unit {0})
  update_global_accelerator_for_service accelerator lb svc region =
      update_global_accelerator service (wanted_for_service svc) lb region accelerator

  -- `updateGlobalAcceleratorForIngress`
  unfoldable pub update_global_accelerator_for_ingress :
      UnmarshalPorts → Accelerator → LoadBalancer → Ingress → Text → Exec W (Unit {0})
  update_global_accelerator_for_ingress unmarshal accelerator lb ingress region =
      update_global_accelerator service (wanted_for_ingress unmarshal ingress) lb region accelerator
