-- ===== src/Orderly/Harmless.antt =====
-- The requests that neither disable nor delete an accelerator, and the operations that send no
-- others: listing, updating and creating.
use aws_global_accelerator_c.Prelude.{
  Text, ◌⊎◌, inl, inr, List, [], ◌∷◌, refl, true, false, Bool, ◌≡◌,
}
use aws_global_accelerator_c.Errors.{Error, Result}
use aws_global_accelerator_c.Apis.{ObjectMeta}
use aws_global_accelerator_c.Listener.{Listener}
use aws_global_accelerator_c.Cloud.Types.{
  Accelerator, LoadBalancer, EndpointGroup, CloudService, Request, Answer, Log,
}
use aws_global_accelerator_c.Cloud.Exec.{call}
use aws_global_accelerator_c.Cloud.Keeps.{Keeps, keeps_rules, Admits, Keeps-admitted}
use aws_global_accelerator_c.Accelerator.{
  list_tags_for_accelerator, create_accelerator, update_accelerator, list_accelerator,
}
use aws_global_accelerator_c.Controller.Keeps.{is_local}
use aws_global_accelerator_c.Endpoint.{
  get_listener, create_listener, update_listener, get_endpoint_group, create_endpoint_group,
  update_endpoint_group,
}
use aws_global_accelerator_c.GlobalAccelerator.Lookup.{
  accelerator_changed, with_tags, list_global_accelerator_by_resource,
}
use aws_global_accelerator_c.GlobalAccelerator.Update.{
  Wanted, sync_accelerator, listener_or_create, sync_listener, endpoint_group_or_create,
  sync_endpoint_group, update_global_accelerator,
}
use aws_global_accelerator_c.GlobalAccelerator.Ensure.{
  create_wanted, create_endpoint, service_listener_created, ingress_listener_created,
  service_accelerator_created, ingress_accelerator_created,
}

abbrev pub is_harmless : Request → Bool
is_harmless (Request.update_accelerator arn false name) = false
is_harmless (Request.delete_accelerator arn) = false
is_harmless _ = true

-- Among them are those that a worker sends besides.
pub harmless_local : {P : Log → Type 0} → Admits is_harmless P → Admits is_local P
harmless_local admits (Request.load_config region) answer log h p = admits _ answer log refl p
harmless_local admits (Request.get_service ns name) answer log h p = admits _ answer log refl p
harmless_local admits (Request.get_ingress ns name) answer log h p = admits _ answer log refl p
harmless_local admits (Request.record_event obj reason m) answer log h p =
    admits _ answer log refl p
harmless_local admits _ answer log h p = cc

module _ {W : Type 0} (service : CloudService W) {P : Log → Type 0}
    (admits : Admits is_harmless P) where
  calls :
      {A : Type 0} (q : Request) (result : Answer q → Result A)
      → is_harmless q ≡ true
      → Keeps P (call service q result)
  calls q result h = Keeps-admitted service is_harmless admits q result h

  with_tags-Keeps :
      (target : List (Text × Text)) (accelerators res : List Accelerator)
      → Keeps P (with_tags service target accelerators res)
  unfolding with_tags list_tags_for_accelerator
  with_tags-Keeps target [] res = search keeps_rules
  with_tags-Keeps target (accelerator ∷ accelerators) res =
      search (keeps_rules, calls, with_tags-Keeps target accelerators)

  pub list_by_resource-Keeps :
      (cluster_name resource ns name : Text)
      → Keeps P (list_global_accelerator_by_resource service cluster_name resource ns name)
  unfolding list_global_accelerator_by_resource list_accelerator
  list_by_resource-Keeps cluster_name resource ns name =
      search (keeps_rules, calls, with_tags-Keeps)

  changed-Keeps :
      (accelerator : Accelerator) (hostname resource : Text) (obj : ObjectMeta)
      → Keeps P (accelerator_changed service accelerator hostname resource obj)
  unfolding accelerator_changed list_tags_for_accelerator
  changed-Keeps accelerator hostname resource obj = search (keeps_rules, calls)

  module _ (wanted : Wanted) (lb : LoadBalancer) where
    sync_accelerator-Keeps :
        (accelerator : Accelerator) → Keeps P (sync_accelerator service wanted lb accelerator)
    unfolding sync_accelerator update_accelerator
    sync_accelerator-Keeps accelerator = search (keeps_rules, calls, changed-Keeps) depth 9

    listener_or_create-Keeps :
        (accelerator : Accelerator) (found : Error ⊎ Listener)
        → Keeps P (listener_or_create service wanted lb accelerator found)
    unfolding listener_or_create create_listener
    listener_or_create-Keeps accelerator (inl e) = search (keeps_rules, calls)
    listener_or_create-Keeps accelerator (inr listener) = search keeps_rules

    sync_listener-Keeps : (listener : Listener) → Keeps P (sync_listener service wanted lb listener)
    unfolding sync_listener update_listener
    sync_listener-Keeps listener = search (keeps_rules, calls)

    group_or_create-Keeps :
        (region : Text) (listener : Listener) (found : Error ⊎ EndpointGroup)
        → Keeps P (endpoint_group_or_create service wanted lb region listener found)
    unfolding endpoint_group_or_create create_endpoint_group
    group_or_create-Keeps region listener (inl e) = search (keeps_rules, calls)
    group_or_create-Keeps region listener (inr endpoint) = search keeps_rules

    sync_group-Keeps :
        (endpoint : EndpointGroup) → Keeps P (sync_endpoint_group service wanted lb endpoint)
    unfolding sync_endpoint_group update_endpoint_group
    sync_group-Keeps endpoint = search (keeps_rules, calls)

    pub update-Keeps :
        (region : Text) (accelerator : Accelerator)
        → Keeps P (update_global_accelerator service wanted lb region accelerator)
    unfolding update_global_accelerator get_listener get_endpoint_group
    update-Keeps region accelerator =
        search
          (
            keeps_rules, calls, sync_accelerator-Keeps, listener_or_create-Keeps,
            sync_listener-Keeps, group_or_create-Keeps, sync_group-Keeps,
          )
          depth 12

    module _ (region : Text) where
      pub create_wanted-Keeps :
          (cluster_name : Text) → Keeps P (create_wanted service lb region wanted cluster_name)
      unfolding create_wanted create_accelerator
      create_wanted-Keeps cluster_name = search (keeps_rules, calls)

      create_endpoint-Keeps :
          (accelerator : Accelerator) (listener : Listener)
          → Keeps P (create_endpoint service lb region wanted accelerator listener)
      unfolding create_endpoint create_endpoint_group
      create_endpoint-Keeps accelerator listener = search (keeps_rules, calls)

      service_listener-Keeps :
          (accelerator : Accelerator) (found : Error ⊎ Listener)
          → Keeps P (service_listener_created service lb region wanted accelerator found)
      unfolding service_listener_created
      service_listener-Keeps accelerator (inl e) = search keeps_rules
      service_listener-Keeps accelerator (inr l) = search create_endpoint-Keeps

      ingress_listener-Keeps :
          (accelerator : Accelerator) (found : Error ⊎ Listener)
          → Keeps P (ingress_listener_created service lb region wanted accelerator found)
      unfolding ingress_listener_created
      ingress_listener-Keeps accelerator (inl e) = search keeps_rules
      ingress_listener-Keeps accelerator (inr l) = search create_endpoint-Keeps

      pub service_created-Keeps :
          (found : Error ⊎ Accelerator)
          → Keeps P (service_accelerator_created service lb region wanted found)
      unfolding service_accelerator_created create_listener
      service_created-Keeps (inl e) = search keeps_rules
      service_created-Keeps (inr accelerator) = search (keeps_rules, calls, service_listener-Keeps)

      pub ingress_created-Keeps :
          (found : Error ⊎ Accelerator)
          → Keeps P (ingress_accelerator_created service lb region wanted found)
      unfolding ingress_accelerator_created create_listener
      ingress_created-Keeps (inl e) = search keeps_rules
      ingress_created-Keeps (inr accelerator) = search (keeps_rules, calls, ingress_listener-Keeps)
