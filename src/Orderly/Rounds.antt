-- ===== src/Orderly/Rounds.antt =====
-- The rounds of the accelerator controller's workers keep what the requests keep that neither disable
-- nor delete an accelerator, if creating and cleaning up keep it.
use aws_global_accelerator_c.Prelude.{ℕ, Text, Option, none, some, List, [], ◌∷◌, true, ◌≡◌}
use aws_global_accelerator_c.Errors.{Result}
use aws_global_accelerator_c.Apis.{ObjectMeta, Service, Ingress, LoadBalancerIngress}
use aws_global_accelerator_c.Listener.{UnmarshalPorts}
use aws_global_accelerator_c.Cloud.Types.{CloudService, Request, Answer, Log, LoadBalancer}
use aws_global_accelerator_c.Cloud.Exec.{Exec, call, ◌>>=◌}
use aws_global_accelerator_c.Cloud.Keeps.{Keeps, keeps_rules, Admits, Keeps-admitted}
use aws_global_accelerator_c.Reconcile.{Item}
use aws_global_accelerator_c.GlobalAccelerator.Ensure.{
  Ensured, create_global_accelerator_for_service, create_global_accelerator_for_ingress,
  after_create, ensure_global_accelerator_for_service, ensure_global_accelerator_for_ingress,
}
use aws_global_accelerator_c.Controller.{
  RuntimeObject, service, ingress, SplitKey, Step, step_or, each_load_balancer,
}
use aws_global_accelerator_c.Controller.Accelerators.{
  cleanup_resource, process_delete, process_unmanaged, process_managed, created_event, after_ensure,
  service_step, ingress_step, process_service_create_or_update, process_ingress_create_or_update,
  service_round, ingress_round, process_service_delete, process_ingress_delete,
}
use aws_global_accelerator_c.Controller.Workers.{key_to_service, key_to_ingress}
use aws_global_accelerator_c.Controller.Keeps.{
  each-Keeps, step_or-Keeps, round-Keeps, service_at-Keeps, ingress_at-Keeps,
}
use aws_global_accelerator_c.Orderly.Harmless.{is_harmless, harmless_local}
use aws_global_accelerator_c.Orderly.Handlers.{ensure_service-Keeps, ensure_ingress-Keeps}

module _ {W : Type 0} (cloud : CloudService W) (attempts : ℕ) (cluster_name : Text)
    {P : Log → Type 0} (admits : Admits is_harmless P)
    (cleans : (resource ns name : Text)
      → Keeps P (cleanup_resource cloud attempts cluster_name resource ns name))
    (creates_service : (svc : Service) (lb : LoadBalancer) (region : Text)
      → Keeps P (
          create_global_accelerator_for_service cloud lb svc cluster_name region
          >>= after_create cloud attempts))
    (creates_ingress : (unmarshal : UnmarshalPorts) (ing : Ingress) (lb : LoadBalancer)
        (region : Text)
      → Keeps P (
          create_global_accelerator_for_ingress cloud unmarshal lb ing cluster_name region
          >>= after_create cloud attempts)) where
  calls :
      {A : Type 0} (q : Request) (result : Answer q → Result A)
      → is_harmless q ≡ true
      → Keeps P (call cloud q result)
  calls q result h = Keeps-admitted cloud is_harmless admits q result h

  steps : (step : Step) (rest : Exec W Step) → Keeps P rest → Keeps P (step_or cloud step rest)
  steps = step_or-Keeps cloud (harmless_local admits)

  eaches :
      (handle : LoadBalancerIngress → Text → Text → Exec W Step)
      → ((i : LoadBalancerIngress) (name region : Text) → Keeps P (handle i name region))
      → (is : List LoadBalancerIngress) → Keeps P (each_load_balancer cloud handle is)
  eaches handle k is = each-Keeps cloud (harmless_local admits) handle k is

  ensures_service :
      (svc : Service) (lb_ingress : LoadBalancerIngress) (lb_name region : Text)
      → Keeps P (
          ensure_global_accelerator_for_service cloud attempts svc lb_ingress cluster_name lb_name
            region)
  ensures_service svc lb_ingress lb_name region =
      ensure_service-Keeps cloud admits attempts svc lb_ingress cluster_name lb_name region
        (λ lb. creates_service svc lb region)

  ensures_ingress :
      (unmarshal : UnmarshalPorts) (ing : Ingress) (lb_ingress : LoadBalancerIngress)
      (lb_name region : Text)
      → Keeps P (
          ensure_global_accelerator_for_ingress cloud attempts unmarshal ing lb_ingress cluster_name
            lb_name region)
  ensures_ingress unmarshal ing lb_ingress lb_name region =
      ensure_ingress-Keeps cloud admits attempts unmarshal ing lb_ingress cluster_name lb_name
        region (λ lb. creates_ingress unmarshal ing lb region)

  process_delete-Keeps :
      (resource : Text) (split_key : SplitKey) (k : Text)
      → Keeps P (process_delete cloud attempts cluster_name resource split_key k)
  unfolding process_delete
  process_delete-Keeps resource split_key k = search (keeps_rules, cleans)

  unmanaged-Keeps :
      (resource : Text) (obj : ObjectMeta) (message : Text)
      → Keeps P (process_unmanaged cloud attempts cluster_name resource obj message)
  unfolding process_unmanaged
  unmanaged-Keeps resource obj message = search (keeps_rules, calls, cleans)

  created_event-Keeps :
      (obj : ObjectMeta) (arn : Option Text)
      → Keeps P (created_event cloud attempts cluster_name obj arn)
  unfolding created_event
  created_event-Keeps obj none = search keeps_rules
  created_event-Keeps obj (some arn) = search calls

  after_ensure-Keeps :
      (obj : ObjectMeta) (ensured : Ensured)
      → Keeps P (after_ensure cloud attempts cluster_name obj ensured)
  unfolding after_ensure
  after_ensure-Keeps obj ensured = search (keeps_rules, steps, created_event-Keeps)

  service_step-Keeps :
      (svc : Service) (i : LoadBalancerIngress) (name region : Text)
      → Keeps P (service_step cloud attempts cluster_name svc i name region)
  unfolding service_step
  service_step-Keeps svc i name region = search (keeps_rules, ensures_service, after_ensure-Keeps)

  ingress_step-Keeps :
      (unmarshal : UnmarshalPorts) (ing : Ingress) (i : LoadBalancerIngress) (name region : Text)
      → Keeps P (ingress_step cloud attempts cluster_name unmarshal ing i name region)
  unfolding ingress_step
  ingress_step-Keeps unmarshal ing i name region =
      search (keeps_rules, ensures_ingress, after_ensure-Keeps)

  managed-Keeps :
      (handle : LoadBalancerIngress → Text → Text → Exec W Step) (resource : Text)
      (obj : ObjectMeta) (message : Text) (is : List LoadBalancerIngress)
      → ((i : LoadBalancerIngress) (name region : Text) → Keeps P (handle i name region))
      → Keeps P (process_managed cloud attempts cluster_name handle resource obj message is)
  unfolding process_managed
  managed-Keeps handle resource obj message [] k = search keeps_rules
  managed-Keeps handle resource obj message (i ∷ is) k =
      search (keeps_rules, unmanaged-Keeps, eaches)

  process_service-Keeps :
      (obj : RuntimeObject)
      → Keeps P (process_service_create_or_update cloud attempts cluster_name obj)
  unfolding process_service_create_or_update
  process_service-Keeps (service svc) = search (managed-Keeps, service_step-Keeps)
  process_service-Keeps _ = search keeps_rules

  process_ingress-Keeps :
      (unmarshal : UnmarshalPorts) (obj : RuntimeObject)
      → Keeps P (process_ingress_create_or_update cloud attempts cluster_name unmarshal obj)
  unfolding process_ingress_create_or_update
  process_ingress-Keeps unmarshal (ingress ing) = search (managed-Keeps, ingress_step-Keeps)
  process_ingress-Keeps unmarshal _ = search keeps_rules

  pub service_round-Keeps :
      (split_key : SplitKey) (item : Option Item)
      → Keeps P (service_round cloud attempts cluster_name split_key item)
  unfolding service_round key_to_service process_service_delete
  service_round-Keeps split_key item =
      round-Keeps cloud (harmless_local admits) _ _ _
        (λ k. service_at-Keeps cloud (harmless_local admits) k (split_key k))
        (process_delete-Keeps _ split_key) process_service-Keeps item

  pub ingress_round-Keeps :
      (split_key : SplitKey) (unmarshal : UnmarshalPorts) (item : Option Item)
      → Keeps P (ingress_round cloud attempts cluster_name split_key unmarshal item)
  unfolding ingress_round key_to_ingress process_ingress_delete
  ingress_round-Keeps split_key unmarshal item =
      round-Keeps cloud (harmless_local admits) _ _ _
        (λ k. ingress_at-Keeps cloud (harmless_local admits) k (split_key k))
        (process_delete-Keeps _ split_key) (process_ingress-Keeps unmarshal) item
