-- ===== src/Orderly/Handlers.antt =====
-- The handlers of the accelerator controller keep what the requests keep that neither disable nor
-- delete an accelerator, if creating and cleaning up keep it.
use aws_global_accelerator_c.Prelude.{ℕ, Text, List, [], ◌∷◌, true, ◌≡◌}
use aws_global_accelerator_c.Errors.{Result}
use aws_global_accelerator_c.Apis.{ObjectMeta, Service, Ingress, LoadBalancerIngress}
use aws_global_accelerator_c.Listener.{UnmarshalPorts}
use aws_global_accelerator_c.Cloud.Types.{
  Accelerator, LoadBalancer, CloudService, Request, Answer, Log,
}
use aws_global_accelerator_c.Cloud.Exec.{Exec, call, ◌>>=◌}
use aws_global_accelerator_c.Cloud.Keeps.{Keeps, Keeps-bind, keeps_rules, Admits, Keeps-admitted}
use aws_global_accelerator_c.Endpoint.{get_load_balancer}
use aws_global_accelerator_c.GlobalAccelerator.Lookup.{list_global_accelerator_by_resource}
use aws_global_accelerator_c.GlobalAccelerator.Update.{
  Wanted, update_global_accelerator, update_global_accelerator_for_service,
  update_global_accelerator_for_ingress,
}
use aws_global_accelerator_c.GlobalAccelerator.Ensure.{
  Created, create_global_accelerator_for_service, create_global_accelerator_for_ingress,
  after_create, update_each, create_or_update, ensure_with, ensure_global_accelerator_for_service,
  ensure_global_accelerator_for_ingress,
}
use aws_global_accelerator_c.Orderly.Harmless.{is_harmless, update-Keeps, list_by_resource-Keeps}

module _ {W : Type 0} (service : CloudService W) {P : Log → Type 0}
    (admits : Admits is_harmless P) where
  calls :
      {A : Type 0} (q : Request) (result : Answer q → Result A)
      → is_harmless q ≡ true
      → Keeps P (call service q result)
  calls q result h = Keeps-admitted service is_harmless admits q result h

  update :
      (wanted : Wanted) (lb : LoadBalancer) (region : Text) (accelerator : Accelerator)
      → Keeps P (update_global_accelerator service wanted lb region accelerator)
  update = update-Keeps service admits

  listing :
      (cluster_name resource ns name : Text)
      → Keeps P (list_global_accelerator_by_resource service cluster_name resource ns name)
  listing = list_by_resource-Keeps service admits

  update_each-Keeps :
      (update : Accelerator → Exec W (Unit {0})) (accelerators : List Accelerator)
      → ((accelerator : Accelerator) → Keeps P (update accelerator))
      → Keeps P (update_each service update accelerators)
  unfolding update_each
  update_each-Keeps update [] k = search keeps_rules
  update_each-Keeps update (first ∷ rest) k =
      Keeps-bind _ _ (k first) (λ _. update_each-Keeps update rest k)

  create_or_update-Keeps :
      (attempts : ℕ) (create : Exec W Created) (update : Accelerator → Exec W (Unit {0}))
      (accelerators : List Accelerator)
      → Keeps P (create >>= after_create service attempts)
      → ((accelerator : Accelerator) → Keeps P (update accelerator))
      → Keeps P (create_or_update service attempts create update accelerators)
  unfolding create_or_update
  create_or_update-Keeps attempts create update [] c u = c
  create_or_update-Keeps attempts create update (a ∷ accelerators) c u =
      search (keeps_rules, update_each-Keeps)

  ensure_with-Keeps :
      (attempts : ℕ) (create : LoadBalancer → Exec W Created)
      (update : LoadBalancer → Accelerator → Exec W (Unit {0})) (resource : Text)
      (meta : ObjectMeta) (lb_ingress : LoadBalancerIngress) (cluster_name lb_name region : Text)
      → ((lb : LoadBalancer) → Keeps P (create lb >>= after_create service attempts))
      → ((lb : LoadBalancer) (accelerator : Accelerator) → Keeps P (update lb accelerator))
      → Keeps P (
          ensure_with service attempts create update resource meta lb_ingress cluster_name lb_name
            region)
  unfolding ensure_with get_load_balancer
  ensure_with-Keeps attempts create update resource meta lb_ingress cluster_name lb_name region c
        u =
      search (keeps_rules, calls, listing, create_or_update-Keeps) depth 9

  pub ensure_service-Keeps :
      (attempts : ℕ) (svc : Service) (lb_ingress : LoadBalancerIngress)
      (cluster_name lb_name region : Text)
      → ((lb : LoadBalancer)
          → Keeps P (
              create_global_accelerator_for_service service lb svc cluster_name region
              >>= after_create service attempts))
      → Keeps P (
          ensure_global_accelerator_for_service service attempts svc lb_ingress cluster_name lb_name
            region)
  unfolding ensure_global_accelerator_for_service update_global_accelerator_for_service
  ensure_service-Keeps attempts svc lb_ingress cluster_name lb_name region c =
      ensure_with-Keeps attempts _ _ _ _ lb_ingress cluster_name lb_name region c
        (λ lb accelerator. search update)

  pub ensure_ingress-Keeps :
      (attempts : ℕ) (unmarshal : UnmarshalPorts) (ing : Ingress) (lb_ingress : LoadBalancerIngress)
      (cluster_name lb_name region : Text)
      → ((lb : LoadBalancer)
          → Keeps P (
              create_global_accelerator_for_ingress service unmarshal lb ing cluster_name region
              >>= after_create service attempts))
      → Keeps P (
          ensure_global_accelerator_for_ingress service attempts unmarshal ing lb_ingress
            cluster_name lb_name region)
  unfolding ensure_global_accelerator_for_ingress update_global_accelerator_for_ingress
  ensure_ingress-Keeps attempts unmarshal ing lb_ingress cluster_name lb_name region c =
      ensure_with-Keeps attempts _ _ _ _ lb_ingress cluster_name lb_name region c
        (λ lb accelerator. search update)
