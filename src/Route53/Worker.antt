-- ===== src/Route53/Worker.antt =====
-- The workers of the Route 53 controller change only what they may: see `Route53.Guarded`.
use aws_global_accelerator_c.Prelude.{Text, true, ◌≡◌, Option, List, lookup, split}
use aws_global_accelerator_c.Errors.{Result}
use aws_global_accelerator_c.Apis.{
  ObjectMeta, Service, Ingress, LoadBalancerIngress, route53_hostname_annotation,
}
use aws_global_accelerator_c.Reconcile.{Item}
use aws_global_accelerator_c.Controller.{RuntimeObject, service, ingress, SplitKey, new_aws}
use aws_global_accelerator_c.Controller.Workers.{key_to_service, key_to_ingress, run_worker}
use aws_global_accelerator_c.Controller.Keeps.{
  is_local, new_aws-Keeps, each-Keeps, step_or-Keeps, round-Keeps, service_at-Keeps,
  ingress_at-Keeps, run_worker-Keeps,
}
use aws_global_accelerator_c.Controller.Records.{
  cleanup_records, process_records_delete, process_service_records_delete,
  process_ingress_records_delete, process_unnamed, after_sync, service_records_step,
  process_service_records, ingress_records_step, process_ingress_records, service_records_round,
  ingress_records_round,
}
use aws_global_accelerator_c.Route53.Sync.{
  Synced, ensure_route53_for_service, ensure_route53_for_ingress,
}
use aws_global_accelerator_c.Route53.Guarded.{IsGuarded}
use aws_global_accelerator_c.Route53.Guards.{cleanup-IsGuarded}
use aws_global_accelerator_c.Route53.Ensures.{ensure-IsGuarded}
use aws_global_accelerator_c.Cloud.Types.{Request, Answer, CloudService}
use aws_global_accelerator_c.Cloud.Exec.{State, call}
use aws_global_accelerator_c.Cloud.Keeps.{Keeps, Admits, Keeps-admitted, Keeps-bind, keeps_rules}
use aws_global_accelerator_c.Cloud.Rules.{Keeps-option}

module _ {W : Type 0} (cloud : CloudService W) (cluster_name : Text) where
  admits : Admits is_local (IsGuarded cluster_name)
  admits (Request.load_config region) answer log h p = (tt, p)
  admits (Request.get_service ns name) answer log h p = (tt, p)
  admits (Request.get_ingress ns name) answer log h p = (tt, p)
  admits (Request.record_event obj reason message) answer log h p = (tt, p)
  admits _ answer log h p = cc

  calls :
      {A : Type 0} (q : Request) (result : Answer q → Result A)
      → is_local q ≡ true
      → Keeps (IsGuarded cluster_name) (call cloud q result)
  calls q result h = Keeps-admitted cloud is_local admits q result h

  clients : (region : Text) → Keeps (IsGuarded cluster_name) (new_aws cloud region)
  clients = new_aws-Keeps cloud admits

  cleanup_records-IsGuarded :
      (resource ns name : Text)
      → Keeps (IsGuarded cluster_name) (cleanup_records cloud cluster_name resource ns name)
  unfolding cleanup_records
  cleanup_records-IsGuarded resource ns name = Keeps-bind _ _ (clients _) (λ _.
      cleanup-IsGuarded cloud
        (record { cluster_name = cluster_name; resource = resource; namespace = ns; name = name }))

  delete-IsGuarded :
      (resource : Text) (split_key : SplitKey) (k : Text)
      → Keeps
          (IsGuarded cluster_name)
          (process_records_delete cloud cluster_name resource split_key k)
  unfolding process_records_delete
  delete-IsGuarded resource split_key k = search (keeps_rules, cleanup_records-IsGuarded)

  unnamed-IsGuarded :
      (resource : Text) (obj : ObjectMeta)
      → Keeps (IsGuarded cluster_name) (process_unnamed cloud cluster_name resource obj)
  unfolding process_unnamed
  unnamed-IsGuarded resource obj = search (keeps_rules, cleanup_records-IsGuarded, calls)

  after_sync-IsGuarded :
      (reason : Text) (obj : ObjectMeta) (synced : Synced)
      → Keeps (IsGuarded cluster_name) (after_sync cloud cluster_name reason obj synced)
  unfolding after_sync
  after_sync-IsGuarded reason obj synced =
      step_or-Keeps cloud admits _ _ (search (keeps_rules, calls))

  service_step-IsGuarded :
      (svc : Service) (hostnames : List Text) (i : LoadBalancerIngress) (name region : Text)
      → Keeps
          (IsGuarded cluster_name)
          (service_records_step cloud cluster_name svc hostnames i name region)
  unfolding service_records_step ensure_route53_for_service
  service_step-IsGuarded svc hostnames i name region =
      Keeps-bind _ _ (ensure-IsGuarded cloud _ i hostnames) (after_sync-IsGuarded _ svc.meta)

  ingress_step-IsGuarded :
      (ing : Ingress) (hostnames : List Text) (i : LoadBalancerIngress) (name region : Text)
      → Keeps
          (IsGuarded cluster_name)
          (ingress_records_step cloud cluster_name ing hostnames i name region)
  unfolding ingress_records_step ensure_route53_for_ingress
  ingress_step-IsGuarded ing hostnames i name region =
      Keeps-bind _ _ (ensure-IsGuarded cloud _ _ hostnames) (after_sync-IsGuarded _ ing.meta)

  service-IsGuarded :
      (obj : RuntimeObject)
      → Keeps (IsGuarded cluster_name) (process_service_records cloud cluster_name obj)
  unfolding process_service_records
  service-IsGuarded (service svc) =
      Keeps-option (lookup route53_hostname_annotation svc.meta.annotations) _ _
        (unnamed-IsGuarded _ svc.meta)
        (λ hostname.
          each-Keeps cloud admits _ (service_step-IsGuarded svc (split b',' hostname))
            svc.lb_ingress)
  service-IsGuarded _ = search keeps_rules

  ingress-IsGuarded :
      (obj : RuntimeObject)
      → Keeps (IsGuarded cluster_name) (process_ingress_records cloud cluster_name obj)
  unfolding process_ingress_records
  ingress-IsGuarded (ingress ing) =
      Keeps-option (lookup route53_hostname_annotation ing.meta.annotations) _ _
        (unnamed-IsGuarded _ ing.meta)
        (λ hostname.
          each-Keeps cloud admits _ (ingress_step-IsGuarded ing (split b',' hostname))
            ing.lb_ingress)
  ingress-IsGuarded _ = search keeps_rules

  service_round-IsGuarded :
      (split_key : SplitKey) (item : Option Item)
      → Keeps (IsGuarded cluster_name) (service_records_round cloud cluster_name split_key item)
  unfolding service_records_round key_to_service process_service_records_delete
  service_round-IsGuarded split_key item =
      round-Keeps cloud admits _ _ _ (λ k. service_at-Keeps cloud admits k (split_key k))
        (delete-IsGuarded _ split_key) service-IsGuarded item

  ingress_round-IsGuarded :
      (split_key : SplitKey) (item : Option Item)
      → Keeps (IsGuarded cluster_name) (ingress_records_round cloud cluster_name split_key item)
  unfolding ingress_records_round key_to_ingress process_ingress_records_delete
  ingress_round-IsGuarded split_key item =
      round-Keeps cloud admits _ _ _ (λ k. ingress_at-Keeps cloud admits k (split_key k))
        (delete-IsGuarded _ split_key) ingress-IsGuarded item

  -- A service worker of the Route 53 controller, over any items of its queue and whatever AWS and
  -- Kubernetes answer, deletes a record set only if the newest listing of that zone, from which on it
  -- has only changed record sets, shows that an object of this cluster owns it; and overwrites one
  -- only if that listing shows an alias of the name that an object of this cluster owns. The same
  -- holds of an ingress worker.
  pub run_worker-IsGuarded :
      (split_key : SplitKey) (items : List (Option Item)) (s : State W)
      → IsGuarded cluster_name s.log
      → IsGuarded cluster_name
          (run_worker (service_records_round cloud cluster_name split_key) items s).1.log
        × IsGuarded cluster_name
            (run_worker (ingress_records_round cloud cluster_name split_key) items s).1.log
  run_worker-IsGuarded split_key items s h = (
    (run_worker-Keeps cloud admits _ items (service_round-IsGuarded split_key)).at s h,
    (run_worker-Keeps cloud admits _ items (ingress_round-IsGuarded split_key)).at s h,
  )
