-- ===== src/Controller/Records.antt =====
-- pkg/controller/route53/service.go and ingress.go: the two pairs of process functions.
use aws_global_accelerator_c.Prelude.{
  Text, Bool, Option, none, some, List, codes, lookup, split, if◌then◌else◌,
}
use aws_global_accelerator_c.Errors.{no_retry}
use aws_global_accelerator_c.Apis.{
  ObjectMeta, Service, Ingress, LoadBalancerIngress, route53_hostname_annotation,
}
use aws_global_accelerator_c.Reconcile.{
  Outcome, finished, Item, QueueAction, process_next_work_item,
}
use aws_global_accelerator_c.Controller.Workers.{key_to_service, key_to_ingress}
use aws_global_accelerator_c.Controller.{
  RuntimeObject, service, ingress, SplitKey, split_or_stop, Step, retry_step, step_or, new_aws,
  each_load_balancer,
}
use aws_global_accelerator_c.Route53.Sync.{
  Synced, cleanup_record_set, ensure_route53_for_service, ensure_route53_for_ingress,
}
use aws_global_accelerator_c.Cloud.Types.{Request, CloudService}
use aws_global_accelerator_c.Cloud.Exec.{Exec, pure, throw, lift, call, ◌>>=◌}

module _ {W : Type 0} (cloud : CloudService W) (cluster_name : Text) where
  unfoldable pub cleanup_records : Text → Text → Text → Exec W (Unit {0})
  cleanup_records resource ns name = do
    _ ← new_aws cloud (codes "us-west-2")
    cleanup_record_set cloud
        (record { cluster_name = cluster_name; resource = resource; namespace = ns; name = name })

  unfoldable pub process_records_delete : Text → SplitKey → Text → Exec W Outcome
  process_records_delete resource split_key k = do
    parts ← lift (split_or_stop (split_key k) k)
    _ ← cleanup_records resource parts.0 parts.1
    pure finished

  -- `processServiceDelete`
  unfoldable pub process_service_records_delete : SplitKey → Text → Exec W Outcome
  process_service_records_delete = process_records_delete (codes "service")

  -- `processIngressDelete`
  unfoldable pub process_ingress_records_delete : SplitKey → Text → Exec W Outcome
  process_ingress_records_delete = process_records_delete (codes "ingress")

  -- The branch for an object that lacks the annotation.
  unfoldable pub process_unnamed : Text → ObjectMeta → Exec W Outcome
  process_unnamed resource obj = do
    _ ← cleanup_records resource obj.namespace obj.name
    _ ←
        call cloud
          (Request.record_event obj (codes "Route53RecordDeleted")
            (codes "Route53 record sets are deleted"))
          (λ r. r)
    pure finished

  -- What follows an `EnsureRoute53…` call; the reason of the event differs between the two.
  unfoldable pub after_sync : Text → ObjectMeta → Synced → Exec W Step
  after_sync reason obj synced = step_or cloud (retry_step synced.retry_after) (
      if synced.created
      then (do
        _ ←
            call cloud (Request.record_event obj reason (codes "Route53 record set is created"))
              (λ r. r)
        pure none)
      else pure none)

  unfoldable pub service_records_step :
      Service → List Text → LoadBalancerIngress → Text → Text → Exec W Step
  service_records_step svc hostnames lb_ingress name region = do
    synced ← ensure_route53_for_service cloud svc lb_ingress hostnames cluster_name
    after_sync (codes "Route53RecourdCreated") svc.meta synced

  -- `processServiceCreateOrUpdate`
  unfoldable pub process_service_records : RuntimeObject → Exec W Outcome
  process_service_records (service svc) =
      elim (lookup route53_hostname_annotation svc.meta.annotations) [
        | none ↦ process_unnamed (codes "service") svc.meta
        | some hostname ↦
            each_load_balancer cloud (service_records_step svc (split b',' hostname)) svc.lb_ingress
      ]
  process_service_records _ = throw (no_retry (codes "object is not Service"))

  unfoldable pub ingress_records_step :
      Ingress → List Text → LoadBalancerIngress → Text → Text → Exec W Step
  ingress_records_step ing hostnames lb_ingress name region = do
    synced ← ensure_route53_for_ingress cloud ing lb_ingress hostnames cluster_name
    after_sync (codes "Route53RecordCreated") ing.meta synced

  -- `processIngressCreateOrUpdate`
  unfoldable pub process_ingress_records : RuntimeObject → Exec W Outcome
  process_ingress_records (ingress ing) =
      elim (lookup route53_hostname_annotation ing.meta.annotations) [
        | none ↦ process_unnamed (codes "ingress") ing.meta
        | some hostname ↦
            each_load_balancer cloud (ingress_records_step ing (split b',' hostname)) ing.lb_ingress
      ]
  process_ingress_records _ = throw (no_retry (codes "object is not Ingress"))

  -- One round of `runServiceWorker`; none is a queue that is shut down.
  unfoldable pub service_records_round : SplitKey → Option Item → Exec W (Bool × List QueueAction)
  service_records_round split_key =
      process_next_work_item (key_to_service cloud split_key)
        (process_service_records_delete split_key) process_service_records

  -- One round of `runIngressWorker`.
  unfoldable pub ingress_records_round : SplitKey → Option Item → Exec W (Bool × List QueueAction)
  ingress_records_round split_key =
      process_next_work_item (key_to_ingress cloud split_key)
        (process_ingress_records_delete split_key) process_ingress_records
