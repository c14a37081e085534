-- ===== src/Controller/Accelerators.antt =====
-- pkg/controller/globalaccelerator/service.go and ingress.go: the two pairs of process functions.
use aws_global_accelerator_c.Prelude.{
  ℕ, Text, Bool, Option, none, some, List, [], ◌∷◌, ◌++◌, codes, has_key, if◌then◌else◌,
}
use aws_global_accelerator_c.Errors.{no_retry, panic}
use aws_global_accelerator_c.Apis.{
  ObjectMeta, Service, Ingress, LoadBalancerIngress, managed_annotation,
}
use aws_global_accelerator_c.Listener.{UnmarshalPorts}
use aws_global_accelerator_c.Reconcile.{
  Outcome, finished, Item, QueueAction, process_next_work_item,
}
use aws_global_accelerator_c.Controller.{
  RuntimeObject, service, ingress, SplitKey, split_or_stop, Step, retry_step, step_or, new_aws,
  each_load_balancer,
}
use aws_global_accelerator_c.Controller.Workers.{key_to_service, key_to_ingress}
use aws_global_accelerator_c.Cloud.Types.{Accelerator, Request, CloudService}
use aws_global_accelerator_c.Cloud.Exec.{Exec, pure, throw, lift, call, ◌>>=◌}
use aws_global_accelerator_c.GlobalAccelerator.Lookup.{list_global_accelerator_by_resource}
use aws_global_accelerator_c.GlobalAccelerator.Cleanup.{cleanup_global_accelerator}
use aws_global_accelerator_c.GlobalAccelerator.Ensure.{
  Ensured, ensure_global_accelerator_for_service, ensure_global_accelerator_for_ingress,
}

module _ {W : Type 0} (cloud : CloudService W) (attempts : ℕ) (cluster_name : Text) where
  -- The loop that cleans up; the first error ends it.
  unfoldable pub cleanup_each : List Accelerator → Exec W (Unit {0})
  cleanup_each [] = pure tt
  cleanup_each (accelerator ∷ accelerators) = do
    _ ← cleanup_global_accelerator cloud attempts accelerator.accelerator_arn
    cleanup_each accelerators

  -- The accelerators of a resource are found by their tags and cleaned up.
  unfoldable pub cleanup_resource : Text → Text → Text → Exec W (Unit {0})
  cleanup_resource resource ns name = do
    _ ← new_aws cloud (codes "us-west-2")
    accelerators ← list_global_accelerator_by_resource cloud cluster_name resource ns name
    cleanup_each accelerators

  unfoldable pub process_delete : Text → SplitKey → Text → Exec W Outcome
  process_delete resource split_key k = do
    parts ← lift (split_or_stop (split_key k) k)
    _ ← cleanup_resource resource parts.0 parts.1
    pure finished

  -- `processServiceDelete`
  unfoldable pub process_service_delete : SplitKey → Text → Exec W Outcome
  process_service_delete = process_delete (codes "service")

  -- `processIngressDelete`
  unfoldable pub process_ingress_delete : SplitKey → Text → Exec W Outcome
  process_ingress_delete = process_delete (codes "ingress")

  -- The branch for an object that lacks the annotation.
  unfoldable pub process_unmanaged : Text → ObjectMeta → Text → Exec W Outcome
  process_unmanaged resource obj message = do
    _ ← cleanup_resource resource obj.namespace obj.name
    _ ← call cloud (Request.record_event obj (codes "GlobalAcceleratorDeleted") message) (λ r. r)
    pure finished

  -- The event of a new accelerator; `*arn` panics where there is none.
  unfoldable pub created_event : ObjectMeta → Option Text → Exec W (Unit {0})
  created_event obj none = lift panic
  created_event obj (some arn) =
      call cloud
        (Request.record_event obj (codes "GlobalAcceleratorCreated")
          (codes "Global Acclerator is created: " ++ arn))
        (λ r. r)

  -- What follows an `Ensure…` call.
  unfoldable pub after_ensure : ObjectMeta → Ensured → Exec W Step
  after_ensure obj ensured =
      step_or cloud (retry_step ensured.retry_after)
        (if ensured.created then (do _ ← created_event obj ensured.arn; pure none) else pure none)

  unfoldable pub service_step : Service → LoadBalancerIngress → Text → Text → Exec W Step
  service_step svc lb_ingress name region = do
    ensured ←
        ensure_global_accelerator_for_service cloud attempts svc lb_ingress cluster_name name region
    after_ensure svc.meta ensured

  -- The two functions after the type assertion: nothing without a load balancer; then the annotation.
  unfoldable pub process_managed :
      (LoadBalancerIngress → Text → Text → Exec W Step)
      → Text
      → ObjectMeta
      → Text
      → List LoadBalancerIngress
      → Exec W Outcome
  process_managed handle resource obj message [] = pure finished
  process_managed handle resource obj message (lb_ingress ∷ lb_ingresses) =
      if has_key managed_annotation obj.annotations
      then each_load_balancer cloud handle (lb_ingress ∷ lb_ingresses)
      else process_unmanaged resource obj message

  -- `processServiceCreateOrUpdate`
  unfoldable pub process_service_create_or_update : RuntimeObject → Exec W Outcome
  process_service_create_or_update (service svc) =
      process_managed (service_step svc) (codes "service") svc.meta
        (codes "Global Accelerators are deleted") svc.lb_ingress
  process_service_create_or_update _ = throw (no_retry (codes "object is not Service"))

  unfoldable pub ingress_step :
      UnmarshalPorts → Ingress → LoadBalancerIngress → Text → Text → Exec W Step
  ingress_step unmarshal ing lb_ingress name region = do
    ensured ←
        ensure_global_accelerator_for_ingress cloud attempts unmarshal ing lb_ingress cluster_name
          name region
    after_ensure ing.meta ensured

  -- `processIngressCreateOrUpdate`
  unfoldable pub process_ingress_create_or_update : UnmarshalPorts → RuntimeObject → Exec W Outcome
  process_ingress_create_or_update unmarshal (ingress ing) =
      process_managed (ingress_step unmarshal ing) (codes "ingress") ing.meta
        (codes "Global Accelerator are deleted") ing.lb_ingress
  process_ingress_create_or_update unmarshal _ = throw (no_retry (codes "object is not Ingress"))

  -- One round of `runServiceWorker`; none is a queue that is shut down.
  unfoldable pub service_round : SplitKey → Option Item → Exec W (Bool × List QueueAction)
  service_round split_key =
      process_next_work_item (key_to_service cloud split_key) (process_service_delete split_key)
        process_service_create_or_update

  -- One round of `runIngressWorker`.
  unfoldable pub ingress_round :
      SplitKey → UnmarshalPorts → Option Item → Exec W (Bool × List QueueAction)
  ingress_round split_key unmarshal =
      process_next_work_item (key_to_ingress cloud split_key) (process_ingress_delete split_key)
        (process_ingress_create_or_update unmarshal)
