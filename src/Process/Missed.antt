-- ===== src/Process/Missed.antt =====
-- Services that are load balancers no more: which events of theirs reach a queue.
use aws_global_accelerator_c.Prelude.{Text, true, false, ◌≡◌, refl, Option, none, some, codes, ◌==◌}
use aws_global_accelerator_c.Apis.{ObjectMeta, Service}
use aws_global_accelerator_c.Controller.{was_load_balancer_service}
use aws_global_accelerator_c.Controller.Notify.{
  Deleted, object, tombstone, unknown, deleted_object, add_service_notification,
  update_service_notification, delete_service_notification, add_service_records_notification,
  update_service_records_notification, delete_service_records_notification,
}
use aws_global_accelerator_c.Process.Controllers.{
  InformerEvent, add, update, delete, notify_registered, new_accelerator_controller,
  new_route53_controller,
}

-- The state of the service that an event tells of, if any.
abbrev pub latest : InformerEvent Service → Option Service
latest (add svc) = some svc
latest (update same old new) = some new
latest (delete obj) = deleted_object obj

-- It is none, or its type is another one.
abbrev pub IsNoLoadBalancer : Option Service → Type 0
IsNoLoadBalancer none = Unit {0}
IsNoLoadBalancer (some svc) = (svc.service_type == codes "LoadBalancer") ≡ false

other_type-was_load_balancer :
    (svc : Service)
    → (svc.service_type == codes "LoadBalancer") ≡ false
    → was_load_balancer_service svc ≡ false
unfolding was_load_balancer_service
other_type-was_load_balancer svc h = rw h refl

module _ (key_of : ObjectMeta → Option Text) where
  delete_missed :
      (obj : Deleted Service)
      → IsNoLoadBalancer (deleted_object obj)
      → (delete_service_notification key_of obj ≡ none)
        × (delete_service_records_notification key_of obj ≡ none)
  unfolding delete_service_notification delete_service_records_notification
  delete_missed (object svc) h = rw (other_type-was_load_balancer svc h) (refl, refl)
  delete_missed (tombstone none) h = (refl, refl)
  delete_missed (tombstone (some svc)) h = rw (other_type-was_load_balancer svc h) (refl, refl)
  delete_missed unknown h = (refl, refl)

  -- Once the type of a service is not `LoadBalancer` any more, no event of its informer puts it into
  -- a queue, whatever its annotations are and were: neither the update that changes the type nor its
  -- deletion, and neither in the accelerator controller nor in the Route 53 controller.
  pub type_change_missed :
      (event : InformerEvent Service)
      → IsNoLoadBalancer (latest event)
      → (notify_registered (new_accelerator_controller key_of).of_services event ≡ none)
        × (notify_registered (new_route53_controller key_of).of_services event ≡ none)
  unfolding new_accelerator_controller new_route53_controller add_service_notification
      update_service_notification add_service_records_notification
      update_service_records_notification
  type_change_missed (add svc) h = rw (other_type-was_load_balancer svc h) (refl, refl)
  type_change_missed (update true old new) h = (refl, refl)
  type_change_missed (update false old new) h = rw (other_type-was_load_balancer new h) (refl, refl)
  type_change_missed (delete obj) h = delete_missed obj h
