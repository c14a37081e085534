-- ===== src/Controller/Notify.antt =====
-- pkg/controller/globalaccelerator/controller.go and pkg/controller/route53/controller.go: which
-- informer events put an object into its queue. `cache.MetaNamespaceKeyFunc` of client-go is a
-- parameter; a key is put in with `AddRateLimited`, and an error of the key only reported.
use aws_global_accelerator_c.Prelude.{
  Text, Bool, true, false, not, ◌||◌, ◌&&◌, Option, none, some, has_key,
}
use aws_global_accelerator_c.Apis.{
  ObjectMeta, Service, Ingress, managed_annotation, route53_hostname_annotation,
}
use aws_global_accelerator_c.Controller.{was_load_balancer_service, was_alb_ingress}

-- What a delete handler is given: the object, the last state of one whose deletion was missed (if
-- that is of the right type), or something else.
pub data Deleted (A : Type 0) : Type 0 where
  object : A → Deleted A
  tombstone : Option A → Deleted A
  unknown : Deleted A

abbrev pub deleted_object : {A : Type 0} → Deleted A → Option A
deleted_object (object a) = some a
deleted_object (tombstone o) = o
deleted_object unknown = none

-- `hasManagedAnnotation`
unfoldable pub has_managed_annotation : ObjectMeta → Bool
has_managed_annotation obj = has_key managed_annotation obj.annotations

-- `a != b` on Booleans
abbrev pub differs : Bool → Bool → Bool
differs true b = not b
differs false b = b

-- `managedAnnotationChanged`
unfoldable pub managed_annotation_changed : ObjectMeta → ObjectMeta → Bool
managed_annotation_changed old new =
    differs (has_key managed_annotation old.annotations)
      (has_key managed_annotation new.annotations)

-- `hasHostnameAnnotation`
unfoldable pub has_hostname_annotation : ObjectMeta → Bool
has_hostname_annotation obj = has_key route53_hostname_annotation obj.annotations

-- `hostnameAnnotationChanged`
unfoldable pub hostname_annotation_changed : ObjectMeta → ObjectMeta → Bool
hostname_annotation_changed old new =
    differs (has_key route53_hostname_annotation old.annotations)
      (has_key route53_hostname_annotation new.annotations)

module _ (key_of : ObjectMeta → Option Text) where
  -- `enqueueService` and `enqueueIngress`, behind a condition: the key that is put in, if any.
  abbrev pub enqueue_if : Bool → ObjectMeta → Option Text
  enqueue_if true obj = key_of obj
  enqueue_if false obj = none

  -- `addSereviceNotification`
  unfoldable pub add_service_notification : Service → Option Text
  add_service_notification svc =
      enqueue_if (was_load_balancer_service svc && has_managed_annotation svc.meta) svc.meta

  -- `updateServiceNotification`; the first argument is `reflect.DeepEqual(old, new)`.
  unfoldable pub update_service_notification : Bool → Service → Service → Option Text
  update_service_notification same old new =
      enqueue_if
        (not same
          && was_load_balancer_service new
          && (has_managed_annotation new.meta || managed_annotation_changed old.meta new.meta))
        new.meta

  abbrev enqueue_deleted_service : Option Service → Option Text
  enqueue_deleted_service none = none
  enqueue_deleted_service (some svc) = enqueue_if (was_load_balancer_service svc) svc.meta

  -- `deleteServiceNotification`
  unfoldable pub delete_service_notification : Deleted Service → Option Text
  delete_service_notification obj = enqueue_deleted_service (deleted_object obj)

  -- `addIngressNotification`
  unfoldable pub add_ingress_notification : Ingress → Option Text
  add_ingress_notification ing =
      enqueue_if (was_alb_ingress ing && has_managed_annotation ing.meta) ing.meta

  -- `updateIngressNotification`
  unfoldable pub update_ingress_notification : Bool → Ingress → Ingress → Option Text
  update_ingress_notification same old new =
      enqueue_if
        (not same
          && was_alb_ingress new
          && (has_managed_annotation new.meta || managed_annotation_changed old.meta new.meta))
        new.meta

  abbrev enqueue_deleted_ingress : Option Ingress → Option Text
  enqueue_deleted_ingress none = none
  enqueue_deleted_ingress (some ing) = key_of ing.meta

  -- `deleteIngressNotification`: every ingress is put in.
  unfoldable pub delete_ingress_notification : Deleted Ingress → Option Text
  delete_ingress_notification obj = enqueue_deleted_ingress (deleted_object obj)

  -- `addServiceNotification` of the Route 53 controller
  unfoldable pub add_service_records_notification : Service → Option Text
  add_service_records_notification svc =
      enqueue_if (was_load_balancer_service svc && has_hostname_annotation svc.meta) svc.meta

  -- `updateServiceNotification` of the Route 53 controller
  unfoldable pub update_service_records_notification : Bool → Service → Service → Option Text
  update_service_records_notification same old new =
      enqueue_if
        (not same
          && was_load_balancer_service new
          && (has_hostname_annotation new.meta || hostname_annotation_changed old.meta new.meta))
        new.meta

  -- `addIngressNotification` of the Route 53 controller
  unfoldable pub add_ingress_records_notification : Ingress → Option Text
  add_ingress_records_notification ing = enqueue_if (has_hostname_annotation ing.meta) ing.meta

  -- `updateIngressNotification` of the Route 53 controller
  unfoldable pub update_ingress_records_notification : Bool → Ingress → Ingress → Option Text
  update_ingress_records_notification same old new =
      enqueue_if
        (not same
          && (has_hostname_annotation new.meta || hostname_annotation_changed old.meta new.meta))
        new.meta

  -- `deleteServiceNotification` of the Route 53 controller
  unfoldable pub delete_service_records_notification : Deleted Service → Option Text
  delete_service_records_notification obj = enqueue_deleted_service (deleted_object obj)

  -- `deleteIngressNotification` of the Route 53 controller
  unfoldable pub delete_ingress_records_notification : Deleted Ingress → Option Text
  delete_ingress_records_notification obj = enqueue_deleted_ingress (deleted_object obj)
