-- ===== src/GlobalAccelerator/Creation.antt =====
-- What is left of an error of `createListener`, for a service and for an ingress.
use aws_global_accelerator_c.Prelude.{ℕ, Text, ◌≡◌, refl, none, some, [], true}
use aws_global_accelerator_c.Errors.{Error, ok, err}
use aws_global_accelerator_c.Apis.{Service, Ingress}
use aws_global_accelerator_c.Listener.{UnmarshalPorts}
use aws_global_accelerator_c.Cloud.Types.{
  Accelerator, LoadBalancer, CreateAcceleratorInput, ListenerInput, Request, CloudService,
}
use aws_global_accelerator_c.Cloud.Exec.{State, Exec, pure, attempt, call, ◌>>=◌}
use aws_global_accelerator_c.Accelerator.{create_accelerator}
use aws_global_accelerator_c.Endpoint.{create_listener}
use aws_global_accelerator_c.GlobalAccelerator.Ensure.{
  create_wanted, service_listener_created, ingress_listener_created, service_accelerator_created,
  ingress_accelerator_created, create_global_accelerator_for_service,
  create_global_accelerator_for_ingress, after_create, create_or_update,
}

module _ {W : Type 0} (service : CloudService W) where
  -- Accelerators are created, and listeners are refused with this error.
  abbrev pub RefusesListeners : Accelerator → Error → Type 0
  RefusesListeners accelerator e =
      ((input : CreateAcceleratorInput) (w : W)
        → (service (Request.create_accelerator input) w).0 ≡ ok accelerator)
      × ((arn : Text) (input : ListenerInput) (w : W)
          → (service (Request.create_listener arn input) w).0 ≡ err e)

  -- If the accelerator is created and its listener is refused, then the creation for a service
  -- answers the ARN with the error, the creation for an ingress answers the ARN with no error, and
  -- the branch of `EnsureGlobalAcceleratorForIngress` that creates answers that all is created.
  pub create-listener_refused :
      (lb : LoadBalancer) (svc : Service) (unmarshal : UnmarshalPorts) (ing : Ingress)
      (cluster_name region : Text) (attempts : ℕ) (update : Accelerator → Exec W (Unit {0}))
      (accelerator : Accelerator) (e : Error) (s : State W)
      → RefusesListeners accelerator e
      → ((create_global_accelerator_for_service service lb svc cluster_name region s).0
          ≡ ok (record { arn = some accelerator.accelerator_arn; error = some e }))
        × ((create_global_accelerator_for_ingress service unmarshal lb ing cluster_name region s).0
            ≡ ok (record { arn = some accelerator.accelerator_arn; error = none }))
        × ((create_or_update service attempts
              (create_global_accelerator_for_ingress service unmarshal lb ing cluster_name region)
              update
              []
              s).0
            ≡ ok (record {
              arn = some accelerator.accelerator_arn;
              created = true;
              retry_after = 0;
            }))
  unfolding create_global_accelerator_for_service create_global_accelerator_for_ingress
      create_wanted service_accelerator_created ingress_accelerator_created service_listener_created
      ingress_listener_created create_accelerator create_listener after_create create_or_update call
      attempt pure ◌>>=◌
  create-listener_refused lb svc unmarshal ing cluster_name region attempts update accelerator e s
        (created, refused) =
      (
        rw (created _ _) (rw (refused _ _ _) refl),
        rw (created _ _) (rw (refused _ _ _) refl),
        rw (created _ _) (rw (refused _ _ _) refl),
      )
