-- ===== src/Orderly/Made.antt =====
-- What a creation returns is the ARN of an accelerator that was created, and that one is cleaned up.
use aws_global_accelerator_c.Prelude.{
  ℕ, Text, true, refl, ◌⊎◌, inl, inr, Option, none, some, [], ◌∷◌,
}
use aws_global_accelerator_c.Errors.{Error}
use aws_global_accelerator_c.Apis.{Service, Ingress}
use aws_global_accelerator_c.Listener.{Listener, UnmarshalPorts}
use aws_global_accelerator_c.Cloud.Types.{
  Accelerator, deployed, LoadBalancer, EndpointGroup, Log, CloudService,
}
use aws_global_accelerator_c.Cloud.Exec.{◌>>=◌}
use aws_global_accelerator_c.Cloud.Triple.{Triple, Triple-bind, Triple-pure, Triple-throw}
use aws_global_accelerator_c.Cloud.Keeps.{Keeps, Keeps-attempt}
use aws_global_accelerator_c.Cloud.Rules.{Keeps-Triple, Triple-Keeps, Triple-before, Triple-weaken}
use aws_global_accelerator_c.Endpoint.{create_listener, create_endpoint_group}
use aws_global_accelerator_c.GlobalAccelerator.Update.{Wanted}
use aws_global_accelerator_c.GlobalAccelerator.Ensure.{
  Created, with_endpoint, create_endpoint, service_listener_created, ingress_listener_created,
  service_accelerator_created, ingress_accelerator_created, create_global_accelerator_for_service,
  create_global_accelerator_for_ingress, cleanup_created, after_create,
}
use aws_global_accelerator_c.Orderly.Named.{IsOwned, Named, DescribesIt}
use aws_global_accelerator_c.Orderly.Deletion.{cleanup-Named}
use aws_global_accelerator_c.Orderly.Cluster.{ours, Tried, Has, calls, create_wanted-Tried}

module _ {W : Type 0} (cloud : CloudService W) (cluster_name : Text) where
  -- What a creation returns: if an ARN, then that of an accelerator that was created.
  abbrev IsMade : Option Text → Log → Type 0
  IsMade none log = IsOwned (ours cloud cluster_name) log
  IsMade (some arn) log = Has cloud cluster_name arn log

  abbrev Made : Created → Log → Type 0
  Made created log = IsMade created.arn log

  with_endpoint-Made :
      (a : Accelerator) (x : Error ⊎ EndpointGroup) (log : Log)
      → Has cloud cluster_name a.accelerator_arn log
      → Made (with_endpoint a x) log
  with_endpoint-Made a (inl e) log h = h
  with_endpoint-Made a (inr g) log h = h

  module _ (w : Wanted) (lb : LoadBalancer) (region : Text) where
    create_endpoint-Made :
        (a : Accelerator) (l : Listener)
        → Triple
            (Has cloud cluster_name a.accelerator_arn)
            (create_endpoint cloud lb region w a l)
            Made
            (IsOwned (ours cloud cluster_name))
    unfolding create_endpoint create_endpoint_group
    create_endpoint-Made a l =
        Triple-bind _ _
          (Triple-weaken (λ _ log h. h) (λ log h. h.0)
            (Keeps-Triple (calls cloud cluster_name a.accelerator_arn _ _ refl)))
          (λ x. Triple-pure _ (λ log h. with_endpoint-Made a x log h))

    service_listener-Made :
        (a : Accelerator) (x : Error ⊎ Listener)
        → Triple
            (Has cloud cluster_name a.accelerator_arn)
            (service_listener_created cloud lb region w a x)
            Made
            (IsOwned (ours cloud cluster_name))
    unfolding service_listener_created
    service_listener-Made a (inl e) = Triple-pure _ (λ log h. h)
    service_listener-Made a (inr l) = create_endpoint-Made a l

    ingress_listener-Made :
        (a : Accelerator) (x : Error ⊎ Listener)
        → Triple
            (Has cloud cluster_name a.accelerator_arn)
            (ingress_listener_created cloud lb region w a x)
            Made
            (IsOwned (ours cloud cluster_name))
    unfolding ingress_listener_created
    ingress_listener-Made a (inl e) = Triple-pure _ (λ log h. h)
    ingress_listener-Made a (inr l) = create_endpoint-Made a l

    service_created-Made :
        (x : Error ⊎ Accelerator)
        → Triple
            ((Tried cloud cluster_name) x)
            (service_accelerator_created cloud lb region w x)
            Made
            (IsOwned (ours cloud cluster_name))
    unfolding service_accelerator_created create_listener
    service_created-Made (inl e) = Triple-pure _ (λ log h. h)
    service_created-Made (inr a) =
        Triple-bind _ _
          (Triple-weaken (λ _ log h. h) (λ log h. h.0)
            (Keeps-Triple (calls cloud cluster_name a.accelerator_arn _ _ refl)))
          (λ x. service_listener-Made a x)

    ingress_created-Made :
        (x : Error ⊎ Accelerator)
        → Triple
            ((Tried cloud cluster_name) x)
            (ingress_accelerator_created cloud lb region w x)
            Made
            (IsOwned (ours cloud cluster_name))
    unfolding ingress_accelerator_created create_listener
    ingress_created-Made (inl e) = Triple-pure _ (λ log h. h)
    ingress_created-Made (inr a) =
        Triple-bind _ _
          (Triple-weaken (λ _ log h. h) (λ log h. h.0)
            (Keeps-Triple (calls cloud cluster_name a.accelerator_arn _ _ refl)))
          (λ x. ingress_listener-Made a x)

  -- Some accelerator with this ARN.
  abbrev at_arn : Text → Accelerator
  at_arn arn = record {
    accelerator_arn = arn;
    name = [];
    dns_name = [];
    is_enabled = true;
    status = deployed;
  }

  module _ (it : DescribesIt (ours cloud cluster_name) cloud) (attempts : ℕ) where
    cleanup_created-IsOwned :
        (arn : Option Text)
        → Triple
            (IsMade arn)
            (cleanup_created cloud attempts arn)
            (λ _. IsOwned (ours cloud cluster_name))
            (IsOwned (ours cloud cluster_name))
    unfolding cleanup_created
    cleanup_created-IsOwned none = Triple-pure tt (λ log h. h)
    cleanup_created-IsOwned (some arn) =
        Triple-bind _ _
          (Triple-before {P = Named (ours cloud cluster_name) (at_arn arn ∷ [])}
            (λ log h. (h.0, (h.1, tt)))
            (Triple-weaken (λ _ log h. h.0) (λ log h. h.0)
              (Keeps-Triple (
                Keeps-attempt _ (
                  Triple-Keeps
                    (cleanup-Named (ours cloud cluster_name) cloud it (at_arn arn ∷ []) attempts arn
                      (λ log h. h.1.0))
                    (λ _ log h. h) (λ log h. h))))))
          (λ _. Triple-pure tt (λ log h. h))

    after-IsMade-IsOwned :
        (arn : Option Text) (error : Option Error)
        → Triple
            (IsMade arn)
            (after_create cloud attempts (record { arn = arn; error = error }))
            (λ _. IsOwned (ours cloud cluster_name))
            (IsOwned (ours cloud cluster_name))
    unfolding after_create
    after-IsMade-IsOwned none none = Triple-pure _ (λ log h. h)
    after-IsMade-IsOwned (some arn) none = Triple-pure _ (λ log h. h.0)
    after-IsMade-IsOwned arn (some e) =
        Triple-bind _ _ (cleanup_created-IsOwned arn) (λ _. Triple-throw e (λ log h. h))

    pub creates_service-IsOwned :
        (svc : Service) (lb : LoadBalancer) (region : Text)
        → Keeps (IsOwned (ours cloud cluster_name)) (
            create_global_accelerator_for_service cloud lb svc cluster_name region
            >>= after_create cloud attempts)
    unfolding create_global_accelerator_for_service
    creates_service-IsOwned svc lb region =
        Triple-Keeps
          (Triple-bind _ _
            (Triple-bind _ _ (create_wanted-Tried cloud cluster_name _ lb region)
              (service_created-Made _ lb region))
            (λ created. after-IsMade-IsOwned created.arn created.error))
          (λ _ log h. h) (λ log h. h)

    pub creates_ingress-IsOwned :
        (unmarshal : UnmarshalPorts) (ing : Ingress) (lb : LoadBalancer) (region : Text)
        → Keeps (IsOwned (ours cloud cluster_name)) (
            create_global_accelerator_for_ingress cloud unmarshal lb ing cluster_name region
            >>= after_create cloud attempts)
    unfolding create_global_accelerator_for_ingress
    creates_ingress-IsOwned unmarshal ing lb region =
        Triple-Keeps
          (Triple-bind _ _
            (Triple-bind _ _ (create_wanted-Tried cloud cluster_name _ lb region)
              (ingress_created-Made _ lb region))
            (λ created. after-IsMade-IsOwned created.arn created.error))
          (λ _ log h. h) (λ log h. h)
