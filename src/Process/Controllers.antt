-- ===== src/Process/Controllers.antt =====
-- `NewGlobalAcceleratorController`, `NewRoute53Controller` and `NewEndpointGroupBindingController`:
-- the handlers that they register with the informers, and what `Run` goes on to use. A delete handler
-- that is not registered is none.
use aws_global_accelerator_c.Prelude.{Text, Bool, Option, none, some, List, [], ◌∷◌, codes, ◌++◌}
use aws_global_accelerator_c.Apis.{ObjectMeta, Service, Ingress, EndpointGroupBinding}
use aws_global_accelerator_c.Controller.Notify.{
  Deleted, add_service_notification, update_service_notification, delete_service_notification,
  add_ingress_notification, update_ingress_notification, delete_ingress_notification,
  add_service_records_notification, update_service_records_notification,
  add_ingress_records_notification, update_ingress_records_notification,
  delete_service_records_notification, delete_ingress_records_notification,
}
use aws_global_accelerator_c.Binding.Sync.{update_binding_notification}

-- The informers of the two factories.
pub data Informer : Type 0 where
  services ingresses bindings : Informer

-- `cache.ResourceEventHandlerFuncs`, by the key that a handler puts into the queue, if any.
pub record Handlers (A : Type 0) : Type 0 where
  pub queue : Text
  pub added : A → Option Text
  pub updated : Bool → A → A → Option Text
  pub deleted : Option (Deleted A → Option Text)

-- What a controller registers.
pub record Registered : Type 0 where
  pub of_services : Option (Handlers Service)
  pub of_ingresses : Option (Handlers Ingress)
  pub of_bindings : Option (Handlers EndpointGroupBinding)

-- What `Run` uses of a controller: the caches that it waits for, the queues of the workers in the
-- order in which these are started, and the queues in the order in which they are shut down, which is
-- the reverse of the order of the `defer` statements.
pub record Controller : Type 0 where
  pub waits_for : List Informer
  pub worker_queues : List Text
  pub deferred_queues : List Text

-- An event of an informer that no handler looks at puts nothing into a queue.
pub data InformerEvent (A : Type 0) : Type 0 where
  add : A → InformerEvent A
  update : Bool → A → A → InformerEvent A
  delete : Deleted A → InformerEvent A

abbrev handle_deleted : {A : Type 0} → Option (Deleted A → Option Text) → Deleted A → Option Text
handle_deleted none obj = none
handle_deleted (some handler) obj = handler obj

-- Which key an event puts into the queue of the handlers.
abbrev pub notify : {A : Type 0} → Handlers A → InformerEvent A → Option Text
notify handlers (add obj) = handlers.added obj
notify handlers (update same old new) = handlers.updated same old new
notify handlers (delete obj) = handle_deleted handlers.deleted obj

-- The same for handlers that may not be registered.
abbrev pub notify_registered : {A : Type 0} → Option (Handlers A) → InformerEvent A → Option Text
notify_registered none event = none
notify_registered (some handlers) event = notify handlers event

abbrev service_queue : Text → Text
service_queue agent = agent ++ codes "-service"

abbrev ingress_queue : Text → Text
ingress_queue agent = agent ++ codes "-ingress"

-- `controllerAgentName` of two of the packages
abbrev pub accelerator_agent : Text
accelerator_agent = codes "global-accelerator-controller"

abbrev pub route53_agent : Text
route53_agent = codes "route53-controller"

abbrev pub binding_queue : Text
binding_queue = codes "EndpointGroupBinding"

-- `Run` of the two controllers for services and ingresses is the same but for the queues.
abbrev controller_of : Text → Controller
controller_of agent = record {
  waits_for = services ∷ [];
  worker_queues = service_queue agent ∷ ingress_queue agent ∷ [];
  deferred_queues = ingress_queue agent ∷ service_queue agent ∷ [];
}

unfoldable pub accelerator_controller : Controller
accelerator_controller = controller_of accelerator_agent

unfoldable pub route53_controller : Controller
route53_controller = controller_of route53_agent

unfoldable pub binding_controller : Controller
binding_controller = record {
  waits_for = bindings ∷ services ∷ ingresses ∷ [];
  worker_queues = binding_queue ∷ [];
  deferred_queues = binding_queue ∷ [];
}

module _ (key_of : ObjectMeta → Option Text) where
  -- `NewGlobalAcceleratorController`
  unfoldable pub new_accelerator_controller : Registered
  new_accelerator_controller = record {
    of_services = some (record {
      queue = service_queue accelerator_agent;
      added = add_service_notification key_of;
      updated = update_service_notification key_of;
      deleted = some (delete_service_notification key_of);
    });
    of_ingresses = some (record {
      queue = ingress_queue accelerator_agent;
      added = add_ingress_notification key_of;
      updated = update_ingress_notification key_of;
      deleted = some (delete_ingress_notification key_of);
    });
    of_bindings = none;
  }

  -- `NewRoute53Controller`
  unfoldable pub new_route53_controller : Registered
  new_route53_controller = record {
    of_services = some (record {
      queue = service_queue route53_agent;
      added = add_service_records_notification key_of;
      updated = update_service_records_notification key_of;
      deleted = some (delete_service_records_notification key_of);
    });
    of_ingresses = some (record {
      queue = ingress_queue route53_agent;
      added = add_ingress_records_notification key_of;
      updated = update_ingress_records_notification key_of;
      deleted = some (delete_ingress_records_notification key_of);
    });
    of_bindings = none;
  }

  -- `NewEndpointGroupBindingController`, once the scheme is registered; its update handler does not
  -- ask whether the two objects are the same.
  unfoldable pub new_binding_controller : Registered
  new_binding_controller = record {
    of_services = none;
    of_ingresses = none;
    of_bindings = some (record {
      queue = binding_queue;
      added = λ obj. key_of obj.meta;
      updated = λ same old new. update_binding_notification (λ obj. key_of obj.meta) old new;
      deleted = none;
    });
  }
