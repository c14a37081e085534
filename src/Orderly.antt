-- ===== src/Orderly.antt =====
-- The order of deletions: see `Accelerator.Poll.IsOrderly`. Here the operations that clean up; the
-- workers, and the owner of what they delete, are in the modules below.
pub mod Harmless
pub mod Handlers
pub mod Rounds
pub mod Ensure
pub mod Process
pub mod Named
pub mod Deletion
pub mod Ownership
pub mod Cluster
pub mod Made
pub mod Owners
use aws_global_accelerator_c.Prelude.{
  ℕ, zero, suc, Text, Bool, true, false, ◌≡◌, refl, ◌⊎◌, inl, inr, Option, none, some, List, [],
  ◌∷◌, if◌then◌else◌,
}
use aws_global_accelerator_c.Errors.{Error, Result}
use aws_global_accelerator_c.Listener.{Listener}
use aws_global_accelerator_c.Orderly.Harmless.{is_harmless}
use aws_global_accelerator_c.Cloud.Types.{
  Accelerator, LoadBalancer, EndpointGroup, Request, Answer, Log, CloudService,
}
use aws_global_accelerator_c.Cloud.Exec.{Exec, call, ◌>>=◌, pure}
use aws_global_accelerator_c.Cloud.Keeps.{
  Keeps, Admits, Keeps-admitted, Keeps-call, keeps_rules, Keeps-pure, Keeps-throw, Keeps-bind,
  Keeps-if,
}
use aws_global_accelerator_c.Accelerator.{
  get_accelerator, list_accelerator, list_tags_for_accelerator, create_accelerator,
  update_accelerator, delete_accelerator,
}
use aws_global_accelerator_c.Accelerator.Poll.{IsOrderly, Allowed, delete_accelerator-IsOrderly}
use aws_global_accelerator_c.Endpoint.{
  get_load_balancer, get_listener, create_listener, update_listener, delete_listener,
  get_endpoint_group, create_endpoint_group, update_endpoint_group, delete_endpoint_group,
}
use aws_global_accelerator_c.GlobalAccelerator.Lookup.{
  with_tags, list_global_accelerator_by_resource, accelerator_changed,
}
use aws_global_accelerator_c.GlobalAccelerator.Cleanup.{
  related_endpoint, related_listener, list_related_global_accelerator, delete_found_endpoint,
  delete_found_listener, delete_found_accelerator, cleanup_global_accelerator,
}

harmless-Allowed : (q : Request) (log : Log) → is_harmless q ≡ true → Allowed q log
harmless-Allowed (Request.delete_accelerator arn) log h = cc
harmless-Allowed _ log h = tt

pub harmless-IsOrderly : Admits is_harmless IsOrderly
harmless-IsOrderly q answer log h p = (harmless-Allowed q log h, p)

module _ {W : Type 0} (service : CloudService W) where
  call-IsOrderly :
      {A : Type 0} (q : Request) (result : Answer q → Result A)
      → is_harmless q ≡ true
      → Keeps IsOrderly (call service q result)
  call-IsOrderly q result h = Keeps-admitted service is_harmless harmless-IsOrderly q result h

  related_endpoint-IsOrderly :
      (accelerator : Accelerator) (found : Error ⊎ Listener)
      → Keeps IsOrderly (related_endpoint service accelerator found)
  unfolding related_endpoint get_endpoint_group
  related_endpoint-IsOrderly accelerator (inl e) = search keeps_rules
  related_endpoint-IsOrderly accelerator (inr listener) = search (keeps_rules, call-IsOrderly)

  related_listener-IsOrderly :
      (found : Error ⊎ Accelerator) → Keeps IsOrderly (related_listener service found)
  unfolding related_listener get_listener
  related_listener-IsOrderly (inl e) = search keeps_rules
  related_listener-IsOrderly (inr accelerator) =
      search (keeps_rules, call-IsOrderly, related_endpoint-IsOrderly)

  list_related-IsOrderly :
      (arn : Text) → Keeps IsOrderly (list_related_global_accelerator service arn)
  unfolding list_related_global_accelerator get_accelerator
  list_related-IsOrderly arn = search (keeps_rules, call-IsOrderly, related_listener-IsOrderly)

  delete_found_endpoint-IsOrderly :
      (o : Option EndpointGroup) → Keeps IsOrderly (delete_found_endpoint service o)
  unfolding delete_found_endpoint delete_endpoint_group
  delete_found_endpoint-IsOrderly none = search keeps_rules
  delete_found_endpoint-IsOrderly (some e) = search call-IsOrderly

  delete_found_listener-IsOrderly :
      (o : Option Listener) → Keeps IsOrderly (delete_found_listener service o)
  unfolding delete_found_listener delete_listener
  delete_found_listener-IsOrderly none = search keeps_rules
  delete_found_listener-IsOrderly (some e) = search call-IsOrderly

  delete_found_accelerator-IsOrderly :
      (attempts : ℕ) (o : Option Accelerator)
      → Keeps IsOrderly (delete_found_accelerator service attempts o)
  unfolding delete_found_accelerator
  delete_found_accelerator-IsOrderly attempts none = search keeps_rules
  delete_found_accelerator-IsOrderly attempts (some e) =
      delete_accelerator-IsOrderly service attempts e.accelerator_arn

  -- `CleanupGlobalAccelerator` keeps the order.
  pub cleanup-IsOrderly :
      (attempts : ℕ) (arn : Text)
      → Keeps IsOrderly (cleanup_global_accelerator service attempts arn)
  unfolding cleanup_global_accelerator
  cleanup-IsOrderly attempts arn = search (
    keeps_rules, list_related-IsOrderly, delete_found_endpoint-IsOrderly,
    delete_found_listener-IsOrderly, delete_found_accelerator-IsOrderly,
  )
