-- ===== src/Orderly/Ensure.antt =====
-- The order of deletions through a creation, with the cleanup after a failure.
use aws_global_accelerator_c.Prelude.{ℕ, Text, ◌⊎◌, Option, none, some}
use aws_global_accelerator_c.Errors.{Error}
use aws_global_accelerator_c.Apis.{Service, Ingress}
use aws_global_accelerator_c.Listener.{UnmarshalPorts}
use aws_global_accelerator_c.Cloud.Types.{Accelerator, LoadBalancer, CloudService}
use aws_global_accelerator_c.Cloud.Exec.{◌>>=◌}
use aws_global_accelerator_c.Cloud.Keeps.{Keeps, keeps_rules}
use aws_global_accelerator_c.Accelerator.Poll.{IsOrderly}
use aws_global_accelerator_c.GlobalAccelerator.Update.{Wanted}
use aws_global_accelerator_c.GlobalAccelerator.Ensure.{
  Created, create_wanted, service_accelerator_created, ingress_accelerator_created,
  create_global_accelerator_for_service, create_global_accelerator_for_ingress, cleanup_created,
  after_create,
}
use aws_global_accelerator_c.Orderly.{harmless-IsOrderly, cleanup-IsOrderly}
use aws_global_accelerator_c.Orderly.Harmless.{
  create_wanted-Keeps, service_created-Keeps, ingress_created-Keeps,
}

module _ {W : Type 0} (service : CloudService W) where
  wanted :
      (w : Wanted) (lb : LoadBalancer) (region cluster_name : Text)
      → Keeps IsOrderly (create_wanted service lb region w cluster_name)
  wanted = create_wanted-Keeps service harmless-IsOrderly

  created_service :
      (w : Wanted) (lb : LoadBalancer) (region : Text) (found : Error ⊎ Accelerator)
      → Keeps IsOrderly (service_accelerator_created service lb region w found)
  created_service = service_created-Keeps service harmless-IsOrderly

  created_ingress :
      (w : Wanted) (lb : LoadBalancer) (region : Text) (found : Error ⊎ Accelerator)
      → Keeps IsOrderly (ingress_accelerator_created service lb region w found)
  created_ingress = ingress_created-Keeps service harmless-IsOrderly

  cleanup_created-IsOrderly :
      (attempts : ℕ) (arn : Option Text) → Keeps IsOrderly (cleanup_created service attempts arn)
  unfolding cleanup_created
  cleanup_created-IsOrderly attempts none = search keeps_rules
  cleanup_created-IsOrderly attempts (some arn) = search (keeps_rules, cleanup-IsOrderly)

  after_failed-IsOrderly :
      (attempts : ℕ) (arn : Option Text) (error : Option Error)
      → Keeps IsOrderly (after_create service attempts (record { arn = arn; error = error }))
  unfolding after_create
  after_failed-IsOrderly attempts arn none = search keeps_rules
  after_failed-IsOrderly attempts arn (some e) = search (keeps_rules, cleanup_created-IsOrderly)

  after_create-IsOrderly :
      (attempts : ℕ) (created : Created) → Keeps IsOrderly (after_create service attempts created)
  after_create-IsOrderly attempts created =
      after_failed-IsOrderly attempts created.arn created.error

  pub creates_service-IsOrderly :
      (attempts : ℕ) (cluster_name : Text) (svc : Service) (lb : LoadBalancer) (region : Text)
      → Keeps IsOrderly (
          create_global_accelerator_for_service service lb svc cluster_name region
          >>= after_create service attempts)
  unfolding create_global_accelerator_for_service
  creates_service-IsOrderly attempts cluster_name svc lb region =
      search (keeps_rules, wanted, created_service, after_create-IsOrderly)

  pub creates_ingress-IsOrderly :
      (attempts : ℕ) (cluster_name : Text) (unmarshal : UnmarshalPorts) (ing : Ingress)
      (lb : LoadBalancer) (region : Text)
      → Keeps IsOrderly (
          create_global_accelerator_for_ingress service unmarshal lb ing cluster_name region
          >>= after_create service attempts)
  unfolding create_global_accelerator_for_ingress
  creates_ingress-IsOrderly attempts cluster_name unmarshal ing lb region =
      search (keeps_rules, wanted, created_ingress, after_create-IsOrderly)
