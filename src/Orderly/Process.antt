-- ===== src/Orderly/Process.antt =====
-- The order of deletions through the workers of the accelerator controller.
use aws_global_accelerator_c.Prelude.{ℕ, Text, Option, List, [], ◌∷◌}
use aws_global_accelerator_c.Listener.{UnmarshalPorts}
use aws_global_accelerator_c.Cloud.Types.{Accelerator, CloudService}
use aws_global_accelerator_c.Cloud.Exec.{State}
use aws_global_accelerator_c.Cloud.Keeps.{Keeps, Keeps-bind, keeps_rules}
use aws_global_accelerator_c.Accelerator.Poll.{IsOrderly}
use aws_global_accelerator_c.Reconcile.{Item}
use aws_global_accelerator_c.Controller.{SplitKey, new_aws}
use aws_global_accelerator_c.Controller.Accelerators.{
  cleanup_each, cleanup_resource, service_round, ingress_round,
}
use aws_global_accelerator_c.Controller.Workers.{run_worker}
use aws_global_accelerator_c.Controller.Keeps.{new_aws-Keeps, run_worker-Keeps}
use aws_global_accelerator_c.GlobalAccelerator.Lookup.{list_global_accelerator_by_resource}
use aws_global_accelerator_c.Orderly.{harmless-IsOrderly, cleanup-IsOrderly}
use aws_global_accelerator_c.Orderly.Harmless.{harmless_local, list_by_resource-Keeps}
use aws_global_accelerator_c.Orderly.Ensure.{creates_service-IsOrderly, creates_ingress-IsOrderly}
use aws_global_accelerator_c.Orderly.Rounds.{service_round-Keeps, ingress_round-Keeps}

module _ {W : Type 0} (cloud : CloudService W) where
  clients : (region : Text) → Keeps IsOrderly (new_aws cloud region)
  clients = new_aws-Keeps cloud (harmless_local harmless-IsOrderly)

  listed :
      (cluster_name resource ns name : Text)
      → Keeps IsOrderly (list_global_accelerator_by_resource cloud cluster_name resource ns name)
  listed = list_by_resource-Keeps cloud harmless-IsOrderly

  module _ (attempts : ℕ) (cluster_name : Text) where
    cleanup_each-IsOrderly :
        (accelerators : List Accelerator)
        → Keeps IsOrderly (cleanup_each cloud attempts cluster_name accelerators)
    unfolding cleanup_each
    cleanup_each-IsOrderly [] = search keeps_rules
    cleanup_each-IsOrderly (accelerator ∷ accelerators) =
        Keeps-bind _ _ (cleanup-IsOrderly cloud attempts accelerator.accelerator_arn)
          (λ _. cleanup_each-IsOrderly accelerators)

    cleanup_resource-IsOrderly :
        (resource ns name : Text)
        → Keeps IsOrderly (cleanup_resource cloud attempts cluster_name resource ns name)
    unfolding cleanup_resource
    cleanup_resource-IsOrderly resource ns name =
        search (keeps_rules, clients, listed, cleanup_each-IsOrderly)

    module _ (split_key : SplitKey) where
      service_round-IsOrderly :
          (item : Option Item)
          → Keeps IsOrderly (service_round cloud attempts cluster_name split_key item)
      service_round-IsOrderly =
          service_round-Keeps cloud attempts cluster_name harmless-IsOrderly
            cleanup_resource-IsOrderly (creates_service-IsOrderly cloud attempts cluster_name)
            (creates_ingress-IsOrderly cloud attempts cluster_name) split_key

      ingress_round-IsOrderly :
          (unmarshal : UnmarshalPorts) (item : Option Item)
          → Keeps IsOrderly (ingress_round cloud attempts cluster_name split_key unmarshal item)
      ingress_round-IsOrderly =
          ingress_round-Keeps cloud attempts cluster_name harmless-IsOrderly
            cleanup_resource-IsOrderly (creates_service-IsOrderly cloud attempts cluster_name)
            (creates_ingress-IsOrderly cloud attempts cluster_name) split_key

      -- A service worker of the accelerator controller, over any items of its queue and whatever AWS
      -- and Kubernetes answer, sends each `DeleteAccelerator` only right after it has seen the
      -- accelerator deployed, having disabled it and since then seen it in progress only. The same
      -- holds of an ingress worker.
      pub run_worker_deletes_in_order :
          (unmarshal : UnmarshalPorts) (items : List (Option Item)) (s : State W)
          → IsOrderly s.log
          → IsOrderly
              (run_worker (service_round cloud attempts cluster_name split_key) items s).1.log
            × IsOrderly
                (run_worker
                  (ingress_round cloud attempts cluster_name split_key unmarshal)
                  items
                  s).1.log
      run_worker_deletes_in_order unmarshal items s h =
          let admits = harmless_local harmless-IsOrderly in
          (
            (run_worker-Keeps cloud admits _ items service_round-IsOrderly).at s h,
            (run_worker-Keeps cloud admits _ items (ingress_round-IsOrderly unmarshal)).at s h,
          )
