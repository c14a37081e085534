-- ===== src/Orderly/Owners.antt =====
-- Whose accelerators the workers of the accelerator controller disable and delete, over any items.
use aws_global_accelerator_c.Prelude.{ℕ, Text, Option, List}
use aws_global_accelerator_c.Listener.{UnmarshalPorts}
use aws_global_accelerator_c.Cloud.Types.{CloudService}
use aws_global_accelerator_c.Cloud.Exec.{State}
use aws_global_accelerator_c.Cloud.Keeps.{Keeps}
use aws_global_accelerator_c.Reconcile.{Item}
use aws_global_accelerator_c.Controller.{SplitKey}
use aws_global_accelerator_c.Controller.Workers.{run_worker}
use aws_global_accelerator_c.Controller.Keeps.{run_worker-Keeps}
use aws_global_accelerator_c.Controller.Accelerators.{
  service_round, ingress_round, cleanup_resource,
}
use aws_global_accelerator_c.Orderly.Harmless.{harmless_local}
use aws_global_accelerator_c.Orderly.Named.{IsOwned, DescribesIt}
use aws_global_accelerator_c.Orderly.Ownership.{cleanup_resource-IsOwned}
use aws_global_accelerator_c.Orderly.Cluster.{is_ours, owner_is_ours, harmless-IsOwned}
use aws_global_accelerator_c.Orderly.Made.{creates_service-IsOwned, creates_ingress-IsOwned}
use aws_global_accelerator_c.Orderly.Rounds.{service_round-Keeps, ingress_round-Keeps}

module _ {W : Type 0} (cloud : CloudService W) (attempts : ℕ) (cluster_name : Text)
    (split_key : SplitKey) (it : DescribesIt (is_ours cluster_name) cloud) where
  cleans :
      (resource ns name : Text)
      → Keeps
          (IsOwned (is_ours cluster_name))
          (cleanup_resource cloud attempts cluster_name resource ns name)
  cleans resource ns name =
      cleanup_resource-IsOwned cloud attempts cluster_name resource ns name (is_ours cluster_name)
        (owner_is_ours cluster_name resource ns name) it

  service_round-IsOwned :
      (item : Option Item)
      → Keeps
          (IsOwned (is_ours cluster_name))
          (service_round cloud attempts cluster_name split_key item)
  service_round-IsOwned =
      service_round-Keeps cloud attempts cluster_name (harmless-IsOwned cloud cluster_name) cleans
        (creates_service-IsOwned cloud cluster_name it attempts)
        (creates_ingress-IsOwned cloud cluster_name it attempts) split_key

  ingress_round-IsOwned :
      (unmarshal : UnmarshalPorts) (item : Option Item)
      → Keeps
          (IsOwned (is_ours cluster_name))
          (ingress_round cloud attempts cluster_name split_key unmarshal item)
  ingress_round-IsOwned =
      ingress_round-Keeps cloud attempts cluster_name (harmless-IsOwned cloud cluster_name) cleans
        (creates_service-IsOwned cloud cluster_name it attempts)
        (creates_ingress-IsOwned cloud cluster_name it attempts) split_key

  -- Where AWS describes the accelerator that it is asked for: a service worker of the accelerator
  -- controller, over any items of its queue and whatever AWS and Kubernetes answer besides, sends a
  -- request to disable or to delete an accelerator only if it has listed tags of that accelerator
  -- before which say that it is managed and of this cluster, or has created it. The same holds of an
  -- ingress worker.
  pub run_worker-IsOwned :
      (unmarshal : UnmarshalPorts) (items : List (Option Item)) (s : State W)
      → IsOwned (is_ours cluster_name) s.log
      → IsOwned
          (is_ours cluster_name)
          (run_worker (service_round cloud attempts cluster_name split_key) items s).1.log
        × IsOwned
            (is_ours cluster_name)
            (run_worker
              (ingress_round cloud attempts cluster_name split_key unmarshal)
              items
              s).1.log
  run_worker-IsOwned unmarshal items s h =
      let admits = harmless_local (harmless-IsOwned cloud cluster_name) in
      (
        (run_worker-Keeps cloud admits _ items service_round-IsOwned).at s h,
        (run_worker-Keeps cloud admits _ items (ingress_round-IsOwned unmarshal)).at s h,
      )
