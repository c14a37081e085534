-- ===== src/Tests/Processes.antt =====
-- The theorems on the process and on a whole round for a binding, at examples.
use aws_global_accelerator_c.Prelude.{
  ◌==◌, ℕ, zero, suc, true, false, some, none, ◌≤◌, ◌≡◌, refl, List, [], ◌∷◌, codes, arith,
}
use aws_global_accelerator_c.Apis.{EndpointGroupBinding, Service, managed_annotation}
use aws_global_accelerator_c.Binding.Sync.{reconcile}
use aws_global_accelerator_c.Binding.Ledger.{Follows}
use aws_global_accelerator_c.Binding.Leaves.{reconcile-Follows}
use aws_global_accelerator_c.Process.Run.{serving, give_up, go_on}
use aws_global_accelerator_c.Process.Controllers.{
  services, accelerator_controller, binding_controller, update, notify_registered,
  new_accelerator_controller, new_route53_controller,
}
use aws_global_accelerator_c.Process.System.{
  System, SystemEvent, signal, acquire_lease, start_informers, informer_syncs, run_goes,
  all_returned, leading, electing, exited, finished, initial_system, run_events,
}
use aws_global_accelerator_c.Process.Missed.{type_change_missed}
use aws_global_accelerator_c.Process.Safety.{IsSound, process-IsSound}
use aws_global_accelerator_c.Process.Shutdown.{steps_left, gives_up, shutdown_completes}
use aws_global_accelerator_c.Process.StandBy.{first_signal_ignored}
use aws_global_accelerator_c.Tests.Granting.{app_service, binding, granting}

-- A binding whose load balancer has been replaced.
abbrev bound : EndpointGroupBinding
bound =
    let b = binding (codes "old" ∷ []) in
    record b {
      is_deleting = false;
      finalizers = codes "operator.h3poteto.dev/endpointgroupbindings" ∷ [];
      spec = record {
        endpoint_group_arn = codes "group";
        client_ip_preservation = true;
        weight = some 100;
        service_ref = some (codes "app");
        ingress_ref = none;
      };
    }

reconcile-Follows_example :
    Follows bound
      (reconcile granting
        (λ ids. ids)
        (λ ids. ids)
        (λ k. some (codes "default", k))
        bound
        (record { world = 0; log = [] })).1.log
reconcile-Follows_example =
    reconcile-Follows granting bound (λ ids. ids) (λ ids. ids) (λ k. some (codes "default", k)) 0

-- The lease is got, the caches come, the first controller starts a worker, and a signal comes.
abbrev start_up : List SystemEvent
start_up =
    acquire_lease
    ∷ start_informers
    ∷ informer_syncs services
    ∷ run_goes 0 go_on
    ∷ run_goes 0 go_on
    ∷ signal
    ∷ run_goes 1 give_up
    ∷ []

process-IsSound_example :
    IsSound 2 (run_events 2 true (λ controllers. controllers) start_up initial_system)
process-IsSound_example = process-IsSound 2 true (λ controllers. controllers) start_up

-- Two controllers at work when the channel is closed.
abbrev at_work : System
at_work = record {
  stage = leading;
  signals = 1;
  is_stopped = true;
  kube_started = true;
  own_started = true;
  has_synced = λ i. true;
  runs =
      (
        accelerator_controller,
        record { phase = serving; started = codes "a" ∷ codes "b" ∷ []; shut_down = [] },
      )
      ∷ (binding_controller, record { phase = serving; started = codes "c" ∷ []; shut_down = [] })
      ∷ [];
}

enough : (i : ℕ) → steps_left 1 i at_work.runs ≤ gives_up i ((1, give_up) ∷ (0, give_up) ∷ [])
enough zero = omega arith
enough (suc zero) = omega arith
enough (suc (suc i)) = omega arith

shutdown_completes_example :
    (run_events 1 true
      (λ controllers. controllers)
      (run_goes 1 give_up ∷ run_goes 0 give_up ∷ all_returned ∷ [])
      at_work).stage
    ≡ exited finished
shutdown_completes_example =
    shutdown_completes 1 true (λ controllers. controllers) ((1, give_up) ∷ (0, give_up) ∷ [])
      at_work refl refl enough

first_signal_ignored_example :
    (run_events 1 true (λ controllers. controllers) (signal ∷ []) initial_system).stage ≡ electing
first_signal_ignored_example =
    first_signal_ignored 1 true (λ controllers. controllers) (signal ∷ []) refl (omega arith)

-- A service that is managed and was a load balancer.
abbrev changed : Service
changed = record app_service {
  service_type = codes "ClusterIP";
  meta = record {
    namespace = codes "default";
    name = codes "app";
    annotations = (managed_annotation, codes "yes") ∷ [];
  };
}

type_change_missed_example :
    (notify_registered
        (new_accelerator_controller (λ obj. some obj.name)).of_services
        (update false app_service changed)
      ≡ none)
    × (notify_registered
          (new_route53_controller (λ obj. some obj.name)).of_services
          (update false app_service changed)
        ≡ none)
unfolding ◌==◌
type_change_missed_example =
    type_change_missed (λ obj. some obj.name) (update false app_service changed) refl
