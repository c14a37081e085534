-- ===== src/Tests/Runs.antt =====
-- The theorems on code that calls AWS and Kubernetes, at examples.
use aws_global_accelerator_c.Prelude.{
  split, Text, ◌≡◌, refl, true, some, none, Option, List, [], ◌∷◌, codes, split, arith,
}
use aws_global_accelerator_c.Errors.{ok, err, poll_timeout, listener_not_found}
use aws_global_accelerator_c.Cloud.Exec.{pure}
use aws_global_accelerator_c.Accelerator.{delete_accelerator}
use aws_global_accelerator_c.Accelerator.Poll.{IsOrderly}
use aws_global_accelerator_c.Accelerator.Deploy.{
  delete_accelerator_succeeds, delete_accelerator_times_out,
}
use aws_global_accelerator_c.Route53.Zones.{get_hosted_zone}
use aws_global_accelerator_c.Cloud.Bounds.{SendsAtMost}
use aws_global_accelerator_c.GlobalAccelerator.Cleanup.{cleanup_global_accelerator}
use aws_global_accelerator_c.GlobalAccelerator.Bounds.{
  describes, does_not_describe, cleanup-SendsAtMost,
}
use aws_global_accelerator_c.Route53.Search.{nearest_zone, get_hosted_zone-nearest}
use aws_global_accelerator_c.GlobalAccelerator.Ensure.{
  create_global_accelerator_for_service, create_global_accelerator_for_ingress, create_or_update,
}
use aws_global_accelerator_c.GlobalAccelerator.Creation.{create-listener_refused}
use aws_global_accelerator_c.Reconcile.{Item, key, process_next_work_item}
use aws_global_accelerator_c.Reconcile.Handler.{IsRound, process_next_work_item-IsRound}
use aws_global_accelerator_c.Controller.Accelerators.{
  service_round, ingress_round, process_service_delete, process_service_create_or_update,
}
use aws_global_accelerator_c.Controller.Workers.{run_worker, key_to_service}
use aws_global_accelerator_c.Orderly.Process.{run_worker_deletes_in_order}
use aws_global_accelerator_c.Tests.Granting.{
  app_service, app_ingress, lb, seen, granting, refusing, from,
}

abbrev split_key : Text → Option (Text × Text)
split_key k = some (codes "default", k)

abbrev items : List (Option Item)
items = some (key (codes "app")) ∷ some (key (codes "app")) ∷ []

run_worker_deletes_in_order_example :
    IsOrderly (run_worker (service_round granting 18 (codes "prod") split_key) items (from 3)).1.log
    × IsOrderly
        (run_worker
          (ingress_round granting 18 (codes "prod") split_key (λ t. none))
          items
          (from 3)).1.log
run_worker_deletes_in_order_example =
    run_worker_deletes_in_order granting 18 (codes "prod") split_key (λ t. none) items (from 3) tt

cleanup-SendsAtMost_example :
    SendsAtMost describes 19 (cleanup_global_accelerator granting 18 (codes "acc"))
    × SendsAtMost does_not_describe 6 (cleanup_global_accelerator granting 18 (codes "acc"))
cleanup-SendsAtMost_example =
    cleanup-SendsAtMost granting 1 18 (codes "acc") (λ arn w. omega arith, λ arn w. omega arith)

delete_accelerator_succeeds_example :
    (delete_accelerator granting 18 (codes "acc") (from 3)).0 ≡ ok tt
delete_accelerator_succeeds_example =
    delete_accelerator_succeeds granting (codes "acc") 2 18 (from 3) (seen 1) (omega arith) refl
      ((seen 2, refl, refl), ((seen 1, refl, refl), (seen 0, refl, refl))) (λ w. refl)

delete_accelerator_times_out_example :
    (delete_accelerator granting 2 (codes "acc") (from 5)).0 ≡ err poll_timeout
delete_accelerator_times_out_example =
    delete_accelerator_times_out granting (codes "acc") 2 (from 5) (seen 1) refl
      ((seen 4, refl, refl), ((seen 3, refl, refl), tt))

get_hosted_zone-nearest_example :
    get_hosted_zone granting (codes "www.example.com")
    ≡ nearest_zone granting (codes "www.example.com") (split b'.' (codes "www.example.com"))
get_hosted_zone-nearest_example = get_hosted_zone-nearest granting (codes "www.example.com")

process_next_work_item-IsRound_example :
    IsRound
      (key_to_service granting split_key)
      (process_service_delete granting 18 (codes "prod") split_key)
      (process_service_create_or_update granting 18 (codes "prod"))
      (codes "app")
      (from 3)
      (process_next_work_item
        (key_to_service granting split_key)
        (process_service_delete granting 18 (codes "prod") split_key)
        (process_service_create_or_update granting 18 (codes "prod"))
        (some (key (codes "app")))
        (from 3))
process_next_work_item-IsRound_example =
    process_next_work_item-IsRound (key_to_service granting split_key)
      (process_service_delete granting 18 (codes "prod") split_key)
      (process_service_create_or_update granting 18 (codes "prod")) (codes "app") (from 3)

create-listener_refused_example :
    ((create_global_accelerator_for_service refusing lb app_service
        (codes "prod")
        (codes "eu-west-1")
        (from 0)).0
      ≡ ok (record { arn = some (codes "acc"); error = some listener_not_found }))
    × ((create_global_accelerator_for_ingress refusing
          (λ t. none)
          lb
          app_ingress
          (codes "prod")
          (codes "eu-west-1")
          (from 0)).0
        ≡ ok (record { arn = some (codes "acc"); error = none }))
    × ((create_or_update refusing 18
          (create_global_accelerator_for_ingress refusing
            (λ t. none)
            lb
            app_ingress
            (codes "prod")
            (codes "eu-west-1"))
          (λ accelerator. pure tt)
          []
          (from 0)).0
        ≡ ok (record { arn = some (codes "acc"); created = true; retry_after = 0 }))
create-listener_refused_example =
    create-listener_refused refusing lb app_service (λ t. none) app_ingress (codes "prod")
      (codes "eu-west-1") 18 (λ accelerator. pure tt) (seen 1) listener_not_found (from 0)
      (λ input w. refl, λ arn input w. refl)
