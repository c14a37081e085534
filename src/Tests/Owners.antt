-- ===== src/Tests/Owners.antt =====
-- The theorems on owners, listings and quiet updates, at examples.
use aws_global_accelerator_c.Prelude.{
  Text, refl, inl, sym, ap, some, [], ◌∷◌, ◌++◌, codes, keep, get, lookup, split, to_lower, ◌==◌,
  Option, none,
}
use aws_global_accelerator_c.Errors.{Result, ok}
use aws_global_accelerator_c.Apis.{tags_annotation, name_annotation}
use aws_global_accelerator_c.Tags.{
  resource_target, create_tags, accelerator_tags, specified_tags, accelerator_name,
  accelerator_owner_tag_value,
}
use aws_global_accelerator_c.Listener.{listener_for_service, port_ranges}
use aws_global_accelerator_c.Cloud.Types.{Accelerator, Request}
use aws_global_accelerator_c.Cloud.Exec.{read_pages}
use aws_global_accelerator_c.Cloud.Sends.{Sends, times}
use aws_global_accelerator_c.Endpoint.{listener_input}
use aws_global_accelerator_c.Accelerator.{create_input}
use aws_global_accelerator_c.GlobalAccelerator.Lookup.{list_global_accelerator_by_resource}
use aws_global_accelerator_c.GlobalAccelerator.Update.{wanted_for_service}
use aws_global_accelerator_c.GlobalAccelerator.Steady.{
  IsAsSent, update_of, reads, update_global_accelerator-Sends,
}
use aws_global_accelerator_c.GlobalAccelerator.Listing.{
  named_by, tag_requests, list_global_accelerator_by_resource-Sends,
}
use aws_global_accelerator_c.Controller.Accelerators.{process_delete, service_round, ingress_round}
use aws_global_accelerator_c.Reconcile.{key}
use aws_global_accelerator_c.Controller.Workers.{run_worker}
use aws_global_accelerator_c.Orderly.Cluster.{is_ours}
use aws_global_accelerator_c.Orderly.Owners.{run_worker-IsOwned}
use aws_global_accelerator_c.Orderly.Named.{names, IsOwned}
use aws_global_accelerator_c.Orderly.Ownership.{process_delete-IsOwned}
use aws_global_accelerator_c.Tests.Granting.{
  app_service, app_tags, lb, listener, group, seen, granting, from,
}

abbrev arn_of : Result Accelerator → Text
arn_of (ok a) = a.accelerator_arn
arn_of _ = []

process_delete-IsOwned_example :
    IsOwned
      (names (resource_target (codes "prod") (codes "service") (codes "default") (codes "app")))
      (process_delete granting 18
        (codes "prod")
        (codes "service")
        (λ k. some (codes "default", codes "app"))
        (codes "default/app")
        (from 4)).1.log
process_delete-IsOwned_example =
    process_delete-IsOwned granting 18 (codes "prod") (codes "service") (codes "default")
      (codes "app") (λ k. some (codes "default", codes "app")) (codes "default/app")
      (λ arn w a e. sym (ap arn_of e)) refl (from 4) tt

abbrev split_at : Text → Option (Text × Text)
split_at k = some (codes "default", k)

run_worker-IsOwned_example :
    IsOwned
      (is_ours (codes "prod"))
      (run_worker
        (service_round granting 18 (codes "prod") split_at)
        (some (key (codes "app")) ∷ [])
        (from 3)).1.log
    × IsOwned
        (is_ours (codes "prod"))
        (run_worker
          (ingress_round granting 18 (codes "prod") split_at (λ t. none))
          (some (key (codes "app")) ∷ [])
          (from 3)).1.log
run_worker-IsOwned_example =
    run_worker-IsOwned granting 18 (codes "prod") split_at (λ arn w a e. sym (ap arn_of e))
      (λ t. none) (some (key (codes "app")) ∷ []) (from 3) tt

list_global_accelerator_by_resource-Sends_example :
    Sends
      (list_global_accelerator_by_resource granting
        (codes "prod")
        (codes "service")
        (codes "default")
        (codes "app"))
      (keep
        (named_by granting (λ arn. app_tags) (codes "prod") (codes "service/default/app"))
        (seen 0 ∷ []))
      (tag_requests (seen 0 ∷ []) ++ times 1 (Request.list_accelerators 100))
unfolding read_pages
list_global_accelerator_by_resource-Sends_example =
    list_global_accelerator_by_resource-Sends granting (λ arn. app_tags) (λ arn w. refl)
      (seen 0 ∷ []) 1 (λ w. (refl, refl)) (codes "prod") (codes "service") (codes "default")
      (codes "app")

app-IsAsSent :
    IsAsSent granting
      (seen 0)
      lb
      (wanted_for_service app_service)
      app_tags
      listener
      group
      (codes "prod")
      (codes "dualstack")
unfolding wanted_for_service create_input listener_input create_tags get lookup ◌==◌
    accelerator_tags specified_tags split accelerator_name accelerator_owner_tag_value
    tags_annotation name_annotation port_ranges listener_for_service to_lower
app-IsAsSent = record {
  enabled = refl;
  named = refl;
  tagged = λ k. refl;
  speaking = refl;
  listening = refl;
  before = [];
  after = [];
  contained = refl;
  tags_answer = λ w. refl;
  listener_answer = λ w. refl;
  group_answer = λ w. refl;
}

update_global_accelerator-Sends_example :
    Sends
      (update_of granting (inl app_service) (seen 0) lb (codes "eu-west-1"))
      tt
      (reads granting (seen 0) lb (wanted_for_service app_service) app_tags listener group)
update_global_accelerator-Sends_example =
    update_global_accelerator-Sends granting (inl app_service) (seen 0) lb app_tags listener group
      (codes "prod") (codes "dualstack") (codes "eu-west-1") app-IsAsSent
