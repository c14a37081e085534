-- ===== src/Tests/Records.antt =====
-- The theorems on Route 53 record sets and on the endpoint IDs of a binding, at examples.
use aws_global_accelerator_c.Prelude.{
  Text, ◌&&◌, ◌≡◌, refl, true, some, none, any, List, [], ◌∷◌, codes, keep, contains, arith, ℕ,
}
use aws_global_accelerator_c.Errors.{ok}
use aws_global_accelerator_c.Reconcile.{key}
use aws_global_accelerator_c.Controller.Workers.{run_worker}
use aws_global_accelerator_c.Controller.Records.{service_records_round, ingress_records_round}
use aws_global_accelerator_c.Route53.Guarded.{IsGuarded}
use aws_global_accelerator_c.Route53.Worker.{run_worker-IsGuarded}
use aws_global_accelerator_c.Cloud.Types.{RecordSet, Request, CloudService, last_page, a, txt}
use aws_global_accelerator_c.Route53.{owned_a_record_sets, is_alias, route53_owner_value}
use aws_global_accelerator_c.Route53.Owned.{
  marks, owned_a_record_sets-marks, route53_owner_value_injective,
}
use aws_global_accelerator_c.Binding.Endpoints.{new_endpoint_ids, removed_endpoint_ids}
use aws_global_accelerator_c.Binding.Converge.{updated, updated_converges}
use aws_global_accelerator_c.Tests.Granting.{granting, from}

abbrev owner : Text
owner = route53_owner_value (codes "prod") (codes "service") (codes "default") (codes "app")

abbrev sets : List RecordSet
sets =
    record {
      name = codes "app.example.com.";
      record_type = txt;
      ttl = some 300;
      resource_records = owner ∷ [];
      alias_target = none;
    }
    ∷ record {
      name = codes "app.example.com.";
      record_type = a;
      ttl = none;
      resource_records = [];
      alias_target = some (record {
        dns_name = codes "x.";
        evaluate_target_health = true;
        hosted_zone_id = codes "Z";
      });
    }
    ∷ []

owned_a_record_sets-marks_example :
    owned_a_record_sets owner sets
    ≡ keep (λ set. any (marks owner set.name) sets && is_alias set) sets
owned_a_record_sets-marks_example = owned_a_record_sets-marks owner sets

route53_owner_value_injective_example :
    (codes "prod" ≡ codes "prod")
    × (codes "service" ≡ codes "service")
    × (codes "default" ≡ codes "default")
    × (codes "app" ≡ codes "app")
route53_owner_value_injective_example =
    route53_owner_value_injective (codes "prod") (codes "prod") (codes "service") (codes "service")
      (codes "default") (codes "default") (codes "app") (codes "app") (omega arith) (omega arith)
      (omega arith) (omega arith) (omega arith) (omega arith) refl

abbrev arns : List Text
arns = codes "new" ∷ codes "kept" ∷ []

abbrev status : List Text
status = codes "kept" ∷ codes "gone" ∷ []

updated_converges_example :
    ((id : Text) → contains id (updated arns status) ≡ contains id arns)
    × (new_endpoint_ids arns (updated arns status) ≡ [])
    × (removed_endpoint_ids arns (updated arns status) ≡ [])
updated_converges_example = updated_converges arns status

-- A zone that holds the two record sets, and the rest as granted.
abbrev zoned : CloudService ℕ
zoned (Request.list_hosted_zones size) n =
    (last_page (ok (record { id = codes "Z"; name = codes "example.com." } ∷ [])), n)
zoned (Request.list_resource_record_sets zone size) n = (last_page (ok sets), n)
zoned q n = granting q n

run_worker-IsGuarded_example :
    IsGuarded
      (codes "prod")
      (run_worker
        (service_records_round zoned (codes "prod") (λ k. some (codes "default", k)))
        (some (key (codes "app")) ∷ [])
        (from 0)).1.log
    × IsGuarded
        (codes "prod")
        (run_worker
          (ingress_records_round zoned (codes "prod") (λ k. some (codes "default", k)))
          (some (key (codes "app")) ∷ [])
          (from 0)).1.log
run_worker-IsGuarded_example =
    run_worker-IsGuarded zoned (codes "prod") (λ k. some (codes "default", k))
      (some (key (codes "app")) ∷ []) (from 0) tt
