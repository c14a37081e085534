-- ===== src/Route53/Zones.antt =====
-- `GetHostedZone`, `listAllHostedZone` and `listRecordSets`.
use aws_global_accelerator_c.Prelude.{
  ℕ, zero, suc, Text, Option, none, some, List, [], ◌∷◌, ◌++◌, codes, ◌==◌, is_empty, length,
  if◌then◌else◌,
}
use aws_global_accelerator_c.Errors.{errorf, panic}
use aws_global_accelerator_c.Route53.{parent_domain}
use aws_global_accelerator_c.Cloud.Types.{HostedZone, RecordSet, Request, CloudService}
use aws_global_accelerator_c.Cloud.Exec.{Exec, pure, throw, lift, call, read_pages, ◌>>=◌}

-- The loop over the answered zones.
unfoldable pub zone_named : Text → List HostedZone → Option HostedZone
zone_named name [] = none
zone_named name (zone ∷ zones) = if zone.name == name then some zone else zone_named name zones

abbrev pub no_zone : Text → Text
no_zone original = codes "Could not find hosted zone for " ++ original

module _ {W : Type 0} (service : CloudService W) where
  -- `listAllHostedZone`: one request for each page, all of them one event of the log.
  unfoldable pub list_all_hosted_zone : Exec W (List HostedZone)
  list_all_hosted_zone = call service (Request.list_hosted_zones 100) (λ pages. read_pages pages [])

  -- `listRecordSets`: likewise.
  unfoldable pub list_record_sets : Text → Exec W (List RecordSet)
  list_record_sets zone_id =
      call service (Request.list_resource_record_sets zone_id 300) (λ pages. read_pages pages [])

  -- The request of one round.
  unfoldable pub zones_by_name : Text → Exec W (List HostedZone)
  zones_by_name target =
      call service (Request.list_hosted_zones_by_name (target ++ codes ".") 1) (λ r. r)

  -- A zone that is found ends the loop.
  unfoldable pub zone_or_go_on : Option HostedZone → Exec W HostedZone → Exec W HostedZone
  zone_or_go_on (some zone) rest = pure zone
  zone_or_go_on none rest = rest

  -- The loop of `GetHostedZone`, on fuel; out of fuel is a panic.
  unfoldable pub hosted_zone_loop : ℕ → Text → Text → Exec W HostedZone
  hosted_zone_loop zero original target = lift panic
  hosted_zone_loop (suc fuel) original target =
      let rest = hosted_zone_loop fuel original (parent_domain target) in
      if is_empty target then throw (errorf (no_zone original)) else do
        zones ← zones_by_name target
        zone_or_go_on (zone_named (target ++ codes ".") zones) rest

  -- `GetHostedZone`: each round takes a label off, and a name has at most one label more than bytes.
  unfoldable pub get_hosted_zone : Text → Exec W HostedZone
  get_hosted_zone hostname = hosted_zone_loop (suc (suc (length hostname))) hostname hostname
