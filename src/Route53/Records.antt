-- ===== src/Route53/Records.antt =====
-- The requests on record sets.
use aws_global_accelerator_c.Prelude.{Text, List, [], ◌∷◌}
use aws_global_accelerator_c.Route53.{
  route53_owner_value, owned_a_record_sets, owned_metadata, alias_record, metadata_record,
}
use aws_global_accelerator_c.Route53.Zones.{list_record_sets}
use aws_global_accelerator_c.Cloud.Types.{
  Accelerator, HostedZone, RecordSet, ChangeAction, create, delete, upsert, Request, CloudService,
}
use aws_global_accelerator_c.Cloud.Exec.{Exec, pure, call, ◌>>=◌}

module _ {W : Type 0} (service : CloudService W) where
  -- `FindOwneredARecordSets`
  unfoldable pub find_owned_a_record_sets : HostedZone → Text → Exec W (List RecordSet)
  find_owned_a_record_sets zone owner = do
    sets ← list_record_sets service zone.id
    pure (owned_a_record_sets owner sets)

  -- `findOwneredMetadataRecordSets`
  unfoldable pub find_owned_metadata_record_sets : HostedZone → Text → Exec W (List RecordSet)
  find_owned_metadata_record_sets zone owner = do
    sets ← list_record_sets service zone.id
    pure (owned_metadata owner sets [])

  -- One change of one record set.
  unfoldable pub change_record : HostedZone → ChangeAction → RecordSet → Exec W (Unit {0})
  change_record zone action set =
      call service
        (Request.change_resource_record_sets zone.id
          (record { action = action; record_set = set } ∷ []))
        (λ r. r)

  -- `deleteRecord`
  unfoldable pub delete_record : HostedZone → RecordSet → Exec W (Unit {0})
  delete_record zone set = change_record zone delete set

  -- `createRecordSet`
  unfoldable pub create_record_set : HostedZone → Text → Accelerator → Exec W (Unit {0})
  create_record_set zone hostname accelerator =
      change_record zone create (alias_record hostname accelerator)

  -- `createMetadataRecordSet`
  unfoldable pub create_metadata_record_set :
      HostedZone → Text → Text → Text → Text → Text → Exec W (Unit {0})
  create_metadata_record_set zone hostname cluster_name resource ns name =
      change_record zone create
        (metadata_record hostname (route53_owner_value cluster_name resource ns name))

  -- `updateRecordSet`
  unfoldable pub update_record_set : HostedZone → Text → Accelerator → Exec W (Unit {0})
  update_record_set zone hostname accelerator =
      change_record zone upsert (alias_record hostname accelerator)
