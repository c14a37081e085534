-- ===== src/Route53/Sync.antt =====
-- `ensureRoute53` with its two callers, and `CleanupRecordSet`.
use aws_global_accelerator_c.Prelude.{
  ℕ, Text, Bool, true, false, Option, none, some, List, [], ◌∷◌, codes, if◌then◌else◌,
}
use aws_global_accelerator_c.Apis.{Service, Ingress, LoadBalancerIngress}
use aws_global_accelerator_c.Route53.{route53_owner_value, find_a_record, need_records_update}
use aws_global_accelerator_c.Route53.Zones.{get_hosted_zone, list_all_hosted_zone}
use aws_global_accelerator_c.Route53.Records.{
  find_owned_a_record_sets, find_owned_metadata_record_sets, delete_record, create_record_set,
  create_metadata_record_set, update_record_set,
}
use aws_global_accelerator_c.GlobalAccelerator.Lookup.{list_global_accelerator_by_hostname}
use aws_global_accelerator_c.Cloud.Types.{Accelerator, HostedZone, RecordSet, CloudService}
use aws_global_accelerator_c.Cloud.Exec.{Exec, pure, ◌>>=◌}

-- `(bool, time.Duration)`; the duration in seconds.
pub record Synced : Type 0 where
  pub created : Bool
  pub retry_after : ℕ

-- The owner of the records: the cluster, the kind, the namespace and the name.
pub record Owner : Type 0 where
  pub cluster_name : Text
  pub resource : Text
  pub namespace : Text
  pub name : Text

abbrev pub owner_value : Owner → Text
owner_value o = route53_owner_value o.cluster_name o.resource o.namespace o.name

module _ {W : Type 0} (service : CloudService W) (owner : Owner) where
  -- A new pair of record sets: first the owner's text, then the alias.
  unfoldable pub create_pair : HostedZone → Text → Accelerator → Exec W (Unit {0})
  create_pair zone hostname accelerator = do
    _ ←
        create_metadata_record_set service zone hostname owner.cluster_name owner.resource
          owner.namespace owner.name
    create_record_set service zone hostname accelerator

  -- One round of the loop: whether a record was created.
  unfoldable pub sync_record :
      HostedZone → Text → Accelerator → Bool → Option RecordSet → Exec W Bool
  sync_record zone hostname accelerator created none = do
    _ ← create_pair zone hostname accelerator
    pure true
  sync_record zone hostname accelerator created (some r) =
      if need_records_update r accelerator
      then (do _ ← update_record_set service zone hostname accelerator; pure created)
      else pure created

  unfoldable pub sync_hostname : Text → Accelerator → Bool → Exec W Bool
  sync_hostname hostname accelerator created = do
    zone ← get_hosted_zone service hostname
    records ← find_owned_a_record_sets service zone (owner_value owner)
    sync_record zone hostname accelerator created (find_a_record records hostname)

  -- The loop over the host names.
  unfoldable pub sync_hostnames : List Text → Accelerator → Bool → Exec W Bool
  sync_hostnames [] accelerator created = pure created
  sync_hostnames (hostname ∷ hostnames) accelerator created = do
    created' ← sync_hostname hostname accelerator created
    sync_hostnames hostnames accelerator created'

  -- None or several accelerators for the load balancer: come back after a minute.
  unfoldable pub sync_with : List Text → List Accelerator → Exec W Synced
  sync_with hostnames (accelerator ∷ []) = do
    created ← sync_hostnames hostnames accelerator false
    pure (record { created = created; retry_after = 0 })
  sync_with hostnames _ = pure (record { created = false; retry_after = 60 })

  -- `ensureRoute53`
  unfoldable pub ensure_route53 : LoadBalancerIngress → List Text → Exec W Synced
  ensure_route53 lb_ingress hostnames = do
    accelerators ←
        list_global_accelerator_by_hostname service lb_ingress.hostname owner.cluster_name
    sync_with hostnames accelerators

  -- The inner loops of `CleanupRecordSet`.
  unfoldable pub delete_records : HostedZone → List RecordSet → Exec W (Unit {0})
  delete_records zone [] = pure tt
  delete_records zone (set ∷ sets) = do _ ← delete_record service zone set; delete_records zone sets

  unfoldable pub cleanup_zone : HostedZone → Exec W (Unit {0})
  cleanup_zone zone = do
    records ← find_owned_a_record_sets service zone (owner_value owner)
    _ ← delete_records zone records
    metadata ← find_owned_metadata_record_sets service zone (owner_value owner)
    delete_records zone metadata

  unfoldable pub cleanup_zones : List HostedZone → Exec W (Unit {0})
  cleanup_zones [] = pure tt
  cleanup_zones (zone ∷ zones) = do _ ← cleanup_zone zone; cleanup_zones zones

  -- `CleanupRecordSet`
  unfoldable pub cleanup_record_set : Exec W (Unit {0})
  cleanup_record_set = do zones ← list_all_hosted_zone service; cleanup_zones zones

module _ {W : Type 0} (service : CloudService W) where
  -- `EnsureRoute53ForService`
  unfoldable pub ensure_route53_for_service :
      Service → LoadBalancerIngress → List Text → Text → Exec W Synced
  ensure_route53_for_service svc lb_ingress hostnames cluster_name =
      ensure_route53 service
        (record {
          cluster_name = cluster_name;
          resource = codes "service";
          namespace = svc.meta.namespace;
          name = svc.meta.name;
        })
        lb_ingress hostnames

  -- `EnsureRoute53ForIngress`: the copy keeps the IP and the host name.
  unfoldable pub ensure_route53_for_ingress :
      Ingress → LoadBalancerIngress → List Text → Text → Exec W Synced
  ensure_route53_for_ingress ingress lb_ingress hostnames cluster_name =
      ensure_route53 service
        (record {
          cluster_name = cluster_name;
          resource = codes "ingress";
          namespace = ingress.meta.namespace;
          name = ingress.meta.name;
        })
        (record { ip = lb_ingress.ip; hostname = lb_ingress.hostname }) hostnames
