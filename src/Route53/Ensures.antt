-- ===== src/Route53/Ensures.antt =====
-- The operations of `ensureRoute53` change only what they may: see `Route53.Guarded`.
use aws_global_accelerator_c.Prelude.{
  is_empty, codes, ℕ, zero, suc, Text, Dict, Bool, true, false, ◌≡◌, ◌≢◌, refl, sym, ap, ◌∙◌,
  Option, none, some, List, [], ◌∷◌, ◌++◌,
}
use aws_global_accelerator_c.Errors.{errorf}
use aws_global_accelerator_c.Apis.{LoadBalancerIngress}
use aws_global_accelerator_c.Accelerator.{list_accelerator, list_tags_for_accelerator}
use aws_global_accelerator_c.GlobalAccelerator.Lookup.{
  with_tags, list_global_accelerator_by_hostname,
}
use aws_global_accelerator_c.Route53.{
  owned_a_record_sets, find_a_record, alias_record, parent_domain,
}
use aws_global_accelerator_c.Route53.Zones.{
  no_zone, zone_named, zones_by_name, zone_or_go_on, hosted_zone_loop, get_hosted_zone,
}
use aws_global_accelerator_c.Route53.Records.{
  find_owned_a_record_sets, change_record, create_record_set, create_metadata_record_set,
  update_record_set,
}
use aws_global_accelerator_c.Route53.Sync.{
  Owner, owner_value, create_pair, sync_record, sync_hostname, sync_hostnames, sync_with,
  ensure_route53,
}
use aws_global_accelerator_c.Route53.Guarded.{Shown, IsGuarded}
use aws_global_accelerator_c.Cloud.Types.{
  Accelerator, HostedZone, RecordSet, Request, Log, CloudService,
}
use aws_global_accelerator_c.Cloud.Exec.{Exec}
use aws_global_accelerator_c.Cloud.Triple.{Triple, Triple-bind, Triple-pure, Triple-call}
use aws_global_accelerator_c.Cloud.Rules.{
  After-both, Keeps-Triple, Triple-Keeps, Triple-before, Triple-if,
}
use aws_global_accelerator_c.Cloud.Keeps.{
  Keeps, Keeps-call, Keeps-bind, Keeps-if, Keeps-throw, Keeps-pure, keeps_rules,
}
use aws_global_accelerator_c.Route53.Guards.{Shown-map, Guarded, calls, list-Got}

found_not_none :
    (records records' : List RecordSet) (name : Text) (r : RecordSet)
    → records' ≡ records
    → find_a_record records name ≡ some r
    → find_a_record records' name ≢ none
found_not_none records records' name r e f n =
    let same = sym f ∙ (ap (λ l. find_a_record l name) (sym e) ∙ n) in cc same

module _ {W : Type 0} (service : CloudService W) (owner : Owner) where
  go_on-Guarded :
      (o : Option HostedZone) (rest : Exec W HostedZone)
      → Keeps (Guarded service owner) rest
      → Keeps (Guarded service owner) (zone_or_go_on service o rest)
  unfolding zone_or_go_on
  go_on-Guarded none rest k = k
  go_on-Guarded (some zone) rest k = Keeps-pure zone

  hosted_zone_loop-Guarded :
      (fuel : ℕ) (original target : Text)
      → Keeps (Guarded service owner) (hosted_zone_loop service fuel original target)
  unfolding hosted_zone_loop zones_by_name
  hosted_zone_loop-Guarded zero original target = search keeps_rules
  hosted_zone_loop-Guarded (suc fuel) original target =
      let rest = hosted_zone_loop-Guarded fuel original (parent_domain target) in
      Keeps-if (is_empty target) _ _ (Keeps-throw (errorf (no_zone original))) (
        Keeps-bind _ _
          (calls service owner (Request.list_hosted_zones_by_name (target ++ codes ".") 1) (λ r. r)
            refl)
          (λ zones. go_on-Guarded (zone_named (target ++ codes ".") zones) _ rest))

  -- The owner's aliases in the zone, from a listing that was just made.
  abbrev Aliases : Text → List RecordSet → Log → Type 0
  Aliases zone records log =
      Guarded service owner log
      × Shown zone (λ sets. records ≡ owned_a_record_sets (owner_value owner) sets) log

  find_a-Aliases :
      (zone : HostedZone)
      → Triple
          (Guarded service owner)
          (find_owned_a_record_sets service zone (owner_value owner))
          (Aliases zone.id)
          (Guarded service owner)
  unfolding find_owned_a_record_sets
  find_a-Aliases zone = Triple-bind _ _ (list-Got service owner zone.id) (λ sets.
      Triple-pure _ (λ log h. (
        h.0,
        Shown-map zone.id _ _ (λ sets' e. ap (owned_a_record_sets (owner_value owner)) (sym e)) log
            h.1,
      )))

  create_pair-Guarded :
      (zone : HostedZone) (hostname : Text) (accelerator : Accelerator)
      → Keeps (Guarded service owner) (create_pair service owner zone hostname accelerator)
  unfolding create_pair create_metadata_record_set create_record_set change_record
  create_pair-Guarded zone hostname accelerator =
      Keeps-bind _ _ (Keeps-call service _ _ (λ answer log h. ((tt, tt), h)))
        (λ _. Keeps-call service _ _ (λ answer log h. ((tt, tt), h)))

  sync_record-Guarded :
      (zone : HostedZone) (hostname : Text) (accelerator : Accelerator) (created : Bool)
      (records : List RecordSet) (o : Option RecordSet)
      → find_a_record records hostname ≡ o
      → Triple
          (Aliases zone.id records)
          (sync_record service owner zone hostname accelerator created o)
          (λ _. Guarded service owner)
          (Guarded service owner)
  unfolding sync_record update_record_set change_record alias_record
  sync_record-Guarded zone hostname accelerator created records none e =
      Triple-before (λ log h. h.0)
        (Keeps-Triple
          (Keeps-bind _ _ (create_pair-Guarded zone hostname accelerator) (λ _. Keeps-pure true)))
  sync_record-Guarded zone hostname accelerator created records (some r) e =
      Triple-if _ _ _
        (Triple-bind _ _
          (Triple-call service _ _ (λ answer log h. After-both (Guarded service owner) answer _ (
            (
              Shown-map zone.id _ _
                  (λ sets same. (owner, refl, found_not_none records _ hostname r (sym same) e)) log
                  h.1,
              tt,
            ),
            h.0,
          )))
          (λ _. Triple-pure created (λ log h. h)))
        (Triple-pure created (λ log h. h.0))

  sync_hostname-Guarded :
      (hostname : Text) (accelerator : Accelerator) (created : Bool)
      → Keeps (Guarded service owner) (sync_hostname service owner hostname accelerator created)
  unfolding sync_hostname get_hosted_zone
  sync_hostname-Guarded hostname accelerator created =
      Triple-Keeps
        (Triple-bind _ _ (Keeps-Triple (hosted_zone_loop-Guarded _ hostname hostname)) (λ zone.
          Triple-bind _ _ (find_a-Aliases zone)
            (λ records. sync_record-Guarded zone hostname accelerator created records _ refl)))
        (λ _ log h. h) (λ log h. h)

  sync_hostnames-Guarded :
      (hostnames : List Text) (accelerator : Accelerator) (created : Bool)
      → Keeps (Guarded service owner) (sync_hostnames service owner hostnames accelerator created)
  unfolding sync_hostnames
  sync_hostnames-Guarded [] accelerator created = search keeps_rules
  sync_hostnames-Guarded (hostname ∷ hostnames) accelerator created =
      Keeps-bind _ _ (sync_hostname-Guarded hostname accelerator created)
        (λ created'. sync_hostnames-Guarded hostnames accelerator created')

  sync_with-Guarded :
      (hostnames : List Text) (accelerators : List Accelerator)
      → Keeps (Guarded service owner) (sync_with service owner hostnames accelerators)
  unfolding sync_with
  sync_with-Guarded hostnames (accelerator ∷ []) =
      Keeps-bind _ _ (sync_hostnames-Guarded hostnames accelerator false)
        (λ created. search keeps_rules)
  sync_with-Guarded hostnames _ = search keeps_rules

  with_tags-Guarded :
      (target : Dict) (accelerators found : List Accelerator)
      → Keeps (Guarded service owner) (with_tags service target accelerators found)
  unfolding with_tags list_tags_for_accelerator
  with_tags-Guarded target [] found = search keeps_rules
  with_tags-Guarded target (accelerator ∷ accelerators) found =
      Keeps-bind _ _ (calls service owner _ _ refl)
        (λ tags. with_tags-Guarded target accelerators _)

  -- `ensureRoute53`
  pub ensure-IsGuarded :
      (lb_ingress : LoadBalancerIngress) (hostnames : List Text)
      → Keeps (IsGuarded owner.cluster_name) (ensure_route53 service owner lb_ingress hostnames)
  unfolding ensure_route53 list_global_accelerator_by_hostname list_accelerator
  ensure-IsGuarded lb_ingress hostnames =
      Keeps-bind _ _
        (Keeps-bind _ _ (calls service owner _ _ refl)
          (λ accelerators. with_tags-Guarded _ accelerators []))
        (λ accelerators. sync_with-Guarded hostnames accelerators)
