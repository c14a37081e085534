-- ===== src/Route53/Guards.antt =====
-- The operations of `CleanupRecordSet` change only what they may: see `Route53.Guarded`.
use aws_global_accelerator_c.Prelude.{
  Text, true, ◌≡◌, refl, sym, subst, inl, inr, List, [], ◌∷◌, Mem, mem-cons_of_mem, mem-cons_self,
  All, All-map,
}
use aws_global_accelerator_c.Errors.{Result, ok, err, panic}
use aws_global_accelerator_c.Route53.{owned_a_record_sets, owned_metadata}
use aws_global_accelerator_c.Route53.Zones.{list_all_hosted_zone, list_record_sets}
use aws_global_accelerator_c.Route53.Records.{
  find_owned_a_record_sets, find_owned_metadata_record_sets, change_record, delete_record,
}
use aws_global_accelerator_c.Route53.Sync.{
  Owner, owner_value, delete_records, cleanup_zone, cleanup_zones, cleanup_record_set,
}
use aws_global_accelerator_c.Route53.Guarded.{
  ShownBy, Shown, IsOwnedRecord, IsGuarded, changes_nothing, quiet-IsGuarded,
}
use aws_global_accelerator_c.Cloud.Types.{
  HostedZone, RecordSet, Request, Answer, Log, Pages, CloudService,
}
use aws_global_accelerator_c.Cloud.Exec.{call, read_pages}
use aws_global_accelerator_c.Cloud.Triple.{After, Triple, Triple-bind, Triple-pure, Triple-call}
use aws_global_accelerator_c.Cloud.Rules.{After-both, Keeps-Triple, Triple-Keeps, Triple-weaken}
use aws_global_accelerator_c.Cloud.Keeps.{Keeps, Keeps-admitted}

Shown_by-map :
    (zone : Text) (Q R : List RecordSet → Type 0) (q : Request) (answer : Answer q) (X Y : Type 0)
    → ((sets : List RecordSet) → Q sets → R sets)
    → (X → Y)
    → ShownBy zone Q q answer X
    → ShownBy zone R q answer Y
Shown_by-map zone Q R (Request.list_resource_record_sets zone' size) pages X Y f g
      (z, (sets, e, h)) =
    (z, (sets, e, f sets h))
Shown_by-map zone Q R (Request.change_resource_record_sets zone' changes) answer X Y f g h = g h
Shown_by-map zone Q R _ answer X Y f g h = absurd h

pub Shown-map :
    (zone : Text) (Q R : List RecordSet → Type 0)
    → ((sets : List RecordSet) → Q sets → R sets)
    → (log : Log) → Shown zone Q log
    → Shown zone R log
Shown-map zone Q R f [] h = h
Shown-map zone Q R f (e ∷ log) h =
    Shown_by-map zone Q R e.request e.answer _ _ f (Shown-map zone Q R f log) h

All-members : (sets : List RecordSet) → All (λ set. Mem set sets) sets
All-members [] = tt
All-members (set ∷ sets) =
    (mem-cons_self, All-map _ _ (λ x m. mem-cons_of_mem set m) sets (All-members sets))

module _ {W : Type 0} (service : CloudService W) (owner : Owner) where
  abbrev pub Guarded : Log → Type 0
  Guarded = IsGuarded owner.cluster_name

  pub calls :
      {A : Type 0} (q : Request) (result : Answer q → Result A)
      → changes_nothing owner.cluster_name q ≡ true
      → Keeps Guarded (call service q result)
  calls q result h =
      Keeps-admitted service (changes_nothing owner.cluster_name)
        (quiet-IsGuarded owner.cluster_name) q result h

  -- The record sets of the zone have just been listed.
  abbrev pub Got : Text → List RecordSet → Log → Type 0
  Got zone sets log = Guarded log × Shown zone (λ sets'. sets' ≡ sets) log

  pub list-Got : (zone : Text) → Triple Guarded (list_record_sets service zone) (Got zone) Guarded
  unfolding list_record_sets
  list-Got zone = Triple-call service _ _ (λ pages log h. listed pages log _ refl h)
    where
      listed :
          (pages : Pages RecordSet) (log : Log) (r : Result (List RecordSet))
          → read_pages pages [] ≡ r
          → Guarded log
          → After (Got zone) Guarded r (
              record { request = Request.list_resource_record_sets zone 300; answer = pages } ∷ log)
      listed pages log (ok sets) e h = ((tt, h), (refl, (sets, e, refl)))
      listed pages log (err x) e h = (tt, h)
      listed pages log panic e h = (tt, h)

  -- All these may be deleted.
  abbrev Deletable : Text → List RecordSet → Log → Type 0
  Deletable zone sets log =
      Guarded log × All (λ set. Shown zone (IsOwnedRecord owner.cluster_name set) log) sets

  delete_records-Guarded :
      (zone : HostedZone) (sets : List RecordSet)
      → Triple
          (Deletable zone.id sets)
          (delete_records service owner zone sets)
          (λ _. Guarded)
          Guarded
  unfolding delete_records delete_record change_record
  delete_records-Guarded zone [] = Triple-pure tt (λ log h. h.0)
  delete_records-Guarded zone (set ∷ sets) =
      Triple-bind _ _
        (Triple-weaken (λ _ log h. h) (λ log h. h.0)
          (Triple-call service _ _ (λ answer log h.
            After-both (Deletable zone.id sets) answer _ (((h.1.0, tt), h.0), h.1.1))))
        (λ _. delete_records-Guarded zone sets)

  find_a-Deletable :
      (zone : HostedZone)
      → Triple Guarded
          (find_owned_a_record_sets service zone (owner_value owner))
          (Deletable zone.id)
          Guarded
  unfolding find_owned_a_record_sets
  find_a-Deletable zone = Triple-bind _ _ (list-Got zone.id) (λ sets. Triple-pure _ (λ log h. (
    h.0,
    All-map _ _
        (λ set m.
          Shown-map zone.id _ _
            (λ sets' e. (
              owner,
              refl,
              inl (subst (λ l. Mem set (owned_a_record_sets (owner_value owner) l)) (sym e) m),
            ))
            log h.1)
        _ (All-members (owned_a_record_sets (owner_value owner) sets)),
  )))

  find_metadata-Deletable :
      (zone : HostedZone)
      → Triple Guarded
          (find_owned_metadata_record_sets service zone (owner_value owner))
          (Deletable zone.id)
          Guarded
  unfolding find_owned_metadata_record_sets
  find_metadata-Deletable zone = Triple-bind _ _ (list-Got zone.id) (λ sets. Triple-pure _ (λ log h.
      (
        h.0,
        All-map _ _
            (λ set m.
              Shown-map zone.id _ _
                (λ sets' e. (
                  owner,
                  refl,
                  inr (subst (λ l. Mem set (owned_metadata (owner_value owner) l [])) (sym e) m),
                ))
                log h.1)
            _ (All-members (owned_metadata (owner_value owner) sets [])),
      )))

  cleanup_zone-Guarded :
      (zone : HostedZone) → Triple Guarded (cleanup_zone service owner zone) (λ _. Guarded) Guarded
  unfolding cleanup_zone
  cleanup_zone-Guarded zone = Triple-bind _ _ (find_a-Deletable zone) (λ records.
      Triple-bind _ _ (delete_records-Guarded zone records) (λ _.
        Triple-bind _ _ (find_metadata-Deletable zone)
          (λ metadata. delete_records-Guarded zone metadata)))

  cleanup_zones-Guarded :
      (zones : List HostedZone)
      → Triple Guarded (cleanup_zones service owner zones) (λ _. Guarded) Guarded
  unfolding cleanup_zones
  cleanup_zones-Guarded [] = Triple-pure tt (λ log h. h)
  cleanup_zones-Guarded (zone ∷ zones) =
      Triple-bind _ _ (cleanup_zone-Guarded zone) (λ _. cleanup_zones-Guarded zones)

  -- `CleanupRecordSet`
  pub cleanup-IsGuarded : Keeps (IsGuarded owner.cluster_name) (cleanup_record_set service owner)
  unfolding cleanup_record_set list_all_hosted_zone
  cleanup-IsGuarded =
      Triple-Keeps (Triple-bind _ _ (Keeps-Triple (calls _ _ refl)) cleanup_zones-Guarded)
        (λ _ log h. h) (λ log h. h)
