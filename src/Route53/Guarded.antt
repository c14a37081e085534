-- ===== src/Route53/Guarded.antt =====
-- Which record sets a worker of the Route 53 controller may change, told from its log: the newest
-- listing of the zone, from which on there are only changes, shows whose they are.
use aws_global_accelerator_c.Prelude.{
  Text, Bool, true, false, ◌≡◌, ◌≢◌, ◌⊎◌, none, List, [], ◌∷◌, Mem, All,
}
use aws_global_accelerator_c.Errors.{ok}
use aws_global_accelerator_c.Route53.{owned_a_record_sets, owned_metadata, find_a_record}
use aws_global_accelerator_c.Route53.Sync.{Owner, owner_value}
use aws_global_accelerator_c.Cloud.Types.{
  RecordSet, ChangeAction, create, delete, upsert, Request, Answer, Log,
}
use aws_global_accelerator_c.Cloud.Exec.{read_pages}
use aws_global_accelerator_c.Cloud.Keeps.{Admits}

-- What is known of the record sets of a zone by its newest listing, with what was known before.
abbrev pub ShownBy : Text → (List RecordSet → Type 0) → (q : Request) → Answer q → Type 0 → Type 0
ShownBy zone Q (Request.list_resource_record_sets zone' size) pages before =
    (zone' ≡ zone) × ((sets : List RecordSet) × (read_pages pages [] ≡ ok sets) × Q sets)
ShownBy zone Q (Request.change_resource_record_sets zone' changes) answer before = before
ShownBy zone Q _ answer before = ⊥

abbrev pub Shown : Text → (List RecordSet → Type 0) → Log → Type 0
Shown zone Q [] = ⊥
Shown zone Q (e ∷ log) = ShownBy zone Q e.request e.answer (Shown zone Q log)

module _ (cluster_name : Text) where
  -- The listed record sets show that some object of the cluster owns this one: it is one of its
  -- aliases or holds its text.
  abbrev pub IsOwnedRecord : RecordSet → List RecordSet → Type 0
  IsOwnedRecord set sets =
      (owner : Owner) × (owner.cluster_name ≡ cluster_name)
      × (Mem set (owned_a_record_sets (owner_value owner) sets)
          ⊎ Mem set (owned_metadata (owner_value owner) sets []))

  -- They show that some object of the cluster owns an alias of this name.
  abbrev pub IsOwnedName : Text → List RecordSet → Type 0
  IsOwnedName name sets =
      (owner : Owner) × (owner.cluster_name ≡ cluster_name)
      × (find_a_record (owned_a_record_sets (owner_value owner) sets) name ≢ none)

  -- What is known before a change: nothing for a new record set.
  abbrev pub MayChange : Text → Log → ChangeAction → RecordSet → Type 0
  MayChange zone log create set = Unit {0}
  MayChange zone log delete set = Shown zone (IsOwnedRecord set) log
  MayChange zone log upsert set = Shown zone (IsOwnedName set.name) log

  abbrev pub MayRequest : Log → Request → Type 0
  MayRequest log (Request.change_resource_record_sets zone changes) =
      All (λ change. MayChange zone log change.action change.record_set) changes
  MayRequest log _ = Unit {0}

  -- It holds of every request of the log.
  abbrev pub IsGuarded : Log → Type 0
  IsGuarded [] = Unit {0}
  IsGuarded (e ∷ log) = MayRequest log e.request × IsGuarded log

  -- The requests that change no record set.
  abbrev pub changes_nothing : Request → Bool
  changes_nothing (Request.change_resource_record_sets zone changes) = false
  changes_nothing _ = true

  quiet-MayRequest : (q : Request) (log : Log) → changes_nothing q ≡ true → MayRequest log q
  quiet-MayRequest (Request.change_resource_record_sets zone changes) log h = cc
  quiet-MayRequest _ log h = tt

  pub quiet-IsGuarded : Admits changes_nothing IsGuarded
  quiet-IsGuarded q answer log h p = (quiet-MayRequest q log h, p)
