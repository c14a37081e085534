-- ===== src/Route53.antt =====
-- pkg/cloudprovider/aws/route53.go: the pure helpers. The operations are in the modules below.
pub mod Zones
pub mod Records
pub mod Sync
pub mod Search
pub mod Owned
pub mod Guarded
pub mod Guards
pub mod Ensures
pub mod Worker
use aws_global_accelerator_c.Prelude.{
  ℕ, Text, Bool, true, false, not, ◌&&◌, Option, none, some, List, [], ◌∷◌, ◌++◌, codes, ◌==◌, keep,
  strip_prefix, split, join, contains, if◌then◌else◌,
}
use aws_global_accelerator_c.Cloud.Types.{
  Accelerator, AliasTarget, HostedZone, RecordSet, RecordType, a, txt, other_type,
}

-- `Route53OwnerValue`
unfoldable pub route53_owner_value : Text → Text → Text → Text → Text
route53_owner_value cluster_name resource ns name =
    (b'"' ∷ codes "heritage=aws-global-accelerator-controller,cluster=")
    ++ (cluster_name ++ (b',' ∷ (resource ++ (b'/' ∷ (ns ++ (b'/' ∷ (name ++ (b'"' ∷ []))))))))

-- The escape that Route 53 gives for `*`.
abbrev pub escaped_star : Text
escaped_star = b'\\' ∷ codes "052"

abbrev starred : Text → Option Text → Text → Text
starred s (some rest) later = b'*' ∷ rest
starred [] none later = []
starred (c ∷ s) none later = c ∷ later

-- `replaceWildcards`: `strings.Replace` with a count of 1, so the first escape only.
unfoldable pub replace_wildcards : Text → Text
replace_wildcards [] = []
replace_wildcards (c ∷ s) =
    let later = replace_wildcards s in starred (c ∷ s) (strip_prefix escaped_star (c ∷ s)) later

abbrev is_type_a : RecordType → Bool
is_type_a a = true
is_type_a _ = false

-- `findARecord`
unfoldable pub find_a_record : List RecordSet → Text → Option RecordSet
unfolding replace_wildcards
find_a_record [] hostname = none
find_a_record (r ∷ records) hostname =
    if is_type_a r.record_type && (replace_wildcards r.name == hostname ++ codes ".")
    then some r
    else find_a_record records hostname

-- `needRecordsUpdate`
unfoldable pub need_records_update : RecordSet → Accelerator → Bool
need_records_update r accelerator = elim r.alias_target [
  | none ↦ true
  | some target ↦ not (target.dns_name == accelerator.dns_name ++ codes ".")
]

abbrev tail : List Text → List Text
tail [] = []
tail (x ∷ xs) = xs

-- `parentDomain`
unfoldable pub parent_domain : Text → Text
parent_domain hostname = join b'.' (tail (split b'.' hostname))

-- `hostnameContains`
unfoldable pub hostname_contains : List Text → Text → Bool
unfolding contains
hostname_contains hostnames target_name = contains target_name hostnames

-- The inner loop: the set's name once for each record with the owner's value.
unfoldable pub owned_names_of : Text → Text → List Text → List Text → List Text
owned_names_of owner name [] found = found
owned_names_of owner name (value ∷ values) found =
    owned_names_of owner name values (if value == owner then found ++ (name ∷ []) else found)

unfoldable pub owned_names : Text → List RecordSet → List Text → List Text
unfolding owned_names_of
owned_names owner [] found = found
owned_names owner (set ∷ sets) found =
    owned_names owner sets (owned_names_of owner set.name set.resource_records found)

abbrev pub is_alias : RecordSet → Bool
is_alias set = elim set.alias_target [ none ↦ false | some target ↦ true ]

-- `FindOwneredARecordSets`, from the record sets of the zone on.
unfoldable pub owned_a_record_sets : Text → List RecordSet → List RecordSet
unfolding owned_names hostname_contains
owned_a_record_sets owner sets =
    keep (λ set. hostname_contains (owned_names owner sets []) set.name && is_alias set) sets

-- `findOwneredMetadataRecordSets`: a set once for each of its records with the owner's value.
unfoldable pub metadata_of : Text → RecordSet → List Text → List RecordSet → List RecordSet
metadata_of owner set [] found = found
metadata_of owner set (value ∷ values) found =
    metadata_of owner set values (if value == owner then found ++ (set ∷ []) else found)

unfoldable pub owned_metadata : Text → List RecordSet → List RecordSet → List RecordSet
unfolding metadata_of
owned_metadata owner [] found = found
owned_metadata owner (set ∷ sets) found =
    owned_metadata owner sets (metadata_of owner set set.resource_records found)

abbrev global_accelerator_zone : Text
global_accelerator_zone = codes "Z2BJ6XQ5FK7U4H"

-- The record set of `createRecordSet` and `updateRecordSet`.
unfoldable pub alias_record : Text → Accelerator → RecordSet
alias_record hostname accelerator = record {
  name = hostname;
  record_type = a;
  ttl = none;
  resource_records = [];
  alias_target = some (record {
    dns_name = accelerator.dns_name;
    evaluate_target_health = true;
    hosted_zone_id = global_accelerator_zone;
  });
}

-- The record set of `createMetadataRecordSet`.
unfoldable pub metadata_record : Text → Text → RecordSet
metadata_record hostname owner = record {
  name = hostname;
  record_type = txt;
  ttl = some 300;
  resource_records = owner ∷ [];
  alias_target = none;
}
