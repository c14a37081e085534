-- ===== src/Route53/Owned.antt =====
-- Which record sets of a zone belong to an owner.
use mathlib.Core.List.{append_cancel_left, append_cancel_right}
use aws_global_accelerator_c.Prelude.{
  codes, Text, Bool, ◌&&◌, ◌||◌, ◌≡◌, ap, List, [], ◌∷◌, ◌++◌, ◌==◌, any, contains, keep,
  contains-append, keep_ext, pieces_injective, Lacks, arith, Bool-cases, inl, inr,
}
use aws_global_accelerator_c.Cloud.Types.{RecordSet}
use aws_global_accelerator_c.Route53.{
  owned_names_of, owned_names, owned_a_record_sets, hostname_contains, is_alias,
  route53_owner_value,
}

contains-owned_names_of :
    (n owner name : Text) (values found : List Text)
    → contains n (owned_names_of owner name values found)
      ≡ (contains n found || ((name == n) && contains owner values))
unfolding owned_names_of contains
contains-owned_names_of n owner name [] found = ground arith
contains-owned_names_of n owner name (value ∷ values) found = elim (Bool-cases (value == owner)) [
  | inl e ↦
      let ih = contains-owned_names_of n owner name values (found ++ (name ∷ [])) in
      let app = contains-append n found (name ∷ []) in ground (arith, e, ih, app)
  | inr e ↦ let ih = contains-owned_names_of n owner name values found in ground (arith, e, ih)
]

-- This record set holds the owner's value, under this name.
abbrev pub marks : Text → Text → RecordSet → Bool
marks owner name set = (set.name == name) && contains owner set.resource_records

contains-owned_names :
    (n owner : Text) (sets : List RecordSet) (found : List Text)
    → contains n (owned_names owner sets found) ≡ (contains n found || any (marks owner n) sets)
unfolding owned_names
contains-owned_names n owner [] found = ground arith
contains-owned_names n owner (set ∷ sets) found =
    let one = contains-owned_names_of n owner set.name set.resource_records found in
    let ih =
      contains-owned_names n owner sets
        (owned_names_of owner set.name set.resource_records found) in
    ground (arith, one, ih)

-- `FindOwneredARecordSets` answers exactly the alias record sets for whose name some record set of
-- the zone holds the owner's value, in their order.
pub owned_a_record_sets-marks :
    (owner : Text) (sets : List RecordSet)
    → owned_a_record_sets owner sets
      ≡ keep (λ set. any (marks owner set.name) sets && is_alias set) sets
unfolding owned_a_record_sets hostname_contains
owned_a_record_sets-marks owner sets =
    keep_ext _ _ sets
      (λ set. ap (λ b. b && is_alias set) (contains-owned_names set.name owner sets []))

-- Where the cluster's name holds no comma, and the resource kinds and namespaces hold no slash, two
-- objects with the same owner value in Route 53 are the same object of the same cluster.
pub route53_owner_value_injective :
    (cluster cluster' r r' ns ns' name name' : Text)
    → Lacks b',' cluster
    → Lacks b',' cluster'
    → Lacks b'/' r
    → Lacks b'/' r'
    → Lacks b'/' ns
    → Lacks b'/' ns'
    → route53_owner_value cluster r ns name ≡ route53_owner_value cluster' r' ns' name'
    → (cluster ≡ cluster') × (r ≡ r') × (ns ≡ ns') × (name ≡ name')
unfolding route53_owner_value
route53_owner_value_injective cluster cluster' r r' ns ns' name name' hc hc' hr hr' hn hn' e =
    let p = pieces_injective b',' cluster cluster' _ _ hc hc' (
      append_cancel_left (b'"' ∷ codes "heritage=aws-global-accelerator-controller,cluster=") _ _
        e) in
    let q = pieces_injective b'/' r r' _ _ hr hr' p.1 in
    let t = pieces_injective b'/' ns ns' _ _ hn hn' q.1 in
    (p.0, q.0, t.0, append_cancel_right name name' (b'"' ∷ []) t.1)
