-- ===== src/Tags.antt =====
-- pkg/cloudprovider/aws/global_accelerator.go: the names and tags of an accelerator.
pub mod Contains
pub mod Target
pub mod Owner
use aws_global_accelerator_c.Prelude.{
  Text, Dict, Bool, true, List, [], ◌∷◌, ◌++◌, map, all, codes, ◌==◌, is_empty, split, join, get,
  insert, if◌then◌else◌,
}
use aws_global_accelerator_c.Apis.{ObjectMeta, name_annotation, tags_annotation}

unfoldable pub managed_tag_key : Text
managed_tag_key = codes "aws-global-accelerator-controller-managed"

unfoldable pub owner_tag_key : Text
owner_tag_key = codes "aws-global-accelerator-owner"

unfoldable pub target_hostname_key : Text
target_hostname_key = codes "aws-global-accelerator-target-hostname"

unfoldable pub cluster_tag_key : Text
cluster_tag_key = codes "aws-global-accelerator-cluster"

abbrev pub true_value : Text
true_value = codes "true"

pub record Tag : Type 0 where
  pub key : Text
  pub value : Text

-- `acceleratorOwnerTagValue`
unfoldable pub accelerator_owner_tag_value : Text → Text → Text → Text
accelerator_owner_tag_value resource ns name = resource ++ (b'/' ∷ (ns ++ (b'/' ∷ name)))

-- One round of the loop: a piece that is not `key=value` is skipped.
abbrev pub specified_tag : List Text → List Tag → List Tag
specified_tag (k ∷ v ∷ []) rest = record { key = k; value = v } ∷ rest
specified_tag _ rest = rest

unfoldable pub specified_tags : List Text → List Tag
specified_tags [] = []
specified_tags (tag ∷ tags) = specified_tag (split b'=' tag) (specified_tags tags)

-- `acceleratorTags`
unfoldable pub accelerator_tags : ObjectMeta → List Tag
unfolding specified_tags
accelerator_tags obj = specified_tags (split b',' (get tags_annotation obj.annotations))

-- `acceleratorName`
unfoldable pub accelerator_name : Text → ObjectMeta → Text
accelerator_name resource obj =
    let name = get name_annotation obj.annotations in
    if is_empty name then resource ++ (b'-' ∷ (obj.namespace ++ (b'-' ∷ obj.name))) else name

-- The loop `for _, t := range tags { m[*t.Key] = *t.Value }`.
unfoldable pub put_tags : List Tag → Dict → Dict
put_tags [] m = m
put_tags (t ∷ ts) m = put_tags ts (insert t.key t.value m)

-- `tagsContainsAllValues`
unfoldable pub tags_contains_all_values : List Tag → Dict → Bool
unfolding put_tags
tags_contains_all_values tags target =
    let actual = put_tags tags [] in all (λ (k, v). get k actual == v) target

-- The map that `ListGlobalAcceleratorByHostname` looks for.
unfoldable pub hostname_target : Text → Text → Dict
hostname_target hostname cluster_name =
    (managed_tag_key, true_value)
    ∷ (target_hostname_key, hostname)
    ∷ (cluster_tag_key, cluster_name)
    ∷ []

-- The map that `ListGlobalAcceleratorByResource` looks for.
unfoldable pub resource_target : Text → Text → Text → Text → Dict
resource_target cluster_name resource ns name =
    (managed_tag_key, true_value)
    ∷ (owner_tag_key, accelerator_owner_tag_value resource ns name)
    ∷ (cluster_tag_key, cluster_name)
    ∷ []

-- The map of `acceleratorChanged`: three literal entries, then the tags of the annotation.
unfoldable pub target_tags : Text → Text → ObjectMeta → Dict
unfolding put_tags
target_tags hostname resource obj = put_tags (accelerator_tags obj) (
    (managed_tag_key, true_value)
    ∷ (owner_tag_key, accelerator_owner_tag_value resource obj.namespace obj.name)
    ∷ (target_hostname_key, hostname)
    ∷ [])

-- The tags that `createAccelerator` sends.
unfoldable pub create_tags : Text → Text → Text → List Tag → List Tag
create_tags owner hostname cluster_name specified =
    (record { key = managed_tag_key; value = true_value }
      ∷ record { key = owner_tag_key; value = owner }
      ∷ record { key = target_hostname_key; value = hostname }
      ∷ record { key = cluster_tag_key; value = cluster_name }
      ∷ [])
    ++ specified

-- The tags that `updateAccelerator` sends.
unfoldable pub update_tags : Text → Text → List Tag → List Tag
update_tags owner hostname specified =
    (record { key = managed_tag_key; value = true_value }
      ∷ record { key = owner_tag_key; value = owner }
      ∷ record { key = target_hostname_key; value = hostname }
      ∷ [])
    ++ specified
