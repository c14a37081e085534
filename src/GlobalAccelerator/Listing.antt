-- ===== src/GlobalAccelerator/Listing.antt =====
-- `ListGlobalAcceleratorByResource` when all tags can be read.
use aws_global_accelerator_c.Prelude.{
  ℕ, Text, Dict, Bool, ◌&&◌, ◌≡◌, refl, subst, inr, inl, List, [], ◌∷◌, ◌++◌, append_assoc,
  append-nil, keep, keep_ext, Bool-cases, ◌==◌, codes, get, lookup, arith,
}
use aws_global_accelerator_c.Errors.{ok}
use aws_global_accelerator_c.Tags.{
  Tag, tags_contains_all_values, resource_target, accelerator_owner_tag_value, managed_tag_key,
  owner_tag_key, cluster_tag_key,
}
use aws_global_accelerator_c.Tags.Contains.{last_value, get-put_tags}
use aws_global_accelerator_c.Cloud.Types.{Accelerator, Request, CloudService, page_count}
use aws_global_accelerator_c.Cloud.Exec.{read_pages}
use aws_global_accelerator_c.Accelerator.{list_accelerator, list_tags_for_accelerator}
use aws_global_accelerator_c.GlobalAccelerator.Lookup.{
  append_if, with_tags, list_global_accelerator_by_resource,
}
use aws_global_accelerator_c.Cloud.Sends.{Sends, times, Sends-pure, Sends-bind, Sends-call}

-- The requests for the tags of these accelerators, the newest first.
abbrev pub tag_requests : List Accelerator → List Request
tag_requests [] = []
tag_requests (accelerator ∷ accelerators) =
    tag_requests accelerators ++ (Request.list_tags_for_resource accelerator.accelerator_arn ∷ [])

-- The tags say so, by the last one of each key.
abbrev pub says : Text → Text → List Tag → Bool
says owner cluster_name tags =
    (last_value managed_tag_key tags [] == codes "true")
    && (last_value owner_tag_key tags [] == owner
        && last_value cluster_tag_key tags [] == cluster_name)

module _ {W : Type 0} (service : CloudService W) (tags_of : Text → List Tag) where
  -- The tags of every accelerator can be listed, and are these.
  abbrev pub AnswersTags : Type 0
  AnswersTags =
      (arn : Text) (w : W) → (service (Request.list_tags_for_resource arn) w).0 ≡ ok (tags_of arn)

  -- The tags of this accelerator hold the target.
  abbrev pub matches : Dict → Accelerator → Bool
  matches target accelerator = tags_contains_all_values (tags_of accelerator.accelerator_arn) target

  append_if-keep :
      (target : Dict) (accelerator : Accelerator) (accelerators res : List Accelerator)
      → append_if (matches target accelerator) res accelerator ++ keep (matches target) accelerators
        ≡ res ++ keep (matches target) (accelerator ∷ accelerators)
  unfolding keep
  append_if-keep target accelerator accelerators res =
      elim (Bool-cases (matches target accelerator)) [
        | inl e ↦ rw e (append_assoc res (accelerator ∷ []) (keep (matches target) accelerators))
        | inr e ↦ rw e refl
      ]

  Sends-list_tags :
      AnswersTags
      → (accelerator : Accelerator)
      → Sends
          (list_tags_for_accelerator service accelerator.accelerator_arn)
          (tags_of accelerator.accelerator_arn)
          (Request.list_tags_for_resource accelerator.accelerator_arn ∷ [])
  unfolding list_tags_for_accelerator
  Sends-list_tags h accelerator =
      Sends-call service 1 (Request.list_tags_for_resource accelerator.accelerator_arn) _
        (λ w. (h accelerator.accelerator_arn w, refl))

  with_tags-Sends :
      AnswersTags
      → (target : Dict) (accelerators res : List Accelerator)
      → Sends
          (with_tags service target accelerators res)
          (res ++ keep (matches target) accelerators)
          (tag_requests accelerators)
  unfolding with_tags keep
  with_tags-Sends h target [] res = rw append-nil (Sends-pure res)
  with_tags-Sends h target (accelerator ∷ accelerators) res =
      subst
        (λ found.
          Sends (with_tags service target (accelerator ∷ accelerators) res) found
            (tag_requests (accelerator ∷ accelerators)))
        (append_if-keep target accelerator accelerators res)
        (Sends-bind _ _ (Sends-list_tags h accelerator) (
          with_tags-Sends h target accelerators
            (append_if (matches target accelerator) res accelerator)))

  -- The accelerators whose tags say that they are managed, and name this owner and this cluster.
  abbrev pub named_by : Text → Text → Accelerator → Bool
  named_by cluster_name owner accelerator =
      says owner cluster_name (tags_of accelerator.accelerator_arn)

  matches-named_by :
      (cluster_name resource ns name : Text) (accelerator : Accelerator)
      → matches (resource_target cluster_name resource ns name) accelerator
        ≡ named_by cluster_name (resource ++ (b'/' ∷ (ns ++ (b'/' ∷ name)))) accelerator
  unfolding resource_target accelerator_owner_tag_value tags_contains_all_values get lookup
  matches-named_by cluster_name resource ns name accelerator =
      let tags = tags_of accelerator.accelerator_arn in
      rw (get-put_tags managed_tag_key tags []) (
        rw (get-put_tags owner_tag_key tags [])
          (rw (get-put_tags cluster_tag_key tags []) (ground arith)))

  -- If the accelerators can be listed, in `n` pages, and the tags of each, then
  -- `ListGlobalAcceleratorByResource` answers exactly the accelerators whose tags say that they are
  -- managed and name the owner as kind, namespace and name with slashes, and the cluster, in their
  -- order; where a key is there twice the last tag counts. It sends one request for each page and one
  -- for the tags of each accelerator.
  pub list_global_accelerator_by_resource-Sends :
      AnswersTags
      → (accelerators : List Accelerator) (n : ℕ)
      → ((w : W)
          → (read_pages (service (Request.list_accelerators 100) w).0 [] ≡ ok accelerators)
            × (page_count (service (Request.list_accelerators 100) w).0 ≡ n))
      → (cluster_name resource ns name : Text)
      → Sends
          (list_global_accelerator_by_resource service cluster_name resource ns name)
          (keep (named_by cluster_name (resource ++ (b'/' ∷ (ns ++ (b'/' ∷ name))))) accelerators)
          (tag_requests accelerators ++ times n (Request.list_accelerators 100))
  unfolding list_global_accelerator_by_resource list_accelerator
  list_global_accelerator_by_resource-Sends h accelerators n listed cluster_name resource ns name =
      subst
        (λ found.
          Sends (list_global_accelerator_by_resource service cluster_name resource ns name) found
            (tag_requests accelerators ++ times n (Request.list_accelerators 100)))
        (keep_ext _ _ accelerators (matches-named_by cluster_name resource ns name))
        (Sends-bind _ _ (Sends-call service n (Request.list_accelerators 100) _ listed)
          (with_tags-Sends h (resource_target cluster_name resource ns name) accelerators []))
