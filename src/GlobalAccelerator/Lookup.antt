-- ===== src/GlobalAccelerator/Lookup.antt =====
-- `ListGlobalAcceleratorByHostname`, `ListGlobalAcceleratorByResource`, `acceleratorChanged`.
use aws_global_accelerator_c.Prelude.{
  Text, Dict, Bool, true, false, not, ◌⊎◌, inl, inr, List, [], ◌∷◌, ◌++◌, ◌==◌, if◌then◌else◌,
}
use aws_global_accelerator_c.Errors.{Error}
use aws_global_accelerator_c.Apis.{ObjectMeta}
use aws_global_accelerator_c.Tags.{
  Tag, hostname_target, resource_target, target_tags, tags_contains_all_values, accelerator_name,
}
use aws_global_accelerator_c.Cloud.Types.{Accelerator, CloudService}
use aws_global_accelerator_c.Cloud.Exec.{Exec, pure, attempt, ◌>>=◌}
use aws_global_accelerator_c.Accelerator.{list_accelerator, list_tags_for_accelerator}

-- `append(res, accelerator)` if the tags are right.
abbrev pub append_if : Bool → List Accelerator → Accelerator → List Accelerator
append_if true res accelerator = res ++ (accelerator ∷ [])
append_if false res accelerator = res

-- What the error of the tags, or the tags, make of `acceleratorChanged`.
abbrev pub tags_changed : Dict → Error ⊎ List Tag → Bool
tags_changed target (inl e) = false
tags_changed target (inr tags) = not (tags_contains_all_values tags target)

module _ {W : Type 0} (service : CloudService W) where
  -- The loop over the accelerators of both functions.
  unfoldable pub with_tags : Dict → List Accelerator → List Accelerator → Exec W (List Accelerator)
  with_tags target [] res = pure res
  with_tags target (accelerator ∷ accelerators) res = do
    tags ← list_tags_for_accelerator service accelerator.accelerator_arn
    with_tags target accelerators (append_if (tags_contains_all_values tags target) res accelerator)

  -- `ListGlobalAcceleratorByHostname`
  unfoldable pub list_global_accelerator_by_hostname : Text → Text → Exec W (List Accelerator)
  list_global_accelerator_by_hostname hostname cluster_name = do
    accelerators ← list_accelerator service
    with_tags (hostname_target hostname cluster_name) accelerators []

  -- `ListGlobalAcceleratorByResource`
  unfoldable pub list_global_accelerator_by_resource :
      Text → Text → Text → Text → Exec W (List Accelerator)
  list_global_accelerator_by_resource cluster_name resource ns name = do
    accelerators ← list_accelerator service
    with_tags (resource_target cluster_name resource ns name) accelerators []

  -- `acceleratorChanged`: an error of the tags counts as no change.
  unfoldable pub accelerator_changed : Accelerator → Text → Text → ObjectMeta → Exec W Bool
  accelerator_changed accelerator hostname resource obj =
      if not accelerator.is_enabled
      then pure true
      else if not (accelerator.name == accelerator_name resource obj)
      then pure true
      else do
        tags ← attempt (list_tags_for_accelerator service accelerator.accelerator_arn)
        pure (tags_changed (target_tags hostname resource obj) tags)
