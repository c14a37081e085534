-- ===== src/Orderly/Cluster.antt =====
-- What shows that an accelerator is one of this cluster's, or was created.
use aws_global_accelerator_c.Prelude.{
  Text, Dict, Bool, true, false, ◌&&◌, ◌≡◌, ◌⊎◌, inl, inr, List, [], ◌∷◌, ◌==◌, eq_refl, arith,
}
use aws_global_accelerator_c.Errors.{Error, Result, ok, err, panic}
use aws_global_accelerator_c.Tags.{
  Tag, managed_tag_key, cluster_tag_key, true_value, resource_target, tags_contains_all_values,
}
use aws_global_accelerator_c.Cloud.Types.{
  Accelerator, LoadBalancer, CreateAcceleratorInput, Request, Answer, Log, CloudService,
}
use aws_global_accelerator_c.Cloud.Exec.{attempt, attempted, call}
use aws_global_accelerator_c.Cloud.Triple.{After, Triple}
use aws_global_accelerator_c.Cloud.Keeps.{Keeps, Admits, Keeps-admitted, Keeps-attempt}
use aws_global_accelerator_c.Accelerator.{create_accelerator}
use aws_global_accelerator_c.GlobalAccelerator.Update.{Wanted}
use aws_global_accelerator_c.GlobalAccelerator.Ensure.{create_wanted}
use aws_global_accelerator_c.Orderly.Harmless.{is_harmless}
use aws_global_accelerator_c.Orderly.Named.{WasNamed, Guard, IsOwned}

-- The tags that the accelerators of a cluster have in common.
abbrev pub cluster_target : Text → Dict
cluster_target cluster_name = (managed_tag_key, true_value) ∷ (cluster_tag_key, cluster_name) ∷ []

-- The answer lists the tags of this accelerator, and they say that it is managed and of this cluster;
-- or the accelerator was created by the request.
abbrev pub is_ours : Text → Text → (q : Request) → Answer q → Bool
is_ours cluster_name arn (Request.list_tags_for_resource arn') (ok tags) =
    (arn' == arn) && tags_contains_all_values tags (cluster_target cluster_name)
is_ours cluster_name arn (Request.create_accelerator input) (ok a) = a.accelerator_arn == arn
is_ours cluster_name arn _ _ = false

-- The tags of an owner are among those of its cluster.
pub owner_is_ours :
    (cluster_name resource ns name arn : Text) (tags : List Tag)
    → tags_contains_all_values tags (resource_target cluster_name resource ns name) ≡ true
    → is_ours cluster_name arn (Request.list_tags_for_resource arn) (ok tags) ≡ true
unfolding tags_contains_all_values resource_target
owner_is_ours cluster_name resource ns name arn tags h = rw eq_refl (ground (arith, h))

module _ {W : Type 0} (cloud : CloudService W) (cluster_name : Text) where
  abbrev pub ours : Text → (q : Request) → Answer q → Bool
  ours = is_ours cluster_name

  harmless-Guard : (q : Request) (log : Log) → is_harmless q ≡ true → Guard ours q log
  harmless-Guard (Request.update_accelerator arn true name) log h = tt
  harmless-Guard (Request.update_accelerator arn false name) log h = cc
  harmless-Guard (Request.delete_accelerator arn) log h = cc
  harmless-Guard _ log h = tt

  pub harmless-IsOwned : Admits is_harmless (IsOwned ours)
  harmless-IsOwned q answer log h p = (harmless-Guard q log h, p)

  -- What is known after the creation of an accelerator was tried.
  abbrev pub Tried : Error ⊎ Accelerator → Log → Type 0
  Tried (inl e) log = IsOwned ours log
  Tried (inr a) log = IsOwned ours log × WasNamed ours a.accelerator_arn log

  tried :
      (input : CreateAcceleratorInput) (r : Result Accelerator) (log : Log)
      → IsOwned ours log
      → After Tried
          (IsOwned ours)
          (attempted r)
          (record { request = Request.create_accelerator input; answer = r } ∷ log)
  tried input (ok a) log h = ((tt, h), inl (eq_refl a.accelerator_arn))
  tried input (err e) log h = (tt, h)
  tried input panic log h = (tt, h)

  pub create_wanted-Tried :
      (w : Wanted) (lb : LoadBalancer) (region : Text)
      → Triple (IsOwned ours) (create_wanted cloud lb region w cluster_name) Tried (IsOwned ours)
  unfolding create_wanted attempt create_accelerator call
  create_wanted-Tried w lb region = record { at = λ s p. tried _ _ s.log p }

  -- It is known of this one.
  abbrev pub Has : Text → Log → Type 0
  Has arn log = IsOwned ours log × WasNamed ours arn log

  harmless-Has : (arn : Text) → Admits is_harmless (Has arn)
  harmless-Has arn q answer log h p = (harmless-IsOwned q answer log h p.0, inr p.1)

  pub calls :
      {A : Type 0} (arn : Text) (q : Request) (result : Answer q → Result A)
      → is_harmless q ≡ true
      → Keeps (Has arn) (attempt (call cloud q result))
  calls arn q result h =
      Keeps-attempt _ (Keeps-admitted cloud is_harmless (harmless-Has arn) q result h)
