-- ===== src/Orderly/Ownership.antt =====
-- Whose accelerators are disabled and deleted when an object is gone.
use aws_global_accelerator_c.Prelude.{ℕ, Text, Bool, Dict, ◌≡◌, true, some, List, [], codes}
use aws_global_accelerator_c.Errors.{ok}
use aws_global_accelerator_c.Apis.{ObjectMeta}
use aws_global_accelerator_c.Tags.{Tag, resource_target, tags_contains_all_values}
use aws_global_accelerator_c.Cloud.Types.{Request, Answer, CloudService}
use aws_global_accelerator_c.Cloud.Exec.{State, pure, lift, ◌>>=◌}
use aws_global_accelerator_c.Cloud.Triple.{Triple, Triple-bind, Triple-always}
use aws_global_accelerator_c.Cloud.Keeps.{Keeps, Keeps-call, Keeps-bind, Keeps-pure}
use aws_global_accelerator_c.Accelerator.{list_accelerator}
use aws_global_accelerator_c.GlobalAccelerator.Lookup.{list_global_accelerator_by_resource}
use aws_global_accelerator_c.Reconcile.{finished}
use aws_global_accelerator_c.Controller.{SplitKey, new_aws}
use aws_global_accelerator_c.Controller.Accelerators.{
  process_unmanaged, cleanup_resource, process_delete,
}
use aws_global_accelerator_c.Cloud.Rules.{Keeps-Triple, Triple-weaken}
use aws_global_accelerator_c.Orderly.Named.{
  names, names_shown, IsOwned, Named, DescribesIt, call_quiet, with_tags-Named,
}
use aws_global_accelerator_c.Orderly.Deletion.{each-Named}

module _ {W : Type 0} (cloud : CloudService W) (attempts : ℕ)
    (cluster_name resource ns name : Text) where
  abbrev owner_tags : Dict
  owner_tags = resource_target cluster_name resource ns name

  -- For every account of whose accelerator it is, that the tags of the owner satisfy.
  module _ (shows : Text → (q : Request) → Answer q → Bool)
      (shown : (arn : Text) (tags : List Tag)
        → tags_contains_all_values tags owner_tags ≡ true
        → shows arn (Request.list_tags_for_resource arn) (ok tags) ≡ true) where
    new_aws-Named : (region : Text) → Keeps (Named shows []) (new_aws cloud region)
    unfolding new_aws
    new_aws-Named region =
        Keeps-bind _ _ (call_quiet shows cloud [] (Request.load_config region) _ (λ log. tt))
          (λ _. Keeps-pure region)

    list-Named :
        Triple
          (Named shows [])
          (list_global_accelerator_by_resource cloud cluster_name resource ns name)
          (Named shows)
          (IsOwned shows)
    unfolding list_global_accelerator_by_resource list_accelerator
    list-Named =
        Triple-bind _ _
          (Triple-weaken (λ _ log h. h) (λ log h. h.0)
            (Keeps-Triple
              (call_quiet shows cloud [] (Request.list_accelerators 100) _ (λ log. tt))))
          (λ accelerators. with_tags-Named shows cloud owner_tags shown accelerators [])

    pub cleanup_resource-IsOwned :
        DescribesIt shows cloud
        → Keeps (IsOwned shows) (cleanup_resource cloud attempts cluster_name resource ns name)
    unfolding cleanup_resource
    cleanup_resource-IsOwned it = record {
      at = λ s p.
          Triple-always _
            (Triple-bind _ _
              (Triple-weaken (λ _ log h. h) (λ log h. h.0)
                (Keeps-Triple (new_aws-Named (codes "us-west-2"))))
              (λ _. Triple-bind _ _ list-Named (λ accelerators.
                Triple-weaken (λ _ log h. h.0) (λ log h. h.0)
                  (each-Named shows cloud it accelerators attempts cluster_name accelerators
                    (λ log h. h.1)))))
            (λ _ log h. h) (λ log h. h) s (p, tt);
    }

  -- Where AWS describes the accelerator that it is asked for: when an object is gone, the process
  -- function that is called with its key sends a request to disable or to delete an accelerator only
  -- if it has listed the tags of that accelerator before, and these name the object as the owner, in
  -- this cluster.
  pub process_delete-IsOwned :
      (split_key : SplitKey) (k : Text)
      → DescribesIt (names owner_tags) cloud
      → split_key k ≡ some (ns, name)
      → (s : State W) → IsOwned (names owner_tags) s.log
      → IsOwned
          (names owner_tags)
          (process_delete cloud attempts cluster_name resource split_key k s).1.log
  unfolding process_delete lift pure ◌>>=◌
  process_delete-IsOwned split_key k it e s h = rw e (
      (Keeps-bind _ _ (cleanup_resource-IsOwned (names owner_tags) (names_shown owner_tags) it)
          (λ _. Keeps-pure finished)).at
        s h)

-- Where AWS describes the accelerator that it is asked for: for an object that lacks the annotation, the
-- process functions send a request to disable or to delete an accelerator only if they have listed
-- the tags of that accelerator before, and these name the object as the owner, in this cluster.
pub process_unmanaged-IsOwned :
    {W : Type 0} (cloud : CloudService W) (attempts : ℕ) (cluster_name resource : Text)
    (obj : ObjectMeta) (message : Text)
    → DescribesIt (names (resource_target cluster_name resource obj.namespace obj.name)) cloud
    → Keeps
        (IsOwned (names (resource_target cluster_name resource obj.namespace obj.name)))
        (process_unmanaged cloud attempts cluster_name resource obj message)
unfolding process_unmanaged
process_unmanaged-IsOwned cloud attempts cluster_name resource obj message it =
    Keeps-bind _ _
      (cleanup_resource-IsOwned cloud attempts cluster_name resource obj.namespace obj.name _
        (names_shown (resource_target cluster_name resource obj.namespace obj.name)) it)
      (λ _.
        Keeps-bind _ _
          (Keeps-call cloud (Request.record_event obj (codes "GlobalAcceleratorDeleted") message) _
            (λ answer log h. (tt, h)))
          (λ _. Keeps-pure finished))
