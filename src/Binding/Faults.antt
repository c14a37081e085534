-- ===== src/Binding/Faults.antt =====
-- `reconcileDelete` on a status with many endpoint IDs, and `reconcileUpdate` without host names.
use aws_global_accelerator_c.Prelude.{
  ℕ, zero, suc, ◌+◌, ◌-◌, ◌≤◌, Text, ◌≡◌, ◌≢◌, refl, sym, ◌∙◌, inr, none, List, [], ◌∷◌, length,
  arith, keep, ap, subst, ◌⊎◌,
}
use aws_global_accelerator_c.Errors.{Error, Result, ok, err, panic}
use aws_global_accelerator_c.Apis.{EndpointGroupBinding}
use aws_global_accelerator_c.LoadBalancer.{index, get_region_from_arn}
use aws_global_accelerator_c.Reconcile.{Outcome}
use aws_global_accelerator_c.Controller.{new_aws}
use aws_global_accelerator_c.Endpoint.{describe_endpoint_group, remove_lb_from_endpoint_group}
use aws_global_accelerator_c.Binding.Endpoints.{
  Slice, delete_at, new_endpoint_ids, removed_endpoint_ids,
}
use aws_global_accelerator_c.Binding.Update.{
  get_load_balancer_host_name, find_load_balancers, regional_client, remove_endpoints, apply_update,
  update_unless_done, update_found, reconcile_update,
}
use aws_global_accelerator_c.Binding.Delete.{
  or_panic, remove_loop, delete_endpoints, delete_unless_empty, reconcile_delete,
}
use aws_global_accelerator_c.Cloud.Types.{EndpointGroup, Request, CloudService}
use aws_global_accelerator_c.Cloud.Exec.{State, Exec, pure, lift, attempt, call, continue, ◌>>=◌}

-- It never returns a result.
abbrev pub NeverReturns : {W A : Type 0} → Exec W A → Type 0
NeverReturns {W} {A} m = (s : State W) (a : A) → (m s).0 ≢ ok a

continue_never :
    {W A B : Type 0} (r : Result A) (f : A → Exec W B)
    → ((a : A) → r ≡ ok a → NeverReturns (f a))
    → NeverReturns (continue r f)
continue_never (ok a) f h s b e = h a refl s b e
continue_never (err c) f h s b e = ground arith
continue_never panic f h s b e = ground arith

bind_never :
    {W A B : Type 0} (m : Exec W A) (f : A → Exec W B)
    → ((a : A) → NeverReturns (f a))
    → NeverReturns (m >>= f)
unfolding ◌>>=◌
bind_never m f h s b e = continue_never (m s).0 f (λ a _. h a) (m s).1 b e

lift_never :
    {W A B : Type 0} (r : Result A) (f : A → Exec W B)
    → ((a : A) → r ≡ ok a → NeverReturns (f a))
    → NeverReturns (lift r >>= f)
unfolding ◌>>=◌ lift
lift_never r f h s b e = continue_never r f h s b e

-- What is known after an element is taken out.
delete_at_lem :
    (s t : Slice) (i : ℕ)
    → or_panic (delete_at s i) ≡ ok t
    → (i + 1 ≤ s.length) × (t.length ≡ s.length - 1)
unfolding delete_at
delete_at_lem s t i e = ground arith

module _ {W : Type 0} (cloud : CloudService W) where
  -- With at least two elements to take out, the loop is past the end before it is done.
  pub remove_loop_never :
      (group : EndpointGroup) (rounds i : ℕ) (ids : Slice)
      → ids.length ≡ rounds
      → i ≤ rounds + 1
      → 2 ≤ i + rounds
      → NeverReturns (remove_loop cloud group rounds i ids)
  unfolding remove_loop
  remove_loop_never group zero i ids same bound many = absurd (omega arith)
  remove_loop_never group (suc rounds) i ids same bound many =
      bind_never (lift (index ids.array i)) _ (λ id.
        bind_never (lift (get_region_from_arn id)) _ (λ region.
          bind_never (new_aws cloud region) _ (λ _.
            bind_never (remove_lb_from_endpoint_group cloud group id) _ (λ _.
              lift_never (or_panic (delete_at ids i)) _ (λ ids' taken.
                let (within, shorter) = delete_at_lem ids ids' i taken in
                remove_loop_never group rounds (i + 1) ids' (omega arith) (omega arith)
                  (omega arith))))))

  bind_loop_never :
      {B : Type 0} (group : EndpointGroup) (ids : List Text) (f : Slice → Exec W B)
      → 2 ≤ length ids
      → NeverReturns (
          remove_loop cloud group (length ids) 0 (record { array = ids; length = length ids })
          >>= f)
  unfolding ◌>>=◌
  bind_loop_never group ids f many s b e =
      let loop =
        remove_loop cloud group (length ids) 0 (record { array = ids; length = length ids }) s in
      continue_never loop.0 f
        (λ a r.
          absurd (remove_loop_never group (length ids) 0 _ refl (omega arith) (omega arith) s a r))
        loop.1 b e

  delete_endpoints_never :
      (obj : EndpointGroupBinding) (group : EndpointGroup)
      → 2 ≤ length obj.status.endpoint_ids
      → NeverReturns (delete_endpoints cloud obj (inr group))
  unfolding delete_endpoints
  delete_endpoints_never obj group many = bind_loop_never group obj.status.endpoint_ids _ many

  found_never :
      {B : Type 0} (arn : Text) (group : EndpointGroup) (f : Error ⊎ EndpointGroup → Exec W B)
      → ((w : W) → (cloud (Request.describe_endpoint_group arn) w).0 ≡ ok group)
      → NeverReturns (f (inr group))
      → NeverReturns (attempt (describe_endpoint_group cloud arn) >>= f)
  unfolding ◌>>=◌ attempt describe_endpoint_group call
  found_never arn group f found never s = rw (found s.world) (
      never (record {
        world = (cloud (Request.describe_endpoint_group arn) s.world).1;
        log = record { request = Request.describe_endpoint_group arn; answer = ok group } ∷ s.log;
      }))

  -- With two endpoint IDs or more in the status, `reconcileDelete` never reports success once the
  -- endpoint group is found: it returns an error or panics, whatever the answers are.
  pub reconcile_delete_never :
      (obj : EndpointGroupBinding) (id id' : Text) (ids : List Text) (group : EndpointGroup)
      → obj.status.endpoint_ids ≡ id ∷ id' ∷ ids
      → ((w : W)
          → (cloud (Request.describe_endpoint_group obj.spec.endpoint_group_arn) w).0 ≡ ok group)
      → (s : State W) (outcome : Outcome) → (reconcile_delete cloud obj s).0 ≢ ok outcome
  unfolding reconcile_delete delete_unless_empty
  reconcile_delete_never obj id id' ids group many found =
      let two = subst (λ l. 2 ≤ length l) (sym many) (omega arith) in
      subst (λ l. NeverReturns (delete_unless_empty cloud obj l)) (sym many)
        (found_never obj.spec.endpoint_group_arn group _ found
          (delete_endpoints_never obj group two))

  -- Without a load balancer's name there is no client, and the first ID to take out needs one.
  apply_update_panics :
      (obj : EndpointGroupBinding) (group : EndpointGroup) (id : Text)
      (ids added weights : List Text) (s : State W)
      → (apply_update cloud
          (record { arns = []; regional = none })
          group
          obj
          (id ∷ ids)
          added
          weights
          s).0
        ≡ panic
  unfolding apply_update remove_endpoints regional_client lift ◌>>=◌
  apply_update_panics obj group id ids added weights s = refl

  update_unless_done_panics :
      (obj : EndpointGroupBinding) (group : EndpointGroup) (id : Text)
      (ids added weights : List Text) (s : State W)
      → ((w : W)
          → (cloud (Request.describe_endpoint_group obj.spec.endpoint_group_arn) w).0 ≡ ok group)
      → (update_unless_done cloud obj
          (record { arns = []; regional = none })
          (id ∷ ids)
          added
          weights
          s).0
        ≡ panic
  unfolding update_unless_done ◌>>=◌ describe_endpoint_group call
  update_unless_done_panics obj group id ids [] weights s found = rw (found s.world) (
      apply_update_panics obj group id ids [] weights (record {
        world = (cloud (Request.describe_endpoint_group obj.spec.endpoint_group_arn) s.world).1;
        log =
            record {
              request = Request.describe_endpoint_group obj.spec.endpoint_group_arn;
              answer = ok group;
            }
            ∷ s.log;
      }))
  update_unless_done_panics obj group id ids (a ∷ added) weights s found = rw (found s.world) (
      apply_update_panics obj group id ids (a ∷ added) weights (record {
        world = (cloud (Request.describe_endpoint_group obj.spec.endpoint_group_arn) s.world).1;
        log =
            record {
              request = Request.describe_endpoint_group obj.spec.endpoint_group_arn;
              answer = ok group;
            }
            ∷ s.log;
      }))

  all_removed : (status : List Text) → removed_endpoint_ids [] status ≡ status
  unfolding removed_endpoint_ids keep
  all_removed [] = refl
  all_removed (id ∷ ids) = ap (λ rest. id ∷ rest) (all_removed ids)

  module _ (order weight_order : List Text → List Text) where
    -- If the load balancers of a binding have no names any more, the status still holds an endpoint
    -- ID and the endpoint group is found, then `reconcileUpdate` panics.
    pub reconcile_update_panics :
        (obj : EndpointGroupBinding) (id : Text) (ids : List Text) (group : EndpointGroup)
        → obj.status.endpoint_ids ≡ id ∷ ids
        → ((s : State W) → (get_load_balancer_host_name cloud obj s).0 ≡ ok [])
        → ((w : W)
            → (cloud (Request.describe_endpoint_group obj.spec.endpoint_group_arn) w).0 ≡ ok group)
        → (s : State W) → (reconcile_update cloud order weight_order obj s).0 ≡ panic
    unfolding reconcile_update update_found find_load_balancers pure ◌>>=◌
    reconcile_update_panics obj id ids group some_id nameless found s = rw (nameless s) (
        subst
          (λ removed.
            (update_unless_done cloud obj (record { arns = []; regional = none }) removed
              (new_endpoint_ids (order []) obj.status.endpoint_ids) (weight_order [])
              (get_load_balancer_host_name cloud obj s).1).0
            ≡ panic)
          (sym (all_removed obj.status.endpoint_ids ∙ some_id))
          (update_unless_done_panics obj group id ids _ _ _ found))
