-- ===== src/Binding/Sync.antt =====
-- `reconcile`, `syncHandler` and `processNextWorkItem`.
use aws_global_accelerator_c.Prelude.{
  Text, Bool, true, false, ◌⊎◌, inl, inr, Option, none, some, List, [], ◌∷◌, ◌++◌, codes, ltb, ◌==◌,
  not, if◌then◌else◌,
}
use aws_global_accelerator_c.Errors.{Error, is_not_found}
use aws_global_accelerator_c.Apis.{EndpointGroupBinding}
use aws_global_accelerator_c.Reconcile.{
  Outcome, QueueAction, forget, add_rate_limited, add_after, done, Handled,
}
use aws_global_accelerator_c.Controller.{SplitKey, new_aws}
use aws_global_accelerator_c.Controller.Workers.{run_worker}
use aws_global_accelerator_c.Binding.Update.{reconcile_create, reconcile_update}
use aws_global_accelerator_c.Binding.Delete.{reconcile_delete}
use aws_global_accelerator_c.Cloud.Types.{Request, CloudService}
use aws_global_accelerator_c.Cloud.Exec.{Exec, pure, attempt, call, ◌>>=◌}

-- The `switch` of `syncHandler`: an error is returned as it is.
unfoldable pub settle_binding : Error ⊎ Outcome → Handled
settle_binding (inl e) = record { error = some e; actions = [] }
settle_binding (inr res) =
    if ltb 0 res.requeue_after
    then record { error = none; actions = forget ∷ add_after res.requeue_after ∷ [] }
    else if res.requeue
    then record { error = none; actions = add_rate_limited ∷ [] }
    else record { error = none; actions = forget ∷ [] }

-- `UpdateFunc` of the informer: a new endpoint group is refused, all else is put into the queue.
unfoldable pub update_binding_notification :
    (EndpointGroupBinding → Option Text) → EndpointGroupBinding → EndpointGroupBinding → Option Text
update_binding_notification key_of old new =
    if not (old.spec.endpoint_group_arn == new.spec.endpoint_group_arn) then none else key_of new

module _ {W : Type 0} (cloud : CloudService W) (order weight_order : List Text → List Text)
    (split_key : SplitKey) where
  -- `reconcile`
  unfoldable pub reconcile : EndpointGroupBinding → Exec W Outcome
  reconcile obj = do
    _ ← new_aws cloud (codes "us-west-2")
    if obj.is_deleting then reconcile_delete cloud obj else elim obj.finalizers [
      | [] ↦ reconcile_create cloud obj
      | _ ∷ _ ↦ reconcile_update cloud order weight_order obj
    ]

  unfoldable pub handle_binding : Error ⊎ EndpointGroupBinding → Exec W Handled
  handle_binding (inl e) =
      if is_not_found e
      then pure (record { error = none; actions = [] })
      else pure (record { error = some e; actions = [] })
  handle_binding (inr obj) = do res ← attempt (reconcile obj); pure (settle_binding res)

  -- `syncHandler`: a key that cannot be split is reported and dropped.
  unfoldable pub sync_handler : Text → Exec W Handled
  sync_handler k = elim (split_key k) [
    | none ↦ pure (record { error = none; actions = [] })
    | some (ns, name) ↦ do
      obj ← attempt (call cloud (Request.get_binding ns name) (λ r. r))
      handle_binding obj
  ]

  -- `processNextWorkItem`
  unfoldable pub process_next_binding : Option Text → Exec W (Bool × List QueueAction)
  process_next_binding none = pure (false, [])
  process_next_binding (some k) = do
    handled ← sync_handler k
    pure (true, handled.actions ++ (done ∷ []))

  -- `runWorker`, over what the queue gives; none is a queue that is shut down.
  unfoldable pub run_binding_worker : List (Option Text) → Exec W (Unit {0})
  run_binding_worker = run_worker process_next_binding
