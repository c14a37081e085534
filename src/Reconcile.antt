-- ===== src/Reconcile.antt =====
-- pkg/reconcile/reconcile.go: one item of a work queue. The queue is client-go's: what the code does
-- with the item is a list of actions, in their order.
pub mod Handler
use aws_global_accelerator_c.Prelude.{
  ℕ, Text, Bool, true, false, ◌⊎◌, inl, inr, Option, none, some, List, [], ◌∷◌, ◌++◌, codes, ltb,
  if◌then◌else◌,
}
use aws_global_accelerator_c.Errors.{Error, errorf, wrap, is_not_found, is_no_retry}
use aws_global_accelerator_c.Cloud.Exec.{Exec, pure, attempt, ◌>>=◌}

-- `Result`; the duration in seconds.
pub record Outcome : Type 0 where
  pub requeue : Bool
  pub requeue_after : ℕ

abbrev pub finished : Outcome
finished = record { requeue = false; requeue_after = 0 }

-- What is done with the item that is being handled.
pub data QueueAction : Type 0 where
  forget add_rate_limited done : QueueAction
  add_after : ℕ → QueueAction

-- An item of the queue: a key, or something that is no string.
pub data Item : Type 0 where
  key : Text → Item
  other : Item

-- The error that is returned, and the actions.
pub record Handled : Type 0 where
  pub error : Option Error
  pub actions : List QueueAction

-- The second `switch` of `reconcileHandler`.
unfoldable pub settle : Text → Error ⊎ Outcome → Handled
settle k (inl e) =
    if is_no_retry e
    then record { error = some (errorf (codes "error syncing " ++ k)); actions = [] }
    else record {
      error = some (errorf (codes "error syncing, and requeued: " ++ k));
      actions = add_rate_limited ∷ [];
    }
settle k (inr res) =
    if ltb 0 res.requeue_after
    then record { error = none; actions = forget ∷ add_after res.requeue_after ∷ [] }
    else if res.requeue
    then record { error = none; actions = add_rate_limited ∷ [] }
    else record { error = none; actions = forget ∷ [] }

module _ {W Obj : Type 0} (key_to_obj : Text → Exec W Obj) (process_delete : Text → Exec W Outcome)
    (process_create_or_update : Obj → Exec W Outcome) where
  -- The first `switch`: what the lister found, or its error.
  unfoldable pub dispatch : Text → Error ⊎ Obj → Exec W Handled
  dispatch k (inr obj) = do res ← attempt (process_create_or_update obj); pure (settle k res)
  dispatch k (inl e) =
      if is_not_found e
      then (do res ← attempt (process_delete k); pure (settle k res))
      else pure (record { error = some (errorf (codes "Unable to retrieve " ++ k)); actions = [] })

  -- `reconcileHandler`
  unfoldable pub reconcile_handler : Item → Exec W Handled
  reconcile_handler other = pure (record {
    error = some (errorf (codes "expected string in workqueue"));
    actions = forget ∷ [];
  })
  reconcile_handler (key k) = do obj ← attempt (key_to_obj k); dispatch k obj

  -- `ProcessNextWorkItem`: none is a queue that is shut down. Whether to go on, and the actions;
  -- an error is only reported.
  unfoldable pub process_next_work_item : Option Item → Exec W (Bool × List QueueAction)
  process_next_work_item none = pure (false, [])
  process_next_work_item (some item) = do
    handled ← reconcile_handler item
    pure (true, handled.actions ++ (done ∷ []))
