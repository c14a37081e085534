-- ===== src/Controller/Workers.antt =====
-- pkg/controller/globalaccelerator/controller.go and pkg/controller/route53/controller.go: the parts
-- of a worker that both controllers have alike.
use aws_global_accelerator_c.Prelude.{
  Text, Bool, Option, none, some, List, [], ◌∷◌, ◌++◌, codes, if◌then◌else◌,
}
use aws_global_accelerator_c.Errors.{errorf}
use aws_global_accelerator_c.Reconcile.{QueueAction}
use aws_global_accelerator_c.Controller.{RuntimeObject, service, ingress, SplitKey}
use aws_global_accelerator_c.Cloud.Types.{Request, CloudService}
use aws_global_accelerator_c.Cloud.Exec.{Exec, pure, throw, call, ◌>>=◌}

module _ {W : Type 0} (cloud : CloudService W) where
  -- With the parts of the key, if it has them.
  unfoldable pub service_at : Text → Option (Text × Text) → Exec W RuntimeObject
  service_at k none = throw (errorf (codes "invalid resource key: " ++ k))
  service_at k (some (ns, name)) = do
    svc ← call cloud (Request.get_service ns name) (λ r. r)
    pure (service svc)

  -- `keyToService`
  unfoldable pub key_to_service : SplitKey → Text → Exec W RuntimeObject
  key_to_service split_key k = service_at k (split_key k)

  unfoldable pub ingress_at : Text → Option (Text × Text) → Exec W RuntimeObject
  ingress_at k none = throw (errorf (codes "invalid resource key: " ++ k))
  ingress_at k (some (ns, name)) = do
    ing ← call cloud (Request.get_ingress ns name) (λ r. r)
    pure (ingress ing)

  -- `keyToIngress`
  unfoldable pub key_to_ingress : SplitKey → Text → Exec W RuntimeObject
  key_to_ingress split_key k = ingress_at k (split_key k)

-- `for reconcile.ProcessNextWorkItem(…) {}` over the items that the queue gives: it ends with the
-- first round that says so, or with the last item.
unfoldable pub run_worker :
    {W X : Type 0} → (X → Exec W (Bool × List QueueAction)) → List X → Exec W (Unit {0})
run_worker round [] = pure tt
run_worker round (item ∷ items) = do
  next ← round item
  if next.0 then run_worker round items else pure tt
