-- ===== src/Controller/Keeps.antt =====
-- What a worker keeps, given that its parts keep it.
use aws_global_accelerator_c.Prelude.{
  Text, Bool, true, false, ◌≡◌, ◌⊎◌, inl, inr, Option, none, some, List, [], ◌∷◌,
}
use aws_global_accelerator_c.Errors.{Error, Result}
use aws_global_accelerator_c.Apis.{LoadBalancerIngress}
use aws_global_accelerator_c.Cloud.Types.{Request, Answer, Log, CloudService}
use aws_global_accelerator_c.Cloud.Exec.{Exec, pure, call}
use aws_global_accelerator_c.Cloud.Keeps.{
  Keeps, Admits, Keeps-admitted, Keeps-bind, Keeps-pure, Keeps-if, keeps_rules,
}
use aws_global_accelerator_c.Reconcile.{
  Outcome, Item, key, other, dispatch, reconcile_handler, process_next_work_item, QueueAction,
}
use aws_global_accelerator_c.Controller.{Step, step_or, new_aws, each_provider, each_load_balancer}
use aws_global_accelerator_c.Controller.Workers.{service_at, ingress_at, run_worker}

-- The requests of a worker besides those of `Ensure…` and of the cleanups.
abbrev pub is_local : Request → Bool
is_local (Request.load_config region) = true
is_local (Request.get_service ns name) = true
is_local (Request.get_ingress ns name) = true
is_local (Request.record_event obj reason message) = true
is_local _ = false

module _ {W : Type 0} (cloud : CloudService W) {P : Log → Type 0} (admits : Admits is_local P) where
  local :
      {A : Type 0} (q : Request) (result : Answer q → Result A)
      → is_local q ≡ true
      → Keeps P (call cloud q result)
  local q result h = Keeps-admitted cloud is_local admits q result h

  pub new_aws-Keeps : (region : Text) → Keeps P (new_aws cloud region)
  unfolding new_aws
  new_aws-Keeps region = search (keeps_rules, local)

  module _ (handle : LoadBalancerIngress → Text → Text → Exec W Step)
      (k : (i : LoadBalancerIngress) (name region : Text) → Keeps P (handle i name region)) where
    each_provider-Keeps :
        (i : LoadBalancerIngress) (found : Error ⊎ Text)
        → Keeps P (each_provider cloud handle i found)
    unfolding each_provider
    each_provider-Keeps i (inl e) = search keeps_rules
    each_provider-Keeps i (inr provider) = search (keeps_rules, new_aws-Keeps, k)

    pub each-Keeps : (is : List LoadBalancerIngress) → Keeps P (each_load_balancer cloud handle is)
    unfolding each_load_balancer
    each-Keeps [] = search keeps_rules
    each-Keeps (i ∷ is) =
        let rest = each-Keeps is in
        Keeps-bind _ _ (search keeps_rules) (λ found.
          Keeps-bind _ _ (each_provider-Keeps i found) (λ step.
            elim step
              as (λ o. Keeps {W = W} {A = Outcome} P (elim o [
                | some outcome ↦ pure outcome
                | none ↦ each_load_balancer cloud handle is
              ])) [ some outcome ↦ Keeps-pure outcome | none ↦ rest ]))

  pub step_or-Keeps :
      (step : Step) (rest : Exec W Step) → Keeps P rest → Keeps P (step_or cloud step rest)
  unfolding step_or
  step_or-Keeps (some outcome) rest k = search keeps_rules
  step_or-Keeps none rest k = k

  -- An item of a queue, whose parts keep the order.
  module _ {Obj : Type 0} (key_to_obj : Text → Exec W Obj) (process_delete : Text → Exec W Outcome)
      (process_create_or_update : Obj → Exec W Outcome)
      (found : (k : Text) → Keeps P (key_to_obj k))
      (deleted : (k : Text) → Keeps P (process_delete k))
      (updated : (obj : Obj) → Keeps P (process_create_or_update obj)) where
    dispatch-Keeps :
        (k : Text) (o : Error ⊎ Obj)
        → Keeps P (dispatch key_to_obj process_delete process_create_or_update k o)
    unfolding dispatch
    dispatch-Keeps k (inl e) = search (keeps_rules, deleted)
    dispatch-Keeps k (inr obj) = search (keeps_rules, updated)

    handler-Keeps :
        (item : Item)
        → Keeps P (reconcile_handler key_to_obj process_delete process_create_or_update item)
    unfolding reconcile_handler
    handler-Keeps (key k) = search (keeps_rules, found, dispatch-Keeps)
    handler-Keeps other = search keeps_rules

    pub round-Keeps :
        (item : Option Item)
        → Keeps P (process_next_work_item key_to_obj process_delete process_create_or_update item)
    unfolding process_next_work_item
    round-Keeps none = search keeps_rules
    round-Keeps (some item) = search (keeps_rules, handler-Keeps)

  pub service_at-Keeps : (k : Text) (o : Option (Text × Text)) → Keeps P (service_at cloud k o)
  unfolding service_at
  service_at-Keeps k none = search keeps_rules
  service_at-Keeps k (some parts) = search (keeps_rules, local)

  pub ingress_at-Keeps : (k : Text) (o : Option (Text × Text)) → Keeps P (ingress_at cloud k o)
  unfolding ingress_at
  ingress_at-Keeps k none = search keeps_rules
  ingress_at-Keeps k (some parts) = search (keeps_rules, local)

  pub run_worker-Keeps :
      (round : Option Item → Exec W (Bool × List QueueAction)) (items : List (Option Item))
      → ((item : Option Item) → Keeps P (round item))
      → Keeps P (run_worker round items)
  unfolding run_worker
  run_worker-Keeps round [] k = search keeps_rules
  run_worker-Keeps round (item ∷ items) k =
      let rest = run_worker-Keeps round items k in
      Keeps-bind _ _ (k item) (λ next. Keeps-if next.0 _ _ rest (Keeps-pure tt))
