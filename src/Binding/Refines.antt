-- ===== src/Binding/Refines.antt =====
-- `reconcileUpdate` keeps the status equal to the ledger of `Binding.Ledger`.
use aws_global_accelerator_c.Prelude.{
  ℕ, ap, Text, Bool, refl, sym, ◌⊎◌, inl, inr, Option, none, some, List, [], ◌∷◌, ◌++◌, ltb,
}
use aws_global_accelerator_c.Errors.{Result, ok, err, panic}
use aws_global_accelerator_c.Apis.{EndpointGroupBinding}
use aws_global_accelerator_c.Reconcile.{Outcome}
use aws_global_accelerator_c.Controller.{new_aws}
use aws_global_accelerator_c.Endpoint.{
  added_endpoint, is_active, get_load_balancer, describe_endpoint_group, add_endpoint,
  remove_endpoint, update_endpoint_weight, add_lb_to_endpoint_group, remove_lb_from_endpoint_group,
  update_weight,
}
use aws_global_accelerator_c.Binding.Update.{
  Found, with_status, ingress_hostnames, get_load_balancer_host_name, find_load_balancers,
  regional_client, remove_endpoints, append_id, add_endpoints, update_weights, finish_update,
  apply_update, update_unless_done, update_found, reconcile_update,
}
use aws_global_accelerator_c.Binding.Endpoints.{delete_id}
use aws_global_accelerator_c.Binding.Converge.{delete_ids}
use aws_global_accelerator_c.Binding.Ledger.{Follows, At, quiet-At}
use aws_global_accelerator_c.Cloud.Types.{
  EndpointGroup, EndpointConfiguration, Request, Log, CloudService,
}
use aws_global_accelerator_c.Cloud.Exec.{Exec}
use aws_global_accelerator_c.Cloud.Triple.{After, Triple, Triple-bind, Triple-pure, Triple-call}
use aws_global_accelerator_c.Cloud.Rules.{Keeps-Triple, Keeps-option, Triple-weaken, Triple-if}
use aws_global_accelerator_c.Cloud.Keeps.{Keeps, Keeps-bind, Keeps-call, keeps_rules}

module _ {W : Type 0} (cloud : CloudService W) (obj : EndpointGroupBinding) where
  -- An action that keeps the ledger, among others that change it.
  pub quiet-Triple :
      {A : Type 0} {ids : List Text} {m : Exec W A}
      → Keeps (At obj ids) m
      → Triple (At obj ids) m (λ _. At obj ids) (Follows obj)
  quiet-Triple k = Triple-weaken (λ _ log h. h) (λ log h. h.1) (Keeps-Triple k)

  module _ (ids : List Text) where
    pub new_aws-At : (region : Text) → Keeps (At obj ids) (new_aws cloud region)
    unfolding new_aws
    new_aws-At region = search (keeps_rules, quiet-At)

    hostnames-At : Keeps (At obj ids) (get_load_balancer_host_name cloud obj)
    unfolding get_load_balancer_host_name ingress_hostnames
    hostnames-At =
        Keeps-option obj.spec.service_ref _ _
          (Keeps-option obj.spec.ingress_ref _ _ (search keeps_rules)
            (λ name. search (keeps_rules, quiet-At)))
          (λ name. search (keeps_rules, quiet-At))

    find_load_balancers-At :
        (hostnames : List Text) (found : Found)
        → Keeps (At obj ids) (find_load_balancers cloud hostnames found)
    unfolding find_load_balancers get_load_balancer
    find_load_balancers-At [] found = search keeps_rules
    find_load_balancers-At (hostname ∷ hostnames) found =
        search (keeps_rules, quiet-At, new_aws-At, find_load_balancers-At hostnames)

    regional_client-At : (region : Option Text) → Keeps (At obj ids) (regional_client cloud region)
    unfolding regional_client
    regional_client-At none = search keeps_rules
    regional_client-At (some region) = search keeps_rules

  -- An endpoint that is taken out is taken off the ledger.
  pub remove-At :
      (ids : List Text) (group : EndpointGroup) (id : Text)
      → Triple
          (At obj ids)
          (remove_lb_from_endpoint_group cloud group id)
          (λ _. At obj (delete_id id ids))
          (Follows obj)
  unfolding remove_lb_from_endpoint_group remove_endpoint delete_ids
  remove-At ids group id =
      Triple-call cloud (Request.remove_endpoints group.endpoint_group_arn (id ∷ [])) (λ r. r)
        (λ answer log h. removed answer log h)
    where
      removed :
          (answer : Result (Unit {0})) (log : Log)
          → At obj ids log
          → After
              (λ _. At obj (delete_id id ids))
              (Follows obj)
              answer
              (record {
                request = Request.remove_endpoints group.endpoint_group_arn (id ∷ []);
                answer = answer;
              }
                ∷ log)
      removed (ok _) log h = (ap (delete_id id) h.0, (tt, h.1))
      removed (err e) log h = (tt, h.1)
      removed panic log h = (tt, h.1)

  added-At :
      (ids : List Text) (endpoints : List EndpointConfiguration) (arn : Text)
      (answer : Result (List Text)) (log : Log)
      → At obj ids log
      → After
          (λ id. At obj (ids ++ (id ∷ [])))
          (Follows obj)
          (added_endpoint answer)
          (record { request = Request.add_endpoints arn endpoints; answer = answer } ∷ log)
  added-At ids endpoints arn (ok []) log h = (tt, h.1)
  added-At ids endpoints arn (ok (id ∷ _)) log h = (ap (λ l. l ++ (id ∷ [])) h.0, (tt, h.1))
  added-At ids endpoints arn (err e) log h = (tt, h.1)
  added-At ids endpoints arn panic log h = (tt, h.1)

  module _ (found : Found) (group : EndpointGroup) where
    -- One that is put in is put on the ledger, by the ID in the answer.
    add-At :
        (ids : List Text) (region name : Text) (keeps_ip : Bool) (weight : Option ℕ)
        → Triple
            (At obj ids)
            (add_lb_to_endpoint_group cloud region group name keeps_ip weight)
            (λ added. At obj (append_id cloud found group ids added.endpoint_id))
            (Follows obj)
    unfolding add_lb_to_endpoint_group get_load_balancer add_endpoint
    add-At ids region name keeps_ip weight =
        Triple-bind _ _ (quiet-Triple (quiet-At obj ids cloud _ _ refl)) (λ lb.
          Triple-if (is_active lb.state) _ _
            (Triple-bind _ _ (Triple-call cloud _ _ (added-At ids _ _))
              (λ id. Triple-pure _ (λ log h. h)))
            (Triple-pure _ (λ log h. h)))

    remove_endpoints-At :
        (removed ids : List Text)
        → Triple
            (At obj ids)
            (remove_endpoints cloud found group removed ids)
            (At obj)
            (Follows obj)
    unfolding remove_endpoints
    remove_endpoints-At [] ids = Triple-pure ids (λ log h. h)
    remove_endpoints-At (id ∷ removed) ids =
        Triple-bind _ _ (quiet-Triple (regional_client-At ids found.regional)) (λ _.
          Triple-bind _ _ (remove-At ids group id)
            (λ _. remove_endpoints-At removed (delete_id id ids)))

    -- What is known after the second loop: it ended the round, or these are the results.
    abbrev Added-At : Outcome ⊎ List Text → Log → Type 0
    Added-At (inl outcome) log = Follows obj log
    Added-At (inr ids) log = At obj ids log

    add_endpoints-At :
        (added ids : List Text)
        → Triple (At obj ids) (add_endpoints cloud found group obj added ids) Added-At (Follows obj)
    unfolding add_endpoints
    add_endpoints-At [] ids = Triple-pure (inr ids) (λ log h. h)
    add_endpoints-At (id ∷ added) ids =
        Triple-bind _ _ (quiet-Triple (regional_client-At ids found.regional)) (λ region.
          Triple-bind _ _ (add-At ids region _ _ _) (λ a.
            let rest = add_endpoints-At added (append_id cloud found group ids a.endpoint_id) in
            Triple-if (ltb 0 a.retry_after) _ _ (Triple-pure _ (λ log h. h.1)) rest))

    update_weights-At :
        (ids weighted : List Text)
        → Keeps (At obj ids) (update_weights cloud found group obj weighted)
    unfolding update_weights update_weight update_endpoint_weight
    update_weights-At ids [] = search keeps_rules
    update_weights-At ids (id ∷ weighted) =
        let rest = update_weights-At ids weighted in
        Keeps-bind _ _ (regional_client-At ids found.regional)
          (λ _. Keeps-bind _ _ (search (keeps_rules, quiet-At)) (λ _. rest))

    finish_update-At :
        (weighted : List Text) (res : Outcome ⊎ List Text)
        → Triple
            (Added-At res)
            (finish_update cloud found group obj weighted res)
            (λ _. Follows obj)
            (Follows obj)
    unfolding finish_update
    finish_update-At weighted (inl outcome) = Triple-pure outcome (λ log h. h)
    finish_update-At weighted (inr ids) =
        Triple-bind _ _ (quiet-Triple (update_weights-At ids weighted)) (λ _.
          Triple-bind _ _
            (quiet-Triple (
              Keeps-call cloud (Request.update_binding_status (with_status obj ids)) _
                (λ answer log h. (h.0, (ap (with_status obj) (sym h.0), h.1)))))
            (λ _. Triple-pure _ (λ log h. h.1)))

    apply_update-At :
        (removed added weighted : List Text)
        → Triple
            (At obj obj.status.endpoint_ids)
            (apply_update cloud found group obj removed added weighted)
            (λ _. Follows obj)
            (Follows obj)
    unfolding apply_update
    apply_update-At removed added weighted =
        Triple-bind _ _ (remove_endpoints-At removed obj.status.endpoint_ids) (λ ids.
          Triple-bind _ _ (add_endpoints-At added ids) (λ res. finish_update-At weighted res))

  update_unless_done-At :
      (found : Found) (removed added weighted : List Text)
      → Triple
          (At obj obj.status.endpoint_ids)
          (update_unless_done cloud obj found removed added weighted)
          (λ _. Follows obj)
          (Follows obj)
  unfolding update_unless_done describe_endpoint_group
  update_unless_done-At found removed added weighted =
      Triple-if _ _ _ (Triple-pure _ (λ log h. h.1)) (
        Triple-bind _ _ (quiet-Triple (quiet-At obj obj.status.endpoint_ids cloud _ _ refl))
          (λ group. apply_update-At found group removed added weighted))

  pub reconcile_update-At :
      (order weight_order : List Text → List Text)
      → Triple
          (At obj obj.status.endpoint_ids)
          (reconcile_update cloud order weight_order obj)
          (λ _. Follows obj)
          (Follows obj)
  unfolding reconcile_update update_found
  reconcile_update-At order weight_order =
      Triple-bind _ _ (quiet-Triple (hostnames-At obj.status.endpoint_ids)) (λ hostnames.
        Triple-bind _ _ (quiet-Triple (find_load_balancers-At obj.status.endpoint_ids hostnames _))
          (λ found. update_unless_done-At found _ _ _))
