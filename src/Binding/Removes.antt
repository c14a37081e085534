-- ===== src/Binding/Removes.antt =====
-- The loop of `reconcileDelete` against the ledger of `Binding.Ledger`.
use aws_global_accelerator_c.Prelude.{
  ℕ, zero, suc, ◌+◌, sym, subst, Text, ◌≡◌, ◌∙◌, refl, List, [], ◌∷◌, length, eq_refl, arith, keep,
}
use aws_global_accelerator_c.Errors.{Result, ok}
use aws_global_accelerator_c.Apis.{EndpointGroupBinding}
use aws_global_accelerator_c.Controller.{new_aws}
use aws_global_accelerator_c.Endpoint.{remove_endpoint, remove_lb_from_endpoint_group}
use aws_global_accelerator_c.Binding.Endpoints.{
  Slice, shift_left, delete_at, first_elements, delete_id,
}
use aws_global_accelerator_c.Binding.Delete.{or_panic, remove_loop}
use aws_global_accelerator_c.Binding.Faults.{remove_loop_never}
use aws_global_accelerator_c.Binding.Ledger.{Follows, At}
use aws_global_accelerator_c.Binding.Refines.{quiet-Triple, new_aws-At, remove-At}
use aws_global_accelerator_c.Cloud.Types.{EndpointGroup, Request, CloudService}
use aws_global_accelerator_c.Cloud.Triple.{Triple, Triple-bind, Triple-pure, Triple-lift}
use aws_global_accelerator_c.Cloud.Rules.{Triple-given, Triple-never}
use aws_global_accelerator_c.Cloud.Keeps.{Keeps, Keeps-bind, Keeps-call, keeps_rules}

ok_injective : {A : Type 0} {a b : A} → Result.ok a ≡ ok b → a ≡ b
ok_injective e = cc e

-- The only element is taken out.
emptied :
    (id id' : Text) (rest : Slice)
    → id' ≡ id
    → or_panic (delete_at (record { array = id ∷ []; length = 1 }) 0) ≡ ok rest
    → first_elements rest.array rest.length ≡ delete_id id' (id ∷ [])
unfolding first_elements delete_at shift_left delete_id keep
emptied id id' rest same e =
    subst (λ r. first_elements r.array r.length ≡ delete_id id' (id ∷ [])) (ok_injective e)
      (rw same (rw eq_refl refl))

module _ {W : Type 0} (cloud : CloudService W) (obj : EndpointGroupBinding) where
  remove_loop-Follows :
      (group : EndpointGroup) (rounds i : ℕ) (ids : Slice)
      → Keeps (Follows obj) (remove_loop cloud group rounds i ids)
  unfolding remove_loop new_aws remove_lb_from_endpoint_group remove_endpoint
  remove_loop-Follows group zero i ids = search keeps_rules
  remove_loop-Follows group (suc rounds) i ids =
      let rest = remove_loop-Follows group rounds (i + 1) in
      Keeps-bind _ _ (search keeps_rules) (λ id. Keeps-bind _ _ (search keeps_rules) (λ region.
        Keeps-bind _ _
          (Keeps-bind _ _
            (Keeps-call cloud (Request.load_config region) (λ r. r) (λ answer log h. (tt, h)))
            (λ _. search keeps_rules))
          (λ _.
            Keeps-bind _ _
              (Keeps-call cloud (Request.remove_endpoints group.endpoint_group_arn (id ∷ []))
                (λ r. r) (λ answer log h. (tt, h)))
              (λ _. Keeps-bind _ _ (search keeps_rules) rest))))

  -- With one ID the loop takes it out; with more it does not come to its end.
  pub remove_loop-At :
      (group : EndpointGroup) (ids : List Text)
      → Triple
          (At obj ids)
          (remove_loop cloud group (length ids) 0 (record { array = ids; length = length ids }))
          (λ rest. At obj (first_elements rest.array rest.length))
          (Follows obj)
  unfolding remove_loop first_elements delete_at shift_left delete_id
  remove_loop-At group [] = Triple-pure _ (λ log h. h)
  remove_loop-At group (id ∷ []) =
      Triple-bind {Q = λ id' log. At obj (id ∷ []) log × (id' ≡ id)} _ _
        (Triple-lift (ok id) (λ a e log h. (h, sym (ok_injective e))) (λ log h. h.1))
        (λ id'. Triple-given (λ same.
          Triple-bind _ _ (Triple-lift _ (λ a e log h. h) (λ log h. h.1)) (λ region.
            Triple-bind _ _ (quiet-Triple cloud obj (new_aws-At cloud obj (id ∷ []) region)) (λ _.
              Triple-bind _ _ (remove-At cloud obj (id ∷ []) group id') (λ _.
                Triple-bind {Q = λ rest. At obj (first_elements rest.array rest.length)} _ _
                  (Triple-lift _ (λ rest e log h. (h.0 ∙ sym (emptied id id' rest same e), h.1))
                    (λ log h. h.1))
                  (λ rest. Triple-pure rest (λ log h. h)))))))
  remove_loop-At group (id ∷ id' ∷ ids) =
      Triple-never
        (remove_loop_never cloud group (length (id ∷ id' ∷ ids)) 0
          (record { array = id ∷ id' ∷ ids; length = length (id ∷ id' ∷ ids) }) refl (omega arith)
          (omega arith))
        (remove_loop-Follows group (length (id ∷ id' ∷ ids)) 0
          (record { array = id ∷ id' ∷ ids; length = length (id ∷ id' ∷ ids) }))
        (λ log h. h.1)
