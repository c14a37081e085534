-- ===== src/Binding/Converge.antt =====
-- The endpoint IDs that an update of a binding leaves, against the ARNs of the load balancers.
use aws_global_accelerator_c.Prelude.{
  Text, not, ◌&&◌, ◌≡◌, sym, ap, ◌∙◌, List, [], ◌∷◌, ◌++◌, ◌==◌, eq_iff, contains, contains-append,
  contains-keep, keep_none, arith,
}
use aws_global_accelerator_c.Errors.{Result, ok, err, panic}
use aws_global_accelerator_c.Cloud.Types.{EndpointGroup, CloudService}
use aws_global_accelerator_c.Cloud.Exec.{State, Exec, pure, continue, ◌>>=◌}
use aws_global_accelerator_c.Binding.Update.{Found, remove_endpoints}
use aws_global_accelerator_c.Binding.Endpoints.{new_endpoint_ids, removed_endpoint_ids, delete_id}

-- What the loop that removes endpoints leaves: each ID in turn is deleted.
unfoldable pub delete_ids : List Text → List Text → List Text
delete_ids [] results = results
delete_ids (id ∷ ids) results = delete_ids ids (delete_id id results)

contains-delete_ids :
    (id : Text) (ids results : List Text)
    → contains id (delete_ids ids results) ≡ (contains id results && not (contains id ids))
unfolding delete_ids delete_id contains
contains-delete_ids id [] results = ground arith
contains-delete_ids id (x ∷ xs) results =
    let ih = contains-delete_ids id xs (delete_id x results) in
    let k = contains-keep (λ e. not (e == x)) id results in
    ground (arith, ih, k, eq_iff x id, eq_iff id x)

-- The status with the removed IDs deleted and the new ones appended.
abbrev pub updated : List Text → List Text → List Text
updated arns status =
    delete_ids (removed_endpoint_ids arns status) status ++ new_endpoint_ids arns status

contains-updated :
    (id : Text) (arns status : List Text) → contains id (updated arns status) ≡ contains id arns
unfolding new_endpoint_ids removed_endpoint_ids
contains-updated id arns status =
    let removed = removed_endpoint_ids arns status in
    let both = contains-append id (delete_ids removed status) (new_endpoint_ids arns status) in
    let left = contains-delete_ids id removed status in
    let gone = contains-keep (λ i. not (contains i arns)) id status in
    let added = contains-keep (λ arn. not (contains arn status)) id arns in
    ground (arith, both, left, gone, added)

-- With the removed IDs deleted from the status and the new ones appended, it holds exactly the ARNs
-- of the load balancers, and the next round finds nothing to add and nothing to remove.
pub updated_converges :
    (arns status : List Text)
    → ((id : Text) → contains id (updated arns status) ≡ contains id arns)
      × (new_endpoint_ids arns (updated arns status) ≡ [])
      × (removed_endpoint_ids arns (updated arns status) ≡ [])
unfolding new_endpoint_ids removed_endpoint_ids
updated_converges arns status = (
  λ id. contains-updated id arns status,
  keep_none _ arns (λ x e. ap not (contains-updated x arns status ∙ e)),
  keep_none _ (updated arns status) (λ x e. ap not (sym (contains-updated x arns status) ∙ e)),
)

continue_ok :
    {W A B : Type 0} (r : Result A) (f : A → Exec W B) (s : State W) (b : B)
    → (continue r f s).0 ≡ ok b
    → (a : A) × ((f a s).0 ≡ ok b)
continue_ok (ok a) f s b e = (a, e)
continue_ok (err c) f s b e = absurd (ground arith)
continue_ok panic f s b e = absurd (ground arith)

bind_ok :
    {W A B : Type 0} (m : Exec W A) (f : A → Exec W B) (s : State W) (b : B)
    → ((m >>= f) s).0 ≡ ok b
    → (a : A) × (s' : State W) × ((f a s').0 ≡ ok b)
unfolding ◌>>=◌
bind_ok m f s b e = let (a, e') = continue_ok (m s).0 f (m s).1 b e in (a, (m s).1, e')

-- Whatever the service answers: if the loop of `reconcileUpdate` that removes endpoints comes to its
-- end, it leaves the results with the IDs deleted.
pub remove_endpoints_leaves :
    {W : Type 0} (cloud : CloudService W) (found : Found) (group : EndpointGroup)
    (ids results left : List Text) (s : State W)
    → (remove_endpoints cloud found group ids results s).0 ≡ ok left
    → left ≡ delete_ids ids results
unfolding remove_endpoints delete_ids
remove_endpoints_leaves cloud found group [] results left s e = unfold pure in cc e
remove_endpoints_leaves cloud found group (id ∷ ids) results left s e =
    let (_, s1, e1) = bind_ok _ _ s left e in
    let (_, s2, e2) = bind_ok _ _ s1 left e1 in
    remove_endpoints_leaves cloud found group ids (delete_id id results) left s2 e2
