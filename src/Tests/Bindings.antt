-- ===== src/Tests/Bindings.antt =====
-- The theorems on endpoint group bindings, at examples.
use aws_global_accelerator_c.Prelude.{
  ◌≡◌, ◌≢◌, ◌↔◌, refl, true, some, none, Option, inr, [], ◌∷◌, codes, if◌then◌else◌,
}
use aws_global_accelerator_c.Errors.{ok, panic}
use aws_global_accelerator_c.Apis.{EndpointGroupBinding}
use aws_global_accelerator_c.Cloud.Exec.{pure}
use aws_global_accelerator_c.Reconcile.{finished}
use aws_global_accelerator_c.Webhook.{AdmissionRequest, Unmarshal}
use aws_global_accelerator_c.Webhook.Immutable.{
  update_request, answer, allows, IsReview, answer_iff, start, step,
  endpoint_group_arn_never_changes, notification_agrees,
}
use aws_global_accelerator_c.Binding.Sync.{update_binding_notification}
use aws_global_accelerator_c.Binding.Update.{
  get_load_balancer_host_name, ingress_hostnames, reconcile_update,
}
use aws_global_accelerator_c.Binding.Delete.{reconcile_delete}
use aws_global_accelerator_c.Binding.Faults.{reconcile_delete_never, reconcile_update_panics}
use aws_global_accelerator_c.Tests.Granting.{binding, group, granting, from}

abbrev two : EndpointGroupBinding
two = binding (codes "arn:aws:elb:eu-west-1:1:a" ∷ codes "arn:aws:elb:eu-west-1:1:b" ∷ [])

reconcile_delete_never_example : (reconcile_delete granting two (from 0)).0 ≢ ok finished
reconcile_delete_never_example =
    reconcile_delete_never granting two (codes "arn:aws:elb:eu-west-1:1:a")
      (codes "arn:aws:elb:eu-west-1:1:b") [] group refl (λ w. refl) (from 0) finished

reconcile_update_panics_example :
    (reconcile_update granting (λ ids. ids) (λ ids. ids) (binding (codes "a" ∷ [])) (from 0)).0
    ≡ panic
unfolding get_load_balancer_host_name ingress_hostnames pure
reconcile_update_panics_example =
    reconcile_update_panics granting (λ ids. ids) (λ ids. ids) (binding (codes "a" ∷ []))
      (codes "a") [] group refl (λ s. refl) (λ w. refl) (from 0)

abbrev reviews : Unmarshal (Option AdmissionRequest)
reviews body = inr (some (update_request (codes "uid") (codes "old") (codes "new")))

-- A decoder that keeps the text in the status of the binding.
abbrev bindings : Unmarshal EndpointGroupBinding
bindings raw = inr (binding (raw ∷ []))

abbrev old : EndpointGroupBinding
old = binding (codes "old" ∷ [])

abbrev new : EndpointGroupBinding
new = binding (codes "new" ∷ [])

abbrev review : IsReview reviews bindings (codes "body") old new
review = record {
  uid = codes "uid";
  raw = codes "old";
  object = codes "new";
  is_sent = refl;
  decoded = refl;
  old_decoded = refl;
  new_decoded = refl;
}

answer_iff_example :
    (allows reviews bindings (answer reviews bindings (codes "body")) ≡ true)
    ↔ (old.spec.endpoint_group_arn ≡ new.spec.endpoint_group_arn)
answer_iff_example = answer_iff reviews bindings (codes "body") old new review

endpoint_group_arn_never_changes_example : old.spec.endpoint_group_arn ≡ new.spec.endpoint_group_arn
endpoint_group_arn_never_changes_example = endpoint_group_arn_never_changes reviews bindings (
    step (codes "body") start review
      ((answer_iff reviews bindings (codes "body") old new review).1 refl))

notification_agrees_example : update_binding_notification (λ b. some b.meta.name) old new ≡ (
    if allows reviews bindings (answer reviews bindings (codes "body"))
    then some (codes "app")
    else none)
notification_agrees_example =
    notification_agrees reviews bindings (codes "body") old new (λ b. some b.meta.name) review
