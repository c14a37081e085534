-- ===== src/Webhook/Immutable.antt =====
-- The endpoint group of a binding, over the updates that the webhook lets through.
use aws_global_accelerator_c.Prelude.{
  Text, Bool, true, false, not, ◌≡◌, ◌↔◌, refl, sym, ◌∙◌, subst, Option, some, none, inr, ◌==◌,
  eq_iff, codes, is_empty, if◌then◌else◌, arith,
}
use aws_global_accelerator_c.Apis.{EndpointGroupBinding}
use aws_global_accelerator_c.Webhook.{
  update, AdmissionRequest, HttpResponse, Unmarshal, validate, validate_update, parse_request,
  validate_endpoint_group_binding,
}
use aws_global_accelerator_c.Binding.Sync.{update_binding_notification}

same_bool {ℓ} : {A : Type ℓ} {a b : Bool} → ((a ≡ true) ↔ A) → ((b ≡ true) ↔ A) → a ≡ b
same_bool {a = true} {b = true} h k = refl
same_bool {a = true} {b = false} h k = sym (k.1 (h.0 refl))
same_bool {a = false} {b = true} h k = h.1 (k.0 refl)
same_bool {a = false} {b = false} h k = refl

notified_if :
    {A : Type 0} (x : Option A) {a b : Bool}
    → a ≡ b
    → (if not a then none else x) ≡ (if b then x else none)
notified_if x {a} e =
    subst (λ b. (if not a then none else x) ≡ (if b then x else none)) e (by_cases a)
  where
    by_cases : (a : Bool) → (if not a then none else x) ≡ (if a then x else none)
    by_cases true = refl
    by_cases false = refl

-- The review that the API server sends for an update of a binding.
abbrev pub update_request : Text → Text → Text → AdmissionRequest
update_request uid raw object = record {
  uid = uid;
  kind = codes "EndpointGroupBinding";
  operation = update;
  old_object = some raw;
  object = object;
}

validate_update_iff :
    (previous new : EndpointGroupBinding)
    → (validate_update previous new ≡ none)
      ↔ (previous.spec.endpoint_group_arn ≡ new.spec.endpoint_group_arn)
unfolding validate_update
validate_update_iff previous new =
    ground (arith, eq_iff previous.spec.endpoint_group_arn new.spec.endpoint_group_arn)

module _ (unmarshal_review : Unmarshal (Option AdmissionRequest))
    (unmarshal : Unmarshal EndpointGroupBinding) where
  -- The handler's answer to the body of a review.
  abbrev pub answer : Text → HttpResponse
  answer body =
      validate_endpoint_group_binding unmarshal_review unmarshal
        (record { content_type = codes "application/json"; body = body })

  -- The body is a review of an update, from one binding to another.
  pub record IsReview (body : Text) (previous new : EndpointGroupBinding) : Type 0 where
    pub uid : Text
    pub raw : Text
    pub object : Text
    pub is_sent : is_empty body ≡ false
    pub decoded : unmarshal_review body ≡ inr (some (update_request uid raw object))
    pub old_decoded : unmarshal raw ≡ inr previous
    pub new_decoded : unmarshal object ≡ inr new

  -- The response says that the request is allowed.
  abbrev pub allows : HttpResponse → Bool
  allows response = elim response.review [ none ↦ false | some review ↦ review.allowed ]

  -- The webhook allows an update of a binding exactly when the ARN of its endpoint group stays.
  pub answer_iff :
      (body : Text) (previous new : EndpointGroupBinding)
      → IsReview body previous new
      → (allows (answer body) ≡ true)
        ↔ (previous.spec.endpoint_group_arn ≡ new.spec.endpoint_group_arn)
  unfolding validate_endpoint_group_binding parse_request validate validate_update ◌==◌
  answer_iff body previous new u = rw u.is_sent (
      rw u.decoded (
        rw u.old_decoded (
          rw u.new_decoded
            (ground (arith, eq_iff previous.spec.endpoint_group_arn new.spec.endpoint_group_arn)))))

  -- The bindings that an object goes through, by updates that the webhook allows.
  pub data History : EndpointGroupBinding → EndpointGroupBinding → Type 0 where
    start : {b : EndpointGroupBinding} → History b b
    step :
        {a b c : EndpointGroupBinding} (body : Text)
        → History a b
        → IsReview body b c
        → allows (answer body) ≡ true
        → History a c

  -- However often a binding is updated through the webhook, the ARN of its endpoint group is the
  -- one that it was created with.
  pub endpoint_group_arn_never_changes :
      {a b : EndpointGroupBinding}
      → History a b
      → a.spec.endpoint_group_arn ≡ b.spec.endpoint_group_arn
  endpoint_group_arn_never_changes start = refl
  endpoint_group_arn_never_changes (step body h review allowed) =
      endpoint_group_arn_never_changes h ∙ (answer_iff body _ _ review).0 allowed

  -- An update that the webhook allows is put into the queue by the informer, and one that it
  -- refuses is not.
  pub notification_agrees :
      (body : Text) (previous new : EndpointGroupBinding)
      (key_of : EndpointGroupBinding → Option Text)
      → IsReview body previous new
      → update_binding_notification key_of previous new
        ≡ (if allows (answer body) then key_of new else none)
  unfolding update_binding_notification
  notification_agrees body previous new key_of u = notified_if _ (
      same_bool (eq_iff previous.spec.endpoint_group_arn new.spec.endpoint_group_arn)
        (answer_iff body previous new u))
