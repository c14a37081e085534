-- ===== src/Controller.antt =====
-- pkg/controller: what the two controllers for services and ingresses share.
pub mod Notify
pub mod Workers
pub mod Keeps
pub mod Accelerators
pub mod Records
use aws_global_accelerator_c.Prelude.{
  ℕ, Text, Bool, true, false, ◌||◌, ◌&&◌, ◌⊎◌, inl, inr, Option, none, some, List, [], ◌∷◌, codes,
  ltb, ◌==◌, has_key, if◌then◌else◌,
}
use aws_global_accelerator_c.Errors.{Error, Result, ok, err, panic, no_retry}
use aws_global_accelerator_c.Apis.{
  ObjectMeta, Service, Ingress, LoadBalancerIngress, load_balancer_type_annotation,
  ingress_class_annotation,
}
use aws_global_accelerator_c.LoadBalancer.{
  get_lb_name_from_hostname, detect_cloud_provider, aws_provider,
}
use aws_global_accelerator_c.Reconcile.{Outcome, finished}
use aws_global_accelerator_c.Cloud.Types.{Request, CloudService}
use aws_global_accelerator_c.Cloud.Exec.{Exec, pure, throw, lift, attempt, call, ◌>>=◌, ◌>>◌}

-- `runtime.Object`, as far as the type assertions of the code tell them apart.
pub data RuntimeObject : Type 0 where
  service : Service → RuntimeObject
  ingress : Ingress → RuntimeObject
  other : RuntimeObject

abbrev is_some : Option Text → Bool
is_some none = false
is_some (some t) = true

-- `wasLoadBalancerService`
unfoldable pub was_load_balancer_service : Service → Bool
was_load_balancer_service svc =
    (svc.service_type == codes "LoadBalancer")
    && (has_key load_balancer_type_annotation svc.meta.annotations
        || is_some svc.load_balancer_class)

abbrev is_alb : Option Text → Bool
is_alb none = false
is_alb (some name) = name == codes "alb"

-- `wasALBIngress`
unfoldable pub was_alb_ingress : Ingress → Bool
was_alb_ingress ing =
    is_alb ing.ingress_class_name || has_key ingress_class_annotation ing.meta.annotations

-- `cache.SplitMetaNamespaceKey`, of client-go: the namespace and the name, or an error.
abbrev pub SplitKey : Type 0
SplitKey = Text → Option (Text × Text)

-- The error of a key that cannot be split.
abbrev pub split_or_stop : Option (Text × Text) → Text → Result (Text × Text)
split_or_stop none k = err (no_retry (codes "invalid resource key: "))
split_or_stop (some parts) k = ok parts

-- What a round of the loop over the load balancers does: go on, or return.
abbrev pub Step : Type 0
Step = Option Outcome

-- `if retryAfter > 0 { return … }`
abbrev pub retry_step : ℕ → Step
retry_step seconds =
    if ltb 0 seconds then some (record { requeue = true; requeue_after = seconds }) else none

module _ {W : Type 0} (cloud : CloudService W) where
  -- `NewAWS`: the region of the load balancer client is all that differs between clients.
  unfoldable pub new_aws : Text → Exec W Text
  new_aws region = call cloud (Request.load_config region) (λ r. r) >> pure region

  -- A step that returns skips what follows.
  unfoldable pub step_or : Step → Exec W Step → Exec W Step
  step_or (some outcome) rest = pure (some outcome)
  step_or none rest = rest

  -- A load balancer that is not of AWS is skipped; one of AWS is handled by its name and region.
  unfoldable pub each_provider :
      (LoadBalancerIngress → Text → Text → Exec W Step)
      → LoadBalancerIngress
      → Error ⊎ Text
      → Exec W Step
  each_provider handle lb_ingress (inl e) = pure none
  each_provider handle lb_ingress (inr provider) =
      if provider == aws_provider
      then (do
        parts ← lift (get_lb_name_from_hostname lb_ingress.hostname)
        region ← new_aws parts.1
        handle lb_ingress parts.0 region)
      else pure none

  -- The loop over `Status.LoadBalancer.Ingress` of the four functions.
  unfoldable pub each_load_balancer :
      (LoadBalancerIngress → Text → Text → Exec W Step) → List LoadBalancerIngress → Exec W Outcome
  each_load_balancer handle [] = pure finished
  each_load_balancer handle (lb_ingress ∷ lb_ingresses) = do
    provider ← attempt (lift (detect_cloud_provider lb_ingress.hostname))
    step ← each_provider handle lb_ingress provider
    elim step [ some outcome ↦ pure outcome | none ↦ each_load_balancer handle lb_ingresses ]
