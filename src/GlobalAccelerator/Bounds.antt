-- ===== src/GlobalAccelerator/Bounds.antt =====
-- How many requests the cleanup of an accelerator takes.
use aws_global_accelerator_c.Prelude.{
  ℕ, zero, suc, ◌+◌, ◌*◌, ◌≤◌, ◌≡◌, Bool, true, false, not, if◌then◌else◌, Text, ◌⊎◌, inl, inr,
  Option, none, some, arith,
}
use aws_global_accelerator_c.Errors.{Error}
use aws_global_accelerator_c.Listener.{Listener}
use aws_global_accelerator_c.Accelerator.{get_accelerator, poll_deployed, delete_accelerator}
use aws_global_accelerator_c.Endpoint.{
  get_listener, get_endpoint_group, delete_listener, delete_endpoint_group,
}
use aws_global_accelerator_c.GlobalAccelerator.Cleanup.{
  related_endpoint, related_listener, list_related_global_accelerator, delete_found_endpoint,
  delete_found_listener, delete_found_accelerator, cleanup_global_accelerator,
}
use aws_global_accelerator_c.Cloud.Types.{
  Accelerator, deployed, in_progress, EndpointGroup, Request, CloudService, page_count,
}
use aws_global_accelerator_c.Cloud.Exec.{pure}
use aws_global_accelerator_c.Cloud.Bounds.{
  SendsAtMost, SendsAtMost-pure, SendsAtMost-throw, SendsAtMost-attempt, SendsAtMost-bind,
  SendsAtMost-call, SendsAtMost-more,
}

-- The request of a poll.
abbrev pub describes : Request → Bool
describes (Request.describe_accelerator arn) = true
describes _ = false

abbrev pub does_not_describe : Request → Bool
does_not_describe q = not (describes q)

abbrev one_if : Bool → ℕ
one_if b = if b then 1 else 0

suc_times : (n d : ℕ) → d + n * d ≤ suc n * d
suc_times n d = omega arith

times_one : (n : ℕ) → n * 1 ≡ n
times_one n = omega arith

times_zero : (n : ℕ) → n * 0 ≡ 0
times_zero n = omega arith

module _ {W : Type 0} (service : CloudService W) where
  -- AWS answers with the listeners of an accelerator, and with the endpoint groups of a listener, in
  -- at most `k` pages.
  abbrev pub AnswersInPages : ℕ → Type 0
  AnswersInPages k =
      ((arn : Text) (w : W) → page_count (service (Request.list_listeners arn 100) w).0 ≤ k)
      × ((arn : Text) (w : W) → page_count (service (Request.list_endpoint_groups arn 100) w).0 ≤ k)

  -- For requests of which a poll sends `d`, any other one that is not a listing `o`, and a listing at
  -- most `k`.
  module _ (p : Request → Bool) (d o k : ℕ)
      (describe_few : (arn : Text) → one_if (p (Request.describe_accelerator arn)) ≤ d)
      (update_few : (arn : Text) (b : Bool) (n : Option Text)
        → one_if (p (Request.update_accelerator arn b n)) ≤ o)
      (delete_few : (arn : Text) → one_if (p (Request.delete_accelerator arn)) ≤ o)
      (listener_few : (arn : Text) → one_if (p (Request.delete_listener arn)) ≤ o)
      (group_few : (arn : Text) → one_if (p (Request.delete_endpoint_group arn)) ≤ o)
      (listeners_few : (arn : Text) (w : W)
        → (if p (Request.list_listeners arn 100)
            then page_count (service (Request.list_listeners arn 100) w).0
            else 0)
          ≤ k)
      (groups_few : (arn : Text) (w : W)
        → (if p (Request.list_endpoint_groups arn 100)
            then page_count (service (Request.list_endpoint_groups arn 100) w).0
            else 0)
          ≤ k) where
    get-SendsAtMost : (arn : Text) → SendsAtMost p d (get_accelerator service arn)
    unfolding get_accelerator
    get-SendsAtMost arn = SendsAtMost-call d service _ _ (λ w. describe_few arn)

    poll-SendsAtMost :
        (attempts : ℕ) (arn : Text)
        → SendsAtMost p (attempts * d) (poll_deployed service attempts arn)
    unfolding poll_deployed
    poll-SendsAtMost zero arn = SendsAtMost-more 0 (0 * d) _ (omega arith) (SendsAtMost-throw _)
    poll-SendsAtMost (suc attempts) arn =
        let rest = poll-SendsAtMost attempts arn in
        SendsAtMost-more (d + attempts * d) (suc attempts * d) _ (suc_times attempts d) (
          SendsAtMost-bind d (attempts * d) _ _ (get-SendsAtMost arn) (λ accelerator.
            elim accelerator.status
              as (λ status. SendsAtMost p {W = W} {A = Unit {0}} (attempts * d) (elim status [
                | deployed ↦ pure tt
                | in_progress ↦ poll_deployed service attempts arn
              ])) [
                | deployed ↦ SendsAtMost-more 0 (attempts * d) _ (omega arith) (SendsAtMost-pure tt)
                | in_progress ↦ rest
              ]))

    delete-SendsAtMost :
        (attempts : ℕ) (arn : Text)
        → SendsAtMost p (o + (attempts * d + o)) (delete_accelerator service attempts arn)
    unfolding delete_accelerator
    delete-SendsAtMost attempts arn =
        SendsAtMost-bind o (attempts * d + o) _ _
          (SendsAtMost-call o service _ _ (λ w. update_few arn false none))
          (λ _.
            SendsAtMost-bind (attempts * d) o _ _ (poll-SendsAtMost attempts arn)
              (λ _. SendsAtMost-call o service _ _ (λ w. delete_few arn)))

    endpoint-SendsAtMost :
        (a : Accelerator) (x : Error ⊎ Listener) → SendsAtMost p k (related_endpoint service a x)
    unfolding related_endpoint get_endpoint_group
    endpoint-SendsAtMost a (inl e) = SendsAtMost-more 0 k _ (omega arith) (SendsAtMost-pure _)
    endpoint-SendsAtMost a (inr l) = SendsAtMost-more (k + 0) k _ (omega arith) (
        SendsAtMost-bind k 0 _ _
          (SendsAtMost-attempt k _
            (SendsAtMost-call k service _ _ (λ w. groups_few l.listener_arn w)))
          (λ x. SendsAtMost-pure _))

    listener-SendsAtMost :
        (x : Error ⊎ Accelerator) → SendsAtMost p (k + k) (related_listener service x)
    unfolding related_listener get_listener
    listener-SendsAtMost (inl e) = SendsAtMost-more 0 (k + k) _ (omega arith) (SendsAtMost-pure _)
    listener-SendsAtMost (inr a) =
        SendsAtMost-bind k k _ _
          (SendsAtMost-attempt k _
            (SendsAtMost-call k service _ _ (λ w. listeners_few a.accelerator_arn w)))
          (λ x. endpoint-SendsAtMost a x)

    related-SendsAtMost :
        (arn : Text) → SendsAtMost p (d + (k + k)) (list_related_global_accelerator service arn)
    unfolding list_related_global_accelerator
    related-SendsAtMost arn =
        SendsAtMost-bind d (k + k) _ _ (SendsAtMost-attempt d _ (get-SendsAtMost arn))
          (λ x. listener-SendsAtMost x)

    group-SendsAtMost :
        (g : Option EndpointGroup) → SendsAtMost p o (delete_found_endpoint service g)
    unfolding delete_found_endpoint delete_endpoint_group
    group-SendsAtMost none = SendsAtMost-more 0 o _ (omega arith) (SendsAtMost-pure tt)
    group-SendsAtMost (some g) =
        SendsAtMost-call o service _ _ (λ w. group_few g.endpoint_group_arn)

    found_listener-SendsAtMost :
        (l : Option Listener) → SendsAtMost p o (delete_found_listener service l)
    unfolding delete_found_listener delete_listener
    found_listener-SendsAtMost none = SendsAtMost-more 0 o _ (omega arith) (SendsAtMost-pure tt)
    found_listener-SendsAtMost (some l) =
        SendsAtMost-call o service _ _ (λ w. listener_few l.listener_arn)

    found-SendsAtMost :
        (attempts : ℕ) (a : Option Accelerator)
        → SendsAtMost p (o + (attempts * d + o)) (delete_found_accelerator service attempts a)
    unfolding delete_found_accelerator
    found-SendsAtMost attempts none =
        SendsAtMost-more 0 (o + (attempts * d + o)) _ (omega arith) (SendsAtMost-pure tt)
    found-SendsAtMost attempts (some a) = delete-SendsAtMost attempts a.accelerator_arn

    all-SendsAtMost :
        (attempts : ℕ) (arn : Text)
        → SendsAtMost p
            ((d + (k + k)) + (o + (o + (o + (attempts * d + o)))))
            (cleanup_global_accelerator service attempts arn)
    unfolding cleanup_global_accelerator
    all-SendsAtMost attempts arn =
        let last = attempts * d + o in
        SendsAtMost-bind (d + (k + k)) (o + (o + (o + last))) _ _ (related-SendsAtMost arn)
          (λ related.
            SendsAtMost-bind o (o + (o + last)) _ _ (group-SendsAtMost related.endpoint) (λ _.
              SendsAtMost-bind o (o + last) _ _ (found_listener-SendsAtMost related.listener)
                (λ _. found-SendsAtMost attempts related.accelerator)))

  -- If AWS answers with the listeners of an accelerator and with the endpoint groups of a listener in
  -- at most `k` pages each, and whatever it answers besides: `CleanupGlobalAccelerator` asks for the
  -- accelerator at most once more than it polls, which is at most as often as its timeout has room
  -- for; and it sends at most four requests of other kinds besides those for these pages, each page
  -- for one.
  pub cleanup-SendsAtMost :
      (k attempts : ℕ) (arn : Text)
      → AnswersInPages k
      → SendsAtMost describes (attempts + 1) (cleanup_global_accelerator service attempts arn)
        × SendsAtMost does_not_describe
            (k + k + 4)
            (cleanup_global_accelerator service attempts arn)
  cleanup-SendsAtMost k attempts arn few = (
    SendsAtMost-more _ (attempts + 1) _ (omega (arith, times_one attempts)) (
        all-SendsAtMost describes 1 0 0 (λ arn. omega arith) (λ arn b n. omega arith)
          (λ arn. omega arith) (λ arn. omega arith) (λ arn. omega arith) (λ arn w. omega arith)
          (λ arn w. omega arith) attempts arn),
    SendsAtMost-more _ (k + k + 4) _ (omega (arith, times_zero attempts)) (
        all-SendsAtMost does_not_describe 0 1 k (λ arn. omega arith) (λ arn b n. omega arith)
          (λ arn. omega arith) (λ arn. omega arith) (λ arn. omega arith) few.0 few.1 attempts arn),
  )
