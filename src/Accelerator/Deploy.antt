-- ===== src/Accelerator/Deploy.antt =====
-- How `deleteAccelerator` ends, by what the accelerator is seen as while it is polled.
use aws_global_accelerator_c.Prelude.{ℕ, zero, suc, ◌<◌, Text, false, ◌≡◌, refl, none, ◌∷◌, arith}
use aws_global_accelerator_c.Errors.{ok, err, poll_timeout}
use aws_global_accelerator_c.Cloud.Types.{
  Accelerator, AcceleratorStatus, deployed, in_progress, Request, CloudService,
}
use aws_global_accelerator_c.Cloud.Exec.{State, call, ◌>>=◌}
use aws_global_accelerator_c.Accelerator.{get_accelerator, poll_deployed, delete_accelerator}

module _ {W : Type 0} (service : CloudService W) (arn : Text) where
  abbrev describe : Request
  describe = Request.describe_accelerator arn

  -- The accelerator is described with this status.
  abbrev pub IsSeen : AcceleratorStatus → W → Type 0
  IsSeen status w =
      (accelerator : Accelerator) × ((service describe w).0 ≡ ok accelerator)
      × (accelerator.status ≡ status)

  -- It is seen in progress `k` times, and deployed then.
  abbrev pub DeploysAfter : ℕ → W → Type 0
  DeploysAfter zero w = IsSeen deployed w
  DeploysAfter (suc k) w = IsSeen in_progress w × DeploysAfter k (service describe w).1

  -- It is seen in progress `k` times.
  abbrev pub StaysInProgress : ℕ → W → Type 0
  StaysInProgress zero w = Unit {0}
  StaysInProgress (suc k) w = IsSeen in_progress w × StaysInProgress k (service describe w).1

  poll_succeeds :
      (k attempts : ℕ) (s : State W)
      → k < attempts
      → DeploysAfter k s.world
      → (poll_deployed service attempts arn s).0 ≡ ok tt
  unfolding poll_deployed get_accelerator call ◌>>=◌
  poll_succeeds k zero s h d = absurd (omega arith)
  poll_succeeds zero (suc attempts) s h (accelerator, e, st) = rw e (rw st)
  poll_succeeds (suc k) (suc attempts) s h ((accelerator, e, st), d) =
      rw e (rw st (poll_succeeds k attempts _ (omega arith) d))

  poll_times_out :
      (attempts : ℕ) (s : State W)
      → StaysInProgress attempts s.world
      → (poll_deployed service attempts arn s).0 ≡ err poll_timeout
  unfolding poll_deployed get_accelerator call ◌>>=◌
  poll_times_out zero s h = refl
  poll_times_out (suc attempts) s ((accelerator, e, st), d) =
      rw e (rw st (poll_times_out attempts _ d))

  abbrev disable : Request
  disable = Request.update_accelerator arn false none

  -- If disabling is granted, the accelerator is deployed before the polls run out, and deletions
  -- are granted, then `deleteAccelerator` succeeds.
  pub delete_accelerator_succeeds :
      (k attempts : ℕ) (s : State W) (accelerator : Accelerator)
      → k < attempts
      → (service disable s.world).0 ≡ ok accelerator
      → DeploysAfter k (service disable s.world).1
      → ((w : W) → (service (Request.delete_accelerator arn) w).0 ≡ ok tt)
      → (delete_accelerator service attempts arn s).0 ≡ ok tt
  unfolding delete_accelerator call ◌>>=◌
  delete_accelerator_succeeds k attempts s accelerator h e d granted = rw e (
      rw
        (poll_succeeds k attempts
          (record {
            world = (service disable s.world).1;
            log = record { request = disable; answer = ok accelerator } ∷ s.log;
          })
          h d)
        (granted _))

  -- If it is still in progress at every poll, `deleteAccelerator` ends with the poll's timeout.
  pub delete_accelerator_times_out :
      (attempts : ℕ) (s : State W) (accelerator : Accelerator)
      → (service disable s.world).0 ≡ ok accelerator
      → StaysInProgress attempts (service disable s.world).1
      → (delete_accelerator service attempts arn s).0 ≡ err poll_timeout
  unfolding delete_accelerator call ◌>>=◌
  delete_accelerator_times_out attempts s accelerator e d = rw e (
      rw (
        poll_times_out attempts
          (record {
            world = (service disable s.world).1;
            log = record { request = disable; answer = ok accelerator } ∷ s.log;
          })
          d))
