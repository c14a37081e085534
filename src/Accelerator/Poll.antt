-- ===== src/Accelerator/Poll.antt =====
-- `deleteAccelerator` as a protocol: disabled, seen in progress any number of times, seen deployed,
-- deleted.
use aws_global_accelerator_c.Prelude.{
  ℕ, zero, suc, Text, Bool, true, false, ◌≡◌, ◌⊎◌, inl, inr, none, [], ◌∷◌, ◌==◌, eq_refl,
}
use aws_global_accelerator_c.Errors.{Result, ok, err, panic, poll_timeout}
use aws_global_accelerator_c.Cloud.Types.{
  Accelerator, AcceleratorStatus, deployed, in_progress, Request, Answer, Log, CloudService,
}
use aws_global_accelerator_c.Cloud.Exec.{pure}
use aws_global_accelerator_c.Cloud.Triple.{
  After, Triple, Triple-pure, Triple-throw, Triple-bind, Triple-call, Triple-always,
}
use aws_global_accelerator_c.Cloud.Keeps.{Keeps}
use aws_global_accelerator_c.Accelerator.{get_accelerator, poll_deployed, delete_accelerator}

-- The request disables the accelerator, and was granted.
abbrev pub disables : Text → (q : Request) → Answer q → Bool
disables arn (Request.update_accelerator arn' false name) (ok accelerator) = arn' == arn
disables arn _ _ = false

-- The accelerator is described, as in progress.
abbrev pub waits : Text → (q : Request) → Answer q → Bool
waits arn (Request.describe_accelerator arn') (ok accelerator) = elim accelerator.status [
  | deployed ↦ false
  | in_progress ↦ arn' == arn
]
waits arn _ _ = false

-- The accelerator is described, as deployed.
abbrev pub settles : Text → (q : Request) → Answer q → Bool
settles arn (Request.describe_accelerator arn') (ok accelerator) = elim accelerator.status [
  | deployed ↦ arn' == arn
  | in_progress ↦ false
]
settles arn _ _ = false

-- The accelerator was disabled, and since then it was only seen in progress.
abbrev pub IsDisabled : Text → Log → Type 0
IsDisabled arn [] = ⊥
IsDisabled arn (e ∷ log) =
    (disables arn e.request e.answer ≡ true)
    ⊎ ((waits arn e.request e.answer ≡ true) × IsDisabled arn log)

-- The newest event saw it deployed after that.
abbrev pub IsSettled : Text → Log → Type 0
IsSettled arn [] = ⊥
IsSettled arn (e ∷ log) = (settles arn e.request e.answer ≡ true) × IsDisabled arn log

abbrev pub Allowed : Request → Log → Type 0
Allowed (Request.delete_accelerator arn) log = IsSettled arn log
Allowed _ log = Unit {0}

-- Every deletion of an accelerator comes right after it was seen deployed and disabled.
abbrev pub IsOrderly : Log → Type 0
IsOrderly [] = Unit {0}
IsOrderly (e ∷ log) = Allowed e.request log × IsOrderly log

module _ {W : Type 0} (service : CloudService W) where
  disable_step :
      (arn : Text) (answer : Result Accelerator) (log : Log)
      → IsOrderly log
      → After
          (λ _ log. IsOrderly log × IsDisabled arn log)
          IsOrderly
          answer
          (record { request = Request.update_accelerator arn false none; answer = answer } ∷ log)
  disable_step arn (ok accelerator) log h = ((tt, h), inl (eq_refl arn))
  disable_step arn (err e) log h = (tt, h)
  disable_step arn panic log h = (tt, h)

  delete_step :
      (arn : Text) (answer : Result (Unit {0})) (log : Log)
      → IsOrderly log × IsSettled arn log
      → After
          (λ _ log. IsOrderly log)
          IsOrderly
          answer
          (record { request = Request.delete_accelerator arn; answer = answer } ∷ log)
  delete_step arn (ok _) log h = (h.1, h.0)
  delete_step arn (err e) log h = (h.1, h.0)
  delete_step arn panic log h = (h.1, h.0)

  -- What a poll leaves: disabled if it was in progress, settled if deployed.
  abbrev Seen : Text → Accelerator → Log → Type 0
  Seen arn accelerator log =
      IsOrderly log
      × elim accelerator.status [ deployed ↦ IsSettled arn log | in_progress ↦ IsDisabled arn log ]

  Seen-ok :
      (arn arn' name dns_name : Text) (is_enabled : Bool) (status : AcceleratorStatus) (log : Log)
      → IsOrderly log × IsDisabled arn log
      → let accelerator : Accelerator = record {
        accelerator_arn = arn';
        name = name;
        dns_name = dns_name;
        is_enabled = is_enabled;
        status = status;
      } in
        Seen arn accelerator
          (record { request = Request.describe_accelerator arn; answer = ok accelerator } ∷ log)
  Seen-ok arn arn' name dns_name is_enabled deployed log h = ((tt, h.0), (eq_refl arn, h.1))
  Seen-ok arn arn' name dns_name is_enabled in_progress log h = ((tt, h.0), inr (eq_refl arn, h.1))

  poll_step :
      (arn : Text) (answer : Result Accelerator) (log : Log)
      → IsOrderly log × IsDisabled arn log
      → After
          (Seen arn)
          IsOrderly
          answer
          (record { request = Request.describe_accelerator arn; answer = answer } ∷ log)
  poll_step arn (ok accelerator) log h =
      Seen-ok arn accelerator.accelerator_arn accelerator.name accelerator.dns_name
        accelerator.is_enabled accelerator.status log h
  poll_step arn (err e) log h = (tt, h.0)
  poll_step arn panic log h = (tt, h.0)

  poll-Triple :
      (attempts : ℕ) (arn : Text)
      → Triple
          (λ log. IsOrderly log × IsDisabled arn log)
          (poll_deployed service attempts arn)
          (λ _ log. IsOrderly log × IsSettled arn log)
          IsOrderly
  unfolding poll_deployed get_accelerator
  poll-Triple zero arn = Triple-throw poll_timeout (λ log h. h.0)
  poll-Triple (suc attempts) arn =
      Triple-bind _ _
        (Triple-call service (Request.describe_accelerator arn) (λ r. r) (poll_step arn))
        (λ accelerator.
          elim accelerator.status
            as (λ status.
              Triple {W = W} {A = Unit {0}}
                (λ log.
                  IsOrderly log
                  × elim status [ deployed ↦ IsSettled arn log | in_progress ↦ IsDisabled arn log ])
                (elim status [
                  | deployed ↦ pure tt
                  | in_progress ↦ poll_deployed service attempts arn
                ])
                (λ _ log. IsOrderly log × IsSettled arn log) IsOrderly) [
                  | deployed ↦ Triple-pure tt (λ log h. h)
                  | in_progress ↦ poll-Triple attempts arn
                ])

  delete-Triple :
      (attempts : ℕ) (arn : Text)
      → Triple IsOrderly (delete_accelerator service attempts arn) (λ _. IsOrderly) IsOrderly
  unfolding delete_accelerator
  delete-Triple attempts arn =
      Triple-bind _ _
        (Triple-call service (Request.update_accelerator arn false none) (λ r. r)
          (disable_step arn))
        (λ _.
          Triple-bind _ _ (poll-Triple attempts arn)
            (λ _. Triple-call service (Request.delete_accelerator arn) (λ r. r) (delete_step arn)))

  -- `deleteAccelerator` sends `DeleteAccelerator` only right after the accelerator was seen deployed,
  -- having been disabled and since then seen in progress only, whatever the service answers.
  pub delete_accelerator-IsOrderly :
      (attempts : ℕ) (arn : Text) → Keeps IsOrderly (delete_accelerator service attempts arn)
  delete_accelerator-IsOrderly attempts arn = record {
    at = Triple-always _ (delete-Triple attempts arn) (λ _ log h. h) (λ log h. h);
  }
