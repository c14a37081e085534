-- ===== src/Orderly/Named.antt =====
-- Accelerators whose listed tags name an owner, and the requests that need this.
use aws_global_accelerator_c.Prelude.{
  ℕ, zero, suc, Text, Dict, Bool, true, false, ◌&&◌, ◌≡◌, refl, ◌⊎◌, inl, inr, none, List, [], ◌∷◌,
  ◌==◌, eq_refl, and_iff, All, All-append, All-map,
}
use aws_global_accelerator_c.Errors.{Result, ok, err, panic}
use aws_global_accelerator_c.Tags.{Tag, tags_contains_all_values}
use aws_global_accelerator_c.Cloud.Types.{
  Accelerator, deployed, in_progress, Request, Answer, Log, CloudService,
}
use aws_global_accelerator_c.Cloud.Exec.{pure, call}
use aws_global_accelerator_c.Cloud.Triple.{After, Triple, Triple-bind, Triple-call, Triple-pure}
use aws_global_accelerator_c.Cloud.Keeps.{Keeps, Keeps-bind, Keeps-pure, Keeps-throw, Keeps-call}
use aws_global_accelerator_c.Accelerator.{
  get_accelerator, poll_deployed, delete_accelerator, list_tags_for_accelerator,
}
use aws_global_accelerator_c.GlobalAccelerator.Lookup.{append_if, with_tags}

-- The tags of this accelerator were listed, and hold the target.
abbrev pub names : Dict → Text → (q : Request) → Answer q → Bool
names target arn (Request.list_tags_for_resource arn') (ok tags) =
    (arn' == arn) && tags_contains_all_values tags target
names target arn _ _ = false

-- `shows arn q answer` says that the answer shows whose accelerator it is.
module _ (shows : Text → (q : Request) → Answer q → Bool) where
  -- An answer did, at some time.
  abbrev pub WasNamed : Text → Log → Type 0
  WasNamed arn [] = ⊥
  WasNamed arn (e ∷ log) = (shows arn e.request e.answer ≡ true) ⊎ WasNamed arn log

  -- What is known before a request that disables or deletes an accelerator.
  abbrev pub Guard : Request → Log → Type 0
  Guard (Request.update_accelerator arn false name) log = WasNamed arn log
  Guard (Request.delete_accelerator arn) log = WasNamed arn log
  Guard _ log = Unit {0}

  -- It holds of every request of the log.
  abbrev pub IsOwned : Log → Type 0
  IsOwned [] = Unit {0}
  IsOwned (e ∷ log) = Guard e.request log × IsOwned log

  -- Besides, it is known of these accelerators.
  abbrev pub Named : List Accelerator → Log → Type 0
  Named found log = IsOwned log × All (λ a. WasNamed a.accelerator_arn log) found

  module _ {W : Type 0} (service : CloudService W) where
    pub call-Named :
        {A : Type 0} (found : List Accelerator) (q : Request) (result : Answer q → Result A)
        → ((log : Log) → Named found log → Guard q log)
        → Keeps (Named found) (call service q result)
    call-Named found q result g =
        Keeps-call service q result
          (λ answer log h. ((g log h, h.0), All-map _ _ (λ a w. inr w) found h.1))

    -- Whoever describes an accelerator gets that one.
    abbrev pub DescribesIt : Type 0
    DescribesIt =
        (arn : Text) (w : W) (a : Accelerator)
        → (service (Request.describe_accelerator arn) w).0 ≡ ok a
        → a.accelerator_arn ≡ arn

    pub poll-Named :
        (found : List Accelerator) (attempts : ℕ) (arn : Text)
        → Keeps (Named found) (poll_deployed service attempts arn)
    unfolding poll_deployed get_accelerator
    poll-Named found zero arn = Keeps-throw _
    poll-Named found (suc attempts) arn =
        Keeps-bind _ _ (call-Named found (Request.describe_accelerator arn) (λ r. r) (λ log h. tt))
          (λ accelerator.
            elim accelerator.status
              as (λ status. Keeps {W = W} {A = Unit {0}} (Named found) (elim status [
                | deployed ↦ pure tt
                | in_progress ↦ poll_deployed service attempts arn
              ])) [ deployed ↦ Keeps-pure tt | in_progress ↦ poll-Named found attempts arn ])

    pub delete-Named :
        (found : List Accelerator) (attempts : ℕ) (arn : Text)
        → ((log : Log) → Named found log → WasNamed arn log)
        → Keeps (Named found) (delete_accelerator service attempts arn)
    unfolding delete_accelerator
    delete-Named found attempts arn g =
        Keeps-bind _ _ (call-Named found (Request.update_accelerator arn false none) (λ r. r) g)
          (λ _.
            Keeps-bind _ _ (poll-Named found attempts arn)
              (λ _. call-Named found (Request.delete_accelerator arn) (λ r. r) g))

    pub call_quiet :
        {A : Type 0} (found : List Accelerator) (q : Request) (result : Answer q → Result A)
        → ((log : Log) → Guard q log)
        → Keeps (Named found) (call service q result)
    call_quiet found q result g = call-Named found q result (λ log h. g log)

    module _ (target : Dict)
        (shown : (arn : Text) (tags : List Tag)
          → tags_contains_all_values tags target ≡ true
          → shows arn (Request.list_tags_for_resource arn) (ok tags) ≡ true) where
      append-Named :
          (found : List Accelerator) (a : Accelerator) (tags : List Tag) (log : Log) (b : Bool)
          → tags_contains_all_values tags target ≡ b
          → Named found log
          → Named (append_if b found a) (
              record {
                request = Request.list_tags_for_resource a.accelerator_arn;
                answer = ok tags;
              }
              ∷ log)
      append-Named found a tags log true e h = (
        (tt, h.0),
        All-append _ found (a ∷ []) (All-map _ _ (λ a w. inr w) found h.1)
            (inl (shown a.accelerator_arn tags e), tt),
      )
      append-Named found a tags log false e h = ((tt, h.0), All-map _ _ (λ a w. inr w) found h.1)

      tags_step :
          (found : List Accelerator) (a : Accelerator) (answer : Result (List Tag)) (log : Log)
          → Named found log
          → After
              (λ tags. Named (append_if (tags_contains_all_values tags target) found a))
              IsOwned
              answer
              (record {
                request = Request.list_tags_for_resource a.accelerator_arn;
                answer = answer;
              }
                ∷ log)
      tags_step found a (ok tags) log h = append-Named found a tags log _ refl h
      tags_step found a (err e) log h = (tt, h.0)
      tags_step found a panic log h = (tt, h.0)

      pub with_tags-Named :
          (accelerators found : List Accelerator)
          → Triple (Named found) (with_tags service target accelerators found) Named IsOwned
      unfolding with_tags list_tags_for_accelerator
      with_tags-Named [] found = Triple-pure found (λ log h. h)
      with_tags-Named (a ∷ accelerators) found =
          Triple-bind _ _
            (Triple-call service (Request.list_tags_for_resource a.accelerator_arn) (λ r. r)
              (tags_step found a))
            (λ tags.
              with_tags-Named accelerators
                (append_if (tags_contains_all_values tags target) found a))

pub names_shown :
    (target : Dict) (arn : Text) (tags : List Tag)
    → tags_contains_all_values tags target ≡ true
    → names target arn (Request.list_tags_for_resource arn) (ok tags) ≡ true
names_shown target arn tags e = (and_iff (arn == arn) _).1 (eq_refl arn, e)
