-- ===== src/Process/Phase.antt =====
-- What is known of a controller by the place where its `Run` stands, and that steps keep it.
use aws_global_accelerator_c.Prelude.{
  ℕ, Bool, true, ◌≡◌, refl, sym, ap, ◌∙◌, ◌⊎◌, inl, inr, Text, List, [], ◌∷◌, ◌++◌, append_assoc,
  append-nil, all, Bool-cases, arith,
}
use aws_global_accelerator_c.Process.Controllers.{Informer, Controller}
use aws_global_accelerator_c.Process.Run.{
  RunPhase, waiting, starting, serving, returned, RunState, Choice, go_on, give_up, all_workers,
  step_from,
}

module _ (threadiness : ℕ) where
  -- What is known of a controller whose `Run` stands here, with these workers started and these
  -- queues shut down: no worker is started before all the caches that it waits for are there, then
  -- they are started in their order; queues are shut down when it returns, and it returns only after
  -- the stop channel was closed.
  abbrev pub PhaseIs :
      Bool → (Informer → Bool) → Controller → RunPhase → List Text → List Text → Type 0
  PhaseIs is_stopped has_synced c waiting started shut = (started ≡ []) × (shut ≡ [])
  PhaseIs is_stopped has_synced c (starting queues) started shut =
      (all has_synced c.waits_for ≡ true)
      × (started ++ queues ≡ all_workers threadiness c.worker_queues)
      × (shut ≡ [])
  PhaseIs is_stopped has_synced c serving started shut =
      (all has_synced c.waits_for ≡ true)
      × (started ≡ all_workers threadiness c.worker_queues)
      × (shut ≡ [])
  PhaseIs is_stopped has_synced c (returned error) started shut =
      (is_stopped ≡ true)
      × (shut ≡ c.deferred_queues)
      × ((started ≡ [])
          ⊎ ((all has_synced c.waits_for ≡ true)
              × (started ≡ all_workers threadiness c.worker_queues)))

  abbrev pub RunIs : Bool → (Informer → Bool) → Controller × RunState → Type 0
  RunIs is_stopped has_synced (c, r) = PhaseIs is_stopped has_synced c r.phase r.started r.shut_down

  module _ (is_stopped : Bool) (has_synced : Informer → Bool) (c : Controller) where
    pub step-PhaseIs :
        (phase : RunPhase) (choice : Choice) (started shut : List Text)
        → PhaseIs is_stopped has_synced c phase started shut
        → RunIs is_stopped has_synced
            (c, step_from threadiness is_stopped has_synced c phase choice started shut)
    unfolding step_from
    step-PhaseIs waiting go_on started shut h = elim (Bool-cases (all has_synced c.waits_for)) [
      | inl e ↦ rw e (e, ap (λ l. l ++ all_workers threadiness c.worker_queues) h.0, h.1)
      | inr e ↦ rw e h
    ]
    step-PhaseIs waiting give_up started shut h = elim (Bool-cases is_stopped) [
      | inl e ↦ rw e (refl, ap (λ l. l ++ c.deferred_queues) h.1, inl h.0)
      | inr e ↦ rw e h
    ]
    step-PhaseIs (starting (queue ∷ queues)) choice started shut h =
        (h.0, append_assoc started (queue ∷ []) queues ∙ h.1, h.2)
    step-PhaseIs (starting []) choice started shut h = (h.0, sym (append-nil started) ∙ h.1, h.2)
    step-PhaseIs serving choice started shut h = elim (Bool-cases is_stopped) [
      | inl e ↦ rw e (refl, ap (λ l. l ++ c.deferred_queues) h.2, inr (h.0, h.1))
      | inr e ↦ rw e h
    ]
    step-PhaseIs (returned error) choice started shut h = h

  all_weaker :
      (f g : Informer → Bool) (is : List Informer)
      → ((i : Informer) → f i ≡ true → g i ≡ true)
      → all f is ≡ true
      → all g is ≡ true
  all_weaker f g [] w h = refl
  all_weaker f g (i ∷ is) w h = let rest = all_weaker f g is w in ground (arith, w i, rest)

  -- It stays known when the channel is closed and when more caches are there.
  pub PhaseIs-later :
      (stopped stopped' : Bool) (f g : Informer → Bool) (c : Controller) (phase : RunPhase)
      (started shut : List Text)
      → (stopped ≡ true → stopped' ≡ true)
      → ((i : Informer) → f i ≡ true → g i ≡ true)
      → PhaseIs stopped f c phase started shut
      → PhaseIs stopped' g c phase started shut
  PhaseIs-later stopped stopped' f g c waiting started shut s w h = h
  PhaseIs-later stopped stopped' f g c (starting queues) started shut s w h =
      (all_weaker f g c.waits_for w h.0, h.1, h.2)
  PhaseIs-later stopped stopped' f g c serving started shut s w h =
      (all_weaker f g c.waits_for w h.0, h.1, h.2)
  PhaseIs-later stopped stopped' f g c (returned error) started shut s w (a, b, inl e) =
      (s a, b, inl e)
  PhaseIs-later stopped stopped' f g c (returned error) started shut s w (a, b, inr (d, e)) =
      (s a, b, inr (all_weaker f g c.waits_for w d, e))
