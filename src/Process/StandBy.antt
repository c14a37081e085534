-- ===== src/Process/StandBy.antt =====
-- A process that waits for the lease: `LeaderElection.Run` hands the stop channel to the manager only.
use aws_global_accelerator_c.Prelude.{
  ℕ, zero, suc, ◌+◌, ◌≤◌, Bool, true, false, ◌≡◌, refl, sym, subst, Text, List, [], ◌∷◌, arith,
}
use aws_global_accelerator_c.Process.Controllers.{Controller}
use aws_global_accelerator_c.Process.System.{
  electing, System, SystemEvent, signal, acquire_lease, lose_lease, start_informers,
  start_own_informers, informer_syncs, run_goes, all_returned, initial_system, catch_signal,
  happens, system_step, run_events,
}

-- The events that are signals.
abbrev pub count_signals : List SystemEvent → ℕ
count_signals [] = 0
count_signals (signal ∷ events) = suc (count_signals events)
count_signals (_ ∷ events) = count_signals events

abbrev pub is_acquired : List SystemEvent → Bool
is_acquired [] = false
is_acquired (acquire_lease ∷ events) = true
is_acquired (_ ∷ events) = is_acquired events

module _ (threadiness : ℕ) (clients : Bool)
    (order : List (Text × Controller) → List (Text × Controller)) where
  caught :
      (n : ℕ) (s : System) (later : ℕ)
      → s.stage ≡ electing
      → s.signals ≡ n
      → n + suc later ≤ 1
      → ((catch_signal n s).stage ≡ electing) × ((catch_signal n s).signals + later ≤ 1)
  unfolding catch_signal
  caught zero s later waits e h = (waits, omega arith)
  caught (suc n) s later waits e h = absurd (omega arith)

  abbrev StandsBy : List SystemEvent → System → Type 0
  StandsBy events s = (run_events threadiness clients order events s).stage ≡ electing

  -- An event at this stage, and the events after it.
  next-StandsBy :
      (event : SystemEvent) (events : List SystemEvent) (s : System)
      → s.stage ≡ electing
      → StandsBy events (happens threadiness clients order electing event s)
      → StandsBy (event ∷ events) s
  unfolding run_events system_step
  next-StandsBy event events s waits h =
      subst (λ stage. StandsBy events (happens threadiness clients order stage event s)) (sym waits)
        h

  StandsBy-from :
      (events : List SystemEvent) (s : System)
      → s.stage ≡ electing
      → is_acquired events ≡ false
      → s.signals + count_signals events ≤ 1
      → StandsBy events s
  unfolding run_events happens
  StandsBy-from [] s waits none one = waits
  StandsBy-from (signal ∷ events) s waits none one =
      let (waits', one') = caught s.signals s (count_signals events) waits refl one in
      next-StandsBy signal events s waits
        (StandsBy-from events (catch_signal s.signals s) waits' none one')
  StandsBy-from (acquire_lease ∷ events) s waits none one = cc
  StandsBy-from (lose_lease ∷ events) s waits none one =
      next-StandsBy _ events s waits (StandsBy-from events s waits none one)
  StandsBy-from (start_informers ∷ events) s waits none one =
      next-StandsBy _ events s waits (StandsBy-from events s waits none one)
  StandsBy-from (start_own_informers ∷ events) s waits none one =
      next-StandsBy _ events s waits (StandsBy-from events s waits none one)
  StandsBy-from (informer_syncs i ∷ events) s waits none one =
      next-StandsBy _ events s waits (StandsBy-from events s waits none one)
  StandsBy-from (run_goes i choice ∷ events) s waits none one =
      next-StandsBy _ events s waits (StandsBy-from events s waits none one)
  StandsBy-from (all_returned ∷ events) s waits none one =
      next-StandsBy _ events s waits (StandsBy-from events s waits none one)

  -- A process that does not hold the lease does not end on the first signal: as long as it does not
  -- get the lease and catches one signal at most, it goes on waiting for the lease, whatever happens
  -- besides.
  pub first_signal_ignored :
      (events : List SystemEvent)
      → is_acquired events ≡ false
      → count_signals events ≤ 1
      → (run_events threadiness clients order events initial_system).stage ≡ electing
  unfolding initial_system
  first_signal_ignored events none one = StandsBy-from events initial_system refl none (omega arith)
