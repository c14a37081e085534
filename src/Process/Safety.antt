-- ===== src/Process/Safety.antt =====
-- What holds of the process in every state that it comes to.
use aws_global_accelerator_c.Prelude.{
  ℕ, zero, suc, ◌≤◌, ◌<◌, Bool, true, false, ◌||◌, ◌≡◌, refl, sym, subst, Text, List, [], ◌∷◌, map,
  All, All-map, arith, ltb, if◌then◌else◌,
}
use aws_global_accelerator_c.Process.Controllers.{Informer, Controller}
use aws_global_accelerator_c.Process.Run.{RunState, Choice, initial_run, run_step}
use aws_global_accelerator_c.Process.System.{
  Stage, electing, leading, exited, finished, second_signal, fatal, System, SystemEvent, signal,
  acquire_lease, lose_lease, start_informers, start_own_informers, informer_syncs, run_goes,
  all_returned, is_running, same_informer, initial_system, catch_signal, start_leading, step_run,
  are_returned, happens, system_step, run_events, new_controller_initializers,
}
use aws_global_accelerator_c.Process.Phase.{RunIs, step-PhaseIs, PhaseIs-later}

module _ (threadiness : ℕ) where
  -- What is known of a stage: who ends the process, and with what.
  abbrev pub StageIs : List (Controller × RunState) → ℕ → Stage → Type 0
  StageIs runs signals electing = (runs ≡ []) × (signals < 2)
  StageIs runs signals leading = signals < 2
  StageIs runs signals (exited finished) = are_returned runs ≡ true
  StageIs runs signals (exited second_signal) = 2 ≤ signals
  StageIs runs signals (exited _) = Unit {0}

  pub record IsSound (s : System) : Type 0 where
    pub runs_are : All (RunIs threadiness s.is_stopped s.has_synced) s.runs
    pub stop_is : s.is_stopped ≡ ltb 0 s.signals
    pub stage_is : StageIs s.runs s.signals s.stage

  new_runs :
      (stopped : Bool) (f : Informer → Bool) (cs : List (Text × Controller))
      → All (RunIs threadiness stopped f) (map (λ (name, c). (c, initial_run)) cs)
  unfolding initial_run
  new_runs stopped f [] = tt
  new_runs stopped f ((name, c) ∷ cs) = ((refl, refl), new_runs stopped f cs)

  module _ (clients : Bool) (order : List (Text × Controller) → List (Text × Controller)) where
    step_run-RunIs :
        (s : System) (choice : Choice) (i : ℕ) (runs : List (Controller × RunState))
        → All (RunIs threadiness s.is_stopped s.has_synced) runs
        → All (RunIs threadiness s.is_stopped s.has_synced) (step_run threadiness s choice i runs)
    unfolding run_step
    step_run-RunIs s choice i [] h = tt
    step_run-RunIs s choice zero ((c, r) ∷ runs) h = (
      step-PhaseIs threadiness s.is_stopped s.has_synced c r.phase choice r.started r.shut_down h.0,
      h.1,
    )
    step_run-RunIs s choice (suc i) (run ∷ runs) h = (h.0, step_run-RunIs s choice i runs h.1)

    signal-IsSound :
        (n : ℕ) (s : System)
        → s.signals ≡ n
        → StageIs s.runs 1 s.stage
        → IsSound s
        → IsSound (catch_signal n s)
    unfolding catch_signal
    signal-IsSound zero s e stays h = record {
      runs_are =
          All-map _ _
            (λ (c, r) k. PhaseIs-later threadiness _ _ _ _ c r.phase _ _ (λ _. refl) (λ i w. w) k)
            s.runs h.runs_are;
      stop_is = refl;
      stage_is = stays;
    }
    signal-IsSound (suc n) s e stays h = record {
      runs_are = h.runs_are;
      stop_is = let stop = h.stop_is in ground (arith, e, stop);
      stage_is = omega arith;
    }

    syncs-IsSound :
        (b : Bool) (i : Informer) (s : System)
        → IsSound s
        → IsSound
            (if b then record s { has_synced = λ j. same_informer i j || s.has_synced j } else s)
    syncs-IsSound true i s h = record {
      runs_are =
          All-map _ _
            (λ (c, r) k.
              PhaseIs-later threadiness _ _ _ _ c r.phase _ _ (λ x. x) (λ j w. ground (arith, w)) k)
            s.runs h.runs_are;
      stop_is = h.stop_is;
      stage_is = h.stage_is;
    }
    syncs-IsSound false i s h = h

    returned-IsSound :
        (b : Bool) (s : System)
        → are_returned s.runs ≡ b
        → IsSound s
        → IsSound (if b then record s { stage = exited finished } else s)
    returned-IsSound true s e h = record {
      runs_are = h.runs_are;
      stop_is = h.stop_is;
      stage_is = e;
    }
    returned-IsSound false s e h = h

    lead-IsSound :
        (b : Bool) (s : System)
        → s.signals < 2
        → IsSound s
        → IsSound (
            if b
            then record s {
              stage = leading;
              runs = map (λ (name, c). (c, initial_run)) (order new_controller_initializers);
            }
            else record s { stage = exited fatal })
    lead-IsSound true s low h = record {
      runs_are = new_runs _ _ (order new_controller_initializers);
      stop_is = h.stop_is;
      stage_is = low;
    }
    lead-IsSound false s low h = record {
      runs_are = h.runs_are;
      stop_is = h.stop_is;
      stage_is = tt;
    }

    happens-IsSound :
        (stage : Stage) (event : SystemEvent) (s : System)
        → s.stage ≡ stage
        → IsSound s
        → IsSound (happens threadiness clients order stage event s)
    unfolding happens start_leading
    happens-IsSound (exited exit) event s e h = h
    happens-IsSound electing signal s e h =
        let empty = subst (StageIs s.runs s.signals) e h.stage_is in
        signal-IsSound s.signals s refl (subst (StageIs s.runs 1) (sym e) (empty.0, omega arith)) h
    happens-IsSound electing acquire_lease s e h =
        lead-IsSound clients s (subst (StageIs s.runs s.signals) e h.stage_is).1 h
    happens-IsSound electing _ s e h = h
    happens-IsSound leading signal s e h =
        signal-IsSound s.signals s refl (subst (StageIs s.runs 1) (sym e) (omega arith)) h
    happens-IsSound leading lose_lease s e h = record {
      runs_are = h.runs_are;
      stop_is = h.stop_is;
      stage_is = tt;
    }
    happens-IsSound leading start_informers s e h = record {
      runs_are = h.runs_are;
      stop_is = h.stop_is;
      stage_is = h.stage_is;
    }
    happens-IsSound leading start_own_informers s e h = record {
      runs_are = h.runs_are;
      stop_is = h.stop_is;
      stage_is = h.stage_is;
    }
    happens-IsSound leading (informer_syncs i) s e h = syncs-IsSound (is_running s i) i s h
    happens-IsSound leading (run_goes i choice) s e h = record {
      runs_are = step_run-RunIs s choice i s.runs h.runs_are;
      stop_is = h.stop_is;
      stage_is =
          let low = subst (StageIs s.runs s.signals) e h.stage_is in
          subst (StageIs (step_run threadiness s choice i s.runs) s.signals) (sym e) low;
    }
    happens-IsSound leading all_returned s e h = returned-IsSound _ s refl h
    happens-IsSound leading acquire_lease s e h = h

    initial-IsSound : IsSound initial_system
    unfolding initial_system
    initial-IsSound = record { runs_are = tt; stop_is = refl; stage_is = (refl, omega arith) }

    run_events-IsSound :
        (events : List SystemEvent) (s : System)
        → IsSound s
        → IsSound (run_events threadiness clients order events s)
    unfolding run_events system_step
    run_events-IsSound [] s h = h
    run_events-IsSound (event ∷ events) s h =
        run_events-IsSound events _ (happens-IsSound s.stage event s refl h)

    -- In every state that the process comes to, whatever the order of the events and of the
    -- controllers: a controller has started no worker before all the caches that its `Run` waits for
    -- are there, and then starts as many workers of each queue as it was told; its queues are shut
    -- down when `Run` has returned and not before, and it returns only after the stop channel was
    -- closed; this channel is closed by the first signal; and the process has ended after the manager
    -- only if every `Run` has returned, and for a second signal only if two were caught.
    pub process-IsSound :
        (events : List SystemEvent)
        → IsSound (run_events threadiness clients order events initial_system)
    process-IsSound events = run_events-IsSound events initial_system initial-IsSound
