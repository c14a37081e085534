-- ===== src/Process/Shutdown.antt =====
-- How the process ends once it was told to stop.
use aws_global_accelerator_c.Prelude.{
  ℕ, zero, suc, ◌+◌, ◌-◌, ◌≤◌, Bool, true, ◌≡◌, refl, ap, ◌∙◌, inl, inr, Text, List, [], ◌∷◌, ◌++◌,
  map, all, length, Bool-cases, arith,
}
use aws_global_accelerator_c.Process.Controllers.{Informer, Controller}
use aws_global_accelerator_c.Process.Run.{
  RunPhase, waiting, starting, serving, returned, RunState, Choice, go_on, give_up, all_workers,
  step_from, run_step,
}
use aws_global_accelerator_c.Process.System.{
  leading, exited, finished, System, SystemEvent, run_goes, all_returned, step_run, are_returned,
  has_returned, happens, system_step, run_events,
}

-- The steps that `Run` has left at most, once the stop channel is closed.
abbrev pub phase_left : ℕ → Controller → RunPhase → ℕ
phase_left threadiness c waiting = length (all_workers threadiness c.worker_queues) + 3
phase_left threadiness c (starting queues) = length queues + 2
phase_left threadiness c serving = 1
phase_left threadiness c (returned error) = 0

-- Those of the controller at this place; none where there is no controller.
abbrev pub steps_left : ℕ → ℕ → List (Controller × RunState) → ℕ
steps_left threadiness i [] = 0
steps_left threadiness zero ((c, r) ∷ runs) = phase_left threadiness c r.phase
steps_left threadiness (suc i) (run ∷ runs) = steps_left threadiness i runs

-- A step of that controller at which a wait for the caches gives up.
abbrev pub counts : ℕ → ℕ × Choice → ℕ
counts i (j, go_on) = 0
counts zero (zero, give_up) = 1
counts zero (suc j, give_up) = 0
counts (suc i) (zero, give_up) = 0
counts (suc i) (suc j, give_up) = counts i (j, give_up)

-- How many of them there are.
abbrev pub gives_up : ℕ → List (ℕ × Choice) → ℕ
gives_up i [] = 0
gives_up i (step ∷ steps) = counts i step + gives_up i steps

abbrev pub goes : ℕ × Choice → SystemEvent
goes (i, choice) = run_goes i choice

module _ (threadiness : ℕ) where
  go_on_left :
      (stopped : Bool) (f : Informer → Bool) (c : Controller) (phase : RunPhase)
      (started shut : List Text)
      → phase_left threadiness c (step_from threadiness stopped f c phase go_on started shut).phase
        ≤ phase_left threadiness c phase
  unfolding step_from
  go_on_left stopped f c waiting started shut = elim (Bool-cases (all f c.waits_for)) [
    | inl e ↦ rw e (omega arith)
    | inr e ↦ rw e (omega arith)
  ]
  go_on_left stopped f c (starting (queue ∷ queues)) started shut = omega arith
  go_on_left stopped f c (starting []) started shut = omega arith
  go_on_left stopped f c serving started shut = elim (Bool-cases stopped) [
    | inl e ↦ rw e (omega arith)
    | inr e ↦ rw e (omega arith)
  ]
  go_on_left stopped f c (returned error) started shut = omega arith

  give_up_left :
      (f : Informer → Bool) (c : Controller) (phase : RunPhase) (started shut : List Text)
      → phase_left threadiness c (step_from threadiness true f c phase give_up started shut).phase
        ≤ phase_left threadiness c phase - 1
  unfolding step_from
  give_up_left f c waiting started shut = omega arith
  give_up_left f c (starting (queue ∷ queues)) started shut = omega arith
  give_up_left f c (starting []) started shut = omega arith
  give_up_left f c serving started shut = omega arith
  give_up_left f c (returned error) started shut = omega arith

  step_left :
      (s : System) (step : ℕ × Choice) (i : ℕ) (runs : List (Controller × RunState))
      → s.is_stopped ≡ true
      → steps_left threadiness i (step_run threadiness s step.1 step.0 runs)
        ≤ steps_left threadiness i runs - counts i step
  unfolding run_step
  step_left s (j, choice) i [] e = omega arith
  step_left s (zero, go_on) zero ((c, r) ∷ runs) e =
      omega (arith, go_on_left s.is_stopped s.has_synced c r.phase r.started r.shut_down)
  step_left s (zero, give_up) zero ((c, r) ∷ runs) e =
      rw e (give_up_left s.has_synced c r.phase r.started r.shut_down)
  step_left s (suc j, go_on) zero (run ∷ runs) e = omega arith
  step_left s (suc j, give_up) zero (run ∷ runs) e = omega arith
  step_left s (zero, go_on) (suc i) ((c, r) ∷ runs) e = omega arith
  step_left s (zero, give_up) (suc i) ((c, r) ∷ runs) e = omega arith
  step_left s (suc j, go_on) (suc i) (run ∷ runs) e = step_left s (j, go_on) i runs e
  step_left s (suc j, give_up) (suc i) (run ∷ runs) e = step_left s (j, give_up) i runs e

  phase_returned :
      (c : Controller) (phase : RunPhase)
      → phase_left threadiness c phase ≤ 0
      → has_returned phase ≡ true
  phase_returned c waiting h = absurd (omega arith)
  phase_returned c (starting queues) h = absurd (omega arith)
  phase_returned c serving h = absurd (omega arith)
  phase_returned c (returned error) h = refl

  none_left :
      (runs : List (Controller × RunState))
      → ((i : ℕ) → steps_left threadiness i runs ≤ 0)
      → are_returned runs ≡ true
  none_left [] h = refl
  none_left ((c, r) ∷ runs) h =
      let rest = none_left runs (λ i. h (suc i)) in
      let here = phase_returned c r.phase (h 0) in ground (arith, rest, here)

  module _ (clients : Bool) (order : List (Text × Controller) → List (Text × Controller)) where
    goes_step :
        (step : ℕ × Choice) (s : System)
        → s.stage ≡ leading
        → system_step threadiness clients order (goes step) s
          ≡ record s { runs = step_run threadiness s step.1 step.0 s.runs }
    unfolding system_step happens
    goes_step step s leads =
        ap (λ stage. happens threadiness clients order stage (goes step) s) leads

    ends_step :
        (s : System)
        → s.stage ≡ leading
        → are_returned s.runs ≡ true
        → (system_step threadiness clients order all_returned s).stage ≡ exited finished
    unfolding system_step happens
    ends_step s leads e =
        ap (λ stage. (happens threadiness clients order stage all_returned s).stage) leads
        ∙ rw e refl

    -- Once the stop channel is closed, the process that runs the manager ends with exit code 0, in
    -- whatever order its controllers take their steps and wherever their `Run` stands, as soon as each
    -- of them has taken the steps that it has left, with a wait for the caches given up, and the
    -- manager's wait for them is over.
    pub shutdown_completes :
        (steps : List (ℕ × Choice)) (s : System)
        → s.stage ≡ leading
        → s.is_stopped ≡ true
        → ((i : ℕ) → steps_left threadiness i s.runs ≤ gives_up i steps)
        → (run_events threadiness clients order (map goes steps ++ (all_returned ∷ [])) s).stage
          ≡ exited finished
    unfolding run_events system_step happens
    shutdown_completes [] s leads stops h = ends_step s leads (none_left s.runs h)
    shutdown_completes (step ∷ steps) s leads stops h =
        ap
          (λ t.
            (run_events threadiness clients order (map goes steps ++ (all_returned ∷ [])) t).stage)
          (goes_step step s leads)
        ∙ shutdown_completes steps (record s { runs = step_run threadiness s step.1 step.0 s.runs })
            leads stops
            (λ i.
              let left = step_left s step i s.runs stops in
              let enough = h i in omega (arith, left, enough))
