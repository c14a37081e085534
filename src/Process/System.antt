-- ===== src/Process/System.antt =====
-- The process: `SetupSignalHandler`, `LeaderElection.Run`, and `Run` of the manager with its three
-- controllers. The lease, the signals, the informers and the waits are events, in any order.
use aws_global_accelerator_c.Prelude.{
  ℕ, zero, suc, Bool, true, false, ◌||◌, Text, List, [], ◌∷◌, map, all, codes, if◌then◌else◌,
}
use aws_global_accelerator_c.Process.Controllers.{
  Informer, services, ingresses, bindings, Controller, accelerator_agent, route53_agent,
  accelerator_controller, route53_controller, binding_controller,
}
use aws_global_accelerator_c.Process.Run.{
  RunPhase, returned, RunState, Choice, initial_run, run_step,
}

-- How the process ends: `os.Exit(0)` after the manager, in `finished`, and after a lost lease,
-- `os.Exit(1)` on a second signal, and `klog.Fatalf` where no client can be made.
pub data Exit : Type 0 where
  finished lease_lost second_signal fatal : Exit

-- Where the process stands: it waits for the lease, it runs the manager, or it has ended.
pub data Stage : Type 0 where
  electing leading : Stage
  exited : Exit → Stage

pub record System : Type 0 where
  pub stage : Stage
  -- how many signals were caught
  pub signals : ℕ
  -- the channel `stop` is closed
  pub is_stopped : Bool
  -- the two informer factories were started
  pub kube_started : Bool
  pub own_started : Bool
  pub has_synced : Informer → Bool
  -- the controllers that the manager has started, with their `Run`
  pub runs : List (Controller × RunState)

pub data SystemEvent : Type 0 where
  signal : SystemEvent
  acquire_lease lose_lease : SystemEvent
  start_informers start_own_informers : SystemEvent
  informer_syncs : Informer → SystemEvent
  -- the controller at this place in the manager's order takes a step
  run_goes : ℕ → Choice → SystemEvent
  -- `wg.Wait()` returns
  all_returned : SystemEvent

abbrev pub same_informer : Informer → Informer → Bool
same_informer services services = true
same_informer ingresses ingresses = true
same_informer bindings bindings = true
same_informer _ _ = false

-- The factory of an informer was started.
abbrev pub is_running : System → Informer → Bool
is_running s services = s.kube_started
is_running s ingresses = s.kube_started
is_running s bindings = s.own_started

abbrev pub has_returned : RunPhase → Bool
has_returned (returned error) = true
has_returned _ = false

-- `NewControllerInitializers`: the names and the controllers that their functions start. None of
-- these functions returns an error or declines to start.
unfoldable pub new_controller_initializers : List (Text × Controller)
new_controller_initializers =
    (accelerator_agent, accelerator_controller)
    ∷ (route53_agent, route53_controller)
    ∷ (codes "endpoint-group-binding-controller", binding_controller)
    ∷ []

-- The process before anything happens.
unfoldable pub initial_system : System
initial_system = record {
  stage = electing;
  signals = 0;
  is_stopped = false;
  kube_started = false;
  own_started = false;
  has_synced = λ i. false;
  runs = [];
}

-- The signal handler: the first signal closes the channel, the second ends the process.
unfoldable pub catch_signal : ℕ → System → System
catch_signal zero s = record s { signals = 1; is_stopped = true }
catch_signal (suc n) s = record s { signals = suc (suc n); stage = exited second_signal }

-- The controller at this place takes a step.
abbrev pub step_run :
    ℕ → System → Choice → ℕ → List (Controller × RunState) → List (Controller × RunState)
step_run threadiness s choice i [] = []
step_run threadiness s choice zero ((c, r) ∷ runs) =
    (c, run_step threadiness s.is_stopped s.has_synced c choice r) ∷ runs
step_run threadiness s choice (suc i) (run ∷ runs) = run ∷ step_run threadiness s choice i runs

abbrev pub are_returned : List (Controller × RunState) → Bool
are_returned = all (λ (c, r). has_returned r.phase)

-- `threadiness` is the flag `--workers`, which `config_of` gives to all three controllers. They are
-- started in the order in which Go ranges over the map, which `order` gives; `clients` says that both
-- clients can be made.
module _ (threadiness : ℕ) (clients : Bool)
    (order : List (Text × Controller) → List (Text × Controller)) where
  -- `OnStartedLeading`: `Run` of the manager up to `wg.Wait`.
  unfoldable pub start_leading : System → System
  start_leading s =
      if clients
      then record s {
        stage = leading;
        runs = map (λ (name, c). (c, initial_run)) (order new_controller_initializers);
      }
      else record s { stage = exited fatal }

  -- An event at a stage; one that cannot happen there changes nothing.
  unfoldable pub happens : Stage → SystemEvent → System → System
  unfolding catch_signal start_leading
  happens (exited exit) event s = s
  happens stage signal s = catch_signal s.signals s
  happens electing acquire_lease s = start_leading s
  happens electing event s = s
  happens leading lose_lease s = record s { stage = exited lease_lost }
  happens leading start_informers s = record s { kube_started = true }
  happens leading start_own_informers s = record s { own_started = true }
  happens leading (informer_syncs i) s =
      if is_running s i
      then record s { has_synced = λ j. same_informer i j || s.has_synced j }
      else s
  happens leading (run_goes i choice) s = record s { runs = step_run threadiness s choice i s.runs }
  happens leading all_returned s =
      if are_returned s.runs then record s { stage = exited finished } else s
  happens leading acquire_lease s = s

  unfoldable pub system_step : SystemEvent → System → System
  unfolding happens
  system_step event s = happens s.stage event s

  -- Events, one after the other.
  unfoldable pub run_events : List SystemEvent → System → System
  run_events [] s = s
  run_events (event ∷ events) s = run_events events (system_step event s)
