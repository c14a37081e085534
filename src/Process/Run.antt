-- ===== src/Process/Run.antt =====
-- `Run` of the three controllers, as steps: it waits for the caches, starts its workers one after the
-- other, waits for the stop channel, and shuts its queues down when it returns.
use aws_global_accelerator_c.Prelude.{
  ℕ, zero, suc, Text, Bool, Option, none, some, List, [], ◌∷◌, ◌++◌, codes, all, if◌then◌else◌,
}
use aws_global_accelerator_c.Errors.{Error, errorf}
use aws_global_accelerator_c.Process.Controllers.{Informer, Controller}

-- Where `Run` stands: in `WaitForCacheSync`, before these workers, at the stop channel, or at its
-- end with the error that it returned, if any.
pub data RunPhase : Type 0 where
  waiting : RunPhase
  starting : List Text → RunPhase
  serving : RunPhase
  returned : Option Error → RunPhase

-- A worker is kept by its queue, the oldest first; a queue that is shut down likewise.
pub record RunState : Type 0 where
  pub phase : RunPhase
  pub started : List Text
  pub shut_down : List Text

unfoldable pub initial_run : RunState
initial_run = record { phase = waiting; started = []; shut_down = [] }

-- `cache.WaitForCacheSync` ends in one of two ways: the caches are there, or the stop channel was
-- closed meanwhile. Where both hold, it may be either.
pub data Choice : Type 0 where
  go_on give_up : Choice

abbrev pub repeat : ℕ → Text → List Text
repeat zero queue = []
repeat (suc n) queue = queue ∷ repeat n queue

-- The loops that start the workers: all those of one queue, then those of the next.
unfoldable pub all_workers : ℕ → List Text → List Text
all_workers threadiness [] = []
all_workers threadiness (queue ∷ queues) =
    repeat threadiness queue ++ all_workers threadiness queues

-- The deferred calls, and the end.
abbrev pub return_with : Controller → Option Error → List Text → List Text → RunState
return_with c error started shut = record {
  phase = returned error;
  started = started;
  shut_down = shut ++ c.deferred_queues;
}

module _ (threadiness : ℕ) (is_stopped : Bool) (has_synced : Informer → Bool) (c : Controller) where
  -- One step from a phase; a step that cannot be taken yet changes nothing.
  unfoldable pub step_from : RunPhase → Choice → List Text → List Text → RunState
  unfolding all_workers
  step_from waiting go_on started shut =
      if all has_synced c.waits_for
      then record {
        phase = starting (all_workers threadiness c.worker_queues);
        started = started;
        shut_down = shut;
      }
      else record { phase = waiting; started = started; shut_down = shut }
  step_from waiting give_up started shut =
      if is_stopped
      then return_with c (some (errorf (codes "failed to wait for caches to sync"))) started shut
      else record { phase = waiting; started = started; shut_down = shut }
  step_from (starting (queue ∷ queues)) choice started shut = record {
    phase = starting queues;
    started = started ++ (queue ∷ []);
    shut_down = shut;
  }
  step_from (starting []) choice started shut = record {
    phase = serving;
    started = started;
    shut_down = shut;
  }
  step_from serving choice started shut =
      if is_stopped
      then return_with c none started shut
      else record { phase = serving; started = started; shut_down = shut }
  step_from (returned error) choice started shut = record {
    phase = returned error;
    started = started;
    shut_down = shut;
  }

  -- One step of `Run`.
  unfoldable pub run_step : Choice → RunState → RunState
  unfolding step_from
  run_step choice r = step_from r.phase choice r.started r.shut_down
