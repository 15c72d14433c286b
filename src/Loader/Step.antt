-- ===== src/Loader/Step.antt =====
-- daemon/loader.go: the lane, its goroutine and the player loop as one system, whose steps are the
-- parts of the code between two points where it can wait. An operation of the lane is one step with
-- the replies that it makes once it has given up the lock, and `close` with its cancellation.
pub mod Accounts
pub mod Invariant
use go_librespot_termux.Prelude.{
  ℕ, zero, suc, ◌+◌, ◌<◌, ◌≡◌, Bool, true, false, List, [], ◌∷◌, ◌++◌, if◌then◌else◌, Option, none,
  some, length,
}
use go_librespot_termux.Loader.{
  LoaderJob, LoaderLane, LoaderResult, Reply, PlayerEvent, Player, no_session, new_loader_lane,
  submit, drop_loads, next, execute, close,
}
use go_librespot_termux.Loader.Apply.{apply_loader_result}

-- Where the goroutine of `run` is: about to call `next`, waiting for a job or a timer, running a job,
-- handing over its result, or done.
pub data Worker (S : Type 0) : Type 0 where
  looking : Worker S
  waiting : ℕ → Worker S
  working : LoaderJob S → Worker S
  delivering : LoaderResult S → Worker S
  stopped : Worker S

-- `log` holds the calls of `done`, `submitted` the jobs that `submit` was given, and `discards` counts
-- the calls of `discard`.
pub record System (S : Type 0) : Type 0 where
  pub lane : LoaderLane S
  pub worker : Worker S
  pub player : Player S
  pub log : List Reply
  pub submitted : List (LoaderJob S)
  pub discards : ℕ

module _ {S : Type 0} where
  unfoldable pub started : Player S → System S
  unfolding new_loader_lane
  started p = record {
    lane = new_loader_lane;
    worker = looking;
    player = p;
    log = [];
    submitted = [];
    discards = 0;
  }

  -- An operation of the lane that answers jobs.
  unfoldable pub replied : LoaderLane S × List Reply → System S → System S
  replied (l, rs) s = record s { lane = l; log = s.log ++ rs }

  unfoldable pub submitting : LoaderJob S → System S → System S
  unfolding replied
  submitting j s = replied (submit j s.lane) (record s { submitted = s.submitted ++ (j ∷ []) })

  unfoldable pub looked : LoaderLane S × ℕ × Option (LoaderJob S) → System S → System S
  looked (l, wait, none) s = record s { lane = l; worker = waiting wait }
  looked (l, wait, some j) s = record s { lane = l; worker = working j }

  unfoldable pub executed : LoaderLane S × LoaderResult S → System S → System S
  executed (l, r) s = record s { lane = l; worker = delivering r }

  unfoldable pub delivered : LoaderResult S → System S → System S
  delivered r s = record s {
    lane = record (s.lane) { results = s.lane.results ++ (r ∷ []) };
    worker = looking;
  }

  -- The context of the lane ended before the result was taken.
  unfoldable pub abandoned : LoaderResult S → System S → System S
  abandoned r s = record s {
    worker = stopped;
    log = s.log ++ (record { to = r.reply; value = none; err = some no_session } ∷ []);
    discards = s.discards + (if r.answer.discard then 1 else 0);
  }

  unfoldable pub applied : Player S × Reply × Bool → List (LoaderResult S) → System S → System S
  applied (p, r, discarded) rs s = record s {
    lane = record (s.lane) { results = rs };
    player = p;
    log = s.log ++ (r ∷ []);
    discards = s.discards + (if discarded then 1 else 0);
  }

  module _ (handle : PlayerEvent → Player S → Player S) where
    pub data Step (s : System S) : System S → Type 0 where
      submits : (j : LoaderJob S) → Step s (submitting j s)
      drops_loads : Step s (replied (drop_loads s.lane) s)
      closes : Step s (replied (close s.lane) s)
      looks : (now : ℕ) → s.worker ≡ looking → Step s (looked (next now s.lane) s)
      wakes :
          (wait : ℕ)
          → s.worker ≡ waiting wait
          → s.lane.wake ≡ true
          → Step s (record s { lane = record (s.lane) { wake = false }; worker = looking })
      timer :
          (wait : ℕ) → s.worker ≡ waiting wait → 0 < wait → Step s (record s { worker = looking })
      ends :
          (wait : ℕ)
          → s.worker ≡ waiting wait
          → s.lane.cancelled ≡ true
          → Step s (record s { worker = stopped })
      executes :
          (world : ℕ) (j : LoaderJob S)
          → s.worker ≡ working j
          → Step s (executed (execute world j s.lane) s)
      delivers :
          (r : LoaderResult S)
          → s.worker ≡ delivering r
          → length s.lane.results < 4
          → Step s (delivered r s)
      abandons :
          (r : LoaderResult S)
          → s.worker ≡ delivering r
          → s.lane.cancelled ≡ true
          → Step s (abandoned r s)
      applies :
          (r : LoaderResult S) (rs : List (LoaderResult S))
          → s.lane.results ≡ r ∷ rs
          → Step s (applied (apply_loader_result handle r s.player) rs s)
      -- The player loop changes its own state.
      plays : (p : Player S) → Step s (record s { player = p })

    pub data Reachable : System S → Type 0 where
      start : (p : Player S) → Reachable (started p)
      step : {s t : System S} → Reachable s → Step s t → Reachable t
