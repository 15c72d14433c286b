-- ===== src/StatePush/Lane/Steps.antt =====
-- daemon/statepush.go: the lane's goroutine and the player loop as a step relation, from `run` and `close`.
use go_librespot_termux.Prelude.{
  ◌<◌, ◌≡◌, true, false, List, [], ◌∷◌, ◌++◌, none, some, if◌then◌else◌, length,
}
use go_librespot_termux.StatePush.{
  StatePush, StatePushLane, StatePushResult, state_push_queue_size, next, pending, submit, close,
  give_up,
}

-- Where the goroutine stands: before `next`, in the select that waits, in `put`, at the results, ended.
pub data Worker : Type 0 where
  looking waiting done : Worker
  putting : StatePush → Worker
  reporting : StatePushResult → Worker

-- `results` are in the channel; `submitted` and `sent` tell which pushes the loop submitted before the
-- lane was closed, and which the goroutine took, in order.
pub record World : Type 0 where
  pub lane : StatePushLane
  pub worker : Worker
  pub results : List StatePushResult
  pub submitted : List StatePush
  pub sent : List StatePush

abbrev pub start : World
start = record {
  lane = record { queue = []; closed = false; wake = false };
  worker = looking;
  results = [];
  submitted = [];
  sent = [];
}

unfoldable pub submits : StatePush → World → World
unfolding submit
submits p w = record w {
  lane = submit p w.lane;
  submitted = if w.lane.closed then w.submitted else w.submitted ++ p ∷ [];
}

unfoldable pub takes_push : StatePush → StatePushLane → World → World
takes_push p l w = record w { lane = l; worker = putting p; sent = w.sent ++ p ∷ [] }

unfoldable pub woken : World → World
woken w = record w { lane = record w.lane { wake = false }; worker = looking }

-- Which outcome a put has is open; a push that fails or succeeds is reported under its number.
pub data Step : World → World → Type 0 where
  submitted_push : (w : World) (p : StatePush) → Step w (submits p w)
  taken :
      (w : World) (p : StatePush) (l : StatePushLane)
      → w.worker ≡ looking
      → next w.lane ≡ (l, some p)
      → Step w (takes_push p l w)
  rested :
      (w : World)
      → w.worker ≡ looking
      → (next w.lane).1 ≡ none
      → Step w (record w { worker = waiting })
  awoken : (w : World) → w.worker ≡ waiting → w.lane.wake ≡ true → Step w (woken w)
  more_left :
      (w : World)
      → w.worker ≡ waiting
      → w.lane.closed ≡ true
      → pending w.lane ≡ true
      → Step w (record w { worker = looking })
  ended :
      (w : World)
      → w.worker ≡ waiting
      → w.lane.closed ≡ true
      → pending w.lane ≡ false
      → Step w (record w { worker = done })
  put_done :
      (w : World) (p : StatePush) (res : StatePushResult)
      → w.worker ≡ putting p
      → res.seq ≡ p.seq
      → res.reason ≡ p.reason
      → Step w (record w { worker = reporting res })
  reported :
      (w : World) (res : StatePushResult)
      → w.worker ≡ reporting res
      → length w.results < state_push_queue_size
      → Step w (record w { worker = looking; results = w.results ++ res ∷ [] })
  unheard :
      (w : World) (res : StatePushResult)
      → w.worker ≡ reporting res
      → w.lane.closed ≡ true
      → Step w (record w { worker = looking })
  heard :
      (w : World) (res : StatePushResult) (rest : List StatePushResult)
      → w.results ≡ res ∷ rest
      → Step w (record w { results = rest })
  closed_lane : (w : World) → Step w (record w { lane = close w.lane })
  gave_up : (w : World) → w.lane.closed ≡ true → Step w (record w { lane = give_up w.lane })

pub data Reachable : World → Type 0 where
  started : Reachable start
  stepped : {w v : World} → Reachable w → Step w v → Reachable v
