-- ===== src/Loader.antt =====
-- daemon/loader.go: the lane that runs slow work for the player loop, one job at a time.
-- A lock makes each operation of the lane one step. Times are numbers, and the errors and values of
-- jobs are kept by codes of their own. What a job does is a function of the world it runs in.
pub mod Queue
pub mod Submit
pub mod Taken
pub mod Step
pub mod Apply
mod Tests
use go_librespot_termux.Prelude.{
  ℕ, zero, suc, ◌+◌, ◌-◌, Bool, true, false, ◌&&◌, ◌||◌, not, List, [], ◌∷◌, ◌++◌, map, Option,
  none, some, ltb, leb, ◌==◌, if◌then◌else◌, length, Text,
}

pub data LoaderClass : Type 0 where
  class_load class_nav class_mutate class_prefetch : LoaderClass

abbrev pub loader_queue_size : ℕ
loader_queue_size = 32

-- Seconds.
unfoldable pub timeout : LoaderClass → ℕ
timeout class_mutate = 30
timeout class_prefetch = 30
timeout class_load = 60
timeout class_nav = 60

unfoldable pub fetches : LoaderClass → Bool
fetches class_load = true
fetches class_prefetch = true
fetches class_nav = false
fetches class_mutate = false

unfoldable pub loads : LoaderClass → Bool
loads class_load = true
loads class_nav = true
loads class_mutate = false
loads class_prefetch = false

unfoldable pub is_prefetch : LoaderClass → Bool
is_prefetch class_prefetch = true
is_prefetch class_load = false
is_prefetch class_nav = false
is_prefetch class_mutate = false

unfoldable pub is_mutate : LoaderClass → Bool
is_mutate class_mutate = true
is_mutate class_load = false
is_mutate class_nav = false
is_mutate class_prefetch = false

unfoldable pub is_load : LoaderClass → Bool
is_load class_load = true
is_load class_nav = false
is_load class_mutate = false
is_load class_prefetch = false

-- `other` is an error of the work itself.
pub data LoaderError : Type 0 where
  superseded busy no_session : LoaderError
  other : ℕ → LoaderError

-- `replyTo`: nobody waits on `none`.
abbrev pub ReplyTo : Type 0
ReplyTo = Option ℕ

-- A call of `done`.
pub record Reply : Type 0 where
  pub to : ReplyTo
  pub value : Option ℕ
  pub err : Option LoaderError

pub record PlayerEvent : Type 0 where
  pub stopped : Bool
  pub stream_gen : ℕ

-- What the player loop keeps for the lane, and the rest of its state. A `stopped` event is one of
-- `EventTypeStop` and `EventTypeNotPlaying`.
pub record Player (S : Type 0) : Type 0 where
  pub load_gen : ℕ
  pub prefetch_gen : ℕ
  pub load_in_flight : Bool
  pub pending : List PlayerEvent
  pub rest : S

-- What a job's `run` returns; `discard` says whether there is one.
pub record Answer (S : Type 0) : Type 0 where
  pub value : Option ℕ
  pub err : Option LoaderError
  pub commit : Option (Option LoaderError → Player S → Player S)
  pub discard : Bool

pub record LoaderJob (S : Type 0) : Type 0 where
  pub name : Text
  pub class : LoaderClass
  pub gen : ℕ
  pub reply : ReplyTo
  pub run : ℕ → Answer S
  pub not_before : ℕ

pub record LoaderResult (S : Type 0) : Type 0 where
  pub name : Text
  pub gen : ℕ
  pub class : LoaderClass
  pub reply : ReplyTo
  pub answer : Answer S

pub record RunningJob : Type 0 where
  pub class : LoaderClass
  pub cancelled : Bool

-- `loaderLane`; `cancelled` is the state of its context, `wake` whether its wake channel holds a token.
pub record LoaderLane (S : Type 0) : Type 0 where
  pub queue : List (LoaderJob S)
  pub running : Option RunningJob
  pub closed : Bool
  pub cancelled : Bool
  pub wake : Bool
  pub results : List (LoaderResult S)

unfoldable pub cancel_if : (LoaderClass → Bool) → Option RunningJob → Option RunningJob
cancel_if p none = none
cancel_if p (some r) = some (if p r.class then record r { cancelled = true } else r)

unfoldable pub running_loads : Option RunningJob → Bool
unfolding loads
running_loads none = false
running_loads (some r) = loads r.class

module _ {S : Type 0} where
  unfoldable pub new_loader_lane : LoaderLane S
  new_loader_lane = record {
    queue = [];
    running = none;
    closed = false;
    cancelled = false;
    wake = false;
    results = [];
  }

  -- `partitionQueue`: the jobs that are dropped, and those that are kept.
  unfoldable pub partition_queue :
      (LoaderClass → Bool) → List (LoaderJob S) → List (LoaderJob S) × List (LoaderJob S)
  partition_queue drop [] = ([], [])
  partition_queue drop (j ∷ js) =
      let r = partition_queue drop js in if drop j.class then (j ∷ r.0, r.1) else (r.0, j ∷ r.1)

  unfoldable pub reply_all : List (LoaderJob S) → LoaderError → List Reply
  reply_all [] e = []
  reply_all (j ∷ js) e = record { to = j.reply; value = none; err = some e } ∷ reply_all js e

  unfoldable pub queued_loads : List (LoaderJob S) → Bool
  unfolding loads
  queued_loads [] = false
  queued_loads (j ∷ js) = loads j.class || queued_loads js

  unfoldable pub has_pending_load : LoaderLane S → Bool
  unfolding running_loads queued_loads
  has_pending_load l = running_loads l.running || queued_loads l.queue

  -- Drops the queued jobs of the classes, and cancels the running one.
  unfoldable pub supersede : (LoaderClass → Bool) → LoaderLane S → LoaderLane S × List (LoaderJob S)
  unfolding partition_queue cancel_if
  supersede drop l =
      let parts = partition_queue drop l.queue in
      (record l { queue = parts.1; running = cancel_if drop l.running }, parts.0)

  unfoldable pub drop_loads_locked : LoaderLane S → LoaderLane S × List (LoaderJob S)
  unfolding supersede
  drop_loads_locked l = supersede fetches l

  unfoldable pub drop_loads : LoaderLane S → LoaderLane S × List Reply
  unfolding drop_loads_locked reply_all
  drop_loads l =
      if l.closed then (l, []) else (let d = drop_loads_locked l in (d.0, reply_all d.1 superseded))

  unfoldable pub superseded_by : LoaderClass → LoaderLane S → LoaderLane S × List (LoaderJob S)
  unfolding drop_loads_locked supersede
  superseded_by class_load l = drop_loads_locked l
  superseded_by class_nav l = drop_loads_locked l
  superseded_by class_mutate l = (l, [])
  superseded_by class_prefetch l = supersede is_prefetch l

  -- The end of `submit`, given what the job's class supersedes.
  unfoldable pub enqueue :
      LoaderJob S → LoaderLane S × List (LoaderJob S) → LoaderLane S × List Reply
  unfolding reply_all
  enqueue job (l, dropped) =
      if leb loader_queue_size (length l.queue)
      then (
        l,
        record { to = job.reply; value = none; err = some busy } ∷ reply_all dropped superseded,
      )
      else (record l { queue = l.queue ++ (job ∷ []); wake = true }, reply_all dropped superseded)

  unfoldable pub submit : LoaderJob S → LoaderLane S → LoaderLane S × List Reply
  unfolding has_pending_load superseded_by enqueue
  submit job l =
      if l.closed
      then (l, record { to = job.reply; value = none; err = some no_session } ∷ [])
      else if is_prefetch job.class && has_pending_load l
      then (l, record { to = job.reply; value = none; err = none } ∷ [])
      else enqueue job (superseded_by job.class l)

  -- The first job that passes: those before it, the job, and those after it.
  unfoldable pub take_first :
      (LoaderJob S → Bool)
      → List (LoaderJob S)
      → Option (List (LoaderJob S) × LoaderJob S × List (LoaderJob S))
  take_first p [] = none
  take_first p (j ∷ js) =
      let later : Option (List (LoaderJob S) × LoaderJob S × List (LoaderJob S)) =
        elim (take_first p js) [ none ↦ none | some (a, k, b) ↦ some (j ∷ a, k, b) ] in
      if p j then some ([], j, js) else later

  -- A mutation whose time has come.
  unfoldable pub due_mutation : ℕ → LoaderJob S → Bool
  due_mutation now j = is_mutate j.class && leb j.not_before now

  unfoldable pub taken_from :
      LoaderLane S → List (LoaderJob S) → LoaderJob S → LoaderLane S × ℕ × Option (LoaderJob S)
  taken_from l q job = (
    record l { queue = q; running = some (record { class = job.class; cancelled = l.cancelled }) },
    0,
    some job,
  )

  -- `next` at a time: the lane, how long to wait, and the job.
  unfoldable pub next : ℕ → LoaderLane S → LoaderLane S × ℕ × Option (LoaderJob S)
  unfolding take_first due_mutation taken_from
  next now l = elim l.queue [
    | [] ↦ (l, 0, none)
    | j ∷ js ↦
        if l.closed
        then (l, 0, none)
        else if ltb now j.not_before
        then elim (take_first (due_mutation now) (j ∷ js)) [
          | none ↦ (l, j.not_before - now, none)
          | some (a, k, b) ↦ taken_from l (a ++ b) k
        ]
        else taken_from l js j
  ]

  -- `execute`: the result of the job's run in a world, and the lane after it.
  unfoldable pub execute : ℕ → LoaderJob S → LoaderLane S → LoaderLane S × LoaderResult S
  execute world job l = (
    record l { running = none },
    record {
      name = job.name;
      gen = job.gen;
      class = job.class;
      reply = job.reply;
      answer = job.run world;
    },
  )

  -- `close`, less its bounded wait for the goroutine.
  unfoldable pub close : LoaderLane S → LoaderLane S × List Reply
  unfolding reply_all cancel_if
  close l = if l.closed then (l, []) else (
    record l {
      queue = [];
      closed = true;
      cancelled = true;
      running = cancel_if (λ _. true) l.running;
    },
    reply_all l.queue no_session,
  )
