-- ===== src/Loader/Tests.antt =====
-- Runs of the lane, and the theorems about it at concrete jobs.
use go_librespot_termux.Prelude.{
  ℕ, ◌+◌, ◌≡◌, ◌⊎◌, refl, true, false, List, [], ◌∷◌, ◌++◌, none, some, arith, codes, ◌==◌,
  if◌then◌else◌,
}
use go_librespot_termux.Loader.{
  LoaderClass, class_load, class_nav, class_mutate, LoaderJob, LoaderLane, LoaderResult, ReplyTo,
  PlayerEvent, Player, superseded, fetches, loads, is_prefetch, is_mutate, is_load, new_loader_lane,
  partition_queue, reply_all, queued_loads, running_loads, has_pending_load, cancel_if, supersede,
  drop_loads_locked, drop_loads, superseded_by, enqueue, submit, take_first, due_mutation,
  taken_from, next, execute, close,
}
use go_librespot_termux.Loader.Queue.{answered, owed, lasting}
use go_librespot_termux.Loader.Submit.{submit-lasting}
use go_librespot_termux.Loader.Taken.{Choice, next-Choice}
use go_librespot_termux.Loader.Apply.{
  apply_loader_result, finish, leave, unlanded, committed, stale, lands, generation,
  drain_pending_player_events, handle_all,
}
use go_librespot_termux.Loader.Apply.Outcome.{Outcome, apply_loader_result-Outcome}
use go_librespot_termux.Loader.Step.{
  stopped, System, started, replied, submitting, looked, executed, delivered, applied, Reachable,
  submits, closes, looks, ends, executes, delivers, applies, start, step,
}
use go_librespot_termux.Loader.Step.Accounts.{Balanced, Reachable-Balanced}
use go_librespot_termux.Loader.Step.Invariant.{Sound, Reachable-Sound, Reachable-answered}

program : Unit {0}
unfolding fetches loads is_prefetch is_mutate is_load new_loader_lane partition_queue reply_all
    queued_loads running_loads has_pending_load cancel_if supersede drop_loads_locked drop_loads
    superseded_by enqueue submit take_first due_mutation taken_from next execute close
    apply_loader_result finish leave unlanded committed stale lands generation
    drain_pending_player_events handle_all started replied submitting looked executed delivered
    applied
program = tt

abbrev player : Player ℕ
player = record { load_gen = 1; prefetch_gen = 0; load_in_flight = true; pending = []; rest = 0 }

abbrev count : PlayerEvent → Player ℕ → Player ℕ
count e p = record p { rest = p.rest + 1 }

abbrev job : ℕ → LoaderClass → ℕ → LoaderJob ℕ
job n c at = record {
  name = codes "job";
  class = c;
  gen = 1;
  reply = some n;
  run = λ world. record { value = some world; err = none; commit = none; discard = false };
  not_before = at;
}

-- A load that is held back, then a mutation.
abbrev held_lane : LoaderLane ℕ
held_lane = record {
  queue = job 0 class_load 9 ∷ job 1 class_mutate 0 ∷ [];
  running = none;
  closed = false;
  cancelled = false;
  wake = true;
  results = [];
}

-- Navigation drops the load and keeps the mutation.
navigated :
    (submit (job 2 class_nav 0) held_lane).0.queue ≡ job 1 class_mutate 0 ∷ job 2 class_nav 0 ∷ []
unfolding program
navigated = refl

told :
    (submit (job 2 class_nav 0) held_lane).1
    ≡ record { to = some 0; value = none; err = some superseded } ∷ []
unfolding program
told = refl

mutation_first : (next 5 held_lane).2 ≡ some (job 1 class_mutate 0)
unfolding program
mutation_first = refl

submit-lasting_example :
    (lasting (submit (job 2 class_nav 0) held_lane).0.queue ≡ lasting held_lane.queue)
    ⊎ (lasting (submit (job 2 class_nav 0) held_lane).0.queue
        ≡ lasting held_lane.queue ++ lasting (job 2 class_nav 0 ∷ []))
submit-lasting_example = submit-lasting (job 2 class_nav 0) held_lane

next-Choice_example : Choice 5 held_lane
next-Choice_example = next-Choice 5 held_lane

abbrev landing : LoaderResult ℕ
landing = record {
  name = codes "job";
  gen = 1;
  class = class_load;
  reply = some 7;
  answer = record {
    value = none;
    err = none;
    commit = some (λ e p. record p { rest = 40 });
    discard = true;
  };
}

apply_loader_result-Outcome_example :
    Outcome count landing player (apply_loader_result count landing player)
apply_loader_result-Outcome_example = apply_loader_result-Outcome count landing player

abbrev events : List PlayerEvent
events = record { stopped = true; stream_gen = 1 } ∷ record { stopped = false; stream_gen = 2 } ∷ []

-- One job from its submission to its answer, and the end of the lane.
abbrev s1 : System ℕ
s1 = submitting (job 3 class_load 0) (started player)

abbrev s2 : System ℕ
s2 = looked (next 0 s1.lane) s1

abbrev s3 : System ℕ
s3 = executed (execute 5 (job 3 class_load 0) s2.lane) s2

abbrev r3 : LoaderResult ℕ
r3 = record {
  name = codes "job";
  gen = 1;
  class = class_load;
  reply = some 3;
  answer = record { value = some 5; err = none; commit = none; discard = false };
}

abbrev s4 : System ℕ
s4 = delivered r3 s3

abbrev s5 : System ℕ
s5 = applied (apply_loader_result count r3 s4.player) [] s4

abbrev s6 : System ℕ
s6 = looked (next 1 s5.lane) s5

abbrev s7 : System ℕ
s7 = replied (close s6.lane) s6

abbrev s8 : System ℕ
s8 = record s7 { worker = stopped }

s8-Reachable : Reachable count s8
unfolding program
s8-Reachable =
    step
      (step
        (step
          (step
            (step
              (step (step (step (start player) (submits (job 3 class_load 0))) (looks 0 refl))
                (executes 5 (job 3 class_load 0) refl))
              (delivers r3 refl (omega arith)))
            (applies r3 [] refl))
          (looks 1 refl))
        closes)
      (ends 0 refl refl)

abbrev weight : ReplyTo → ℕ
weight none = 0
weight (some n) = if n == 3 then 1 else 0

Reachable-Balanced_example : Balanced weight s8
Reachable-Balanced_example = Reachable-Balanced weight count s8 s8-Reachable

Reachable-Sound_example : Sound s8
Reachable-Sound_example = Reachable-Sound count s8 s8-Reachable

s8-stopped : s8.worker ≡ stopped
s8-stopped = refl

s8-closed : s8.lane.closed ≡ true
unfolding program
s8-closed = refl

s8-read : s8.lane.results ≡ []
unfolding program
s8-read = refl

Reachable-answered_example : answered weight s8.log ≡ owed weight s8.submitted
Reachable-answered_example =
    Reachable-answered count weight s8 s8-Reachable s8-stopped s8-closed s8-read
