-- ===== src/StatePush/Tests.antt =====
-- Runs of the push lane, and the theorems about it at concrete pushes.
use go_librespot_termux.Prelude.{
  ℕ, ◌-◌, ◌<◌, ◌≡◌, refl, ◌⊎◌, true, false, List, [], ◌∷◌, ◌++◌, Option, none, some, arith, length,
  Text, codes, ok,
}
use go_librespot_termux.StatePush.{
  PutStateReason, player_state_changed, became_inactive, other_reason, StatePush, StatePushLane,
  StatePushResult, rate_limited, Pusher, state_push_queue_size, is_change, coalesces, enqueue,
  without_coalescing, drop_one, trim_loop, trim, submit, next, pending, close, give_up, rand_n,
  backoff, state_retry_delay, request_body, push_state, flush_state, wait_of, update_state,
  timer_fired, retry, with_ip, apply_state_push_result,
}
use go_librespot_termux.StatePush.Kept.{transitions}
use go_librespot_termux.StatePush.Submit.{Submits, submit-Submits, submit-newest}
use go_librespot_termux.StatePush.Lane.{IsOrderly, Reachable-IsOrderly}
use go_librespot_termux.StatePush.Lane.Steps.{
  World, Reachable, started, stepped, submitted_push, taken, start, submits, takes_push,
}
use go_librespot_termux.StatePush.Retry.{Applies, apply_state_push_result-Applies}
use go_librespot_termux.StatePush.Retry.Armed.{IsArmed}

program : Unit {0}
unfolding is_change coalesces enqueue without_coalescing drop_one trim_loop trim submit next pending
    close give_up rand_n backoff state_retry_delay request_body push_state flush_state wait_of
    update_state timer_fired retry with_ip apply_state_push_result submits takes_push
program = tt

abbrev push : ℕ → PutStateReason → StatePush
push n r = record { seq = n; reason = r; spot_conn_id = codes "c"; body = some (codes "b") }

-- A lane whose queue is full of transitions.
abbrev full_lane : StatePushLane
full_lane = record {
  queue =
      push 1 (other_reason 1)
      ∷ push 2 (other_reason 2)
      ∷ push 3 (other_reason 1)
      ∷ push 4 became_inactive
      ∷ [];
  closed = false;
  wake = true;
}

abbrev mixed_lane : StatePushLane
mixed_lane = record full_lane {
  queue =
      push 1 (other_reason 1)
      ∷ push 2 player_state_changed
      ∷ push 3 (other_reason 1)
      ∷ push 4 player_state_changed
      ∷ [];
}

coalesced :
    (submit (push 5 player_state_changed) mixed_lane).queue
    ≡ push 1 (other_reason 1)
      ∷ push 2 player_state_changed
      ∷ push 3 (other_reason 1)
      ∷ push 5 player_state_changed
      ∷ []
unfolding program
coalesced = refl

overflow :
    (submit (push 5 (other_reason 7)) mixed_lane).queue
    ≡ push 1 (other_reason 1)
      ∷ push 3 (other_reason 1)
      ∷ push 4 player_state_changed
      ∷ push 5 (other_reason 7)
      ∷ []
unfolding program
overflow = refl

submit-Submits_example :
    Submits (push 5 (other_reason 7)) mixed_lane (submit (push 5 (other_reason 7)) mixed_lane)
submit-Submits_example = submit-Submits (push 5 (other_reason 7)) mixed_lane refl

submit-newest_example :
    ((coalesces (push 5 player_state_changed) ≡ false)
        ⊎ (length (transitions full_lane.queue) < state_push_queue_size)
      → (vs : List StatePush) × ((submit (push 5 player_state_changed) full_lane).queue
          ≡ vs ++ push 5 player_state_changed ∷ []))
    × (coalesces (push 5 player_state_changed) ≡ true
        → transitions full_lane.queue ≡ full_lane.queue
        → length full_lane.queue ≡ state_push_queue_size
        → (submit (push 5 player_state_changed) full_lane).queue ≡ full_lane.queue)
submit-newest_example = submit-newest (push 5 player_state_changed) full_lane refl

abbrev one_queued : World
one_queued = submits (push 1 player_state_changed) start

abbrev one_sent : World
one_sent =
    takes_push (push 1 player_state_changed) (record { queue = []; closed = false; wake = true })
      one_queued

one_sent-Reachable : Reachable one_sent
unfolding program
one_sent-Reachable =
    stepped (stepped started (submitted_push start (push 1 player_state_changed))) (
      taken one_queued (push 1 player_state_changed)
        (record { queue = []; closed = false; wake = true }) refl refl)

Reachable-IsOrderly_example : IsOrderly one_sent
Reachable-IsOrderly_example = Reachable-IsOrderly one_sent one_sent-Reachable

draw : ℕ → ℕ
draw n = n - 1

draw_in_range : (n : ℕ) → 0 < n → draw n < n
unfolding draw
draw_in_range n h = omega arith

abbrev pusher : Pusher
pusher = record {
  state_dirty = false;
  state_put_scheduled = false;
  state_retries = 0;
  state_seq = 4;
  last_state_put = some 1000000000;
  timer = none;
  has_initial_connect_state = true;
  public_ip = [];
  spot_conn_id = codes "c";
  lane = mixed_lane;
}

pusher-IsArmed : IsArmed pusher
pusher-IsArmed = record { dirty = λ e. absurd (cc); set = λ e. absurd (cc); unset = λ e. refl }

abbrev marshal : PutStateReason → Option Text
marshal r = some (codes "body")

deferred :
    update_state marshal 1100000000 pusher
    ≡ record pusher { state_dirty = true; state_put_scheduled = true; timer = some 1200000000 }
unfolding program
deferred = refl

at_once : (update_state marshal 1300000000 pusher).state_seq ≡ 5
unfolding program
at_once = refl

abbrev failed : StatePushResult
failed = record {
  seq = 4;
  reason = player_state_changed;
  public_ip = [];
  err = some (rate_limited 5);
}

apply_state_push_result-Applies_example :
    (q : Pusher) × (apply_state_push_result draw 7 failed pusher ≡ ok q) × Applies failed 7 pusher q
apply_state_push_result-Applies_example =
    apply_state_push_result-Applies draw 7 failed pusher draw_in_range pusher-IsArmed
