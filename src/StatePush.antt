-- ===== src/StatePush.antt =====
-- daemon/statepush.go: the lane that sends the connect state to the backend, and the part of the player
-- loop in daemon/player_state.go and daemon/player.go that decides when to hand it a push.
-- Times are nanoseconds. A reason but the two that the code tests is a number.
pub mod Kept
pub mod Submit
pub mod Lane
pub mod Retry
mod Tests
use go_librespot_termux.Prelude.{
  ℕ, zero, suc, ◌+◌, ◌-◌, ◌*◌, ◌/◌, ◌^◌, Bool, true, false, not, ◌&&◌, List, [], ◌∷◌, ◌++◌, Option,
  none, some, ltb, ◌==◌, if◌then◌else◌, length, drop, min, Text, text_eq, Run, ok, panic, ◌>>=◌,
}

pub data PutStateReason : Type 0 where
  player_state_changed became_inactive : PutStateReason
  other_reason : ℕ → PutStateReason

pub record StatePush : Type 0 where
  pub seq : ℕ
  pub reason : PutStateReason
  pub spot_conn_id : Text
  pub body : Option Text

unfoldable pub is_change : PutStateReason → Bool
is_change player_state_changed = true
is_change became_inactive = false
is_change (other_reason n) = false

unfoldable pub coalesces : StatePush → Bool
unfolding is_change
coalesces p = is_change p.reason

abbrev pub state_push_queue_size : ℕ
state_push_queue_size = 4

-- `wake` is true when the channel of that name holds its one token; `closed` also closes `quit`.
pub record StatePushLane : Type 0 where
  pub queue : List StatePush
  pub closed : Bool
  pub wake : Bool

unfoldable pub enqueue : StatePush → List StatePush → List StatePush
unfolding coalesces
enqueue p [] = p ∷ []
enqueue p (q ∷ []) = if coalesces q && coalesces p then p ∷ [] else q ∷ p ∷ []
enqueue p (q ∷ r ∷ qs) = q ∷ enqueue p (r ∷ qs)

-- The queue without its first push that coalesces, if there is one.
unfoldable pub without_coalescing : List StatePush → Option (List StatePush)
unfolding coalesces
without_coalescing [] = none
without_coalescing (q ∷ qs) =
    if coalesces q
    then some qs
    else (elim (without_coalescing qs) [ none ↦ none | some rest ↦ some (q ∷ rest) ])

unfoldable pub drop_one : List StatePush → List StatePush
unfolding without_coalescing
drop_one qs = elim (without_coalescing qs) [ none ↦ drop 1 qs | some rest ↦ rest ]

-- A round takes a push away, so the length of the queue is enough fuel.
unfoldable pub trim_loop : ℕ → List StatePush → List StatePush
unfolding drop_one
trim_loop zero qs = qs
trim_loop (suc f) qs =
    let more = trim_loop f (drop_one qs) in
    if ltb state_push_queue_size (length qs) then more else qs

unfoldable pub trim : List StatePush → List StatePush
unfolding trim_loop
trim qs = trim_loop (length qs) qs

unfoldable pub submit : StatePush → StatePushLane → StatePushLane
unfolding enqueue trim
submit p l = if l.closed then l else record l { queue = trim (enqueue p l.queue); wake = true }

unfoldable pub next : StatePushLane → StatePushLane × Option StatePush
next l = elim l.queue [ [] ↦ (l, none) | p ∷ qs ↦ (record l { queue = qs }, some p) ]

unfoldable pub pending : StatePushLane → Bool
pending l = ltb 0 (length l.queue)

unfoldable pub close : StatePushLane → StatePushLane
close l = record l { closed = true }

-- The drain timed out.
unfoldable pub give_up : StatePushLane → StatePushLane
give_up l = record l { queue = [] }

-- What the player loop knows of its pushes. The time of the last is none before the first; `timer` is
-- the time at which the state timer fires, if it is set.
pub record Pusher : Type 0 where
  pub state_dirty : Bool
  pub state_put_scheduled : Bool
  pub state_retries : ℕ
  pub state_seq : ℕ
  pub last_state_put : Option ℕ
  pub timer : Option ℕ
  pub has_initial_connect_state : Bool
  pub public_ip : Text
  pub spot_conn_id : Text
  pub lane : StatePushLane

abbrev pub state_put_min_interval : ℕ
state_put_min_interval = 200000000

abbrev pub state_put_max_backoff : ℕ
state_put_max_backoff = 30000000000

pub data PutError : Type 0 where
  rate_limited : ℕ → PutError
  put_failed : PutError

pub record StatePushResult : Type 0 where
  pub seq : ℕ
  pub reason : PutStateReason
  pub public_ip : Text
  pub err : Option PutError

-- `rand.N` panics at 0; `draw n` is what it gives below `n`.
unfoldable pub rand_n : (ℕ → ℕ) → ℕ → Run ℕ
rand_n draw n = if n == 0 then panic else ok (draw n)

unfoldable pub backoff : ℕ → ℕ
backoff retries = min (state_put_min_interval * 2 ^ min retries 8) state_put_max_backoff

unfoldable pub state_retry_delay : (ℕ → ℕ) → ℕ → PutError → Run ℕ
unfolding rand_n backoff
state_retry_delay draw retries (rate_limited after) = ok after
state_retry_delay draw retries put_failed =
    let d = backoff retries in rand_n draw (d / 5) >>= λ r. ok (d - r)

-- What a push carries: none without, if the request cannot be marshalled, and no body at all for
-- `BECAME_INACTIVE`.
unfoldable pub request_body : (PutStateReason → Option Text) → PutStateReason → Option (Option Text)
request_body marshal became_inactive = some none
request_body marshal player_state_changed = elim (marshal player_state_changed) [
  | none ↦ none
  | some body ↦ some (some body)
]
request_body marshal (other_reason n) = elim (marshal (other_reason n)) [
  | none ↦ none
  | some body ↦ some (some body)
]

-- `pushState`, where `marshal` is the request for a reason in bytes, if it can be marshalled.
unfoldable pub push_state : (PutStateReason → Option Text) → PutStateReason → Pusher → Pusher
unfolding submit request_body
push_state marshal reason p =
    let seq = p.state_seq + 1 in
    let p' = record p { state_seq = seq } in
    elim (request_body marshal reason) [
      | none ↦ p'
      | some body ↦ record p' {
        lane =
            submit
              (record { seq = seq; reason = reason; spot_conn_id = p.spot_conn_id; body = body })
              p.lane;
      }
    ]

unfoldable pub flush_state : (PutStateReason → Option Text) → ℕ → Pusher → Pusher
unfolding push_state
flush_state marshal now p =
    push_state marshal player_state_changed
      (record p { state_dirty = false; last_state_put = some now })

-- How long is left of the interval after the last put.
unfoldable pub wait_of : ℕ → Option ℕ → ℕ
wait_of now none = 0
wait_of now (some last) = state_put_min_interval - (now - last)

unfoldable pub update_state : (PutStateReason → Option Text) → ℕ → Pusher → Pusher
unfolding flush_state wait_of
update_state marshal now p =
    let p' = record p { state_dirty = true } in
    if p.state_put_scheduled
    then p'
    else if ltb 0 (wait_of now p.last_state_put)
    then record p' { state_put_scheduled = true; timer = some (now + wait_of now p.last_state_put) }
    else flush_state marshal now p'

-- The state timer fires.
unfoldable pub timer_fired : (PutStateReason → Option Text) → ℕ → Pusher → Pusher
unfolding flush_state
timer_fired marshal now p =
    let p' = record p { state_put_scheduled = false; timer = none } in
    if p.state_dirty then flush_state marshal now p' else p'

unfoldable pub retry : (ℕ → ℕ) → ℕ → StatePushResult → PutError → Pusher → Run Pusher
unfolding state_retry_delay
retry draw now res e p =
    let again = state_retry_delay draw (p.state_retries + 1) e >>= λ d. ok (record p {
      state_dirty = true;
      state_retries = p.state_retries + 1;
      state_put_scheduled = true;
      timer = some (now + d);
    }) in
    if res.seq == p.state_seq then again else ok p

unfoldable pub with_ip : Text → Pusher → Pusher
with_ip [] p = p
with_ip (c ∷ cs) p = record p { public_ip = c ∷ cs }

-- `notifyPlaybackReadyIfNeeded` is left out: it emits an event.
unfoldable pub apply_state_push_result : (ℕ → ℕ) → ℕ → StatePushResult → Pusher → Run Pusher
unfolding retry with_ip
apply_state_push_result draw now res p =
    let p' = with_ip res.public_ip p in
    elim res.err [
      | some e ↦ retry draw now res e p'
      | none ↦ ok (record p' { state_retries = 0; has_initial_connect_state = true })
    ]
