-- ===== src/StatePush/Retry.antt =====
-- daemon/player_state.go: when the player loop hands a push to the lane, and when it sends one again.
pub mod Armed
use go_librespot_termux.Prelude.{
  ℕ, zero, suc, ◌+◌, ◌-◌, ◌*◌, ◌/◌, ◌^◌, ◌≤◌, ◌<◌, ◌≡◌, ◌≢◌, refl, ap, sym, ◌∙◌, ◌⊎◌, subst, true,
  false, [], ◌∷◌, Option, none, some, arith, Bool-cases, inl, inr, ◌==◌, ==_iff, if_true, if_false,
  min, Text, Run, ok, panic, ◌>>=◌,
}
use go_librespot_termux.StatePush.{
  PutStateReason, player_state_changed, StatePushResult, PutError, rate_limited, put_failed, Pusher,
  state_put_min_interval, state_put_max_backoff, rand_n, backoff, state_retry_delay, timer_fired,
  retry, with_ip, apply_state_push_result, submit,
}
use go_librespot_termux.StatePush.Retry.Armed.{
  IsArmed, push_state-IsArmed, flush_state-IsArmed, timer_fired-IsArmed,
}

pow2-le : (n : ℕ) → 1 ≤ 2 ^ n
pow2-le zero = omega arith
pow2-le (suc n) = omega (arith, pow2-le n)

backoff-bounds :
    (retries : ℕ)
    → (state_put_min_interval ≤ backoff retries) × (backoff retries ≤ state_put_max_backoff)
unfolding backoff
backoff-bounds retries =
    let times = pow2-le (min retries 8) in
    (omega (arith, times, grows (2 ^ min retries 8) times), omega arith)
  where
    grows : (k : ℕ) → 1 ≤ k → state_put_min_interval ≤ state_put_min_interval * k
    grows k h = omega arith

pub state_retry_delay-bounds :
    (draw : ℕ → ℕ) (retries : ℕ) (e : PutError)
    → ((n : ℕ) → 0 < n → draw n < n)
    → (d : ℕ) × (state_retry_delay draw retries e ≡ ok d)
      × (((after : ℕ) × (e ≡ rate_limited after) × (d ≡ after))
          ⊎ ((e ≡ put_failed) × (4 * state_put_min_interval ≤ 5 * d) × (d ≤ state_put_max_backoff)))
unfolding state_retry_delay rand_n backoff
state_retry_delay-bounds draw retries (rate_limited after) h =
    (after, refl, inl (after, refl, refl))
state_retry_delay-bounds draw retries put_failed h =
    let d = backoff retries in
    let bounds = backoff-bounds retries in
    let some_left : ((d / 5) == 0) ≡ false = ground (arith, bounds.0) in
    let drawn = h (d / 5) (omega (arith, bounds.0)) in
    (
      d - draw (d / 5),
      ap (λ (r : Run ℕ). r >>= λ k. ok (d - k))
          (if_false ((d / 5) == 0) panic (ok (draw (d / 5))) some_left),
      inr (refl, omega (arith, bounds.0, bounds.1, drawn), omega (arith, bounds.1)),
    )

-- What the result of a push does to the loop, for a failure and for a success.
pub record Applies (res : StatePushResult) (now : ℕ) (p q : Pusher) : Type 0 where
  pub armed : IsArmed q
  pub same_seq : q.state_seq ≡ p.state_seq
  pub again :
      (e : PutError)
      → res.err ≡ some e
      → res.seq ≡ p.state_seq
      → (q.state_dirty ≡ true) × (q.state_retries ≡ p.state_retries + 1)
  pub too_old :
      (e : PutError) → res.err ≡ some e → res.seq ≢ p.state_seq → q ≡ with_ip res.public_ip p
  pub succeeded :
      res.err ≡ none
      → (q.state_retries ≡ 0)
        × (q.state_dirty ≡ p.state_dirty)
        × (q.has_initial_connect_state ≡ true)

with_ip-same : (ip : Text) (p : Pusher) → (q : Text) × (with_ip ip p ≡ record p { public_ip = q })
unfolding with_ip
with_ip-same [] p = (p.public_ip, refl)
with_ip-same (c ∷ cs) p = (c ∷ cs, refl)

-- Let the state timer be set for whatever is not handed over yet, and the draw of `rand.N` be in its
-- range. Then the result of a push is applied without a panic, and the timer is still so. A failure of
-- the newest push makes the state dirty, counts a retry, and sets the timer; a failure of another
-- changes at most the public address; a success ends the retries and leaves a dirty state dirty.
pub apply_state_push_result-Applies :
    (draw : ℕ → ℕ) (now : ℕ) (res : StatePushResult) (p : Pusher)
    → ((n : ℕ) → 0 < n → draw n < n)
    → IsArmed p
    → (q : Pusher) × (apply_state_push_result draw now res p ≡ ok q) × Applies res now p q
unfolding apply_state_push_result retry
apply_state_push_result-Applies draw now res p h a =
    let (ip, e) = with_ip-same res.public_ip p in
    subst
      (λ (x : Pusher).
        (q : Pusher) × ((elim res.err as (λ _. Run Pusher) [
          | some e ↦ retry draw now res e x
          | none ↦ ok (record x { state_retries = 0; has_initial_connect_state = true })
        ])
          ≡ ok q)
        × Applies res now p q)
      (sym e) (go ip e res.err refl)
  where
    go :
        (ip : Text)
        → with_ip res.public_ip p ≡ record p { public_ip = ip }
        → (o : Option PutError) → res.err ≡ o
        → (q : Pusher) × ((elim o as (λ _. Run Pusher) [
          | some e ↦ retry draw now res e (record p { public_ip = ip })
          | none ↦
              ok (record p { public_ip = ip; state_retries = 0; has_initial_connect_state = true })
        ])
            ≡ ok q)
          × Applies res now p q
    go ip f none g = (
      record p { public_ip = ip; state_retries = 0; has_initial_connect_state = true },
      refl,
      record {
        armed = record { dirty = a.dirty; set = a.set; unset = a.unset };
        same_seq = refl;
        again = λ e x. absurd (cc (sym g ∙ x));
        too_old = λ e x. absurd (cc (sym g ∙ x));
        succeeded = λ x. (refl, refl, refl);
      },
    )
    go ip f (some e) g = elim (Bool-cases (res.seq == p.state_seq)) [
      | inl y ↦
          let (d, k, _) = state_retry_delay-bounds draw (p.state_retries + 1) e h in
          (
            record p {
              public_ip = ip;
              state_dirty = true;
              state_retries = p.state_retries + 1;
              state_put_scheduled = true;
              timer = some (now + d);
            },
            if_true (res.seq == p.state_seq) _ _ y
                ∙ ap
                    (λ (r : Run ℕ). r >>= λ d. ok (record p {
                      public_ip = ip;
                      state_dirty = true;
                      state_retries = p.state_retries + 1;
                      state_put_scheduled = true;
                      timer = some (now + d);
                    }))
                    k,
            record {
              armed = record {
                dirty = λ x. refl;
                set = λ x. (now + d, refl);
                unset = λ x. absurd (cc);
              };
              same_seq = refl;
              again = λ e x z. (refl, refl);
              too_old = λ e x z. absurd (z ((==_iff res.seq p.state_seq).0 y));
              succeeded = λ x. absurd (cc (sym g ∙ x));
            },
          )
      | inr n ↦ (
        record p { public_ip = ip },
        if_false (res.seq == p.state_seq) _ _ n,
        record {
          armed = record { dirty = a.dirty; set = a.set; unset = a.unset };
          same_seq = refl;
          again = λ e x z. absurd (cc (sym n ∙ (==_iff res.seq p.state_seq).1 z));
          too_old = λ e x z. sym f;
          succeeded = λ x. absurd (cc (sym g ∙ x));
        },
      )
    ]

-- What becomes of a state that changed: it waits for the timer, it is in the lane, or its request could
-- not be marshalled, which drops it.
pub data Handed (marshal : PutStateReason → Option Text) (now : ℕ) (p q : Pusher) : Type 0 where
  waits :
      q.state_dirty ≡ true
      → q.state_seq ≡ p.state_seq
      → q.lane ≡ p.lane
      → q.last_state_put ≡ p.last_state_put
      → Handed marshal now p q
  handed :
      (body : Text)
      → marshal player_state_changed ≡ some body
      → q.state_dirty ≡ false
      → q.state_seq ≡ p.state_seq + 1
      → q.last_state_put ≡ some now
      → q.lane
        ≡ submit
            (record {
              seq = p.state_seq + 1;
              reason = player_state_changed;
              spot_conn_id = p.spot_conn_id;
              body = some body;
            })
            p.lane
      → Handed marshal now p q
  dropped :
      marshal player_state_changed ≡ none
      → q.state_dirty ≡ false
      → q.state_seq ≡ p.state_seq + 1
      → q.last_state_put ≡ some now
      → q.lane ≡ p.lane
      → Handed marshal now p q

-- What a change of the state does to the loop.
pub record Updates (marshal : PutStateReason → Option Text) (now : ℕ) (p q : Pusher) : Type 0 where
  pub armed : IsArmed q
  pub becomes : Handed marshal now p q
  pub paced :
      (t : ℕ)
      → p.last_state_put ≡ some t
      → t ≤ now
      → q.state_seq ≢ p.state_seq
      → (t + state_put_min_interval ≤ now) × (p.state_put_scheduled ≡ false)
