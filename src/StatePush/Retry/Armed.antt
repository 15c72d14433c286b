-- ===== src/StatePush/Retry/Armed.antt =====
-- daemon/player_state.go: the state timer is set for whatever is not handed over yet.
use go_librespot_termux.Prelude.{
  ℕ, ◌+◌, ◌≡◌, refl, sym, ◌∙◌, subst, true, false, Option, none, some, Bool-cases, inl, inr, ltb,
  if_true, if_false, if_both, Text,
}
use go_librespot_termux.StatePush.{
  PutStateReason, player_state_changed, Pusher, request_body, push_state, flush_state, wait_of,
  update_state, timer_fired, submit,
}

-- A state that was not handed over yet has the timer set, which hands it over.
pub record IsArmed (p : Pusher) : Type 0 where
  pub dirty : p.state_dirty ≡ true → p.state_put_scheduled ≡ true
  pub set : p.state_put_scheduled ≡ true → (t : ℕ) × (p.timer ≡ some t)
  pub unset : p.state_put_scheduled ≡ false → p.timer ≡ none

-- What a push leaves alone.
pub push_state-IsArmed :
    (marshal : PutStateReason → Option Text) (reason : PutStateReason) (p : Pusher)
    → IsArmed p
    → IsArmed (push_state marshal reason p)
unfolding push_state
push_state-IsArmed marshal reason p a = go (request_body marshal reason)
  where
    go :
        (o : Option (Option Text))
        → IsArmed (elim o [
          | none ↦ record p { state_seq = p.state_seq + 1 }
          | some body ↦ record p {
            state_seq = p.state_seq + 1;
            lane =
                submit
                  (record {
                    seq = p.state_seq + 1;
                    reason = reason;
                    spot_conn_id = p.spot_conn_id;
                    body = body;
                  })
                  p.lane;
          }
        ])
    go none = record { dirty = a.dirty; set = a.set; unset = a.unset }
    go (some body) = record { dirty = a.dirty; set = a.set; unset = a.unset }

pub flush_state-IsArmed :
    (marshal : PutStateReason → Option Text) (now : ℕ) (p : Pusher)
    → p.state_put_scheduled ≡ false
    → p.timer ≡ none
    → IsArmed (flush_state marshal now p)
unfolding flush_state
flush_state-IsArmed marshal now p s t =
    push_state-IsArmed marshal player_state_changed
      (record p { state_dirty = false; last_state_put = some now })
      (record { dirty = λ e. absurd (cc); set = λ e. absurd (cc); unset = λ e. t })

pub update_state-IsArmed :
    (marshal : PutStateReason → Option Text) (now : ℕ) (p : Pusher)
    → IsArmed p
    → IsArmed (update_state marshal now p)
unfolding update_state
update_state-IsArmed marshal now p a = elim (Bool-cases p.state_put_scheduled) [
  | inl e ↦
      subst IsArmed (sym (if_true p.state_put_scheduled _ _ e))
        (record { dirty = λ x. e; set = a.set; unset = a.unset })
  | inr e ↦ subst IsArmed (sym (if_false p.state_put_scheduled _ _ e)) (
      if_both IsArmed (ltb 0 (wait_of now p.last_state_put)) _ _
        (record {
          dirty = λ x. refl;
          set = λ x. (now + wait_of now p.last_state_put, refl);
          unset = λ x. absurd (cc);
        })
        (λ _. flush_state-IsArmed marshal now (record p { state_dirty = true }) e (a.unset e)))
]

pub timer_fired-IsArmed :
    (marshal : PutStateReason → Option Text) (now : ℕ) (p : Pusher)
    → IsArmed p
    → IsArmed (timer_fired marshal now p)
unfolding timer_fired
timer_fired-IsArmed marshal now p a = elim (Bool-cases p.state_dirty) [
  | inl e ↦ subst IsArmed (sym (if_true p.state_dirty _ _ e)) (
      flush_state-IsArmed marshal now (record p { state_put_scheduled = false; timer = none }) refl
        refl)
  | inr e ↦
      subst IsArmed (sym (if_false p.state_dirty _ _ e))
        (record { dirty = λ x. absurd (cc (sym e ∙ x)); set = λ x. absurd (cc); unset = λ x. refl })
]
