-- ===== src/StatePush/Lane.antt =====
-- daemon/statepush.go: what holds of the lane and its goroutine after any steps.
pub mod Steps
use go_librespot_termux.Prelude.{
  Kept, nothing, Kept-nil, Kept-trans, Kept-append, Kept-append_right, ◌≤◌, ◌<◌, ◌≡◌, ◌≢◌, refl, ap,
  ap₂, sym, ◌∙◌, ◌⊎◌, subst, true, false, List, [], ◌∷◌, ◌++◌, append_assoc, Option, none, some,
  arith, Bool-cases, inl, inr, ltb, if_true, if_false, if◌then◌else◌, length, length-append,
  ltb-false→le,
}
use go_librespot_termux.StatePush.{
  StatePush, StatePushLane, StatePushResult, state_push_queue_size, next, pending, submit, close,
  give_up,
}
use go_librespot_termux.StatePush.Submit.{submit-Submits}
use go_librespot_termux.StatePush.Lane.Steps.{
  Worker, World, start, submits, takes_push, woken, Step, Reachable, looking, waiting, done,
  putting, reporting, submitted_push, taken, rested, awoken, more_left, ended, put_done, reported,
  unheard, heard, closed_lane, gave_up, started, stepped,
}

-- The pushes sent and those queued are some of the submitted ones, each once and in their order; the
-- queue and the channel are bounded; a goroutine that waits has nothing to send, or a token or the
-- closing wakes it; one that has ended left nothing behind.
pub record IsOrderly (w : World) : Type 0 where
  pub order : Kept (w.sent ++ w.lane.queue) w.submitted
  pub small : length w.lane.queue ≤ state_push_queue_size
  pub heard_soon : length w.results ≤ state_push_queue_size
  pub wakes : w.worker ≡ waiting → w.lane.queue ≢ [] → (w.lane.wake ≡ true) ⊎ (w.lane.closed ≡ true)
  pub drained : w.worker ≡ done → (w.lane.closed ≡ true) × (w.lane.queue ≡ [])

start-IsOrderly : IsOrderly start
start-IsOrderly = record {
  order = nothing;
  small = omega arith;
  heard_soon = omega arith;
  wakes = λ e n. absurd (cc);
  drained = λ e. absurd (cc);
}

submits-IsOrderly : (p : StatePush) (w : World) → IsOrderly w → IsOrderly (submits p w)
unfolding submits
submits-IsOrderly p w o = elim (Bool-cases w.lane.closed) [
  | inl c ↦
      subst IsOrderly
        (sym (
          ap₂ (λ (l : StatePushLane) (s : List StatePush). record w { lane = l; submitted = s })
            (if_true w.lane.closed _ _ c) (if_true w.lane.closed _ _ c)))
        o
  | inr c ↦
      let q = submit-Submits p w.lane c in
      subst (λ (s : List StatePush). IsOrderly (record w { lane = submit p w.lane; submitted = s }))
        (sym (if_false w.lane.closed _ _ c))
        (record {
          order = Kept-trans (Kept-append_right (p ∷ []) o.order) _ (
              subst (λ (x : List StatePush). Kept (w.sent ++ (submit p w.lane).queue) x)
                (sym (append_assoc w.sent w.lane.queue (p ∷ []))) (Kept-append w.sent q.order));
          small = q.small;
          heard_soon = o.heard_soon;
          wakes = λ e n. inl q.awake;
          drained = λ e. absurd (cc (o.drained e).0);
        })
]

-- What `next` gives.
next-queue :
    (l l' : StatePushLane) (p : StatePush)
    → next l ≡ (l', some p)
    → (l.queue ≡ p ∷ l'.queue) × (l'.closed ≡ l.closed) × (l'.wake ≡ l.wake)
unfolding next
next-queue l l' p h = go l.queue h
  where
    go :
        (qs : List StatePush)
        → (elim qs as (λ _. StatePushLane × Option StatePush) [
          | [] ↦ (l, none)
          | x ∷ xs ↦ (record l { queue = xs }, some x)
        ])
          ≡ (l', some p)
        → (qs ≡ p ∷ l'.queue) × (l'.closed ≡ l.closed) × (l'.wake ≡ l.wake)
    go [] h = absurd (cc)
    go (x ∷ xs) h =
        let same : record l { queue = xs } ≡ l' = ap (λ y. y.0) h in
        let first : x ≡ p = cc in
        (
          ap₂ (λ a (b : StatePushLane). a ∷ b.queue) first same,
          sym (ap (λ (b : StatePushLane). b.closed) same),
          sym (ap (λ (b : StatePushLane). b.wake) same),
        )

next-none : (l : StatePushLane) → (next l).1 ≡ none → l.queue ≡ []
unfolding next
next-none l h = go l.queue h
  where
    go :
        (qs : List StatePush)
        → (elim qs as (λ _. StatePushLane × Option StatePush) [
          | [] ↦ (l, none)
          | x ∷ xs ↦ (record l { queue = xs }, some x)
        ]).1
          ≡ none
        → qs ≡ []
    go [] h = refl
    go (x ∷ xs) h = absurd (cc)

pending-false : (l : StatePushLane) → pending l ≡ false → l.queue ≡ []
unfolding pending
pending-false l h = go l.queue h
  where
    go : (qs : List StatePush) → ltb 0 (length qs) ≡ false → qs ≡ []
    go [] h = refl
    go (x ∷ xs) h = absurd (omega (arith, ltb-false→le 0 (length (x ∷ xs)) h))

Step-IsOrderly : {w v : World} → Step w v → IsOrderly w → IsOrderly v
unfolding takes_push woken close give_up
Step-IsOrderly (submitted_push w p) o = submits-IsOrderly p w o
Step-IsOrderly (taken w p l e n) o =
    let (q, c, k) = next-queue w.lane l p n in
    record {
      order =
          subst (λ (x : List StatePush). Kept x w.submitted)
            (ap (λ (x : List StatePush). w.sent ++ x) q
              ∙ sym (append_assoc w.sent (p ∷ []) l.queue))
            o.order;
      small = omega (arith, o.small, ap length q);
      heard_soon = o.heard_soon;
      wakes = λ x y. absurd (cc);
      drained = λ x. absurd (cc);
    }
Step-IsOrderly (rested w e n) o = record {
  order = o.order;
  small = o.small;
  heard_soon = o.heard_soon;
  wakes = λ x y. absurd (y (next-none w.lane n));
  drained = λ x. absurd (cc);
}
Step-IsOrderly (awoken w e k) o = record {
  order = o.order;
  small = o.small;
  heard_soon = o.heard_soon;
  wakes = λ x y. absurd (cc);
  drained = λ x. absurd (cc);
}
Step-IsOrderly (more_left w e c n) o = record {
  order = o.order;
  small = o.small;
  heard_soon = o.heard_soon;
  wakes = λ x y. absurd (cc);
  drained = λ x. absurd (cc);
}
Step-IsOrderly (ended w e c n) o = record {
  order = o.order;
  small = o.small;
  heard_soon = o.heard_soon;
  wakes = λ x y. absurd (cc);
  drained = λ x. (c, pending-false w.lane n);
}
Step-IsOrderly (put_done w p res e s r) o = record {
  order = o.order;
  small = o.small;
  heard_soon = o.heard_soon;
  wakes = λ x y. absurd (cc);
  drained = λ x. absurd (cc);
}
Step-IsOrderly (reported w res e k) o = record {
  order = o.order;
  small = o.small;
  heard_soon = omega (arith, k, length-append w.results (res ∷ []));
  wakes = λ x y. absurd (cc);
  drained = λ x. absurd (cc);
}
Step-IsOrderly (unheard w res e c) o = record {
  order = o.order;
  small = o.small;
  heard_soon = o.heard_soon;
  wakes = λ x y. absurd (cc);
  drained = λ x. absurd (cc);
}
Step-IsOrderly (heard w res rest e) o = record {
  order = o.order;
  small = o.small;
  heard_soon = omega (arith, o.heard_soon, ap length e);
  wakes = o.wakes;
  drained = o.drained;
}
Step-IsOrderly (closed_lane w) o = record {
  order = o.order;
  small = o.small;
  heard_soon = o.heard_soon;
  wakes = λ x y. inr refl;
  drained = λ x. (refl, (o.drained x).1);
}
Step-IsOrderly (gave_up w c) o = record {
  order = Kept-trans o.order _ (Kept-append w.sent (Kept-nil w.lane.queue));
  small = omega arith;
  heard_soon = o.heard_soon;
  wakes = λ x y. inr c;
  drained = λ x. (c, refl);
}

-- Whatever happens, the lane stays orderly: the pushes that the goroutine took and those still queued
-- are some of those submitted before the closing, each at most once and in their order; at most four
-- pushes and four results wait; a goroutine that waits while a push is queued has been woken or told to
-- end; and one that has ended did so on a closed lane and left no push in the queue.
pub Reachable-IsOrderly : (w : World) → Reachable w → IsOrderly w
Reachable-IsOrderly _ started = start-IsOrderly
Reachable-IsOrderly v (stepped r s) = Step-IsOrderly s (Reachable-IsOrderly _ r)
