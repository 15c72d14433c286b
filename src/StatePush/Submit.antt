-- ===== src/StatePush/Submit.antt =====
-- daemon/statepush.go: what `submit` does to the queue.
mod Trim
mod Last
use go_librespot_termux.Prelude.{
  Kept, nothing, left_out, kept, Kept-refl, Kept-trans, Kept-append, Kept-append_right, ℕ, zero,
  suc, ◌+◌, ◌-◌, ◌≤◌, ◌<◌, ◌≡◌, refl, ap, sym, ◌∙◌, ◌⊎◌, subst, Bool, true, false, ◌&&◌, List, [],
  ◌∷◌, ◌++◌, Option, none, some, arith, Bool-cases, inl, inr, ltb, ltb→lt, ltb-false→le, lt→ltb,
  le→ltb-false, if_true, if_false, if◌then◌else◌, length, length-append, drop,
}
use go_librespot_termux.StatePush.{
  StatePush, StatePushLane, state_push_queue_size, coalesces, enqueue, without_coalescing, drop_one,
  trim_loop, trim, submit,
}
use go_librespot_termux.StatePush.Kept.{
  transitions, length-transitions-le, Without, all_transitions, takes, without_coalescing-Without,
}
use go_librespot_termux.StatePush.Submit.Trim.{
  transitions-append, transitions-without, DropsOne, drop_one-DropsOne, Trims, drop-suc, Trims-step,
  trim_loop-Trims,
}
use go_librespot_termux.StatePush.Submit.Last.{
  without_coalescing-append, without_coalescing-last, Stays, drop_one-last, trim_loop-last,
}

-- The pushes before the one that is queued.
record Enqueues (p : StatePush) (qs rs : List StatePush) : Type 0 where
  before : List StatePush
  split : rs ≡ before ++ p ∷ []
  order : Kept before qs
  same : transitions before ≡ transitions qs

enqueue-Enqueues : (p : StatePush) (qs : List StatePush) → Enqueues p qs (enqueue p qs)
unfolding enqueue
enqueue-Enqueues p [] = record { before = []; split = refl; order = nothing; same = refl }
enqueue-Enqueues p (q ∷ []) = elim (Bool-cases (coalesces q && coalesces p)) [
  | inl e ↦ record {
    before = [];
    split = rw e refl;
    order = left_out q [] [] nothing;
    same = sym (if_true (coalesces q) _ _ (first (coalesces q) (coalesces p) e));
  }
  | inr e ↦ record { before = q ∷ []; split = rw e refl; order = Kept-refl (q ∷ []); same = refl }
]
  where
    first : (a b : Bool) → (a && b) ≡ true → a ≡ true
    first true b e = refl
    first false b e = e
enqueue-Enqueues p (q ∷ r ∷ qs) =
    let e = enqueue-Enqueues p (r ∷ qs) in
    record {
      before = q ∷ e.before;
      split = ap (◌∷◌ q) e.split;
      order = kept q e.before (r ∷ qs) e.order;
      same = ap (λ x. if coalesces q then x else q ∷ x) e.same;
    }

-- The queue that `submit` leaves, its bound, its order and its transitions.
pub record Submits (p : StatePush) (l l' : StatePushLane) : Type 0 where
  pub small : length l'.queue ≤ state_push_queue_size
  pub order : Kept l'.queue (l.queue ++ p ∷ [])
  pub transitions_kept :
      transitions l'.queue
      ≡ drop
          (length (transitions (l.queue ++ p ∷ [])) - state_push_queue_size)
          (transitions (l.queue ++ p ∷ []))
  pub awake : l'.wake ≡ true
  pub open_still : l'.closed ≡ false

-- On an open lane, `submit` leaves at most four pushes in the queue: some of the old queue and the new
-- one, each at most once and in this order. The transitions among them are the newest four of the old
-- ones and the new one, all of them if there are no more than four. The token is set and the lane open.
pub submit-Submits :
    (p : StatePush) (l : StatePushLane) → l.closed ≡ false → Submits p l (submit p l)
unfolding submit trim
submit-Submits p l h =
    let e = enqueue-Enqueues p l.queue in
    let t = trim_loop-Trims (length (enqueue p l.queue)) (enqueue p l.queue) (omega arith) in
    let same : transitions (enqueue p l.queue) ≡ transitions (l.queue ++ p ∷ []) =
      ap transitions e.split
      ∙ (transitions-append e.before (p ∷ [])
          ∙ (ap (λ x. x ++ transitions (p ∷ [])) e.same
              ∙ sym (transitions-append l.queue (p ∷ [])))) in
    subst (Submits p l) (sym (if_false l.closed _ _ h)) (record {
      small = t.small;
      order =
          Kept-trans
            (subst (λ x. Kept x (l.queue ++ p ∷ [])) (sym e.split)
              (Kept-append_right (p ∷ []) e.order))
            _ t.order;
      transitions_kept = t.newest ∙ ap (λ x. drop (length x - state_push_queue_size) x) same;
      awake = refl;
      open_still = h;
    })

-- The first of a queue of transitions is one.
transition :
    (q : StatePush) (qs : List StatePush) → transitions (q ∷ qs) ≡ q ∷ qs → coalesces q ≡ false
transition q qs h = elim (Bool-cases (coalesces q)) [
  | inl c ↦
      absurd
        (omega (arith, length-transitions-le qs, ap length (sym (if_true (coalesces q) _ _ c) ∙ h)))
  | inr c ↦ c
]

enqueue_full :
    (p : StatePush) (qs : List StatePush) → transitions qs ≡ qs → enqueue p qs ≡ qs ++ p ∷ []
unfolding enqueue
enqueue_full p [] h = refl
enqueue_full p (q ∷ []) h = rw (transition q [] h) refl
enqueue_full p (q ∷ r ∷ qs) h = ap (◌∷◌ q) (
    enqueue_full p (r ∷ qs)
      (ap (drop 1) (sym (if_false (coalesces q) _ _ (transition q (r ∷ qs) h)) ∙ h)))

trim_loop_small :
    (f : ℕ) (qs : List StatePush) → length qs ≤ state_push_queue_size → trim_loop f qs ≡ qs
unfolding trim_loop
trim_loop_small zero qs h = refl
trim_loop_small (suc f) qs h =
    if_false (ltb state_push_queue_size (length qs)) _ _ (le→ltb-false _ _ h)

trim_round :
    (p : StatePush) (qs : List StatePush)
    → coalesces p ≡ true
    → transitions qs ≡ qs
    → length qs ≡ state_push_queue_size
    → trim_loop (suc state_push_queue_size) (qs ++ p ∷ []) ≡ trim_loop state_push_queue_size qs
unfolding trim_loop drop_one
trim_round p qs c t n =
    if_true (ltb state_push_queue_size (length (qs ++ p ∷ []))) _ _
      (lt→ltb _ _ (omega (arith, length-append qs (p ∷ []), n)))
    ∙ ap
        (λ o.
          trim_loop state_push_queue_size
            (elim o [ none ↦ drop 1 (qs ++ p ∷ []) | some rest ↦ rest ]))
        (without_coalescing-last qs p t ∙ if_true (coalesces p) _ _ c)

trim_full :
    (p : StatePush) (qs : List StatePush)
    → coalesces p ≡ true
    → transitions qs ≡ qs
    → length qs ≡ state_push_queue_size
    → trim (qs ++ p ∷ []) ≡ qs
unfolding trim
trim_full p qs c t n =
    let size : length (qs ++ p ∷ []) ≡ suc state_push_queue_size =
      omega (arith, length-append qs (p ∷ []), n) in
    ap (λ f. trim_loop f (qs ++ p ∷ [])) size
    ∙ (trim_round p qs c t n ∙ trim_loop_small state_push_queue_size qs (omega arith))

-- On an open lane, a push that is submitted becomes the last of the queue, if it is a transition or if
-- there are fewer than four transitions in the queue before. If it may coalesce and the queue is four
-- transitions, the queue stays as it was: the newest player state is what is dropped.
pub submit-newest :
    (p : StatePush) (l : StatePushLane)
    → l.closed ≡ false
    → ((coalesces p ≡ false) ⊎ (length (transitions l.queue) < state_push_queue_size)
        → (vs : List StatePush) × ((submit p l).queue ≡ vs ++ p ∷ []))
      × (coalesces p ≡ true
          → transitions l.queue ≡ l.queue
          → length l.queue ≡ state_push_queue_size
          → (submit p l).queue ≡ l.queue)
unfolding submit trim Stays
submit-newest p l h =
    let e = enqueue-Enqueues p l.queue in
    (
      λ s.
          let (vs, end) =
            trim_loop-last (length (enqueue p l.queue)) e.before p
              (elim s [ inl a ↦ inl a | inr b ↦ inr (omega (arith, b, ap length e.same)) ]) in
          (
            vs,
            ap (λ (x : StatePushLane). x.queue) (if_false l.closed _ _ h)
                ∙ (ap (trim_loop (length (enqueue p l.queue))) e.split ∙ end),
          ),
      λ c t n.
          ap (λ (x : StatePushLane). x.queue) (if_false l.closed _ _ h)
          ∙ (ap trim (enqueue_full p l.queue t) ∙ trim_full p l.queue c t n),
    )
