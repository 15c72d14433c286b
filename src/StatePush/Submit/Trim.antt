-- ===== src/StatePush/Submit/Trim.antt =====
-- daemon/statepush.go: the overflow loop of `submit`.
use go_librespot_termux.Prelude.{
  Kept, left_out, Kept-refl, Kept-trans, Kept-append, ℕ, zero, suc, ◌+◌, ◌-◌, ◌≤◌, ◌<◌, ◌≡◌, refl,
  ap, sym, ◌∙◌, ◌⊎◌, subst, true, List, [], ◌∷◌, ◌++◌, Option, none, some, arith, Bool-cases, inl,
  inr, ltb, ltb→lt, ltb-false→le, if_true, if_false, length, length-append, drop,
}
use go_librespot_termux.StatePush.{
  StatePush, state_push_queue_size, coalesces, without_coalescing, drop_one, trim_loop,
}
use go_librespot_termux.StatePush.Kept.{
  transitions, length-transitions-le, Without, all_transitions, takes, without_coalescing-Without,
}

pub transitions-append :
    (us vs : List StatePush) → transitions (us ++ vs) ≡ transitions us ++ transitions vs
transitions-append [] vs = refl
transitions-append (u ∷ us) vs = elim (Bool-cases (coalesces u)) [
  | inl e ↦ rw e (transitions-append us vs)
  | inr e ↦ rw e (ap (◌∷◌ u) (transitions-append us vs))
]

pub transitions-without :
    (us : List StatePush) (p : StatePush) (vs : List StatePush)
    → coalesces p ≡ true
    → transitions (us ++ p ∷ vs) ≡ transitions (us ++ vs)
transitions-without us p vs e =
    transitions-append us (p ∷ vs)
    ∙ (ap (λ x. transitions us ++ x) (if_true (coalesces p) _ _ e) ∙ sym (transitions-append us vs))

-- What one round of the overflow loop does.
pub record DropsOne (qs rs : List StatePush) : Type 0 where
  pub order : Kept rs qs
  pub shorter : length rs + 1 ≡ length qs
  pub oldest : (transitions rs ≡ transitions qs) ⊎ ((transitions qs ≡ qs) × (rs ≡ drop 1 qs))

pub drop_one-DropsOne : (qs : List StatePush) → 0 < length qs → DropsOne qs (drop_one qs)
unfolding drop_one
drop_one-DropsOne qs h = dropped qs (without_coalescing qs) (without_coalescing-Without qs) h
  where
    first :
        (qs : List StatePush)
        → 0 < length qs
        → Kept (drop 1 qs) qs × (length (drop 1 qs) + 1 ≡ length qs)
    first [] h = absurd (omega arith)
    first (q ∷ qs) h = (left_out q qs qs (Kept-refl qs), omega arith)

    dropped :
        (qs : List StatePush) (o : Option (List StatePush))
        → Without qs o
        → 0 < length qs
        → DropsOne qs (elim o [ none ↦ drop 1 qs | some rest ↦ rest ])
    dropped qs none (all_transitions _ t) h = record {
      order = (first qs h).0;
      shorter = (first qs h).1;
      oldest = inr (t, refl);
    }
    dropped _ o (takes us p vs _ t c e) h =
        subst
          (λ (x : Option (List StatePush)).
            DropsOne (us ++ p ∷ vs) (elim x [ none ↦ drop 1 (us ++ p ∷ vs) | some rest ↦ rest ]))
          (sym e)
          (record {
            order = Kept-append us (left_out p vs vs (Kept-refl vs));
            shorter = omega (arith, length-append us vs, length-append us (p ∷ vs));
            oldest = inl (sym (transitions-without us p vs c));
          })

-- What the overflow loop leaves: at most four pushes in their order, and of the transitions the newest.
pub record Trims (qs rs : List StatePush) : Type 0 where
  pub order : Kept rs qs
  pub small : length rs ≤ state_push_queue_size
  pub newest :
      transitions rs ≡ drop (length (transitions qs) - state_push_queue_size) (transitions qs)

pub drop-suc :
    (n : ℕ) (qs : List StatePush)
    → state_push_queue_size < n
    → drop (n - 1 - state_push_queue_size) (drop 1 qs) ≡ drop (n - state_push_queue_size) qs
drop-suc n [] h = nils (n - 1 - state_push_queue_size) ∙ sym (nils (n - state_push_queue_size))
  where
    nils : (k : ℕ) → drop {A = StatePush} k [] ≡ []
    nils zero = refl
    nils (suc k) = refl
drop-suc n (q ∷ qs) h =
    ap (λ k. drop k (q ∷ qs)) {x = suc (n - 1 - state_push_queue_size)}
      {y = n - state_push_queue_size} (omega arith)

pub Trims-step :
    (qs ms rs : List StatePush)
    → DropsOne qs ms
    → state_push_queue_size < length qs
    → Trims ms rs
    → Trims qs rs
Trims-step qs ms rs d h t = record {
  order = Kept-trans d.order rs t.order;
  small = t.small;
  newest = elim d.oldest [
    | inl e ↦ t.newest ∙ ap (λ x. drop (length x - state_push_queue_size) x) e
    | inr (all, e) ↦
        let same : transitions ms ≡ drop 1 qs = ap transitions e ∙ rest qs all in
        t.newest
        ∙ (ap (λ x. drop (length x - state_push_queue_size) x) same
            ∙ (ap (λ k. drop (k - state_push_queue_size) (drop 1 qs)) {x = length (drop 1 qs)}
                  {y = length qs - 1} (omega (arith, ap length e, d.shorter))
                ∙ (drop-suc (length qs) qs h
                    ∙ ap (λ x. drop (length x - state_push_queue_size) x) (sym all))))
  ];
}
  where
    rest : (qs : List StatePush) → transitions qs ≡ qs → transitions (drop 1 qs) ≡ drop 1 qs
    rest [] e = refl
    rest (q ∷ qs) e = elim (Bool-cases (coalesces q)) [
      | inl c ↦ absurd (
          omega
            (arith, length-transitions-le qs, ap length (sym (if_true (coalesces q) _ _ c) ∙ e)))
      | inr c ↦ ap (drop 1) (sym (if_false (coalesces q) _ _ c) ∙ e)
    ]

pub trim_loop-Trims : (f : ℕ) (qs : List StatePush) → length qs ≤ f → Trims qs (trim_loop f qs)
unfolding trim_loop
trim_loop-Trims zero qs h = record {
  order = Kept-refl qs;
  small = omega arith;
  newest =
      ap (λ k. drop k (transitions qs)) {x = 0}
        {y = length (transitions qs) - state_push_queue_size}
        (omega (arith, length-transitions-le qs));
}
trim_loop-Trims (suc f) qs h = elim (Bool-cases (ltb state_push_queue_size (length qs))) [
  | inl e ↦
      let d = drop_one-DropsOne qs (omega (arith, ltb→lt _ _ e)) in
      rw e (
        Trims-step qs (drop_one qs) _ d (ltb→lt _ _ e)
          (trim_loop-Trims f (drop_one qs) (omega (arith, d.shorter))))
  | inr e ↦ rw e (record {
    order = Kept-refl qs;
    small = ltb-false→le _ _ e;
    newest =
        ap (λ k. drop k (transitions qs)) {x = 0}
          {y = length (transitions qs) - state_push_queue_size}
          (omega (arith, length-transitions-le qs, ltb-false→le _ _ e));
  })
]
