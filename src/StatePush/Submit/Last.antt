-- ===== src/StatePush/Submit/Last.antt =====
-- daemon/statepush.go: the push that was submitted last, in the overflow loop.
use go_librespot_termux.Prelude.{
  ℕ, zero, suc, ◌≤◌, ◌<◌, ◌≡◌, refl, ap, sym, ◌∙◌, ◌⊎◌, Bool, true, false, List, [], ◌∷◌, ◌++◌,
  Option, none, some, arith, Bool-cases, inl, inr, ltb, ltb→lt, if_true, if_false, if◌then◌else◌,
  length, length-append, drop,
}
use go_librespot_termux.StatePush.{
  StatePush, state_push_queue_size, coalesces, without_coalescing, drop_one, trim_loop,
}
use go_librespot_termux.StatePush.Kept.{
  transitions, length-transitions-le, Without, all_transitions, takes, without_coalescing-Without,
}
use go_librespot_termux.StatePush.Submit.Trim.{transitions-without}

pub without_coalescing-append :
    (us vs rs : List StatePush)
    → without_coalescing us ≡ some rs
    → without_coalescing (us ++ vs) ≡ some (rs ++ vs)
unfolding without_coalescing
without_coalescing-append [] vs rs h = absurd (cc)
without_coalescing-append (u ∷ us) vs rs h = elim (Bool-cases (coalesces u)) [
  | inl e ↦
      if_true (coalesces u) _ _ e
      ∙ ap (λ o. elim o [ none ↦ none | some x ↦ some (x ++ vs) ])
          (sym (if_true (coalesces u) _ _ e) ∙ h)
  | inr e ↦
      if_false (coalesces u) _ _ e
      ∙ later (without_coalescing us) (sym (if_false (coalesces u) _ _ e) ∙ h)
          (without_coalescing-append us vs)
]
  where
    later :
        (o : Option (List StatePush))
        → (elim o [ none ↦ none | some rest ↦ some (u ∷ rest) ]) ≡ some rs
        → ((xs : List StatePush) → o ≡ some xs → without_coalescing (us ++ vs) ≡ some (xs ++ vs))
        → (elim (without_coalescing (us ++ vs)) [ none ↦ none | some rest ↦ some (u ∷ rest) ])
          ≡ some (rs ++ vs)
    later none h ih = absurd (cc)
    later (some xs) h ih = let e : u ∷ xs ≡ rs = cc in rw (ih xs refl) (ap (λ x. some (x ++ vs)) e)

pub without_coalescing-last :
    (us : List StatePush) (p : StatePush)
    → transitions us ≡ us
    → without_coalescing (us ++ p ∷ []) ≡ (if coalesces p then some us else none)
unfolding without_coalescing
without_coalescing-last [] p h = refl
without_coalescing-last (u ∷ us) p h = elim (Bool-cases (coalesces u)) [
  | inl e ↦
      absurd
        (omega (arith, length-transitions-le us, ap length (sym (if_true (coalesces u) _ _ e) ∙ h)))
  | inr e ↦
      if_false (coalesces u) _ _ e
      ∙ rw (without_coalescing-last us p (ap (drop 1) (sym (if_false (coalesces u) _ _ e) ∙ h)))
          (more (coalesces p))
]
  where
    more :
        (b : Bool)
        → (elim (if b then some us else none) [ none ↦ none | some rest ↦ some (u ∷ rest) ])
          ≡ (if b then some (u ∷ us) else none)
    more true = refl
    more false = refl

-- A push that is not the first to go stays last.
unfoldable pub Stays : StatePush → List StatePush → Type 0
Stays p us = (coalesces p ≡ false) ⊎ (length (transitions us) < state_push_queue_size)

pub drop_one-last :
    (us : List StatePush) (p : StatePush)
    → state_push_queue_size ≤ length us
    → Stays p us
    → (vs : List StatePush) × (drop_one (us ++ p ∷ []) ≡ vs ++ p ∷ []) × Stays p vs
unfolding drop_one Stays
drop_one-last us p h s = go us (without_coalescing us) (without_coalescing-Without us) refl h s
  where
    go :
        (us : List StatePush) (o : Option (List StatePush))
        → Without us o
        → without_coalescing us ≡ o
        → state_push_queue_size ≤ length us
        → Stays p us
        → (vs : List StatePush) × (drop_one (us ++ p ∷ []) ≡ vs ++ p ∷ []) × Stays p vs
    go us (some _) (takes ls q ms _ t c e) f h s = (
      ls ++ ms,
      ap (λ o. elim o [ none ↦ drop 1 ((ls ++ q ∷ ms) ++ p ∷ []) | some rest ↦ rest ])
          (without_coalescing-append (ls ++ q ∷ ms) (p ∷ []) (ls ++ ms) (f ∙ e)),
      elim s [
        | inl a ↦ inl a
        | inr b ↦ inr (omega (arith, b, ap length (transitions-without ls q ms c)))
      ],
    )
    go us none (takes ls q ms _ t c e) f h s = absurd (cc)
    go [] none (all_transitions _ t) f h s = absurd (omega arith)
    go (u ∷ us) none (all_transitions _ t) f h s = elim s [
      | inl a ↦ (
        us,
        ap (λ o. elim o [ none ↦ drop 1 ((u ∷ us) ++ p ∷ []) | some rest ↦ rest ])
            (without_coalescing-last (u ∷ us) p t ∙ if_false (coalesces p) _ _ a),
        inl a,
      )
      | inr b ↦ absurd (omega (arith, b, ap length t, h))
    ]

pub trim_loop-last :
    (f : ℕ) (us : List StatePush) (p : StatePush)
    → Stays p us
    → (vs : List StatePush) × (trim_loop f (us ++ p ∷ []) ≡ vs ++ p ∷ [])
unfolding trim_loop
trim_loop-last zero us p s = (us, refl)
trim_loop-last (suc f) us p s =
    elim (Bool-cases (ltb state_push_queue_size (length (us ++ p ∷ [])))) [
      | inl e ↦
          let (vs, step, s') =
            drop_one-last us p (omega (arith, ltb→lt _ _ e, length-append us (p ∷ []))) s in
          let (ws, end) = trim_loop-last f vs p s' in
          (
            ws,
            if_true (ltb state_push_queue_size (length (us ++ p ∷ []))) _ _ e
                ∙ (ap (trim_loop f) step ∙ end),
          )
      | inr e ↦ (us, if_false (ltb state_push_queue_size (length (us ++ p ∷ []))) _ _ e)
    ]
