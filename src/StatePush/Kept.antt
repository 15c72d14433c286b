-- ===== src/StatePush/Kept.antt =====
-- daemon/statepush.go: what overflow and coalescing may take out of the queue.
use go_librespot_termux.Prelude.{
  ◌≤◌, ◌≡◌, refl, ap, ◌∙◌, true, false, List, [], ◌∷◌, ◌++◌, Option, none, some, arith, Bool-cases,
  inl, inr, if_true, if_false, if◌then◌else◌, length,
}
use go_librespot_termux.StatePush.{StatePush, coalesces, without_coalescing}

-- The pushes that may not be dropped in favour of a later one.
abbrev pub transitions : List StatePush → List StatePush
transitions [] = []
transitions (p ∷ ps) = let rest = transitions ps in if coalesces p then rest else p ∷ rest

pub length-transitions-le : (ps : List StatePush) → length (transitions ps) ≤ length ps
length-transitions-le [] = omega arith
length-transitions-le (p ∷ ps) = elim (Bool-cases (coalesces p)) [
  | inl e ↦ rw e (omega (arith, length-transitions-le ps))
  | inr e ↦ rw e (omega (arith, length-transitions-le ps))
]

-- A queue either has a push that coalesces, which is the one taken out, or only transitions.
pub data Without : List StatePush → Option (List StatePush) → Type 0 where
  all_transitions : (ps : List StatePush) → transitions ps ≡ ps → Without ps none
  takes :
      (us : List StatePush) (p : StatePush) (vs : List StatePush) (o : Option (List StatePush))
      → transitions us ≡ us
      → coalesces p ≡ true
      → o ≡ some (us ++ vs)
      → Without (us ++ p ∷ vs) o

pub without_coalescing-Without : (ps : List StatePush) → Without ps (without_coalescing ps)
unfolding without_coalescing
without_coalescing-Without [] = all_transitions [] refl
without_coalescing-Without (p ∷ ps) = elim (Bool-cases (coalesces p)) [
  | inl e ↦ takes [] p ps _ refl e (if_true (coalesces p) _ _ e)
  | inr e ↦ rw e (later p ps _ e (without_coalescing-Without ps))
]
  where
    later :
        (p : StatePush) (ps : List StatePush) (o : Option (List StatePush))
        → coalesces p ≡ false
        → Without ps o
        → Without (p ∷ ps) (elim o [ none ↦ none | some rest ↦ some (p ∷ rest) ])
    later p ps none e (all_transitions _ t) =
        all_transitions (p ∷ ps) (if_false (coalesces p) _ _ e ∙ ap (◌∷◌ p) t)
    later p ps o e (takes us q vs _ t c h) =
        takes (p ∷ us) q vs _ (if_false (coalesces p) _ _ e ∙ ap (◌∷◌ p) t) c (rw h)
