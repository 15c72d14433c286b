-- ===== src/Audio/Pieces.antt =====
-- Pieces of the bytes that audio/chunked-reader.go slices.
use go_librespot_termux.Prelude.{
  ℕ, zero, suc, ◌+◌, ◌-◌, ◌≤◌, ◌≡◌, refl, ap, sym, ◌∙◌, List, [], ◌∷◌, ◌++◌, arith, length, take,
  drop, min,
}

module _ {ℓ} {A : Type ℓ} where
  drop-nil : (n : ℕ) → drop {A = A} n [] ≡ []
  drop-nil zero = refl
  drop-nil (suc n) = refl

  take-nil : (n : ℕ) → take {A = A} n [] ≡ []
  take-nil zero = refl
  take-nil (suc n) = refl

  pub drop-drop : (a b : ℕ) (xs : List A) → drop a (drop b xs) ≡ drop (b + a) xs
  drop-drop a zero xs = ap (λ k. drop k xs) {x = a} {y = 0 + a} (omega arith)
  drop-drop a (suc b) [] = drop-nil a ∙ sym (drop-nil (suc b + a))
  drop-drop a (suc b) (x ∷ xs) =
      drop-drop a b xs ∙ ap (λ k. drop k (x ∷ xs)) {x = suc (b + a)} {y = suc b + a} (omega arith)

  pub drop-take : (a k : ℕ) (xs : List A) → drop a (take k xs) ≡ take (k - a) (drop a xs)
  drop-take zero k xs = ap (λ m. take m xs) {x = k} {y = k - 0} (omega arith)
  drop-take (suc a) zero xs =
      sym (ap (λ m. take m (drop (suc a) xs)) {x = 0 - suc a} {y = 0} (omega arith))
  drop-take (suc a) (suc k) [] = sym (take-nil (suc k - suc a))
  drop-take (suc a) (suc k) (x ∷ xs) =
      drop-take a k xs ∙ ap (λ m. take m (drop a xs)) {x = k - a} {y = suc k - suc a} (omega arith)

  -- Two pieces in a row are one.
  pub take-take :
      (k : ℕ) (xs bs : List A)
      → bs ≡ take (length bs) (drop k xs)
      → take k xs ++ bs ≡ take (length (take k xs ++ bs)) xs
  take-take zero xs bs h = h
  take-take (suc k) [] bs h = h ∙ take-nil (length bs) ∙ sym (take-nil (length bs))
  take-take (suc k) (x ∷ xs) bs h = ap (◌∷◌ x) (take-take k xs bs h)

  -- A shorter piece of a piece.
  pub take-shorter : (n k : ℕ) (xs : List A) → n ≤ k → take n (take k xs) ≡ take n xs
  take-shorter zero k xs h = refl
  take-shorter (suc n) zero xs h = absurd (omega arith)
  take-shorter (suc n) (suc k) [] h = refl
  take-shorter (suc n) (suc k) (x ∷ xs) h = ap (◌∷◌ x) (take-shorter n k xs (omega arith))

  pub drop-min : (off : ℕ) (xs : List A) → drop (min off (length xs)) xs ≡ drop off xs
  drop-min off [] = drop-nil (min off 0) ∙ sym (drop-nil off)
  drop-min zero (x ∷ xs) =
      ap (λ k. drop k (x ∷ xs)) {x = min 0 (suc (length xs))} {y = 0} (omega arith)
  drop-min (suc off) (x ∷ xs) =
      ap (λ k. drop k (x ∷ xs)) {x = min (suc off) (suc (length xs))}
        {y = suc (min off (length xs))} (omega arith)
      ∙ drop-min off xs
