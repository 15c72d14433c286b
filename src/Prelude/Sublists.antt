-- ===== src/Prelude/Sublists.antt =====
-- Lists that are others with some elements left out.
use mathlib.Core.List.{List, [], ◌∷◌, ◌++◌}

-- The first list is the second with some elements left out, in the same order.
pub data Kept {A : Type 0} : List A → List A → Type 0 where
  nothing : Kept [] []
  left_out : (x : A) (xs ys : List A) → Kept xs ys → Kept xs (x ∷ ys)
  kept : (x : A) (xs ys : List A) → Kept xs ys → Kept (x ∷ xs) (x ∷ ys)

module _ {A : Type 0} where
  pub Kept-refl : (xs : List A) → Kept xs xs
  Kept-refl [] = nothing
  Kept-refl (x ∷ xs) = kept x xs xs (Kept-refl xs)

  pub Kept-nil : (xs : List A) → Kept [] xs
  Kept-nil [] = nothing
  Kept-nil (x ∷ xs) = left_out x [] xs (Kept-nil xs)

  pub Kept-trans : {ys zs : List A} → Kept ys zs → (xs : List A) → Kept xs ys → Kept xs zs
  Kept-trans nothing xs k = k
  Kept-trans (left_out y ys zs l) xs k = left_out y xs zs (Kept-trans l xs k)
  Kept-trans (kept y ys zs l) _ (left_out _ xs _ k) = left_out y xs zs (Kept-trans l xs k)
  Kept-trans (kept y ys zs l) _ (kept _ xs _ k) = kept y xs zs (Kept-trans l xs k)

  pub Kept-append : {xs ys : List A} (us : List A) → Kept xs ys → Kept (us ++ xs) (us ++ ys)
  Kept-append [] k = k
  Kept-append (a ∷ us) k = kept a _ _ (Kept-append us k)

  pub Kept-append_right : {xs ys : List A} (vs : List A) → Kept xs ys → Kept (xs ++ vs) (ys ++ vs)
  Kept-append_right vs nothing = Kept-refl vs
  Kept-append_right vs (left_out x xs ys k) = left_out x _ _ (Kept-append_right vs k)
  Kept-append_right vs (kept x xs ys k) = kept x _ _ (Kept-append_right vs k)
