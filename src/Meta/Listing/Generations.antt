-- ===== src/Meta/Listing/Generations.antt =====
-- daemon/track_meta_cache.go: the generations of the enumerations under way.
use go_librespot_termux.Prelude.{
  ℕ, ◌≡◌, refl, ap, sym, ◌∙◌, true, false, List, [], ◌∷◌, some, Bool-cases, inl, inr, if_true,
  if_false, if◌then◌else◌, Text, text_eq, text_eq→eq, text_eq_refl,
}
use go_librespot_termux.Meta.{generation, set_generation, delete_generation}

pub generation-set_self :
    (k : Text) (g : ℕ) (m : List (Text × ℕ)) → generation k (set_generation k g m) ≡ some g
unfolding generation set_generation
generation-set_self k g [] = if_true (text_eq k k) _ _ (text_eq_refl k)
generation-set_self k g ((j, h) ∷ m) = elim (Bool-cases (text_eq j k)) [
  | inl e ↦
      ap (generation k) (if_true (text_eq j k) ((k, g) ∷ m) _ e)
      ∙ if_true (text_eq k k) _ _ (text_eq_refl k)
  | inr e ↦
      ap (generation k) (if_false (text_eq j k) ((k, g) ∷ m) _ e)
      ∙ (if_false (text_eq j k) _ _ e ∙ generation-set_self k g m)
]

pub text_eq_trans : (i j k : Text) → text_eq i j ≡ true → text_eq i k ≡ text_eq j k
text_eq_trans i j k e = ap (λ x. text_eq x k) (text_eq→eq i j e)

pub generation-set_ne :
    (k j : Text) (g : ℕ) (m : List (Text × ℕ))
    → text_eq k j ≡ false
    → generation j (set_generation k g m) ≡ generation j m
unfolding generation set_generation
generation-set_ne k j g [] n = if_false (text_eq k j) _ _ n
generation-set_ne k j g ((i, h) ∷ m) n = elim (Bool-cases (text_eq i k)) [
  | inl e ↦
      ap (generation j) (if_true (text_eq i k) ((k, g) ∷ m) _ e)
      ∙ (if_false (text_eq k j) _ _ n
          ∙ sym (if_false (text_eq i j) _ _ (text_eq_trans i k j e ∙ n)))
  | inr e ↦
      ap (generation j) (if_false (text_eq i k) ((k, g) ∷ m) _ e)
      ∙ ap (λ o. if text_eq i j then some h else o) (generation-set_ne k j g m n)
]

pub generation-delete_ne :
    (k j : Text) (m : List (Text × ℕ))
    → text_eq k j ≡ false
    → generation j (delete_generation k m) ≡ generation j m
unfolding generation delete_generation
generation-delete_ne k j [] n = refl
generation-delete_ne k j ((i, h) ∷ m) n = elim (Bool-cases (text_eq i k)) [
  | inl e ↦
      ap (generation j) (if_true (text_eq i k) _ ((i, h) ∷ delete_generation k m) e)
      ∙ (generation-delete_ne k j m n
          ∙ sym (if_false (text_eq i j) _ _ (text_eq_trans i k j e ∙ n)))
  | inr e ↦
      ap (generation j) (if_false (text_eq i k) _ ((i, h) ∷ delete_generation k m) e)
      ∙ ap (λ o. if text_eq i j then some h else o) (generation-delete_ne k j m n)
]
