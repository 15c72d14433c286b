-- ===== src/Audio/Sharing/Owners/Waking.antt =====
-- audio/chunked-reader.go: a broadcast and the goroutines that it wakes.
use go_librespot_termux.Prelude.{
  ℕ, zero, suc, ◌≡◌, refl, ap, sym, ◌∙◌, List, [], ◌∷◌, map, some, Bool-cases, inl, inr, ◌==◌,
  if_true, if_false, get_elem?,
}
use go_librespot_termux.Audio.Sharing.{
  Fetching, looking, waiting, downloading, marking, finishing, returned, woken,
}

-- An entry after a broadcast is one of before, woken.
pub from_map :
    (gs : List Fetching) (k j : ℕ) (h : Fetching)
    → get_elem? (map (woken k) gs) j ≡ some h
    → (g : Fetching) × (get_elem? gs j ≡ some g) × (h ≡ woken k g)
from_map [] k j h e = absurd (cc)
from_map (g ∷ gs) k zero h e = let same : woken k g ≡ h = cc in (g, refl, sym same)
from_map (g ∷ gs) k (suc j) h e = from_map gs k j h e

pub to_map :
    (gs : List Fetching) (k j : ℕ) (g : Fetching)
    → get_elem? gs j ≡ some g
    → get_elem? (map (woken k) gs) j ≡ some (woken k g)
to_map [] k j g e = absurd (cc)
to_map (h ∷ gs) k zero g e = let same : h ≡ g = cc in ap (λ x. some (woken k x)) same
to_map (h ∷ gs) k (suc j) g e = to_map gs k j g e

pub woken-downloading : (k m : ℕ) (g : Fetching) → downloading m ≡ woken k g → g ≡ downloading m
woken-downloading k m (waiting j) e = elim (Bool-cases (k == j)) [
  | inl y ↦ absurd (cc (e ∙ if_true (k == j) (looking j) (waiting j) y))
  | inr n ↦ absurd (cc (e ∙ if_false (k == j) (looking j) (waiting j) n))
]
woken-downloading k m (looking j) e = absurd (cc)
woken-downloading k m (downloading j) e = sym e
woken-downloading k m (marking j d) e = absurd (cc)
woken-downloading k m (finishing j d) e = absurd (cc)
woken-downloading k m (returned j r) e = absurd (cc)
