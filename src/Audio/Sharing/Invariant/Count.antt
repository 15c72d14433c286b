-- ===== src/Audio/Sharing/Invariant/Count.antt =====
-- audio/chunked-reader.go: the goroutines that have stored a chunk and not counted it yet.
use go_librespot_termux.Prelude.{
  ℕ, zero, suc, ◌+◌, ◌≡◌, refl, ap, List, [], ◌∷◌, ◌++◌, map, some, arith, Bool-cases, inl, inr,
  ◌==◌, if_true, if_false, get_elem?, set,
}
use go_librespot_termux.Audio.Sharing.{
  Fetching, looking, waiting, downloading, marking, finishing, returned, woken,
}

-- The goroutines that have stored a chunk and not counted it yet.
abbrev pub marks : Fetching → ℕ
marks (marking k d) = 1
marks (looking k) = 0
marks (waiting k) = 0
marks (downloading k) = 0
marks (finishing k d) = 0
marks (returned k r) = 0

unfoldable pub uncounted : List Fetching → ℕ
uncounted [] = 0
uncounted (g ∷ gs) = marks g + uncounted gs

pub uncounted-set :
    (gs : List Fetching) (i : ℕ) (h g : Fetching)
    → get_elem? gs i ≡ some h
    → uncounted (set gs i g) + marks h ≡ uncounted gs + marks g
unfolding uncounted
uncounted-set [] i h g e = absurd (cc)
uncounted-set (x ∷ gs) zero h g e = let same : x ≡ h = cc in omega (arith, ap marks same)
uncounted-set (x ∷ gs) (suc i) h g e = omega (arith, uncounted-set gs i h g e)

pub marks-woken : (k : ℕ) (g : Fetching) → marks (woken k g) ≡ marks g
marks-woken k (waiting j) = elim (Bool-cases (k == j)) [
  | inl y ↦ ap marks (if_true (k == j) (looking j) (waiting j) y)
  | inr n ↦ ap marks (if_false (k == j) (looking j) (waiting j) n)
]
marks-woken k (looking j) = refl
marks-woken k (downloading j) = refl
marks-woken k (marking j d) = refl
marks-woken k (finishing j d) = refl
marks-woken k (returned j r) = refl

pub uncounted-map : (k : ℕ) (gs : List Fetching) → uncounted (map (woken k) gs) ≡ uncounted gs
unfolding uncounted
uncounted-map k [] = refl
uncounted-map k (g ∷ gs) = omega (arith, marks-woken k g, uncounted-map k gs)

pub uncounted-append :
    (gs : List Fetching) (k : ℕ) → uncounted (gs ++ looking k ∷ []) ≡ uncounted gs
unfolding uncounted
uncounted-append [] k = refl
uncounted-append (g ∷ gs) k = omega (arith, uncounted-append gs k)
