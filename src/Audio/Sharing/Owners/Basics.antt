-- ===== src/Audio/Sharing/Owners/Basics.antt =====
-- audio/chunked-reader.go: who downloads a chunk and who waits for it, and the entries of the list of goroutines.
use go_librespot_termux.Prelude.{
  ℕ, ◌<◌, ◌≡◌, ◌≢◌, refl, ap, sym, ◌∙◌, Bool, true, List, none, some, Bool-cases, inl, inr, ◌==◌,
  ==_iff, if_true, if_false, length, get_elem?, set, get_elem?-set_self, get_elem?-set_ne,
}
use go_librespot_termux.Audio.{Chunk}
use go_librespot_termux.Audio.Sharing.{Fetching, waiting, downloading, put_flag}

-- Whoever waits for a chunk, waits for a download of it; a chunk that is downloaded is not there yet.
abbrev pub IsBacked : (ℕ → Bool) → List Chunk → Fetching → Type 0
IsBacked f cs (waiting k) = f k ≡ true
IsBacked f cs (downloading k) = (f k ≡ true) × (get_elem? cs k ≡ some none)
IsBacked f cs g = Unit {0}

pub record IsOwned (gs : List Fetching) (f : ℕ → Bool) (cs : List Chunk) : Type 0 where
  pub backed : (i : ℕ) (g : Fetching) → get_elem? gs i ≡ some g → IsBacked f cs g
  pub sole :
      (i j k : ℕ)
      → get_elem? gs i ≡ some (downloading k)
      → get_elem? gs j ≡ some (downloading k)
      → i ≡ j
  pub owner : (k : ℕ) → f k ≡ true → (i : ℕ) × (get_elem? gs i ≡ some (downloading k))

abbrev pub NotOwner : Fetching → Type 0
NotOwner g = (k : ℕ) → g ≢ downloading k

-- An entry of a list with one replaced is the new one, or one of the others.
pub data FromSet (gs : List Fetching) (i : ℕ) (g : Fetching) (j : ℕ) (h : Fetching) : Type 0 where
  new : i ≡ j → h ≡ g → FromSet gs i g j h
  old : i ≢ j → get_elem? gs j ≡ some h → FromSet gs i g j h

pub from_set :
    (gs : List Fetching) (i : ℕ) (g : Fetching) (j : ℕ) (h : Fetching)
    → i < length gs
    → get_elem? (set gs i g) j ≡ some h
    → FromSet gs i g j h
from_set gs i g j h lt e = elim (Bool-cases (i == j)) [
  | inl y ↦
      let same = (==_iff i j).0 y in
      let got : some g ≡ some h =
        sym (get_elem?-set_self gs i g lt) ∙ (ap (get_elem? (set gs i g)) same ∙ e) in
      new same (cc)
  | inr n ↦
      let other : i ≢ j = λ s. absurd (cc (sym n ∙ (==_iff i j).1 s)) in
      old other (sym (get_elem?-set_ne gs g other) ∙ e)
]

pub still_at :
    (gs : List Fetching) (i : ℕ) (g h new' : Fetching) (j : ℕ)
    → get_elem? gs i ≡ some h
    → h ≢ g
    → get_elem? gs j ≡ some g
    → get_elem? (set gs i new') j ≡ some g
still_at gs i g h new' j at' ne e =
    get_elem?-set_ne gs new'
      (λ (s : i ≡ j). let both : some h ≡ some g = sym at' ∙ (ap (get_elem? gs) s ∙ e) in ne (cc))
    ∙ e

pub put_flag-same : (f : ℕ → Bool) (k : ℕ) (b : Bool) → put_flag f k b k ≡ b
put_flag-same f k b = if_true (k == k) _ _ ((==_iff k k).1 refl)

pub put_flag-other : (f : ℕ → Bool) (k : ℕ) (b : Bool) (j : ℕ) → k ≢ j → put_flag f k b j ≡ f j
put_flag-other f k b j n = elim (Bool-cases (k == j)) [
  | inl y ↦ absurd (n ((==_iff k j).0 y))
  | inr z ↦ if_false (k == j) _ _ z
]
