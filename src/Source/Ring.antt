-- ===== src/Source/Ring.antt =====
-- player/source.go: the lookahead ring as a queue of samples.
pub mod Pop
use go_librespot_termux.Prelude.{
  ℕ, zero, suc, ◌+◌, ◌-◌, ◌*◌, ◌/◌, ◌%◌, ◌≡◌, ◌≢◌, ◌≤◌, ◌<◌, refl, sym, ap, ap₂, ◌∙◌, subst, Bool,
  true, false, List, [], ◌∷◌, ◌++◌, append_assoc, append-nil, Option, none, some, arith, ltb,
  ltb→lt, ltb-false→le, Bool-cases, Option-cases, inl, inr, if_true, if_false, if◌then◌else◌,
  length, length-append, length-set, length-take, length-drop, get_elem?, get_elem?-set_self,
  get_elem?-set_ne, get_elem?-some, set, take, drop, min, Run, ok, panic, out_of_fuel, ◌>>=◌,
}
use native.Mathlib.Nat.{mod-add-mod, mod-eq_of_lt, mod-eq-sub-mod, add-zero}
use native.Mathlib.Decide.{dec_lt}
use go_librespot_termux.Source.{
  channels, Switching, free_start, free_chunk, overwrite, pop_loop, pop_chunk,
}

-- Fewer than `size` steps round the ring do not come back to the start.
add-mod-ne : (size h k : ℕ) → h < size → suc k < size → (h + suc k) % size ≢ h
add-mod-ne size h k hh hk = elim (dec_lt (h + suc k) size) [
  | yes p ↦ λ e. omega (arith, mod-eq_of_lt p, e)
  | no p ↦ λ e. omega (
    arith,
    mod-eq-sub-mod {n = h + suc k} {m = size} (omega arith),
    mod-eq_of_lt {n = h + suc k - size} {m = size} (omega arith),
    e,
  )
]

mod_step : (size h n : ℕ) → (h + suc n) % size ≡ ((h + 1) % size + n) % size
mod_step size h n =
    ap (λ k. k % size) {x = h + suc n} {y = h + 1 + n} (omega arith)
    ∙ sym (mod-add-mod (h + 1) size n)

pub mod_in : (size a : ℕ) → 0 < size → a % size < size
mod_in size a h = grind arith

next_place : (size h n i : ℕ) → i + 1 < size → i ≡ (h + n) % size → i + 1 ≡ (h + suc n) % size
next_place size h n i lt e =
    sym (mod-eq_of_lt lt)
    ∙ (ap (λ k. (k + 1) % size) e
        ∙ (mod-add-mod (h + n) size 1
            ∙ ap (λ k. k % size) {x = h + n + 1} {y = h + suc n} (omega arith)))

module _ {Sample : Type 0} where
  -- The `n` samples from index `h` on, going round at `size`.
  abbrev pub window : List Sample → ℕ → ℕ → ℕ → List Sample
  window buf size h zero = []
  window buf size h (suc n) =
      let rest = window buf size ((h + 1) % size) n in
      elim (get_elem? buf h) [ none ↦ rest | some x ↦ x ∷ rest ]

  abbrev pub contents : Switching Sample → List Sample
  contents s = window s.buf (length s.buf) s.buf_start s.buf_len

  -- The ring is in order.
  pub record IsRing (s : Switching Sample) : Type 0 where
    pub start_in : s.buf_start < length s.buf
    pub len_in : s.buf_len ≤ length s.buf

  window-some :
      (buf : List Sample) (size h n : ℕ) (x : Sample)
      → get_elem? buf h ≡ some x
      → window buf size h (suc n) ≡ x ∷ window buf size ((h + 1) % size) n
  window-some buf size h n x e =
      ap
        (λ o. elim o [
          | none ↦ window buf size ((h + 1) % size) n
          | some y ↦ y ∷ window buf size ((h + 1) % size) n
        ])
        e

  pub length-window :
      (buf : List Sample) (h n : ℕ) → h < length buf → length (window buf (length buf) h n) ≡ n
  length-window buf h zero lt = refl
  length-window buf h (suc n) lt =
      let (x, e) = get_elem?-some buf h lt in
      ap length (window-some buf (length buf) h n x e)
      ∙ ap suc (length-window buf ((h + 1) % length buf) n (grind arith))

  pub length-contents : (s : Switching Sample) → IsRing s → length (contents s) ≡ s.buf_len
  length-contents s r = length-window s.buf s.buf_start s.buf_len r.start_in

  drop-get :
      (buf : List Sample) (h : ℕ) (x : Sample)
      → get_elem? buf h ≡ some x
      → drop h buf ≡ x ∷ drop (suc h) buf
  drop-get [] h x e = absurd (cc)
  drop-get (y ∷ buf) zero x e = let z : y ≡ x = cc in ap (λ a. a ∷ buf) z
  drop-get (y ∷ buf) (suc h) x e = drop-get buf h x e

  window-at :
      (buf : List Sample) (size : ℕ) {h h' n n' : ℕ}
      → h ≡ h'
      → n ≡ n'
      → window buf size h n ≡ window buf size h' n'
  window-at buf size p q = ap₂ (window buf size) p q

  -- A piece of the list that does not go round is the start of a window.
  pub window-piece :
      (buf : List Sample) (h k m : ℕ)
      → h < length buf
      → h + k ≤ length buf
      → window buf (length buf) h (k + m)
        ≡ take k (drop h buf) ++ window buf (length buf) ((h + k) % length buf) m
  window-piece buf h zero m lt le = window-at buf (length buf) (grind arith) (omega arith)
  window-piece buf h (suc k) m lt le =
      let (x, e) = get_elem?-some buf h lt in
      let tail : window buf (length buf) ((h + 1) % length buf) (k + m)
          ≡ take k (drop (suc h) buf) ++ window buf (length buf) ((h + suc k) % length buf) m =
        (elim (dec_lt (h + 1) (length buf)) [
          | yes p ↦
              window-at buf (length buf) {h' = suc h} (mod-eq_of_lt p ∙ omega arith) refl
              ∙ (window-piece buf (suc h) k m (omega arith) (omega arith)
                  ∙ ap (λ w. take k (drop (suc h) buf) ++ w)
                      (window-at buf (length buf)
                        (ap (λ a. a % length buf) {x = suc h + k} {y = h + suc k} (omega arith))
                        refl))
          | no p ↦
              window-at buf (length buf) {n' = m}
                (ap (λ a. a % length buf) {x = h + 1} {y = h + suc k} (omega arith)) (omega arith)
              ∙ ap
                  (λ a.
                    take a (drop (suc h) buf)
                    ++ window buf (length buf) ((h + suc k) % length buf) m)
                  {x = 0} {y = k} (omega arith)
        ]) in
      window-at buf (length buf) {n' = suc (k + m)} refl (omega arith)
      ∙ (window-some buf (length buf) h (k + m) x e
          ∙ (ap (◌∷◌ x) tail
              ∙ ap (λ d. take (suc k) d ++ window buf (length buf) ((h + suc k) % length buf) m)
                  (sym (drop-get buf h x e))))

  -- Writing just past a window makes it longer by what is written.
  window-set :
      (buf : List Sample) (size : ℕ) (x : Sample) (n h i : ℕ)
      → size ≡ length buf
      → h < size
      → n < size
      → i ≡ (h + n) % size
      → window (set buf i x) size h (suc n) ≡ window buf size h n ++ x ∷ []
  window-set buf size x zero h i s hh hn e =
      let same : i ≡ h =
        e ∙ (ap (λ a. a % size) {x = h + 0} {y = h} (omega arith) ∙ mod-eq_of_lt hh) in
      window-some (set buf i x) size h 0 x (
        ap (get_elem? (set buf i x)) (sym same)
        ∙ get_elem?-set_self buf i x (omega (arith, same, s)))
  window-set buf size x (suc n) h i s hh hn e =
      let (y, g) = get_elem?-some buf h (omega arith) in
      let shift : i ≡ ((h + 1) % size + n) % size = e ∙ mod_step size h n in
      window-some (set buf i x) size h (suc n) y
        (get_elem?-set_ne buf x (λ z. add-mod-ne size h n hh hn (sym e ∙ z)) ∙ g)
      ∙ (ap (◌∷◌ y) (
            window-set buf size x n ((h + 1) % size) i s (mod_in size (h + 1) (omega arith))
              (omega arith) shift)
          ∙ ap (λ w. w ++ x ∷ []) (sym (window-some buf size h n y g)))

  pub window-overwrite :
      (buf : List Sample) (size : ℕ) (xs : List Sample) (n h i : ℕ)
      → size ≡ length buf
      → h < size
      → n + length xs ≤ size
      → i + length xs ≤ size
      → (0 < length xs → i ≡ (h + n) % size)
      → (window (overwrite buf i xs) size h (n + length xs) ≡ window buf size h n ++ xs)
        × (length (overwrite buf i xs) ≡ size)
  window-overwrite buf size [] n h i s hh hn hi e =
      (window-at buf size refl (omega arith) ∙ sym (append-nil (window buf size h n)), sym s)
  window-overwrite buf size (x ∷ xs) n h i s hh hn hi e =
      let one = window-set buf size x n h i s hh (omega arith) (e (omega arith)) in
      let (rest, size') =
        window-overwrite (set buf i x) size xs (suc n) h (i + 1) (s ∙ sym (length-set buf i x)) hh
          (omega arith) (omega arith)
          (λ p. next_place size h n i (omega arith) (e (omega arith))) in
      (
        window-at (overwrite (set buf i x) (i + 1) xs) size {h' = h} {n' = suc n + length xs} refl
              (omega arith)
            ∙ (rest ∙ (ap (λ w. w ++ xs) one ∙ append_assoc (window buf size h n) (x ∷ []) xs)),
        size',
      )

  pub window-split :
      (buf : List Sample) (size h k m : ℕ)
      → h < size
      → window buf size h (k + m) ≡ window buf size h k ++ window buf size ((h + k) % size) m
  window-split buf size h zero m lt =
      window-at buf size
        (sym (ap (λ a. a % size) {x = h + 0} {y = h} (omega arith) ∙ mod-eq_of_lt lt)) (omega arith)
  window-split buf size h (suc k) m lt =
      let ih =
        window-split buf size ((h + 1) % size) k m (mod_in size (h + 1) (omega arith))
        ∙ ap (λ w. window buf size ((h + 1) % size) k ++ w)
            (window-at buf size (sym (mod_step size h k)) refl) in
      window-at buf size {n' = suc (k + m)} refl (omega arith)
      ∙ (elim (Option-cases (get_elem? buf h)) [
        | inl e ↦
            skips buf size h (k + m) e
            ∙ (ih
                ∙ ap (λ w. w ++ window buf size ((h + suc k) % size) m)
                    (sym (skips buf size h k e)))
        | inr (x, e) ↦
            window-some buf size h (k + m) x e
            ∙ (ap (◌∷◌ x) ih
                ∙ ap (λ w. w ++ window buf size ((h + suc k) % size) m)
                    (sym (window-some buf size h k x e)))
      ])
    where
      skips :
          (buf : List Sample) (size h n : ℕ)
          → get_elem? buf h ≡ none
          → window buf size h (suc n) ≡ window buf size ((h + 1) % size) n
      skips buf size h n e =
          ap
            (λ o. elim o [
              | none ↦ window buf size ((h + 1) % size) n
              | some y ↦ y ∷ window buf size ((h + 1) % size) n
            ])
            e

  -- The ring without its `k` oldest samples.
  abbrev pub advance : ℕ → Switching Sample → Switching Sample
  advance k s = record s { buf_start = (s.buf_start + k) % length s.buf; buf_len = s.buf_len - k }

  abbrev pub oldest : ℕ → Switching Sample → List Sample
  oldest k s = window s.buf (length s.buf) s.buf_start k

  pub advance-IsRing : (k : ℕ) (s : Switching Sample) → IsRing s → IsRing (advance k s)
  advance-IsRing k s r = record {
    start_in = mod_in (length s.buf) (s.buf_start + k) (omega (arith, r.start_in));
    len_in = omega (arith, r.len_in);
  }

  pub contents-advance :
      (k : ℕ) (s : Switching Sample)
      → IsRing s
      → k ≤ s.buf_len
      → contents s ≡ oldest k s ++ contents (advance k s)
  contents-advance k s r h =
      window-at s.buf (length s.buf) {n' = k + (s.buf_len - k)} refl (omega arith)
      ∙ window-split s.buf (length s.buf) s.buf_start k (s.buf_len - k) r.start_in
