-- ===== src/Tracks/Paged/Swap.antt =====
-- tracks/paged-list.go: exchanges of two entries, and where the position goes.
use mathlib.Core.List.{Perm}
use mathlib.Core.List.Perm
use go_librespot_termux.Prelude.{
  ℕ, zero, suc, ◌<◌, ◌≡◌, refl, ap, ◌∙◌, List, [], ◌∷◌, Option, some, none, arith, ◌==◌,
  if◌then◌else◌, length, get_elem?, set, length-set, get_elem?-some, sym, Bool-cases, inl, inr, ok,
  >>=-eq-ok, or_panic, or_panic-eq-ok, ok-injective, lt_of_get_elem?, subst,
}
use go_librespot_termux.Tracks.Paged.{Index, moved_to, moved, swap_at}

moved_to-moved_to : (i j p : ℕ) → moved_to i j (moved_to i j p) ≡ p
unfolding moved_to
moved_to-moved_to i j p = ground arith

pub moved-moved : (i j : ℕ) (idx : Index) → moved i j (moved i j idx) ≡ idx
unfolding moved
moved-moved i j none = refl
moved-moved i j (some p) = ap some (moved_to-moved_to i j p)

module _ {ℓ} {B : Type ℓ} where
  get_elem?-set :
      (a : List B) (i j : ℕ) (v : B)
      → i < length a
      → get_elem? (set a i v) j ≡ (if i == j then some v else get_elem? a j)
  get_elem?-set [] i j v h = elim h [ ]
  get_elem?-set (x ∷ a) zero zero v h = refl
  get_elem?-set (x ∷ a) zero (suc j) v h = ground arith
  get_elem?-set (x ∷ a) (suc i) zero v h = ground arith
  get_elem?-set (x ∷ a) (suc i) (suc j) v h = ground (arith, get_elem?-set a i j v)

  -- Two lists with the same entries are equal.
  pub eq_of_get_elem? : (a b : List B) → ((c : ℕ) → get_elem? a c ≡ get_elem? b c) → a ≡ b
  eq_of_get_elem? [] [] h = refl
  eq_of_get_elem? [] (y ∷ b) h = cc (h 0)
  eq_of_get_elem? (x ∷ a) [] h = cc (h 0)
  eq_of_get_elem? (x ∷ a) (y ∷ b) h = cc (h 0, eq_of_get_elem? a b (λ c. h (suc c)))

  -- Writing over an entry trades it for the new one.
  set-perm : (a : List B) (i : ℕ) (x v : B) → get_elem? a i ≡ some x → Perm (x ∷ set a i v) (v ∷ a)
  set-perm [] i x v e = absurd (cc)
  set-perm (y ∷ a) zero x v e = let same : x ≡ y = cc in rw same (Perm.swap v y a)
  set-perm (y ∷ a) (suc i) x v e =
      Perm.trans (Perm.swap y x _) (Perm.trans (Perm.cons y (set-perm a i x v e)) (Perm.swap v y a))

  -- The exchange as a list: entry `c` of the new list is entry `moved_to i j c` of the old.
  pub record Swapped (a : List B) (i j : ℕ) (b : List B) : Type ℓ where
    pub size : length b ≡ length a
    pub entries : (c : ℕ) → get_elem? b c ≡ get_elem? a (moved_to i j c)
    pub perm : Perm b a

  -- The two writes of an exchange, read at `c`.
  exchange_entries :
      (a : List B) (i j c : ℕ) (x y : B)
      → i < length a
      → j < length a
      → get_elem? a i ≡ some x
      → get_elem? a j ≡ some y
      → get_elem? (set (set a i y) j x) c ≡ get_elem? a (moved_to i j c)
  unfolding moved_to
  exchange_entries a i j c x y hi hj ex ey =
      rw
        (
          get_elem?-set (set a i y) j c x (omega (arith, length-set a i y)),
          get_elem?-set a i c y hi,
        )
        (elim (Bool-cases (i == c)) [
          | inl p ↦ elim (Bool-cases (j == c)) [
            | inl q ↦ rw (p, q, ← ex) (ap (get_elem? a) (ground arith))
            | inr q ↦ rw (p, q) (sym ey)
          ]
          | inr p ↦ elim (Bool-cases (j == c)) [
            | inl q ↦ rw (p, q) (sym ex)
            | inr q ↦ rw (p, q) refl
          ]
        ])

  exchange-perm :
      (a : List B) (i j : ℕ) (x y : B)
      → i < length a
      → j < length a
      → get_elem? a i ≡ some x
      → get_elem? a j ≡ some y
      → Perm (set (set a i y) j x) a
  exchange-perm a i j x y hi hj ex ey =
      let kept : get_elem? (set a i y) j ≡ some y =
        get_elem?-set a i j y hi ∙ elim (Bool-cases (i == j)) [ inl p ↦ rw p | inr p ↦ rw p ey ] in
      Perm.cons_inv (Perm.trans (set-perm (set a i y) j y x kept) (set-perm a i x y ex))

  pub swap_at-Swapped :
      (a : List B) (i j : ℕ)
      → i < length a
      → j < length a
      → (b : List B) × (swap_at a i j ≡ ok b) × Swapped a i j b
  unfolding swap_at
  swap_at-Swapped a i j hi hj =
      let (x, ex) = get_elem?-some a i hi in
      let (y, ey) = get_elem?-some a j hj in
      (
        set (set a i y) j x,
        rw (ex, ey),
        record {
          size = length-set (set a i y) j x ∙ length-set a i y;
          entries = λ c. exchange_entries a i j c x y hi hj ex ey;
          perm = exchange-perm a i j x y hi hj ex ey;
        },
      )

  -- Exchanging the same two entries again gives the first list back.
  pub swap_at-swap_at :
      (a b : List B) (i j : ℕ)
      → i < length a
      → j < length a
      → Swapped a i j b
      → swap_at b i j ≡ ok a
  swap_at-swap_at a b i j hi hj s =
      let (c, run, t) = swap_at-Swapped b i j (rw s.size hi) (rw s.size hj) in
      run
      ∙ ap ok (
          eq_of_get_elem? c a (λ k.
            t.entries k
            ∙ (s.entries (moved_to i j k) ∙ ap (get_elem? a) (moved_to-moved_to i j k))))

-- The entry under an index.
abbrev pub entry_at {ℓ} : {B : Type ℓ} → List B → Index → Option B
entry_at a none = none
entry_at a (some p) = get_elem? a p

-- The index follows its entry through an exchange.
pub entry_at-moved {ℓ} :
    {B : Type ℓ} (a b : List B) (i j : ℕ) (idx : Index)
    → Swapped a i j b
    → entry_at b (moved i j idx) ≡ entry_at a idx
unfolding moved
entry_at-moved a b i j none s = refl
entry_at-moved a b i j (some p) s =
    s.entries (moved_to i j p) ∙ ap (get_elem? a) (moved_to-moved_to i j p)

-- An exchange that returns had both indices in range.
pub swap_at-inv {ℓ} :
    {B : Type ℓ} (a b : List B) (i j : ℕ)
    → swap_at a i j ≡ ok b
    → (i < length a) × (j < length a) × Swapped a i j b
unfolding swap_at
swap_at-inv a b i j h =
    let (x, hx, h1) = >>=-eq-ok (or_panic (get_elem? a i)) _ h in
    let (y, hy, h2) = >>=-eq-ok (or_panic (get_elem? a j)) _ h1 in
    let hi = lt_of_get_elem? a i (or_panic-eq-ok (get_elem? a i) hx) in
    let hj = lt_of_get_elem? a j (or_panic-eq-ok (get_elem? a j) hy) in
    let (c, run, s) = swap_at-Swapped a i j hi hj in
    (hi, hj, subst (Swapped a i j) (ok-injective (sym run ∙ h)) s)
