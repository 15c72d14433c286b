-- ===== src/Tracks/Paged/Shuffle.antt =====
-- tracks/paged-list.go: `shuffle` and `unshuffle`, for any generator that keeps the contract of
-- `Intn`: a draw below `n` lies below `n`.
use mathlib.Core.List.{Perm}
use mathlib.Core.List.Perm
use mathlib.Core.Path.{fun_ext}
use go_librespot_termux.Prelude.{
  ℕ, zero, suc, ◌+◌, ◌-◌, ◌<◌, ◌≡◌, refl, ap, ap₂, sym, >>=-ok, >>=_assoc, ◌∙◌, List, [], ◌∷◌, ◌++◌,
  some, true, false, arith, leb, Bool-cases, inl, inr, append_assoc, length, get_elem?,
  length-append, ok, ◌>>=◌, >>=-eq-ok, ok-injective, subst, or_panic,
}
use go_librespot_termux.Tracks.Paged.{
  Index, moved, swap_at, shuffle_loop, draws, unshuffle_round, unshuffle_loop, placed, shuffle,
  unshuffle, PagedList, Item,
}
use go_librespot_termux.Tracks.Paged.Swap.{
  swap_at-inv, entry_at, entry_at-moved, Swapped, swap_at-Swapped, swap_at-swap_at, moved-moved,
}

get_elem?-append_length {ℓ} :
    {B : Type ℓ} (p : List B) (x : B) (q : List B) → get_elem? (p ++ (x ∷ q)) (length p) ≡ some x
get_elem?-append_length [] x q = refl
get_elem?-append_length (y ∷ p) x q = get_elem?-append_length p x q

-- The rounds of `unshuffle` may be split off at the end.
unshuffle_loop-snoc {ℓ} :
    {B : Type ℓ} (r : ℕ) (ex : List ℕ) (i : ℕ) (s : List B × Index)
    → unshuffle_loop (suc r) ex i s ≡ (unshuffle_loop r ex i s >>= unshuffle_round ex (r + i))
unfolding unshuffle_loop
unshuffle_loop-snoc zero ex i s =
    >>=-ok (unshuffle_round ex i s)
    ∙ ap (λ n. unshuffle_round ex n s) {x = i} {y = 0 + i} (omega arith)
unshuffle_loop-snoc (suc r) ex i s =
    ap (◌>>=◌ (unshuffle_round ex i s)) (
      fun_ext (λ t.
        unshuffle_loop-snoc r ex (suc i) t
        ∙ ap (λ n. unshuffle_loop r ex (suc i) t >>= unshuffle_round ex n) {x = r + suc i}
            {y = suc r + i} (omega arith)))
    ∙ sym (>>=_assoc (unshuffle_round ex i s) (unshuffle_loop r ex (suc i)) _)

-- The last round undoes the first exchange.
unshuffle_round-back {ℓ} :
    {B : Type ℓ} (p q : List ℕ) (i j : ℕ) (a b : List B) (idx : Index)
    → length p + i + 1 ≡ length a
    → j < length a
    → Swapped a i j b
    → unshuffle_round (p ++ (j ∷ q)) i (b, moved i j idx) ≡ ok (a, idx)
unfolding unshuffle_round
unshuffle_round-back p q i j a b idx e hj s =
    let at' : length b - i - 1 ≡ length p = omega (arith, s.size) in
    rw (at', get_elem?-append_length p j q, swap_at-swap_at a b i j (omega arith) hj s, moved-moved)

unshuffle_loop-back {ℓ} :
    {B : Type ℓ} (k : ℕ) (p q : List ℕ) (j : ℕ) (a a1 b : List B) (idx idx' : Index)
    → length p + suc k + 1 ≡ length a
    → j < length a
    → Swapped a (suc k) j a1
    → unshuffle_loop k ((p ++ (j ∷ [])) ++ q) 1 (b, idx') ≡ ok (a1, moved (suc k) j idx)
    → unshuffle_loop (suc k) (p ++ (j ∷ q)) 1 (b, idx') ≡ ok (a, idx)
unshuffle_loop-back k p q j a a1 b idx idx' e hj s h =
    let ex = p ++ (j ∷ q) in
    unshuffle_loop-snoc k ex 1 (b, idx')
    ∙ (ap (λ m. m >>= unshuffle_round ex (k + 1))
          (ap (λ x. unshuffle_loop k x 1 (b, idx')) (sym (append_assoc p (j ∷ []) q)) ∙ h)
        ∙ (ap (λ n. unshuffle_round ex n (a1, moved (suc k) j idx)) {x = k + 1} {y = suc k}
              (omega arith)
            ∙ unshuffle_round-back p q (suc k) j a a1 idx e hj s))

unshuffle_round-any {ℓ} :
    {B : Type ℓ} (ex : List ℕ) (i : ℕ) (b c : List B) (idx idx' : Index)
    → unshuffle_round ex i (b, idx) ≡ ok (c, idx')
    → (q : Index)
    → (q' : Index) × (unshuffle_round ex i (b, q) ≡ ok (c, q')) × (entry_at c q' ≡ entry_at b q)
unfolding unshuffle_round
unshuffle_round-any ex i b c idx idx' h q =
    let (j, hj, h1) = >>=-eq-ok (or_panic (get_elem? ex (length b - i - 1))) _ h in
    let (d, hd, h2) = >>=-eq-ok (swap_at b i j) _ h1 in
    let same : d ≡ c = cc (ok-injective h2) in
    let (hi, hj', s) = swap_at-inv b d i j hd in
    (
      moved i j q,
      rw (hj, hd, same),
      subst (λ x. entry_at x (moved i j q) ≡ entry_at b q) same (entry_at-moved b d i j q s),
    )

-- What `unshuffle` makes of the list does not hang on the position, which follows its entry.
unshuffle_loop-any {ℓ} :
    {B : Type ℓ} (r : ℕ) (ex : List ℕ) (i : ℕ) (b a : List B) (idx idx' : Index)
    → unshuffle_loop r ex i (b, idx) ≡ ok (a, idx')
    → (q : Index)
    → (q' : Index) × (unshuffle_loop r ex i (b, q) ≡ ok (a, q')) × (entry_at a q' ≡ entry_at b q)
unfolding unshuffle_loop
unshuffle_loop-any zero ex i b a idx idx' h q =
    let same : b ≡ a = cc (ok-injective h) in (q, rw same, rw same)
unshuffle_loop-any (suc r) ex i b a idx idx' h q =
    let ((c, mid), h1, h2) = >>=-eq-ok (unshuffle_round ex i (b, idx)) _ h in
    let (q1, r1, e1) = unshuffle_round-any ex i b c idx mid h1 q in
    let (q2, r2, e2) = unshuffle_loop-any r ex (suc i) c a mid idx' h2 q1 in (q2, rw r1 r2, e2 ∙ e1)

module _ {ℓ κ} {B : Type ℓ} {G : Type κ} (intn : ℕ → G → ℕ × G) where
  -- What a shuffle promises: the same entries in another order, with the entry under the index
  -- carried along, and rounds of `unshuffle` that lead back.
  pub record Shuffled (k : ℕ) (p : List ℕ) (g : G) (a : List B) (idx : Index) (b : List B)
      (idx' : Index) : Type ℓ where
    pub size : length b ≡ length a
    pub perm : Perm b a
    pub current : entry_at b idx' ≡ entry_at a idx
    pub back : unshuffle_loop k (p ++ draws intn k g) 1 (b, idx') ≡ ok (a, idx)

  shuffle_loop-Shuffled :
      ((n : ℕ) (g : G) → 0 < n → (intn n g).0 < n)
      → (k : ℕ) (p : List ℕ) (a : List B) (idx : Index) (g : G) → length p + k + 1 ≡ length a
      → (b : List B) × (idx' : Index) × (shuffle_loop intn k a idx g ≡ ok (b, idx'))
        × Shuffled k p g a idx b idx'
  unfolding shuffle_loop unshuffle_loop draws
  shuffle_loop-Shuffled contract zero p a idx g e =
      (a, idx, refl, record { size = refl; perm = Perm.refl a; current = refl; back = refl })
  shuffle_loop-Shuffled contract (suc k) p a idx g e =
      let j = (intn (suc k + 1) g).0 in
      let g' = (intn (suc k + 1) g).1 in
      let hj = contract (suc k + 1) g (omega arith) in
      let (a1, run, s) = swap_at-Swapped a (suc k) j (omega arith) (omega arith) in
      let (b, idx', rest, t) =
        shuffle_loop-Shuffled contract k (p ++ (j ∷ [])) a1 (moved (suc k) j idx) g'
          (omega (arith, s.size, length-append p (j ∷ []))) in
      (
        b,
        idx',
        rw run rest,
        record {
          size = t.size ∙ s.size;
          perm = Perm.trans t.perm s.perm;
          current = t.current ∙ entry_at-moved a a1 (suc k) j idx s;
          back =
              unshuffle_loop-back k p (draws intn k g') j a a1 b idx idx' (omega arith)
                (omega arith) s t.back;
        },
      )

module _ {ℓ κ} {A : Type ℓ} {G : Type κ} (intn : ℕ → G → ℕ × G) where
  shuffle-short : (g : G) (l : PagedList A) → leb (length l.list) 1 ≡ true → shuffle intn g l ≡ ok l
  unfolding shuffle
  shuffle-short g l e = rw e

  unshuffle-short :
      (g : G) (l : PagedList A) → leb (length l.list) 1 ≡ true → unshuffle intn g l ≡ ok l
  unfolding unshuffle
  unshuffle-short g l e = rw e

  shuffle-long :
      (g : G) (l : PagedList A) (b : List (Item A)) (idx : Index)
      → leb (length l.list) 1 ≡ false
      → shuffle_loop intn (length l.list - 1) l.list l.pos g ≡ ok (b, idx)
      → shuffle intn g l ≡ ok (placed l (b, idx))
  unfolding shuffle
  shuffle-long g l b idx e run = rw (e, run)

  unshuffle-long :
      (g : G) (l : PagedList A) (b : List (Item A)) (idx : Index)
      → leb (length l.list) 1 ≡ false
      → length b ≡ length l.list
      → unshuffle_loop (length l.list - 1) (draws intn (length l.list - 1) g) 1 (b, idx)
        ≡ ok (l.list, l.pos)
      → unshuffle intn g (placed l (b, idx)) ≡ ok l
  unfolding unshuffle placed
  unshuffle-long g l b idx e size run = rw (size, e, run)

  -- With a generator that keeps the contract of `Intn`, `shuffle` returns on a list of any length.
  -- The result holds the same entries in some order, the position is still on the entry that it was
  -- on, and `unshuffle` from the same generator state gives back the list and the position before.
  pub unshuffle-shuffle :
      ((n : ℕ) (g : G) → 0 < n → (intn n g).0 < n)
      → (g : G) (l : PagedList A)
      → (m : PagedList A) × (shuffle intn g l ≡ ok m)
        × Perm m.list l.list
        × (entry_at m.list m.pos ≡ entry_at l.list l.pos)
        × (unshuffle intn g m ≡ ok l)
  unshuffle-shuffle contract g l = elim (Bool-cases (leb (length l.list) 1)) [
    | inl e ↦ (l, shuffle-short g l e, Perm.refl l.list, refl, unshuffle-short g l e)
    | inr e ↦
        let (b, idx, run, s) =
          shuffle_loop-Shuffled intn contract (length l.list - 1) [] l.list l.pos g
            (ground arith) in
        let kept : Perm (placed l (b, idx)).list l.list = unfold placed in s.perm in
        let current : entry_at (placed l (b, idx)).list (placed l (b, idx)).pos
            ≡ entry_at l.list l.pos =
          unfold placed in s.current in
        (
          placed l (b, idx),
          shuffle-long g l b idx e run,
          kept,
          current,
          unshuffle-long g l b idx e s.size s.back,
        )
  ]

  -- Where `unshuffle` takes one position of the list to the list before, it takes any position there,
  -- and keeps it on its entry.
  pub unshuffle-any :
      (g : G) (m l : PagedList A) (q : Index)
      → unshuffle intn g m ≡ ok l
      → (q' : Index) × (unshuffle intn g (record m { pos = q }) ≡ ok (record l { pos = q' }))
        × (entry_at l.list q' ≡ entry_at m.list q)
  unfolding unshuffle placed
  unshuffle-any g m l q h = elim (Bool-cases (leb (length m.list) 1)) [
    | inl e ↦
        let same : m ≡ l = ok-injective (rw e at h) in
        (
          q,
          rw e (ap (λ (x : PagedList A). ok (record x { pos = q })) same),
          ap (λ (x : PagedList A). entry_at x.list q) (sym same),
        )
    | inr e ↦
        let r = length m.list - 1 in
        let ((a, idx), h1, h2) =
          >>=-eq-ok (unshuffle_loop r (draws intn r g) 1 (m.list, m.pos)) _ (rw e at h) in
        let (q', run, entry) = unshuffle_loop-any r (draws intn r g) 1 m.list a m.pos idx h1 q in
        let same : a ≡ l.list = ap (λ (x : PagedList A). x.list) (ok-injective h2) in
        let calls : m.calls ≡ l.calls = ap (λ (x : PagedList A). x.calls) (ok-injective h2) in
        (
          q',
          rw (e, run) (ap₂ (λ x n. ok (record { list = x; pos = q'; calls = n })) same calls),
          subst (λ x. entry_at x q' ≡ entry_at m.list q) same entry,
        )
  ]
