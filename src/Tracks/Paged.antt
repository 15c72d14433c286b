-- ===== src/Tracks/Paged.antt =====
-- tracks/paged-list.go: a list that is fetched page by page, its position and its iterators.
-- An `int` that is -1 or a natural number is an `Index`. The resolver behind the list is a
-- parameter: what it answers may depend on how many calls were made before, so a deadline that
-- passes is an answer like any other.
pub mod Fetch
pub mod Swap
pub mod Shuffle
use go_librespot_termux.Prelude.{
  ℕ, zero, suc, ◌+◌, ◌-◌, Bool, true, false, List, [], ◌∷◌, ◌++◌, Option, none, some, leb, ◌==◌,
  if◌then◌else◌, length, get_elem?, set, Run, ok, panic, out_of_fuel, ◌>>=◌, or_panic, map,
}

abbrev pub Index : Type 0
Index = Option ℕ

-- `i + 1`
abbrev pub after : Index → ℕ
after none = 0
after (some n) = suc n

pub record Item {ℓ} (A : Type ℓ) : Type ℓ where
  pub item : A
  pub page_idx : Index
  pub item_idx : Index

-- `failed` is any error of the resolver but `io.EOF`, by a code of its own.
pub data FetchError : Type 0 where
  eof : FetchError
  failed : ℕ → FetchError
  empty_page : ℕ → FetchError

pub data PageAnswer {ℓ} (A : Type ℓ) : Type ℓ where
  page : List A → PageAnswer A
  page_err : FetchError → PageAnswer A

-- `PageResolver`: the answer to the call with this number, for this page.
abbrev pub Pages {ℓ} : Type ℓ → Type ℓ
Pages A = ℕ → ℕ → PageAnswer A

pub record PagedList {ℓ} (A : Type ℓ) : Type ℓ where
  pub list : List (Item A)
  pub pos : Index
  pub calls : ℕ

-- The page being fetched, the index that the iterator wanted, and the error.
pub data IterError : Type 0 where
  next_failed : ℕ → ℕ → FetchError → IterError

pub record Iter : Type 0 where
  pub at : Index
  pub err : Option IterError

pub data MoveError : Type 0 where
  no_more_pages : ℕ → MoveError
  start_failed : FetchError → MoveError

unfoldable pub iter_start : Iter
iter_start = record { at = none; err = none }

module _ {ℓ} {A : Type ℓ} where
  unfoldable pub new_paged : PagedList A
  new_paged = record { list = []; pos = none; calls = 0 }

  unfoldable pub last_page : List (Item A) → Index
  last_page [] = none
  last_page (x ∷ []) = x.page_idx
  last_page (x ∷ y ∷ xs) = last_page (y ∷ xs)

  unfoldable pub numbered : ℕ → ℕ → List A → List (Item A)
  numbered p k [] = []
  numbered p k (x ∷ xs) =
      record { item = x; page_idx = some p; item_idx = some k } ∷ numbered p (suc k) xs

  -- `fetchNextPage`: the new list, the page asked for, and the error.
  unfoldable pub fetch_next_page : Pages A → PagedList A → PagedList A × ℕ × Option FetchError
  unfolding last_page
  fetch_next_page pages l =
      let idx = after (last_page l.list) in
      let called = record l { calls = l.calls + 1 } in
      elim (pages l.calls idx) [
        | page [] ↦ (called, idx, some (empty_page idx))
        | page (x ∷ xs) ↦ (record called { list = l.list ++ numbered idx 0 (x ∷ xs) }, idx, none)
        | page_err e ↦ (called, idx, some e)
      ]

  unfoldable pub iter_here : PagedList A → Run Iter
  iter_here l = elim l.pos [ none ↦ panic | some p ↦ ok (record { at = some p; err = none }) ]

  -- The body of the loop of `next`, given the loop itself.
  unfoldable pub after_fetch :
      (PagedList A → Run (PagedList A × Iter × Bool))
      → Iter
      → PagedList A × ℕ × Option FetchError
      → Run (PagedList A × Iter × Bool)
  after_fetch again i (l, idx, none) = again l
  after_fetch again i (l, idx, some eof) = ok (l, record i { err = none }, false)
  after_fetch again i (l, idx, some e) =
      ok (l, record i { err = some (next_failed (after i.at) idx e) }, false)

  unfoldable pub next_loop : Pages A → ℕ → PagedList A → Iter → Run (PagedList A × Iter × Bool)
  unfolding after_fetch
  next_loop pages zero l i = out_of_fuel
  next_loop pages (suc f) l i =
      let more = after_fetch (λ l'. next_loop pages f l' i) i (fetch_next_page pages l) in
      if leb (length l.list) (after i.at)
      then more
      else ok (l, record { at = some (after i.at); err = none }, true)

  -- `next`: each page that is fetched adds an item, so the fuel covers the missing ones.
  unfoldable pub next : Pages A → PagedList A → Iter → Run (PagedList A × Iter × Bool)
  unfolding next_loop
  next pages l i = next_loop pages (suc (after i.at + 1 - length l.list)) l i

  unfoldable pub get : PagedList A → Index → Run (Item A)
  get l none = panic
  get l (some p) = or_panic (get_elem? l.list p)

  unfoldable pub move_fetched : PagedList A × ℕ × Option FetchError → PagedList A × Option MoveError
  move_fetched (l, idx, none) = (record l { pos = some 0 }, none)
  move_fetched (l, idx, some eof) = (l, some (no_more_pages idx))
  move_fetched (l, idx, some e) = (l, some (start_failed e))

  unfoldable pub move_start : Pages A → PagedList A → PagedList A × Option MoveError
  move_start pages l =
      if length l.list == 0
      then move_fetched (fetch_next_page pages l)
      else (record l { pos = some 0 }, none)

  unfoldable pub move_injected : A → PagedList A → PagedList A
  move_injected a l = record l {
    list = record { item = a; page_idx = none; item_idx = none } ∷ l.list;
    pos = some 0;
  }

  unfoldable pub move : PagedList A → Iter → Run (PagedList A)
  move l i = elim i.err [ none ↦ ok (record l { pos = i.at }) | some e ↦ panic ]

  unfoldable pub clear : PagedList A → PagedList A
  clear l = record l { list = []; pos = none }

  -- `resident`: the items loaded so far.
  unfoldable pub resident : PagedList A → List A
  resident l = map (λ x. x.item) l.list

-- Where an index goes when the entries `i` and `j` change places.
unfoldable pub moved_to : ℕ → ℕ → ℕ → ℕ
moved_to i j p = if i == p then j else if j == p then i else p

unfoldable pub moved : ℕ → ℕ → Index → Index
unfolding moved_to
moved i j none = none
moved i j (some p) = some (moved_to i j p)

-- `a[i], a[j] = a[j], a[i]`
unfoldable pub swap_at {ℓ} : {B : Type ℓ} → List B → ℕ → ℕ → Run (List B)
swap_at a i j = do
  x ← or_panic (get_elem? a i)
  y ← or_panic (get_elem? a j)
  ok (set (set a i y) j x)

unfoldable pub swap {ℓ} : {A : Type ℓ} → ℕ → ℕ → PagedList A → Run (PagedList A)
swap i j l = do b ← swap_at l.list i j; ok (record l { list = b; pos = moved i j l.pos })

-- A generator is a state with `Intn`, a parameter.
module _ {ℓ κ} {B : Type ℓ} {G : Type κ} (intn : ℕ → G → ℕ × G) where
  -- The `for` of `shuffle`, from index `i` down to 1.
  unfoldable pub shuffle_loop : ℕ → List B → Index → G → Run (List B × Index)
  shuffle_loop zero a idx g = ok (a, idx)
  shuffle_loop (suc k) a idx g =
      let drawn = intn (suc k + 1) g in
      swap_at a (suc k) drawn.0 >>= λ b. shuffle_loop k b (moved (suc k) drawn.0 idx) drawn.1

-- The exchanges of `unshuffle`: the draws for a list of `k + 1` entries.
unfoldable pub draws {κ} : {G : Type κ} → (ℕ → G → ℕ × G) → ℕ → G → List ℕ
draws intn zero g = []
draws intn (suc k) g = let drawn = intn (suc k + 1) g in drawn.0 ∷ draws intn k drawn.1

-- One round of the second `for` of `unshuffle`, and its `r` rounds from `i` on.
unfoldable pub unshuffle_round {ℓ} :
    {B : Type ℓ} → List ℕ → ℕ → List B × Index → Run (List B × Index)
unshuffle_round ex i (a, idx) = do
  j ← or_panic (get_elem? ex (length a - i - 1))
  b ← swap_at a i j
  ok (b, moved i j idx)

unfoldable pub unshuffle_loop {ℓ} :
    {B : Type ℓ} → ℕ → List ℕ → ℕ → List B × Index → Run (List B × Index)
unfolding unshuffle_round
unshuffle_loop zero ex i s = ok s
unshuffle_loop (suc r) ex i s = unshuffle_round ex i s >>= unshuffle_loop r ex (suc i)

unfoldable pub placed {ℓ} : {A : Type ℓ} → PagedList A → List (Item A) × Index → PagedList A
placed l (a, idx) = record l { list = a; pos = idx }

module _ {ℓ κ} {A : Type ℓ} {G : Type κ} (intn : ℕ → G → ℕ × G) where
  unfoldable pub shuffle : G → PagedList A → Run (PagedList A)
  unfolding shuffle_loop placed
  shuffle g l =
      if leb (length l.list) 1
      then ok l
      else shuffle_loop intn (length l.list - 1) l.list l.pos g >>= λ s. ok (placed l s)

  unfoldable pub unshuffle : G → PagedList A → Run (PagedList A)
  unfolding draws unshuffle_loop placed
  unshuffle g l =
      if leb (length l.list) 1
      then ok l
      else unshuffle_loop (length l.list - 1) (draws intn (length l.list - 1) g) 1 (l.list, l.pos)
        >>= λ s. ok (placed l s)

-- `prev` of the iterator.
unfoldable pub prev : Iter → Run (Iter × Bool)
prev i = elim i.at [
  | none ↦ panic
  | some zero ↦ ok (record i { err = none }, false)
  | some (suc p) ↦ ok (record { at = some p; err = none }, true)
]
