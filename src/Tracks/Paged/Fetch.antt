-- ===== src/Tracks/Paged/Fetch.antt =====
-- tracks/paged-list.go: `fetchNextPage` and the walk of an iterator.
pub mod Outcomes
use go_librespot_termux.Prelude.{
  ℕ, zero, suc, ◌+◌, ◌-◌, ◌≤◌, ◌<◌, ◌≡◌, refl, ap, sym, ◌∙◌, inl, inr, Bool, true, false, List, [],
  ◌∷◌, ◌++◌, Option, some, none, arith, leb, Bool-cases, leb→le, leb-false→lt, lt→leb-false, le→leb,
  append-nil, append_assoc, length, length-append, Run, ok, Returns,
}
use go_librespot_termux.Tracks.Paged.{
  after, Item, FetchError, eof, empty_page, PageAnswer, page, page_err, Pages, PagedList, Iter,
  next_failed, last_page, numbered, fetch_next_page, after_fetch, next_loop, next,
}

module _ {ℓ} {A : Type ℓ} where
  pub length-numbered : (p k : ℕ) (xs : List A) → length (numbered p k xs) ≡ length xs
  unfolding numbered
  length-numbered p k [] = refl
  length-numbered p k (x ∷ xs) = ap suc (length-numbered p (suc k) xs)

  -- The list after a call of the resolver, with what the call added.
  abbrev pub grown : PagedList A → List (Item A) → PagedList A
  grown l ext = record l { list = l.list ++ ext; calls = l.calls + 1 }

  abbrev pub called : PagedList A → PagedList A
  called l = record l { calls = l.calls + 1 }

  -- A fetch either adds the entries of a page that is not empty, or leaves the list and reports.
  data Fetched (l : PagedList A) (r : PagedList A × ℕ × Option FetchError) : Type ℓ where
    added :
        (idx : ℕ) (ext : List (Item A))
        → 0 < length ext
        → r ≡ (grown l ext, idx, none)
        → Fetched l r
    refused : (idx : ℕ) (e : FetchError) → r ≡ (called l, idx, some e) → Fetched l r

  fetch_next_page-Fetched :
      (pages : Pages A) (l : PagedList A) → Fetched l (fetch_next_page pages l)
  unfolding fetch_next_page
  fetch_next_page-Fetched pages l = go (pages l.calls (after (last_page l.list))) refl
    where
      idx : ℕ
      idx = after (last_page l.list)

      go : (r : PageAnswer A) → pages l.calls idx ≡ r → Fetched l (fetch_next_page pages l)
      go (page []) e = refused idx (empty_page idx) (rw (e, fetch_next_page))
      go (page (x ∷ xs)) e =
          added idx (numbered idx 0 (x ∷ xs)) (omega (arith, length-numbered idx 0 (x ∷ xs)))
            (rw (e, fetch_next_page))
      go (page_err e') e = refused idx e' (rw (e, fetch_next_page))

  -- What a call of `next` promises.
  pub record Advanced (l : PagedList A) (i : Iter) (r : PagedList A × Iter × Bool) : Type ℓ where
    pub kept : (ext : List (Item A)) × (r.0.list ≡ l.list ++ ext)
    pub pos : r.0.pos ≡ l.pos
    pub found :
        r.2 ≡ true
        → (r.1 ≡ record { at = some (after i.at); err = none }) × (after i.at < length r.0.list)
    pub ended : r.2 ≡ false → (r.1.at ≡ i.at) × (length r.0.list ≤ after i.at)

  after_fetch-refused :
      (again : PagedList A → Run (PagedList A × Iter × Bool)) (i : Iter) (l : PagedList A) (idx : ℕ)
      (e : FetchError)
      → length l.list ≤ after i.at
      → Returns (Advanced l i) (after_fetch again i (called l, idx, some e))
  unfolding after_fetch
  after_fetch-refused again i l idx eof h = (
    (called l, record i { err = none }, false),
    refl,
    record {
      kept = ([], sym (append-nil l.list));
      pos = refl;
      found = λ e. absurd (cc);
      ended = λ _. (refl, h);
    },
  )
  after_fetch-refused again i l idx e h = (
    (called l, record i { err = some (next_failed (after i.at) idx e) }, false),
    refl,
    record {
      kept = ([], sym (append-nil l.list));
      pos = refl;
      found = λ e. absurd (cc);
      ended = λ _. (refl, h);
    },
  )

  Advanced-grown :
      (l : PagedList A) (ext : List (Item A)) (i : Iter) (r : PagedList A × Iter × Bool)
      → Advanced (grown l ext) i r
      → Advanced l i r
  Advanced-grown l ext i r a = record {
    kept = (ext ++ a.kept.0, a.kept.1 ∙ append_assoc l.list ext a.kept.0);
    pos = a.pos;
    found = a.found;
    ended = a.ended;
  }

  next_loop-Advanced :
      (pages : Pages A) (f : ℕ) (l : PagedList A) (i : Iter)
      → after i.at + 1 - length l.list < f
      → Returns (Advanced l i) (next_loop pages f l i)
  unfolding next_loop
  next_loop-Advanced pages zero l i h = absurd (omega arith)
  next_loop-Advanced pages (suc f) l i h = elim (Bool-cases (leb (length l.list) (after i.at))) [
    | inl short ↦ rw short (elim (fetch_next_page-Fetched pages l) [
      | added idx ext pos e ↦ rw e (
          let size = length-append l.list ext in
          let (r, run, a) = next_loop-Advanced pages f (grown l ext) i (ground arith) in
          (r, run, Advanced-grown l ext i r a))
      | refused idx e' e ↦
          rw e (after_fetch-refused (λ l'. next_loop pages f l' i) i l idx e' (leb→le _ _ short))
    ])
    | inr long ↦ rw long (
      (l, record { at = some (after i.at); err = none }, true),
      refl,
      record {
        kept = ([], sym (append-nil l.list));
        pos = refl;
        found = λ _. (refl, leb-false→lt _ _ long);
        ended = λ e. absurd (cc);
      },
    )
  ]

  -- `next` always returns, for any resolver and any iterator. The list only grows at its end, and the
  -- position of the list stays. If an entry was found, the iterator has moved on by one, carries no
  -- error and stands on a loaded entry; if not, it has not moved and every loaded entry is at or
  -- before it.
  pub next-Advanced :
      (pages : Pages A) (l : PagedList A) (i : Iter) → Returns (Advanced l i) (next pages l i)
  unfolding next
  next-Advanced pages l i =
      next_loop-Advanced pages (suc (after i.at + 1 - length l.list)) l i (omega arith)
