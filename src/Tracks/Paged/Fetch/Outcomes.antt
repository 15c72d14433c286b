-- ===== src/Tracks/Paged/Fetch/Outcomes.antt =====
-- tracks/paged-list.go: what an iterator finds, by what is loaded and what the resolver answers.
use go_librespot_termux.Prelude.{
  ℕ, suc, ◌+◌, ◌-◌, ◌≤◌, ◌<◌, ◌≡◌, refl, ◌∙◌, Bool, true, false, List, [], ◌∷◌, ◌++◌, Option, some,
  none, arith, lt→leb-false, le→leb, length, length-append, Run, ok,
}
use go_librespot_termux.Tracks.Paged.{
  after, Item, FetchError, eof, empty_page, PageAnswer, page, page_err, Pages, PagedList, Iter,
  next_failed, last_page, numbered, fetch_next_page, after_fetch, next_loop, next,
}
use go_librespot_termux.Tracks.Paged.Fetch.{length-numbered, grown, called}

module _ {ℓ} {A : Type ℓ} where
  last_page-append :
      (xs ys : List (Item A)) (y : Item A) → last_page (xs ++ (y ∷ ys)) ≡ last_page (y ∷ ys)
  unfolding last_page
  last_page-append [] ys y = refl
  last_page-append (x ∷ []) ys y = refl
  last_page-append (x ∷ z ∷ xs) ys y = last_page-append (z ∷ xs) ys y

  last_page-numbered : (p k : ℕ) (x : A) (xs : List A) → last_page (numbered p k (x ∷ xs)) ≡ some p
  unfolding last_page numbered
  last_page-numbered p k x [] = refl
  last_page-numbered p k x (y ∷ xs) = last_page-numbered p (suc k) y xs

  next_loop-hit :
      (pages : Pages A) (f : ℕ) (l : PagedList A) (i : Iter)
      → after i.at < length l.list
      → next_loop pages (suc f) l i ≡ ok (l, record { at = some (after i.at); err = none }, true)
  unfolding next_loop
  next_loop-hit pages f l i h = rw (lt→leb-false (length l.list) (after i.at) h)

  next_loop-miss :
      (pages : Pages A) (f : ℕ) (l : PagedList A) (i : Iter)
      → length l.list ≤ after i.at
      → next_loop pages (suc f) l i
        ≡ after_fetch (λ l'. next_loop pages f l' i) i (fetch_next_page pages l)
  unfolding next_loop
  next_loop-miss pages f l i h = rw (le→leb (length l.list) (after i.at) h)

  fetch_next_page-page :
      (pages : Pages A) (l : PagedList A) (x : A) (xs : List A)
      → pages l.calls (after (last_page l.list)) ≡ page (x ∷ xs)
      → fetch_next_page pages l
        ≡ (grown l (numbered (after (last_page l.list)) 0 (x ∷ xs)), after (last_page l.list), none)
  unfolding fetch_next_page
  fetch_next_page-page pages l x xs e = rw (e, fetch_next_page)

  -- With nothing left to read, `next` asks for the page after that of the last entry of the list, and
  -- appends what it is given, whether or not that page is loaded already.
  next-after-last :
      (pages : Pages A) (l : PagedList A) (i : Iter) (x : A) (xs : List A)
      → after i.at ≡ length l.list
      → pages l.calls (after (last_page l.list)) ≡ page (x ∷ xs)
      → next pages l i
        ≡ ok (
          grown l (numbered (after (last_page l.list)) 0 (x ∷ xs)),
          record { at = some (after i.at); err = none },
          true,
        )
  unfolding next after_fetch
  next-after-last pages l i x xs e answer =
      let p = after (last_page l.list) in
      let one : after i.at + 1 - length l.list ≡ 1 = omega arith in
      let more : after i.at < length (l.list ++ numbered p 0 (x ∷ xs)) =
        omega (arith, length-append l.list (numbered p 0 (x ∷ xs)), length-numbered p 0 (x ∷ xs)) in
      rw one (
        next_loop-miss pages 1 l i (omega arith)
        ∙ rw (fetch_next_page-page pages l x xs answer)
            (next_loop-hit pages 0 (grown l (numbered p 0 (x ∷ xs))) i more))

  after_fetch-some :
      (again : PagedList A → Run (PagedList A × Iter × Bool)) (i : Iter) (l : PagedList A) (idx : ℕ)
      (e : FetchError)
      → (i' : Iter) × (after_fetch again i (l, idx, some e) ≡ ok (l, i', false))
  unfolding after_fetch
  after_fetch-some again i l idx eof = (record i { err = none }, refl)
  after_fetch-some again i l idx e =
      (record i { err = some (next_failed (after i.at) idx e) }, refl)

  last_page-append_numbered :
      (a : List (Item A)) (p : ℕ) (x : A) (xs : List A)
      → last_page (a ++ numbered p 0 (x ∷ xs)) ≡ some p
  last_page-append_numbered a p x xs =
      unfold numbered in
      (last_page-append a (numbered p 1 xs)
        (record { item = x; page_idx = some p; item_idx = some 0 }))
      ∙ last_page-numbered p 0 x xs

  -- The error that an answer without entries leads to.
  abbrev refusal : ℕ → PageAnswer A → Option FetchError
  refusal p (page []) = some (empty_page p)
  refusal p (page (_ ∷ _)) = none
  refusal p (page_err e) = some e

  fetch_next_page-refused :
      (pages : Pages A) (l : PagedList A) (r : PageAnswer A) (e : FetchError)
      → pages l.calls (after (last_page l.list)) ≡ r
      → refusal (after (last_page l.list)) r ≡ some e
      → fetch_next_page pages l ≡ (called l, after (last_page l.list), some e)
  unfolding fetch_next_page
  fetch_next_page-refused pages l (page []) e h k = rw (h, fetch_next_page) (cc)
  fetch_next_page-refused pages l (page (_ ∷ _)) e h k = absurd (cc)
  fetch_next_page-refused pages l (page_err x) e h k = rw (h, fetch_next_page) (cc)

  -- What `next` does with nothing left to read: it ends, or it stands on the first entry of a new
  -- page, the one after that of the last entry before.
  pub data AtEnd (pages : Pages A) (l : PagedList A) (i : Iter) : Type ℓ where
    ended : (l' : PagedList A) (i' : Iter) → next pages l i ≡ ok (l', i', false) → AtEnd pages l i
    paged :
        (ext : List (Item A))
        → 0 < length ext
        → last_page (l.list ++ ext) ≡ some (after (last_page l.list))
        → next pages l i ≡ ok (grown l ext, record { at = some (after i.at); err = none }, true)
        → AtEnd pages l i

  next-refused :
      (pages : Pages A) (l : PagedList A) (i : Iter) (idx : ℕ) (e : FetchError)
      → length l.list ≤ after i.at
      → fetch_next_page pages l ≡ (called l, idx, some e)
      → AtEnd pages l i
  unfolding next
  next-refused pages l i idx e h r =
      let f = after i.at + 1 - length l.list in
      let (i', done) = after_fetch-some (λ l'. next_loop pages f l' i) i (called l) idx e in
      ended (called l) i' (next_loop-miss pages f l i h ∙ rw (r, done))

  pub next-AtEnd :
      (pages : Pages A) (l : PagedList A) (i : Iter) → after i.at ≡ length l.list → AtEnd pages l i
  next-AtEnd pages l i h = go (pages l.calls p) refl
    where
      p : ℕ
      p = after (last_page l.list)

      go : (r : PageAnswer A) → pages l.calls p ≡ r → AtEnd pages l i
      go (page []) e =
          next-refused pages l i p (empty_page p) (omega arith)
            (fetch_next_page-refused pages l (page []) (empty_page p) e refl)
      go (page_err x) e =
          next-refused pages l i p x (omega arith)
            (fetch_next_page-refused pages l (page_err x) x e refl)
      go (page (x ∷ xs)) e =
          paged (numbered p 0 (x ∷ xs)) (omega (arith, length-numbered p 0 (x ∷ xs)))
            (last_page-append_numbered l.list p x xs) (next-after-last pages l i x xs h e)

  pub next-hit :
      (pages : Pages A) (l : PagedList A) (i : Iter)
      → after i.at < length l.list
      → next pages l i ≡ ok (l, record { at = some (after i.at); err = none }, true)
  unfolding next
  next-hit pages l i h = next_loop-hit pages (after i.at + 1 - length l.list) l i h
