-- ===== src/Tracks/TrackList/Halts.antt =====
-- tracks/tracks.go: the walks of a context end, whatever the resolver answers, since they stop at
-- the page limit.
use go_librespot_termux.Prelude.{
  ℕ, zero, suc, ◌+◌, ◌≤◌, ◌<◌, ◌≡◌, refl, ap, sym, ◌∙◌, ◌≢◌, Bool, true, false, List, [], ◌∷◌, none,
  some, arith, Bool-cases, Option-cases, if◌then◌else◌, inl, inr, leb-false→lt, length, get_elem?,
  get_elem?-some, length-append, Run, ok, panic, out_of_fuel, ◌>>=◌, >>=-eq-out_of_fuel, ◌-◌,
}
use go_librespot_termux.Tracks.Paged.{
  Item, Iter, Index, after, Pages, PagedList, last_page, next, get, move, iter_start,
}
use go_librespot_termux.Tracks.Paged.Fetch.{grown}
use go_librespot_termux.Tracks.Paged.Fetch.Outcomes.{ended, paged, next-AtEnd, next-hit}
use go_librespot_termux.Tracks.Track.{ContextTrack}
use go_librespot_termux.Tracks.TrackList.{
  TrackList, SeekRun, SeekError, seek, seek_loop, seek_round, seek_ended, walk_loop, walk_round,
  page_reaches_max,
}

last_page-eq :
    (a : List (Item ContextTrack)) (n : ℕ) (x : Item ContextTrack)
    → get_elem? a n ≡ some x
    → suc n ≡ length a
    → last_page a ≡ x.page_idx
unfolding last_page
last_page-eq [] n x e h = absurd (cc)
last_page-eq (y ∷ []) zero x e h = cc
last_page-eq (y ∷ []) (suc n) x e h = absurd (cc)
last_page-eq (y ∷ z ∷ a) zero x e h = absurd (omega arith)
last_page-eq (y ∷ z ∷ a) (suc n) x e h = last_page-eq (z ∷ a) n x e (omega arith)

module _ (f : ContextTrack → Run Bool) (runs : (t : ContextTrack) → f t ≢ out_of_fuel) where
  -- A round does not run out of fuel if the rounds after it do not, where it comes to them.
  seek_round-halts :
      (again : PagedList ContextTrack → Iter → SeekRun) (l : PagedList ContextTrack) (n : ℕ)
      (x : Item ContextTrack)
      → get_elem? l.list n ≡ some x
      → (page_reaches_max x.page_idx ≡ false
          → again l (record { at = some n; err = none }) ≢ out_of_fuel)
      → seek_round again f (l, record { at = some n; err = none }, true) ≢ out_of_fuel
  unfolding seek_round get move
  seek_round-halts again l n x here rest h = elim (>>=-eq-out_of_fuel (f x.item) _ (rw here at h)) [
    | inl e ↦ runs x.item e
    | inr (hit, e, h2) ↦ elim (Bool-cases hit) [
      | inl t ↦ cc (rw t at h2)
      | inr t ↦ elim (Bool-cases (page_reaches_max x.page_idx)) [
        | inl p ↦ cc (rw (t, p) at h2)
        | inr p ↦ rest p (rw (t, p) at h2)
      ]
    ]
  ]

  -- The walk from an iterator ends with some fuel.
  abbrev Halts : Pages ContextTrack → PagedList ContextTrack → Iter → Type 0
  Halts pages l i = (n : ℕ) × (seek_loop pages f n l i ≢ out_of_fuel)

  -- The last entry of the list is not on a page that ends the walk.
  abbrev HasRoom : PagedList ContextTrack → Type 0
  HasRoom l = after (last_page l.list) ≤ 256

  HasRoom-of_last :
      (l : PagedList ContextTrack) (n : ℕ) (x : Item ContextTrack)
      → get_elem? l.list n ≡ some x
      → suc n ≡ length l.list
      → page_reaches_max x.page_idx ≡ false
      → HasRoom l
  HasRoom-of_last l n x e h p = rw (last_page-eq l.list n x e h) (go x.page_idx p)
    where
      go : (q : Index) → page_reaches_max q ≡ false → after q ≤ 256
      go none r = omega arith
      go (some q) r = unfold page_reaches_max in (leb-false→lt 256 q r)

  -- `next` stands on a loaded entry: the walk ends there, or it goes on and ends.
  Halts-hit :
      (pages : Pages ContextTrack) (l l' : PagedList ContextTrack) (i : Iter) (n : ℕ)
      → next pages l i ≡ ok (l', record { at = some n; err = none }, true)
      → n < length l'.list
      → ((suc n ≡ length l'.list → HasRoom l')
          → Halts pages l' (record { at = some n; err = none }))
      → Halts pages l i
  unfolding seek_loop
  Halts-hit pages l l' i n run h rest =
      let (x, here) = get_elem?-some l'.list n h in
      elim (Bool-cases (page_reaches_max x.page_idx)) [
        | inl p ↦
            (1, rw run (seek_round-halts (λ l'' i''. out_of_fuel) l' n x here (λ q. absurd (cc))))
        | inr p ↦
            let (m, done) = rest (λ e. HasRoom-of_last l' n x here e p) in
            (
              suc m,
              rw run (
                  seek_round-halts (λ l'' i''. seek_loop pages f m l'' i'') l' n x here
                    (λ _. done)),
            )
      ]

  Halts-ended :
      (pages : Pages ContextTrack) (l l' : PagedList ContextTrack) (i i' : Iter)
      → next pages l i ≡ ok (l', i', false)
      → Halts pages l i
  unfolding seek_loop seek_round
  Halts-ended pages l l' i i' run = (1, rw run (λ e. cc))

  -- `k` bounds the pages that may still be fetched, `r` is the number of loaded entries to read.
  seek_loop-Halts :
      (pages : Pages ContextTrack) (k r : ℕ) (l : PagedList ContextTrack) (i : Iter)
      → length l.list ≡ after i.at + r
      → 257 ≤ k + after (last_page l.list)
      → (after i.at ≡ length l.list → HasRoom l)
      → Halts pages l i
  seek_loop-Halts pages k (suc r) l i e b room =
      Halts-hit pages l l i (after i.at) (next-hit pages l i (omega arith)) (omega arith) (λ room'.
        seek_loop-Halts pages k r l (record { at = some (after i.at); err = none }) (omega arith) b
          room')
  seek_loop-Halts pages zero zero l i e b room = absurd (omega (arith, room (omega arith)))
  seek_loop-Halts pages (suc k) zero l i e b room = elim (next-AtEnd pages l i (omega arith)) [
    | ended l' i' run ↦ Halts-ended pages l l' i i' run
    | paged ext pos last run ↦
        Halts-hit pages l (grown l ext) i (after i.at) run (omega (arith, length-append l.list ext))
          (λ room'.
            seek_loop-Halts pages k (length ext - 1) (grown l ext)
              (record { at = some (after i.at); err = none })
              (omega (arith, length-append l.list ext)) (rw last (omega arith)) room')
  ]

  HasRoom_empty : (a : List (Item ContextTrack)) → 0 ≡ length a → after (last_page a) ≤ 256
  unfolding last_page
  HasRoom_empty [] e = omega arith
  HasRoom_empty (x ∷ a) e = absurd (omega arith)

  seek_loop-start_halts :
      (pages : Pages ContextTrack) (l : PagedList ContextTrack)
      → (n : ℕ) × (seek_loop pages f n l iter_start ≢ out_of_fuel)
  unfolding iter_start
  seek_loop-start_halts pages l =
      seek_loop-Halts pages 257 (length l.list) l iter_start (omega arith) (omega arith)
        (HasRoom_empty l.list)

  -- `Seek` ends on every list and with every resolver, also one that hands out pages forever, if the
  -- test itself ends: some fuel is enough.
  pub seek_halts :
      (pages : Pages ContextTrack) (tl : TrackList)
      → (fuel : ℕ) × (seek pages fuel f tl ≢ out_of_fuel)
  unfolding seek
  seek_halts pages tl =
      let (fuel, done) = seek_loop-start_halts pages tl.tracks in
      (
        fuel,
        λ h. elim (>>=-eq-out_of_fuel (seek_loop pages f fuel tl.tracks iter_start) _ h) [
          | inl e ↦ done e
          | inr (r, e, h2) ↦ cc
        ],
      )

-- The walk of `ToggleShuffle` is a seek for a track that never matches.
seek_ended-list : (l : PagedList ContextTrack) (i : Iter) → (seek_ended l i).0 ≡ l
unfolding seek_ended
seek_ended-list l i = elim (Option-cases i.err) [
  | inl e ↦ rw (e, seek_ended)
  | inr (x, e) ↦ rw (e, seek_ended)
]

walk_round-eq :
    (a : PagedList ContextTrack → Iter → Run (PagedList ContextTrack))
    (b : PagedList ContextTrack → Iter → SeekRun) (l : PagedList ContextTrack) (i : Iter)
    (more : Bool)
    → ((l : PagedList ContextTrack) (i : Iter) → a l i ≡ (b l i >>= λ r. ok r.0))
    → walk_round a (l, i, more) ≡ (seek_round b (λ _. ok false) (l, i, more) >>= λ r. ok r.0)
unfolding walk_round seek_round
walk_round-eq a b l i false h = ap ok (sym (seek_ended-list l i))
walk_round-eq a b l i true h = go (get l i.at)
  where
    go :
        (g : Run (Item ContextTrack))
        → (g >>= λ c. if page_reaches_max c.page_idx then ok l else a l i) ≡ (
            (g >>= λ c.
            if page_reaches_max c.page_idx
            then ok (l, some (SeekError.gave_up (after c.page_idx)))
            else b l i)
            >>= λ r. ok r.0)
    go (ok c) = elim (Bool-cases (page_reaches_max c.page_idx)) [
      | inl p ↦ rw p refl
      | inr p ↦ rw p (h l i)
    ]
    go panic = refl
    go out_of_fuel = refl

walk_rounds-eq :
    (a : PagedList ContextTrack → Iter → Run (PagedList ContextTrack))
    (b : PagedList ContextTrack → Iter → SeekRun) (g : Run (PagedList ContextTrack × Iter × Bool))
    → ((l : PagedList ContextTrack) (i : Iter) → a l i ≡ (b l i >>= λ r. ok r.0))
    → (g >>= walk_round a) ≡ (g >>= seek_round b (λ _. ok false) >>= λ r. ok r.0)
walk_rounds-eq a b (ok (l, i, more)) h = walk_round-eq a b l i more h
walk_rounds-eq a b panic h = refl
walk_rounds-eq a b out_of_fuel h = refl

walk_loop-eq :
    (pages : Pages ContextTrack) (n : ℕ) (l : PagedList ContextTrack) (i : Iter)
    → walk_loop pages n l i ≡ (seek_loop pages (λ _. ok false) n l i >>= λ r. ok r.0)
unfolding walk_loop seek_loop
walk_loop-eq pages zero l i = refl
walk_loop-eq pages (suc n) l i =
    walk_rounds-eq (λ l' i'. walk_loop pages n l' i')
      (λ l' i'. seek_loop pages (λ _. ok false) n l' i') (next pages l i)
      (λ l' i'. walk_loop-eq pages n l' i')

-- The walk that fetches all tracks before a shuffle ends on every list and with every resolver, also
-- one that hands out pages forever: some fuel is enough.
walk_loop-halts :
    (pages : Pages ContextTrack) (l : PagedList ContextTrack)
    → (fuel : ℕ) × (walk_loop pages fuel l iter_start ≢ out_of_fuel)
walk_loop-halts pages l =
    let (fuel, done) = seek_loop-start_halts (λ _. ok false) (λ t e. cc) pages l in
    (
      fuel,
      λ h.
          elim (>>=-eq-out_of_fuel (seek_loop pages (λ _. ok false) fuel l iter_start) _
            (sym (walk_loop-eq pages fuel l iter_start) ∙ h)) [
              | inl e ↦ done e
              | inr (r, e, h2) ↦ cc
            ],
    )
