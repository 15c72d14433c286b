-- ===== src/Tracks/TrackList/Seek.antt =====
-- tracks/tracks.go: what `Seek` finds.
use go_librespot_termux.Prelude.{
  ℕ, zero, suc, ◌≤◌, ◌<◌, ◌≡◌, ◌⊎◌, refl, ap, sym, ◌∙◌, subst, Bool, true, false, List, ◌++◌,
  Option, none, some, arith, Bool-cases, Option-cases, inl, inr, ◌==◌, ==_iff, length, get_elem?,
  get_elem?-append, append_assoc, Run, ok, >>=-eq-ok, ok-injective, or_panic-eq-ok,
}
use go_librespot_termux.Tracks.Paged.{
  Item, Iter, after, Pages, PagedList, next, get, move, iter_start,
}
use go_librespot_termux.Tracks.Paged.Fetch.{Advanced, next-Advanced}
use go_librespot_termux.Tracks.Track.{ContextTrack}
use go_librespot_termux.Tracks.TrackList.{
  TrackList, SeekRun, SeekError, seek, seek_loop, seek_round, seek_ended, page_reaches_max,
}

module _ (f : ContextTrack → Run Bool) where
  -- How a round of the loop ends.
  data RoundEnd (again : PagedList ContextTrack → Iter → SeekRun) (l : PagedList ContextTrack)
      (i : Iter) (more : Bool) (r : PagedList ContextTrack × Option SeekError) : Type 0 where
    ended : (e : SeekError) → more ≡ false → r ≡ (l, some e) → RoundEnd again l i more r
    gave_up :
        (e : SeekError) (x : Item ContextTrack)
        → more ≡ true
        → get l i.at ≡ ok x
        → f x.item ≡ ok false
        → page_reaches_max x.page_idx ≡ true
        → r ≡ (l, some e)
        → RoundEnd again l i more r
    landed :
        (x : Item ContextTrack)
        → more ≡ true
        → get l i.at ≡ ok x
        → f x.item ≡ ok true
        → r ≡ (record l { pos = i.at }, none)
        → RoundEnd again l i more r
    went_on :
        (x : Item ContextTrack)
        → more ≡ true
        → get l i.at ≡ ok x
        → f x.item ≡ ok false
        → again l i ≡ ok r
        → RoundEnd again l i more r

  seek_ended-some :
      (l : PagedList ContextTrack) (i : Iter) → (e : SeekError) × (seek_ended l i ≡ (l, some e))
  unfolding seek_ended
  seek_ended-some l i = elim (Option-cases i.err) [
    | inl e ↦ (SeekError.not_found, rw (e, seek_ended))
    | inr (x, e) ↦ (SeekError.fetching x, rw (e, seek_ended))
  ]

  move-inv :
      (l : PagedList ContextTrack) (i : Iter) (m : PagedList ContextTrack)
      → move l i ≡ ok m
      → record l { pos = i.at } ≡ m
  unfolding move
  move-inv l i m h = elim (Option-cases i.err) [
    | inl e ↦ ok-injective (rw (e, move) at h)
    | inr (x, e) ↦ absurd (cc (rw (e, move) at h))
  ]

  seek_round-end :
      (again : PagedList ContextTrack → Iter → SeekRun) (l : PagedList ContextTrack) (i : Iter)
      (more : Bool) (r : PagedList ContextTrack × Option SeekError)
      → seek_round again f (l, i, more) ≡ ok r
      → RoundEnd again l i more r
  unfolding seek_round
  seek_round-end again l i false r h =
      let (e, s) = seek_ended-some l i in ended e refl (sym (ok-injective h) ∙ s)
  seek_round-end again l i true r h =
      let (x, got, h1) = >>=-eq-ok (get l i.at) _ h in
      let (hit, tested, h2) = >>=-eq-ok (f x.item) _ h1 in
      elim (Bool-cases hit) [
        | inl yes' ↦
            let (m, moved, h3) = >>=-eq-ok (move l i) (λ m. ok (m, none)) (rw yes' at h2) in
            landed x refl got (tested ∙ ap ok yes') (
              sym (ok-injective h3)
              ∙ ap (λ (y : PagedList ContextTrack). (y, none)) (sym (move-inv l i m moved)))
        | inr no' ↦ elim (Bool-cases (page_reaches_max x.page_idx)) [
          | inl p ↦
              gave_up _ x refl got (tested ∙ ap ok no') p (sym (ok-injective (rw (no', p) at h2)))
          | inr p ↦ went_on x refl got (tested ∙ ap ok no') (rw (no', p) at h2)
        ]
      ]

  -- The first `b` entries do not match.
  abbrev pub Rejected : List (Item ContextTrack) → ℕ → Type 0
  Rejected a b =
      (p : ℕ) (x : Item ContextTrack) → p < b → get_elem? a p ≡ some x → f x.item ≡ ok false

  -- A seek that fails rejected every entry, or all up to the first that is on the last page allowed.
  abbrev pub Missed : List (Item ContextTrack) → Type 0
  Missed a =
      Rejected a (length a)
      ⊎ ((k : ℕ) × (x : Item ContextTrack) × (get_elem? a k ≡ some x)
          × (page_reaches_max x.page_idx ≡ true)
          × Rejected a (suc k))

  -- A seek that lands is on the first entry that matches; one that fails leaves the position.
  abbrev pub Sought : PagedList ContextTrack → PagedList ContextTrack × Option SeekError → Type 0
  Sought l (m, none) =
      (p : ℕ) × (x : Item ContextTrack) × (m.pos ≡ some p)
      × (get_elem? m.list p ≡ some x)
      × (f x.item ≡ ok true)
      × Rejected m.list p
  Sought l (m, some e) = (m.pos ≡ l.pos) × Missed m.list

  Rejected-extends :
      (a ext : List (Item ContextTrack)) (b : ℕ)
      → b ≤ length a
      → Rejected a b
      → Rejected (a ++ ext) b
  Rejected-extends a ext b h no' p x lt e =
      no' p x lt (sym (get_elem?-append a ext p (omega arith)) ∙ e)

  -- One more entry is rejected.
  Rejected-next :
      (a : List (Item ContextTrack)) (b : ℕ) (y : Item ContextTrack)
      → get_elem? a b ≡ some y
      → f y.item ≡ ok false
      → Rejected a b
      → Rejected a (suc b)
  Rejected-next a b y here no' before p x lt e = elim (Bool-cases (p == b)) [
    | inl q ↦
        let same : p ≡ b = (==_iff p b).0 q in
        let xy : y ≡ x = cc (subst (λ k. get_elem? a k ≡ some x) same e) in
        subst (λ (z : Item ContextTrack). f z.item ≡ ok false) xy no'
    | inr q ↦ before p x (ground arith) e
  ]

  -- The entry under an iterator that `next` moved.
  get-at :
      (l : PagedList ContextTrack) (i : Iter) (n : ℕ) (x : Item ContextTrack)
      → i.at ≡ some n
      → get l i.at ≡ ok x
      → get_elem? l.list n ≡ some x
  unfolding get
  get-at l i n x e h = or_panic-eq-ok (get_elem? l.list n) (rw e at h)

  Sought-from :
      (l l' : PagedList ContextTrack) (r : PagedList ContextTrack × Option SeekError)
      → l'.pos ≡ l.pos
      → Sought l' r
      → Sought l r
  Sought-from l l' (m, none) e h = h
  Sought-from l l' (m, some _) e h = (h.0 ∙ e, h.1)

  -- What one successful `next` leaves for the rounds that follow.
  record Stepped (l : PagedList ContextTrack) (i : Iter) (l' : PagedList ContextTrack) (i' : Iter)
      : Type 0 where
    kept : (ext : List (Item ContextTrack)) × (l'.list ≡ l.list ++ ext)
    pos : l'.pos ≡ l.pos
    at' : i'.at ≡ some (after i.at)
    bound : suc (after i.at) ≤ length l'.list
    rejected : Rejected l'.list (after i.at)

  Advanced-Stepped :
      (l : PagedList ContextTrack) (i : Iter) (l' : PagedList ContextTrack) (i' : Iter)
      (more : Bool)
      → Advanced l i (l', i', more)
      → more ≡ true
      → after i.at ≤ length l.list
      → Rejected l.list (after i.at)
      → Stepped l i l' i'
  Advanced-Stepped l i l' i' more a e bound no' = record {
    kept = a.kept;
    pos = a.pos;
    at' = ap (λ (x : Iter). x.at) (a.found e).0;
    bound = (a.found e).1;
    rejected =
        subst (λ x. Rejected x (after i.at)) (sym a.kept.1)
          (Rejected-extends l.list a.kept.0 (after i.at) bound no');
  }

  abbrev Outcome : PagedList ContextTrack → PagedList ContextTrack × Option SeekError → Type 0
  Outcome l r = ((ext : List (Item ContextTrack)) × (r.0.list ≡ l.list ++ ext)) × Sought l r

  Stepped-landed :
      (l : PagedList ContextTrack) (i : Iter) (l' : PagedList ContextTrack) (i' : Iter)
      (x : Item ContextTrack)
      → Stepped l i l' i'
      → get l' i'.at ≡ ok x
      → f x.item ≡ ok true
      → Outcome l (record l' { pos = i'.at }, none)
  Stepped-landed l i l' i' x s got yes' =
      (s.kept, (after i.at, x, s.at', get-at l' i' (after i.at) x s.at' got, yes', s.rejected))

  Outcome-from :
      (l : PagedList ContextTrack) (i : Iter) (l' : PagedList ContextTrack) (i' : Iter)
      (r : PagedList ContextTrack × Option SeekError)
      → Stepped l i l' i'
      → Outcome l' r
      → Outcome l r
  Outcome-from l i l' i' r s o = (
    (
      s.kept.0 ++ o.0.0,
      o.0.1 ∙ (ap (λ x. x ++ o.0.0) s.kept.1 ∙ append_assoc l.list s.kept.0 o.0.0),
    ),
    Sought-from l l' r s.pos o.1,
  )

  seek_loop-Sought :
      (pages : Pages ContextTrack) (n : ℕ) (l : PagedList ContextTrack) (i : Iter)
      (r : PagedList ContextTrack × Option SeekError)
      → after i.at ≤ length l.list
      → Rejected l.list (after i.at)
      → seek_loop pages f n l i ≡ ok r
      → Outcome l r
  unfolding seek_loop
  seek_loop-Sought pages zero l i r bound no' h = absurd (cc)
  seek_loop-Sought pages (suc n) l i r bound no' h =
      let (t, run, rest) = >>=-eq-ok (next pages l i) _ h in
      let (s, run', a) = next-Advanced pages l i in
      let adv : Advanced l i t = subst (Advanced l i) (ok-injective (sym run' ∙ run)) a in
      elim (seek_round-end (λ l' i'. seek_loop pages f n l' i') t.0 t.1 t.2 r rest) [
        | ended e more same ↦ subst (Outcome l) (sym same) (
          adv.kept,
          (
            adv.pos,
            inl (λ p x lt at'.
                let kept =
                  subst (λ (a : List (Item ContextTrack)). Rejected a (after i.at)) (sym adv.kept.1)
                    (Rejected-extends l.list adv.kept.0 (after i.at) bound no') in
                kept p x (omega (arith, lt, (adv.ended more).1)) at'),
          ),
        )
        | gave_up e x more got no'' page same ↦
            let st = Advanced-Stepped l i t.0 t.1 t.2 adv more bound no' in
            let here = get-at t.0 t.1 (after i.at) x st.at' got in
            subst (Outcome l) (sym same) (
              adv.kept,
              (
                adv.pos,
                inr (
                  after i.at,
                  x,
                  here,
                  page,
                  Rejected-next t.0.list (after i.at) x here no'' st.rejected,
                ),
              ),
            )
        | landed x more got yes' same ↦
            let st = Advanced-Stepped l i t.0 t.1 t.2 adv more bound no' in
            subst (Outcome l) (sym same) (Stepped-landed l i t.0 t.1 x st got yes')
        | went_on x more got no'' again ↦
            let st = Advanced-Stepped l i t.0 t.1 t.2 adv more bound no' in
            let at' : after t.1.at ≡ suc (after i.at) = ap after st.at' in
            let here = get-at t.0 t.1 (after i.at) x st.at' got in
            Outcome-from l i t.0 t.1 r st (
              seek_loop-Sought pages n t.0 t.1 r (rw at' st.bound)
                (rw at' (Rejected-next t.0.list (after i.at) x here no'' st.rejected)) again)
      ]

  -- What `Seek` promises of the list that it leaves and of its error.
  pub record SeekResult (tl : TrackList) (r : TrackList × Option SeekError) : Type 0 where
    pub kept : (ext : List (Item ContextTrack)) × (r.0.tracks.list ≡ tl.tracks.list ++ ext)
    pub sought : Sought tl.tracks (r.0.tracks, r.1)
    pub queue : r.0.queue ≡ tl.queue
    pub playing_queue : r.0.playing_queue ≡ tl.playing_queue
    pub shuffled : r.0.shuffled ≡ tl.shuffled

  -- `Seek` only adds fetched entries at the end of the list, and leaves the queue and the shuffle
  -- flag. If it reports no error, the position is on an entry that the test accepts, and the test
  -- rejects every entry before it; if it reports one, the position is where it was, and the test rejects
  -- every entry, or every one up to an entry on the last page that may be asked for.
  pub seek-SeekResult :
      (pages : Pages ContextTrack) (fuel : ℕ) (tl : TrackList) (r : TrackList × Option SeekError)
      → seek pages fuel f tl ≡ ok r
      → SeekResult tl r
  unfolding seek iter_start
  seek-SeekResult pages fuel tl r h =
      let (s, run, same) = >>=-eq-ok (seek_loop pages f fuel tl.tracks iter_start) _ h in
      let o =
        seek_loop-Sought pages fuel tl.tracks iter_start s (omega arith)
          (λ p x lt _. absurd (omega arith)) run in
      subst (SeekResult tl) (ok-injective same)
        (record { kept = o.0; sought = o.1; queue = refl; playing_queue = refl; shuffled = refl })
