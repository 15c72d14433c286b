-- ===== src/Tracks/Toggle/RoundTrip.antt =====
-- tracks/tracks.go: shuffling a track list and unshuffling it again.
use go_librespot_termux.Prelude.{
  ℕ, zero, suc, ◌+◌, ◌%◌, ◌^◌, ◌<◌, ◌≡◌, refl, ap, sym, ◌∙◌, ◌≢◌, subst, true, false, Option, none,
  some, arith, ◌==◌, length, Text, ok, >>=-eq-ok, ok-injective,
}
use go_librespot_termux.Tracks.Paged
use go_librespot_termux.Tracks.Paged.{
  Index, Item, Iter, Pages, PagedList, iter_start, next, get, moved, swap_at, shuffle, unshuffle,
}
use go_librespot_termux.Tracks.Paged.Swap.{swap_at-inv, swap_at-swap_at, entry_at, entry_at-moved}
use go_librespot_termux.Tracks.Paged.Shuffle.{unshuffle-shuffle, unshuffle-any}
use go_librespot_termux.Tracks.Track.{ContextTrack}
use go_librespot_termux.Tracks.TrackList.{TrackList, SeekError, walk_loop}
use go_librespot_termux.Tracks.TrackList.Extends.{Extends, walk_loop-Extends}
use go_librespot_termux.Tracks.Toggle.{
  keep_first, restore_first, shuffle_on, unshuffle_seeded, toggle_shuffle,
}

-- What moving the current track to the front does to the list, and that it can be undone at any
-- later position.
record Kept (m first : PagedList ContextTrack) (keep : Index) : Type 0 where
  current : entry_at first.list first.pos ≡ entry_at m.list m.pos
  size : length first.list ≡ length m.list
  back :
      (q : Index)
      → (q' : Index) × (restore_first keep (record first { pos = q }) ≡ ok (record m { pos = q' }))
        × (entry_at m.list q' ≡ entry_at first.list q)

Kept-same : (m : PagedList ContextTrack) → Kept m m none
unfolding restore_first
Kept-same m = record { current = refl; size = refl; back = λ q. (q, refl, refl) }

Kept-swap :
    (m first : PagedList ContextTrack) (p : ℕ)
    → Paged.swap 0 (suc p) m ≡ ok first
    → Kept m first (some (suc p))
unfolding restore_first Paged.swap
Kept-swap m first p h =
    let (b, run, e) = >>=-eq-ok (swap_at m.list 0 (suc p)) _ h in
    let (h0, hp, s) = swap_at-inv m.list b 0 (suc p) run in
    let undo = swap_at-swap_at m.list b 0 (suc p) h0 hp s in
    let whole : record m { list = b; pos = moved 0 (suc p) m.pos } ≡ first = ok-injective e in
    subst (λ x. Kept m x (some (suc p))) whole
      (record {
        current = entry_at-moved m.list b 0 (suc p) m.pos s;
        size = s.size;
        back = λ q. (
          moved 0 (suc p) q,
          rw undo,
          entry_at-moved b m.list 0 (suc p) q (swap_at-inv b m.list 0 (suc p) undo).2,
        );
      })

keep_first-Kept :
    (m first : PagedList ContextTrack) (keep : Index)
    → keep_first m ≡ ok (first, keep)
    → Kept m first keep
unfolding keep_first
keep_first-Kept m first keep h = go m.pos refl
  where
    go : (p : Index) → m.pos ≡ p → Kept m first keep
    go none e =
        let same = ok-injective (rw (e, keep_first) at h) in
        subst (λ (x : PagedList ContextTrack × Index). Kept m x.0 x.1) same (Kept-same m)
    go (some zero) e =
        let same = ok-injective (rw (e, keep_first) at h) in
        subst (λ (x : PagedList ContextTrack × Index). Kept m x.0 x.1) same (Kept-same m)
    go (some (suc p)) e =
        let (f, run, h1) = >>=-eq-ok (Paged.swap 0 (suc p) m) _ (rw (e, keep_first) at h) in
        subst (λ (x : PagedList ContextTrack × Index). Kept m x.0 x.1) (ok-injective h1)
          (Kept-swap m f p run)

module _ {κ} {G : Type κ} (intn : ℕ → G → ℕ × G) (source : ℕ → G) where
  -- The steps of turning the shuffle on.
  record TurnedOn (pages : Pages ContextTrack) (fuel drawn : ℕ) (tl on : TrackList) : Type 0 where
    walked : PagedList ContextTrack
    mixed : PagedList ContextTrack
    walk : walk_loop pages fuel tl.tracks iter_start ≡ ok walked
    mix : shuffle intn (source on.shuffle_seed) walked ≡ ok mixed
    kept : Kept mixed on.tracks on.shuffle_keep
    size : on.shuffle_len ≡ length on.tracks.list
    seed : on.shuffle_seed ≡ (drawn + 1) % 2 ^ 64
    on' : on.shuffled ≡ true

  shuffle_on-TurnedOn :
      (pages : Pages ContextTrack) (fuel drawn : ℕ) (tl on : TrackList)
      → shuffle_on intn source pages fuel drawn tl ≡ ok on
      → TurnedOn pages fuel drawn tl on
  unfolding shuffle_on
  shuffle_on-TurnedOn pages fuel drawn tl on h =
      let seed = (drawn + 1) % 2 ^ 64 in
      let (l, walked, h1) = >>=-eq-ok (walk_loop pages fuel tl.tracks iter_start) _ h in
      let (m, mixed, h2) = >>=-eq-ok (shuffle intn (source seed) l) _ h1 in
      let (x, kept, h3) = >>=-eq-ok (keep_first m) _ h2 in
      subst (TurnedOn pages fuel drawn tl) (ok-injective h3) (record {
        walked = l;
        mixed = m;
        walk = walked;
        mix = mixed;
        kept = keep_first-Kept m x.0 x.1 kept;
        size = refl;
        seed = refl;
        on' = refl;
      })

  unshuffle_seeded-back :
      ((n : ℕ) (g : G) → 0 < n → (intn n g).0 < n)
      → (pages : Pages ContextTrack) (fuel drawn : ℕ) (tl on : TrackList) (q : Index)
      → (t : TurnedOn pages fuel drawn tl on)
      → (off : TrackList) × (unshuffle_seeded intn source
            (record on { tracks = record (on.tracks) { pos = q } })
          ≡ ok off)
        × (off.shuffled ≡ false)
        × (off.tracks.list ≡ t.walked.list)
        × (entry_at off.tracks.list off.tracks.pos ≡ entry_at on.tracks.list q)
  unfolding unshuffle_seeded
  unshuffle_seeded-back contract pages fuel drawn tl on q t =
      let (m, mix, perm, current, undo) =
        unshuffle-shuffle intn contract (source on.shuffle_seed) t.walked in
      let same : m ≡ t.mixed = ok-injective (sym mix ∙ t.mix) in
      let (q1, r1, e1) = t.kept.back q in
      let (q2, r2, e2) =
        unshuffle-any intn (source on.shuffle_seed) t.mixed t.walked q1
          (subst (λ x. unshuffle intn (source on.shuffle_seed) x ≡ ok t.walked) same undo) in
      (
        record on { shuffled = false; tracks = record (t.walked) { pos = q2 } },
        rw (r1, r2),
        refl,
        refl,
        e2 ∙ e1,
      )

  toggle_shuffle-on :
      (pages : Pages ContextTrack) (fuel : ℕ) (typ : Text) (drawn : ℕ) (tl on : TrackList)
      → tl.shuffled ≡ false
      → toggle_shuffle intn source pages fuel typ drawn true tl ≡ ok (on, none)
      → shuffle_on intn source pages fuel drawn tl ≡ ok on
  unfolding toggle_shuffle
  toggle_shuffle-on pages fuel typ drawn tl on plain h =
      let (u, run, e) =
        >>=-eq-ok (shuffle_on intn source pages fuel drawn tl) (λ u. ok (u, none))
          (rw plain at h) in
      run ∙ ap (λ (x : TrackList × Option SeekError). ok x.0) (ok-injective e)

  toggle_shuffle-off :
      (pages : Pages ContextTrack) (fuel : ℕ) (typ : Text) (drawn : ℕ) (on off : TrackList)
      → on.shuffled ≡ true
      → on.shuffle_seed ≢ 0
      → length on.tracks.list ≡ on.shuffle_len
      → unshuffle_seeded intn source on ≡ ok off
      → toggle_shuffle intn source pages fuel typ drawn false on ≡ ok (off, none)
  unfolding toggle_shuffle
  toggle_shuffle-off pages fuel typ drawn on off mixed seed size run =
      let s : (on.shuffle_seed == 0) ≡ false = ground arith in
      let e : (length on.tracks.list == on.shuffle_len) ≡ true = ground arith in
      rw (mixed, s, e, run)

  -- Turning the shuffle on and off again restores the order. Let the random source keep the contract
  -- of `Intn`, the list not be shuffled, turning it on succeed with a seed that is not 0, and the
  -- position be anywhere afterwards, with nothing fetched in between. Then turning it off succeeds
  -- without asking the resolver: the list is exactly the one that was walked before the shuffle, and
  -- the position is on the same entry as before turning it off. Turning it on kept the current entry
  -- too, and only added fetched entries at the end.
  pub toggle_shuffle_back :
      ((n : ℕ) (g : G) → 0 < n → (intn n g).0 < n)
      → (pages : Pages ContextTrack) (fuel fuel' : ℕ) (typ : Text) (drawn drawn' : ℕ)
        (tl on : TrackList) (q : Index)
      → tl.shuffled ≡ false
      → toggle_shuffle intn source pages fuel typ drawn true tl ≡ ok (on, none)
      → (drawn + 1) % 2 ^ 64 ≢ 0
      → (walked : PagedList ContextTrack) × (off : TrackList) × Extends tl.tracks walked
        × (entry_at on.tracks.list on.tracks.pos ≡ entry_at walked.list tl.tracks.pos)
        × (toggle_shuffle intn source pages fuel' typ drawn' false
              (record on { tracks = record (on.tracks) { pos = q } })
            ≡ ok (off, none))
        × (off.shuffled ≡ false)
        × (off.tracks.list ≡ walked.list)
        × (entry_at off.tracks.list off.tracks.pos ≡ entry_at on.tracks.list q)
  toggle_shuffle_back contract pages fuel fuel' typ drawn drawn' tl on q plain h nonzero =
      let t =
        shuffle_on-TurnedOn pages fuel drawn tl on
          (toggle_shuffle-on pages fuel typ drawn tl on plain h) in
      let ext = walk_loop-Extends pages fuel tl.tracks iter_start t.walked t.walk in
      let (m, mix, perm, current, undo) =
        unshuffle-shuffle intn contract (source on.shuffle_seed) t.walked in
      let same : m ≡ t.mixed = ok-injective (sym mix ∙ t.mix) in
      let (off, run, plain', order, entry) =
        unshuffle_seeded-back contract pages fuel drawn tl on q t in
      (
        t.walked,
        off,
        ext,
        t.kept.current
            ∙ (ap (λ (x : PagedList ContextTrack). entry_at x.list x.pos) (sym same)
                ∙ (current ∙ ap (entry_at t.walked.list) ext.pos)),
        toggle_shuffle-off pages fuel' typ drawn'
            (record on { tracks = record (on.tracks) { pos = q } }) off t.on'
            (λ z. nonzero (sym t.seed ∙ z)) (sym t.size) run,
        plain',
        order,
        entry,
      )
