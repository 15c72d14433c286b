-- ===== src/Tracks/TrackList/Moves.antt =====
-- tracks/tracks.go: `GoNext`, `GoPrev` and `PeekNext`.
pub mod Valid
use go_librespot_termux.Prelude.{
  ℕ, zero, suc, ◌-◌, ◌≤◌, ◌<◌, ◌≡◌, refl, ap, ◌∙◌, Bool, true, false, List, [], ◌∷◌, ◌++◌, Option,
  none, some, arith, Bool-cases, inl, inr, ltb, lt→ltb, not, ◌&&◌, if◌then◌else◌, length, get_elem?,
  get_elem?-some, get_elem?-append, lt_of_get_elem?, append-nil, length-append, if_false, Run, sym,
  ok, ◌>>=◌,
}
use go_librespot_termux.Tracks.Paged.{
  Item, Iter, Index, Pages, PagedList, prev, get, move, iter_here,
}
use go_librespot_termux.Tracks.Paged.Fetch.{next-Advanced}
use go_librespot_termux.Tracks.Track.{ContextTrack}
use go_librespot_termux.Tracks.TrackList.{
  TrackList, current, queue_rest, pop_queue, go_next, go_next_context, go_prev, peek_next,
}
use go_librespot_termux.Tracks.TrackList.Queue.{HasHead}
use go_librespot_termux.Tracks.TrackList.Moves.Valid.{
  IsValid, iter_here-ok, move-ok, get-ok, with_queue, pop_played_cases, pop_played, WalkedOn,
  WalkedOn-IsValid,
}

module _ (pages : Pages ContextTrack) where
  go_next_context-WalkedOn :
      (t : TrackList) (p : ℕ)
      → t.tracks.pos ≡ some p
      → (u : TrackList) × (found : Bool) × (go_next_context pages t ≡ ok (u, found))
        × WalkedOn t p u found
  unfolding go_next_context
  go_next_context-WalkedOn t p e =
      let (r, run, a) = next-Advanced pages t.tracks (record { at = some p; err = none }) in
      let here = iter_here-ok t.tracks p e in
      elim (Bool-cases r.2) [
        | inl hit ↦ (
          record t { tracks = record (r.0) { pos = some (suc p) }; playing_queue = false },
          true,
          rw (here, run, hit, move-ok r.0 r.1 (suc p) (a.found hit).0),
          record {
            queue = refl;
            playing = refl;
            kept = a.kept;
            moved = λ _. (refl, (a.found hit).1);
            stayed = λ h. absurd (cc);
          },
        )
        | inr miss ↦ (
          record t { tracks = r.0; playing_queue = false },
          false,
          rw (here, run, miss),
          record {
            queue = refl;
            playing = refl;
            kept = a.kept;
            moved = λ h. absurd (cc);
            stayed = λ _. (a.pos ∙ e, (a.ended miss).1);
          },
        )
      ]

  -- `GoNext` with a queue still to play starts its next entry, and leaves the context alone.
  go_next-queue :
      (tl : TrackList) (x : ContextTrack) (q : List ContextTrack)
      → HasHead tl
      → queue_rest tl ≡ x ∷ q
      → (u : TrackList) × (go_next pages tl ≡ ok (u, true))
        × (current u ≡ ok x)
        × (u.queue ≡ x ∷ q)
        × (u.playing_queue ≡ true)
        × (u.tracks ≡ tl.tracks)
  unfolding go_next current
  go_next-queue tl x q h e = (
    record tl { playing_queue = true; queue = x ∷ q },
    rw (pop_played tl h, e, lt→ltb 0 (length (x ∷ q)) (omega arith)),
    refl,
    refl,
    refl,
    refl,
  )

  -- `GoNext` on a valid list with nothing left in the queue returns. It moves the position on by one,
  -- fetching at most what that needs, or reports that there is no next track and leaves the position.
  -- Either way the queue is empty and no longer plays, and the list is valid.
  go_next-context :
      (tl : TrackList)
      → (v : IsValid tl) → queue_rest tl ≡ []
      → (u : TrackList) × (found : Bool) × (go_next pages tl ≡ ok (u, found))
        × WalkedOn (record tl { queue = [] }) v.placed.0 u found
        × IsValid u
  unfolding go_next
  go_next-context tl v e =
      let t = record tl { queue = [] } in
      let (u, found, run, w) = go_next_context-WalkedOn t v.placed.0 v.placed.1 in
      (
        u,
        found,
        rw (pop_played tl v.head, e, run),
        w,
        WalkedOn-IsValid t v.placed.0 u found w v.placed.2,
      )

-- What `PeekNext` answered, with the list that it left, against what `GoNext` then does.
abbrev pub Agrees : Option ContextTrack → TrackList → TrackList × Bool → Type 0
Agrees none t (u, found) =
    (queue_rest t ≡ [])
    × (found ≡ true → (q : ℕ) × (u.tracks.pos ≡ some q) × (length t.tracks.list ≤ q))
Agrees (some x) t (u, found) = (found ≡ true) × (current u ≡ ok x)

-- `PeekNext` only adds fetched entries at the end, and `GoNext` agrees, whatever is answered by then.
pub record Peeks (tl t : TrackList) (o : Option ContextTrack) : Type 0 where
  pub same : t ≡ record tl { tracks = t.tracks }
  pub placed : t.tracks.pos ≡ tl.tracks.pos
  pub grown : (ext : List (Item ContextTrack)) × (t.tracks.list ≡ tl.tracks.list ++ ext)
  pub follows :
      (later : Pages ContextTrack)
      → (r : TrackList × Bool) × (go_next later t ≡ ok r) × Agrees o t r

abbrev Predicts : Pages ContextTrack → TrackList → Type 0
Predicts pages tl =
    (t : TrackList) × (o : Option ContextTrack) × (peek_next pages tl ≡ ok (t, o)) × Peeks tl t o

-- An entry ahead that is loaded is the one to move to.
follows-some :
    (later : Pages ContextTrack) (t : TrackList) (v : IsValid t) (x : Item ContextTrack)
    → queue_rest t ≡ []
    → get_elem? t.tracks.list (suc v.placed.0) ≡ some x
    → (r : TrackList × Bool) × (go_next later t ≡ ok r) × Agrees (some x.item) t r
unfolding current
follows-some later t v x e at' =
    let (u, found, run, w, _) = go_next-context later t v e in
    let ahead = lt_of_get_elem? t.tracks.list (suc v.placed.0) at' in
    let size = ap {B = ℕ} length w.kept.1 in
    elim (Bool-cases found) [
      | inl y ↦
          let entry =
            ap (λ a. get_elem? a (suc v.placed.0)) w.kept.1
            ∙ (get_elem?-append t.tracks.list w.kept.0 (suc v.placed.0) ahead ∙ at') in
          (
            (u, found),
            run,
            (
              y,
              if_false u.playing_queue _ _ w.playing
                  ∙ ap (λ (k : Run (Item ContextTrack)). k >>= λ y. ok y.item)
                      (get-ok u.tracks u.tracks.pos (suc v.placed.0) x (w.moved y).0 entry),
            ),
          )
      | inr n ↦
          absurd (omega (arith, (w.stayed n).1, ahead, size, length-append t.tracks.list w.kept.0))
    ]

follows-none :
    (later : Pages ContextTrack) (t : TrackList) (v : IsValid t)
    → queue_rest t ≡ []
    → length t.tracks.list ≤ suc v.placed.0
    → (r : TrackList × Bool) × (go_next later t ≡ ok r) × Agrees none t r
follows-none later t v e h =
    let (u, found, run, w, _) = go_next-context later t v e in
    ((u, found), run, (e, λ y. (suc v.placed.0, (w.moved y).0, h)))

module _ (pages : Pages ContextTrack) where
  peek_next-context :
      (tl : TrackList)
      → IsValid tl
      → queue_rest tl ≡ []
      → (tl.playing_queue && ltb 1 (length tl.queue)) ≡ false
      → (not tl.playing_queue && ltb 0 (length tl.queue)) ≡ false
      → Predicts pages tl
  unfolding peek_next queue_rest
  peek_next-context tl v rest a b =
      let p = v.placed.0 in
      let (r, run, adv) = next-Advanced pages tl.tracks (record { at = some p; err = none }) in
      let here = iter_here-ok tl.tracks p v.placed.1 in
      let t = record tl { tracks = r.0 } in
      let long : p < length r.0.list = omega (
        arith,
        v.placed.2,
        ap {B = ℕ} length adv.kept.1,
        length-append tl.tracks.list adv.kept.0,
      ) in
      let valid : IsValid t = record { placed = (p, adv.pos ∙ v.placed.1, long); head = v.head } in
      elim (Bool-cases r.2) [
        | inl hit ↦
            let (x, entry) = get_elem?-some r.0.list (suc p) (adv.found hit).1 in
            let at' = ap (λ (i : Iter). i.at) (adv.found hit).0 in
            (
              t,
              some x.item,
              rw (a, b, here, run, hit, get-ok r.0 r.1.at (suc p) x at' entry),
              record {
                same = refl;
                placed = adv.pos;
                grown = adv.kept;
                follows = λ later. follows-some later t valid x rest entry;
              },
            )
        | inr miss ↦ (
          t,
          none,
          rw (a, b, here, run, miss),
          record {
            same = refl;
            placed = adv.pos;
            grown = adv.kept;
            follows = λ later. follows-none later t valid rest (adv.ended miss).1;
          },
        )
      ]

  Predicts-queue :
      (tl : TrackList) (x : ContextTrack) (q : List ContextTrack)
      → HasHead tl
      → queue_rest tl ≡ x ∷ q
      → peek_next pages tl ≡ ok (tl, some x)
      → Predicts pages tl
  Predicts-queue tl x q h e peek = (
    tl,
    some x,
    peek,
    record {
      same = refl;
      placed = refl;
      grown = ([], sym (append-nil tl.tracks.list));
      follows = λ later.
          let (u, run, now, _, _, _) = go_next-queue later tl x q h e in
          ((u, true), run, (refl, now));
    },
  )

  peek_cases :
      (tl : TrackList) (p : Bool) (q : List ContextTrack)
      → IsValid (with_queue tl p q)
      → Predicts pages (with_queue tl p q)
  unfolding queue_rest peek_next
  peek_cases tl true [] v = absurd (omega (arith, v.head refl))
  peek_cases tl true (x ∷ []) v = peek_next-context (with_queue tl true (x ∷ [])) v refl refl refl
  peek_cases tl true (x ∷ y ∷ q) v =
      Predicts-queue (with_queue tl true (x ∷ y ∷ q)) y q v.head refl
        (rw (lt→ltb 1 (length (x ∷ y ∷ q)) (omega arith)))
  peek_cases tl false [] v = peek_next-context (with_queue tl false []) v refl refl refl
  peek_cases tl false (x ∷ q) v =
      Predicts-queue (with_queue tl false (x ∷ q)) x q v.head refl
        (rw (lt→ltb 0 (length (x ∷ q)) (omega arith)))

  -- On a valid list `PeekNext` returns and changes nothing, but for fetched entries that it adds at the
  -- end of the list. From the list that it leaves `GoNext` returns too, whatever the resolver answers by
  -- then, and does what was predicted: if the peek showed a track, `GoNext` moves to it; if it showed
  -- none, the queue holds nothing to play, and `GoNext` moves at most to an entry fetched after the peek.
  pub peek_next-go_next :
      (tl : TrackList)
      → IsValid tl
      → (t : TrackList) × (o : Option ContextTrack) × (peek_next pages tl ≡ ok (t, o))
        × Peeks tl t o
  peek_next-go_next tl v = peek_cases tl tl.playing_queue tl.queue v

-- `GoPrev` on a valid list returns: it leaves the queue without dropping its entries, and moves the
-- position back by one unless it is the first.
go_prev-back :
    (tl : TrackList)
    → (v : IsValid tl)
    → (u : TrackList) × (go_prev tl ≡ ok (u, ltb 0 v.placed.0))
      × (u.tracks.pos ≡ some (v.placed.0 - 1))
      × (u.tracks.list ≡ tl.tracks.list)
      × (u.queue ≡ tl.queue)
      × (u.playing_queue ≡ false)
unfolding go_prev prev
go_prev-back tl v = go v.placed.0 v.placed.1
  where
    go :
        (p : ℕ)
        → tl.tracks.pos ≡ some p
        → (u : TrackList) × (go_prev tl ≡ ok (u, ltb 0 p))
          × (u.tracks.pos ≡ some (p - 1))
          × (u.tracks.list ≡ tl.tracks.list)
          × (u.queue ≡ tl.queue)
          × (u.playing_queue ≡ false)
    go zero e = (
      record tl { playing_queue = false },
      rw (iter_here-ok tl.tracks zero e),
      e,
      refl,
      refl,
      refl,
    )
    go (suc p) e = (
      record tl { playing_queue = false; tracks = record (tl.tracks) { pos = some p } },
      rw (
        iter_here-ok tl.tracks (suc p) e,
        move-ok tl.tracks (record { at = some p; err = none }) p refl,
        lt→ltb 0 (suc p) (omega arith),
      ),
      ap some (omega arith),
      refl,
      refl,
      refl,
    )
