-- ===== src/Tracks/Views/Next.antt =====
-- tracks/tracks.go: which tracks `NextTracks` publishes when it is given no hint.
use go_librespot_termux.Prelude.{
  ℕ, zero, suc, ◌+◌, ◌-◌, ◌≤◌, ◌<◌, ◌≡◌, refl, ap, sym, ◌∙◌, subst, Bool-cases, inl, inr, List, [],
  ◌∷◌, ◌++◌, append_assoc, append-nil, Option, none, some, arith, length, length-append,
  length-take, take, drop, get_elem?, get_elem?-append, lt_of_get_elem?, Text, ok, >>=-eq-ok,
  ok-injective, or_panic-eq-ok,
}
use go_librespot_termux.Tracks.Paged.{Item, Pages, PagedList, Iter, after, next, get, iter_here}
use go_librespot_termux.Tracks.Paged.Fetch.{Advanced, next-Advanced}
use go_librespot_termux.Tracks.Track.{ContextTrack, ProvidedTrack, context_track_to_provided_track}
use go_librespot_termux.Tracks.TrackList.{TrackList, queue_rest}
use go_librespot_termux.Tracks.TrackList.Moves.Valid.{iter_here-ok}
use go_librespot_termux.Tracks.Views.{next_tracks_loop, next_tracks, provided_all}
use go_librespot_termux.Tracks.Views.Prev.{Published, published_nil, published_cons}

module _ {A : Type 0} where
  drop-get :
      (xs : List A) (a : ℕ) (x : A) → get_elem? xs a ≡ some x → drop a xs ≡ x ∷ drop (suc a) xs
  drop-get [] a x e = absurd (cc)
  drop-get (y ∷ xs) zero x e = cc
  drop-get (y ∷ xs) (suc a) x e = drop-get xs a x e

-- The entries that follow an index, and what the walk over them published.
record Followed (typ : Text) (l : PagedList ContextTrack) (a n : ℕ) (acc : List ProvidedTrack)
    (r : PagedList ContextTrack × List ProvidedTrack) : Type 0 where
  rest : List ProvidedTrack
  out : r.1 ≡ acc ++ rest
  room : length rest ≤ n
  kept : (ext : List (Item ContextTrack)) × (r.0.list ≡ l.list ++ ext)
  tracks : Published typ (take (length rest) (drop a r.0.list)) rest
  ended : length rest < n → length r.0.list ≤ a + length rest

module _ (typ : Text) (pages : Pages ContextTrack) where
  Followed-none :
      (l m : PagedList ContextTrack) (a n : ℕ) (acc : List ProvidedTrack)
      → (ext : List (Item ContextTrack)) × (m.list ≡ l.list ++ ext)
      → (0 < n → length m.list ≤ a)
      → Followed typ l a n acc (m, acc)
  Followed-none l m a n acc kept end = record {
    rest = [];
    out = sym (append-nil acc);
    room = omega arith;
    kept = kept;
    tracks = published_nil;
    ended = λ h. omega (arith, end h);
  }

  Followed-cons :
      (l m : PagedList ContextTrack) (a n : ℕ) (acc : List ProvidedTrack) (x : Item ContextTrack)
      (t : ProvidedTrack) (r : PagedList ContextTrack × List ProvidedTrack)
      → (ext : List (Item ContextTrack)) × (m.list ≡ l.list ++ ext)
      → get_elem? m.list a ≡ some x
      → context_track_to_provided_track typ x.item ≡ ok t
      → Followed typ m (suc a) n (acc ++ (t ∷ [])) r
      → Followed typ l a (suc n) acc r
  Followed-cons l m a n acc x t r kept got made f =
      let here : get_elem? r.0.list a ≡ some x =
        ap (λ xs. get_elem? xs a) f.kept.1
        ∙ (get_elem?-append m.list f.kept.0 a (lt_of_get_elem? m.list a got) ∙ got) in
      record {
        rest = t ∷ f.rest;
        out = f.out ∙ append_assoc acc (t ∷ []) f.rest;
        room = omega (arith, f.room);
        kept = (
          kept.0 ++ f.kept.0,
          f.kept.1 ∙ (ap (λ xs. xs ++ f.kept.0) kept.1 ∙ append_assoc l.list kept.0 f.kept.0),
        );
        tracks =
            subst (λ xs. Published typ (take (suc (length f.rest)) xs) (t ∷ f.rest))
              (sym (drop-get r.0.list a x here)) (published_cons x _ t f.rest made f.tracks);
        ended = λ h. omega (arith, f.ended (omega arith));
      }

  next_tracks_loop-Followed :
      (n : ℕ) (l : PagedList ContextTrack) (i : Iter) (acc : List ProvidedTrack)
      (r : PagedList ContextTrack × List ProvidedTrack)
      → next_tracks_loop typ pages n l i acc ≡ ok r
      → Followed typ l (after i.at) n acc r
  unfolding next_tracks_loop get
  next_tracks_loop-Followed zero l i acc r e =
      subst (Followed typ l (after i.at) zero acc) (ok-injective e) (
        Followed-none l l (after i.at) zero acc ([], sym (append-nil l.list))
          (λ h. absurd (omega arith)))
  next_tracks_loop-Followed (suc n) l i acc r e =
      let (s, run, e1) = >>=-eq-ok (next pages l i) _ e in
      let (s', run', adv) = next-Advanced pages l i in
      let same : s' ≡ s = ok-injective (sym run' ∙ run) in
      let a = subst (Advanced l i) same adv in
      elim (Bool-cases s.2) [
        | inr miss ↦
            subst (Followed typ l (after i.at) (suc n) acc) (ok-injective (rw miss at e1))
              (Followed-none l s.0 (after i.at) (suc n) acc a.kept (λ h. (a.ended miss).1))
        | inl hit ↦
            let (x, got, e2) = >>=-eq-ok (get s.0 s.1.at) _ (rw hit at e1) in
            let (t, made, e3) = >>=-eq-ok (context_track_to_provided_track typ x.item) _ e2 in
            let at' : s.1.at ≡ some (after i.at) = ap (λ (j : Iter). j.at) (a.found hit).0 in
            Followed-cons l s.0 (after i.at) n acc x t r a.kept
              (or_panic-eq-ok (get_elem? s.0.list (after i.at)) (rw at' at got)) made
              (subst (λ k. Followed typ s.0 k n (acc ++ (t ∷ [])) r) (ap after at')
                (next_tracks_loop-Followed n s.0 s.1 (acc ++ (t ∷ [])) r e3))
      ]

  provided_all-length :
      (ts : List ContextTrack) (ps : List ProvidedTrack)
      → provided_all typ ts ≡ ok ps
      → length ps ≡ length ts
  unfolding provided_all
  provided_all-length [] ps e = ap length (sym (ok-injective e))
  provided_all-length (t ∷ ts) ps e =
      let (q, made, e1) = >>=-eq-ok (context_track_to_provided_track typ t) _ e in
      let (qs, all', e2) = >>=-eq-ok (provided_all typ ts) _ e1 in
      ap length (sym (ok-injective e2)) ∙ ap suc (provided_all-length ts qs all')

  -- What `NextTracks` publishes of a list at a position.
  pub record Upcoming (tl : TrackList) (p : ℕ) (u : TrackList) (ts : List ProvidedTrack)
      : Type 0 where
    pub queued : List ProvidedTrack
    pub rest : List ProvidedTrack
    pub out : ts ≡ queued ++ rest
    pub from_queue : provided_all typ (take 32 (queue_rest tl)) ≡ ok queued
    pub from_context : Published typ (take (length rest) (drop (suc p) u.tracks.list)) rest
    pub bound : length ts ≤ 32
    pub ended : length ts < 32 → length u.tracks.list ≤ suc p + length rest
    pub kept : (ext : List (Item ContextTrack)) × (u.tracks.list ≡ tl.tracks.list ++ ext)
    pub same : u ≡ record tl { tracks = u.tracks }

  Upcoming-from :
      (tl : TrackList) (p : ℕ) (queued : List ProvidedTrack)
      (r : PagedList ContextTrack × List ProvidedTrack)
      → provided_all typ (take 32 (queue_rest tl)) ≡ ok queued
      → Followed typ tl.tracks (suc p) (32 - length queued) queued r
      → Upcoming tl p (record tl { tracks = r.0 }) r.1
  Upcoming-from tl p queued r e f =
      let few : length queued ≤ 32 = omega (
        arith,
        provided_all-length (take 32 (queue_rest tl)) queued e,
        length-take 32 (queue_rest tl),
      ) in
      let size = ap length f.out ∙ length-append queued f.rest in
      record {
        queued = queued;
        rest = f.rest;
        out = f.out;
        from_queue = e;
        from_context = f.tracks;
        bound = omega (arith, few, size, f.room);
        ended = λ h. f.ended (omega (arith, few, size, h));
        kept = f.kept;
        same = refl;
      }

  -- Without a hint, `NextTracks`, where it returns, gives at most 32 tracks: the queue still to play, or
  -- its first 32 tracks, and then the entries of the context that follow the position, in their order and
  -- without a gap. If there are fewer than 32, every loaded entry after the position is among them. The
  -- track list is the same but for the entries that were fetched, which are added at its end.
  pub next_tracks-Upcoming :
      (tl : TrackList) (p : ℕ) (u : TrackList) (ts : List ProvidedTrack)
      (hint : Option (List ContextTrack))
      → tl.tracks.pos ≡ some p
      → next_tracks typ pages none tl ≡ ok (u, ts, hint)
      → Upcoming tl p u ts
  unfolding next_tracks
  next_tracks-Upcoming tl p u ts hint pos e =
      let (queued, q, e1) = >>=-eq-ok (provided_all typ (take 32 (queue_rest tl))) _ e in
      let (i, here, e2) = >>=-eq-ok (iter_here tl.tracks) _ e1 in
      let at' : after i.at ≡ suc p =
        ap (λ (j : Iter). after j.at) (ok-injective (sym here ∙ iter_here-ok tl.tracks p pos)) in
      let (r, run, e3) =
        >>=-eq-ok (next_tracks_loop typ pages (32 - length queued) tl.tracks i queued) _ e2 in
      let f =
        subst (λ k. Followed typ tl.tracks k (32 - length queued) queued r) at'
          (next_tracks_loop-Followed (32 - length queued) tl.tracks i queued r run) in
      let done = ok-injective e3 in
      subst
        (λ (x : TrackList × List ProvidedTrack × Option (List ContextTrack)). Upcoming tl p x.0 x.1)
        done (Upcoming-from tl p queued r q f)
