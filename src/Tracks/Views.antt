-- ===== src/Tracks/Views.antt =====
-- tracks/tracks.go: what the daemon publishes about a track list.
pub mod Next
pub mod Prev
use go_librespot_termux.Prelude.{
  ℕ, zero, suc, ◌-◌, ◌%◌, ◌^◌, ◌&&◌, List, [], ◌∷◌, ◌++◌, reverse, Option, none, some, ltb,
  if◌then◌else◌, length, take, drop, Text, codes, Run, ok, ◌>>=◌,
}
use go_librespot_termux.Tracks.Paged.{
  Index, Pages, PagedList, Iter, next, prev, get, iter_here, resident,
}
use go_librespot_termux.Tracks.Track.{
  Metadata, ContextTrack, ProvidedTrack, meta_delete, context_track_to_provided_track,
}
use go_librespot_termux.Tracks.TrackList.{TrackList, queue_rest, max_tracks_in_context, current}

-- An unset index is the pair of zeros.
pub record ContextIndex : Type 0 where
  pub page : ℕ
  pub track : ℕ

pub record Snapshot : Type 0 where
  pub metadata : Metadata
  pub current : ProvidedTrack
  pub before : List ProvidedTrack
  pub upcoming : List ProvidedTrack
  pub index : ContextIndex

unfoldable pub provided_all : Text → List ContextTrack → Run (List ProvidedTrack)
provided_all typ [] = ok []
provided_all typ (t ∷ ts) = do
  p ← context_track_to_provided_track typ t
  ps ← provided_all typ ts
  ok (p ∷ ps)

-- A conversion of an `int` index to uint32, where -1 is all ones.
unfoldable pub to_uint32 : Index → ℕ
to_uint32 none = 2 ^ 32 - 1
to_uint32 (some n) = n % 2 ^ 32

-- `Index`: the queue and an injected track have none within the context.
unfoldable pub index : TrackList → Run ContextIndex
unfolding to_uint32
index tl =
    let unset : ContextIndex = record { page = 0; track = 0 } in
    let placed : Run ContextIndex = get tl.tracks tl.tracks.pos >>= λ c. elim c.page_idx [
      | none ↦ ok unset
      | some p ↦ ok (record { page = p % 2 ^ 32; track = to_uint32 c.item_idx })
    ] in
    if tl.playing_queue then ok unset else placed

module _ (typ : Text) where
  unfoldable pub current_track : TrackList → Run ProvidedTrack
  current_track tl = current tl >>= context_track_to_provided_track typ

  -- `AllTracks`; a limit that is not above 0 is 0 here.
  unfoldable pub all_tracks : ℕ → TrackList → Run (List ProvidedTrack)
  unfolding provided_all
  all_tracks limit tl =
      let items = resident tl.tracks in
      provided_all typ (
        if ltb 0 limit && ltb limit (length items)
        then drop (length items - limit) items
        else items)

  -- The loop of `PrevTracks`, with room for `n` more tracks.
  unfoldable pub prev_loop :
      PagedList ContextTrack → ℕ → Iter → List ProvidedTrack → Run (List ProvidedTrack)
  prev_loop l zero i acc = ok acc
  prev_loop l (suc n) i acc = prev i >>= λ (i', found).
      let more : Run (List ProvidedTrack) = get l i'.at >>= λ c.
      context_track_to_provided_track typ c.item >>= λ p. prev_loop l n i' (acc ++ (p ∷ [])) in
      if found then more else ok acc

  unfoldable pub prev_tracks : TrackList → Run (List ProvidedTrack)
  unfolding prev_loop
  prev_tracks tl = iter_here tl.tracks >>= λ i.
      prev_loop tl.tracks max_tracks_in_context i [] >>= λ acc. ok (reverse acc)

  -- The loop over the hint: the tracks, and the hint with `is_queued` deleted where it was used.
  unfoldable pub hint_loop :
      ℕ → ℕ → List ContextTrack → List ProvidedTrack → Run (List ProvidedTrack × List ContextTrack)
  hint_loop queued idx [] acc = ok (acc, [])
  hint_loop queued idx (c ∷ cs) acc =
      let freed = record c { metadata = meta_delete (codes "is_queued") c.metadata } in
      let skip : Run (List ProvidedTrack × List ContextTrack) =
        hint_loop queued (suc idx) cs acc >>= λ (ts, hs). ok (ts, c ∷ hs) in
      let use' : Run (List ProvidedTrack × List ContextTrack) =
        context_track_to_provided_track typ freed >>= λ p.
        hint_loop queued (suc idx) cs (acc ++ (p ∷ [])) >>= λ (ts, hs). ok (ts, freed ∷ hs) in
      if ltb idx queued
      then skip
      else if ltb (length acc) max_tracks_in_context
      then use'
      else ok (acc, c ∷ cs)

  -- The walk of `NextTracks`, with room for `n` more tracks.
  unfoldable pub next_tracks_loop :
      Pages ContextTrack
      → ℕ
      → PagedList ContextTrack
      → Iter
      → List ProvidedTrack
      → Run (PagedList ContextTrack × List ProvidedTrack)
  next_tracks_loop pages zero l i acc = ok (l, acc)
  next_tracks_loop pages (suc n) l i acc = next pages l i >>= λ (l', i', found).
      let more : Run (PagedList ContextTrack × List ProvidedTrack) = get l' i'.at >>= λ c.
      context_track_to_provided_track typ c.item >>= λ p.
      next_tracks_loop pages n l' i' (acc ++ (p ∷ [])) in
      if found then more else ok (l', acc)

  -- `NextTracks`: the list after the walk, the tracks, and the hint as it is left.
  unfoldable pub next_tracks :
      Pages ContextTrack
      → Option (List ContextTrack)
      → TrackList
      → Run (TrackList × List ProvidedTrack × Option (List ContextTrack))
  unfolding provided_all queue_rest hint_loop next_tracks_loop
  next_tracks pages hint tl =
      provided_all typ (take max_tracks_in_context (queue_rest tl)) >>= λ queued. elim hint [
        | some cs ↦
            hint_loop (length (queue_rest tl)) 0 cs queued >>= λ (ts, hs). ok (tl, ts, some hs)
        | none ↦ iter_here tl.tracks >>= λ i.
            next_tracks_loop pages (max_tracks_in_context - length queued) tl.tracks i queued
            >>= λ (l, ts). ok (record tl { tracks = l }, ts, none)
      ]

  -- `Snapshot`, whose tracks are copies.
  unfoldable pub snapshot :
      Pages ContextTrack
      → Metadata
      → Option (List ContextTrack)
      → TrackList
      → Run (TrackList × Snapshot)
  unfolding current_track prev_tracks next_tracks index
  snapshot pages metadata hint tl = current_track tl >>= λ c. prev_tracks tl >>= λ ps.
      next_tracks pages hint tl >>= λ (tl', ns, _). index tl' >>= λ x.
      ok (tl', record { metadata = metadata; current = c; before = ps; upcoming = ns; index = x })
