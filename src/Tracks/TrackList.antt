-- ===== src/Tracks/TrackList.antt =====
-- tracks/tracks.go: the track list, its queue and its walks.
-- The context's resolver and the random source are parameters; logging is left out.
pub mod Extends
pub mod Seek
pub mod Halts
pub mod Moves
pub mod Queue
pub mod SeekTo
use go_librespot_termux.Prelude.{
  ℕ, zero, suc, ◌+◌, ◌-◌, ◌%◌, ◌^◌, Bool, true, false, not, ◌&&◌, List, [], ◌∷◌, ◌++◌, map, reverse,
  Option, none, some, ltb, leb, ◌==◌, if◌then◌else◌, length, take, drop, get_elem?, Text, codes,
  text_eq, Run, ok, panic, out_of_fuel, ◌>>=◌, or_panic,
}
use go_librespot_termux.Tracks.Paged
use go_librespot_termux.Tracks.Paged.{
  Index, Item, Pages, PagedList, Iter, IterError, MoveError, next, prev, get, move, move_start,
  move_injected, iter_here, iter_start, resident, clear,
}
use go_librespot_termux.Tracks.Track.{
  Metadata, ContextTrack, ProvidedTrack, meta_get, meta_set, meta_delete,
  context_track_to_provided_track, context_track_comparator,
}

abbrev pub seek_max_pages : ℕ
seek_max_pages = 256

abbrev pub max_tracks_in_context : ℕ
max_tracks_in_context = 32

-- `List`, less its resolver and its log. A `shuffle_keep` of -1 is none.
pub record TrackList : Type 0 where
  pub shuffled : Bool
  pub shuffle_seed : ℕ
  pub shuffle_len : ℕ
  pub shuffle_keep : Index
  pub tracks : PagedList ContextTrack
  pub playing_queue : Bool
  pub queue : List ContextTrack

unfoldable pub new_track_list : TrackList
unfolding Paged.new_paged
new_track_list = record {
  shuffled = false;
  shuffle_seed = 0;
  shuffle_len = 0;
  shuffle_keep = some 0;
  tracks = Paged.new_paged;
  playing_queue = false;
  queue = [];
}

pub data SeekError : Type 0 where
  gave_up : ℕ → SeekError
  fetching : IterError → SeekError
  not_found : SeekError

unfoldable pub page_reaches_max : Index → Bool
page_reaches_max none = false
page_reaches_max (some p) = leb seek_max_pages p

-- What `current` returns: the head of the queue while it plays, else the entry at the position.
unfoldable pub current : TrackList → Run ContextTrack
current tl =
    if tl.playing_queue
    then or_panic (get_elem? tl.queue 0)
    else (do x ← get tl.tracks tl.tracks.pos; ok x.item)

unfoldable pub upcoming_queue : TrackList → Run (List ContextTrack)
upcoming_queue tl =
    if tl.playing_queue then elim tl.queue [ [] ↦ panic | _ ∷ q ↦ ok q ] else ok tl.queue

-- The queue still to play; its head is skipped only if the queue plays.
unfoldable pub queue_rest : TrackList → List ContextTrack
queue_rest tl = if tl.playing_queue then drop 1 tl.queue else tl.queue

unfoldable pub set_playing_queue : Bool → TrackList → TrackList
set_playing_queue val tl = record tl { playing_queue = ltb 0 (length tl.queue) && val }

-- `track.Metadata == nil` makes a map, so the write below cannot panic.
unfoldable pub made_metadata : Metadata → Metadata
made_metadata none = some []
made_metadata (some m) = some m

unfoldable pub add_to_queue : ContextTrack → TrackList → Run TrackList
unfolding made_metadata
add_to_queue t tl = do
  m ← meta_set (codes "is_queued") (codes "true") (made_metadata t.metadata)
  ok (record tl { queue = tl.queue ++ (record t { metadata = m } ∷ []) })

unfoldable pub is_queued : ContextTrack → Bool
is_queued t = text_eq (meta_get (codes "is_queued") t.metadata) (codes "true")

-- The loop of `SetQueue` stops at the first track that is not queued.
unfoldable pub append_queued : List ContextTrack → List ContextTrack → List ContextTrack
unfolding is_queued
append_queued q [] = q
append_queued q (t ∷ ts) =
    let rest = append_queued (q ++ (t ∷ [])) ts in if is_queued t then rest else q

-- `tl.queue[:1]` of an empty queue panics.
unfoldable pub set_queue : List ContextTrack → TrackList → Run TrackList
unfolding append_queued
set_queue upcoming tl =
    let kept : Run (List ContextTrack) =
      if tl.playing_queue then elim tl.queue [ [] ↦ panic | t ∷ _ ↦ ok (t ∷ []) ] else ok [] in
    kept >>= λ q. ok (record tl { queue = append_queued q upcoming })

-- `tl.queue[1:]` of an empty queue panics.
unfoldable pub pop_queue : TrackList → Run TrackList
pop_queue tl = elim tl.queue [ [] ↦ panic | _ ∷ q ↦ ok (record tl { queue = q }) ]

-- The rest of the list from the first track that matches.
unfoldable pub find_from :
    (ContextTrack → Run Bool) → List ContextTrack → Run (Option (List ContextTrack))
find_from test [] = ok none
find_from test (t ∷ ts) =
    let rest = find_from test ts in test t >>= λ hit. if hit then ok (some (t ∷ ts)) else rest

module _ (typ : Text) where
  unfoldable pub queue_match : ContextTrack → Run (ContextTrack → Run Bool)
  queue_match track =
      if length track.uid == 0
      then context_track_comparator typ track
      else ok (λ queued. ok (text_eq queued.uid track.uid))

  unfoldable pub seek_queue : ContextTrack → TrackList → Run (TrackList × Bool)
  unfolding queue_match find_from
  seek_queue track tl = do
    test ← queue_match track
    found ← find_from test (drop (if tl.playing_queue then 1 else 0) tl.queue)
    elim found [
      | none ↦ ok (tl, false)
      | some q ↦ ok (record tl { queue = q; playing_queue = true }, true)
    ]

unfoldable pub seek_ended :
    PagedList ContextTrack → Iter → PagedList ContextTrack × Option SeekError
seek_ended l i = elim i.err [ none ↦ (l, some not_found) | some e ↦ (l, some (fetching e)) ]

abbrev pub SeekRun : Type 0
SeekRun = Run (PagedList ContextTrack × Option SeekError)

-- A round of the loop of `Seek` after `next`, given the rounds that follow.
unfoldable pub seek_round :
    (PagedList ContextTrack → Iter → SeekRun)
    → (ContextTrack → Run Bool)
    → PagedList ContextTrack × Iter × Bool
    → SeekRun
unfolding seek_ended page_reaches_max
seek_round again f (l, i, false) = ok (seek_ended l i)
seek_round again f (l, i, true) =
    let more = again l i in
    get l i.at >>= λ curr. f curr.item >>= λ hit.
    if hit
    then (move l i >>= λ m. ok (m, none))
    else if page_reaches_max curr.page_idx
    then ok (l, some (gave_up (Paged.after curr.page_idx)))
    else more

-- A round of the walk of `ToggleShuffle`.
unfoldable pub walk_round :
    (PagedList ContextTrack → Iter → Run (PagedList ContextTrack))
    → PagedList ContextTrack × Iter × Bool
    → Run (PagedList ContextTrack)
unfolding page_reaches_max
walk_round again (l, i, false) = ok l
walk_round again (l, i, true) =
    let more = again l i in
    get l i.at >>= λ curr. if page_reaches_max curr.page_idx then ok l else more

module _ (pages : Pages ContextTrack) where
  -- These loops take fuel, since how many rounds they take depends on the sizes of the pages.
  unfoldable pub seek_loop : (ContextTrack → Run Bool) → ℕ → PagedList ContextTrack → Iter → SeekRun
  unfolding seek_round
  seek_loop f zero l i = out_of_fuel
  seek_loop f (suc n) l i = next pages l i >>= seek_round (λ l' i'. seek_loop f n l' i') f

  unfoldable pub walk_loop : ℕ → PagedList ContextTrack → Iter → Run (PagedList ContextTrack)
  unfolding walk_round
  walk_loop zero l i = out_of_fuel
  walk_loop (suc n) l i = next pages l i >>= walk_round (λ l' i'. walk_loop n l' i')

  unfoldable pub seek :
      ℕ → (ContextTrack → Run Bool) → TrackList → Run (TrackList × Option SeekError)
  unfolding seek_loop iter_start
  seek fuel f tl =
      seek_loop f fuel tl.tracks iter_start >>= λ (l, e). ok (record tl { tracks = l }, e)

  -- `TrySeek` falls back to the start, whose error is returned.
  unfoldable pub try_seek :
      ℕ → (ContextTrack → Run Bool) → TrackList → Run (TrackList × Option MoveError)
  unfolding seek
  try_seek fuel f tl = seek fuel f tl >>= λ (t, e). elim e [
    | none ↦ ok (t, none)
    | some _ ↦ let moved = move_start pages t.tracks in ok (record t { tracks = moved.0 }, moved.1)
  ]

  unfoldable pub try_seek_to : ℕ → Text → ContextTrack → TrackList → Run TrackList
  unfolding seek_queue seek
  try_seek_to fuel typ track tl = seek_queue typ track tl >>= λ (queued, done).
      let left : Run TrackList =
        if queued.playing_queue
        then (pop_queue queued >>= λ t. ok (record t { playing_queue = false }))
        else ok queued in
      let walked : Run TrackList = left >>= λ t. context_track_comparator typ track >>= λ test.
      seek fuel test t >>= λ (u, e). elim e [
        | none ↦ ok u
        | some _ ↦ ok (record u { tracks = move_injected track u.tracks })
      ] in
      if done then ok queued else walked

  unfoldable pub go_start : TrackList → TrackList × Bool
  go_start tl =
      let moved = move_start pages tl.tracks in
      (record tl { tracks = moved.0 }, elim moved.1 [ none ↦ true | some _ ↦ false ])

  unfoldable pub peek_next : TrackList → Run (TrackList × Option ContextTrack)
  peek_next tl =
      let walk : Run (TrackList × Option ContextTrack) = iter_here tl.tracks >>= λ i.
      next pages tl.tracks i >>= λ (l, i', found).
      let got : Run (TrackList × Option ContextTrack) =
        get l i'.at >>= λ x. ok (record tl { tracks = l }, some x.item) in
      if found then got else ok (record tl { tracks = l }, none) in
      if tl.playing_queue && ltb 1 (length tl.queue)
      then (or_panic (get_elem? tl.queue 1) >>= λ t. ok (tl, some t))
      else if not tl.playing_queue && ltb 0 (length tl.queue)
      then (or_panic (get_elem? tl.queue 0) >>= λ t. ok (tl, some t))
      else walk

  -- `GoNext` once the queue has nothing to play.
  unfoldable pub go_next_context : TrackList → Run (TrackList × Bool)
  go_next_context tl = iter_here tl.tracks >>= λ i. next pages tl.tracks i >>= λ (l, i', found).
      let moved : Run (TrackList × Bool) =
        move l i' >>= λ m. ok (record tl { tracks = m; playing_queue = false }, true) in
      if found then moved else ok (record tl { tracks = l; playing_queue = false }, false)

  unfoldable pub go_next : TrackList → Run (TrackList × Bool)
  unfolding go_next_context pop_queue
  go_next tl = (if tl.playing_queue then pop_queue tl else ok tl) >>= λ t.
      if ltb 0 (length t.queue)
      then ok (record t { playing_queue = true }, true)
      else go_next_context t

unfoldable pub go_prev : TrackList → Run (TrackList × Bool)
go_prev tl =
    let left = record tl { playing_queue = false } in
    iter_here tl.tracks >>= λ i. prev i >>= λ (i', found).
    let moved : Run (TrackList × Bool) =
      move tl.tracks i' >>= λ m. ok (record left { tracks = m }, true) in
    if found then moved else ok (left, false)
