-- ===== src/Tracks/Toggle.antt =====
-- tracks/tracks.go: `ToggleShuffle`.
pub mod Rollback
pub mod RoundTrip
use go_librespot_termux.Prelude.{
  ℕ, zero, suc, ◌+◌, ◌%◌, ◌^◌, Bool, true, false, not, ◌&&◌, Option, none, some, ltb, ◌==◌,
  if◌then◌else◌, length, Text, Run, ok, ◌>>=◌,
}
use go_librespot_termux.Tracks.Paged
use go_librespot_termux.Tracks.Paged.{Index, Pages, PagedList, iter_start, clear}
use go_librespot_termux.Tracks.Track.{ContextTrack, context_track_comparator}
use go_librespot_termux.Tracks.TrackList.{TrackList, SeekError, current, walk_loop, seek}

-- "move current track to first": the position that is kept, and the list.
unfoldable pub keep_first : PagedList ContextTrack → Run (PagedList ContextTrack × Index)
keep_first l = elim l.pos [
  | none ↦ ok (l, none)
  | some zero ↦ ok (l, none)
  | some (suc p) ↦ Paged.swap 0 (suc p) l >>= λ m. ok (m, some (suc p))
]

-- "restore track that was originally moved to first"
unfoldable pub restore_first : Index → PagedList ContextTrack → Run (PagedList ContextTrack)
restore_first none l = ok l
restore_first (some zero) l = ok l
restore_first (some (suc p)) l = Paged.swap 0 (suc p) l

-- A seek that fails puts the list and the position back.
unfoldable pub unshuffle_fetched :
    Pages ContextTrack → ℕ → Text → TrackList → Run (TrackList × Option SeekError)
unshuffle_fetched pages fuel typ tl = current tl >>= λ track.
    context_track_comparator typ track >>= λ test.
    seek pages fuel test (record tl { tracks = clear tl.tracks }) >>= λ (u, e). elim e [
      | none ↦ ok (record u { shuffled = false }, none)
      | some err ↦
          let restored = record (u.tracks) { list = tl.tracks.list; pos = tl.tracks.pos } in
          ok (record u { tracks = restored }, some err)
    ]

-- The random source of golang.org/x/exp/rand: a generator for each seed, and `Intn`.
module _ {κ} {G : Type κ} (intn : ℕ → G → ℕ × G) (source : ℕ → G) where
  -- `drawn` is the number that `rand.Uint64` draws.
  unfoldable pub shuffle_on : Pages ContextTrack → ℕ → ℕ → TrackList → Run TrackList
  unfolding keep_first
  shuffle_on pages fuel drawn tl =
      let seed = (drawn + 1) % 2 ^ 64 in
      walk_loop pages fuel tl.tracks iter_start >>= λ l. Paged.shuffle intn (source seed) l >>= λ m.
      keep_first m >>= λ (first, keep). ok (record tl {
        shuffled = true;
        shuffle_seed = seed;
        shuffle_len = length first.list;
        shuffle_keep = keep;
        tracks = first;
      })

  unfoldable pub unshuffle_seeded : TrackList → Run TrackList
  unfolding restore_first
  unshuffle_seeded tl = restore_first tl.shuffle_keep tl.tracks >>= λ l.
      Paged.unshuffle intn (source tl.shuffle_seed) l >>= λ m.
      ok (record tl { shuffled = false; tracks = m })

  unfoldable pub toggle_shuffle :
      Pages ContextTrack → ℕ → Text → ℕ → Bool → TrackList → Run (TrackList × Option SeekError)
  unfolding shuffle_on unshuffle_seeded unshuffle_fetched
  toggle_shuffle pages fuel typ drawn shuffle tl =
      let turn_on : Run (TrackList × Option SeekError) =
        shuffle_on pages fuel drawn tl >>= λ u. ok (u, none) in
      let seeded : Run (TrackList × Option SeekError) = unshuffle_seeded tl >>= λ u. ok (u, none) in
      let off =
        if not (tl.shuffle_seed == 0) && length tl.tracks.list == tl.shuffle_len
        then seeded
        else unshuffle_fetched pages fuel typ tl in
      if (if shuffle then tl.shuffled else not tl.shuffled)
      then ok (tl, none)
      else if shuffle
      then turn_on
      else off
