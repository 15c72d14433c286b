-- ===== src/Tracks/Tests.antt =====
-- Runs of the track list, and the theorems about it at concrete lists.
use mathlib.Core.List.{Perm}
use go_librespot_termux.Prelude.{
  ℕ, List, ◌+◌, ◌%◌, ◌<◌, ◌≡◌, ◌≢◌, refl, Bool, true, false, [], ◌∷◌, ◌++◌, Option, none, some,
  arith, ◌==◌, if◌then◌else◌, Text, codes, text_eq, Run, ok, panic, out_of_fuel, Returns,
}
use go_librespot_termux.Tracks.Paged.{
  Pages, PagedList, page, page_err, eof, iter_start, last_page, numbered, fetch_next_page,
  after_fetch, next, shuffle, unshuffle, draws, after, next_loop, shuffle_loop, unshuffle_loop,
  unshuffle_round, swap_at, moved, moved_to, placed, get, move, iter_here, move_start,
}
use go_librespot_termux.Tracks.Paged.Swap.{entry_at}
use go_librespot_termux.Tracks.Paged.Shuffle.{unshuffle-shuffle}
use go_librespot_termux.Tracks.Paged.Fetch.{Advanced, next-Advanced}
use go_librespot_termux.Tracks.Track.{
  ContextTrack, compares, context_track_comparator, context_target, gid_uri, meta_get, meta_set,
  entries_set,
}
use go_librespot_termux.Tracks.TrackList.{
  TrackList, current, seek, seek_loop, seek_round, seek_ended, walk_loop, walk_round,
  page_reaches_max, try_seek_to, seek_queue, queue_match, find_from, pop_queue, queue_rest, go_next,
  go_next_context, go_prev, peek_next, add_to_queue, set_queue, is_queued, append_queued,
  made_metadata,
}
use go_librespot_termux.Tracks.TrackList.Extends.{Extends}
use go_librespot_termux.Tracks.TrackList.Seek.{SeekResult, seek-SeekResult}
use go_librespot_termux.Tracks.TrackList.Halts.{seek_halts}
use go_librespot_termux.Tracks.TrackList.Queue.{HasHead}
use go_librespot_termux.Tracks.TrackList.Moves.{Peeks, peek_next-go_next}
use go_librespot_termux.Tracks.TrackList.Moves.Valid.{IsValid}
use go_librespot_termux.Tracks.TrackList.SeekTo.{Landed, try_seek_to-Landed}
use go_librespot_termux.Tracks.Paged
use go_librespot_termux.Tracks.Track.{
  ProvidedTrack, entries_get, provider_of, track_uri, context_track_to_provided_track,
}
use go_librespot_termux.Tracks.Views.{
  provided_all, prev_loop, prev_tracks, hint_loop, next_tracks_loop, next_tracks,
}
use go_librespot_termux.Tracks.Views.Next.{Upcoming, next_tracks-Upcoming}
use go_librespot_termux.Tracks.Paged.{failed, next_failed, clear}
use go_librespot_termux.Tracks.TrackList.{fetching, SeekError}
use go_librespot_termux.Tracks.Toggle.{unshuffle_fetched}
use go_librespot_termux.Tracks.Toggle.Rollback.{RolledBack, toggle_shuffle-RolledBack}
use go_librespot_termux.Tracks.Toggle.{
  toggle_shuffle, shuffle_on, keep_first, restore_first, unshuffle_seeded,
}
use go_librespot_termux.Tracks.Toggle.RoundTrip.{toggle_shuffle_back}

views : Unit {0}
unfolding text_eq iter_start last_page numbered fetch_next_page after_fetch next_loop next get
    iter_here Paged.prev meta_get entries_get provider_of track_uri gid_uri
    context_track_to_provided_track provided_all prev_loop prev_tracks hint_loop next_tracks_loop
    next_tracks queue_rest
views = tt

program : Unit {0}
unfolding text_eq iter_start last_page numbered fetch_next_page after_fetch next_loop next
    shuffle_loop draws unshuffle_round unshuffle_loop placed shuffle unshuffle swap_at moved_to
    moved get move iter_here move_start compares context_target context_track_comparator gid_uri
    meta_get entries_set meta_set page_reaches_max seek_ended seek_round seek_loop seek walk_round
    walk_loop queue_match find_from seek_queue pop_queue queue_rest try_seek_to go_next_context
    go_next go_prev peek_next current made_metadata add_to_queue is_queued append_queued set_queue
    keep_first restore_first shuffle_on unshuffle_seeded toggle_shuffle
program = tt

abbrev typ : Text
typ = codes "track"

abbrev made : Text → ContextTrack
made u = record { uri = u; uid = []; gid = []; metadata = none }

abbrev a : ContextTrack
a = made (codes "a")

abbrev b : ContextTrack
b = made (codes "b")

abbrev c : ContextTrack
c = made (codes "c")

-- Two pages.
abbrev answers : Pages ContextTrack
answers call idx =
    if idx == 0 then page (a ∷ b ∷ []) else if idx == 1 then page (c ∷ []) else page_err eof

abbrev loaded : PagedList ContextTrack
loaded = record {
  list =
      record { item = a; page_idx = some 0; item_idx = some 0 }
      ∷ record { item = b; page_idx = some 0; item_idx = some 1 }
      ∷ [];
  pos = some 1;
  calls = 1;
}

abbrev whole : PagedList ContextTrack
whole = record {
  list = loaded.list ++ (record { item = c; page_idx = some 1; item_idx = some 0 } ∷ []);
  pos = some 1;
  calls = 3;
}

abbrev tl : TrackList
tl = record {
  shuffled = false;
  shuffle_seed = 0;
  shuffle_len = 0;
  shuffle_keep = some 0;
  tracks = loaded;
  playing_queue = false;
  queue = [];
}

abbrev queued : TrackList
queued = record tl { queue = c ∷ a ∷ []; playing_queue = true }

tl-IsValid : IsValid tl
tl-IsValid = record { placed = (1, refl, omega arith); head = λ e. absurd (cc) }

queued-HasHead : HasHead queued
queued-HasHead e = omega arith

-- A generator that draws from a counter.
abbrev intn : ℕ → ℕ → ℕ × ℕ
intn n g = (g % n, g + 7)

intn_lem : (n g : ℕ) → 0 < n → (intn n g).0 < n
intn_lem n g h = omega arith

unshuffle-shuffle_example :
    (m : PagedList ContextTrack) × (shuffle intn 5 whole ≡ ok m)
    × Perm m.list whole.list
    × (entry_at m.list m.pos ≡ entry_at whole.list whole.pos)
    × (unshuffle intn 5 m ≡ ok whole)
unshuffle-shuffle_example = unshuffle-shuffle intn intn_lem 5 whole

next-Advanced_example : Returns (Advanced loaded iter_start) (next answers loaded iter_start)
next-Advanced_example = next-Advanced answers loaded iter_start

-- The last entry of the list is of page 0 again, so page 1 is fetched a second time.
abbrev mixed : PagedList ContextTrack
mixed = record {
  list =
      record { item = c; page_idx = some 1; item_idx = some 0 }
      ∷ record { item = a; page_idx = some 0; item_idx = some 0 }
      ∷ record { item = b; page_idx = some 0; item_idx = some 1 }
      ∷ [];
  pos = some 2;
  calls = 3;
}

abbrev is_b : ContextTrack → Run Bool
is_b t = ok (text_eq t.uri (codes "b"))

is_b-runs : (t : ContextTrack) → is_b t ≢ out_of_fuel
is_b-runs t e = cc

abbrev result : {A : Type 0} → A → Run A → A
result x (ok y) = y
result x panic = x
result x out_of_fuel = x

sought : seek answers 9 is_b tl ≡ ok (record tl { tracks = loaded }, none)
unfolding program
sought = refl

seek-SeekResult_example : SeekResult is_b tl (record tl { tracks = loaded }, none)
seek-SeekResult_example =
    seek-SeekResult is_b answers 9 tl (record tl { tracks = loaded }, none) sought

seek_halts_example : (fuel : ℕ) × (seek answers fuel is_b tl ≢ out_of_fuel)
seek_halts_example = seek_halts is_b is_b-runs answers tl

abbrev landing : TrackList
landing = result tl (try_seek_to answers 9 typ a queued)

landed : try_seek_to answers 9 typ a queued ≡ ok landing
unfolding program
landed = refl

try_seek_to-Landed_example : Landed typ a queued landing
try_seek_to-Landed_example = try_seek_to-Landed answers 9 typ a queued landing landed

peek_next-go_next_example :
    (t : TrackList) × (o : Option ContextTrack) × (peek_next answers tl ≡ ok (t, o)) × Peeks tl t o
peek_next-go_next_example = peek_next-go_next answers tl tl-IsValid

abbrev on : TrackList
on = (result (tl, none) (toggle_shuffle intn (λ seed. seed) answers 9 typ 4 true tl)).0

turned_on : toggle_shuffle intn (λ seed. seed) answers 9 typ 4 true tl ≡ ok (on, none)
unfolding program
turned_on = refl

toggle_shuffle_back_example :
    (walked : PagedList ContextTrack) × (off : TrackList) × Extends tl.tracks walked
    × (entry_at on.tracks.list on.tracks.pos ≡ entry_at walked.list tl.tracks.pos)
    × (toggle_shuffle intn
          (λ seed. seed)
          answers
          9
          typ
          8
          false
          (record on { tracks = record (on.tracks) { pos = some 2 } })
        ≡ ok (off, none))
    × (off.shuffled ≡ false)
    × (off.tracks.list ≡ walked.list)
    × (entry_at off.tracks.list off.tracks.pos ≡ entry_at on.tracks.list (some 2))
toggle_shuffle_back_example =
    toggle_shuffle_back intn (λ seed. seed) intn_lem answers 9 9 typ 4 8 tl on (some 2) refl
      turned_on (ground arith)

abbrev prev_published : List ProvidedTrack
prev_published = result [] (prev_tracks typ tl)

prev_run : prev_tracks typ tl ≡ ok prev_published
unfolding views
prev_run = refl

abbrev upcoming : TrackList × List ProvidedTrack × Option (List ContextTrack)
upcoming = result (tl, [], none) (next_tracks typ answers none queued)

next_run : next_tracks typ answers none queued ≡ ok (upcoming.0, upcoming.1, upcoming.2)
unfolding views
next_run = refl

next_tracks-Upcoming_example : Upcoming typ answers queued 1 upcoming.0 upcoming.1
next_tracks-Upcoming_example =
    next_tracks-Upcoming typ answers queued 1 upcoming.0 upcoming.1 upcoming.2 refl next_run

-- A resolver that has gone away, and a list that cannot be unshuffled from its seed.
abbrev broken : Pages ContextTrack
broken call idx = page_err (failed 3)

abbrev stranded : TrackList
stranded = record tl { shuffled = true }

abbrev failure : SeekError
failure = fetching (next_failed 0 0 (failed 3))

kept :
    toggle_shuffle intn (λ seed. seed) broken 9 typ 4 false stranded
    ≡ ok (record stranded { tracks = record loaded { calls = 2 } }, some failure)
unfolding program unshuffle_fetched clear
kept = refl

toggle_shuffle-RolledBack_example :
    RolledBack stranded (record stranded { tracks = record loaded { calls = 2 } })
toggle_shuffle-RolledBack_example =
    toggle_shuffle-RolledBack intn (λ seed. seed) broken 9 typ 4 false stranded
      (record stranded { tracks = record loaded { calls = 2 } }) failure kept
