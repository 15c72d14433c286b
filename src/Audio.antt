-- ===== src/Audio.antt =====
-- audio/chunked-reader.go: an audio file that is read in chunks, each downloaded once.
-- The answers of the server are a parameter, as is the size of a chunk. A chunk that another goroutine
-- prefetches is fetched here before the read that asked for it goes on.
pub mod Completion
pub mod Content
pub mod Pieces
pub mod Seek
pub mod Sharing
mod Tests
use go_librespot_termux.Prelude.{
  ℕ, zero, suc, ◌+◌, ◌-◌, ◌*◌, ◌/◌, ◌%◌, Bool, true, false, not, ◌&&◌, ◌||◌, List, [], ◌∷◌, ◌++◌,
  Option, none, some, ltb, leb, ◌==◌, if◌then◌else◌, length, get_elem?, set, take, drop, min, Run,
  ok, panic, out_of_fuel, ◌>>=◌,
}

abbrev pub default_chunk_size : ℕ
default_chunk_size = 524288

abbrev pub prefetch_count : ℕ
prefetch_count = 3

abbrev pub Chunk : Type 0
Chunk = Option (List ℕ)

-- `started` counts the goroutines that run the callback, `calls` the downloads.
pub record ChunkedReader : Type 0 where
  pub chunks : List Chunk
  pub len : ℕ
  pub pos : ℕ
  pub closed : Bool
  pub completed_chunks : ℕ
  pub on_complete : Bool
  pub on_complete_fired : Bool
  pub started : ℕ
  pub calls : ℕ

pub data ReadError : Type 0 where
  err_closed eof : ReadError
  download_failed : ℕ → ReadError

pub data Fetched : Type 0 where
  fetched : List ℕ → Fetched
  fetch_err : ReadError → Fetched

-- What the server answers to a download by its number and its chunk, the retries included: the whole
-- body, or none if it fails.
abbrev pub Server : Type 0
Server = ℕ → ℕ → Option (List ℕ)

unfoldable pub blank_chunks : ℕ → List Chunk
blank_chunks zero = []
blank_chunks (suc n) = none ∷ blank_chunks n

-- `NewHttpChunkedReader`, given the length that the server reports and the first chunk. A file without
-- bytes has no chunk to keep that in.
unfoldable pub new_reader : ℕ → ℕ → List ℕ → Run ChunkedReader
unfolding blank_chunks
new_reader size len first = elim (blank_chunks ((len + size - 1) / size)) [
  | [] ↦ panic
  | _ ∷ cs ↦ ok (record {
    chunks = some first ∷ cs;
    len = len;
    pos = 0;
    closed = false;
    completed_chunks = 1;
    on_complete = false;
    on_complete_fired = false;
    started = 0;
    calls = 1;
  })
]

unfoldable pub maybe_fire_complete : ChunkedReader → ChunkedReader
maybe_fire_complete r =
    if r.on_complete_fired || not r.on_complete || ltb r.completed_chunks (length r.chunks)
    then r
    else record r { on_complete_fired = true; started = r.started + 1 }

unfoldable pub mark_chunk_complete : ChunkedReader → ChunkedReader
unfolding maybe_fire_complete
mark_chunk_complete r = maybe_fire_complete (record r { completed_chunks = r.completed_chunks + 1 })

-- `OnComplete`
unfoldable pub register : ChunkedReader → ChunkedReader
unfolding maybe_fire_complete
register r = maybe_fire_complete (record r { on_complete = true })

unfoldable pub keep_chunk : ℕ → List ℕ → ChunkedReader → ChunkedReader
unfolding mark_chunk_complete
keep_chunk idx d r = mark_chunk_complete (record r { chunks = set r.chunks idx (some d) })

unfoldable pub downloaded : ℕ → Option (List ℕ) → ChunkedReader → ChunkedReader × Fetched
unfolding keep_chunk
downloaded idx none r = (r, fetch_err (download_failed idx))
downloaded idx (some d) r = (keep_chunk idx d r, fetched d)

-- What the loop of `ReadAt` does with a chunk, given the loop: the bytes read, and the error.
unfoldable pub copied :
    (ChunkedReader → ℕ → List ℕ → Run (ChunkedReader × List ℕ × Option ReadError))
    → ℕ
    → ℕ
    → List ℕ
    → ChunkedReader × Fetched
    → Run (ChunkedReader × List ℕ × Option ReadError)
copied again n off acc (r, fetch_err e) = ok (r, acc, some e)
copied again n off acc (r, fetched d) =
    let c = drop (min off (length d)) d in
    let more = again r (n - length c) (acc ++ c) in
    if ltb n (length c) then ok (r, acc ++ take n c, none) else more

module _ (server : Server) where
  unfoldable pub served : ℕ → Chunk → ChunkedReader → ChunkedReader × Fetched
  unfolding downloaded
  served idx (some d) r = (r, fetched d)
  served idx none r = downloaded idx (server r.calls idx) (record r { calls = r.calls + 1 })

  unfoldable pub fetch_chunk : ℕ → ChunkedReader → Run (ChunkedReader × Fetched)
  unfolding served
  fetch_chunk idx r = elim (get_elem? r.chunks idx) [
    | none ↦ panic
    | some chunk ↦ ok (if r.closed then (r, fetch_err err_closed) else served idx chunk r)
  ]

  -- The chunks from `idx` on, at most so many.
  unfoldable pub prefetch_loop : ℕ → ℕ → ChunkedReader → Run ChunkedReader
  unfolding fetch_chunk
  prefetch_loop zero idx r = ok r
  prefetch_loop (suc n) idx r =
      let more = fetch_chunk idx r >>= λ x. prefetch_loop n (suc idx) x.0 in
      if leb (length r.chunks) idx || r.closed then ok r else more

  unfoldable pub prefetch_chunks : ℕ → ChunkedReader → Run ChunkedReader
  unfolding prefetch_loop
  prefetch_chunks curr r = prefetch_loop prefetch_count (suc curr) r

  -- A round takes a chunk each, so the number of chunks is enough fuel.
  unfoldable pub read_loop :
      ℕ → ℕ → ℕ → ChunkedReader → ℕ → List ℕ → Run (ChunkedReader × List ℕ × Option ReadError)
  unfolding copied
  read_loop zero idx off r n acc = out_of_fuel
  read_loop (suc f) idx off r n acc =
      let more =
        fetch_chunk idx r >>= copied (λ r' n' acc'. read_loop f (suc idx) 0 r' n' acc') n off acc in
      if n == 0
      then ok (r, acc, none)
      else if leb (length r.chunks) idx
      then ok (r, acc, some eof)
      else more

  -- `ReadAt` with a buffer of `n` bytes, at a position that is not negative.
  unfoldable pub read_at :
      ℕ → ℕ → ℕ → ChunkedReader → Run (ChunkedReader × List ℕ × Option ReadError)
  unfolding prefetch_chunks read_loop
  read_at size n at r =
      let idx = at / size in
      let reading =
        prefetch_chunks idx r >>= λ q. read_loop (suc (length r.chunks)) idx (at % size) q n [] in
      if r.closed
      then ok (r, [], some err_closed)
      else if leb (length r.chunks) idx
      then ok (r, [], some eof)
      else reading

  unfoldable pub read : ℕ → ℕ → ChunkedReader → Run (ChunkedReader × List ℕ × Option ReadError)
  unfolding read_at
  read size n r = read_at size n r.pos r >>= λ (q, bytes, e).
      ok (record q { pos = q.pos + length bytes }, bytes, e)

-- A signed number.
pub data Offset : Type 0 where
  plus minus : ℕ → Offset

pub data Whence : Type 0 where
  seek_start seek_current seek_end : Whence

-- The position that an offset from a base leads to, unless it is negative.
unfoldable pub target : ℕ → Offset → Option ℕ
target base (plus n) = some (base + n)
target base (minus n) = if ltb base n then none else some (base - n)

unfoldable pub base_of : Whence → ChunkedReader → ℕ
base_of seek_start r = 0
base_of seek_current r = r.pos
base_of seek_end r = r.len

-- `Seek`: none is the error for a position outside the file.
unfoldable pub seek : Offset → Whence → ChunkedReader → ChunkedReader × Option ℕ
unfolding target base_of
seek offset whence r = elim (target (base_of whence r) offset) [
  | none ↦ (r, none)
  | some p ↦ if ltb p r.len then (record r { pos = p }, some p) else (r, none)
]

unfoldable pub close : ChunkedReader → ChunkedReader
close r = record r { closed = true }
