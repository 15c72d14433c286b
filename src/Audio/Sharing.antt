-- ===== src/Audio/Sharing.antt =====
-- audio/chunked-reader.go: the goroutines that fetch chunks of one reader together. A step is what a
-- goroutine does under a lock, or a change of one word; a download takes as long as it takes.
pub mod Owners
pub mod Invariant
use go_librespot_termux.Prelude.{
  ℕ, zero, suc, ◌+◌, ◌<◌, ◌≡◌, Bool, true, false, List, [], ◌∷◌, ◌++◌, map, Option, none, some,
  ◌==◌, if◌then◌else◌, length, get_elem?, set, ok,
}
use go_librespot_termux.Audio.{
  Chunk, ChunkedReader, err_closed, download_failed, Fetched, fetched, fetch_err,
  mark_chunk_complete, register, close, new_reader,
}

-- Where a goroutine stands in `fetchChunk` of a chunk: before the lock, in `Wait`, in the download, after
-- the broadcast of its data, after the count of the chunk, done.
pub data Fetching : Type 0 where
  looking waiting downloading : ℕ → Fetching
  marking finishing : ℕ → List ℕ → Fetching
  returned : ℕ → Fetched → Fetching

-- `fetching` is the flag of each chunk.
pub record SharedReader : Type 0 where
  pub reader : ChunkedReader
  pub fetching : ℕ → Bool
  pub goroutines : List Fetching

abbrev pub put_flag : (ℕ → Bool) → ℕ → Bool → ℕ → Bool
put_flag f k b j = if k == j then b else f j

abbrev pub put : ℕ → Fetching → SharedReader → SharedReader
put i g w = record w { goroutines = set w.goroutines i g }

-- The broadcast on a chunk wakes a goroutine that waits for it, which then looks again.
abbrev pub woken : ℕ → Fetching → Fetching
woken k (waiting j) = if k == j then looking j else waiting j
woken k (looking j) = looking j
woken k (downloading j) = downloading j
woken k (marking j d) = marking j d
woken k (finishing j d) = finishing j d
woken k (returned j r) = returned j r

unfoldable pub broadcast : ℕ → SharedReader → SharedReader
broadcast k w = record w { goroutines = map (woken k) w.goroutines }

-- The loop of `fetchChunk` under the lock of the chunk, up to the wait or the download.
unfoldable pub look : ℕ → ℕ → Chunk → SharedReader → SharedReader
look i k (some d) w =
    if w.reader.closed
    then put i (returned k (fetch_err err_closed)) w
    else put i (returned k (fetched d)) w
look i k none w =
    if w.reader.closed
    then put i (returned k (fetch_err err_closed)) w
    else if w.fetching k
    then put i (waiting k) w
    else record (put i (downloading k) w) { fetching = put_flag w.fetching k true }

-- The download ends with the data of the chunk or fails; either is under the lock of the chunk.
unfoldable pub download_ended : ℕ → ℕ → Option (List ℕ) → SharedReader → SharedReader
unfolding broadcast
download_ended i k none w =
    put i (returned k (fetch_err (download_failed k)))
      (broadcast k (record w { fetching = put_flag w.fetching k false }))
download_ended i k (some d) w = put i (marking k d) (
    broadcast k (record w {
      reader = record w.reader { chunks = set w.reader.chunks k (some d) };
      fetching = put_flag w.fetching k false;
    }))

unfoldable pub mark : ℕ → ℕ → List ℕ → SharedReader → SharedReader
mark i k d w = put i (finishing k d) (record w { reader = mark_chunk_complete w.reader })

unfoldable pub finish : ℕ → ℕ → List ℕ → SharedReader → SharedReader
finish i k d w = put i (returned k (if w.reader.closed then fetch_err err_closed else fetched d)) w

-- `Close` cancels and then broadcasts on the chunks, one after the other.
pub data Step : SharedReader → SharedReader → Type 0 where
  spawned :
      (w : SharedReader) (k : ℕ)
      → k < length w.reader.chunks
      → Step w (record w { goroutines = w.goroutines ++ looking k ∷ [] })
  looked :
      (w : SharedReader) (i k : ℕ) (c : Chunk)
      → get_elem? w.goroutines i ≡ some (looking k)
      → get_elem? w.reader.chunks k ≡ some c
      → Step w (look i k c w)
  ended :
      (w : SharedReader) (i k : ℕ) (o : Option (List ℕ))
      → get_elem? w.goroutines i ≡ some (downloading k)
      → Step w (download_ended i k o w)
  marked :
      (w : SharedReader) (i k : ℕ) (d : List ℕ)
      → get_elem? w.goroutines i ≡ some (marking k d)
      → Step w (mark i k d w)
  finished :
      (w : SharedReader) (i k : ℕ) (d : List ℕ)
      → get_elem? w.goroutines i ≡ some (finishing k d)
      → Step w (finish i k d w)
  registered : (w : SharedReader) → Step w (record w { reader = register w.reader })
  closed_reader : (w : SharedReader) → Step w (record w { reader = close w.reader })
  close_woke : (w : SharedReader) (k : ℕ) → w.reader.closed ≡ true → Step w (broadcast k w)

pub data Reachable : SharedReader → Type 0 where
  made :
      (size len : ℕ) (first : List ℕ) (r : ChunkedReader)
      → new_reader size len first ≡ ok r
      → Reachable (record { reader = r; fetching = λ k. false; goroutines = [] })
  stepped : {w v : SharedReader} → Reachable w → Step w v → Reachable v
