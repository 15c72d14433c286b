-- ===== src/Lib.antt =====
-- A model of the core of go-librespot, a Spotify Connect daemon, and proofs about it.
--
-- The daemon plays a context (an album, a playlist) whose tracks come page by page from a resolver.
-- Ids name tracks on the wire; a paged list holds the context's entries that are loaded and the
-- position in it; the track list adds the user's queue, the walks that look for a track and the
-- shuffle; its views are what the daemon publishes. The loader lane runs the work that waits for the
-- network, one job at a time, and hands its results back to the player loop. An audio file
-- is read in chunks that are downloaded once each, and the size limiter evicts files of the audio
-- cache. The switching source plays one decoded track after the other, without a gap or with a
-- crossfade. The state push lane tells the backend what plays, and the metadata cache lists whole
-- contexts with the pages of the context resolver, which also feeds the track list. The access point
-- carries packets that are sealed with a stream cipher.
--
-- Files and code:
-- * Prelude and its children: shared names, Boolean tests on numbers, lists over the native numbers,
--   texts as lists of bytes, and `Run`, the outcome of Go code (a value, a panic, or fuel that ran
--   out).
-- * Ids (ids.go): gids, base 62 and URIs. `gid_to_base62` is GidToBase62, `from_base62` is
--   SpotifyIdFromBase62, `from_uri` is SpotifyIdFromUri, `match_uri` is UriRegexp. Go strings are lists
--   of bytes, and a number of math/big is a natural number.
-- * Ids.Context (ids.go): ContextUriType and the two functions that infer the type of a context's items.
-- * Tracks.Track (ids.go, tracks/utils.go): context tracks, ContextTrackToProvidedTrack and the
--   comparators. A Go map from strings to strings is nil or a list of entries.
-- * Tracks.Paged (tracks/paged-list.go): pagedList and its iterator. The resolver is a function from the
--   number of calls made before and the page to an answer, so that it may answer anything at any time,
--   a deadline that passes included. An iterator holds its index; the list behind it is passed along.
-- * Tracks.TrackList (tracks/tracks.go): List, its queue, Seek, TrySeek, TrySeekTo, PeekNext, GoNext,
--   GoPrev, GoStart, AddToQueue, SetQueue.
-- * Tracks.Toggle (tracks/tracks.go): ToggleShuffle.
-- * Tracks.Views (tracks/tracks.go): AllTracks, PrevTracks, NextTracks, Index, Snapshot.
-- * Loader (daemon/loader.go): the lane on which the daemon runs slow work. `submit`, `drop_loads`,
--   `next`, `execute` and `close` are the lane's methods. Loader.Apply has applyLoaderResult and the
--   player events held while a load is in flight. Loader.Step puts the lane, its goroutine and the
--   player loop together as a step relation; a job's `run` is a function of the world it runs in, and
--   what the loop does with an event is a parameter.
-- * Audio (audio/chunked-reader.go): HttpChunkedReader as one goroutine runs it. The size of a chunk and
--   the answers of the server are parameters. ReadAt is at a position that is not negative, and a chunk
--   that it prefetches is fetched before it goes on. Audio.Sharing has fetchChunk as any number of
--   goroutines run it, as a step relation: the lock, the flag, Wait and Broadcast of a chunk, and the
--   count of the chunks after it.
-- * Cache (cache/limiter.go): sizeLimiter, which keeps the files of the audio cache within a limit. The
--   answers of os.Remove, the walk of the directory and the clock are parameters.
-- * Source (player/source.go): SwitchingAudioSource. Source.Read has the paths of Read, SetPositionMs and
--   PositionMs. A source behind it is a handle; what the sources hold is one value that their methods
--   change. A read that waits for a source is an outcome, from which `resume` goes on.
-- * StatePush (daemon/statepush.go, daemon/player_state.go, daemon/player.go): statePushLane, and in the
--   player loop updateState, flushState, pushState, the state timer and applyStatePushResult.
--   StatePush.Lane.Steps is the lane's goroutine and the loop as a step relation.
-- * Resolver (spclient/context_resolver.go): NewContextResolver in Resolver.New, Page as
--   `page_at`, loadPage as `load_page`.
-- * Meta (daemon/track_meta_cache.go): missing, contextListCache, enumerateContextTracks, sweep and
--   metaSweepQueue. Meta.Sweeps.Queue has the queue with its goroutine as a step relation. The look and
--   the claim of beginFetch are one step.
-- * Ap (ap/shannon.go): sendPacket, receivePacket and peekUnencrypted of shannonConn. Ap.Framing has what a
--   packet looks like on the wire.
-- * Ids.Tests, Tracks.Tests, Loader.Tests, Cache.Tests, Audio.Tests, Source.Tests, StatePush.Tests,
--   Resolver.Tests, Meta.Tests and Ap.Tests run the model on concrete values.
--
-- Bounds: `next` takes as many rounds as entries are missing, since every page that is fetched adds an
-- entry, so its fuel is computed from the list. The walks of Seek and of ToggleShuffle take fuel from
-- their caller, since how many rounds they need depends on what the resolver answers: they stop after
-- page 256. ReadAt takes a chunk in each round, so the number of chunks is its fuel. A round that fills
-- the source's ring takes a sample at least, so the size of the ring and one more is its fuel, and a
-- round of popChunk copies one, so what is asked for is its fuel. The loop of the resolver's Page adds
-- a page in each round and takes the index as fuel; an enumeration takes 256 pages, and a sweep takes
-- a uri at least in each round. The lane of the state push drops a push in each round of its trimming. The seed of the
-- shuffle is an unsigned number of 64 bits, indices that are published have 32.
--
-- Parameters: the page resolver, the generator behind golang.org/x/exp/rand (a function `intn` of its
-- state, with the documented range of Intn as a hypothesis), and the number that rand.Uint64 draws.
-- Deadlines are answers of the resolver. For the switching source: the sources, with the contract that a
-- read returns no more than asked for and does not stall as a hypothesis, and the arithmetic of float32.
-- For the metadata: the LRU cache of github.com/hashicorp/golang-lru with its documented laws, and the
-- answer of a batch. For the resolver: the answers of the backend's requests. For the state push: the
-- bytes of a marshalled request, the clock and the number that rand.N draws. For the access point: the
-- cipher of github.com/devgianlu/shannon with its laws, and the bytes that arrive.
--
-- Not modelled: logs, the network, the decoders, the audio outputs, the control handlers of the daemon,
-- the contents of the state that is pushed, the decoding of a batch of metadata and the aliasing of
-- tracks that two lists share.
pub mod Ap
pub mod Audio
pub mod Cache
pub mod Ids
pub mod Loader
pub mod Meta
pub mod Prelude
pub mod Resolver
pub mod Source
pub mod StatePush
pub mod Tracks
