-- ===== src/Audio/Tests.antt =====
-- Runs of the chunked reader, and the theorems about it at a concrete file.
use go_librespot_termux.Prelude.{
  List, get_elem?, ℕ, zero, suc, ◌∙◌, sym, ap, Bool-cases, ==_iff, if_true, if_false, inl, inr, ◌≡◌,
  refl, arith, true, false, [], ◌∷◌, none, some, ◌==◌, if◌then◌else◌, codes, ok, panic,
}
use go_librespot_termux.Audio.{
  ChunkedReader, fetched, Server, eof, blank_chunks, new_reader, maybe_fire_complete,
  mark_chunk_complete, register, keep_chunk, downloaded, served, fetch_chunk, prefetch_loop,
  prefetch_chunks, copied, read_loop, read_at, read, target, base_of, seek,
}
use go_librespot_termux.Audio.Sharing.{
  SharedReader, looking, waiting, downloading, marking, returned, broadcast, look, download_ended,
  mark, finish, Reachable, made, stepped, spawned, looked,
}
use go_librespot_termux.Audio.Sharing.Invariant.{Reachable-IsShared, Reachable-woken}
use go_librespot_termux.Audio.Sharing.Invariant.Moves.{IsShared}
use go_librespot_termux.Audio.Content.{Holds, chunk_of}
use go_librespot_termux.Audio.Content.Reads.{Reads, read_at-Reads}

program : Unit {0}
unfolding blank_chunks new_reader maybe_fire_complete mark_chunk_complete register keep_chunk
    downloaded served fetch_chunk prefetch_loop prefetch_chunks copied read_loop read_at read target
    base_of seek broadcast look download_ended mark finish
program = tt

-- Chunks of four bytes of a file of six.
abbrev server : Server
server call idx = if idx == 0 then some (codes "abcd") else some (codes "ef")

abbrev reader : ChunkedReader
reader = record {
  chunks = some (codes "abcd") ∷ none ∷ [];
  len = 6;
  pos = 0;
  closed = false;
  completed_chunks = 1;
  on_complete = true;
  on_complete_fired = false;
  started = 0;
  calls = 1;
}

abbrev full : ChunkedReader
full = record reader {
  chunks = some (codes "abcd") ∷ some (codes "ef") ∷ [];
  completed_chunks = 2;
  on_complete_fired = true;
  started = 1;
  calls = 2;
}

made_reader : new_reader 4 6 (codes "abcd") ≡ ok (record reader { on_complete = false })
unfolding program
made_reader = refl

-- A file without bytes.
empty : new_reader 4 0 [] ≡ panic
unfolding program
empty = refl

across : read_at server 4 3 3 reader ≡ ok (full, codes "def", none)
unfolding program
across = refl

past_end : read_at server 4 9 2 reader ≡ ok (full, codes "cdef", some eof)
unfolding program
past_end = refl

-- Two goroutines fetch the second chunk: the first one downloads it, the other one waits.
abbrev new_shared : SharedReader
new_shared = record {
  reader = record reader { on_complete = false };
  fetching = λ k. false;
  goroutines = [];
}

abbrev both_looking : SharedReader
both_looking = record new_shared { goroutines = looking 1 ∷ looking 1 ∷ [] }

abbrev one_waits : SharedReader
one_waits = look 1 1 none (look 0 1 none both_looking)

one_waits-Reachable : Reachable one_waits
unfolding program
one_waits-Reachable =
    stepped {w = look 0 1 none both_looking}
      (stepped {w = both_looking}
        (stepped {w = record new_shared { goroutines = looking 1 ∷ [] }}
          (stepped {w = new_shared}
            (made 4 6 (codes "abcd") (record reader { on_complete = false }) made_reader)
            (spawned new_shared 1 (omega arith)))
          (spawned (record new_shared { goroutines = looking 1 ∷ [] }) 1 (omega arith)))
        (looked both_looking 0 1 none refl refl))
      (looked (look 0 1 none both_looking) 1 1 none refl refl)

now_waits : get_elem? one_waits.goroutines 1 ≡ some (waiting 1)
unfolding program
now_waits = refl

-- The one that waited may look before the other one has counted the chunk.
uncounted_yet :
    (look 1 1 (some (codes "ef")) (download_ended 0 1 (some (codes "ef")) one_waits)).goroutines
    ≡ marking 1 (codes "ef") ∷ returned 1 (fetched (codes "ef")) ∷ []
unfolding program
uncounted_yet = refl

Reachable-IsShared_example : IsShared one_waits
Reachable-IsShared_example = Reachable-IsShared one_waits one_waits-Reachable

Reachable-woken_example :
    (j : ℕ) × (get_elem? one_waits.goroutines j ≡ some (downloading 1))
    × (get_elem? (download_ended j 1 none one_waits).goroutines 1 ≡ some (looking 1))
Reachable-woken_example = Reachable-woken one_waits 1 1 none one_waits-Reachable now_waits

-- A server that fails for all chunks but one.
abbrev partial_server : Server
partial_server call idx = if idx == 1 then some (codes "ef") else none

partial_server-chunk_of :
    (call i : ℕ) (d : List ℕ) → partial_server call i ≡ some d → d ≡ chunk_of 4 (codes "abcdef") i
partial_server-chunk_of call i d e = elim (Bool-cases (i == 1)) [
  | inl y ↦
      let same = (==_iff i 1).0 y in
      let got : some (codes "ef") ≡ some d = sym (if_true (i == 1) _ _ y) ∙ e in
      let eq : codes "ef" ≡ d = cc in sym eq ∙ ap (chunk_of 4 (codes "abcdef")) (sym same)
  | inr n ↦ absurd (cc (sym (if_false (i == 1) (some (codes "ef")) none n) ∙ e))
]

reader-chunk_of :
    (i : ℕ) (d : List ℕ)
    → get_elem? reader.chunks i ≡ some (some d)
    → d ≡ chunk_of 4 (codes "abcdef") i
reader-chunk_of zero d e = let eq : codes "abcd" ≡ d = cc in sym eq
reader-chunk_of (suc zero) d e = absurd (cc e)
reader-chunk_of (suc (suc i)) d e = absurd (cc e)

reader-Holds : Holds 4 (codes "abcdef") reader
reader-Holds = record { chunks = reader-chunk_of; enough = omega arith }

across_partial : read_at partial_server 4 3 3 reader ≡ ok (full, codes "def", none)
unfolding program
across_partial = refl

read_at-Reads_example : Reads 4 (codes "abcdef") 3 3 [] (full, codes "def", none)
read_at-Reads_example =
    read_at-Reads 4 (codes "abcdef") partial_server partial_server-chunk_of 3 3 reader
      (full, codes "def", none) across_partial (omega arith) reader-Holds
