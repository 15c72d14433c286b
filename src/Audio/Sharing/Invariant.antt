-- ===== src/Audio/Sharing/Invariant.antt =====
-- audio/chunked-reader.go: the chunks are counted right and nobody waits in vain, whatever the goroutines do.
mod Count
pub mod Moves
use go_librespot_termux.Prelude.{
  ℕ, zero, suc, ◌+◌, ◌-◌, ◌/◌, ◌≡◌, ◌≢◌, refl, ap, sym, ◌∙◌, subst, Bool, true, false, List, [],
  ◌∷◌, ◌++◌, map, Option, none, some, arith, Bool-cases, inl, inr, ◌==◌, ==_iff, if_true, if_false,
  if◌then◌else◌, length-set, get_elem?, set, get_elem?-set_ne, Run, ok, panic, ok-injective,
}
use go_librespot_termux.Audio.{
  Chunk, ChunkedReader, Fetched, err_closed, download_failed, fetched, fetch_err, blank_chunks,
  mark_chunk_complete, register, close, new_reader,
}
use go_librespot_termux.Audio.Completion.{
  loaded, loaded-set, loaded-blank, IsFired, register-IsFired, mark_chunk_complete-IsFired,
  maybe_fire_complete-kept,
}
use go_librespot_termux.Audio.Sharing.{
  Fetching, looking, waiting, downloading, marking, finishing, returned, SharedReader, put,
  put_flag, woken, broadcast, look, download_ended, mark, finish, Step, spawned, looked, ended,
  marked, finished, registered, closed_reader, close_woke, Reachable, made, stepped,
}
use go_librespot_termux.Audio.Sharing.Owners.{
  quiet-IsOwned, claim-IsOwned, broadcast-IsOwned, broadcast-none_waiting, release-IsOwned,
  spawned-IsOwned,
}
use go_librespot_termux.Audio.Sharing.Owners.Basics.{IsBacked, IsOwned, NotOwner, still_at}
use go_librespot_termux.Audio.Sharing.Owners.Waking.{to_map}
use go_librespot_termux.Audio.Sharing.Invariant.Count.{
  marks, uncounted, uncounted-set, marks-woken, uncounted-map, uncounted-append,
}
use go_librespot_termux.Audio.Sharing.Invariant.Moves.{
  IsShared, put-IsShared, look-IsShared, released, ended-IsShared, mark-IsShared,
}

Step-IsShared : {w v : SharedReader} → Step w v → IsShared w → IsShared v
unfolding broadcast finish register close
Step-IsShared (spawned w k h) s = record {
  owned = spawned-IsOwned w.goroutines w.fetching w.reader.chunks k s.owned;
  counted = omega (arith, s.counted, uncounted-append w.goroutines k);
  fired = s.fired;
}
Step-IsShared (looked w i k c e f) s = look-IsShared w i k c s e f
Step-IsShared (ended w i k o e) s = ended-IsShared w i k o s e
Step-IsShared (marked w i k d e) s = mark-IsShared w i k d s e
Step-IsShared (finished w i k d e) s =
    put-IsShared w i (finishing k d)
      (returned k (if w.reader.closed then fetch_err err_closed else fetched d)) s e
      (λ j t. absurd (cc)) (λ j t. absurd (cc)) tt refl refl
Step-IsShared (registered w) s =
    let (chunks, count) = maybe_fire_complete-kept (record w.reader { on_complete = true }) in
    record {
      owned = subst (λ cs. IsOwned w.goroutines w.fetching cs) (sym chunks) s.owned;
      counted = omega (arith, s.counted, count, ap loaded chunks);
      fired = register-IsFired w.reader s.fired;
    }
Step-IsShared (closed_reader w) s = record {
  owned = s.owned;
  counted = s.counted;
  fired = record { once = s.fired.once; complete = s.fired.complete; due = s.fired.due };
}
Step-IsShared (close_woke w k h) s = record {
  owned = broadcast-IsOwned w.goroutines w.fetching w.reader.chunks k s.owned;
  counted = omega (arith, s.counted, uncounted-map k w.goroutines);
  fired = s.fired;
}

loaded-tail : (c : Chunk) (cs : List Chunk) → loaded (c ∷ cs) ≡ 0 → loaded cs ≡ 0
unfolding loaded
loaded-tail none cs e = e
loaded-tail (some d) cs e = absurd (omega (arith, e))

made-IsShared :
    (size len : ℕ) (first : List ℕ) (r : ChunkedReader)
    → new_reader size len first ≡ ok r
    → IsShared (record { reader = r; fetching = λ k. false; goroutines = [] })
unfolding new_reader loaded uncounted
made-IsShared size len first r e =
    go (blank_chunks ((len + size - 1) / size)) (loaded-blank ((len + size - 1) / size)) e
  where
    go :
        (cs : List Chunk)
        → loaded cs ≡ 0
        → elim cs as (λ _. Run ChunkedReader) [
          | [] ↦ panic
          | _ ∷ cs ↦ ok (record {
            chunks = some first ∷ cs;
            len = len;
            pos = 0;
            closed = false;
            completed_chunks = 1;
            on_complete = false;
            on_complete_fired = false;
            started = 0;
            calls = 1;
          })
        ]
          ≡ ok r
        → IsShared (record { reader = r; fetching = λ k. false; goroutines = [] })
    go [] z f = absurd (cc)
    go (c ∷ cs) z f =
        subst
          (λ (q : ChunkedReader).
            IsShared (record { reader = q; fetching = λ k. false; goroutines = [] }))
          (ok-injective f)
          (record {
            owned = record {
              backed = λ i g h. absurd (cc);
              sole = λ i j k h. absurd (cc);
              owner = λ k h. absurd (cc);
            };
            counted = omega (arith, loaded-tail c cs z);
            fired = record { once = refl; complete = λ h. absurd (cc); due = λ h. absurd (cc) };
          })

-- Whatever goroutines fetch chunks of a reader, and however their steps and the closing interleave: the
-- chunks counted, with those that a goroutine has stored and is about to count, are the ones that are
-- there, so that none is counted twice. The callback has started once if it is registered and all chunks
-- are counted, and not at all otherwise. A chunk whose flag is set is not there yet, and exactly one
-- goroutine downloads it; the flag of a chunk that a goroutine waits for is set.
pub Reachable-IsShared : (w : SharedReader) → Reachable w → IsShared w
Reachable-IsShared w (made size len first r e) = made-IsShared size len first r e
Reachable-IsShared w (stepped {w = u} r t) = Step-IsShared t (Reachable-IsShared u r)

-- The end of a download, however it ends, wakes whoever waits for the chunk.
ended-woken :
    (w : SharedReader) (i j k : ℕ) (o : Option (List ℕ))
    → get_elem? w.goroutines i ≡ some (waiting k)
    → get_elem? w.goroutines j ≡ some (downloading k)
    → get_elem? (download_ended j k o w).goroutines i ≡ some (looking k)
unfolding download_ended broadcast
ended-woken w i j k o e at' = go o
  where
    up : get_elem? (map (woken k) w.goroutines) i ≡ some (looking k)
    up =
        to_map w.goroutines k i (waiting k) e
        ∙ ap some (if_true (k == k) (looking k) (waiting k) ((==_iff k k).1 refl))

    down : get_elem? (map (woken k) w.goroutines) j ≡ some (downloading k)
    down = to_map w.goroutines k j (downloading k) at'

    after : (g : Fetching) → get_elem? (set (map (woken k) w.goroutines) j g) i ≡ some (looking k)
    after g =
        still_at (map (woken k) w.goroutines) j (looking k) (downloading k) g i down
          (λ t. absurd (cc)) up

    go : (o : Option (List ℕ)) → get_elem? (download_ended j k o w).goroutines i ≡ some (looking k)
    go none = after (returned k (fetch_err (download_failed k)))
    go (some d) = after (marking k d)

-- No goroutine waits for a broadcast that nobody sends: while one waits for a chunk, another downloads
-- that chunk; and when that download ends, with data or with an error, the one that waits is woken and
-- looks at the chunk again.
pub Reachable-woken :
    (w : SharedReader) (i k : ℕ) (o : Option (List ℕ))
    → Reachable w
    → get_elem? w.goroutines i ≡ some (waiting k)
    → (j : ℕ) × (get_elem? w.goroutines j ≡ some (downloading k))
      × (get_elem? (download_ended j k o w).goroutines i ≡ some (looking k))
Reachable-woken w i k o r e =
    let s = Reachable-IsShared w r in
    let (j, at') = s.owned.owner k (s.owned.backed i (waiting k) e) in
    (j, at', ended-woken w i j k o e at')
