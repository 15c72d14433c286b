-- ===== src/Tracks/TrackList/SeekTo.antt =====
-- tracks/tracks.go: `TrySeekTo`.
use go_librespot_termux.Prelude.{
  ℕ, ◌≡◌, refl, ap, sym, ◌∙◌, subst, Bool, true, false, List, [], ◌∷◌, ◌++◌, Option, none, some,
  Bool-cases, Option-cases, inl, inr, if◌then◌else◌, get_elem?, drop, Text, Run, ok, ◌>>=◌,
  >>=-eq-ok, ok-injective,
}
use go_librespot_termux.Tracks.Paged.{Item, Pages, PagedList, move_injected}
use go_librespot_termux.Tracks.Track.{ContextTrack, context_track_comparator}
use go_librespot_termux.Tracks.TrackList.{
  TrackList, SeekError, find_from, queue_match, seek_queue, pop_queue, queue_rest, seek,
  try_seek_to,
}
use go_librespot_termux.Tracks.TrackList.Seek.{Rejected, Missed, SeekResult, seek-SeekResult}

-- The test rejects every one of the tracks.
abbrev pub AllRejected : (ContextTrack → Run Bool) → List ContextTrack → Type 0
AllRejected test [] = Unit {0}
AllRejected test (t ∷ ts) = (test t ≡ ok false) × AllRejected test ts

-- A search that succeeds splits the list at the first track that the test accepts.
record FoundAt (test : ContextTrack → Run Bool) (ts q : List ContextTrack) : Type 0 where
  skipped : List ContextTrack
  hit : ContextTrack
  rest : List ContextTrack
  whole : ts ≡ skipped ++ q
  first : q ≡ hit ∷ rest
  accepted : test hit ≡ ok true
  before : AllRejected test skipped

find_from-FoundAt :
    (test : ContextTrack → Run Bool) (ts q : List ContextTrack)
    → find_from test ts ≡ ok (some q)
    → FoundAt test ts q
unfolding find_from
find_from-FoundAt test [] q h = absurd (cc)
find_from-FoundAt test (t ∷ ts) q h =
    let (hit, tested, h1) = >>=-eq-ok (test t) _ h in
    elim (Bool-cases hit) [
      | inl y ↦
          let same : t ∷ ts ≡ q = cc (ok-injective (rw y at h1)) in
          record {
            skipped = [];
            hit = t;
            rest = ts;
            whole = same;
            first = sym same;
            accepted = tested ∙ ap ok y;
            before = tt;
          }
      | inr n ↦
          let f = find_from-FoundAt test ts q (rw n at h1) in
          record {
            skipped = t ∷ f.skipped;
            hit = f.hit;
            rest = f.rest;
            whole = ap (◌∷◌ t) f.whole;
            first = f.first;
            accepted = f.accepted;
            before = (tested ∙ ap ok n, f.before);
          }
    ]

find_from-none :
    (test : ContextTrack → Run Bool) (ts : List ContextTrack)
    → find_from test ts ≡ ok none
    → AllRejected test ts
unfolding find_from
find_from-none test [] h = tt
find_from-none test (t ∷ ts) h =
    let (hit, tested, h1) = >>=-eq-ok (test t) _ h in
    elim (Bool-cases hit) [
      | inl y ↦ absurd (cc (ok-injective (rw y at h1)))
      | inr n ↦ (tested ∙ ap ok n, find_from-none test ts (rw n at h1))
    ]

-- The queue still to play holds no track that the queue's test accepts.
pub record NotQueued (typ : Text) (track : ContextTrack) (tl : TrackList) : Type 0 where
  pub test : ContextTrack → Run Bool
  pub matched : queue_match typ track ≡ ok test
  pub rejected : AllRejected test (queue_rest tl)

-- Where `TrySeekTo` leaves the list.
pub data Landed (typ : Text) (track : ContextTrack) (tl u : TrackList) : Type 0 where
  in_queue :
      (test : ContextTrack → Run Bool) (skipped : List ContextTrack) (hit : ContextTrack)
      (rest : List ContextTrack)
      → queue_match typ track ≡ ok test
      → test hit ≡ ok true
      → AllRejected test skipped
      → queue_rest tl ≡ skipped ++ (hit ∷ rest)
      → u ≡ record tl { queue = hit ∷ rest; playing_queue = true }
      → Landed typ track tl u
  in_context :
      (test : ContextTrack → Run Bool) (p : ℕ) (x : Item ContextTrack)
      (ext : List (Item ContextTrack))
      → NotQueued typ track tl
      → context_track_comparator typ track ≡ ok test
      → u.tracks.list ≡ tl.tracks.list ++ ext
      → u.tracks.pos ≡ some p
      → get_elem? u.tracks.list p ≡ some x
      → test x.item ≡ ok true
      → Rejected test u.tracks.list p
      → u.queue ≡ queue_rest tl
      → u.playing_queue ≡ false
      → Landed typ track tl u
  ahead :
      (test : ContextTrack → Run Bool) (ext : List (Item ContextTrack))
      → NotQueued typ track tl
      → context_track_comparator typ track ≡ ok test
      → Missed test (tl.tracks.list ++ ext)
      → u.tracks.list
        ≡ record { item = track; page_idx = none; item_idx = none } ∷ (tl.tracks.list ++ ext)
      → u.tracks.pos ≡ some 0
      → u.queue ≡ queue_rest tl
      → u.playing_queue ≡ false
      → Landed typ track tl u

drop_flag :
    (p : Bool) (q : List ContextTrack) → (if p then drop 1 q else q) ≡ drop (if p then 1 else 0) q
drop_flag true q = refl
drop_flag false q = refl

-- `seekQueue` either lands in the queue or changes nothing.
data QueueSought (typ : Text) (track : ContextTrack) (tl : TrackList) (r : TrackList × Bool)
    : Type 0 where
  missed : r ≡ (tl, false) → NotQueued typ track tl → QueueSought typ track tl r
  jumped : (t : TrackList) → r ≡ (t, true) → Landed typ track tl t → QueueSought typ track tl r

seek_queue-QueueSought :
    (typ : Text) (track : ContextTrack) (tl : TrackList) (r : TrackList × Bool)
    → seek_queue typ track tl ≡ ok r
    → QueueSought typ track tl r
unfolding seek_queue queue_rest
seek_queue-QueueSought typ track tl r h =
    let (test, matched, h1) = >>=-eq-ok (queue_match typ track) _ h in
    let candidates = drop (if tl.playing_queue then 1 else 0) tl.queue in
    let (found, searched, h2) = >>=-eq-ok (find_from test candidates) _ h1 in
    elim (Option-cases found) [
      | inl e ↦ missed (sym (ok-injective (rw e at h2))) (record {
        test = test;
        matched = matched;
        rejected =
            subst (AllRejected test) (sym (drop_flag tl.playing_queue tl.queue))
              (find_from-none test candidates (searched ∙ ap ok e));
      })
      | inr (q, e) ↦
          let f = find_from-FoundAt test candidates q (searched ∙ ap ok e) in
          let t = record tl { queue = q; playing_queue = true } in
          jumped t (sym (ok-injective (rw e at h2))) (
            in_queue test f.skipped f.hit f.rest matched f.accepted f.before
              (drop_flag tl.playing_queue tl.queue ∙ (f.whole ∙ ap (λ z. f.skipped ++ z) f.first))
              (ap (λ z. record tl { queue = z; playing_queue = true }) f.first))
    ]

-- What is left once the queue is left: its rest still follows.
record Left (tl t : TrackList) : Type 0 where
  queue : t.queue ≡ queue_rest tl
  playing : t.playing_queue ≡ false
  tracks : t.tracks ≡ tl.tracks

leave_cases :
    (tl : TrackList) (p : Bool) (q : List ContextTrack) (t : TrackList)
    → (if p
        then (pop_queue (record tl { playing_queue = p; queue = q }) >>= λ u.
            ok (record u { playing_queue = false }))
        else ok (record tl { playing_queue = p; queue = q }))
      ≡ ok t
    → Left (record tl { playing_queue = p; queue = q }) t
unfolding pop_queue queue_rest
leave_cases tl true [] t h = absurd (cc)
leave_cases tl true (x ∷ q) t h =
    subst (Left (record tl { playing_queue = true; queue = x ∷ q })) (ok-injective h)
      (record { queue = refl; playing = refl; tracks = refl })
leave_cases tl false q t h =
    subst (Left (record tl { playing_queue = false; queue = q })) (ok-injective h)
      (record { queue = refl; playing = refl; tracks = refl })

-- The end of `TrySeekTo` in the context.
context_end :
    (typ : Text) (track : ContextTrack) (tl t u : TrackList) (test : ContextTrack → Run Bool)
    (r : TrackList × Option SeekError)
    → Left tl t
    → NotQueued typ track tl
    → context_track_comparator typ track ≡ ok test
    → SeekResult test t r
    → elim r.1 [
      | none ↦ ok r.0
      | some _ ↦ ok (record (r.0) { tracks = move_injected track r.0.tracks })
    ]
      ≡ ok u
    → Landed typ track tl u
unfolding move_injected
context_end typ track tl t u test (v, none) left nq made s h =
    let same = ok-injective h in
    let (p, x, pos, entry, hit, before) = s.sought in
    subst (Landed typ track tl) same (
      in_context test p x s.kept.0 nq made
        (s.kept.1 ∙ ap (λ (l : PagedList ContextTrack). l.list ++ s.kept.0) left.tracks) pos entry
        hit before (s.queue ∙ left.queue) (s.playing_queue ∙ left.playing))
context_end typ track tl t u test (v, some e) left nq made s h =
    let grown = s.kept.1 ∙ ap (λ (l : PagedList ContextTrack). l.list ++ s.kept.0) left.tracks in
    subst (Landed typ track tl) (ok-injective h) (
      ahead test s.kept.0 nq made (subst (Missed test) grown s.sought.1)
        (ap (λ z. record { item = track; page_idx = none; item_idx = none } ∷ z) grown) refl
        (s.queue ∙ left.queue) (s.playing_queue ∙ left.playing))

-- `TrySeekTo` always lands, where it returns. Either the queue still to play holds a track that the
-- queue's test accepts: the queue then starts at the first such track, the ones before it are rejected,
-- and nothing else changes. Or the test rejects all of the queue, which is left, and what follows the
-- entry that played stays queued; the list only grows at its end. The position is then on the first
-- entry of the context that the comparator accepts. If the comparator rejects all entries, or all up to
-- one on the last page that may be asked for, then it is on the given track, put ahead of the entries.
pub try_seek_to-Landed :
    (pages : Pages ContextTrack) (fuel : ℕ) (typ : Text) (track : ContextTrack) (tl u : TrackList)
    → try_seek_to pages fuel typ track tl ≡ ok u
    → Landed typ track tl u
unfolding try_seek_to
try_seek_to-Landed pages fuel typ track tl u h =
    let (r, sought, h1) = >>=-eq-ok (seek_queue typ track tl) _ h in
    elim (seek_queue-QueueSought typ track tl r sought) [
      | jumped t e landed ↦ subst (Landed typ track tl) (ok-injective (rw e at h1)) landed
      | missed e nq ↦
          let h2 = rw e at h1 in
          let (t, e1, h3) =
            >>=-eq-ok
              (if tl.playing_queue
                then (pop_queue tl >>= λ t. ok (record t { playing_queue = false }))
                else ok tl)
              _ h2 in
          let (test, e2, h4) = >>=-eq-ok (context_track_comparator typ track) _ h3 in
          let (s, e3, h5) = >>=-eq-ok (seek pages fuel test t) _ h4 in
          context_end typ track tl t u test s (leave_cases tl tl.playing_queue tl.queue t e1) nq e2
            (seek-SeekResult test pages fuel t s e3) h5
    ]
