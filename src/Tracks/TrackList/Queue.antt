-- ===== src/Tracks/TrackList/Queue.antt =====
-- tracks/tracks.go: the queue.
use go_librespot_termux.Prelude.{
  ◌<◌, ◌≡◌, refl, ap, sym, ◌∙◌, Bool, true, false, List, [], ◌∷◌, ◌++◌, none, some, arith,
  Bool-cases, inl, inr, append-nil, append_assoc, text_eq, text_eq_refl, Text, codes, if◌then◌else◌,
  length, drop, ok,
}
use go_librespot_termux.Tracks.Track.{
  Metadata, ContextTrack, meta_get, meta_set, entries_get, entries_set,
}
use go_librespot_termux.Tracks.TrackList.{
  TrackList, add_to_queue, append_queued, is_queued, made_metadata, set_queue, current, queue_rest,
}

-- A queue that plays has a head.
abbrev pub HasHead : TrackList → Type 0
HasHead tl = tl.playing_queue ≡ true → 0 < length tl.queue

pub entries_get-entries_set :
    (k v : Text) (m : List (Text × Text)) → entries_get k (entries_set k v m) ≡ v
unfolding entries_get entries_set
entries_get-entries_set k v [] = rw (text_eq_refl k)
entries_get-entries_set k v ((j, w) ∷ m) = elim (Bool-cases (text_eq j k)) [
  | inl e ↦ rw (e, text_eq_refl k)
  | inr e ↦ rw (e, e) (entries_get-entries_set k v m)
]

-- The leading tracks that are queued.
pub queued_prefix : List ContextTrack → List ContextTrack
queued_prefix [] = []
queued_prefix (t ∷ ts) = if is_queued t then t ∷ queued_prefix ts else []

append_queued-eq : (q ts : List ContextTrack) → append_queued q ts ≡ q ++ queued_prefix ts
unfolding append_queued queued_prefix
append_queued-eq q [] = sym (append-nil q)
append_queued-eq q (t ∷ ts) = elim (Bool-cases (is_queued t)) [
  | inl e ↦ rw e (append_queued-eq (q ++ (t ∷ [])) ts ∙ append_assoc q (t ∷ []) (queued_prefix ts))
  | inr e ↦ rw e (sym (append-nil q))
]

-- The track that `AddToQueue` appends: it is marked as queued, and is the given one otherwise.
pub record MarkedCopy (t t' : ContextTrack) : Type 0 where
  pub marked : is_queued t' ≡ true
  pub uri : t'.uri ≡ t.uri
  pub uid : t'.uid ≡ t.uid
  pub gid : t'.gid ≡ t.gid

marked_metadata :
    (m : Metadata)
    → (m' : Metadata) × (meta_set (codes "is_queued") (codes "true") (made_metadata m) ≡ ok m')
      × (meta_get (codes "is_queued") m' ≡ codes "true")
unfolding meta_set made_metadata meta_get
marked_metadata none = (
  some (entries_set (codes "is_queued") (codes "true") []),
  refl,
  entries_get-entries_set (codes "is_queued") (codes "true") [],
)
marked_metadata (some m) = (
  some (entries_set (codes "is_queued") (codes "true") m),
  refl,
  entries_get-entries_set (codes "is_queued") (codes "true") m,
)

-- A queue that grows at its end keeps its head and what follows it.
grown_queue :
    (playing : Bool) (q : List ContextTrack) (t : ContextTrack)
    → (playing ≡ true → 0 < length q)
    → (if playing then drop 1 (q ++ (t ∷ [])) else q ++ (t ∷ []))
      ≡ (if playing then drop 1 q else q) ++ (t ∷ [])
grown_queue true [] t h = absurd (omega (arith, h refl))
grown_queue true (x ∷ q) t h = refl
grown_queue false q t h = refl

-- `AddToQueue` never panics, also on a track without metadata. What is still to play grows at its end
-- by a marked copy of the track, and the entries of the context, the position and the flag stay.
add_to_queue-appends :
    (t : ContextTrack) (tl : TrackList)
    → HasHead tl
    → (u : TrackList) × (t' : ContextTrack) × (add_to_queue t tl ≡ ok u)
      × MarkedCopy t t'
      × (queue_rest u ≡ queue_rest tl ++ (t' ∷ []))
      × (u.queue ≡ tl.queue ++ (t' ∷ []))
      × (u.tracks ≡ tl.tracks)
      × (u.playing_queue ≡ tl.playing_queue)
unfolding add_to_queue queue_rest is_queued
add_to_queue-appends t tl h =
    let (m, run, got) = marked_metadata t.metadata in
    let t' = record t { metadata = m } in
    (
      record tl { queue = tl.queue ++ (t' ∷ []) },
      t',
      rw run,
      record { marked = rw got (text_eq_refl (codes "true")); uri = refl; uid = refl; gid = refl },
      grown_queue tl.playing_queue tl.queue t' h,
      refl,
      refl,
      refl,
    )

-- What `SetQueue` leaves: only the entry that plays, if one does, and then the leading tracks of the
-- given list that are marked as queued.
set_queue-prefix :
    (ts : List ContextTrack) (tl : TrackList)
    → HasHead tl
    → (u : TrackList) × (set_queue ts tl ≡ ok u)
      × (queue_rest u ≡ queued_prefix ts)
      × (current u ≡ current tl)
      × HasHead u
      × (u.tracks ≡ tl.tracks)
      × (u.playing_queue ≡ tl.playing_queue)
unfolding set_queue queue_rest current
set_queue-prefix ts tl h = go tl.playing_queue tl.queue refl refl
  where
    go :
        (p : Bool) (q : List ContextTrack)
        → tl.playing_queue ≡ p
        → tl.queue ≡ q
        → (u : TrackList) × (set_queue ts tl ≡ ok u)
          × (queue_rest u ≡ queued_prefix ts)
          × (current u ≡ current tl)
          × HasHead u
          × (u.tracks ≡ tl.tracks)
          × (u.playing_queue ≡ tl.playing_queue)
    go true [] e f = absurd (omega (arith, h e, ap length f))
    go true (x ∷ q) e f =
        let kept = append_queued-eq (x ∷ []) ts in
        (
          record tl { queue = append_queued (x ∷ []) ts },
          rw (e, f),
          rw (e, kept),
          rw (e, f, kept),
          λ _. rw kept (omega arith),
          refl,
          refl,
        )
    go false q e f = (
      record tl { queue = append_queued [] ts },
      rw e,
      rw (e, append_queued-eq [] ts),
      rw e,
      λ t. absurd (cc),
      refl,
      refl,
    )
