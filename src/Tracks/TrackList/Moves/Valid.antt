-- ===== src/Tracks/TrackList/Moves/Valid.antt =====
-- tracks/tracks.go: a list whose position is on a loaded entry, and a walk of one entry in it.
use go_librespot_termux.Prelude.{
  ℕ, suc, ◌≤◌, ◌<◌, ◌≡◌, refl, ap, Bool, true, false, List, [], ◌∷◌, ◌++◌, none, some, arith,
  if◌then◌else◌, length, get_elem?, length-append, ok,
}
use go_librespot_termux.Tracks.Paged.{Item, Iter, Index, PagedList, get, move, iter_here}
use go_librespot_termux.Tracks.Track.{ContextTrack}
use go_librespot_termux.Tracks.TrackList.{TrackList, queue_rest, pop_queue}
use go_librespot_termux.Tracks.TrackList.Queue.{HasHead}

-- The position is on a loaded entry, and a queue that plays has a head.
pub record IsValid (tl : TrackList) : Type 0 where
  pub placed : (p : ℕ) × (tl.tracks.pos ≡ some p) × (p < length tl.tracks.list)
  pub head : HasHead tl

pub iter_here-ok :
    (l : PagedList ContextTrack) (p : ℕ)
    → l.pos ≡ some p
    → iter_here l ≡ ok (record { at = some p; err = none })
unfolding iter_here
iter_here-ok l p e = rw (e, iter_here)

pub move-ok :
    (l : PagedList ContextTrack) (i : Iter) (q : ℕ)
    → i ≡ record { at = some q; err = none }
    → move l i ≡ ok (record l { pos = some q })
unfolding move
move-ok l i q e = rw e

pub get-ok :
    (l : PagedList ContextTrack) (i : Index) (q : ℕ) (x : Item ContextTrack)
    → i ≡ some q
    → get_elem? l.list q ≡ some x
    → get l i ≡ ok x
unfolding get
get-ok l i q x e h = rw (e, h)

-- The list with another flag and queue.
abbrev pub with_queue : TrackList → Bool → List ContextTrack → TrackList
with_queue tl p q = record tl { playing_queue = p; queue = q }

pub pop_played_cases :
    (tl : TrackList) (p : Bool) (q : List ContextTrack)
    → HasHead (with_queue tl p q)
    → (if p then pop_queue (with_queue tl p q) else ok (with_queue tl p q))
      ≡ ok (record tl { playing_queue = p; queue = queue_rest (with_queue tl p q) })
unfolding pop_queue queue_rest
pop_played_cases tl true [] h = absurd (omega (arith, h refl))
pop_played_cases tl true (x ∷ q) h = refl
pop_played_cases tl false q h = refl

-- The list after dropping the entry that played.
pub pop_played :
    (tl : TrackList)
    → HasHead tl
    → (if tl.playing_queue then pop_queue tl else ok tl) ≡ ok (record tl { queue = queue_rest tl })
pop_played tl h = pop_played_cases tl tl.playing_queue tl.queue h

-- What walking one entry on in the context leaves.
pub record WalkedOn (t : TrackList) (p : ℕ) (u : TrackList) (found : Bool) : Type 0 where
  pub queue : u.queue ≡ t.queue
  pub playing : u.playing_queue ≡ false
  pub kept : (ext : List (Item ContextTrack)) × (u.tracks.list ≡ t.tracks.list ++ ext)
  pub moved : found ≡ true → (u.tracks.pos ≡ some (suc p)) × (suc p < length u.tracks.list)
  pub stayed : found ≡ false → (u.tracks.pos ≡ some p) × (length u.tracks.list ≤ suc p)

pub WalkedOn-IsValid :
    (t : TrackList) (p : ℕ) (u : TrackList) (found : Bool)
    → WalkedOn t p u found
    → p < length t.tracks.list
    → IsValid u
WalkedOn-IsValid t p u true w h = record {
  placed = (suc p, (w.moved refl).0, (w.moved refl).1);
  head = λ e. absurd (cc (w.playing));
}
WalkedOn-IsValid t p u false w h = record {
  placed = (
    p,
    (w.stayed refl).0,
    omega (arith, ap {B = ℕ} length w.kept.1, length-append t.tracks.list w.kept.0),
  );
  head = λ e. absurd (cc (w.playing));
}
