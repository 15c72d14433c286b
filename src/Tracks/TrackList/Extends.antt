-- ===== src/Tracks/TrackList/Extends.antt =====
-- tracks/tracks.go: the walks of a track list only extend what is loaded.
use go_librespot_termux.Prelude.{
  ℕ, zero, suc, ◌≡◌, refl, ap, sym, ◌∙◌, ◌⊎◌, subst, Bool, true, false, List, [], ◌++◌,
  append_assoc, append-nil, Bool-cases, inl, inr, Run, ok, >>=-eq-ok, ok-injective,
}
use go_librespot_termux.Tracks.Paged.{Item, Iter, Pages, PagedList, next, get}
use go_librespot_termux.Tracks.Paged.Fetch.{next-Advanced}
use go_librespot_termux.Tracks.Track.{ContextTrack}
use go_librespot_termux.Tracks.TrackList.{walk_loop, walk_round, page_reaches_max}

-- `m` is `l` after fetching: longer at the end, at the same position.
pub record Extends (l m : PagedList ContextTrack) : Type 0 where
  pub kept : (ext : List (Item ContextTrack)) × (m.list ≡ l.list ++ ext)
  pub pos : m.pos ≡ l.pos

Extends-refl : (l : PagedList ContextTrack) → Extends l l
Extends-refl l = record { kept = ([], sym (append-nil l.list)); pos = refl }

Extends-trans : (l m n : PagedList ContextTrack) → Extends l m → Extends m n → Extends l n
Extends-trans l m n a b = record {
  kept = (
    a.kept.0 ++ b.kept.0,
    b.kept.1 ∙ (ap (λ x. x ++ b.kept.0) a.kept.1 ∙ append_assoc l.list a.kept.0 b.kept.0),
  );
  pos = b.pos ∙ a.pos;
}

next-Extends :
    (pages : Pages ContextTrack) (l : PagedList ContextTrack) (i : Iter)
    (r : PagedList ContextTrack × Iter × Bool)
    → next pages l i ≡ ok r
    → Extends l r.0
next-Extends pages l i r h =
    let (s, run, a) = next-Advanced pages l i in
    let same : s ≡ r = ok-injective (sym run ∙ h) in
    subst (λ (x : PagedList ContextTrack × Iter × Bool). Extends l x.0) same
      (record { kept = a.kept; pos = a.pos })

-- A round of the walk ends it on the list at hand, or goes on.
walk_round-inv :
    (again : PagedList ContextTrack → Iter → Run (PagedList ContextTrack))
    (r : PagedList ContextTrack × Iter × Bool) (m : PagedList ContextTrack)
    → walk_round again r ≡ ok m
    → (r.0 ≡ m) ⊎ (again r.0 r.1 ≡ ok m)
unfolding walk_round
walk_round-inv again (l, i, false) m h = inl (ok-injective h)
walk_round-inv again (l, i, true) m h =
    let (curr, got, h1) = >>=-eq-ok (get l i.at) _ h in
    elim (Bool-cases (page_reaches_max curr.page_idx)) [
      | inl e ↦ inl (ok-injective (rw e at h1))
      | inr e ↦ inr (rw e at h1)
    ]

-- The walk of `ToggleShuffle` only extends the list.
pub walk_loop-Extends :
    (pages : Pages ContextTrack) (n : ℕ) (l : PagedList ContextTrack) (i : Iter)
    (m : PagedList ContextTrack)
    → walk_loop pages n l i ≡ ok m
    → Extends l m
unfolding walk_loop
walk_loop-Extends pages zero l i m h = absurd (cc)
walk_loop-Extends pages (suc n) l i m h =
    let (r, run, rest) = >>=-eq-ok (next pages l i) _ h in
    let first = next-Extends pages l i r run in
    elim (walk_round-inv (λ l' i'. walk_loop pages n l' i') r m rest) [
      | inl e ↦ subst (Extends l) e first
      | inr again ↦ Extends-trans l r.0 m first (walk_loop-Extends pages n r.0 r.1 m again)
    ]
