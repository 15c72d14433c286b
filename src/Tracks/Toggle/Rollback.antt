-- ===== src/Tracks/Toggle/Rollback.antt =====
-- tracks/tracks.go: a `ToggleShuffle` that fails.
use go_librespot_termux.Prelude.{
  ℕ, ◌≡◌, refl, sym, ◌∙◌, subst, Bool, true, false, not, ◌&&◌, ◌==◌, Bool-cases, if_true, if_false,
  inl, inr, Option, none, some, length, Text, Run, ok, ◌>>=◌, >>=-eq-ok, ok-injective,
}
use go_librespot_termux.Tracks.Paged.{Pages, clear}
use go_librespot_termux.Tracks.Track.{ContextTrack, context_track_comparator}
use go_librespot_termux.Tracks.TrackList.{TrackList, SeekError, current, seek}
use go_librespot_termux.Tracks.TrackList.Seek.{SeekResult, seek-SeekResult}
use go_librespot_termux.Tracks.Toggle.{
  toggle_shuffle, shuffle_on, unshuffle_seeded, unshuffle_fetched,
}

-- The same list, position, shuffle flag and queue.
pub record RolledBack (tl u : TrackList) : Type 0 where
  pub list : u.tracks.list ≡ tl.tracks.list
  pub pos : u.tracks.pos ≡ tl.tracks.pos
  pub shuffled : u.shuffled ≡ tl.shuffled
  pub queue : u.queue ≡ tl.queue
  pub playing_queue : u.playing_queue ≡ tl.playing_queue

abbrev Toggled : Type 0
Toggled = Run (TrackList × Option SeekError)

abbrev plain : TrackList → Toggled
plain x = ok (x, none)

-- The end of `unshuffle_fetched`.
abbrev ended : TrackList → TrackList × Option SeekError → Toggled
ended tl r = elim r.1 [
  | none ↦ ok (record (r.0) { shuffled = false }, none)
  | some e ↦
      let restored = record (r.0.tracks) { list = tl.tracks.list; pos = tl.tracks.pos } in
      ok (record (r.0) { tracks = restored }, some e)
]

fetched_end :
    (tl u : TrackList) (err : SeekError) (test : ContextTrack → Run Bool)
    (r : TrackList × Option SeekError)
    → SeekResult test (record tl { tracks = clear tl.tracks }) r
    → ended tl r ≡ ok (u, some err)
    → RolledBack tl u
fetched_end tl u err test (v, none) s h = absurd (cc)
fetched_end tl u err test (v, some e) s h =
    subst (λ (x : TrackList × Option SeekError). RolledBack tl x.0) (ok-injective h)
      (record {
        list = refl;
        pos = refl;
        shuffled = s.shuffled;
        queue = s.queue;
        playing_queue = s.playing_queue;
      })

unshuffle_fetched-RolledBack :
    (pages : Pages ContextTrack) (fuel : ℕ) (typ : Text) (tl u : TrackList) (err : SeekError)
    → unshuffle_fetched pages fuel typ tl ≡ ok (u, some err)
    → RolledBack tl u
unfolding unshuffle_fetched
unshuffle_fetched-RolledBack pages fuel typ tl u err h =
    let (track, e1, h1) = >>=-eq-ok (current tl) _ h in
    let (test, e2, h2) = >>=-eq-ok (context_track_comparator typ track) _ h1 in
    let (r, e3, h3) =
      >>=-eq-ok (seek pages fuel test (record tl { tracks = clear tl.tracks })) _ h2 in
    fetched_end tl u err test r
      (seek-SeekResult test pages fuel (record tl { tracks = clear tl.tracks }) r e3) h3

no_error :
    (m : Run TrackList) (u : TrackList) (err : SeekError) (P : Type 0)
    → ◌≡◌ {A = Toggled} (m >>= λ x. plain x) (ok (u, some err))
    → P
no_error m u err P h = let (x, e, h1) = >>=-eq-ok m _ h in absurd (cc)

module _ {κ} {G : Type κ} (intn : ℕ → G → ℕ × G) (source : ℕ → G) where
  -- A `ToggleShuffle` that reports an error, whichever way it was to toggle, leaves the list, the position,
  -- the shuffle flag and the queue as they were.
  pub toggle_shuffle-RolledBack :
      (pages : Pages ContextTrack) (fuel : ℕ) (typ : Text) (drawn : ℕ) (shuffle : Bool)
      (tl u : TrackList) (err : SeekError)
      → toggle_shuffle intn source pages fuel typ drawn shuffle tl ≡ ok (u, some err)
      → RolledBack tl u
  unfolding toggle_shuffle
  toggle_shuffle-RolledBack pages fuel typ drawn true tl u err h = elim (Bool-cases tl.shuffled) [
    | inl e ↦ absurd (cc (if_true tl.shuffled _ _ e, h))
    | inr e ↦
        no_error (shuffle_on intn source pages fuel drawn tl) u err (RolledBack tl u)
          (sym (if_false tl.shuffled _ _ e) ∙ h)
  ]
  toggle_shuffle-RolledBack pages fuel typ drawn false tl u err h =
      elim (Bool-cases (not tl.shuffled)) [
        | inl e ↦ absurd (cc (if_true (not tl.shuffled) _ _ e, h))
        | inr e ↦
            let h1 = sym (if_false (not tl.shuffled) _ _ e) ∙ h in
            let c = not (tl.shuffle_seed == 0) && length tl.tracks.list == tl.shuffle_len in
            elim (Bool-cases c) [
              | inl e' ↦
                  no_error (unshuffle_seeded intn source tl) u err (RolledBack tl u)
                    (sym (if_true c _ _ e') ∙ h1)
              | inr e' ↦
                  unshuffle_fetched-RolledBack pages fuel typ tl u err
                    (sym (if_false c _ _ e') ∙ h1)
            ]
      ]
