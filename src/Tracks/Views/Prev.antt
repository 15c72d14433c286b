-- ===== src/Tracks/Views/Prev.antt =====
-- tracks/tracks.go: which tracks `PrevTracks` publishes.
use go_librespot_termux.Prelude.{
  ℕ, zero, suc, ◌-◌, ◌≤◌, ◌≡◌, refl, ap, sym, ◌∙◌, subst, List, [], ◌∷◌, ◌++◌, reverse,
  append_assoc, append-nil, reverse-append, none, some, arith, length, take, drop, get_elem?, Text,
  ok, >>=-eq-ok, ok-injective, or_panic, or_panic-eq-ok,
}
use go_librespot_termux.Tracks.Paged.{Item, PagedList, prev, get, iter_here}
use go_librespot_termux.Tracks.Track.{ContextTrack, ProvidedTrack, context_track_to_provided_track}
use go_librespot_termux.Tracks.TrackList.{TrackList}
use go_librespot_termux.Tracks.TrackList.Moves.Valid.{iter_here-ok}
use go_librespot_termux.Tracks.Views.{prev_loop, prev_tracks}

-- The tracks are the published forms of the entries, in order.
pub data Published (typ : Text) : List (Item ContextTrack) → List ProvidedTrack → Type 0 where
  published_nil : Published typ [] []
  published_cons :
      (x : Item ContextTrack) (xs : List (Item ContextTrack)) (p : ProvidedTrack)
      (ps : List ProvidedTrack)
      → context_track_to_provided_track typ x.item ≡ ok p
      → Published typ xs ps
      → Published typ (x ∷ xs) (p ∷ ps)

Published-snoc :
    (typ : Text) (xs : List (Item ContextTrack)) (ps : List ProvidedTrack) (x : Item ContextTrack)
    (p : ProvidedTrack)
    → Published typ xs ps
    → context_track_to_provided_track typ x.item ≡ ok p
    → Published typ (xs ++ (x ∷ [])) (ps ++ (p ∷ []))
Published-snoc typ xs ps x p published_nil e = published_cons x [] p [] e published_nil
Published-snoc typ xs ps x p (published_cons y ys q qs f r) e =
    published_cons y (ys ++ (x ∷ [])) q (qs ++ (p ∷ [])) f (Published-snoc typ ys qs x p r e)

module _ {ℓ} {A : Type ℓ} where
  take-suc :
      (xs : List A) (n : ℕ) (x : A)
      → get_elem? xs n ≡ some x
      → take (suc n) xs ≡ take n xs ++ (x ∷ [])
  take-suc [] n x e = absurd (cc)
  take-suc (y ∷ xs) zero x e = cc
  take-suc (y ∷ xs) (suc n) x e = ap (◌∷◌ y) (take-suc xs n x e)

  drop-append : (a b : List A) (n : ℕ) → n ≤ length a → drop n (a ++ b) ≡ drop n a ++ b
  drop-append a b zero h = refl
  drop-append [] b (suc n) h = absurd (omega arith)
  drop-append (x ∷ a) b (suc n) h = drop-append a b n (omega arith)

  length-take-le : (n : ℕ) (xs : List A) → n ≤ length xs → length (take n xs) ≡ n
  length-take-le zero xs h = refl
  length-take-le (suc n) [] h = absurd (omega arith)
  length-take-le (suc n) (x ∷ xs) h = ap suc (length-take-le n xs (omega arith))

-- The last `n` of the first `p` entries.
abbrev pub window : {A : Type 0} → ℕ → ℕ → List A → List A
window n p xs = drop (p - n) (take p xs)

module _ {A : Type 0} where
  window-suc :
      (n p : ℕ) (xs : List A) (x : A)
      → get_elem? xs p ≡ some x
      → p ≤ length xs
      → window (suc n) (suc p) xs ≡ window n p xs ++ (x ∷ [])
  window-suc n p xs x e h =
      ap (λ k. drop k (take (suc p) xs)) {x = suc p - suc n} {y = p - n} (omega arith)
      ∙ (ap (drop (p - n)) (take-suc xs p x e)
          ∙ drop-append (take p xs) (x ∷ []) (p - n) (omega (arith, length-take-le p xs h)))

  drop-nil : (n : ℕ) → drop {A = A} n [] ≡ []
  drop-nil zero = refl
  drop-nil (suc n) = refl

  drop-take : (n : ℕ) (xs : List A) → drop n (take n xs) ≡ []
  drop-take zero xs = refl
  drop-take (suc n) [] = refl
  drop-take (suc n) (x ∷ xs) = drop-take n xs

  window-zero : (p : ℕ) (xs : List A) → window 0 p xs ≡ []
  window-zero p xs = ap (λ k. drop k (take p xs)) {x = p - 0} {y = p} (omega arith) ∙ drop-take p xs

module _ (typ : Text) where
  prev_loop-Published :
      (l : PagedList ContextTrack) (n p : ℕ) (acc out : List ProvidedTrack)
      → p ≤ length l.list
      → prev_loop typ l n (record { at = some p; err = none }) acc ≡ ok out
      → (ps : List ProvidedTrack) × (reverse out ≡ ps ++ reverse acc)
        × Published typ (window n p l.list) ps
  unfolding prev_loop prev get
  prev_loop-Published l zero p acc out h e = (
    [],
    ap reverse (sym (ok-injective e)),
    subst (λ xs. Published typ xs []) (sym (window-zero p l.list)) published_nil,
  )
  prev_loop-Published l (suc n) zero acc out h e = (
    [],
    ap reverse (sym (ok-injective e)),
    subst (λ xs. Published typ xs []) (sym (drop-nil (0 - suc n))) published_nil,
  )
  prev_loop-Published l (suc n) (suc p) acc out h e =
      let (x, got, e1) = >>=-eq-ok (or_panic (get_elem? l.list p)) _ e in
      let (t, made, e2) = >>=-eq-ok (context_track_to_provided_track typ x.item) _ e1 in
      let (ps, order, pub') = prev_loop-Published l n p (acc ++ (t ∷ [])) out (omega arith) e2 in
      (
        ps ++ (t ∷ []),
        order
            ∙ (ap (λ q. ps ++ q) (reverse-append acc (t ∷ []))
                ∙ sym (append_assoc ps (t ∷ []) (reverse acc))),
        subst (λ xs. Published typ xs (ps ++ (t ∷ [])))
            (sym (window-suc n p l.list x (or_panic-eq-ok (get_elem? l.list p) got) (omega arith)))
            (Published-snoc typ (window n p l.list) ps x t pub' made),
      )

  -- On a list whose position is on or before its end, `PrevTracks`, where it returns, gives the published
  -- forms of the loaded entries before the position, in the order of the list: all of them, or the last
  -- 32 if there are more.
  prev_tracks-Published :
      (tl : TrackList) (p : ℕ) (ps : List ProvidedTrack)
      → tl.tracks.pos ≡ some p
      → p ≤ length tl.tracks.list
      → prev_tracks typ tl ≡ ok ps
      → Published typ (window 32 p tl.tracks.list) ps
  unfolding prev_tracks
  prev_tracks-Published tl p ps pos h e =
      let (i, here, e0) = >>=-eq-ok (iter_here tl.tracks) _ e in
      let same : i ≡ record { at = some p; err = none } =
        ok-injective (sym here ∙ iter_here-ok tl.tracks p pos) in
      let (acc, run, e1) = >>=-eq-ok (prev_loop typ tl.tracks 32 i []) _ e0 in
      let (qs, order, pub') =
        prev_loop-Published tl.tracks 32 p [] acc h
          (subst (λ j. prev_loop typ tl.tracks 32 j [] ≡ ok acc) same run) in
      subst (Published typ (window 32 p tl.tracks.list))
        (sym (append-nil qs) ∙ (sym order ∙ ok-injective e1)) pub'
