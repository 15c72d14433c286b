-- ===== src/Meta/Enumerate.antt =====
-- daemon/track_meta_cache.go: the enumeration of a context finds its first tracks, page after page.
use go_librespot_termux.Prelude.{
  ℕ, zero, suc, ◌+◌, ◌≤◌, ◌<◌, ◌≡◌, refl, ap, ap₂, sym, ◌∙◌, subst, Bool, true, false, not, List,
  [], ◌∷◌, ◌++◌, append_assoc, append-nil, arith, leb, leb→le, leb-false→lt, le→leb, lt→leb-false,
  ◌==◌, ==_iff, Bool-cases, inl, inr, if_true, if_false, if◌then◌else◌, length, length-append, take,
  Text, Run, ok, ◌>>=◌, >>=-eq-ok, ok-injective,
}
use go_librespot_termux.Tracks.Track.{ContextTrack}
use go_librespot_termux.Meta.{
  max_context_pages, is_listable, context_track_uri, ListPage, items, end_of_list, page_failed,
  Listed, listed, failed_at, add_items, enumerate_loop, enumerate_context_tracks,
}

-- The uris of tracks that have metadata, all of them.
unfoldable pub uris_of : Text → List ContextTrack → Run (List Text)
uris_of typ [] = ok []
uris_of typ (t ∷ ts) = do
  u ← context_track_uri typ t
  us ← uris_of typ ts
  ok (if is_listable u then u ∷ us else us)

take-all : (n : ℕ) (xs : List Text) → length xs ≤ n → take n xs ≡ xs
take-all zero [] h = refl
take-all zero (x ∷ xs) h = absurd (omega arith)
take-all (suc n) [] h = refl
take-all (suc n) (x ∷ xs) h = ap (◌∷◌ x) (take-all n xs (omega arith))

take-full : (n : ℕ) (xs ys : List Text) → length xs ≡ n → take n (xs ++ ys) ≡ xs
take-full zero [] ys h = refl
take-full zero (x ∷ xs) ys h = absurd (omega arith)
take-full (suc n) [] ys h = absurd (omega arith)
take-full (suc n) (x ∷ xs) ys h = ap (◌∷◌ x) (take-full n xs ys (omega arith))

-- The items of a page are added until there are as many as may be.
add_items_lem :
    (typ : Text) (max_tracks : ℕ) (ts : List ContextTrack) (acc us : List Text)
    → uris_of typ ts ≡ ok us
    → length acc < max_tracks
    → add_items typ max_tracks acc ts
      ≡ ok (take max_tracks (acc ++ us), leb max_tracks (length (acc ++ us)))
unfolding add_items uris_of
add_items_lem typ n [] acc us h lt =
    let e : [] ≡ us = ok-injective h in
    subst
      (λ x.
        ◌≡◌ {A = Run (List Text × Bool)} (ok (acc, false))
          (ok (take n (acc ++ x), leb n (length (acc ++ x)))))
      e
      (ap₂ (λ (a : List Text) (b : Bool). ok (a, b))
        (sym (ap (take n) (append-nil acc) ∙ take-all n acc (omega arith)))
        (sym (lt→leb-false _ _ (omega (arith, length-append acc [], lt)))))
add_items_lem typ n (t ∷ ts) acc us h lt =
    let (u, named, h₁) = >>=-eq-ok (context_track_uri typ t) _ h in
    let (vs, rest, h₂) = >>=-eq-ok (uris_of typ ts) _ h₁ in
    let is : (if is_listable u then u ∷ vs else vs) ≡ us = ok-injective h₂ in
    let step =
      ap
        (λ (r : Run Text). r >>= λ u.
          if not (is_listable u)
          then add_items typ n acc ts
          else if length (acc ++ u ∷ []) == n
          then ok (acc ++ u ∷ [], true)
          else add_items typ n (acc ++ u ∷ []) ts)
        named in
    step ∙ (elim (Bool-cases (is_listable u)) [
      | inr skip ↦
          let same : vs ≡ us = sym (if_false (is_listable u) _ _ skip) ∙ is in
          if_true (not (is_listable u)) _ _ (ap not skip)
          ∙ (add_items_lem typ n ts acc vs rest lt
              ∙ ap (λ x. ok (take n (acc ++ x), leb n (length (acc ++ x)))) same)
      | inl y ↦
          let same : u ∷ vs ≡ us = sym (if_true (is_listable u) _ _ y) ∙ is in
          let shift = append_assoc acc (u ∷ []) vs in
          if_false (not (is_listable u)) _ _ (ap not y)
          ∙ ((elim (Bool-cases (length (acc ++ u ∷ []) == n)) [
            | inl full ↦
                let size = (==_iff (length (acc ++ u ∷ [])) n).0 full in
                if_true (length (acc ++ u ∷ []) == n) _ _ full
                ∙ ap₂ (λ (a : List Text) (b : Bool). ok (a, b))
                    (sym (ap (take n) (sym shift) ∙ take-full n (acc ++ u ∷ []) vs size))
                    (sym (
                      le→leb _ _ (
                        omega
                          (arith, size, length-append acc (u ∷ []), length-append acc (u ∷ vs)))))
            | inr open_still ↦
                if_false (length (acc ++ u ∷ []) == n) _ _ open_still
                ∙ (add_items_lem typ n ts (acc ++ u ∷ []) vs rest (
                      below (length (acc ++ u ∷ [])) n open_still
                        (omega (arith, length-append acc (u ∷ []), lt)))
                    ∙ ap (λ x. ok (take n x, leb n (length x))) shift)
          ])
              ∙ ap (λ x. ok (take n (acc ++ x), leb n (length (acc ++ x)))) same)
    ])
  where
    below : (a n : ℕ) → (a == n) ≡ false → a ≤ n → a < n
    below a n e h = ground arith

-- The pages from a number on, up to the end of the list.
pub data PagesFrom (pages : ℕ → ListPage) : ℕ → List ContextTrack → ℕ → Type 0 where
  no_more : (page : ℕ) → pages page ≡ end_of_list → PagesFrom pages page [] 1
  one_more :
      (page : ℕ) (ts us : List ContextTrack) (n : ℕ)
      → pages page ≡ items ts
      → PagesFrom pages (page + 1) us n
      → PagesFrom pages page (ts ++ us) (suc n)

uris_of-append :
    (typ : Text) (ts us : List ContextTrack) (vs : List Text)
    → uris_of typ (ts ++ us) ≡ ok vs
    → (xs_ ys_ : List Text) × (uris_of typ ts ≡ ok xs_)
      × (uris_of typ us ≡ ok ys_)
      × (vs ≡ xs_ ++ ys_)
unfolding uris_of
uris_of-append typ [] us vs h = ([], vs, refl, h, refl)
uris_of-append typ (t ∷ ts) us vs h =
    let (u, named, h₁) = >>=-eq-ok (context_track_uri typ t) _ h in
    let (ws, rest, h₂) = >>=-eq-ok (uris_of typ (ts ++ us)) _ h₁ in
    let (a, b, ea, eb, e) = uris_of-append typ ts us ws rest in
    (
      if is_listable u then u ∷ a else a,
      b,
      ap
            (λ (r : Run Text).
              r >>= λ u. uris_of typ ts >>= λ us. ok (if is_listable u then u ∷ us else us))
            named
          ∙ ap (λ (r : Run (List Text)). r >>= λ us. ok (if is_listable u then u ∷ us else us)) ea,
      eb,
      sym (ok-injective h₂)
          ∙ (ap (λ x. if is_listable u then u ∷ x else x) e ∙ push (is_listable u) u a b),
    )
  where
    push :
        (c : Bool) (u : Text) (a b : List Text)
        → (if c then u ∷ a ++ b else a ++ b) ≡ (if c then u ∷ a else a) ++ b
    push true u a b = refl
    push false u a b = refl

take-enough : (n : ℕ) (xs ys : List Text) → n ≤ length xs → take n (xs ++ ys) ≡ take n xs
take-enough zero xs ys h = refl
take-enough (suc n) [] ys h = absurd (omega arith)
take-enough (suc n) (x ∷ xs) ys h = ap (◌∷◌ x) (take-enough n xs ys (omega arith))

enumerate_loop_lem :
    (pages : ℕ → ListPage) (typ : Text) (max_tracks : ℕ) {page : ℕ} {ts : List ContextTrack} {n : ℕ}
    → PagesFrom pages page ts n
    → (f : ℕ) (acc us : List Text) → n ≤ f
    → uris_of typ ts ≡ ok us
    → length acc < max_tracks
    → enumerate_loop pages typ max_tracks f page acc ≡ ok (listed (take max_tracks (acc ++ us)))
unfolding enumerate_loop uris_of
enumerate_loop_lem pages typ m (no_more page e) zero acc us le h lt = absurd (omega arith)
enumerate_loop_lem pages typ m (no_more page e) (suc f) acc us le h lt =
    let none_left : [] ≡ us = ok-injective h in
    ap
      (λ p. elim p as (λ _. Run Listed) [
        | end_of_list ↦ ok (listed acc)
        | page_failed x ↦ ok (failed_at page x)
        | items ts ↦ add_items typ m acc ts >>= λ (more, full).
            if full then ok (listed more) else enumerate_loop pages typ m f (page + 1) more
      ])
      e
    ∙ ap (λ x. ok (listed x))
        (sym (
          ap (λ x. take m (acc ++ x)) (sym none_left)
          ∙ (ap (take m) (append-nil acc) ∙ take-all m acc (omega arith))))
enumerate_loop_lem pages typ m (one_more page ts vs n e more) zero acc us le h lt =
    absurd (omega arith)
enumerate_loop_lem pages typ m (one_more page ts vs n e more) (suc f) acc us le h lt =
    let (a, b, ea, eb, split) = uris_of-append typ ts vs us h in
    let all : (acc ++ a) ++ b ≡ acc ++ us = append_assoc acc a b ∙ ap (λ x. acc ++ x) (sym split) in
    ap
      (λ p. elim p as (λ _. Run Listed) [
        | end_of_list ↦ ok (listed acc)
        | page_failed x ↦ ok (failed_at page x)
        | items ts ↦ add_items typ m acc ts >>= λ (more, full).
            if full then ok (listed more) else enumerate_loop pages typ m f (page + 1) more
      ])
      e
    ∙ (ap
          (λ (r : Run (List Text × Bool)). r >>= λ (more, full).
            if full then ok (listed more) else enumerate_loop pages typ m f (page + 1) more)
          (add_items_lem typ m ts acc a ea lt)
        ∙ (elim (Bool-cases (leb m (length (acc ++ a)))) [
          | inl full ↦
              if_true (leb m (length (acc ++ a))) _ _ full
              ∙ ap (λ x. ok (listed x))
                  (sym (take-enough m (acc ++ a) b (leb→le _ _ full)) ∙ ap (take m) all)
          | inr part ↦
              let short = leb-false→lt _ _ part in
              if_false (leb m (length (acc ++ a))) _ _ part
              ∙ (ap (λ x. enumerate_loop pages typ m f (page + 1) x)
                    (take-all m (acc ++ a) (omega arith))
                  ∙ (enumerate_loop_lem pages typ m more f (acc ++ a) b (omega arith) eb short
                      ∙ ap (λ x. ok (listed (take m x))) all))
        ]))

-- Let the resolver hand out pages and then the end of the list, all within the 256 pages that may be asked
-- for, and let each track of them that carries no uri have a gid that can be written as one. Then the
-- enumeration finds the uris of all tracks and episodes in the order of the pages, or the first
-- `max_tracks` of them if there are more. The limit is not 0.
pub enumerate_context_tracks-first :
    (pages : ℕ → ListPage) (typ : Text) (max_tracks n : ℕ) (ts : List ContextTrack) (us : List Text)
    → PagesFrom pages 0 ts n
    → n ≤ max_context_pages
    → uris_of typ ts ≡ ok us
    → 0 < max_tracks
    → enumerate_context_tracks pages typ max_tracks ≡ ok (listed (take max_tracks us))
unfolding enumerate_context_tracks
enumerate_context_tracks-first pages typ m n ts us p le h pos =
    enumerate_loop_lem pages typ m p max_context_pages [] us le h pos
