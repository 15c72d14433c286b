-- ===== src/Resolver/Create.antt =====
-- spclient/context_resolver.go: the resolver that `NewContextResolver` makes.
use go_librespot_termux.Prelude.{
  ℕ, suc, ◌≡◌, refl, ap, ap₂, sym, ◌∙◌, subst, true, false, ◌||◌, List, [], ◌∷◌, map, Option, none,
  some, ltb, Bool-cases, inl, inr, if_true, if_false, if◌then◌else◌, length, Text, codes, text_eq,
  ok, ◌>>=◌, >>=-eq-ok, ok-injective,
}
use go_librespot_termux.Ids.{type_unknown}
use go_librespot_termux.Ids.Context.{infer_type_from_context}
use go_librespot_termux.Tracks.Track.{Metadata, ContextTrack, meta_get, meta_set}
use go_librespot_termux.Tracks.TrackList.Queue.{entries_get-entries_set}
use go_librespot_termux.Resolver.{
  ContextPage, Context, Backend, ContextResolver, has_prefix, any_resolvable, has_resolvable_pages,
  is_item_uri,
}
use go_librespot_termux.Resolver.New.{
  Resolved, resolver, needs_resolving, mark_track, mark_tracks, mark_pages, item_page,
  finish_resolving, with_item, resolved_with, new_context_resolver, copy_entries, entries_of,
}

abbrev IsMarked : ContextTrack → Type 0
IsMarked t = meta_get (codes "autoplay.is_autoplay") t.metadata ≡ codes "true"

abbrev pub AllMarked : List ContextTrack → Type 0
AllMarked [] = Unit {0}
AllMarked (t ∷ ts) = IsMarked t × AllMarked ts

abbrev pub AllPagesMarked : List ContextPage → Type 0
AllPagesMarked [] = Unit {0}
AllPagesMarked (p ∷ ps) = AllMarked p.tracks × AllPagesMarked ps

mark_track-IsMarked : (t u : ContextTrack) → mark_track t ≡ ok u → IsMarked u
unfolding mark_track meta_set meta_get
mark_track-IsMarked t u h = go t.metadata h
  where
    go :
        (m : Metadata)
        → (meta_set (codes "autoplay.is_autoplay") (codes "true") m >>= λ m'.
            ok (record t { metadata = m' }))
          ≡ ok u
        → IsMarked u
    go none h = absurd (cc)
    go (some m) h =
        subst IsMarked (ok-injective h)
          (entries_get-entries_set (codes "autoplay.is_autoplay") (codes "true") m)

mark_tracks-AllMarked :
    (ts us : List ContextTrack) → mark_tracks ts ≡ ok us → AllMarked us × (length us ≡ length ts)
unfolding mark_tracks
mark_tracks-AllMarked [] us h =
    subst (λ x. AllMarked x × (length x ≡ 0)) (ok-injective h) (tt, refl)
mark_tracks-AllMarked (t ∷ ts) us h =
    let (u, one, h₁) = >>=-eq-ok (mark_track t) _ h in
    let (vs, rest, h₂) = >>=-eq-ok (mark_tracks ts) _ h₁ in
    let (all, size) = mark_tracks-AllMarked ts vs rest in
    subst (λ x. AllMarked x × (length x ≡ suc (length ts))) (ok-injective h₂)
      ((mark_track-IsMarked t u one, all), ap suc size)

mark_pages-AllPagesMarked :
    (ps qs : List ContextPage)
    → mark_pages ps ≡ ok qs
    → AllPagesMarked qs × (any_resolvable qs ≡ any_resolvable ps)
unfolding mark_pages any_resolvable
mark_pages-AllPagesMarked [] qs h =
    subst (λ x. AllPagesMarked x × (any_resolvable x ≡ false)) (ok-injective h) (tt, refl)
mark_pages-AllPagesMarked (p ∷ ps) qs h =
    let (ts, one, h₁) = >>=-eq-ok (mark_tracks p.tracks) _ h in
    let (rs, rest, h₂) = >>=-eq-ok (mark_pages ps) _ h₁ in
    let (marked, size) = mark_tracks-AllMarked p.tracks ts one in
    let (all, same) = mark_pages-AllPagesMarked ps rs rest in
    subst (λ x. AllPagesMarked x × (any_resolvable x ≡ any_resolvable (p ∷ ps))) (ok-injective h₂)
      (
        (marked, all),
        ap₂ (λ n b. ltb 0 n || ltb 0 (length p.page_url) || ltb 0 (length p.next_page_url) || b)
            size same,
      )

-- What a resolver that was made promises.
pub record IsUsable (r : ContextResolver) : Type 0 where
  pub resolvable : has_resolvable_pages r.ctx ≡ true
  pub station : has_prefix r.ctx.uri (codes "spotify:station:") ≡ true → AllPagesMarked r.ctx.pages

abbrev IsTyped : Text → Resolved → Type 0
IsTyped typ x = (r : ContextResolver) → x ≡ resolver r → IsUsable r × (r.typ ≡ typ)

finish_resolving-IsTyped :
    (typ : Text) (calls : ℕ) (c : Context) (x : Resolved)
    → any_resolvable c.pages ≡ true
    → finish_resolving typ calls c ≡ ok x
    → IsTyped typ x
unfolding finish_resolving has_resolvable_pages
finish_resolving-IsTyped typ calls c x h run r e =
    elim (Bool-cases (has_prefix c.uri (codes "spotify:station:"))) [
      | inl y ↦
          let (ps, marked, end) =
            >>=-eq-ok
              (if has_prefix c.uri (codes "spotify:station:")
                then mark_pages c.pages
                else ok c.pages)
              _ run in
          let (all, same) =
            mark_pages-AllPagesMarked c.pages ps
              (sym (if_true (has_prefix c.uri (codes "spotify:station:")) _ _ y) ∙ marked) in
          let is : record { typ = typ; ctx = record c { pages = ps }; calls = calls } ≡ r =
            resolver_injective (ok-injective end ∙ e) in
          subst (λ (z : ContextResolver). IsUsable z × (z.typ ≡ typ)) is
            (record { resolvable = same ∙ h; station = λ _. all }, refl)
      | inr n ↦
          let (ps, marked, end) =
            >>=-eq-ok
              (if has_prefix c.uri (codes "spotify:station:")
                then mark_pages c.pages
                else ok c.pages)
              _ run in
          let kept : c.pages ≡ ps =
            ok-injective
              (sym (if_false (has_prefix c.uri (codes "spotify:station:")) _ _ n) ∙ marked) in
          let is : record { typ = typ; ctx = record c { pages = ps }; calls = calls } ≡ r =
            resolver_injective (ok-injective end ∙ e) in
          subst (λ (z : ContextResolver). IsUsable z × (z.typ ≡ typ)) is
            (
              record {
                resolvable = ap any_resolvable (sym kept) ∙ h;
                station = λ y. absurd (cc (sym n ∙ y));
              },
              refl,
            )
    ]
  where
    resolver_injective : {a b : ContextResolver} → resolver a ≡ resolver b → a ≡ b
    resolver_injective h = cc

with_item-IsTyped :
    (typ : Text) (calls : ℕ) (c : Context) (x : Resolved)
    → with_item typ calls c ≡ ok x
    → IsTyped typ x
unfolding with_item has_resolvable_pages
with_item-IsTyped typ calls c x run = elim (Bool-cases (any_resolvable c.pages)) [
  | inl y ↦
      finish_resolving-IsTyped typ calls c x y (sym (if_true (any_resolvable c.pages) _ _ y) ∙ run)
  | inr n ↦
      let run₁ = sym (if_false (any_resolvable c.pages) _ _ n) ∙ run in
      elim (Bool-cases (is_item_uri c.uri)) [
        | inl y ↦
            finish_resolving-IsTyped typ calls (record c { pages = item_page c.uri ∷ [] }) x
              (one_item c.uri) (sym (if_true (is_item_uri c.uri) _ _ y) ∙ run₁)
        | inr k ↦
            λ r e. absurd (cc (ok-injective (sym (if_false (is_item_uri c.uri) _ _ k) ∙ run₁) ∙ e))
      ]
]
  where
    one_item : (uri : Text) → any_resolvable (item_page uri ∷ []) ≡ true
    one_item uri = refl

resolved_with-IsTyped :
    (typ : Text) (c : Context) (o : Option Context) (x : Resolved)
    → resolved_with typ c o ≡ ok x
    → IsTyped typ x
unfolding resolved_with
resolved_with-IsTyped typ c none x run = λ r e. absurd (cc (ok-injective run ∙ e))
resolved_with-IsTyped typ c (some new) x run = elim (Bool-cases new.loading) [
  | inl y ↦ λ r e. absurd (cc (ok-injective (sym (if_true new.loading _ _ y) ∙ run) ∙ e))
  | inr n ↦
      with_item-IsTyped typ 1
        (record new {
          metadata = some (copy_entries (entries_of new.metadata) (entries_of c.metadata));
        })
        x (sym (if_false new.loading _ _ n) ∙ run)
]

-- A resolver that `NewContextResolver` makes can yield tracks: a page of its context holds some, or names
-- where they are. Its type is that inferred from the given context, and a known one. If its context is a
-- station, then all tracks of its pages are marked as autoplay.
pub new_context_resolver-IsUsable :
    (B : Backend) (c : Context) (r : ContextResolver)
    → new_context_resolver B c ≡ ok (resolver r)
    → IsUsable r
      × (r.typ
          ≡ infer_type_from_context c.uri
              (map (λ (p : ContextPage). map (λ (t : ContextTrack). t.uri) p.tracks) c.pages))
      × (text_eq r.typ type_unknown ≡ false)
unfolding new_context_resolver
new_context_resolver-IsUsable B c r run =
    let typ =
      infer_type_from_context c.uri
        (map (λ (p : ContextPage). map (λ (t : ContextTrack). t.uri) p.tracks) c.pages) in
    let asked =
      if has_prefix c.url (codes "hm://")
      then B.context_resolve_url 0 c.url
      else B.context_resolve 0 c.uri in
    elim (Bool-cases (text_eq typ type_unknown)) [
      | inl y ↦ absurd (cc (ok-injective (sym (if_true (text_eq typ type_unknown) _ _ y) ∙ run)))
      | inr n ↦
          let run₁ = sym (if_false (text_eq typ type_unknown) _ _ n) ∙ run in
          let (u, t) : IsUsable r × (r.typ ≡ typ) = elim (Bool-cases (needs_resolving c)) [
            | inl y ↦
                resolved_with-IsTyped typ c asked (resolver r)
                  (sym (if_true (needs_resolving c) _ _ y) ∙ run₁) r refl
            | inr k ↦
                with_item-IsTyped typ 0 c (resolver r)
                  (sym (if_false (needs_resolving c) _ _ k) ∙ run₁) r refl
          ] in
          (u, t, ap (λ x. text_eq x type_unknown) t ∙ n)
    ]
