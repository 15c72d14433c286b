-- ===== src/Resolver/Pages.antt =====
-- spclient/context_resolver.go: what `Page` does to the pages that are loaded.
use go_librespot_termux.Prelude.{
  ℕ, ◌<◌, ◌≡◌, ◌≢◌, List, ◌++◌, Option, none, some, length, get_elem?, Run, ok,
}
use go_librespot_termux.Tracks.Track.{ContextTrack}
use go_librespot_termux.Resolver.{
  ContextPage, Backend, PageError, ContextResolver, PageResult, tracks_of, with_pages, page_at,
}

module _ (B : Backend) where
  -- The loop only adds pages at the end, and ends with the page of the index or an error.
  record Appends (idx : ℕ) (r q : ContextResolver) (e : Option PageError) : Type 0 where
    new : List ContextPage
    calls : ℕ
    shape : q ≡ with_pages (r.ctx.pages ++ new) calls r
    found : e ≡ none → idx < length q.ctx.pages

  abbrev Ends : ℕ → ContextResolver → Run (ContextResolver × Option PageError) → Type 0
  Ends idx r run =
      (q : ContextResolver) × (e : Option PageError) × (run ≡ ok (q, e)) × Appends idx r q e

  -- What a call of `Page` does.
  pub record Pages (idx : ℕ) (r q : ContextResolver) (res : PageResult) : Type 0 where
    pub kept :
        (i : ℕ)
        → i < length r.ctx.pages
        → i ≢ idx
        → get_elem? q.ctx.pages i ≡ get_elem? r.ctx.pages i
    pub handed :
        (ts : List ContextTrack)
        → res ≡ tracks_of ts
        → (p : ContextPage) × (get_elem? q.ctx.pages idx ≡ some p) × (p.tracks ≡ ts)
    pub again :
        (ts : List ContextTrack)
        → res ≡ tracks_of ts
        → 0 < length ts
        → page_at B idx q ≡ ok (q, tracks_of ts)
    pub same_typ : q.typ ≡ r.typ
