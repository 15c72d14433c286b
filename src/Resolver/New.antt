-- ===== src/Resolver/New.antt =====
-- spclient/context_resolver.go: `NewContextResolver`.
use go_librespot_termux.Prelude.{
  ℕ, Bool, not, ◌||◌, List, [], ◌∷◌, map, Option, none, some, ◌==◌, if◌then◌else◌, length, Text,
  codes, text_eq, Run, ok, ◌>>=◌,
}
use go_librespot_termux.Ids.{type_unknown}
use go_librespot_termux.Ids.Context.{infer_type_from_context}
use go_librespot_termux.Tracks.Track.{Metadata, ContextTrack, entries_set, meta_set}
use go_librespot_termux.Resolver.{
  ContextPage, Context, has_prefix, is_tracks_complete, has_resolvable_pages, is_item_uri, Backend,
  ContextResolver,
}

pub data ResolveError : Type 0 where
  unsupported_type failed_resolving still_loading no_tracks : ResolveError

pub data Resolved : Type 0 where
  resolver : ContextResolver → Resolved
  resolve_err : ResolveError → Resolved

-- `maps.Copy` into a map.
unfoldable pub copy_entries : List (Text × Text) → List (Text × Text) → List (Text × Text)
copy_entries m [] = m
copy_entries m ((k, v) ∷ ms) = copy_entries (entries_set k v m) ms

abbrev pub entries_of : Metadata → List (Text × Text)
entries_of none = []
entries_of (some m) = m

unfoldable pub needs_resolving : Context → Bool
needs_resolving c =
    length c.pages == 0 || not (has_resolvable_pages c) || not (is_tracks_complete c)

unfoldable pub mark_track : ContextTrack → Run ContextTrack
mark_track t = do
  m ← meta_set (codes "autoplay.is_autoplay") (codes "true") t.metadata
  ok (record t { metadata = m })

unfoldable pub mark_tracks : List ContextTrack → Run (List ContextTrack)
unfolding mark_track
mark_tracks [] = ok []
mark_tracks (t ∷ ts) = do u ← mark_track t; us ← mark_tracks ts; ok (u ∷ us)

unfoldable pub mark_pages : List ContextPage → Run (List ContextPage)
unfolding mark_tracks
mark_pages [] = ok []
mark_pages (p ∷ ps) = do
  ts ← mark_tracks p.tracks
  qs ← mark_pages ps
  ok (record p { tracks = ts } ∷ qs)

-- The single track of a context that is one item.
unfoldable pub item_page : Text → ContextPage
item_page uri = record {
  tracks = record { uri = uri; uid = []; gid = []; metadata = some [] } ∷ [];
  page_url = [];
  next_page_url = [];
}

unfoldable pub finish_resolving : Text → ℕ → Context → Run Resolved
unfolding mark_pages
finish_resolving typ calls c =
    (if has_prefix c.uri (codes "spotify:station:") then mark_pages c.pages else ok c.pages)
    >>= λ ps. ok (resolver (record { typ = typ; ctx = record c { pages = ps }; calls = calls }))

unfoldable pub with_item : Text → ℕ → Context → Run Resolved
unfolding finish_resolving item_page
with_item typ calls c =
    if has_resolvable_pages c
    then finish_resolving typ calls c
    else if is_item_uri c.uri
    then finish_resolving typ calls (record c { pages = item_page c.uri ∷ [] })
    else ok (resolve_err no_tracks)

unfoldable pub resolved_with : Text → Context → Option Context → Run Resolved
unfolding with_item copy_entries
resolved_with typ c none = ok (resolve_err failed_resolving)
resolved_with typ c (some new) =
    if new.loading
    then ok (resolve_err still_loading)
    else with_item typ 1 (record new {
      metadata = some (copy_entries (entries_of new.metadata) (entries_of c.metadata));
    })

-- `NewContextResolver`
unfoldable pub new_context_resolver : Backend → Context → Run Resolved
unfolding resolved_with needs_resolving
new_context_resolver B c =
    let typ =
      infer_type_from_context c.uri
        (map (λ (p : ContextPage). map (λ (t : ContextTrack). t.uri) p.tracks) c.pages) in
    let asked =
      if has_prefix c.url (codes "hm://")
      then B.context_resolve_url 0 c.url
      else B.context_resolve 0 c.uri in
    if text_eq typ type_unknown
    then ok (resolve_err unsupported_type)
    else if needs_resolving c
    then resolved_with typ c asked
    else with_item typ 0 c
