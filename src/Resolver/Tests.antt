-- ===== src/Resolver/Tests.antt =====
-- Runs of the context resolver, and the theorems about it at concrete contexts.
use go_librespot_termux.Prelude.{
  ◌≡◌, refl, false, [], ◌∷◌, map, none, some, if◌then◌else◌, Text, codes, text_eq, ok, panic,
}
use go_librespot_termux.Ids.{type_unknown, type_track, strip}
use go_librespot_termux.Ids.Context.{
  infer_type_from_context, infer_type_from_context_uri, context_uri_type, one_of, has_suffix,
  split_colon, join_first, kind_of, part,
}
use go_librespot_termux.Tracks.Track.{ContextTrack, entries_set, meta_set}
use go_librespot_termux.Resolver.{
  ContextPage, Context, Backend, answer, eof, ContextResolver, tracks_of, page_err, has_prefix,
  digits, unsigned, atoi, entry, expected_number_of_tracks, pages_complete, is_tracks_complete,
  any_resolvable, has_resolvable_pages, is_item_uri, hm_page, playlist_loaded, load_page, last_page,
  fetch_loop, read_page, page_at,
}
use go_librespot_termux.Resolver.New.{
  resolver, copy_entries, needs_resolving, mark_track, mark_tracks, mark_pages, item_page,
  finish_resolving, with_item, resolved_with, new_context_resolver,
}
use go_librespot_termux.Resolver.Pages.{Pages}
use go_librespot_termux.Resolver.Create.{IsUsable, new_context_resolver-IsUsable}

program : Unit {0}
unfolding has_prefix digits unsigned atoi entry expected_number_of_tracks pages_complete
    is_tracks_complete any_resolvable has_resolvable_pages is_item_uri hm_page playlist_loaded
    load_page last_page fetch_loop read_page page_at copy_entries needs_resolving mark_track
    mark_tracks mark_pages item_page finish_resolving with_item resolved_with new_context_resolver
    infer_type_from_context infer_type_from_context_uri context_uri_type one_of has_suffix
    split_colon join_first kind_of part strip entries_set meta_set text_eq
program = tt

abbrev a_track : Text → ContextTrack
a_track u = record { uri = u; uid = []; gid = []; metadata = some [] }

abbrev first_page : ContextPage
first_page = record {
  tracks = a_track (codes "spotify:track:a") ∷ [];
  page_url = [];
  next_page_url = codes "hm://next";
}

abbrev second_page : ContextPage
second_page = record {
  tracks = a_track (codes "spotify:track:b") ∷ [];
  page_url = codes "hm://next";
  next_page_url = [];
}

abbrev backend : Backend
backend = record {
  context_resolve = λ n u. none;
  context_resolve_url = λ n u. none;
  playlist_page = λ n u. none;
  request_hm = λ n u.
      if text_eq u (codes "hm://next") then answer 200 (some second_page) else answer 404 none;
}

abbrev album : Context
album = record {
  uri = codes "spotify:album:x";
  url = [];
  loading = false;
  metadata = none;
  pages = first_page ∷ [];
}

abbrev made : ContextResolver
made = record { typ = type_track; ctx = album; calls = 0 }

makes : new_context_resolver backend album ≡ ok (resolver made)
unfolding program
makes = refl

second :
    page_at backend 1 made
    ≡ ok (
      record made { ctx = record album { pages = first_page ∷ second_page ∷ [] }; calls = 1 },
      tracks_of second_page.tracks,
    )
unfolding program
second = refl

past_end :
    page_at backend 2 made
    ≡ ok (
      record made { ctx = record album { pages = first_page ∷ second_page ∷ [] }; calls = 1 },
      page_err eof,
    )
unfolding program
past_end = refl

-- A station with a track that has no metadata.
nil_metadata :
    new_context_resolver backend (record album {
      uri = codes "spotify:station:x";
      pages =
          record first_page {
            tracks = record (a_track (codes "spotify:track:a")) { metadata = none } ∷ [];
          }
          ∷ [];
    })
    ≡ panic
unfolding program
nil_metadata = refl

new_context_resolver-IsUsable_example :
    IsUsable made
    × (made.typ
        ≡ infer_type_from_context album.uri
            (map (λ (p : ContextPage). map (λ (t : ContextTrack). t.uri) p.tracks) album.pages))
    × (text_eq made.typ type_unknown ≡ false)
new_context_resolver-IsUsable_example = new_context_resolver-IsUsable backend album made makes
