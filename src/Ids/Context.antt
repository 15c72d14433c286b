-- ===== src/Ids/Context.antt =====
-- ids.go: the type of the items that a context holds.
pub mod Kinds
use go_librespot_termux.Prelude.{
  ℕ, zero, suc, ◌+◌, ◌-◌, ◌≤◌, ◌<◌, ◌≡◌, ◌≢◌, ◌↔◌, ◌⊎◌, refl, ap, sym, ◌∙◌, subst, Bool, true,
  false, not, ◌&&◌, ◌||◌, Bool-cases, if_true, if_false, inl, inr, List, [], ◌∷◌, ◌++◌, Option,
  none, some, arith, ltb, leb, ◌==◌, if◌then◌else◌, length, get_elem?, drop, Text, codes, text_eq,
  text_eq_refl,
}
use go_librespot_termux.Ids.{type_track, type_episode, type_unknown, match_uri}

unfoldable pub join_first : ℕ → List Text → List Text
join_first c [] = (c ∷ []) ∷ []
join_first c (s ∷ ss) = (c ∷ s) ∷ ss

-- `strings.Split(uri, ":")`
unfoldable pub split_colon : Text → List Text
unfolding join_first
split_colon [] = [] ∷ []
split_colon (c ∷ s) = let rest = split_colon s in if c == b':' then [] ∷ rest else join_first c rest

-- An index that the caller has found in range.
unfoldable pub part : ℕ → List Text → Text
part n ps = elim (get_elem? ps n) [ none ↦ [] | some s ↦ s ]

unfoldable pub kind_of : List Text → Text
unfolding part
kind_of parts =
    if ltb (length parts) 3 || not (text_eq (part 0 parts) (codes "spotify"))
    then []
    else if text_eq (part 1 parts) (codes "user") && leb 4 (length parts)
    then part 3 parts
    else part 1 parts

unfoldable pub context_uri_type : Text → Text
unfolding split_colon kind_of
context_uri_type uri = kind_of (split_colon uri)

unfoldable pub one_of : Text → List Text → Bool
one_of s [] = false
one_of s (t ∷ ts) = text_eq s t || one_of s ts

unfoldable pub has_suffix : Text → Text → Bool
has_suffix s suffix =
    if ltb (length s) (length suffix)
    then false
    else text_eq (drop (length s - length suffix) s) suffix

abbrev pub episode_contexts : List Text
episode_contexts = codes "episode" ∷ codes "show" ∷ codes "chapter" ∷ codes "audiobook" ∷ []

abbrev pub track_contexts : List Text
track_contexts =
    codes "album"
    ∷ codes "artist"
    ∷ codes "playlist"
    ∷ codes "track"
    ∷ codes "station"
    ∷ codes "dailymix"
    ∷ codes "collection"
    ∷ codes "top"
    ∷ codes "trackset"
    ∷ codes "list"
    ∷ codes "local"
    ∷ codes "concept"
    ∷ codes "running"
    ∷ codes "genre"
    ∷ codes "radio"
    ∷ codes "folder"
    ∷ []

-- Every type that is named neither there nor here is unknown too.
unfoldable pub infer_type_from_context_uri : Text → Text
unfolding context_uri_type one_of has_suffix
infer_type_from_context_uri uri =
    let kind = context_uri_type uri in
    if one_of kind episode_contexts
    then type_episode
    else if one_of kind track_contexts
    then if has_suffix uri (codes ":collection:your-episodes") then type_episode else type_track
    else type_unknown

-- The type of the first item whose URI names a track or an episode.
unfoldable pub first_type : List Text → Option Text
first_type [] = none
first_type (u ∷ us) =
    let rest = first_type us in
    elim (match_uri u) [
      | none ↦ rest
      | some (t, i) ↦ if text_eq t type_track || text_eq t type_episode then some t else rest
    ]

unfoldable pub all_items : List (List Text) → List Text
all_items [] = []
all_items (p ∷ ps) = p ++ all_items ps

-- A context: its URI and, by page, the URIs of its items.
unfoldable pub infer_type_from_context : Text → List (List Text) → Text
unfolding infer_type_from_context_uri first_type all_items
infer_type_from_context uri pages =
    if ltb 0 (length uri)
    then infer_type_from_context_uri uri
    else elim (first_type (all_items pages)) [
      | some t ↦ t
      | none ↦ if ltb 0 (length (all_items pages)) then type_track else type_unknown
    ]
