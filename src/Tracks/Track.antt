-- ===== src/Tracks/Track.antt =====
-- tracks/utils.go and `ContextTrackToProvidedTrack` of ids.go: tracks of a context, the form that is
-- published, and the comparators.
-- A track is a value here: that two lists may share the object behind a pointer is not modelled.
use go_librespot_termux.Prelude.{
  ℕ, Bool, true, false, ◌&&◌, List, [], ◌∷◌, Option, none, some, ltb, if◌then◌else◌, length, Text,
  codes, text_eq, Run, ok, panic, ◌>>=◌,
}
use go_librespot_termux.Ids.{from_gid}
use go_librespot_termux.Ids

-- A Go map from strings to strings: nil, or its entries.
abbrev pub Metadata : Type 0
Metadata = Option (List (Text × Text))

unfoldable pub entries_get : Text → List (Text × Text) → Text
entries_get k [] = []
entries_get k ((j, v) ∷ m) = if text_eq j k then v else entries_get k m

unfoldable pub entries_set : Text → Text → List (Text × Text) → List (Text × Text)
entries_set k v [] = (k, v) ∷ []
entries_set k v ((j, w) ∷ m) = if text_eq j k then (k, v) ∷ m else (j, w) ∷ entries_set k v m

unfoldable pub entries_delete : Text → List (Text × Text) → List (Text × Text)
entries_delete k [] = []
entries_delete k ((j, w) ∷ m) =
    let rest = entries_delete k m in if text_eq j k then rest else (j, w) ∷ rest

-- Reading a missing key, or from a nil map, gives the empty string.
unfoldable pub meta_get : Text → Metadata → Text
unfolding entries_get
meta_get k none = []
meta_get k (some m) = entries_get k m

-- Writing to a nil map panics; deleting from one does nothing.
unfoldable pub meta_set : Text → Text → Metadata → Run Metadata
unfolding entries_set
meta_set k v none = panic
meta_set k v (some m) = ok (some (entries_set k v m))

unfoldable pub meta_delete : Text → Metadata → Metadata
unfolding entries_delete
meta_delete k none = none
meta_delete k (some m) = some (entries_delete k m)

pub record ContextTrack : Type 0 where
  pub uri : Text
  pub uid : Text
  pub gid : List ℕ
  pub metadata : Metadata

pub record ProvidedTrack : Type 0 where
  pub uri : Text
  pub uid : Text
  pub metadata : Metadata
  pub artist_uri : Text
  pub album_uri : Text
  pub provider : Text

-- `SpotifyIdFromGid(typ, gid).Uri()`
unfoldable pub gid_uri : Text → List ℕ → Run Text
gid_uri typ gid = from_gid typ gid >>= Ids.uri

unfoldable pub provider_of : Metadata → Text
unfolding meta_get
provider_of m =
    if text_eq (meta_get (codes "is_queued") m) (codes "true")
    then codes "queue"
    else if text_eq (meta_get (codes "autoplay.is_autoplay") m) (codes "true")
    then codes "autoplay"
    else codes "context"

unfoldable pub track_uri : Text → ContextTrack → Run Text
unfolding gid_uri
track_uri typ t =
    if ltb 0 (length t.uri)
    then ok t.uri
    else if ltb 0 (length t.gid)
    then gid_uri typ t.gid
    else panic

unfoldable pub context_track_to_provided_track : Text → ContextTrack → Run ProvidedTrack
context_track_to_provided_track typ t = do
  u ← track_uri typ t
  ok (record {
    uri = u;
    uid = t.uid;
    metadata = t.metadata;
    artist_uri = meta_get (codes "artist_uri") t.metadata;
    album_uri = meta_get (codes "album_uri") t.metadata;
    provider = provider_of t.metadata;
  })

-- The closure that both comparators return, for the uid and URI that are looked for.
unfoldable pub compares : Text → Text → Text → ContextTrack → Run Bool
unfolding gid_uri
compares typ uid target track =
    if ltb 0 (length track.uid) && text_eq track.uid uid
    then ok true
    else if ltb 0 (length track.uri) && text_eq track.uri target
    then ok true
    else if ltb 0 (length track.gid)
    then (do u ← gid_uri typ track.gid; ok (text_eq u target))
    else ok false

-- Making the comparator computes the URI that it looks for.
unfoldable pub context_target : Text → ContextTrack → Run Text
unfolding gid_uri
context_target typ target =
    if ltb 0 (length target.uri)
    then ok target.uri
    else if ltb 0 (length target.gid)
    then gid_uri typ target.gid
    else ok []

unfoldable pub context_track_comparator : Text → ContextTrack → Run (ContextTrack → Run Bool)
context_track_comparator typ target = do
  u ← context_target typ target
  ok (compares typ target.uid u)

unfoldable pub provided_track_comparator : Text → ProvidedTrack → ContextTrack → Run Bool
provided_track_comparator typ target = compares typ target.uid target.uri
