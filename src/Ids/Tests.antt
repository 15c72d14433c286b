-- ===== src/Ids/Tests.antt =====
-- Runs of the id functions, and the theorems at concrete ids.
use go_librespot_termux.Prelude.{
  ℕ, ◌≡◌, refl, List, [], ◌∷◌, true, arith, length, Text, codes, ok, panic,
}
use go_librespot_termux.Ids.{
  SpotifyId, digit_char, of_bytes, to_bytes, text62, repeat_zero, parse62, unsigned62,
  gid_to_base62, set_string62, from_base62, id_ok, id_err, bad_uri, uri, is_lower, all_alnum, strip,
  lower_until_colon, match_uri, from_uri, type_track,
}
use go_librespot_termux.Ids.Base62.{from_base62-gid_to_base62}
use go_librespot_termux.Ids.Uri.{from_uri-uri}
use go_librespot_termux.Prelude.{text_eq}
use go_librespot_termux.Ids.{type_episode}
use go_librespot_termux.Ids.Context.{
  join_first, split_colon, part, kind_of, context_uri_type, one_of, has_suffix,
  infer_type_from_context_uri,
}

contexts : Unit {0}
unfolding text_eq join_first split_colon part kind_of context_uri_type one_of has_suffix
    infer_type_from_context_uri
contexts = tt

program : Unit {0}
unfolding digit_char of_bytes to_bytes text62 repeat_zero parse62 unsigned62 gid_to_base62
    set_string62 from_base62 uri is_lower all_alnum strip lower_until_colon match_uri from_uri
program = tt

abbrev gid : List ℕ
gid = 1 ∷ 2 ∷ 3 ∷ 4 ∷ 5 ∷ 6 ∷ 7 ∷ 8 ∷ 9 ∷ 10 ∷ 11 ∷ 12 ∷ 13 ∷ 14 ∷ 15 ∷ 16 ∷ []

abbrev sample : SpotifyId
sample = record { typ = type_track; id = gid }

zero_gid : gid_to_base62 (0 ∷ 0 ∷ []) ≡ ok (codes "0000000000000000000000")
unfolding program
zero_gid = refl

printed : gid_to_base62 gid ≡ ok (codes "01TUwCKr0qGUD2dQQItYSQ")
unfolding program
printed = refl

not_matched : from_uri (codes "spotify:Track:0") ≡ ok (id_err (bad_uri (codes "spotify:Track:0")))
unfolding program
not_matched = refl

-- A well-formed URI whose id does not fit 16 bytes.
too_large : from_uri (codes "spotify:track:ZZZZZZZZZZZZZZZZZZZZZZ") ≡ panic
unfolding program
too_large = refl

from_base62-gid_to_base62_example :
    (s : Text) × (gid_to_base62 gid ≡ ok s)
    × (length s ≡ 22)
    × (all_alnum s ≡ true)
    × (from_base62 type_track s ≡ ok (id_ok sample))
from_base62-gid_to_base62_example = from_base62-gid_to_base62 type_track gid (omega arith) refl

from_uri-uri_example : (s : Text) × (uri sample ≡ ok s) × (from_uri s ≡ ok (id_ok sample))
unfolding is_lower
from_uri-uri_example = from_uri-uri sample (omega arith) refl (ground arith) (omega arith)

liked :
    infer_type_from_context_uri (codes "spotify:user:me:collection:your-episodes") ≡ type_episode
unfolding contexts
liked = refl

album : infer_type_from_context_uri (codes "spotify:album:x") ≡ type_track
unfolding contexts
album = refl
