-- ===== src/Ids/Uri.antt =====
-- ids.go: URIs, `UriRegexp` and `SpotifyIdFromUri`.
use go_librespot_termux.Prelude.{
  ℕ, ◌^◌, ◌<◌, ◌≡◌, refl, ◌∙◌, true, [], ◌∷◌, ◌++◌, some, arith, length, Text, codes, ok, panic,
  ltb, if◌then◌else◌,
}
use go_librespot_termux.Ids.{
  SpotifyId, to_bytes, set_string62, id_ok, uri, is_lower, all_alnum, strip, lower_until_colon,
  match_uri, from_uri,
}
use go_librespot_termux.Ids.Base62.{
  IsBytes, from_base62-gid_to_base62, from_base62-some, set_string62-eq-parse62, parse62-all_alnum,
}

-- A type as the regular expression wants it: lower-case letters only.
abbrev pub IsLower : Text → Type 0
IsLower [] = Unit {0}
IsLower (c ∷ s) = (is_lower c ≡ true) × IsLower s

strip-append : (p s : Text) → strip p (p ++ s) ≡ some s
unfolding strip
strip-append [] s = refl
strip-append (c ∷ p) s = ground (arith, strip-append p s)

lower_until_colon-append :
    (t s : Text) → IsLower t → lower_until_colon (t ++ (b':' ∷ s)) ≡ some (t, s)
unfolding lower_until_colon
lower_until_colon-append [] s h = refl
lower_until_colon-append (c ∷ t) s h = ground (arith, lower_until_colon-append t s h.1)

-- The expression matches a URI built from a type of letters and 22 letters and digits.
match_uri-build :
    (t i : Text)
    → IsLower t
    → 0 < length t
    → all_alnum i ≡ true
    → length i ≡ 22
    → match_uri (codes "spotify:" ++ t ++ (b':' ∷ i)) ≡ some (t, i)
unfolding match_uri
match_uri-build t i h k a e = rw (lower_until_colon-append t i h, match_uri) (ground arith)

-- An id whose gid has 16 bytes and whose type is a word of lower-case letters, and not the empty type
-- of an unknown id, prints as a URI that parses to the same id.
pub from_uri-uri :
    (i : SpotifyId)
    → IsBytes i.id
    → length i.id ≡ 16
    → IsLower i.typ
    → 0 < length i.typ
    → (s : Text) × (uri i ≡ ok s) × (from_uri s ≡ ok (id_ok i))
unfolding uri from_uri
from_uri-uri i b e l n =
    let (s, printed, size, alnum, back) = from_base62-gid_to_base62 i.typ i.id b e in
    (
      codes "spotify:" ++ i.typ ++ (b':' ∷ s),
      rw printed,
      rw (match_uri-build i.typ s l n alnum size, from_uri) back,
    )

match_uri-all_alnum :
    (s t i : Text) → match_uri s ≡ some (t, i) → (all_alnum i ≡ true) × (0 < length i)
unfolding match_uri
match_uri-all_alnum s t i h = ground arith

-- On a text that the expression matches, with type `t` and id `i`, the id is a number `n` in base 62.
-- `from_uri` returns the type with the 16 bytes of `n` if `n` is below `2 ^ 128`, and panics if not:
-- it never reports an error there.
from_uri-matched :
    (s t i : Text)
    → match_uri s ≡ some (t, i)
    → (n : ℕ) × (set_string62 i ≡ some n)
      × (from_uri s ≡ (
          if ltb n (2 ^ 128)
          then ok (id_ok (record { typ = t; id = to_bytes 16 n [] }))
          else panic))
unfolding from_uri
from_uri-matched s t i h =
    let (alnum, pos) = match_uri-all_alnum s t i h in
    let (n, value) = parse62-all_alnum 0 i alnum in
    let e = set_string62-eq-parse62 i alnum pos ∙ value in
    (n, e, rw (h, from_uri) (from_base62-some t i n e))
