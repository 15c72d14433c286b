-- ===== src/Ids.antt =====
-- ids.go: Spotify ids and their base 62 and URI forms.
pub mod Base62
pub mod Context
pub mod Uri
mod Tests
use go_librespot_termux.Prelude.{
  ℕ, zero, suc, ◌+◌, ◌-◌, ◌*◌, ◌/◌, ◌%◌, ◌^◌, Bool, true, false, ◌&&◌, ◌||◌, List, [], ◌∷◌, ◌++◌,
  Option, none, some, ltb, leb, ◌==◌, if◌then◌else◌, length, Text, codes, text_eq, Run, ok, panic,
  ◌>>=◌,
}

-- The type of an id is any text; the constants of the source are some of them.
pub record SpotifyId : Type 0 where
  pub typ : Text
  pub id : List ℕ

abbrev pub type_track : Text
type_track = codes "track"

abbrev pub type_episode : Text
type_episode = codes "episode"

abbrev pub type_unknown : Text
type_unknown = []

-- The digits of `big.Int` in base 62: 0-9, a-z, A-Z.
unfoldable pub digit_char : ℕ → ℕ
digit_char d = if ltb d 10 then d + b'0' else if ltb d 36 then d - 10 + b'a' else d - 36 + b'A'

unfoldable pub char_digit : ℕ → Option ℕ
char_digit c =
    if leb b'0' c && leb c b'9'
    then some (c - b'0')
    else if leb b'a' c && leb c b'z'
    then some (c - b'a' + 10)
    else if leb b'A' c && leb c b'Z'
    then some (c - b'A' + 36)
    else none

-- `big.Int.SetBytes`: big-endian.
unfoldable pub of_bytes : ℕ → List ℕ → ℕ
of_bytes acc [] = acc
of_bytes acc (b ∷ bs) = of_bytes (acc * 256 + b) bs

-- `big.Int.FillBytes` on `k` bytes, big-endian; the value's own bytes above those are dropped here
-- and make the caller panic.
unfoldable pub to_bytes : ℕ → ℕ → List ℕ → List ℕ
to_bytes zero n rest = rest
to_bytes (suc k) n rest = to_bytes k (n / 256) (n % 256 ∷ rest)

unfoldable pub digits62 : ℕ → ℕ → Text → Text
digits62 zero n rest = rest
digits62 (suc f) n rest =
    let more = digits62 f (n / 62) (digit_char (n % 62) ∷ rest) in if n == 0 then rest else more

-- `big.Int.Text(62)`
unfoldable pub text62 : ℕ → Text
unfolding digits62 digit_char
text62 n = if n == 0 then b'0' ∷ [] else digits62 n n []

unfoldable pub repeat_zero : ℕ → Text
repeat_zero zero = []
repeat_zero (suc k) = b'0' ∷ repeat_zero k

-- `strings.Repeat` panics on a negative count.
unfoldable pub gid_to_base62 : List ℕ → Run Text
gid_to_base62 id =
    let s = text62 (of_bytes 0 id) in
    if ltb 22 (length s) then panic else ok (repeat_zero (22 - length s) ++ s)

-- The value of the digits, or none at a character that is no digit.
unfoldable pub parse62 : ℕ → Text → Option ℕ
unfolding char_digit
parse62 acc [] = some acc
parse62 acc (c ∷ s) = elim (char_digit c) [ none ↦ none | some d ↦ parse62 (acc * 62 + d) s ]

-- `big.Int.SetString`, less its sign: an optional sign, then at least one digit.
unfoldable pub unsigned62 : Text → Option ℕ
unsigned62 [] = none
unsigned62 (c ∷ s) = parse62 0 (c ∷ s)

unfoldable pub set_string62 : Text → Option ℕ
set_string62 [] = none
set_string62 (c ∷ s) = if c == b'-' || c == b'+' then unsigned62 s else unsigned62 (c ∷ s)

pub data IdError : Type 0 where
  bad_base62 : Text → IdError
  bad_uri : Text → IdError

pub data IdResult : Type 0 where
  id_ok : SpotifyId → IdResult
  id_err : IdError → IdResult

unfoldable pub from_gid : Text → List ℕ → Run SpotifyId
from_gid typ id = if length id == 16 then ok (record { typ = typ; id = id }) else panic

-- `FillBytes` writes the absolute value, and panics where 16 bytes do not hold it.
unfoldable pub from_base62 : Text → Text → Run IdResult
from_base62 typ s = elim (set_string62 s) [
  | none ↦ ok (id_err (bad_base62 s))
  | some n ↦
      if ltb n (2 ^ 128) then ok (id_ok (record { typ = typ; id = to_bytes 16 n [] })) else panic
]

-- `fmt.Sprintf("spotify:%s:%s", typ, base62)`
unfoldable pub uri : SpotifyId → Run Text
uri i = do s ← gid_to_base62 i.id; ok (codes "spotify:" ++ i.typ ++ (b':' ∷ s))

unfoldable pub is_lower : ℕ → Bool
is_lower c = leb b'a' c && leb c b'z'

unfoldable pub is_alnum : ℕ → Bool
is_alnum c = leb b'0' c && leb c b'9' || (leb b'a' c && leb c b'z') || (leb b'A' c && leb c b'Z')

unfoldable pub all_alnum : Text → Bool
unfolding is_alnum
all_alnum [] = true
all_alnum (c ∷ s) = is_alnum c && all_alnum s

-- The text after a prefix.
unfoldable pub strip : Text → Text → Option Text
strip [] s = some s
strip (c ∷ p) [] = none
strip (c ∷ p) (d ∷ s) = if c == d then strip p s else none

-- `[a-z]+:` up to its colon: the letters read so far, in order, and the rest.
unfoldable pub lower_until_colon : Text → Option (Text × Text)
unfolding is_lower
lower_until_colon [] = none
lower_until_colon (c ∷ s) =
    let rest : Option (Text × Text) = elim (lower_until_colon s) [
      | none ↦ none
      | some (t, r) ↦ some (c ∷ t, r)
    ] in
    if c == b':' then some ([], s) else if is_lower c then rest else none

-- `^spotify:([a-z]+):([0-9a-zA-Z]{21,22})$`
unfoldable pub match_uri : Text → Option (Text × Text)
unfolding strip lower_until_colon all_alnum
match_uri s = elim (strip (codes "spotify:") s) [
  | none ↦ none
  | some r ↦ elim (lower_until_colon r) [
    | none ↦ none
    | some (t, i) ↦
        if ltb 0 (length t) && all_alnum i && (length i == 21 || length i == 22)
        then some (t, i)
        else none
  ]
]

unfoldable pub from_uri : Text → Run IdResult
from_uri s = elim (match_uri s) [ none ↦ ok (id_err (bad_uri s)) | some (t, i) ↦ from_base62 t i ]
