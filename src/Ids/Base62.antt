-- ===== src/Ids/Base62.antt =====
-- ids.go: the base 62 form of a gid and back.
use native.Mathlib.Nat.{pow-suc}
use go_librespot_termux.Prelude.{
  ℕ, zero, suc, ◌+◌, ◌-◌, ◌*◌, ◌/◌, ◌%◌, ◌^◌, ◌≤◌, ◌<◌, ◌≡◌, refl, ap, ◌∙◌, List, [], ◌∷◌, ◌++◌,
  some, arith, length, length-append, ltb, Text, ok, panic, ◌==◌, Bool-cases, inl, inr,
  Option-cases, ap₂, true, if◌then◌else◌, lt→ltb, append-nil,
}
use go_librespot_termux.Ids.{
  digit_char, char_digit, of_bytes, to_bytes, digits62, text62, repeat_zero, gid_to_base62, parse62,
  unsigned62, set_string62, from_base62, id_ok, is_alnum, all_alnum,
}

-- Every entry is a byte.
abbrev pub IsBytes : List ℕ → Type 0
IsBytes [] = Unit {0}
IsBytes (b ∷ bs) = (b < 256) × IsBytes bs

char_digit-digit_char : (d : ℕ) → d < 62 → char_digit (digit_char d) ≡ some d
unfolding char_digit digit_char
char_digit-digit_char d h = ground arith

parse62-digit_char :
    (acc d : ℕ) (rest : Text)
    → d < 62
    → parse62 acc (digit_char d ∷ rest) ≡ parse62 (acc * 62 + d) rest
unfolding parse62
parse62-digit_char acc d rest h = rw (char_digit-digit_char d h, parse62)

-- Reading the digits of `n` from 0 leaves `n`.
parse62-digits62 : (f n : ℕ) (rest : Text) → n ≤ f → parse62 0 (digits62 f n rest) ≡ parse62 n rest
unfolding digits62
parse62-digits62 zero n rest h = ap (λ k. parse62 k rest) (omega arith)
parse62-digits62 (suc f) n rest h = elim (Bool-cases (n == 0)) [
  | inl e ↦ rw e (ap (λ k. parse62 k rest) (ground arith))
  | inr e ↦ rw e (
      parse62-digits62 f (n / 62) (digit_char (n % 62) ∷ rest) (ground arith)
      ∙ (parse62-digit_char (n / 62) (n % 62) rest (omega arith)
          ∙ ap (λ k. parse62 k rest) (omega arith)))
]

parse62-repeat_zero : (k : ℕ) (s : Text) → parse62 0 (repeat_zero k ++ s) ≡ parse62 0 s
unfolding parse62 repeat_zero char_digit
parse62-repeat_zero zero s = refl
parse62-repeat_zero (suc k) s = parse62-repeat_zero k s

parse62-text62 : (n : ℕ) → parse62 0 (text62 n) ≡ some n
unfolding text62 parse62 char_digit
parse62-text62 n = ground (arith, parse62-digits62 n n [])

is_alnum-digit_char : (d : ℕ) → d < 62 → is_alnum (digit_char d) ≡ true
unfolding is_alnum digit_char
is_alnum-digit_char d h = ground arith

all_alnum-cons :
    (c : ℕ) (s : Text) → is_alnum c ≡ true → all_alnum s ≡ true → all_alnum (c ∷ s) ≡ true
unfolding all_alnum
all_alnum-cons c s h k = ground arith

-- Fewer than `62 ^ k` values take at most `k` digits.
length-digits62 :
    (k f n : ℕ) (rest : Text) → n < 62 ^ k → length (digits62 f n rest) ≤ k + length rest
unfolding digits62
length-digits62 k zero n rest h = omega arith
length-digits62 zero (suc f) n rest h = ground arith
length-digits62 (suc k) (suc f) n rest h =
    let small : n < 62 ^ k * 62 = rw (pow-suc 62 k) at h in
    ground (arith, length-digits62 k f (n / 62) (digit_char (n % 62) ∷ rest))

all_alnum-digits62 :
    (f n : ℕ) (rest : Text) → all_alnum rest ≡ true → all_alnum (digits62 f n rest) ≡ true
unfolding digits62
all_alnum-digits62 zero n rest h = h
all_alnum-digits62 (suc f) n rest h = ground (
  arith,
  is_alnum-digit_char (n % 62),
  all_alnum-digits62 f (n / 62) (digit_char (n % 62) ∷ rest),
  all_alnum-cons (digit_char (n % 62)) rest,
)

all_alnum-append :
    (s t : Text) → all_alnum s ≡ true → all_alnum t ≡ true → all_alnum (s ++ t) ≡ true
unfolding all_alnum
all_alnum-append [] t h k = k
all_alnum-append (c ∷ s) t h k = ground (arith, all_alnum-append s t)

all_alnum-repeat_zero : (k : ℕ) → all_alnum (repeat_zero k) ≡ true
unfolding all_alnum repeat_zero
all_alnum-repeat_zero zero = refl
all_alnum-repeat_zero (suc k) = all_alnum-repeat_zero k

length-repeat_zero : (k : ℕ) → length (repeat_zero k) ≡ k
unfolding repeat_zero
length-repeat_zero zero = refl
length-repeat_zero (suc k) = ap suc (length-repeat_zero k)

all_alnum-text62 : (n : ℕ) → all_alnum (text62 n) ≡ true
unfolding text62 all_alnum
all_alnum-text62 n = ground (arith, all_alnum-digits62 n n [])

length-text62-le : (n : ℕ) → n < 2 ^ 128 → length (text62 n) ≤ 22
unfolding text62
length-text62-le n h = ground (arith, length-digits62 22 n n [])

-- An alphanumeric text has no sign.
pub set_string62-eq-parse62 :
    (s : Text) → all_alnum s ≡ true → 0 < length s → set_string62 s ≡ parse62 0 s
unfolding set_string62 unsigned62 all_alnum
set_string62-eq-parse62 [] h k = absurd (omega arith)
set_string62-eq-parse62 (c ∷ s) h k = ground arith

-- Every alphanumeric text is a number in base 62.
pub parse62-all_alnum :
    (acc : ℕ) (s : Text) → all_alnum s ≡ true → (n : ℕ) × (parse62 acc s ≡ some n)
unfolding parse62 all_alnum
parse62-all_alnum acc [] h = (acc, refl)
parse62-all_alnum acc (c ∷ s) h = elim (Option-cases (char_digit c)) [
  | inl e ↦ absurd (ground arith)
  | inr (d, e) ↦ rw (e, parse62) (parse62-all_alnum (acc * 62 + d) s (ground arith))
]

to_bytes-of_bytes :
    (j acc : ℕ) (bs rest : List ℕ)
    → IsBytes bs
    → to_bytes (length bs + j) (of_bytes acc bs) rest ≡ to_bytes j acc (bs ++ rest)
unfolding to_bytes of_bytes
to_bytes-of_bytes j acc [] rest h = ap (λ k. to_bytes k acc rest) {x = 0 + j} {y = j} (omega arith)
to_bytes-of_bytes j acc (b ∷ bs) rest h =
    ap (λ k. to_bytes k (of_bytes (acc * 256 + b) bs) rest) {x = length (b ∷ bs) + j}
      {y = length bs + suc j} (omega arith)
    ∙ (to_bytes-of_bytes (suc j) (acc * 256 + b) bs rest h.1
        ∙ ap₂ (λ (q r : ℕ). to_bytes j q (r ∷ (bs ++ rest))) {x = (acc * 256 + b) / 256} {y = acc}
            {u = (acc * 256 + b) % 256} {v = b} (omega arith) (omega arith))

to_bytes-of_bytes_gid :
    (id : List ℕ) → IsBytes id → length id ≡ 16 → to_bytes 16 (of_bytes 0 id) [] ≡ id
unfolding to_bytes
to_bytes-of_bytes_gid id h e =
    ap (λ k. to_bytes k (of_bytes 0 id) []) {x = 16} {y = length id + 0} (omega arith)
    ∙ (to_bytes-of_bytes 0 0 id [] h ∙ append-nil id)

of_bytes-lt : (acc : ℕ) (bs : List ℕ) → IsBytes bs → of_bytes acc bs < (acc + 1) * 256 ^ length bs
unfolding of_bytes
of_bytes-lt acc [] h = omega arith
of_bytes-lt acc (b ∷ bs) h =
    let next = of_bytes-lt (acc * 256 + b) bs h.1 in
    let shift : (acc * 256 + b + 1) * 256 ^ length bs ≤ (acc + 1) * 256 * 256 ^ length bs =
      grind arith in
    rw (pow-suc 256 (length bs)) (omega arith)

of_bytes_gid-lt : (id : List ℕ) → IsBytes id → length id ≡ 16 → of_bytes 0 id < 2 ^ 128
of_bytes_gid-lt id h e = rw e at (of_bytes-lt 0 id h)

-- Zeros in front up to 22 characters.
abbrev padded : ℕ → Text
padded n = repeat_zero (22 - length (text62 n)) ++ text62 n

length-padded : (n : ℕ) → n < 2 ^ 128 → length (padded n) ≡ 22
length-padded n h = omega (
  arith,
  length-append (repeat_zero (22 - length (text62 n))) (text62 n),
  length-repeat_zero (22 - length (text62 n)),
  length-text62-le n h,
)

all_alnum-padded : (n : ℕ) → all_alnum (padded n) ≡ true
all_alnum-padded n =
    all_alnum-append _ _ (all_alnum-repeat_zero (22 - length (text62 n))) (all_alnum-text62 n)

set_string62-padded : (n : ℕ) → n < 2 ^ 128 → set_string62 (padded n) ≡ some n
set_string62-padded n h =
    set_string62-eq-parse62 (padded n) (all_alnum-padded n) (omega (arith, length-padded n h))
    ∙ (parse62-repeat_zero (22 - length (text62 n)) (text62 n) ∙ parse62-text62 n)

gid_to_base62-padded :
    (id : List ℕ) → of_bytes 0 id < 2 ^ 128 → gid_to_base62 id ≡ ok (padded (of_bytes 0 id))
unfolding gid_to_base62
gid_to_base62-padded id h = ground (arith, length-text62-le (of_bytes 0 id) h)

-- `FillBytes` panics exactly on the numbers that 16 bytes do not hold.
pub from_base62-some :
    (typ s : Text) (n : ℕ)
    → set_string62 s ≡ some n
    → from_base62 typ s ≡ (
        if ltb n (2 ^ 128) then ok (id_ok (record { typ = typ; id = to_bytes 16 n [] })) else panic)
unfolding from_base62
from_base62-some typ s n e = rw (e, from_base62)

-- A gid of 16 bytes always has a base 62 form of 22 letters and digits, which reads back as the gid.
pub from_base62-gid_to_base62 :
    (typ : Text) (id : List ℕ)
    → IsBytes id
    → length id ≡ 16
    → (s : Text) × (gid_to_base62 id ≡ ok s)
      × (length s ≡ 22)
      × (all_alnum s ≡ true)
      × (from_base62 typ s ≡ ok (id_ok (record { typ = typ; id = id })))
from_base62-gid_to_base62 typ id h e =
    let n = of_bytes 0 id in
    let small = of_bytes_gid-lt id h e in
    let back = to_bytes-of_bytes_gid id h e in
    (
      padded n,
      gid_to_base62-padded id small,
      length-padded n small,
      all_alnum-padded n,
      from_base62-some typ (padded n) n (set_string62-padded n small)
          ∙ rw (lt→ltb n (2 ^ 128) small, back),
    )
