-- ===== src/Audio/Seek.antt =====
-- audio/chunked-reader.go: `Seek`.
use go_librespot_termux.Prelude.{
  ℕ, ◌+◌, ◌-◌, ◌≤◌, ◌<◌, ◌≡◌, refl, ap, sym, ◌∙◌, Bool-cases, if_true, if_false, inl, inr, Option,
  none, some, arith, ltb, lt→ltb, le→ltb-false, ltb-false→le, if◌then◌else◌,
}
use go_librespot_termux.Audio.{ChunkedReader, Offset, plus, minus, Whence, target, base_of, seek}

-- The position lies at the offset from the base.
abbrev pub Reaches : ℕ → Offset → ℕ → Type 0
Reaches base (plus n) p = p ≡ base + n
Reaches base (minus n) p = p + n ≡ base

seek_to : ChunkedReader → Option ℕ → ChunkedReader × Option ℕ
seek_to r none = (r, none)
seek_to r (some p) = if ltb p r.len then (record r { pos = p }, some p) else (r, none)

seek-eq :
    (o : Offset) (w : Whence) (r : ChunkedReader) → seek o w r ≡ seek_to r (target (base_of w r) o)
unfolding seek seek_to
seek-eq o w r = go (target (base_of w r) o) refl
  where
    go :
        (t : Option ℕ)
        → target (base_of w r) o ≡ t
        → elim t [
          | none ↦ (r, none)
          | some p ↦ if ltb p r.len then (record r { pos = p }, some p) else (r, none)
        ]
          ≡ seek_to r t
    go none e = refl
    go (some p) e = refl

target-Reaches : (base : ℕ) (o : Offset) (p : ℕ) → Reaches base o p → target base o ≡ some p
unfolding target
target-Reaches base (plus n) p h = ap some (sym h)
target-Reaches base (minus n) p h =
    if_false (ltb base n) _ _ (le→ltb-false base n (omega arith))
    ∙ ap some {x = base - n} {y = p} (omega arith)

seek_to-inside :
    (r : ChunkedReader) (p : ℕ) → p < r.len → seek_to r (some p) ≡ (record r { pos = p }, some p)
unfolding seek_to
seek_to-inside r p h = if_true (ltb p r.len) _ _ (lt→ltb p r.len h)

seek_to-outside :
    (r : ChunkedReader) (base : ℕ) (o : Offset)
    → ((p : ℕ) → Reaches base o p → r.len ≤ p)
    → seek_to r (target base o) ≡ (r, none)
unfolding seek_to target
seek_to-outside r base (plus n) h =
    if_false (ltb (base + n) r.len) _ _ (le→ltb-false (base + n) r.len (h (base + n) refl))
seek_to-outside r base (minus n) h = elim (Bool-cases (ltb base n)) [
  | inl e ↦ ap (seek_to r) (if_true (ltb base n) _ _ e)
  | inr e ↦
      ap (seek_to r) (if_false (ltb base n) _ _ e)
      ∙ if_false (ltb (base - n) r.len) _ _
          (le→ltb-false (base - n) r.len (h (base - n) (omega (arith, ltb-false→le _ _ e))))
]

-- `Seek` moves to the position that lies at the offset from its base, which is the start, the current
-- position or the end, if that is inside the file. If there is none, since it is negative or not below
-- the length, it reports an error and nothing changes.
seek-Reaches :
    (o : Offset) (w : Whence) (r : ChunkedReader)
    → ((p : ℕ)
        → p < r.len
        → Reaches (base_of w r) o p
        → seek o w r ≡ (record r { pos = p }, some p))
      × (((p : ℕ) → Reaches (base_of w r) o p → r.len ≤ p) → seek o w r ≡ (r, none))
seek-Reaches o w r = (
  λ p inside h.
      seek-eq o w r
      ∙ (ap (seek_to r) (target-Reaches (base_of w r) o p h) ∙ seek_to-inside r p inside),
  λ h. seek-eq o w r ∙ seek_to-outside r (base_of w r) o h,
)
