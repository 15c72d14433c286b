-- ===== src/Source/Refill/Room.antt =====
-- player/source.go: an answer of a source in the ring.
use go_librespot_termux.Prelude.{
  ℕ, zero, suc, ◌+◌, ◌-◌, ◌%◌, ◌≡◌, ◌≤◌, ◌<◌, refl, sym, ap, ◌∙◌, Bool, true, false, ◌&&◌, ◌||◌,
  List, [], ◌∷◌, ◌++◌, Option, none, some, arith, length, take,
}
use go_librespot_termux.Source.{
  channels, ReadErr, eof, failed, Switching, free_start, free_chunk, overwrite,
}
use go_librespot_termux.Source.Read.{note_error}
use go_librespot_termux.Source.Ring.{
  window, contents, IsRing, length-window, length-contents, window-overwrite, window-split, mod_in,
}

module _ {Sample : Type 0} where
  -- Whole frames of a list.
  abbrev pub frames : List Sample → List Sample
  frames xs = take (length xs - length xs % channels) xs

  -- What stays in the ring of the samples there when a read ends so.
  abbrev pub held : Option ReadErr → List Sample → List Sample
  held none xs = xs
  held (some eof) xs = frames xs
  held (some (failed e)) xs = xs

  pub room :
      (s : Switching Sample)
      → IsRing s
      → (free_start s + free_chunk s ≤ length s.buf)
        × (s.buf_len + free_chunk s ≤ length s.buf)
        × (s.buf_len < length s.buf → 0 < free_chunk s)
  unfolding free_chunk free_start
  room s r =
      let i = mod_in (length s.buf) (s.buf_start + s.buf_len) (omega (arith, r.start_in)) in
      (omega (arith, i), omega (arith, i, r.len_in), λ h. omega (arith, i, h))

  -- The ring after a read of at most the free places.
  unfoldable pub filled : List Sample → Switching Sample → Switching Sample
  filled xs s = record s {
    buf = overwrite s.buf (free_start s) xs;
    buf_len = s.buf_len + length xs;
  }

  pub filled-contents :
      (xs : List Sample) (s : Switching Sample)
      → IsRing s
      → length xs ≤ free_chunk s
      → (contents (filled xs s) ≡ contents s ++ xs)
        × IsRing (filled xs s)
        × (length (filled xs s).buf ≡ length s.buf)
  unfolding filled free_start
  filled-contents xs s r le =
      let (a, b, _) = room s r in
      let (w, size) =
        window-overwrite s.buf (length s.buf) xs s.buf_len s.buf_start (free_start s) refl
          r.start_in (omega (arith, b, le)) (omega (arith, a, le)) (λ _. refl) in
      (
        ap (λ k. window (overwrite s.buf (free_start s) xs) k s.buf_start (s.buf_len + length xs))
              size
            ∙ w,
        record { start_in = omega (arith, size, r.start_in); len_in = omega (arith, size, b, le) },
        size,
      )

  pub take-append : (k : ℕ) (xs ys : List Sample) → k ≡ length xs → take k (xs ++ ys) ≡ xs
  take-append zero [] ys e = refl
  take-append zero (x ∷ xs) ys e = absurd (omega arith)
  take-append (suc k) [] ys e = absurd (omega arith)
  take-append (suc k) (x ∷ xs) ys e = ap (◌∷◌ x) (take-append k xs ys (omega arith))

  pub take-window :
      (k : ℕ) (s : Switching Sample)
      → IsRing s
      → k ≤ s.buf_len
      → take k (contents s) ≡ window s.buf (length s.buf) s.buf_start k
  take-window k s r h =
      ap (take k) (
        ap (window s.buf (length s.buf) s.buf_start) {x = s.buf_len} {y = k + (s.buf_len - k)}
          (omega arith)
        ∙ window-split s.buf (length s.buf) s.buf_start k (s.buf_len - k) r.start_in)
      ∙ take-append k (window s.buf (length s.buf) s.buf_start k)
          (window s.buf (length s.buf) ((s.buf_start + k) % length s.buf) (s.buf_len - k))
          (sym (length-window s.buf s.buf_start k r.start_in))

  pub note_error-contents :
      (e : Option ReadErr) (s : Switching Sample)
      → IsRing s
      → (contents (note_error e s) ≡ held e (contents s))
        × IsRing (note_error e s)
        × (length (note_error e s).buf ≡ length s.buf)
  unfolding note_error
  note_error-contents none s r = (refl, record { start_in = r.start_in; len_in = r.len_in }, refl)
  note_error-contents (some (failed e)) s r =
      (refl, record { start_in = r.start_in; len_in = r.len_in }, refl)
  note_error-contents (some eof) s r = (
    sym (
        ap (λ m. take (m - m % channels) (contents s)) (length-contents s r)
        ∙ take-window (s.buf_len - s.buf_len % channels) s r (omega arith)),
    record { start_in = r.start_in; len_in = omega (arith, r.len_in) },
    refl,
  )

pub and_true : (a b : Bool) → (a && b) ≡ true → (a ≡ true) × (b ≡ true)
and_true true b e = (refl, e)
and_true false b e = absurd (cc)

pub or_false : (a b : Bool) → (a || b) ≡ false → (a ≡ false) × (b ≡ false)
or_false true b e = absurd (cc)
or_false false b e = (refl, e)
