-- ===== src/Source/Lossless/Playing.antt =====
-- player/source.go: samples that are played out of the ring.
use go_librespot_termux.Prelude.{
  ℕ, ◌+◌, ◌-◌, ◌%◌, ◌≡◌, ◌≤◌, ◌<◌, refl, sym, ap, ◌∙◌, ◌⊎◌, true, false, not, ◌&&◌, List, [], ◌++◌,
  Option, none, some, arith, inl, if_both, length,
}
use go_librespot_termux.Source.{channels, ReadErr, eof, Switching, secondary, report_done}
use go_librespot_termux.Source.Read.{is_none, decoding}
use go_librespot_termux.Source.Ring.{window, contents, IsRing, length-contents, advance, oldest}
use go_librespot_termux.Source.Ring.Pop.{pop_size, pop_chunk-advance}

module _ {Sample : Type 0} where
  -- A value that a read returns plays samples of the ring, whole frames that fit the buffer, and leaves
  -- the others there. It returns an error only when nothing is left: the end of the last track, or what
  -- a source failed with. While a track is decoded, what a crossfade needs stays behind if it is there.
  pub record Plays (n : ℕ) (s s' : Switching Sample) (out : List Sample) (e : Option ReadErr)
      : Type 0 where
    pub all : out ++ contents s' ≡ contents s
    pub fits : length out ≤ n
    pub whole : length out % channels ≡ 0
    pub ring : IsRing s'
    pub over :
        (x : ReadErr)
        → e ≡ some x
        → (contents s' ≡ [])
          × (((x ≡ eof) × (s.primary_eof ≡ true) × (secondary s ≡ none)) ⊎ (s.pending_err ≡ some x))
    pub reserve :
        decoding s ≡ true
        → s.crossfade_samples < s.buf_len
        → s.crossfade_samples ≤ length (contents s')

  pub report_done-ring :
      (P : ℕ → ℕ → List Sample → Type 0) (s : Switching Sample)
      → P s.buf_start s.buf_len s.buf
      → P (report_done s).buf_start (report_done s).buf_len (report_done s).buf
  unfolding report_done
  report_done-ring P s p =
      if_both (λ (q : Switching Sample). P q.buf_start q.buf_len q.buf) s.eof_reported _ _ p
        (λ _. p)

  -- Samples that are taken from the ring, with no error.
  pub advance-Plays :
      (n limit : ℕ) (s : Switching Sample)
      → IsRing s
      → (decoding s ≡ true
          → s.crossfade_samples < s.buf_len
          → limit ≤ s.buf_len - s.crossfade_samples)
      → Plays n s (advance (pop_size n limit s) s) (oldest (pop_size n limit s) s) none
  advance-Plays n limit s r keep =
      let (_, all, size, ring) = pop_chunk-advance n limit s r in
      record {
        all = sym all;
        fits = omega (arith, size);
        whole = omega (arith, size);
        ring = ring;
        over = λ x e. absurd (cc);
        reserve =
            λ d h. omega (arith, keep d h, length-contents (advance (pop_size n limit s) s) ring);
      }

  -- The same with the end of the last track, which is reported when nothing is left.
  pub drained-Plays :
      (n : ℕ) (s : Switching Sample)
      → IsRing s
      → s.primary_eof ≡ true
      → secondary s ≡ none
      → s.buf_len - pop_size n s.buf_len s ≡ 0
      → Plays n s
          (report_done (advance (pop_size n s.buf_len s) s))
          (oldest (pop_size n s.buf_len s) s)
          (some eof)
  drained-Plays n s r e o z =
      let k = pop_size n s.buf_len s in
      let (_, all, size, ring) = pop_chunk-advance n s.buf_len s r in
      let left : contents (advance k s) ≡ [] =
        ap (window s.buf (length s.buf) ((s.buf_start + k) % length s.buf)) z in
      let same : contents (report_done (advance k s)) ≡ contents (advance k s) =
        report_done-ring (λ a b c. window c (length c) a b ≡ contents (advance k s)) (advance k s)
          refl in
      record {
        all = ap (λ w. oldest k s ++ w) same ∙ sym all;
        fits = omega (arith, size);
        whole = omega (arith, size);
        ring = record {
          start_in = report_done-ring (λ a b c. a < length c) (advance k s) ring.start_in;
          len_in = report_done-ring (λ a b c. b ≤ length c) (advance k s) ring.len_in;
        };
        over = λ x q. (same ∙ left, inl (cc, e, o));
        reserve = λ d h. absurd (cc (decoding-false s e d));
      }
    where
      decoding-false :
          (s : Switching Sample) → s.primary_eof ≡ true → decoding s ≡ true → false ≡ true
      decoding-false s e d = sym (ap (λ b. not b && is_none s.pending_err) e) ∙ d
