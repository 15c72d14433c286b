-- ===== src/Source/Fade.antt =====
-- player/source.go: the mixing of a fade, from `readFade`.
pub mod Mix
use go_librespot_termux.Prelude.{
  ℕ, zero, suc, ◌+◌, ◌-◌, ◌%◌, ◌≡◌, ◌≤◌, ◌<◌, refl, sym, ap, ◌∙◌, ◌⊎◌, subst, false, List, [], ◌∷◌,
  ◌++◌, Option, none, some, arith, ltb, leb, leb→le, ◌==◌, ==_iff, Bool-cases, Option-cases, inl,
  inr, if_true, if_false, if◌then◌else◌, length, length-take, get_elem?, get_elem?-some, Run, ok,
  ◌>>=◌, or_panic,
}
use native.Mathlib.Nat.{mod-add-mod, mod-eq_of_lt}
use go_librespot_termux.Source.{
  channels, ReadErr, eof, failed, Floats, Sources, Switching, returned, primary, finish_fade, clamp,
  mix_sample, mix_loop,
}
use go_librespot_termux.Source.Read.{Result, fade_chunk, fade_with, fade_want, read_fade}
use go_librespot_termux.Source.Ring.{
  window, contents, IsRing, length-window, mod_in, advance, oldest, advance-IsRing,
  contents-advance,
}
use go_librespot_termux.Source.Refill.{KeepsContract}
use go_librespot_termux.Source.Refill.Room.{frames}
use go_librespot_termux.Source.Fade.Mix.{
  mix_sample_clamped, blend, length-blend, mix_loop-blend, IsFade, Fades, fade_end,
}

module _ (F : Floats) {W : Type 0} (S : Sources F.Sample W) where
  open F use {Sample}

  -- Where the samples that come in are from: the source in the primary slot, if there is one.
  abbrev pub Incoming : ℕ → Switching Sample → W → List Sample → W → Type 0
  Incoming n s w incoming w' =
      ((incoming ≡ []) × (w' ≡ w) × ((primary s ≡ none) ⊎ (s.buf_len < channels)))
      ⊎ ((h : ℕ) × (primary s ≡ some h)
          × (incoming ≡ frames (S.read h (fade_want n s) w).1)
          × (w' ≡ (S.read h (fade_want n s) w).0))

  fade_chunk-Fades :
      (n want : ℕ) (xs : List Sample) (s : Switching Sample) (w : W)
      → IsFade F s
      → 0 < want
      → want ≤ n
      → want ≤ s.buf_len
      → length xs ≤ want
      → (s' : Switching Sample) × (out : List Sample) × (fade_chunk F S want xs s w
          ≡ ok (s', w, returned out none))
        × Fades F n s s' out xs
  unfolding fade_chunk
  fade_chunk-Fades n want xs s w f pos le tail fit =
      let c = if ltb 0 (length xs) then length xs else want in
      let (c_pos, c_le) = chunk_size want xs pos fit in
      let size : 0 < length s.buf = omega (arith, f.ring.start_in) in
      let s₁ : Switching Sample = record (advance c s) { fade_pos = s.fade_pos + c } in
      let start : (s.buf_start + 0) % length s.buf ≡ s.buf_start =
        ap (λ a. a % length s.buf) {x = s.buf_start + 0} {y = s.buf_start} (omega arith)
        ∙ mod-eq_of_lt f.ring.start_in in
      (
        if leb s₁.fade_total s₁.fade_pos then finish_fade s₁ else s₁,
        blend F s.fade_pos s.fade_total 0 (oldest c s) xs,
        ap
            (λ (o : Run (List Sample)). o >>= λ out.
              ok (
                if leb s₁.fade_total s₁.fade_pos then finish_fade s₁ else s₁,
                w,
                returned out none,
              ))
            (mix_loop-blend F c 0 xs s size
              ∙ ap
                  (λ a. ok (blend F s.fade_pos s.fade_total 0 (window s.buf (length s.buf) a c) xs))
                  start),
        fade_end F c n s xs f c_pos (omega (arith, c_le, le)) (omega (arith, c_le, tail)),
      )
    where
      chunk_size :
          (want : ℕ) (xs : List Sample)
          → 0 < want
          → length xs ≤ want
          → (0 < (if ltb 0 (length xs) then length xs else want))
            × ((if ltb 0 (length xs) then length xs else want) ≤ want)
      chunk_size want xs pos fit = ground arith

  -- A read in a fade into a buffer for a frame at least, from sources that keep their contract, returns.
  -- If the incoming source fails, the error is returned and the fade stays as it was. Otherwise the front
  -- of the tail is returned, each sample mixed once with the incoming sample of its place and the gains
  -- of its frame, or with silence where none comes in; it is not empty while a frame is left; and then
  -- the fade goes on with the rest of the tail, or is over with less than a frame left.
  pub read_fade-Fades :
      (n : ℕ) (s : Switching Sample) (w : W)
      → KeepsContract S
      → 2 ≤ n
      → IsFade F s
      → ((s' : Switching Sample) × (w' : W) × (out incoming : List Sample) × (read_fade F S n s w
            ≡ ok (s', w', returned out none))
          × Fades F n s s' out incoming
          × Incoming n s w incoming w')
        ⊎ ((h x : ℕ) × (primary s ≡ some h)
            × ((S.read h (fade_want n s) w).2 ≡ some (failed x))
            × (read_fade F S n s w
                ≡ ok (s, (S.read h (fade_want n s) w).0, returned [] (some (failed x)))))
  unfolding read_fade fade_want finish_fade fade_with
  read_fade-Fades n s w c two f = elim (Bool-cases (fade_want n s == 0)) [
    | inl z ↦
        let none_left : s.buf_len < channels =
          omega (arith, (==_iff (fade_want n s) 0).0 z, f.tail) in
        inl (
          finish_fade s,
          w,
          [],
          [],
          if_true (fade_want n s == 0) _ _ z,
          record {
            mixed = refl;
            fits = omega arith;
            moves = λ h. absurd (omega arith);
            goes_on = inr (refl, refl, refl, omega arith);
            same_source = refl;
          },
          inl (refl, refl, inr none_left),
        )
    | inr z ↦
        let pos : 0 < fade_want n s = ground (arith, z) in
        let le : fade_want n s ≤ n = omega arith in
        let tail : fade_want n s ≤ s.buf_len = omega (arith, f.tail) in
        let head = if_false (fade_want n s == 0) _ _ z in
        let choose = λ (o : Option ℕ). elim o as (λ _. Result Sample W) [
          | none ↦ fade_chunk F S (fade_want n s) [] s w
          | some h ↦ fade_with F S (fade_want n s) s (S.read h (fade_want n s) w)
        ] in
        elim (Option-cases (primary s)) [
          | inl p ↦
              let (s', out, run, fades) =
                fade_chunk-Fades n (fade_want n s) [] s w f pos le tail (omega arith) in
              inl (s', w, out, [], head ∙ (ap choose p ∙ run), fades, inl (refl, refl, inl p))
          | inr (h, p) ↦
              let a = S.read h (fade_want n s) w in
              let fit = c.within h (fade_want n s) w in
              let (s', out, run, fades) =
                fade_chunk-Fades n (fade_want n s) (frames a.1) s a.0 f pos le tail
                  (omega (arith, length-take (length a.1 - length a.1 % channels) a.1, fit)) in
              (elim (with_answer n s w h p (S.read h (fade_want n s) w).2 refl) [
                | inl go ↦ inl (
                  s',
                  a.0,
                  out,
                  frames a.1,
                  head ∙ (ap choose p ∙ (go ∙ run)),
                  fades,
                  inr (h, p, refl, refl),
                )
                | inr (x, e, stop) ↦ inr (h, x, p, e, head ∙ (ap choose p ∙ stop))
              ])
        ]
  ]
    where
      with_answer :
          (n : ℕ) (s : Switching Sample) (w : W) (h : ℕ)
          → primary s ≡ some h
          → (o : Option ReadErr) → (S.read h (fade_want n s) w).2 ≡ o
          → let a = S.read h (fade_want n s) w in
            (fade_with F S (fade_want n s) s a ≡ fade_chunk F S (fade_want n s) (frames a.1) s a.0)
            ⊎ ((x : ℕ) × (a.2 ≡ some (failed x))
                × (fade_with F S (fade_want n s) s a ≡ ok (s, a.0, returned [] (some (failed x)))))
      with_answer n s w h p none e = inl (
          ap
            (λ o.
              fade_with F S (fade_want n s) s
                ((S.read h (fade_want n s) w).0, (S.read h (fade_want n s) w).1, o))
            e)
      with_answer n s w h p (some eof) e = inl (
          ap
            (λ o.
              fade_with F S (fade_want n s) s
                ((S.read h (fade_want n s) w).0, (S.read h (fade_want n s) w).1, o))
            e)
      with_answer n s w h p (some (failed x)) e = inr (
        x,
        e,
        ap
            (λ o.
              fade_with F S (fade_want n s) s
                ((S.read h (fade_want n s) w).0, (S.read h (fade_want n s) w).1, o))
            e,
      )
