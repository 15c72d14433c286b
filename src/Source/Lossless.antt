-- ===== src/Source/Lossless.antt =====
-- player/source.go: outside a fade, a read plays what the current track gave, all of it and in order.
mod Playing
use go_librespot_termux.Prelude.{
  ℕ, suc, ◌+◌, ◌-◌, ◌*◌, ◌%◌, ◌≡◌, ◌≤◌, ◌<◌, refl, sym, ap, ◌∙◌, ◌⊎◌, subst, Bool, true, false, not,
  ◌&&◌, List, [], ◌++◌, Option, none, some, arith, ltb, ltb-false→le, ◌==◌, ==_iff, Bool-cases,
  Option-cases, inl, inr, if_true, if_false, if_both, if◌then◌else◌, length, min, Run, ok, ◌>>=◌,
}
use go_librespot_termux.Source.{
  channels, scratch_size, ReadErr, eof, Floats, Sources, Switching, returned, blocked, crossfade,
  primary, secondary, report_done,
}
use go_librespot_termux.Source.Read.{
  Result, is_none, has_source, decoding, start_fade, popped, drain, deliver_error, serve_limit,
  serve, at_end, read_fade, refill, read_crossfade,
}
use go_librespot_termux.Source.Ring.{window, contents, IsRing, length-contents, advance, oldest}
use go_librespot_termux.Source.Ring.Pop.{pop_size, pop_chunk-advance}
use go_librespot_termux.Source.Refill.{KeepsContract, Fills, refill_loop-Fills}
use go_librespot_termux.Source.Refill.Room.{held, note_error-contents}
use go_librespot_termux.Source.Lossless.Playing.{
  Plays, report_done-ring, advance-Plays, drained-Plays,
}

module _ (F : Floats) {W : Type 0} (S : Sources F.Sample W) where
  open F use {Sample}

  -- A read plays, or the crossfade begins: what is left of the ring, at most a crossfade, is the tail.
  abbrev pub Serves : ℕ → Switching Sample → W → Result Sample W → Type 0
  Serves n s w res =
      ((s' : Switching Sample) × (out : List Sample) × (e : Option ReadErr) × (res
          ≡ ok (s', w, returned out e))
        × Plays n s s' out e)
      ⊎ ((h : ℕ) × (secondary s ≡ some h)
          × (s.primary_eof ≡ true)
          × (s.buf_len ≤ s.crossfade_samples)
          × (res ≡ read_fade F S n (start_fade s) w))

  popped-Plays :
      (n limit : ℕ) (s : Switching Sample) (w : W)
      → IsRing s
      → (decoding s ≡ true
          → s.crossfade_samples < s.buf_len
          → limit ≤ s.buf_len - s.crossfade_samples)
      → Serves n s w (popped n limit s w)
  popped-Plays n limit s w r keep =
      let k = pop_size n limit s in
      let (run, _, _, _) = pop_chunk-advance n limit s r in
      inl (
        advance k s,
        oldest k s,
        none,
        ap
            (λ (x : Run (Switching Sample × List Sample)).
              x >>= λ (s', out). ok (s', w, returned out none))
            run,
        advance-Plays n limit s r keep,
      )

  eof-decodes : (s : Switching Sample) → s.primary_eof ≡ true → decoding s ≡ true → false ≡ true
  eof-decodes s e d = sym (ap (λ b. not b && is_none s.pending_err) e) ∙ d

  drain-Plays :
      (n : ℕ) (s : Switching Sample) (w : W)
      → IsRing s
      → s.primary_eof ≡ true
      → secondary s ≡ none
      → Serves n s w (drain n s w)
  unfolding drain
  drain-Plays n s w r e o = elim (Bool-cases (s.buf_len == 0)) [
    | inl z ↦
        let empty = (==_iff s.buf_len 0).0 z in
        let none_left : pop_size n s.buf_len s ≡ 0 = omega arith in
        inl (
          report_done s,
          [],
          some eof,
          if_true (s.buf_len == 0) _ _ z,
          record {
            all = report_done-ring (λ a b c. window c (length c) a b ≡ contents s) s refl;
            fits = omega arith;
            whole = refl;
            ring = record {
              start_in = report_done-ring (λ a b c. a < length c) s r.start_in;
              len_in = report_done-ring (λ a b c. b ≤ length c) s r.len_in;
            };
            over = λ x q. (
              report_done-ring (λ a b c. window c (length c) a b ≡ contents s) s refl
                  ∙ ap (window s.buf (length s.buf) s.buf_start) empty,
              inl (cc, e, o),
            );
            reserve = λ d h. absurd (cc (eof-decodes s e d));
          },
        )
    | inr z ↦
        let k = pop_size n s.buf_len s in
        let (run, _, _, _) = pop_chunk-advance n s.buf_len s r in
        let rest =
          if_false (s.buf_len == 0) _ _ z
          ∙ ap
              (λ (x : Run (Switching Sample × List Sample)). x >>= λ (s', out). ok (
                if s'.buf_len == 0
                then (report_done s', w, returned out (some eof))
                else (s', w, returned out none)))
              run in
        elim (Bool-cases ((s.buf_len - k) == 0)) [
          | inl y ↦ inl (
            report_done (advance k s),
            oldest k s,
            some eof,
            rest
                ∙ ap
                    (λ b. ok (
                      if b
                      then (report_done (advance k s), w, returned (oldest k s) (some eof))
                      else (advance k s, w, returned (oldest k s) none)))
                    y,
            drained-Plays n s r e o ((==_iff (s.buf_len - k) 0).0 y),
          )
          | inr y ↦ inl (
            advance k s,
            oldest k s,
            none,
            rest
                ∙ ap
                    (λ b. ok (
                      if b
                      then (report_done (advance k s), w, returned (oldest k s) (some eof))
                      else (advance k s, w, returned (oldest k s) none)))
                    y,
            advance-Plays n s.buf_len s r (λ d h. absurd (cc (eof-decodes s e d))),
          )
        ]
  ]

  at_end-Serves :
      (n : ℕ) (s : Switching Sample) (w : W)
      → IsRing s
      → s.primary_eof ≡ true
      → Serves n s w (at_end F S n s w)
  unfolding at_end
  at_end-Serves n s w r e = elim (Option-cases (secondary s)) [
    | inl o ↦
        subst (Serves n s w)
          (ap
            (λ x. elim x as (λ _. Result Sample W) [
              | none ↦ drain n s w
              | some h ↦
                  if ltb s.crossfade_samples s.buf_len
                  then popped n (s.buf_len - s.crossfade_samples) s w
                  else read_fade F S n (start_fade s) w
            ])
            (sym o))
          (drain-Plays n s w r e o)
    | inr (h, o) ↦
        subst (Serves n s w)
          (ap
            (λ x. elim x as (λ _. Result Sample W) [
              | none ↦ drain n s w
              | some h ↦
                  if ltb s.crossfade_samples s.buf_len
                  then popped n (s.buf_len - s.crossfade_samples) s w
                  else read_fade F S n (start_fade s) w
            ])
            (sym o))
          (elim (Bool-cases (ltb s.crossfade_samples s.buf_len)) [
            | inl y ↦
                subst (Serves n s w) (sym (if_true (ltb s.crossfade_samples s.buf_len) _ _ y))
                  (popped-Plays n (s.buf_len - s.crossfade_samples) s w r (λ d k. omega arith))
            | inr y ↦
                inr
                  (h, o, e, ltb-false→le _ _ y, if_false (ltb s.crossfade_samples s.buf_len) _ _ y)
          ])
  ]

  deliver_error-Serves :
      (n : ℕ) (x : ReadErr) (s : Switching Sample) (w : W)
      → IsRing s
      → s.pending_err ≡ some x
      → Serves n s w (deliver_error n x s w)
  unfolding deliver_error
  deliver_error-Serves n x s w r e = elim (Bool-cases (ltb 0 s.buf_len)) [
    | inl y ↦ subst (Serves n s w) (sym (if_true (ltb 0 s.buf_len) _ _ y)) (
        popped-Plays n s.buf_len s w r
          (λ d h. absurd (cc (pending-decodes s.primary_eof s.pending_err e d))))
    | inr y ↦
        let empty : s.buf_len ≡ 0 = omega (arith, ltb-false→le _ _ y) in
        inl (
          record s { pending_err = none },
          [],
          some x,
          if_false (ltb 0 s.buf_len) _ _ y,
          record {
            all = refl;
            fits = omega arith;
            whole = refl;
            ring = record { start_in = r.start_in; len_in = r.len_in };
            over = λ z q. (ap (window s.buf (length s.buf) s.buf_start) empty, inr (e ∙ q));
            reserve = λ d h. absurd (omega (arith, empty, h));
          },
        )
  ]
    where
      pending-decodes :
          (b : Bool) (o : Option ReadErr) → o ≡ some x → (not b && is_none o) ≡ true → false ≡ true
      pending-decodes b none h d = absurd (cc)
      pending-decodes true (some z) h d = d
      pending-decodes false (some z) h d = d

  -- The choices after the refill.
  serve-Serves : (n : ℕ) (s : Switching Sample) (w : W) → IsRing s → Serves n s w (serve F S n s w)
  unfolding serve serve_limit
  serve-Serves n s w r = elim (Bool-cases s.primary_eof) [
    | inl e ↦ subst (Serves n s w) (sym (if_true s.primary_eof _ _ e)) (at_end-Serves n s w r e)
    | inr e ↦ subst (Serves n s w) (sym (if_false s.primary_eof _ _ e)) (go s.pending_err refl)
  ]
    where
      go :
          (o : Option ReadErr)
          → s.pending_err ≡ o
          → Serves n s w (elim o as (λ _. Result Sample W) [
            | none ↦ popped n (serve_limit n s) s w
            | some e ↦ deliver_error n e s w
          ])
      go none e = popped-Plays n (serve_limit n s) s w r (λ d h. omega (
        arith,
        ap (λ (x : ℕ). x)
            (if_false ((s.buf_len - s.crossfade_samples) == 0) (min s.buf_len n)
              (s.buf_len - s.crossfade_samples) (ground (arith, h))),
      ))
      go (some x) e = deliver_error-Serves n x s w r e

  -- What a read outside a fade does: a refill, after which the ring holds what it held and all that the
  -- source gave, whole frames of it at the end of the track; then it plays from there.
  pub record ReadsOn (n h : ℕ) (s : Switching Sample) (w : W) (res : Result Sample W) : Type 0 where
    pub refilled : Switching Sample
    pub after : W
    pub fill : Fills S h s w refilled after
    pub lossless : contents refilled ≡ held fill.err (contents s ++ fill.drawn)
    pub ring : IsRing refilled
    pub served : Serves n refilled after res

  -- Outside a fade, with a source in the primary slot, sources that keep their contract, and a ring in
  -- order: a read in the crossfade path returns. It refills the ring, where nothing that the source gave
  -- is lost or put in another order but a torn frame at its end. Then it plays samples from the front of
  -- the ring, as `Plays` says, or the crossfade begins, with at most a crossfade of samples as its tail,
  -- the current track at its end and another source in the secondary slot.
  pub read_crossfade-ReadsOn :
      (n h : ℕ) (s : Switching Sample) (w : W)
      → KeepsContract S
      → IsRing s
      → s.fading ≡ false
      → primary s ≡ some h
      → ReadsOn n h s w (read_crossfade F S n s w)
  unfolding read_crossfade refill
  read_crossfade-ReadsOn n h s w c r f p =
      let (s₁, w₁, run, fill) =
        refill_loop-Fills S (suc (length s.buf)) (2 * scratch_size) h s w c r p (omega arith) in
      let (same, ring, _) =
        note_error-contents fill.err (record s { buf = fill.buf; buf_len = fill.len }) fill.ring in
      let ring₁ = subst IsRing (sym fill.shape) ring in
      record {
        refilled = s₁;
        after = w₁;
        fill = fill;
        lossless = ap contents fill.shape ∙ (same ∙ ap (held fill.err) fill.all);
        ring = ring₁;
        served =
            subst (Serves n s₁ w₁)
              (sym (
                if_false s.fading _ _ f
                ∙ (ap
                      (λ o.
                        if not (has_source o) && not (s.primary_eof && ltb 0 s.buf_len)
                        then ok (s, w, blocked crossfade)
                        else (refill S s w >>= λ (s', w'). serve F S n s' w'))
                      p
                    ∙ ap (λ (x : Run (Switching Sample × W)). x >>= λ (s', w'). serve F S n s' w')
                        run)))
              (serve-Serves n s₁ w₁ ring₁);
      }
