-- ===== src/Source/Fade/Mix.antt =====
-- player/source.go: the samples of a fade, mixed, and the tail that is left.
use go_librespot_termux.Prelude.{
  ℕ, zero, suc, ◌+◌, ◌-◌, ◌%◌, ◌≡◌, ◌≤◌, ◌<◌, refl, sym, ap, ◌∙◌, ◌⊎◌, subst, false, List, [], ◌∷◌,
  ◌++◌, Option, none, some, arith, leb, leb→le, Bool-cases, inl, inr, if_true, if_false,
  if◌then◌else◌, length, get_elem?, get_elem?-some, Run, ok, ◌>>=◌, or_panic,
}
use native.Mathlib.Nat.{mod-add-mod}
use go_librespot_termux.Source.{
  channels, Floats, Switching, primary, finish_fade, clamp, mix_sample, mix_loop,
}
use go_librespot_termux.Source.Ring.{
  window, contents, IsRing, length-window, mod_in, advance, oldest, advance-IsRing,
  contents-advance,
}

module _ (F : Floats) where
  open F use {Sample}

  -- If no bound lies outside the bounds, no mixed sample does, whatever the samples and the gains are: the
  -- conversion to 16 bits cannot overflow.
  pub mix_sample_clamped :
      F.lt F.max_sample_value F.max_sample_value ≡ false
      → F.lt F.max_sample_value F.minus_one ≡ false
      → F.lt F.minus_one F.minus_one ≡ false
      → (pos total : ℕ) (old : Sample) (incoming : Option Sample)
      → (F.lt F.max_sample_value (mix_sample F pos total old incoming) ≡ false)
        × (F.lt (mix_sample F pos total old incoming) F.minus_one ≡ false)
  unfolding mix_sample
  mix_sample_clamped a b c pos total old incoming = clamped _
    where
      clamped :
          (x : Sample)
          → (F.lt F.max_sample_value (clamp F x) ≡ false) × (F.lt (clamp F x) F.minus_one ≡ false)
      clamped x = elim (Bool-cases (F.lt F.max_sample_value x)) [
        | inl e ↦
            subst (λ y. (F.lt F.max_sample_value y ≡ false) × (F.lt y F.minus_one ≡ false))
              (sym (if_true (F.lt F.max_sample_value x) _ _ e)) (a, b)
        | inr e ↦
            subst (λ y. (F.lt F.max_sample_value y ≡ false) × (F.lt y F.minus_one ≡ false))
              (sym (if_false (F.lt F.max_sample_value x) _ _ e))
              (elim (Bool-cases (F.lt x F.minus_one)) [
                | inl f ↦
                    subst (λ y. (F.lt F.max_sample_value y ≡ false) × (F.lt y F.minus_one ≡ false))
                      (sym (if_true (F.lt x F.minus_one) _ _ f)) (b, c)
                | inr f ↦
                    subst (λ y. (F.lt F.max_sample_value y ≡ false) × (F.lt y F.minus_one ≡ false))
                      (sym (if_false (F.lt x F.minus_one) _ _ f)) (e, f)
              ])
      ]

  -- The tail from its `k`th sample of a chunk on, each under the incoming sample of its place, both with
  -- the gains of the frame.
  abbrev pub blend : ℕ → ℕ → ℕ → List Sample → List Sample → List Sample
  blend pos total k [] incoming = []
  blend pos total k (t ∷ ts) incoming =
      mix_sample F (pos + (k - k % channels)) total t (get_elem? incoming k)
      ∷ blend pos total (k + 1) ts incoming

  pub length-blend :
      (pos total k : ℕ) (ts incoming : List Sample)
      → length (blend pos total k ts incoming) ≡ length ts
  length-blend pos total k [] incoming = refl
  length-blend pos total k (t ∷ ts) incoming = ap suc (length-blend pos total (k + 1) ts incoming)

  pub mix_loop-blend :
      (n k : ℕ) (incoming : List Sample) (s : Switching Sample)
      → 0 < length s.buf
      → mix_loop F n k incoming s
        ≡ ok (
            blend s.fade_pos s.fade_total k
              (window s.buf (length s.buf) ((s.buf_start + k) % length s.buf) n)
              incoming)
  unfolding mix_loop
  mix_loop-blend zero k incoming s h = refl
  mix_loop-blend (suc n) k incoming s h =
      let place = (s.buf_start + k) % length s.buf in
      let (x, e) = get_elem?-some s.buf place (mod_in (length s.buf) (s.buf_start + k) h) in
      let next : (s.buf_start + (k + 1)) % length s.buf ≡ (place + 1) % length s.buf =
        ap (λ a. a % length s.buf) {x = s.buf_start + (k + 1)} {y = s.buf_start + k + 1}
          (omega arith)
        ∙ sym (mod-add-mod (s.buf_start + k) (length s.buf) 1) in
      let rest = window s.buf (length s.buf) ((place + 1) % length s.buf) n in
      ap
        (λ (o : Run Sample). o >>= λ old. mix_loop F n (k + 1) incoming s >>= λ r. ok (
          mix_sample F (s.fade_pos + (k - k % channels)) s.fade_total old (get_elem? incoming k)
          ∷ r))
        (ap or_panic e)
      ∙ (ap
            (λ (o : Run (List Sample)). o >>= λ r. ok (
              mix_sample F (s.fade_pos + (k - k % channels)) s.fade_total x (get_elem? incoming k)
              ∷ r))
            (mix_loop-blend n (k + 1) incoming s h
              ∙ ap
                  (λ a. ok (
                    blend s.fade_pos s.fade_total (k + 1) (window s.buf (length s.buf) a n)
                      incoming))
                  next)
          ∙ ap
              (λ o. ok (
                blend s.fade_pos s.fade_total k (elim o [ none ↦ rest | some y ↦ y ∷ rest ])
                  incoming))
              (sym e))

  -- A tail that is being faded: what the ring holds is what the fade has not mixed yet.
  pub record IsFade (s : Switching Sample) : Type 0 where
    pub ring : IsRing s
    pub tail : s.buf_len + s.fade_pos ≡ s.fade_total

  -- What a read in a fade returns, without an error of the incoming source: the front of the tail, mixed.
  -- Then the fade goes on with the rest, or it is over with less than a frame of the tail left.
  pub record Fades (n : ℕ) (s s' : Switching Sample) (out incoming : List Sample) : Type 0 where
    pub mixed : out ≡ blend s.fade_pos s.fade_total 0 (oldest (length out) s) incoming
    pub fits : length out ≤ n
    pub moves : 2 ≤ s.buf_len → 0 < length out
    pub goes_on :
        (IsFade s'
          × (s'.fading ≡ s.fading)
          × (s'.fade_total ≡ s.fade_total)
          × (s'.fade_pos ≡ s.fade_pos + length out)
          × (contents s ≡ oldest (length out) s ++ contents s'))
        ⊎ ((s'.fading ≡ false)
            × (s'.buf_len ≡ 0)
            × (s'.primary_eof ≡ false)
            × (s.buf_len < length out + channels))
    pub same_source : primary s' ≡ primary s

  pub fade_end :
      (c : ℕ) (n : ℕ) (s : Switching Sample) (incoming : List Sample)
      → IsFade s
      → 0 < c
      → c ≤ n
      → c ≤ s.buf_len
      → let s₁ = record (advance c s) { fade_pos = s.fade_pos + c } in
        Fades n s
          (if leb s₁.fade_total s₁.fade_pos then finish_fade s₁ else s₁)
          (blend s.fade_pos s.fade_total 0 (oldest c s) incoming)
          incoming
  unfolding finish_fade
  fade_end c n s incoming f pos le tail =
      let s₁ : Switching Sample = record (advance c s) { fade_pos = s.fade_pos + c } in
      let size : length (blend s.fade_pos s.fade_total 0 (oldest c s) incoming) ≡ c =
        length-blend s.fade_pos s.fade_total 0 (oldest c s) incoming
        ∙ length-window s.buf s.buf_start c f.ring.start_in in
      let mixed : blend s.fade_pos s.fade_total 0 (oldest c s) incoming
          ≡ blend s.fade_pos s.fade_total 0
              (oldest (length (blend s.fade_pos s.fade_total 0 (oldest c s) incoming)) s) incoming =
        ap (λ k. blend s.fade_pos s.fade_total 0 (oldest k s) incoming) (sym size) in
      elim (Bool-cases (leb s.fade_total (s.fade_pos + c))) [
        | inl e ↦
            subst
              (λ q. Fades n s q (blend s.fade_pos s.fade_total 0 (oldest c s) incoming) incoming)
              (sym (if_true (leb s.fade_total (s.fade_pos + c)) _ _ e))
              (record {
                mixed = mixed;
                fits = omega (arith, size, le);
                moves = λ _. omega (arith, size, pos);
                goes_on = inr (refl, refl, refl, omega (arith, size, leb→le _ _ e, f.tail));
                same_source = refl;
              })
        | inr e ↦
            subst
              (λ q. Fades n s q (blend s.fade_pos s.fade_total 0 (oldest c s) incoming) incoming)
              (sym (if_false (leb s.fade_total (s.fade_pos + c)) _ _ e))
              (record {
                mixed = mixed;
                fits = omega (arith, size, le);
                moves = λ _. omega (arith, size, pos);
                goes_on = inl (
                  record {
                    ring = record {
                      start_in = (advance-IsRing c s f.ring).start_in;
                      len_in = (advance-IsRing c s f.ring).len_in;
                    };
                    tail = omega (arith, f.tail, tail);
                  },
                  refl,
                  refl,
                  omega (arith, size),
                  contents-advance c s f.ring tail
                      ∙ ap (λ k. oldest k s ++ contents (advance c s)) (sym size),
                );
                same_source = refl;
              })
      ]
