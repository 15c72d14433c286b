-- ===== src/Source/Slots.antt =====
-- player/source.go: the two slots, from `SetPrimary`, `SetSecondary` and the start of a fade.
use go_librespot_termux.Prelude.{ℕ, ◌≡◌, ◌≢◌, refl, false, none, some, arith}
use go_librespot_termux.Source.{
  Floats, Switching, primary, secondary, finish_fade, reset_crossfade, set_primary, report_done,
  switch,
}
use go_librespot_termux.Source.Read.{start_fade}
use go_librespot_termux.Source.Ring.{contents, IsRing}
use go_librespot_termux.Source.Fade.Mix.{IsFade}

module _ {Sample : Type 0} where
  -- What `SetPrimary` leaves in the slots and of the fade.
  pub record SetsPrimary (h : ℕ) (s s' : Switching Sample) : Type 0 where
    pub current : primary s' ≡ some h
    pub no_alias : secondary s' ≢ some h
    pub rearmed : s'.eof_reported ≡ false
    pub other_kept : secondary s ≢ some h → secondary s' ≡ secondary s
    pub fade_kept :
        primary s ≡ some h
        → (contents s' ≡ contents s)
          × (s'.fading ≡ s.fading)
          × (s'.fade_pos ≡ s.fade_pos)
          × (s'.fade_total ≡ s.fade_total)
          × (s'.primary_eof ≡ s.primary_eof)
          × (s'.pending_err ≡ s.pending_err)
    pub fade_dropped :
        primary s ≢ some h
        → s.crossfade_samples ≢ 0
        → (s'.buf_len ≡ 0)
          × (s'.fading ≡ false)
          × (s'.primary_eof ≡ false)
          × (s'.pending_err ≡ none)

  -- `SetPrimary` of a source makes it the current one and never leaves it in the other slot too, which
  -- it leaves alone otherwise; the end may be reported again. If it is the current source already, the
  -- ring and a fade in progress stay as they are; if it is another, and there is a crossfade, the ring
  -- is emptied and the fade is dropped.
  pub set_primary-SetsPrimary :
      (h : ℕ) (s : Switching Sample) → SetsPrimary h s (set_primary (some h) s)
  unfolding set_primary reset_crossfade finish_fade
  set_primary-SetsPrimary h s = record {
    current = ground (arith);
    no_alias = λ e. ground arith;
    rearmed = refl;
    other_kept = λ n. ground arith;
    fade_kept = λ e. ground arith;
    fade_dropped = λ n c. ground arith;
  }

-- The tail with which a fade starts.
start_fade-IsFade :
    (F : Floats) (s : Switching F.Sample)
    → IsRing s
    → IsFade F (start_fade s) × (contents (start_fade s) ≡ contents s)
unfolding start_fade report_done switch
start_fade-IsFade F s r = ground arith
