-- ===== src/Source.antt =====
-- player/source.go: the source that plays one track after the other, with a crossfade between them.
-- A source behind it is a handle; what all of them hold is a value `W` that their methods change, so
-- that the same source may stand in both slots. Samples are floats: their arithmetic is a parameter.
-- A read that has to wait for a source is made again by `resume` once a method has changed the state.
pub mod Ring
pub mod Read
pub mod Refill
pub mod Lossless
pub mod Fade
pub mod Slots
mod Tests
use go_librespot_termux.Prelude.{
  ℕ, zero, suc, ◌+◌, ◌-◌, ◌*◌, ◌/◌, ◌%◌, ◌≡◌, Bool, true, false, not, ◌&&◌, ◌||◌, List, [], ◌∷◌,
  ◌++◌, Option, none, some, ltb, leb, ◌==◌, if◌then◌else◌, length, get_elem?, set, take, drop, min,
  Run, ok, panic, out_of_fuel, ◌>>=◌, or_panic,
}

abbrev pub channels : ℕ
channels = 2

abbrev pub sample_rate : ℕ
sample_rate = 44100

abbrev pub lookahead_headroom : ℕ
lookahead_headroom = 8 * 1024

abbrev pub scratch_size : ℕ
scratch_size = 8 * 1024

pub data ReadErr : Type 0 where
  eof : ReadErr
  failed : ℕ → ReadErr

-- The operations on `float32` that the mixing of a fade uses.
pub record Floats : Type 1 where
  pub Sample : Type 0
  pub silence : Sample
  pub mul : Sample → Sample → Sample
  pub add : Sample → Sample → Sample
  pub lt : Sample → Sample → Bool
  pub minus_one : Sample
  pub max_sample_value : Sample
  pub gain_out : ℕ → ℕ → Sample
  pub gain_in : ℕ → ℕ → Sample

-- The methods of the sources behind it. A read returns samples for a buffer of a length.
pub record Sources (Sample W : Type 0) : Type 0 where
  pub read : ℕ → ℕ → W → W × List Sample × Option ReadErr
  pub no_crossfade : ℕ → W → Bool
  pub set_position_ms : ℕ → ℕ → W → W × Bool
  pub position_ms : ℕ → W → ℕ

-- `done` is true when the channel of that name holds its one token.
pub record Switching (Sample : Type 0) : Type 0 where
  pub source_true : Option ℕ
  pub source_false : Option ℕ
  pub which : Bool
  pub done : Bool
  pub eof_reported : Bool
  pub crossfade_samples : ℕ
  pub buf : List Sample
  pub buf_start : ℕ
  pub buf_len : ℕ
  pub primary_eof : Bool
  pub pending_err : Option ReadErr
  pub fading : Bool
  pub fade_total : ℕ
  pub fade_pos : ℕ

-- Where a read waits for a source.
pub data ReadPath : Type 0 where
  direct crossfade : ReadPath

pub data Outcome (Sample : Type 0) : Type 0 where
  returned : List Sample → Option ReadErr → Outcome Sample
  blocked : ReadPath → Outcome Sample

abbrev pub is_handle : Option ℕ → Option ℕ → Bool
is_handle none none = true
is_handle (some a) (some b) = a == b
is_handle a b = false

module _ {Sample : Type 0} where
  abbrev pub slot : Bool → Switching Sample → Option ℕ
  slot b s = if b then s.source_true else s.source_false

  abbrev pub put_slot : Bool → Option ℕ → Switching Sample → Switching Sample
  put_slot b o s = if b then record s { source_true = o } else record s { source_false = o }

  abbrev pub primary : Switching Sample → Option ℕ
  primary s = slot s.which s

  abbrev pub secondary : Switching Sample → Option ℕ
  secondary s = slot (not s.which) s

  abbrev repeat : ℕ → Sample → List Sample
  repeat zero x = []
  repeat (suc n) x = x ∷ repeat n x

  -- `NewSwitchingAudioSource`, for a length that is not negative.
  unfoldable pub new_switching : Sample → ℕ → Switching Sample
  new_switching silence n =
      let whole = n - n % channels in
      record {
        source_true = none;
        source_false = none;
        which = false;
        done = false;
        eof_reported = false;
        crossfade_samples = whole;
        buf = if ltb 0 whole then repeat (whole + lookahead_headroom) silence else [];
        buf_start = 0;
        buf_len = 0;
        primary_eof = false;
        pending_err = none;
        fading = false;
        fade_total = 0;
        fade_pos = 0;
      }

  unfoldable pub finish_fade : Switching Sample → Switching Sample
  finish_fade s = record s {
    fading = false;
    fade_total = 0;
    fade_pos = 0;
    buf_start = 0;
    buf_len = 0;
    primary_eof = false;
  }

  unfoldable pub reset_crossfade : Switching Sample → Switching Sample
  unfolding finish_fade
  reset_crossfade s =
      if s.crossfade_samples == 0 then s else finish_fade (record s { pending_err = none })

  unfoldable pub set_primary : Option ℕ → Switching Sample → Switching Sample
  unfolding reset_crossfade
  set_primary source s =
      let s₁ =
        if is_handle (primary s) source
        then s
        else put_slot (reset_crossfade s).which source (reset_crossfade s) in
      let s₂ = if is_handle (secondary s₁) source then put_slot (not s₁.which) none s₁ else s₁ in
      record s₂ { eof_reported = false }

  unfoldable pub set_secondary : Option ℕ → Switching Sample → Switching Sample
  set_secondary source s = put_slot (not s.which) source s

  unfoldable pub report_done : Switching Sample → Switching Sample
  report_done s = if s.eof_reported then s else record s { eof_reported = true; done = true }

  -- The current source gives way to the other one.
  unfoldable pub switch : Switching Sample → Switching Sample
  switch s = let s' = put_slot s.which none s in record s' { which = not s'.which }

  -- Where a read into the ring starts, and how many samples fit there in one piece.
  unfoldable pub free_start : Switching Sample → ℕ
  free_start s = (s.buf_start + s.buf_len) % length s.buf

  unfoldable pub free_chunk : Switching Sample → ℕ
  unfolding free_start
  free_chunk s = min (free_start s + (length s.buf - s.buf_len)) (length s.buf) - free_start s

  -- A list over another one, from a position on.
  abbrev pub overwrite : List Sample → ℕ → List Sample → List Sample
  overwrite buf i [] = buf
  overwrite buf i (x ∷ xs) = overwrite (set buf i x) (i + 1) xs

  -- The rounds of `popChunk`; a round copies a sample at least, so `want` is enough fuel.
  unfoldable pub pop_loop :
      ℕ → ℕ → List Sample → Switching Sample → Run (Switching Sample × List Sample)
  pop_loop zero want out s = if ltb (length out) want then out_of_fuel else ok (s, out)
  pop_loop (suc f) want out s =
      let size = length s.buf in
      let end =
        min
          (min (s.buf_start + (want - length out))
            (min (size - s.buf_start + s.buf_start) (s.buf_start + s.buf_len)))
          size in
      let piece = take (end - s.buf_start) (drop s.buf_start s.buf) in
      let more = pop_loop f want (out ++ piece) (record s {
        buf_start = (s.buf_start + length piece) % size;
        buf_len = s.buf_len - length piece;
      }) in
      if ltb (length out) want then more else ok (s, out)

  -- For a buffer of `n` samples.
  unfoldable pub pop_chunk : ℕ → ℕ → Switching Sample → Run (Switching Sample × List Sample)
  unfolding pop_loop
  pop_chunk n limit s =
      let want = min n (min limit s.buf_len) in
      pop_loop (want - want % channels) (want - want % channels) [] s

module _ (F : Floats) where
  open F use {Sample}

  unfoldable pub clamp : Sample → Sample
  clamp x =
      if F.lt F.max_sample_value x
      then F.max_sample_value
      else if F.lt x F.minus_one
      then F.minus_one
      else x

  -- A sample of the tail over one that comes in, if there is one.
  unfoldable pub mix_sample : ℕ → ℕ → Sample → Option Sample → Sample
  unfolding clamp
  mix_sample pos total old incoming =
      let faded = F.mul old (F.gain_out pos total) in
      clamp (elim incoming [ none ↦ faded | some x ↦ F.add faded (F.mul x (F.gain_in pos total)) ])

  -- The samples from the `k`th on of a chunk that is faded.
  unfoldable pub mix_loop : ℕ → ℕ → List Sample → Switching Sample → Run (List Sample)
  unfolding mix_sample
  mix_loop zero k incoming s = ok []
  mix_loop (suc n) k incoming s =
      or_panic (get_elem? s.buf ((s.buf_start + k) % length s.buf)) >>= λ old.
      mix_loop n (k + 1) incoming s >>= λ rest.
      ok (
        mix_sample (s.fade_pos + (k - k % channels)) s.fade_total old (get_elem? incoming k) ∷ rest)
