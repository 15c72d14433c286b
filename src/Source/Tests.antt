-- ===== src/Source/Tests.antt =====
-- Runs of the switching source, and the theorems about it at concrete sources.
use go_librespot_termux.Prelude.{
  ℕ, zero, suc, ◌+◌, ◌-◌, ◌*◌, ◌≤◌, ◌<◌, ◌≡◌, ◌⊎◌, refl, true, false, List, [], ◌∷◌, ◌++◌, Option,
  none, some, arith, ltb, Bool-cases, inl, inr, length, take, drop, ◌==◌, if◌then◌else◌, ok,
  length-take,
}
use go_librespot_termux.Source.{
  ReadErr, eof, failed, Floats, Sources, Switching, crossfade, returned, blocked, primary,
  new_switching, finish_fade, reset_crossfade, set_primary, set_secondary, report_done, switch,
  free_start, free_chunk, pop_loop, pop_chunk, clamp, mix_sample, mix_loop,
}
use go_librespot_termux.Source.Read.{
  note_error, received, refill_loop, refill, fade_chunk, fade_with, fade_want, read_fade,
  start_fade, drain, at_end, deliver_error, serve_limit, serve, read_crossfade, direct_with,
  read_direct, primary_declines_crossfade, resume, read, set_position_ms, position_ms,
}
use go_librespot_termux.Source.Ring.{IsRing, contents, oldest, advance}
use go_librespot_termux.Source.Ring.Pop.{pop_size, pop_chunk-advance}
use go_librespot_termux.Source.Refill.{KeepsContract}
use go_librespot_termux.Source.Lossless.{ReadsOn, read_crossfade-ReadsOn}
use go_librespot_termux.Source.Fade.{Incoming, read_fade-Fades}
use go_librespot_termux.Source.Fade.Mix.{IsFade, Fades}
use go_librespot_termux.Source.Slots.{SetsPrimary, set_primary-SetsPrimary}

program : Unit {0}
unfolding new_switching finish_fade reset_crossfade set_primary set_secondary report_done switch
    free_start free_chunk pop_loop pop_chunk clamp mix_sample mix_loop note_error received
    refill_loop refill fade_chunk fade_with fade_want read_fade start_fade drain at_end
    deliver_error serve_limit serve read_crossfade direct_with read_direct
    primary_declines_crossfade resume read set_position_ms position_ms
program = tt

-- Samples that are numbers; a fade halves at its end.
abbrev floats : Floats
floats = record {
  Sample = ℕ;
  silence = 0;
  mul = ◌*◌;
  add = ◌+◌;
  lt = ltb;
  minus_one = 0;
  max_sample_value = 100;
  gain_out = λ pos total. total - pos;
  gain_in = λ pos total. pos;
}

-- Two tracks: what each still holds.
abbrev Tracks : Type 0
Tracks = List ℕ × List ℕ

abbrev ended : List ℕ → Option ReadErr
ended [] = some eof
ended (x ∷ xs) = none

abbrev sources : Sources ℕ Tracks
sources = record {
  read = λ h n w.
      if h == 0
      then (((drop n w.0, w.1), take n w.0, ended w.0))
      else (((w.0, drop n w.1), take n w.1, ended w.1));
  no_crossfade = λ h w. h == 7;
  set_position_ms = λ h pos w. (w, true);
  position_ms = λ h w. 0;
}

-- A ring for a crossfade of four samples, with little headroom.
abbrev small : Switching ℕ
small = record {
  source_true = none;
  source_false = some 0;
  which = false;
  done = false;
  eof_reported = false;
  crossfade_samples = 4;
  buf = 0 ∷ 0 ∷ 0 ∷ 0 ∷ 0 ∷ 0 ∷ [];
  buf_start = 4;
  buf_len = 0;
  primary_eof = false;
  pending_err = none;
  fading = false;
  fade_total = 0;
  fade_pos = 0;
}

abbrev tracks : Tracks
tracks = (1 ∷ 2 ∷ 3 ∷ 4 ∷ 5 ∷ 6 ∷ 7 ∷ 8 ∷ [], 10 ∷ 20 ∷ 30 ∷ 40 ∷ 50 ∷ 60 ∷ [])

-- The ring goes round: it holds six samples, and two are above the crossfade.
first :
    read floats sources 4 small tracks
    ≡ ok (
      record small { buf = 3 ∷ 4 ∷ 5 ∷ 6 ∷ 1 ∷ 2 ∷ []; buf_start = 0; buf_len = 4 },
      (7 ∷ 8 ∷ [], tracks.1),
      returned (1 ∷ 2 ∷ []) none,
    )
unfolding program
first = refl

-- The tail of the first track under the start of the second.
abbrev tailing : Switching ℕ
tailing = record small {
  source_true = some 1;
  buf = 3 ∷ 4 ∷ 5 ∷ 6 ∷ 1 ∷ 2 ∷ [];
  buf_start = 2;
  buf_len = 4;
  primary_eof = true;
}

abbrev fading_now : Switching ℕ
fading_now = record tailing {
  source_false = none;
  which = true;
  done = true;
  eof_reported = true;
  fading = true;
  fade_total = 4;
  fade_pos = 0;
}

starts : start_fade tailing ≡ fading_now
unfolding program
starts = refl

fades_in :
    read floats sources 2 tailing ([], tracks.1)
    ≡ ok (
      record fading_now { buf_start = 4; buf_len = 2; fade_pos = 2 },
      ([], 30 ∷ 40 ∷ 50 ∷ 60 ∷ []),
      returned (20 ∷ 24 ∷ []) none,
    )
unfolding program
fades_in = refl

-- A source that declines a crossfade is read directly, but not by a read that waited for it before.
waits :
    read floats sources 2 (record small { source_false = none }) tracks
    ≡ ok (record small { source_false = none }, tracks, blocked crossfade)
unfolding program
waits = refl

length-take-le : (n : ℕ) (xs : List ℕ) → length (take n xs) ≤ n
length-take-le n xs = omega (arith, length-take n xs)

take_some : (n : ℕ) (xs : List ℕ) → 0 < n → ended xs ≡ none → 0 < length (take n xs)
take_some n [] h e = absurd (cc)
take_some zero (x ∷ xs) h e = absurd (omega arith)
take_some (suc n) (x ∷ xs) h e = omega arith

sources-KeepsContract : KeepsContract sources
sources-KeepsContract = record {
  within = λ h n w. elim (Bool-cases (h == 0)) [
    | inl e ↦ rw e (length-take-le n w.0)
    | inr e ↦ rw e (length-take-le n w.1)
  ];
  moves = λ h n w pos go. elim (Bool-cases (h == 0)) [
    | inl e ↦ rw e (take_some n w.0 pos (rw e at go))
    | inr e ↦ rw e (take_some n w.1 pos (rw e at go))
  ];
}

small-IsRing : IsRing small
small-IsRing = record { start_in = omega arith; len_in = omega arith }

tailing-IsRing : IsRing tailing
tailing-IsRing = record { start_in = omega arith; len_in = omega arith }

pop_chunk-advance_example :
    (pop_chunk 2 3 tailing
      ≡ ok (advance (pop_size 2 3 tailing) tailing, oldest (pop_size 2 3 tailing) tailing))
    × (contents tailing
        ≡ oldest (pop_size 2 3 tailing) tailing
          ++ contents (advance (pop_size 2 3 tailing) tailing))
    × (length (oldest (pop_size 2 3 tailing) tailing) ≡ pop_size 2 3 tailing)
    × IsRing (advance (pop_size 2 3 tailing) tailing)
pop_chunk-advance_example = pop_chunk-advance 2 3 tailing tailing-IsRing

read_crossfade-ReadsOn_example :
    ReadsOn floats sources 4 0 small tracks (read_crossfade floats sources 4 small tracks)
read_crossfade-ReadsOn_example =
    read_crossfade-ReadsOn floats sources 4 0 small tracks sources-KeepsContract small-IsRing refl
      refl

fading_now-IsFade : IsFade floats fading_now
fading_now-IsFade = record {
  ring = record { start_in = omega arith; len_in = omega arith };
  tail = omega arith;
}

read_fade-Fades_example :
    ((s' : Switching ℕ) × (w' : Tracks) × (out incoming : List ℕ) × (read_fade floats sources 2
          fading_now tracks
        ≡ ok (s', w', returned out none))
      × Fades floats 2 fading_now s' out incoming
      × Incoming floats sources 2 fading_now tracks incoming w')
    ⊎ ((h x : ℕ) × (primary fading_now ≡ some h)
        × ((sources.read h (fade_want 2 fading_now) tracks).2 ≡ some (failed x))
        × (read_fade floats sources 2 fading_now tracks
            ≡ ok (
              fading_now,
              (sources.read h (fade_want 2 fading_now) tracks).0,
              returned [] (some (failed x)),
            )))
read_fade-Fades_example =
    read_fade-Fades floats sources 2 fading_now tracks sources-KeepsContract (omega arith)
      fading_now-IsFade

set_primary-SetsPrimary_example : SetsPrimary 1 fading_now (set_primary (some 1) fading_now)
set_primary-SetsPrimary_example = set_primary-SetsPrimary 1 fading_now
