-- ===== src/Source/Read.antt =====
-- player/source.go: the read paths of the switching source, and its position.
use go_librespot_termux.Prelude.{
  ℕ, zero, suc, ◌+◌, ◌-◌, ◌*◌, ◌/◌, ◌%◌, Bool, true, false, not, ◌&&◌, ◌||◌, List, [], Option, none,
  some, ltb, leb, ◌==◌, if◌then◌else◌, length, take, min, Run, ok, panic, out_of_fuel, ◌>>=◌,
}
use go_librespot_termux.Source.{
  channels, sample_rate, scratch_size, ReadErr, eof, failed, Floats, Sources, Switching, ReadPath,
  direct, crossfade, Outcome, returned, blocked, primary, secondary, finish_fade, reset_crossfade,
  report_done, switch, free_start, free_chunk, overwrite, pop_chunk, mix_loop,
}

abbrev pub is_none : Option ReadErr → Bool
is_none none = true
is_none (some e) = false

abbrev pub has_source : Option ℕ → Bool
has_source none = false
has_source (some h) = true

module _ {Sample : Type 0} where
  -- What the end of the current track or a failure does to the ring.
  unfoldable pub note_error : Option ReadErr → Switching Sample → Switching Sample
  note_error none s = s
  note_error (some eof) s = record s {
    buf_len = s.buf_len - s.buf_len % channels;
    primary_eof = true;
  }
  note_error (some (failed e)) s = record s { pending_err = some (failed e) }

  -- The answer of a source, in the ring.
  unfoldable pub received :
      {W : Type 0} → Switching Sample → W × List Sample × Option ReadErr → Switching Sample × W
  unfolding note_error free_start
  received s (w, xs, e) = (
    note_error e
        (record s { buf = overwrite s.buf (free_start s) xs; buf_len = s.buf_len + length xs }),
    w,
  )

  -- The current track is being decoded, as far as the ring knows.
  abbrev pub decoding : Switching Sample → Bool
  decoding s = not s.primary_eof && is_none s.pending_err

  abbrev pub wants_more : ℕ → Switching Sample → Bool
  wants_more budget s =
      decoding s && (ltb s.buf_len (length s.buf) && (s.buf_len == 0 || ltb 0 budget))

  unfoldable pub fade_want : ℕ → Switching Sample → ℕ
  fade_want n s =
      let want = min n (min (s.fade_total - s.fade_pos) scratch_size) in want - want % channels

  -- The tail of the current track fades out over the next one, which becomes the current one.
  unfoldable pub start_fade : Switching Sample → Switching Sample
  unfolding report_done switch
  start_fade s =
      let s' = switch (report_done s) in
      record s' { fading = true; fade_total = s.buf_len; fade_pos = 0 }

  unfoldable pub serve_limit : ℕ → Switching Sample → ℕ
  serve_limit n s =
      let above = s.buf_len - s.crossfade_samples in if above == 0 then min s.buf_len n else above

abbrev pub Result : Type 0 → Type 0 → Type 0
Result Sample W = Run (Switching Sample × W × Outcome Sample)

module _ {Sample W : Type 0} where
  abbrev pub popped : ℕ → ℕ → Switching Sample → W → Result Sample W
  popped n limit s w = pop_chunk n limit s >>= λ (s', out). ok (s', w, returned out none)

  -- The tail, with no track to fade into.
  unfoldable pub drain : ℕ → Switching Sample → W → Result Sample W
  unfolding report_done
  drain n s w =
      let rest = pop_chunk n s.buf_len s >>= λ (s', out). ok (
        if s'.buf_len == 0
        then (report_done s', w, returned out (some eof))
        else (s', w, returned out none)) in
      if s.buf_len == 0 then ok (report_done s, w, returned [] (some eof)) else rest

  -- After a read that failed: what is buffered goes first.
  unfoldable pub deliver_error : ℕ → ReadErr → Switching Sample → W → Result Sample W
  deliver_error n e s w =
      if ltb 0 s.buf_len
      then popped n s.buf_len s w
      else ok (record s { pending_err = none }, w, returned [] (some e))

  unfoldable pub direct_with :
      Switching Sample → W × List Sample × Option ReadErr → Switching Sample × W × Outcome Sample
  unfolding report_done switch
  direct_with s (w, xs, none) = (s, w, returned xs none)
  direct_with s (w, xs, some (failed e)) = (s, w, returned xs (some (failed e)))
  direct_with s (w, xs, some eof) =
      if has_source (secondary s)
      then (switch (report_done s), w, returned xs none)
      else (report_done s, w, returned xs (some eof))

module _ {Sample W : Type 0} (S : Sources Sample W) where
  -- A round takes a sample at least from a source that does not stall, so the free places are enough
  -- fuel, with one for a round that finds the end.
  unfoldable pub refill_loop : ℕ → ℕ → Switching Sample → W → Run (Switching Sample × W)
  unfolding received free_chunk
  refill_loop zero budget s w = if wants_more budget s then out_of_fuel else ok (s, w)
  refill_loop (suc f) budget s w =
      let round = λ (h : ℕ).
        let answer = S.read h (min (free_chunk s) scratch_size) w in
        let (s', w') = received s answer in refill_loop f (budget - length answer.1) s' w' in
      let more = elim (primary s) as (λ _. Run (Switching Sample × W)) [
        | none ↦ panic
        | some h ↦ round h
      ] in
      if wants_more budget s then more else ok (s, w)

  unfoldable pub refill : Switching Sample → W → Run (Switching Sample × W)
  unfolding refill_loop
  refill s w = refill_loop (suc (length s.buf)) (2 * scratch_size) s w

  unfoldable pub read_direct : ℕ → Switching Sample → W → Switching Sample × W × Outcome Sample
  unfolding direct_with
  read_direct n s w = elim (primary s) [
    | none ↦ (s, w, blocked direct)
    | some h ↦ direct_with s (S.read h n w)
  ]

  unfoldable pub primary_declines_crossfade : Switching Sample → W → Bool
  primary_declines_crossfade s w =
      not (s.fading || ltb 0 s.buf_len || s.primary_eof)
      && (elim (primary s) [ none ↦ false | some h ↦ S.no_crossfade h w ])

  -- `SetPositionMs`: false is an error of the source.
  unfoldable pub set_position_ms : ℕ → Switching Sample → W → Switching Sample × W × Bool
  unfolding reset_crossfade
  set_position_ms pos s w = elim (primary s) [
    | none ↦ (s, w, true)
    | some h ↦
        let s' = reset_crossfade s in
        let (w', fine) = S.set_position_ms h pos w in
        (
          if fine && ltb 0 s.crossfade_samples then record s' { eof_reported = false } else s',
          w',
          fine,
        )
  ]

  unfoldable pub position_ms : Switching Sample → W → ℕ
  position_ms s w = elim (primary s) [
    | none ↦ 0
    | some h ↦
        if ltb 0 s.crossfade_samples && not s.fading
        then S.position_ms h w - s.buf_len / channels * 1000 / sample_rate
        else S.position_ms h w
  ]

module _ (F : Floats) {W : Type 0} (S : Sources F.Sample W) where
  open F use {Sample}

  -- What `readFade` does once the incoming side is read: `xs` are whole frames.
  unfoldable pub fade_chunk : ℕ → List Sample → Switching Sample → W → Result Sample W
  unfolding mix_loop finish_fade
  fade_chunk want xs s w =
      let chunk = if ltb 0 (length xs) then length xs else want in
      mix_loop F chunk 0 xs s >>= λ out.
      let s' = record s {
        buf_start = (s.buf_start + chunk) % length s.buf;
        buf_len = s.buf_len - chunk;
        fade_pos = s.fade_pos + chunk;
      } in
      ok (if leb s'.fade_total s'.fade_pos then finish_fade s' else s', w, returned out none)

  unfoldable pub fade_with :
      ℕ → Switching Sample → W × List Sample × Option ReadErr → Result Sample W
  unfolding fade_chunk
  fade_with want s (w, xs, some (failed e)) = ok (s, w, returned [] (some (failed e)))
  fade_with want s (w, xs, none) = fade_chunk want (take (length xs - length xs % channels) xs) s w
  fade_with want s (w, xs, some eof) =
      fade_chunk want (take (length xs - length xs % channels) xs) s w

  unfoldable pub read_fade : ℕ → Switching Sample → W → Result Sample W
  unfolding fade_with fade_want
  read_fade n s w =
      let want = fade_want n s in
      if want == 0 then ok (finish_fade s, w, returned [] none) else (elim (primary s) [
        | none ↦ fade_chunk want [] s w
        | some h ↦ fade_with want s (S.read h want w)
      ])

  -- After the end of the current track.
  unfoldable pub at_end : ℕ → Switching Sample → W → Result Sample W
  unfolding drain start_fade read_fade
  at_end n s w = elim (secondary s) [
    | none ↦ drain n s w
    | some h ↦
        if ltb s.crossfade_samples s.buf_len
        then popped n (s.buf_len - s.crossfade_samples) s w
        else read_fade n (start_fade s) w
  ]

  unfoldable pub serve : ℕ → Switching Sample → W → Result Sample W
  unfolding at_end deliver_error serve_limit
  serve n s w = if s.primary_eof then at_end n s w else (elim s.pending_err [
    | none ↦ popped n (serve_limit n s) s w
    | some e ↦ deliver_error n e s w
  ])

  unfoldable pub read_crossfade : ℕ → Switching Sample → W → Result Sample W
  unfolding refill serve read_fade
  read_crossfade n s w =
      if s.fading
      then read_fade n s w
      else if not (has_source (primary s)) && not (s.primary_eof && ltb 0 s.buf_len)
      then ok (s, w, blocked crossfade)
      else (refill S s w >>= λ (s', w'). serve n s' w')

  -- `Read`, from where it waited.
  unfoldable pub resume : ReadPath → ℕ → Switching Sample → W → Result Sample W
  unfolding read_direct read_crossfade
  resume direct n s w = ok (read_direct S n s w)
  resume crossfade n s w = read_crossfade n s w

  unfoldable pub read : ℕ → Switching Sample → W → Result Sample W
  unfolding resume primary_declines_crossfade
  read n s w =
      if s.crossfade_samples == 0 || primary_declines_crossfade S s w
      then resume direct n s w
      else resume crossfade n s w
