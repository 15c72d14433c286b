-- ===== src/Source/Refill.antt =====
-- player/source.go: the refill of the ring, which keeps all that the source gives, in order.
pub mod Room
use go_librespot_termux.Prelude.{
  ℕ, zero, suc, ◌+◌, ◌-◌, ◌%◌, ◌≡◌, ◌≢◌, ◌≤◌, ◌<◌, refl, sym, ap, ◌∙◌, Bool, true, false, not, ◌&&◌,
  ◌||◌, List, [], ◌∷◌, ◌++◌, append_assoc, append-nil, Option, none, some, arith, ltb, ltb→lt,
  Bool-cases, Option-cases, inl, inr, if_true, if_false, length, take, min, Run, ok, panic,
}
use go_librespot_termux.Source.{
  channels, scratch_size, ReadErr, eof, failed, Sources, Switching, primary, free_start, free_chunk,
  overwrite,
}
use go_librespot_termux.Source.Read.{note_error, received, decoding, wants_more, refill_loop}
use go_librespot_termux.Source.Ring.{
  window, contents, IsRing, length-window, length-contents, window-overwrite, window-split, mod_in,
}
use go_librespot_termux.Source.Refill.Room.{
  frames, held, room, filled, filled-contents, take-append, take-window, note_error-contents,
  and_true, or_false,
}

module _ {Sample W : Type 0} (S : Sources Sample W) where
  -- The contract of a source: no more than fits the buffer, and something or an error for one that is not
  -- empty.
  pub record KeepsContract : Type 0 where
    pub within : (h n : ℕ) (w : W) → length (S.read h n w).1 ≤ n
    pub moves : (h n : ℕ) (w : W) → 0 < n → (S.read h n w).2 ≡ none → 0 < length (S.read h n w).1

  -- Reads of one source, the samples that they give, and the error that ends them, if there is one.
  pub data Draws (h : ℕ) : W → List Sample → Option ReadErr → W → Type 0 where
    no_read : (w : W) → Draws h w [] none w
    read_on :
        (n : ℕ) (w v : W) (xs : List Sample) (e : Option ReadErr)
        → (S.read h n w).2 ≡ none
        → Draws h (S.read h n w).0 xs e v
        → Draws h w ((S.read h n w).1 ++ xs) e v
    read_end :
        (n : ℕ) (w : W)
        → (S.read h n w).2 ≢ none
        → Draws h w (S.read h n w).1 (S.read h n w).2 (S.read h n w).0

  -- What a refill does: the ring holds what it held and what the reads gave, and how these ended is
  -- noted; nothing else changes.
  pub record Fills (h : ℕ) (s : Switching Sample) (w : W) (s' : Switching Sample) (w' : W)
      : Type 0 where
    pub buf : List Sample
    pub len : ℕ
    pub drawn : List Sample
    pub err : Option ReadErr
    pub shape : s' ≡ note_error err (record s { buf = buf; buf_len = len })
    pub size : length buf ≡ length s.buf
    pub ring : IsRing (record s { buf = buf; buf_len = len })
    pub all : contents (record s { buf = buf; buf_len = len }) ≡ contents s ++ drawn
    pub draws : Draws h w drawn err w'
    pub enough : err ≡ none → decoding s ≡ true → 0 < len

  refill_stop :
      (f budget : ℕ) (s : Switching Sample) (w : W)
      → wants_more budget s ≡ false
      → refill_loop S f budget s w ≡ ok (s, w)
  unfolding refill_loop
  refill_stop zero budget s w e = if_false (wants_more budget s) _ _ e
  refill_stop (suc f) budget s w e = if_false (wants_more budget s) _ _ e

  -- A ring that wants nothing while its track is decoded holds a sample.
  holds_some :
      (budget : ℕ) (s : Switching Sample)
      → IsRing s
      → wants_more budget s ≡ false
      → decoding s ≡ true
      → 0 < s.buf_len
  holds_some budget s r e d = ground (arith, r.start_in, e, d)

  -- The answer of a source goes into the ring.
  answered :
      (c : KeepsContract) (h : ℕ) (s : Switching Sample) (w : W)
      → IsRing s
      → length (S.read h (min (free_chunk s) scratch_size) w).1 ≤ free_chunk s
  answered c h s w r = omega (arith, c.within h (min (free_chunk s) scratch_size) w)

  moved :
      (c : KeepsContract) (h : ℕ) (s : Switching Sample) (w : W)
      → IsRing s
      → (budget : ℕ) → wants_more budget s ≡ true
      → (S.read h (min (free_chunk s) scratch_size) w).2 ≡ none
      → 0 < length (S.read h (min (free_chunk s) scratch_size) w).1
  moved c h s w r budget e go =
      let (_, k) = and_true (decoding s) _ e in
      let (k₁, _) = and_true (ltb s.buf_len (length s.buf)) _ k in
      c.moves h (min (free_chunk s) scratch_size) w (omega (arith, (room s r).2 (ltb→lt _ _ k₁))) go

  noted :
      (o : Option ReadErr) (x : ReadErr)
      → o ≡ some x
      → (budget : ℕ) (s : Switching Sample) → wants_more budget (note_error o s) ≡ false
  unfolding note_error
  noted none x e budget s = absurd (cc)
  noted (some eof) x e budget s = refl
  noted (some (failed k)) x e budget s = and_false (not s.primary_eof) _
    where
      and_false : (a b : Bool) → ((a && false) && b) ≡ false
      and_false true b = refl
      and_false false b = refl

  refill_step :
      (f budget h : ℕ) (s : Switching Sample) (w : W)
      → wants_more budget s ≡ true
      → primary s ≡ some h
      → let a = S.read h (min (free_chunk s) scratch_size) w in
        refill_loop S (suc f) budget s w
        ≡ refill_loop S f (budget - length a.1) (note_error a.2 (filled a.1 s)) a.0
  unfolding refill_loop received filled
  refill_step f budget h s w e p =
      if_true (wants_more budget s) _ _ e
      ∙ ap
          (λ o. elim o as (λ _. Run (Switching Sample × W)) [
            | none ↦ panic
            | some h ↦
                refill_loop S f (budget - length (S.read h (min (free_chunk s) scratch_size) w).1)
                  (received s (S.read h (min (free_chunk s) scratch_size) w)).0
                  (received s (S.read h (min (free_chunk s) scratch_size) w)).1
          ])
          p

  Fills-on :
      (h : ℕ) (s : Switching Sample) (w : W) (s' : Switching Sample) (w' : W) (n : ℕ)
      → (S.read h n w).2 ≡ none
      → contents (filled (S.read h n w).1 s) ≡ contents s ++ (S.read h n w).1
      → length (filled (S.read h n w).1 s).buf ≡ length s.buf
      → Fills h (filled (S.read h n w).1 s) (S.read h n w).0 s' w'
      → Fills h s w s' w'
  unfolding filled
  Fills-on h s w s' w' n go grown size fl = record {
    buf = fl.buf;
    len = fl.len;
    drawn = (S.read h n w).1 ++ fl.drawn;
    err = fl.err;
    shape = fl.shape;
    size = fl.size ∙ size;
    ring = record { start_in = fl.ring.start_in; len_in = fl.ring.len_in };
    all =
        fl.all
        ∙ (ap (λ x. x ++ fl.drawn) grown ∙ append_assoc (contents s) (S.read h n w).1 fl.drawn);
    draws = read_on n w w' fl.drawn fl.err go fl.draws;
    enough = fl.enough;
  }

  Fills-end :
      (h : ℕ) (s : Switching Sample) (w : W) (n : ℕ)
      → (S.read h n w).2 ≢ none
      → contents (filled (S.read h n w).1 s) ≡ contents s ++ (S.read h n w).1
      → length (filled (S.read h n w).1 s).buf ≡ length s.buf
      → IsRing (filled (S.read h n w).1 s)
      → Fills h s w (note_error (S.read h n w).2 (filled (S.read h n w).1 s)) (S.read h n w).0
  unfolding filled
  Fills-end h s w n stop grown size ring = record {
    buf = (filled (S.read h n w).1 s).buf;
    len = (filled (S.read h n w).1 s).buf_len;
    drawn = (S.read h n w).1;
    err = (S.read h n w).2;
    shape = refl;
    size = size;
    ring = record { start_in = ring.start_in; len_in = ring.len_in };
    all = grown;
    draws = read_end n w stop;
    enough = λ z d. absurd (stop z);
  }

  pub refill_loop-Fills :
      (f budget h : ℕ) (s : Switching Sample) (w : W)
      → KeepsContract
      → IsRing s
      → primary s ≡ some h
      → length s.buf < f + s.buf_len
      → (s' : Switching Sample) × (w' : W) × (refill_loop S f budget s w ≡ ok (s', w'))
        × Fills h s w s' w'
  unfolding refill_loop filled
  refill_loop-Fills zero budget h s w c r p m = absurd (omega (arith, r.len_in))
  refill_loop-Fills (suc f) budget h s w c r p m = elim (Bool-cases (wants_more budget s)) [
    | inr e ↦ (
      s,
      w,
      if_false (wants_more budget s) _ _ e,
      record {
        buf = s.buf;
        len = s.buf_len;
        drawn = [];
        err = none;
        shape = refl;
        size = refl;
        ring = record { start_in = r.start_in; len_in = r.len_in };
        all = sym (append-nil (contents s));
        draws = no_read w;
        enough = λ _ d. holds_some budget s r e d;
      },
    )
    | inl e ↦
        let n = min (free_chunk s) scratch_size in
        let a = S.read h n w in
        let fits = answered c h s w r in
        let (grown, ring, size) = filled-contents a.1 s r fits in
        elim (Option-cases a.2) [
          | inl go ↦
              let (s', w', run, fills) =
                refill_loop-Fills f (budget - length a.1) h (filled a.1 s) a.0 c ring p
                  (omega (arith, size, moved c h s w r budget e go, m)) in
              (
                s',
                w',
                refill_step f budget h s w e p
                    ∙ (ap
                          (λ o.
                            refill_loop S f (budget - length a.1) (note_error o (filled a.1 s)) a.0)
                          go
                        ∙ run),
                Fills-on h s w s' w' n go grown size fills,
              )
          | inr (x, stop) ↦ (
            note_error a.2 (filled a.1 s),
            a.0,
            refill_step f budget h s w e p
                ∙ refill_stop f (budget - length a.1) (note_error a.2 (filled a.1 s)) a.0
                    (noted a.2 x stop (budget - length a.1) (filled a.1 s)),
            Fills-end h s w n (λ z. cc (sym stop ∙ z)) grown size ring,
          )
        ]
  ]
