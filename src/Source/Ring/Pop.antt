-- ===== src/Source/Ring/Pop.antt =====
-- player/source.go: `popChunk` takes the oldest samples of the ring.
use go_librespot_termux.Prelude.{
  ℕ, zero, suc, ◌+◌, ◌-◌, ◌%◌, ◌≡◌, ◌≤◌, ◌<◌, sym, ap, ap₂, ◌∙◌, List, [], ◌++◌, append_assoc,
  append-nil, arith, ltb, ltb→lt, ltb-false→le, le→ltb-false, Bool-cases, inl, inr, if_true,
  if_false, if◌then◌else◌, length, length-append, length-take, length-drop, take, drop, min, ok,
  out_of_fuel,
}
use native.Mathlib.Nat.{mod-add-mod, mod-eq_of_lt}
use go_librespot_termux.Source.{channels, Switching, pop_loop, pop_chunk}
use go_librespot_termux.Source.Ring.{
  window, contents, IsRing, length-window, window-piece, advance, oldest, advance-IsRing,
  contents-advance,
}

round_end :
    (size start len want got k : ℕ)
    → want ≡ got + k
    → start < size
    → k ≤ len
    → len ≤ size
    → min (min (start + (want - got)) (min (size - start + start) (start + len))) size - start
      ≡ min k (size - start)
round_end size start len want got k w h l m = omega arith

module _ {Sample : Type 0} where
  -- What a round copies.
  piece : ℕ → Switching Sample → ℕ
  piece k s = min k (length s.buf - s.buf_start)

  oldest-piece :
      (k : ℕ) (s : Switching Sample)
      → IsRing s
      → k ≤ s.buf_len
      → take (piece k s) (drop s.buf_start s.buf) ++ oldest (k - piece k s) (advance (piece k s) s)
        ≡ oldest k s
  unfolding piece
  oldest-piece k s r h = sym (
      ap (window s.buf (length s.buf) s.buf_start) {x = k} {y = piece k s + (k - piece k s)}
        (omega arith)
      ∙ window-piece s.buf s.buf_start (piece k s) (k - piece k s) r.start_in
          (omega (arith, r.start_in)))

  length-piece :
      (k : ℕ) (s : Switching Sample)
      → length (take (piece k s) (drop s.buf_start s.buf)) ≡ piece k s
  unfolding piece
  length-piece k s =
      omega (arith, length-take (piece k s) (drop s.buf_start s.buf), length-drop s.buf_start s.buf)

  advance-advance : (a b : ℕ) (s : Switching Sample) → advance b (advance a s) ≡ advance (a + b) s
  advance-advance a b s =
      ap₂ (λ x y. record s { buf_start = x; buf_len = y })
        (mod-add-mod (s.buf_start + a) (length s.buf) b
          ∙ ap (λ k. k % length s.buf) {x = s.buf_start + a + b} {y = s.buf_start + (a + b)}
              (omega arith))
        (omega arith)

  pop-none :
      (k : ℕ) (out : List Sample) (s : Switching Sample)
      → k ≡ 0
      → IsRing s
      → pop_loop 0 (length out) out s ≡ ok (advance k s, out ++ oldest k s)
  unfolding pop_loop
  pop-none k out s z r =
      if_false (ltb (length out) (length out)) _ _ (le→ltb-false _ _ (omega arith))
      ∙ ap₂ (λ (a : Switching Sample) (b : List Sample). ok (a, b))
          (ap₂ (λ x y. record s { buf_start = x; buf_len = y })
            (sym (
              ap (λ a. a % length s.buf) {x = s.buf_start + k} {y = s.buf_start} (omega arith)
              ∙ mod-eq_of_lt r.start_in))
            (omega arith))
          (sym (ap (λ a. out ++ oldest a s) z ∙ append-nil out))

  -- Nothing is left to copy.
  pop_loop-end :
      (f want : ℕ) (out : List Sample) (s : Switching Sample)
      → want ≡ length out
      → pop_loop f want out s ≡ pop_loop 0 (length out) out s
  unfolding pop_loop
  pop_loop-end zero want out s w =
      ap (λ k. if ltb (length out) k then out_of_fuel else ok (s, out)) w
  pop_loop-end (suc f) want out s w =
      if_false (ltb (length out) want) _ _ (le→ltb-false _ _ (omega arith))
      ∙ sym (if_false (ltb (length out) (length out)) _ _ (le→ltb-false _ _ (omega arith)))

  pop_loop_lem :
      (f want k : ℕ) (out : List Sample) (s : Switching Sample)
      → want ≡ length out + k
      → k ≤ f
      → k ≤ s.buf_len
      → IsRing s
      → pop_loop f want out s ≡ ok (advance k s, out ++ oldest k s)
  unfolding pop_loop piece
  pop_loop_lem zero want k out s w hf hl r =
      pop_loop-end 0 want out s (omega arith) ∙ pop-none k out s (omega arith) r
  pop_loop_lem (suc f) want k out s w hf hl r = elim (Bool-cases (ltb (length out) want)) [
    | inr n ↦
        let none_left = ltb-false→le _ _ n in
        pop_loop-end (suc f) want out s (omega arith) ∙ pop-none k out s (omega arith) r
    | inl y ↦
        let pos = ltb→lt _ _ y in
        let c = piece k s in
        let step = λ (a : ℕ).
          λ (b : ℕ). pop_loop f want (out ++ take a (drop s.buf_start s.buf)) (advance b s) in
        if_true (ltb (length out) want) _ _ y
        ∙ (ap (λ a. step a (length (take a (drop s.buf_start s.buf))))
              (round_end (length s.buf) s.buf_start s.buf_len want (length out) k w r.start_in hl
                r.len_in)
            ∙ (ap (step c) (length-piece k s)
                ∙ (pop_loop_lem f want (k - c) (out ++ take c (drop s.buf_start s.buf))
                      (advance c s)
                      (omega (
                        arith,
                        length-append out (take c (drop s.buf_start s.buf)),
                        length-piece k s,
                      ))
                      (omega (arith, r.start_in)) (omega arith) (advance-IsRing c s r)
                    ∙ ap₂ (λ (a : Switching Sample) (b : List Sample). ok (a, b))
                        (advance-advance c (k - c) s
                          ∙ ap (λ x. advance x s) {x = c + (k - c)} {y = k} (omega arith))
                        (append_assoc out (take c (drop s.buf_start s.buf))
                            (oldest (k - c) (advance c s))
                          ∙ ap (λ x. out ++ x) (oldest-piece k s r hl)))))
  ]

  -- How many samples `popChunk` takes.
  abbrev pub pop_size : ℕ → ℕ → Switching Sample → ℕ
  pop_size n limit s = min n (min limit s.buf_len) - min n (min limit s.buf_len) % channels

  -- `popChunk` on a ring in order returns the oldest samples, whole frames, no more than the buffer takes,
  -- the limit allows and the ring holds, and leaves the ring with all the others.
  pub pop_chunk-advance :
      (n limit : ℕ) (s : Switching Sample)
      → IsRing s
      → (pop_chunk n limit s ≡ ok (advance (pop_size n limit s) s, oldest (pop_size n limit s) s))
        × (contents s ≡ oldest (pop_size n limit s) s ++ contents (advance (pop_size n limit s) s))
        × (length (oldest (pop_size n limit s) s) ≡ pop_size n limit s)
        × IsRing (advance (pop_size n limit s) s)
  unfolding pop_chunk
  pop_chunk-advance n limit s r =
      let k = pop_size n limit s in
      (
        pop_loop_lem k k k [] s (omega arith) (omega arith) (omega arith) r,
        contents-advance k s r (omega arith),
        length-window s.buf s.buf_start k r.start_in,
        advance-IsRing k s r,
      )
