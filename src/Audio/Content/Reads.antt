-- ===== src/Audio/Content/Reads.antt =====
-- audio/chunked-reader.go: what a read returns is what the file holds.
use go_librespot_termux.Prelude.{
  ℕ, zero, suc, ◌+◌, ◌-◌, ◌*◌, ◌/◌, ◌%◌, ◌≤◌, ◌<◌, ◌≡◌, refl, ap, sym, ◌∙◌, subst, ◌||◌, ◌==◌,
  ==_iff, Bool-cases, if_true, if_false, inl, inr, List, [], ◌++◌, append_assoc, append-nil, Option,
  none, some, arith, ltb, leb, ltb→lt, ltb-false→le, leb→le, length, length-append, length-take,
  length-drop, take, drop, min, Run, ok, >>=-eq-ok, ok-injective,
}
use go_librespot_termux.Audio.{
  ChunkedReader, ReadError, err_closed, eof, Fetched, Server, fetch_chunk, prefetch_loop,
  prefetch_chunks, copied, read_loop, read_at,
}
use go_librespot_termux.Audio.Pieces.{take-take, take-shorter}
use go_librespot_termux.Audio.Content.{
  chunk_of, Holds, rest_of-chunk, next_of-chunk, Brings, brings, fails, fetch_chunk-Holds,
}

module _ (size : ℕ) (file : List ℕ) where
  -- What a read from a position into a buffer of `n` bytes adds to the bytes read before.
  pub record Reads (from n : ℕ) (acc : List ℕ) (out : ChunkedReader × List ℕ × Option ReadError)
      : Type 0 where
    pub bytes : List ℕ
    pub whole : out.1 ≡ acc ++ bytes
    pub same : bytes ≡ take (length bytes) (drop from file)
    pub full : out.2 ≡ none → length bytes ≡ n
    pub ended : out.2 ≡ some eof → length file ≤ from + length bytes
    pub holds : Holds size file out.0

  Reads-none :
      (from n : ℕ) (acc : List ℕ) (r : ChunkedReader) (e : Option ReadError)
      → Holds size file r
      → (e ≡ none → 0 ≡ n)
      → (e ≡ some eof → length file ≤ from + 0)
      → Reads from n acc (r, acc, e)
  Reads-none from n acc r e h full end = record {
    bytes = [];
    whole = sym (append-nil acc);
    same = refl;
    full = full;
    ended = end;
    holds = h;
  }

  suc-mul : (i : ℕ) → suc i * size ≡ size + i * size
  suc-mul i = grind arith

  Reads-part :
      (idx off n : ℕ) (acc c : List ℕ) (r : ChunkedReader)
      → c ≡ take (size - off) (drop (idx * size + off) file)
      → n < length c
      → Holds size file r
      → Reads (idx * size + off) n acc (r, acc ++ take n c, none)
  Reads-part idx off n acc c r e lt h =
      let x = drop (idx * size + off) file in
      let small = ap length e ∙ length-take (size - off) x in
      let exact : length (take n c) ≡ n = omega (arith, length-take n c, lt) in
      record {
        bytes = take n c;
        whole = refl;
        same =
            ap (take n) e
            ∙ (take-shorter n (size - off) x (omega (arith, small, lt))
                ∙ ap (λ k. take k x) (sym exact));
        full = λ _. exact;
        ended = λ z. absurd (cc);
        holds = h;
      }

  Reads-next :
      (idx off n : ℕ) (acc c : List ℕ) (out : ChunkedReader × List ℕ × Option ReadError)
      → c ≡ take (size - off) (drop (idx * size + off) file)
      → off ≤ size
      → length c ≤ n
      → Reads (suc idx * size + 0) (n - length c) (acc ++ c) out
      → Reads (idx * size + off) n acc out
  Reads-next idx off n acc c out e le fits r =
      let x = drop (idx * size + off) file in
      let size_c = ap length e ∙ length-take (size - off) x in
      let size_x = length-drop (idx * size + off) file in
      let sum = length-append c r.bytes in
      let follows : r.bytes ≡ take (length r.bytes) (drop (size - off) x) =
        r.same ∙ ap (take (length r.bytes)) (sym (next_of-chunk size file idx off le)) in
      record {
        bytes = c ++ r.bytes;
        whole = r.whole ∙ append_assoc acc c r.bytes;
        same =
            subst (λ z. z ++ r.bytes ≡ take (length (z ++ r.bytes)) x) (sym e)
              (take-take (size - off) x r.bytes follows);
        full = λ z. omega (arith, sum, r.full z, fits);
        ended = λ z. omega (arith, sum, r.ended z, size_c, size_x, suc-mul idx, le);
        holds = r.holds;
      }

  copied-Reads :
      (again : ChunkedReader → ℕ → List ℕ → Run (ChunkedReader × List ℕ × Option ReadError))
      (idx off n : ℕ) (acc : List ℕ) (r : ChunkedReader) (y : Fetched)
      (out : ChunkedReader × List ℕ × Option ReadError)
      → off ≤ size
      → Holds size file r
      → Brings size file idx y
      → ((m : ℕ) (bs : List ℕ) → again r m bs ≡ ok out → Reads (suc idx * size + 0) m bs out)
      → copied again n off acc (r, y) ≡ ok out
      → Reads (idx * size + off) n acc out
  unfolding copied
  copied-Reads again idx off n acc r y out le h (fails e other) rest run =
      subst (Reads (idx * size + off) n acc) (ok-injective run) (
        Reads-none (idx * size + off) n acc r (some e) h (λ z. absurd (cc))
          (λ z. absurd (other (cc))))
  copied-Reads again idx off n acc r y out le h (brings d e) rest run =
      let c = drop (min off (length d)) d in
      let what = rest_of-chunk size file idx off d e in
      elim (Bool-cases (ltb n (length c))) [
        | inl k ↦
            subst (Reads (idx * size + off) n acc)
              (ok-injective (sym (if_true (ltb n (length c)) _ _ k) ∙ run))
              (Reads-part idx off n acc c r what (ltb→lt _ _ k) h)
        | inr k ↦
            Reads-next idx off n acc c out what le (ltb-false→le _ _ k)
              (rest (n - length c) (acc ++ c) (sym (if_false (ltb n (length c)) _ _ k) ∙ run))
      ]

  past_chunks : (a b : ℕ) → a ≤ b → a * size ≤ b * size
  past_chunks a b h = grind arith

  module _ (server : Server)
      (honest : (call i : ℕ) (d : List ℕ) → server call i ≡ some d → d ≡ chunk_of size file i) where
    read_loop-Reads :
        (f idx off n : ℕ) (r : ChunkedReader) (acc : List ℕ)
        (out : ChunkedReader × List ℕ × Option ReadError)
        → read_loop server f idx off r n acc ≡ ok out
        → Holds size file r
        → off ≤ size
        → Reads (idx * size + off) n acc out
    unfolding read_loop
    read_loop-Reads zero idx off n r acc out run h le = absurd (cc)
    read_loop-Reads (suc f) idx off n r acc out run h le = elim (Bool-cases (n == 0)) [
      | inl z ↦
          subst (Reads (idx * size + off) n acc) (ok-injective (sym (if_true (n == 0) _ _ z) ∙ run))
            (Reads-none (idx * size + off) n acc r none h (λ _. sym ((==_iff n 0).0 z))
              (λ e. absurd (cc)))
      | inr z ↦
          let run₁ = sym (if_false (n == 0) _ _ z) ∙ run in
          elim (Bool-cases (leb (length r.chunks) idx)) [
            | inl k ↦
                subst (Reads (idx * size + off) n acc)
                  (ok-injective (sym (if_true (leb (length r.chunks) idx) _ _ k) ∙ run₁))
                  (Reads-none (idx * size + off) n acc r (some eof) h (λ e. absurd (cc))
                    (λ _.
                      omega (arith, h.enough, past_chunks (length r.chunks) idx (leb→le _ _ k))))
            | inr k ↦
                let run₂ = sym (if_false (leb (length r.chunks) idx) _ _ k) ∙ run₁ in
                let (x, fetched_x, then_x) = >>=-eq-ok (fetch_chunk server idx r) _ run₂ in
                let (holds_x, brings_x) =
                  fetch_chunk-Holds size file server honest idx r x fetched_x h in
                copied-Reads (λ r' n' acc'. read_loop server f (suc idx) 0 r' n' acc') idx off n acc
                  x.0 x.1 out le holds_x brings_x
                  (λ m bs run'. read_loop-Reads f (suc idx) 0 m _ bs out run' holds_x (omega arith))
                  then_x
          ]
    ]

    prefetch_loop-Holds :
        (n idx : ℕ) (r q : ChunkedReader)
        → prefetch_loop server n idx r ≡ ok q
        → Holds size file r
        → Holds size file q
    unfolding prefetch_loop
    prefetch_loop-Holds zero idx r q run h = subst (Holds size file) (ok-injective run) h
    prefetch_loop-Holds (suc n) idx r q run h =
        let stop = leb (length r.chunks) idx || r.closed in
        elim (Bool-cases stop) [
          | inl k ↦ subst (Holds size file) (ok-injective (sym (if_true stop _ _ k) ∙ run)) h
          | inr k ↦
              let (x, got, next) =
                >>=-eq-ok (fetch_chunk server idx r) _ (sym (if_false stop _ _ k) ∙ run) in
              prefetch_loop-Holds n (suc idx) x.0 q next
                (fetch_chunk-Holds size file server honest idx r x got h).0
        ]

    whole_at : (at : ℕ) → 0 < size → at / size * size + at % size ≡ at
    whole_at at h = grind arith

    within_chunk : (at : ℕ) → 0 < size → at % size ≤ size
    within_chunk at h = grind arith

    -- For chunks of a positive size: if the server gives only chunks of the file and the reader holds only
    -- chunks of the file, enough for all of it, then a `ReadAt` that returns gives bytes of the file
    -- from its position on, as many as were asked for when it returns no error, and all up to the end
    -- of the file when it returns `EOF`. The reader still holds only chunks of the file.
    pub read_at-Reads :
        (n at : ℕ) (r : ChunkedReader) (out : ChunkedReader × List ℕ × Option ReadError)
        → read_at server size n at r ≡ ok out
        → 0 < size
        → Holds size file r
        → Reads at n [] out
    unfolding read_at prefetch_chunks
    read_at-Reads n at r out run pos h =
        let idx = at / size in
        let whole = whole_at at pos in
        elim (Bool-cases r.closed) [
          | inl k ↦
              subst (Reads at n []) (ok-injective (sym (if_true r.closed _ _ k) ∙ run))
                (Reads-none at n [] r (some err_closed) h (λ e. absurd (cc)) (λ e. absurd (cc)))
          | inr k ↦
              let run₁ = sym (if_false r.closed _ _ k) ∙ run in
              elim (Bool-cases (leb (length r.chunks) idx)) [
                | inl j ↦
                    subst (Reads at n [])
                      (ok-injective (sym (if_true (leb (length r.chunks) idx) _ _ j) ∙ run₁))
                      (Reads-none at n [] r (some eof) h (λ e. absurd (cc))
                        (λ _. omega (
                          arith,
                          whole,
                          h.enough,
                          past_chunks (length r.chunks) idx (leb→le _ _ j),
                        )))
                | inr j ↦
                    let (q, got, next) =
                      >>=-eq-ok (prefetch_chunks server idx r) _
                        (sym (if_false (leb (length r.chunks) idx) _ _ j) ∙ run₁) in
                    subst (λ p. Reads p n [] out) whole
                      (read_loop-Reads (suc (length r.chunks)) idx (at % size) n q [] out next
                        (prefetch_loop-Holds 3 (suc idx) r q got h) (within_chunk at pos))
              ]
        ]
