-- ===== src/Audio/Content.antt =====
-- audio/chunked-reader.go: the chunks of the reader as pieces of the file.
pub mod Reads
use go_librespot_termux.Prelude.{
  ℕ, zero, suc, ◌+◌, ◌-◌, ◌*◌, ◌/◌, ◌%◌, ◌≤◌, ◌<◌, ◌≡◌, refl, ap, sym, ◌∙◌, subst, ◌||◌, ◌==◌,
  ==_iff, Bool-cases, Option-cases, if_true, if_false, if_both, inl, inr, List, [], ◌∷◌, ◌++◌,
  append_assoc, append-nil, Option, none, some, arith, ltb, leb, ltb→lt, ltb-false→le, leb→le,
  length, length-append, length-take, length-drop, get_elem?, get_elem?-set_self, get_elem?-set_ne,
  lt_of_get_elem?, length-set, ◌≢◌, set, take, drop, min, Run, ok, >>=-eq-ok, ok-injective,
}
use go_librespot_termux.Audio.{
  Chunk, ChunkedReader, ReadError, err_closed, eof, download_failed, Fetched, fetched, fetch_err,
  Server, maybe_fire_complete, mark_chunk_complete, keep_chunk, downloaded, served, fetch_chunk,
  prefetch_loop, prefetch_chunks, copied, read_loop, read_at,
}
use go_librespot_termux.Audio.Pieces.{drop-drop, drop-take, drop-min}

module _ (size : ℕ) (file : List ℕ) where
  -- A chunk of the file.
  abbrev pub chunk_of : ℕ → List ℕ
  chunk_of i = take size (drop (i * size) file)

  -- The chunks that are loaded are those of the file, and they are enough for all of it.
  pub record Holds (r : ChunkedReader) : Type 0 where
    pub chunks : (i : ℕ) (d : List ℕ) → get_elem? r.chunks i ≡ some (some d) → d ≡ chunk_of i
    pub enough : length file ≤ length r.chunks * size

  -- The rest of a chunk, and what follows it.
  pub rest_of-chunk :
      (i off : ℕ) (d : List ℕ)
      → d ≡ chunk_of i
      → drop (min off (length d)) d ≡ take (size - off) (drop (i * size + off) file)
  rest_of-chunk i off d e =
      drop-min off d
      ∙ (ap (drop off) e
          ∙ (drop-take off size (drop (i * size) file)
              ∙ ap (take (size - off)) (drop-drop off (i * size) file)))

  pub next_of-chunk :
      (i off : ℕ)
      → off ≤ size
      → drop (size - off) (drop (i * size + off) file) ≡ drop (suc i * size + 0) file
  next_of-chunk i off h =
      drop-drop (size - off) (i * size + off) file
      ∙ ap (λ k. drop k file) {x = i * size + off + (size - off)} {y = suc i * size + 0}
          (grind arith)

  Holds-chunks : (r q : ChunkedReader) → q.chunks ≡ r.chunks → Holds r → Holds q
  Holds-chunks r q e h = record {
    chunks = λ i d k. h.chunks i d (ap (λ cs. get_elem? cs i) (sym e) ∙ k);
    enough = rw e h.enough;
  }

  maybe_fire_complete-chunks : (r : ChunkedReader) → (maybe_fire_complete r).chunks ≡ r.chunks
  unfolding maybe_fire_complete
  maybe_fire_complete-chunks r =
      if_both (λ (q : ChunkedReader). q.chunks ≡ r.chunks) _ _ _ refl (λ _. refl)

  keep_chunk-Holds :
      (idx : ℕ) (d : List ℕ) (r : ChunkedReader)
      → idx < length r.chunks
      → d ≡ chunk_of idx
      → Holds r
      → Holds (keep_chunk idx d r)
  unfolding keep_chunk mark_chunk_complete
  keep_chunk-Holds idx d r inside e h =
      Holds-chunks
        (record r { chunks = set r.chunks idx (some d); completed_chunks = r.completed_chunks + 1 })
        _ (maybe_fire_complete-chunks _)
        (record {
          chunks = λ i d' k. elim (Bool-cases (i == idx)) [
            | inl y ↦
                let same = (==_iff i idx).0 y in
                let got : some (some d) ≡ some (some d') =
                  sym (get_elem?-set_self r.chunks idx (some d) inside)
                  ∙ (ap (get_elem? (set r.chunks idx (some d))) (sym same) ∙ k) in
                let eq : d ≡ d' = cc in sym eq ∙ (e ∙ ap chunk_of (sym same))
            | inr n ↦
                h.chunks i d'
                  (sym (get_elem?-set_ne r.chunks (some d) (λ z. ground (arith, z, n))) ∙ k)
          ];
          enough = rw (length-set r.chunks idx (some d)) h.enough;
        })

  -- What a fetch brings: the chunk of the file, or an error that is not the end of the file.
  pub data Brings (idx : ℕ) : Fetched → Type 0 where
    brings : (d : List ℕ) → d ≡ chunk_of idx → Brings idx (fetched d)
    fails : (e : ReadError) → e ≢ eof → Brings idx (fetch_err e)

  module _ (server : Server)
      (honest : (call i : ℕ) (d : List ℕ) → server call i ≡ some d → d ≡ chunk_of i) where
    downloaded-Holds :
        (idx : ℕ) (o : Option (List ℕ)) (r : ChunkedReader)
        → ((d : List ℕ) → o ≡ some d → d ≡ chunk_of idx)
        → idx < length r.chunks
        → Holds r
        → Holds (downloaded idx o r).0 × Brings idx (downloaded idx o r).1
    unfolding downloaded
    downloaded-Holds idx none r true' inside h = (h, fails (download_failed idx) (λ e. cc))
    downloaded-Holds idx (some d) r true' inside h =
        (keep_chunk-Holds idx d r inside (true' d refl) h, brings d (true' d refl))

    served-Holds :
        (idx : ℕ) (c : Chunk) (r : ChunkedReader)
        → get_elem? r.chunks idx ≡ some c
        → Holds r
        → Holds (served server idx c r).0 × Brings idx (served server idx c r).1
    unfolding served
    served-Holds idx (some d) r e h = (h, brings d (h.chunks idx d e))
    served-Holds idx none r e h =
        downloaded-Holds idx (server r.calls idx) (record r { calls = r.calls + 1 })
          (honest r.calls idx) (lt_of_get_elem? r.chunks idx e) (Holds-chunks r _ refl h)

    pub fetch_chunk-Holds :
        (idx : ℕ) (r : ChunkedReader) (x : ChunkedReader × Fetched)
        → fetch_chunk server idx r ≡ ok x
        → Holds r
        → Holds x.0 × Brings idx x.1
    unfolding fetch_chunk
    fetch_chunk-Holds idx r x run h = elim (Option-cases (get_elem? r.chunks idx)) [
      | inl e ↦ absurd (cc (rw (e, fetch_chunk) at run))
      | inr (c, e) ↦
          subst (λ (y : ChunkedReader × Fetched). Holds y.0 × Brings idx y.1)
            (ok-injective (rw (e, fetch_chunk) at run))
            (if_both (λ (y : ChunkedReader × Fetched). Holds y.0 × Brings idx y.1) r.closed _ _
              (h, fails err_closed (λ z. cc)) (λ _. served-Holds idx c r e h))
    ]
