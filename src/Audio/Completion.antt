-- ===== src/Audio/Completion.antt =====
-- audio/chunked-reader.go: the count of the chunks that are complete, and the callback.
use go_librespot_termux.Prelude.{
  ℕ, zero, suc, ◌+◌, ◌≤◌, ◌≡◌, refl, ap, sym, subst, Bool, true, false, Bool-cases, if_true,
  if_false, if_both, inl, inr, List, [], ◌∷◌, none, some, arith, ltb, ltb→lt, ltb-false→le,
  if◌then◌else◌, length, get_elem?, set,
}
use go_librespot_termux.Audio.{
  Chunk, ChunkedReader, maybe_fire_complete, mark_chunk_complete, register, blank_chunks,
}

unfoldable pub loaded : List Chunk → ℕ
loaded [] = 0
loaded (none ∷ cs) = loaded cs
loaded (some d ∷ cs) = suc (loaded cs)

pub loaded-set :
    (cs : List Chunk) (i : ℕ) (d : List ℕ)
    → get_elem? cs i ≡ some none
    → loaded (set cs i (some d)) ≡ suc (loaded cs)
unfolding loaded
loaded-set [] i d h = absurd (cc)
loaded-set (none ∷ cs) zero d h = refl
loaded-set (some e ∷ cs) zero d h = absurd (cc)
loaded-set (none ∷ cs) (suc i) d h = loaded-set cs i d h
loaded-set (some e ∷ cs) (suc i) d h = ap suc (loaded-set cs i d h)

pub loaded-blank : (n : ℕ) → loaded (blank_chunks n) ≡ 0
unfolding loaded blank_chunks
loaded-blank zero = refl
loaded-blank (suc n) = loaded-blank n

-- What holds while the callback may be due.
record MayFire (r : ChunkedReader) : Type 0 where
  once : r.started ≡ (if r.on_complete_fired then 1 else 0)
  complete :
      r.on_complete_fired ≡ true → (r.on_complete ≡ true) × (length r.chunks ≤ r.completed_chunks)

-- The callback has started once if it is registered and as many chunks are counted as there are, and
-- not at all otherwise.
pub record IsFired (r : ChunkedReader) : Type 0 where
  pub once : r.started ≡ (if r.on_complete_fired then 1 else 0)
  pub complete :
      r.on_complete_fired ≡ true → (r.on_complete ≡ true) × (length r.chunks ≤ r.completed_chunks)
  pub due : r.on_complete ≡ true → length r.chunks ≤ r.completed_chunks → r.on_complete_fired ≡ true

maybe_fire_complete_cases :
    (r : ChunkedReader) (f o : Bool)
    → MayFire (record r { on_complete_fired = f; on_complete = o })
    → IsFired (maybe_fire_complete (record r { on_complete_fired = f; on_complete = o }))
unfolding maybe_fire_complete
maybe_fire_complete_cases r true o c = record {
  once = c.once;
  complete = c.complete;
  due = λ h k. refl;
}
maybe_fire_complete_cases r false false c = record {
  once = c.once;
  complete = c.complete;
  due = λ h k. absurd (cc);
}
maybe_fire_complete_cases r false true c =
    elim (Bool-cases (ltb r.completed_chunks (length r.chunks))) [
      | inl h ↦
          subst IsFired (sym (if_true (ltb r.completed_chunks (length r.chunks)) _ _ h)) (record {
            once = c.once;
            complete = c.complete;
            due = λ _ k. absurd (omega (arith, ltb→lt _ _ h, k));
          })
      | inr h ↦
          subst IsFired (sym (if_false (ltb r.completed_chunks (length r.chunks)) _ _ h)) (record {
            once = omega (arith, c.once);
            complete = λ _. (refl, ltb-false→le _ _ h);
            due = λ _ k. refl;
          })
    ]

maybe_fire_complete-IsFired : (r : ChunkedReader) → MayFire r → IsFired (maybe_fire_complete r)
maybe_fire_complete-IsFired r c = maybe_fire_complete_cases r r.on_complete_fired r.on_complete c

-- Registering the callback starts it at once if all chunks are counted, unless it has started before.
pub register-IsFired : (r : ChunkedReader) → IsFired r → IsFired (register r)
unfolding register
register-IsFired r c =
    maybe_fire_complete-IsFired (record r { on_complete = true })
      (record { once = c.once; complete = λ h. (refl, (c.complete h).1) })

pub mark_chunk_complete-IsFired : (r : ChunkedReader) → IsFired r → IsFired (mark_chunk_complete r)
unfolding mark_chunk_complete
mark_chunk_complete-IsFired r c =
    maybe_fire_complete-IsFired (record r { completed_chunks = r.completed_chunks + 1 })
      (record {
        once = c.once;
        complete = λ h. ((c.complete h).0, omega (arith, (c.complete h).1));
      })

-- What the two leave alone.
pub maybe_fire_complete-kept :
    (r : ChunkedReader)
    → ((maybe_fire_complete r).chunks ≡ r.chunks)
      × ((maybe_fire_complete r).completed_chunks ≡ r.completed_chunks)
unfolding maybe_fire_complete
maybe_fire_complete-kept r =
    if_both
      (λ (q : ChunkedReader). (q.chunks ≡ r.chunks) × (q.completed_chunks ≡ r.completed_chunks)) _ _
      _ (refl, refl) (λ _. (refl, refl))
