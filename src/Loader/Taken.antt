-- ===== src/Loader/Taken.antt =====
-- daemon/loader.go: which job `next` takes.
use go_librespot_termux.Prelude.{
  ℕ, ◌-◌, ◌≤◌, ◌<◌, ◌≡◌, refl, ap, ◌⊎◌, Bool, true, false, List, [], ◌∷◌, ◌++◌, Option, none, some,
  Bool-cases, inl, inr, ltb, ltb→lt, ltb-false→le,
}
use go_librespot_termux.Loader.{LoaderJob, LoaderLane, take_first, due_mutation, taken_from, next}

module _ {S : Type 0} where
  -- No job of the list passes.
  abbrev pub Fails : (LoaderJob S → Bool) → List (LoaderJob S) → Type 0
  Fails p [] = Unit {0}
  Fails p (j ∷ js) = (p j ≡ false) × Fails p js

  -- The list split at the first job that passes.
  pub record SplitAt (p : LoaderJob S → Bool) (js a : List (LoaderJob S)) (k : LoaderJob S)
      (b : List (LoaderJob S)) : Type 0 where
    pub whole : js ≡ a ++ (k ∷ b)
    pub passes : p k ≡ true
    pub before : Fails p a

  abbrev pub First :
      (LoaderJob S → Bool)
      → List (LoaderJob S)
      → Option (List (LoaderJob S) × LoaderJob S × List (LoaderJob S))
      → Type 0
  First p js none = Fails p js
  First p js (some (a, k, b)) = SplitAt p js a k b

  First-cons :
      (p : LoaderJob S → Bool) (j : LoaderJob S) (js : List (LoaderJob S))
      (o : Option (List (LoaderJob S) × LoaderJob S × List (LoaderJob S)))
      → p j ≡ false
      → First p js o
      → First p (j ∷ js) (elim o [ none ↦ none | some (a, k, b) ↦ some (j ∷ a, k, b) ])
  First-cons p j js none e f = (e, f)
  First-cons p j js (some (a, k, b)) e f = record {
    whole = ap (◌∷◌ j) f.whole;
    passes = f.passes;
    before = (e, f.before);
  }

  take_first-First :
      (p : LoaderJob S → Bool) (js : List (LoaderJob S)) → First p js (take_first p js)
  unfolding take_first
  take_first-First p [] = tt
  take_first-First p (j ∷ js) = elim (Bool-cases (p j)) [
    | inl e ↦ rw e (record { whole = refl; passes = e; before = tt })
    | inr e ↦ rw e (First-cons p j js (take_first p js) e (take_first-First p js))
  ]

  -- What `next` may do at a time.
  pub data Choice (now : ℕ) (l : LoaderLane S) : Type 0 where
    idle : (l.queue ≡ []) ⊎ (l.closed ≡ true) → next now l ≡ (l, 0, none) → Choice now l
    held :
        (j : LoaderJob S) (js : List (LoaderJob S))
        → l.queue ≡ j ∷ js
        → now < j.not_before
        → Fails (due_mutation now) l.queue
        → next now l ≡ (l, j.not_before - now, none)
        → Choice now l
    took_head :
        (j : LoaderJob S) (js : List (LoaderJob S))
        → l.queue ≡ j ∷ js
        → j.not_before ≤ now
        → next now l ≡ taken_from l js j
        → Choice now l
    took_mutation :
        (j : LoaderJob S) (js a : List (LoaderJob S)) (k : LoaderJob S) (b : List (LoaderJob S))
        → l.queue ≡ j ∷ js
        → now < j.not_before
        → SplitAt (due_mutation now) l.queue a k b
        → next now l ≡ taken_from l (a ++ b) k
        → Choice now l

  next_cases :
      (now : ℕ) (l : LoaderLane S) (c : Bool) (q : List (LoaderJob S))
      → Choice now (record l { closed = c; queue = q })
  unfolding next
  next_cases now l c [] = idle (inl refl) refl
  next_cases now l true (j ∷ js) = idle (inr refl) refl
  next_cases now l false (j ∷ js) = elim (Bool-cases (ltb now j.not_before)) [
    | inr e ↦ took_head j js refl (ltb-false→le _ _ e) (rw e)
    | inl e ↦
        go (take_first (due_mutation now) (j ∷ js)) refl
          (take_first-First (due_mutation now) (j ∷ js)) e
  ]
    where
      go :
          (o : Option (List (LoaderJob S) × LoaderJob S × List (LoaderJob S)))
          → take_first (due_mutation now) (j ∷ js) ≡ o
          → First (due_mutation now) (j ∷ js) o
          → ltb now j.not_before ≡ true
          → Choice now (record l { closed = false; queue = j ∷ js })
      go none same f e = held j js refl (ltb→lt _ _ e) f (rw (e, same))
      go (some (a, k, b)) same f e = took_mutation j js a k b refl (ltb→lt _ _ e) f (rw (e, same))

  -- `next` takes the head of the queue once its time has come. While the head is held back, it takes
  -- the first mutation whose time has come, wherever it is queued; if there is none, it reports how
  -- long the head is still held. It takes nothing only then, or from a lane that is closed or empty.
  pub next-Choice : (now : ℕ) (l : LoaderLane S) → Choice now l
  next-Choice now l = next_cases now l l.closed l.queue
