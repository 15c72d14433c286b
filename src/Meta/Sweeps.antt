-- ===== src/Meta/Sweeps.antt =====
-- daemon/track_meta_cache.go: the batches of a sweep, and the queue that runs one sweep at a time.
pub mod Queue
use go_librespot_termux.Prelude.{
  ℕ, zero, suc, ◌+◌, ◌-◌, ◌≤◌, ◌<◌, ◌≡◌, ◌⊎◌, refl, ap, sym, ◌∙◌, subst, Bool, true, false, not,
  ◌&&◌, List, [], ◌∷◌, ◌++◌, append_assoc, append-nil, Option, none, some, arith, ltb, ltb→lt,
  lt→ltb, ltb-false→le, Bool-cases, inl, inr, if_true, if_false, if◌then◌else◌, length,
  length-append, length-take, length-drop, take, drop, take-append-drop, min, Text,
}
use go_librespot_termux.Meta.{max_meta_batch, sweep_loop, sweep, SweepQueue, enqueue, next_sweep}
use go_librespot_termux.Meta.Sweeps.Queue.{
  SweepWorld, at_rest, submits, looks, SweepStep, SweepReach, Newest, IsSingle, submits-IsSingle,
  Newest-begun, looks-IsSingle, SweepReach-IsSingle, submitted_job, looked, swept, rest_first,
  step_after,
}

abbrev pub concat : List (List Text) → List Text
concat [] = []
concat (b ∷ bs) = b ++ concat bs

-- No batch is empty or too large.
abbrev pub AllBatches : List (List Text) → Type 0
AllBatches [] = Unit {0}
AllBatches (b ∷ bs) = (0 < length b) × (length b ≤ max_meta_batch) × AllBatches bs

-- How a sweep from its `k`th batch on goes: the batches that it requests, the uris that it never asked
-- for, and the number that it logs.
pub data Sweeps (fetch : ℕ → List Text → Option ℕ) (live : ℕ → Bool)
    : ℕ → ℕ → List (List Text) → List Text → Option ℕ → Type 0 where
  finished : (k cached : ℕ) → Sweeps fetch live k cached [] [] (some cached)
  batch_failed :
      (k cached : ℕ) (b rest : List Text)
      → fetch k b ≡ none
      → Sweeps fetch live k cached (b ∷ []) rest none
  cancelled :
      (k cached n : ℕ) (b rest : List Text)
      → fetch k b ≡ some n
      → 0 < length rest
      → live k ≡ false
      → Sweeps fetch live k cached (b ∷ []) rest none
  went_on :
      (k cached n : ℕ) (b rest : List Text) (bs : List (List Text)) (res : Option ℕ)
      → fetch k b ≡ some n
      → (0 < length rest + length bs → live k ≡ true)
      → Sweeps fetch live (k + 1) (cached + n) bs rest res
      → Sweeps fetch live k cached (b ∷ bs) rest res

pub record Swept (fetch : ℕ → List Text → Option ℕ) (live : ℕ → Bool) (k cached : ℕ)
    (uris : List Text) (res : List (List Text) × Option ℕ) : Type 0 where
  pub rest : List Text
  pub pieces : concat res.0 ++ rest ≡ uris
  pub sizes : AllBatches res.0
  pub run : Sweeps fetch live k cached res.0 rest res.1

-- Nothing is left out, or a batch failed, or the context was done.
abbrev pub Ends :
    (ℕ → List Text → Option ℕ)
    → (ℕ → Bool)
    → List (List Text)
    → List Text
    → List Text
    → Option ℕ
    → Type 0
Ends fetch live bs rest uris res =
    ((rest ≡ []) × (concat bs ≡ uris) × (n : ℕ) × (res ≡ some n))
    ⊎ ((j : ℕ) × (b : List Text) × (fetch j b ≡ none))
    ⊎ ((j : ℕ) × (live j ≡ false))

Sweeps-Ends :
    {fetch : ℕ → List Text → Option ℕ} {live : ℕ → Bool} {k cached : ℕ} {bs : List (List Text)}
    {rest : List Text} {res : Option ℕ}
    → Sweeps fetch live k cached bs rest res
    → Ends fetch live bs rest (concat bs) res
Sweeps-Ends (finished k cached) = inl (refl, refl, cached, refl)
Sweeps-Ends (batch_failed k cached b rest e) = inr (inl (k, b, e))
Sweeps-Ends (cancelled k cached n b rest e left done) = inr (inr (k, done))
Sweeps-Ends (went_on k cached n b rest bs res e lives more) = elim (Sweeps-Ends more) [
  | inl (none_left, _, m, logged) ↦ inl (none_left, refl, m, logged)
  | inr short ↦ inr short
]

nonempty :
    (bs : List (List Text)) (rest : List Text)
    → AllBatches bs
    → 0 < length rest + length bs
    → 0 < length (concat bs ++ rest)
nonempty [] rest s h = omega (arith, h)
nonempty (b ∷ bs) rest (pos, _, _) h =
    omega (arith, pos, length-append (b ++ concat bs) rest, length-append b (concat bs))

both : (a b : Bool) → (a && not b) ≡ true → (a ≡ true) × (b ≡ false)
both true true e = absurd (cc)
both true false e = (refl, refl)
both false b e = absurd (cc)

still : (a b : Bool) → (a && not b) ≡ false → a ≡ true → b ≡ true
still true true e h = refl
still true false e h = absurd (cc)
still false b e h = absurd (cc)

no_uris : (us : List Text) → length us ≤ 0 → [] ≡ us
no_uris [] h = refl
no_uris (u ∷ us) h = absurd (omega arith)

module _ (fetch : ℕ → List Text → Option ℕ) (live : ℕ → Bool) where
  sweep_loop-Swept :
      (f k cached : ℕ) (uris : List Text)
      → length uris ≤ f
      → Swept fetch live k cached uris (sweep_loop fetch live f k cached uris)
  unfolding sweep_loop
  sweep_loop-Swept zero k cached [] h = record {
    rest = [];
    pieces = refl;
    sizes = tt;
    run = finished k cached;
  }
  sweep_loop-Swept zero k cached (u ∷ us) h = absurd (omega arith)
  sweep_loop-Swept (suc f) k cached uris h = elim (Bool-cases (ltb 0 (length uris))) [
    | inl y ↦ subst (Swept fetch live k cached uris) (sym (if_true (ltb 0 (length uris)) _ _ y)) (
        go (ltb→lt _ _ y) (fetch k batch) refl (λ n.
          sweep_loop-Swept f (k + 1) (cached + n) left
            (omega (arith, length-drop (length batch) uris, size, ltb→lt _ _ y, h))))
    | inr n ↦
        subst (Swept fetch live k cached uris) (sym (if_false (ltb 0 (length uris)) _ _ n))
          (record {
            rest = [];
            pieces = no_uris uris (ltb-false→le _ _ n);
            sizes = tt;
            run = finished k cached;
          })
  ]
    where
      batch : List Text
      batch = take (min (length uris) max_meta_batch) uris

      left : List Text
      left = drop (length batch) uris

      later : ℕ → List (List Text) × Option ℕ
      later n = sweep_loop fetch live f (k + 1) (cached + n) left

      size : length batch ≡ min (length uris) max_meta_batch
      size = omega (arith, length-take (min (length uris) max_meta_batch) uris)

      whole : batch ++ left ≡ uris
      whole =
          ap (λ m. batch ++ drop m uris) size
          ∙ take-append-drop (min (length uris) max_meta_batch) uris

      one : 0 < length uris → AllBatches (batch ∷ [])
      one pos = (omega (arith, size, pos), omega (arith, size), tt)

      step :
          0 < length uris
          → (n : ℕ) → fetch k batch ≡ some n
          → (ltb 0 (length left) && not (live k)) ≡ false
          → (x : List (List Text) × Option ℕ) → Swept fetch live (k + 1) (cached + n) left x
          → Swept fetch live k cached uris (batch ∷ x.0, x.1)
      step pos n e go_on x s = record {
        rest = s.rest;
        pieces = append_assoc batch (concat x.0) s.rest ∙ (ap (λ b. batch ++ b) s.pieces ∙ whole);
        sizes = (omega (arith, size, pos), omega (arith, size), s.sizes);
        run =
            went_on k cached n batch s.rest x.0 x.1 e
              (λ some_left. still (ltb 0 (length left)) (live k) go_on (
                lt→ltb _ _ (
                  subst (λ (us : List Text). 0 < length us) s.pieces
                    (nonempty x.0 s.rest s.sizes some_left))))
              s.run;
      }

      go :
          0 < length uris
          → (o : Option ℕ) → fetch k batch ≡ o
          → ((n : ℕ) → Swept fetch live (k + 1) (cached + n) left (later n))
          → Swept fetch live k cached uris (elim o as (λ _. List (List Text) × Option ℕ) [
            | none ↦ (batch ∷ [], none)
            | some n ↦
                if ltb 0 (length left) && not (live k)
                then (batch ∷ [], none)
                else (batch ∷ (later n).0, (later n).1)
          ])
      go pos none e ih = record {
        rest = left;
        pieces = ap (λ b. b ++ left) (append-nil batch) ∙ whole;
        sizes = one pos;
        run = batch_failed k cached batch left e;
      }
      go pos (some n) e ih = elim (Bool-cases (ltb 0 (length left) && not (live k))) [
        | inl y ↦
            subst (Swept fetch live k cached uris)
              (sym (if_true (ltb 0 (length left) && not (live k)) _ _ y))
              (record {
                rest = left;
                pieces = ap (λ b. b ++ left) (append-nil batch) ∙ whole;
                sizes = one pos;
                run =
                    cancelled k cached n batch left e
                      (ltb→lt _ _ (both (ltb 0 (length left)) (live k) y).0)
                      (both (ltb 0 (length left)) (live k) y).1;
              })
        | inr z ↦
            subst (Swept fetch live k cached uris)
              (sym (if_false (ltb 0 (length left) && not (live k)) _ _ z))
              (step pos n e z (later n) (ih n))
      ]

  -- A sweep requests the missing uris in their order, in batches that are not empty and have a hundred
  -- uris at most. It stops short only after a batch that failed, or after one that is not the last if the
  -- context is done in the pause after it. So the batches are all of the uris, and the sweep logs how many
  -- tracks they cached, or else a batch failed or the context was done.
  pub sweep-Swept :
      (uris : List Text)
      → (s : Swept fetch live 0 0 uris (sweep fetch live uris)) × Ends fetch live
          (sweep fetch live uris).0
          s.rest
          uris
          (sweep fetch live uris).1
  unfolding sweep
  sweep-Swept uris =
      let s = sweep_loop-Swept (length uris) 0 0 uris (omega arith) in
      let bs = (sweep fetch live uris).0 in
      (
        s,
        elim (Sweeps-Ends s.run) [
          | inl (none_left, _, n, logged) ↦ inl (
            none_left,
            sym (append-nil (concat bs)) ∙ (ap (λ r. concat bs ++ r) (sym none_left) ∙ s.pieces),
            n,
            logged,
          )
          | inr short ↦ inr short
        ],
      )
