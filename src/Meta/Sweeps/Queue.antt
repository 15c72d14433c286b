-- ===== src/Meta/Sweeps/Queue.antt =====
-- daemon/track_meta_cache.go: the queue that runs one sweep at a time.
use go_librespot_termux.Prelude.{
  ℕ, ◌+◌, ◌-◌, ◌<◌, ◌≡◌, ◌⊎◌, refl, ap, sym, ◌∙◌, subst, Bool, true, false, List, [], ◌∷◌, Option,
  none, some, arith, Bool-cases, inl, inr, if_true, if_false, if◌then◌else◌,
}
use go_librespot_termux.Meta.{SweepQueue, enqueue, next_sweep}

-- The queue with the goroutines about it: those that are about to call `next`, those that sweep, the
-- jobs that were submitted and those that were begun, the newest first.
pub record SweepWorld (J : Type 0) : Type 0 where
  pub queue : SweepQueue J
  pub starting : ℕ
  pub sweeping : ℕ
  pub submitted : List J
  pub begun : List J

module _ {J : Type 0} where
  abbrev pub at_rest : SweepWorld J
  at_rest = record {
    queue = record { running = false; pending = none };
    starting = 0;
    sweeping = 0;
    submitted = [];
    begun = [];
  }

  unfoldable pub submits : J → SweepWorld J → SweepWorld J
  unfolding enqueue
  submits j w =
      let (q, start) = enqueue j w.queue in
      record w {
        queue = q;
        starting = if start then w.starting + 1 else w.starting;
        submitted = j ∷ w.submitted;
      }

  unfoldable pub looks : SweepWorld J → SweepWorld J
  unfolding next_sweep
  looks w =
      let (q, job) = next_sweep w.queue in
      elim job [
        | none ↦ record w { queue = q; starting = w.starting - 1 }
        | some j ↦ record w {
          queue = q;
          starting = w.starting - 1;
          sweeping = w.sweeping + 1;
          begun = j ∷ w.begun;
        }
      ]

  pub data SweepStep : SweepWorld J → SweepWorld J → Type 0 where
    submitted_job : (w : SweepWorld J) (j : J) → SweepStep w (submits j w)
    looked : (w : SweepWorld J) → 0 < w.starting → SweepStep w (looks w)
    swept :
        (w : SweepWorld J)
        → 0 < w.sweeping
        → SweepStep w (record w { sweeping = w.sweeping - 1; starting = w.starting + 1 })

  pub data SweepReach : SweepWorld J → Type 0 where
    rest_first : SweepReach at_rest
    step_after : {w v : SweepWorld J} → SweepReach w → SweepStep w v → SweepReach v

  -- The newest job waits or was begun last.
  abbrev pub Newest : Option J → List J → List J → Type 0
  Newest o [] begun = Unit {0}
  Newest o (j ∷ js) begun = (o ≡ some j) ⊎ ((o ≡ none) × ((js' : List J) × (begun ≡ j ∷ js')))

  -- One goroutine at most sweeps or is about to look for a job, and it is there when a job waits.
  pub record IsSingle (w : SweepWorld J) : Type 0 where
    pub busy : w.queue.running ≡ true → w.starting + w.sweeping ≡ 1
    pub idle : w.queue.running ≡ false → (w.starting + w.sweeping ≡ 0) × (w.queue.pending ≡ none)
    pub newest : Newest w.queue.pending w.submitted w.begun

  pub submits-IsSingle : (j : J) (w : SweepWorld J) → IsSingle w → IsSingle (submits j w)
  unfolding submits
  submits-IsSingle j w s = elim (Bool-cases w.queue.running) [
    | inl e ↦
        subst
          (λ (x : SweepQueue J × Bool). IsSingle (record w {
            queue = x.0;
            starting = if x.1 then w.starting + 1 else w.starting;
            submitted = j ∷ w.submitted;
          }))
          (sym (if_true w.queue.running _ _ e))
          (record { busy = s.busy; idle = λ f. absurd (cc (sym e ∙ f)); newest = inl refl })
    | inr e ↦
        subst
          (λ (x : SweepQueue J × Bool). IsSingle (record w {
            queue = x.0;
            starting = if x.1 then w.starting + 1 else w.starting;
            submitted = j ∷ w.submitted;
          }))
          (sym (if_false w.queue.running _ _ e))
          (record {
            busy = λ _. omega (arith, (s.idle e).0);
            idle = λ f. absurd (cc);
            newest = inl refl;
          })
  ]

  pub Newest-begun :
      (o : Option J) (j : J) (js bs : List J)
      → o ≡ some j
      → Newest o js bs
      → Newest none js (j ∷ bs)
  Newest-begun o j [] bs e n = tt
  Newest-begun o j (i ∷ js) bs e (inl k) =
      let same : j ≡ i = cc in inr (refl, (bs, ap (λ x. x ∷ bs) same))
  Newest-begun o j (i ∷ js) bs e (inr (k, r)) = absurd (cc (sym e ∙ k))

  pub looks-IsSingle : (w : SweepWorld J) → 0 < w.starting → IsSingle w → IsSingle (looks w)
  unfolding looks
  looks-IsSingle w h s = go w.queue.pending refl
    where
      running : w.queue.running ≡ true
      running = elim (Bool-cases w.queue.running) [
        | inl e ↦ e
        | inr e ↦ absurd (omega (arith, (s.idle e).0, h))
      ]

      go :
          (o : Option J)
          → w.queue.pending ≡ o
          → let x = elim o as (λ _. SweepQueue J × Option J) [
            | none ↦ (record w.queue { running = false }, none)
            | some job ↦ (record w.queue { pending = none }, some job)
          ] in
            IsSingle (elim x.1 as (λ _. SweepWorld J) [
              | none ↦ record w { queue = x.0; starting = w.starting - 1 }
              | some j ↦ record w {
                queue = x.0;
                starting = w.starting - 1;
                sweeping = w.sweeping + 1;
                begun = j ∷ w.begun;
              }
            ])
      go none e = record {
        busy = λ f. absurd (cc);
        idle = λ f. (omega (arith, s.busy running, h), e);
        newest = s.newest;
      }
      go (some j) e = record {
        busy = λ f. omega (arith, s.busy running, h);
        idle = λ f. absurd (cc (sym running ∙ f));
        newest = Newest-begun w.queue.pending j w.submitted w.begun e s.newest;
      }

  -- Whatever jobs arrive and however long sweeps take: one goroutine at most sweeps or is about to look
  -- for a job; exactly one does while the queue is marked as running, and no job waits otherwise, so that a
  -- job that waits is found; and the newest job waits, or it is the last that was begun.
  pub SweepReach-IsSingle : (w : SweepWorld J) → SweepReach w → IsSingle w
  SweepReach-IsSingle _ rest_first = record {
    busy = λ e. absurd (cc);
    idle = λ e. (refl, refl);
    newest = tt;
  }
  SweepReach-IsSingle _ (step_after r (submitted_job w j)) =
      submits-IsSingle j w (SweepReach-IsSingle w r)
  SweepReach-IsSingle _ (step_after r (looked w h)) = looks-IsSingle w h (SweepReach-IsSingle w r)
  SweepReach-IsSingle _ (step_after r (swept w h)) =
      let s = SweepReach-IsSingle w r in
      record {
        busy = λ e. omega (arith, s.busy e, h);
        idle = λ e. absurd (omega (arith, (s.idle e).0, h));
        newest = s.newest;
      }
