-- ===== src/Loader/Apply/Outcome.antt =====
-- daemon/loader.go: what `applyLoaderResult` does with each result.
use go_librespot_termux.Prelude.{
  ℕ, ◌≡◌, ◌≢◌, refl, ap, ◌∙◌, Bool, true, false, none, some, arith, ◌==◌, ==_iff,
}
use go_librespot_termux.Loader.{
  LoaderClass, class_load, class_nav, class_mutate, class_prefetch, is_load, is_mutate, is_prefetch,
  superseded, Reply, PlayerEvent, Player, LoaderResult,
}
use go_librespot_termux.Loader.Apply.{
  generation, lands, unlanded, leave, finish, stale, committed, drain_pending_player_events,
  apply_loader_result,
}

==-false : (a b : ℕ) → (a == b) ≡ false → a ≢ b
==-false a b e h = ground arith

module _ {S : Type 0} (handle : PlayerEvent → Player S → Player S) where
  -- The three ways to take in a result.
  pub data Outcome (res : LoaderResult S) (p : Player S) (r : Player S × Reply × Bool)
      : Type 0 where
    ignored :
        res.class ≢ class_mutate
        → res.gen ≢ generation res.class p
        → r
          ≡ (p, record { to = res.reply; value = none; err = some superseded }, res.answer.discard)
        → Outcome res p r
    landed :
        res.class ≡ class_load
        → res.gen ≡ p.load_gen
        → r ≡ (
          drain_pending_player_events handle (committed res (record p { load_in_flight = false })),
          record { to = res.reply; value = res.answer.value; err = res.answer.err },
          false,
        )
        → Outcome res p r
    merged :
        (res.class ≡ class_load → res.gen ≢ p.load_gen)
        → (res.class ≢ class_mutate → res.gen ≡ generation res.class p)
        → r ≡ (
          committed res p,
          record { to = res.reply; value = res.answer.value; err = res.answer.err },
          false,
        )
        → Outcome res p r

  apply_loader_result-finish :
      (res : LoaderResult S) (p : Player S) (lands' stale' : Bool)
      → lands res p ≡ lands'
      → stale res (unlanded lands' p) ≡ stale'
      → apply_loader_result handle res p ≡ finish handle res lands' (unlanded lands' p) stale'
  unfolding apply_loader_result
  apply_loader_result-finish res p lands' stale' e g =
      ap (λ b. finish handle res b (unlanded b p) (stale res (unlanded b p))) e
      ∙ ap (finish handle res lands' (unlanded lands' p)) g

  outcome_cases :
      (res : LoaderResult S) (p : Player S) (c : LoaderClass) (current : Bool)
      → res.class ≡ c
      → (res.gen == generation c p) ≡ current
      → Outcome res p (apply_loader_result handle res p)
  unfolding lands stale unlanded finish leave generation is_load is_mutate is_prefetch
  outcome_cases res p class_load true e g =
      landed e ((==_iff res.gen p.load_gen).0 g)
        (apply_loader_result-finish res p true false (rw (e, g)) (rw (e, g)))
  outcome_cases res p class_load false e g =
      ignored (λ h. cc) (λ h. ==-false res.gen p.load_gen g (rw e at h))
        (apply_loader_result-finish res p false true (rw (e, g)) (rw (e, g)))
  outcome_cases res p class_nav true e g =
      merged (λ h. absurd (cc)) (λ h. rw e ((==_iff res.gen p.load_gen).0 g))
        (apply_loader_result-finish res p false false (rw e) (rw (e, g)))
  outcome_cases res p class_nav false e g =
      ignored (λ h. cc) (λ h. ==-false res.gen p.load_gen g (rw e at h))
        (apply_loader_result-finish res p false true (rw e) (rw (e, g)))
  outcome_cases res p class_mutate b e g =
      merged (λ h. absurd (cc)) (λ h. absurd (h e))
        (apply_loader_result-finish res p false false (rw e) (rw e))
  outcome_cases res p class_prefetch true e g =
      merged (λ h. absurd (cc)) (λ h. rw e ((==_iff res.gen p.prefetch_gen).0 g))
        (apply_loader_result-finish res p false false (rw e) (rw (e, g)))
  outcome_cases res p class_prefetch false e g =
      ignored (λ h. cc) (λ h. ==-false res.gen p.prefetch_gen g (rw e at h))
        (apply_loader_result-finish res p false true (rw e) (rw (e, g)))

  -- A result of a mutation is always committed. Any other is ignored if its generation has passed:
  -- then nothing of the state changes, its caller hears that it was superseded and its `discard` runs.
  -- A load of the current generation is committed with the flag of a load in flight lowered, and the
  -- events held back are then handled; no other result touches that flag or those events but by its own
  -- commit. A result that is committed is answered with its own value and error.
  pub apply_loader_result-Outcome :
      (res : LoaderResult S) (p : Player S) → Outcome res p (apply_loader_result handle res p)
  apply_loader_result-Outcome res p =
      outcome_cases res p res.class (res.gen == generation res.class p) refl refl
