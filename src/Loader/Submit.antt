-- ===== src/Loader/Submit.antt =====
-- daemon/loader.go: what `submit` does with the queue and with the replies that its jobs owe.
use go_librespot_termux.Prelude.{
  ℕ, ◌+◌, ◌≤◌, ◌≡◌, refl, ap, sym, ◌∙◌, ◌⊎◌, subst, ◌&&◌, true, false, List, [], ◌∷◌, ◌++◌, Option,
  none, some, arith, Bool-cases, if_true, if_false, inl, inr, length, length-append, leb,
  leb-false→lt,
}
use go_librespot_termux.Loader.{
  LoaderClass, class_load, class_nav, class_mutate, class_prefetch, LoaderJob, LoaderLane, ReplyTo,
  Reply, LoaderError, superseded, no_session, fetches, is_prefetch, reply_all, queued_loads,
  has_pending_load, running_loads, supersede, drop_loads_locked, superseded_by, enqueue, submit,
}
-- Replies are counted with any weights: with the weight 1 for one reply and 0 for the others, a sum
-- is the number of its occurrences.
use go_librespot_termux.Loader.Queue.{
  answered, owed, owed-append, owed-supersede, lasting, fetching, lasting-append, fetching-append,
  Kept, Kept-fetches, partition_queue-is_prefetch, IsValid, Alike, Alike-refl, supersede-Alike,
}

module _ {S : Type 0} where
  -- What `submit` does with a job that it does not refuse at once, given what is superseded.
  data Made (job : LoaderJob S) (l : LoaderLane S) (r : LoaderLane S × List (LoaderJob S))
      : Type 0 where
    dropped_fetches : r ≡ supersede fetches l → Made job l r
    dropped_prefetches : r ≡ supersede is_prefetch l → queued_loads l.queue ≡ false → Made job l r
    dropped_none : r ≡ (l, []) → fetches job.class ≡ false → Made job l r

  superseded_by-Made :
      (job : LoaderJob S) (l : LoaderLane S) (c : LoaderClass)
      → job.class ≡ c
      → (is_prefetch c && has_pending_load l) ≡ false
      → Made job l (superseded_by c l)
  unfolding superseded_by drop_loads_locked is_prefetch has_pending_load
  superseded_by-Made job l class_load e h = dropped_fetches refl
  superseded_by-Made job l class_nav e h = dropped_fetches refl
  superseded_by-Made job l class_mutate e h = dropped_none refl (rw e (unfold fetches in refl))
  superseded_by-Made job l class_prefetch e h = elim (Bool-cases (running_loads l.running)) [
    | inl t ↦ absurd (cc (rw t at h))
    | inr t ↦ dropped_prefetches refl (rw t at h)
  ]

  -- The queue after `submit`, given the jobs that it kept.
  enqueue-IsValid :
      (job : LoaderJob S) (l : LoaderLane S) (dropped : List (LoaderJob S))
      → IsValid l.queue
      → fetching l.queue + fetching (job ∷ []) ≤ 1
      → IsValid (enqueue job (l, dropped)).0.queue
  unfolding enqueue
  enqueue-IsValid job l dropped v one = elim (Bool-cases (leb 32 (length l.queue))) [
    | inl e ↦ rw e v
    | inr e ↦ rw e (record {
      bound = omega (arith, length-append l.queue (job ∷ []), leb-false→lt _ _ e);
      one_fetch = omega (arith, fetching-append l.queue (job ∷ []));
    })
  ]

  fetching-one : (job : LoaderJob S) → fetching (job ∷ []) ≤ 1
  unfolding fetching
  fetching-one job = elim (Bool-cases (fetches job.class)) [
    | inl e ↦ rw e (omega arith)
    | inr e ↦ rw e (omega arith)
  ]

  fetching-none : (job : LoaderJob S) → fetches job.class ≡ false → fetching (job ∷ []) ≡ 0
  unfolding fetching
  fetching-none job e = rw e

  Kept-IsValid :
      (job : LoaderJob S) (js ks : List (LoaderJob S))
      → Kept js ks
      → IsValid js
      → IsValid ks × (fetching ks + fetching (job ∷ []) ≤ 1)
  Kept-IsValid job js ks k v = (
    record { bound = omega (arith, k.bound, v.bound); one_fetch = omega (arith, k.none_left) },
    omega (arith, k.none_left, fetching-one job),
  )

  -- What `submit` does: it answers the job at once and changes nothing, or goes on to the queue.
  data Submission (job : LoaderJob S) (l : LoaderLane S) : Type 0 where
    refused :
        (e : Option LoaderError)
        → submit job l ≡ (l, record { to = job.reply; value = none; err = e } ∷ [])
        → Submission job l
    went_on :
        (m : LoaderLane S) (dropped : List (LoaderJob S))
        → submit job l ≡ enqueue job (m, dropped)
        → Made job l (m, dropped)
        → Submission job l

  submit-Submission : (job : LoaderJob S) (l : LoaderLane S) → Submission job l
  unfolding submit
  submit-Submission job l = elim (Bool-cases l.closed) [
    | inl e ↦ refused (some no_session) (if_true l.closed _ _ e)
    | inr e ↦ elim (Bool-cases (is_prefetch job.class && has_pending_load l)) [
      | inl t ↦
          refused none
            (if_false l.closed _ _ e ∙ if_true (is_prefetch job.class && has_pending_load l) _ _ t)
      | inr t ↦
          let r = superseded_by job.class l in
          went_on r.0 r.1
            (if_false l.closed _ _ e ∙ if_false (is_prefetch job.class && has_pending_load l) _ _ t)
            (superseded_by-Made job l job.class refl t)
    ]
  ]

  Made-IsValid :
      (job : LoaderJob S) (l m : LoaderLane S) (dropped : List (LoaderJob S))
      → IsValid l.queue
      → Made job l (m, dropped)
      → IsValid m.queue × (fetching m.queue + fetching (job ∷ []) ≤ 1)
  unfolding supersede
  Made-IsValid job l m dropped v (dropped_fetches e) =
      subst (λ (x : LoaderLane S). IsValid x.queue × (fetching x.queue + fetching (job ∷ []) ≤ 1))
        (sym (ap (λ x. x.0) e)) (Kept-IsValid job l.queue _ (Kept-fetches l.queue) v)
  Made-IsValid job l m dropped v (dropped_prefetches e none') =
      subst (λ (x : LoaderLane S). IsValid x.queue × (fetching x.queue + fetching (job ∷ []) ≤ 1))
        (sym (ap (λ x. x.0) e))
        (Kept-IsValid job l.queue _
          (subst (λ x. Kept l.queue x.1) (sym (partition_queue-is_prefetch l.queue none'))
            (Kept-fetches l.queue))
          v)
  Made-IsValid job l m dropped v (dropped_none e plain) =
      subst (λ (x : LoaderLane S). IsValid x.queue × (fetching x.queue + fetching (job ∷ []) ≤ 1))
        (sym (ap (λ x. x.0) e)) (v, omega (arith, v.one_fetch, fetching-none job plain))

  -- `submit` keeps the queue valid: at most 32 jobs, and at most one that fetches.
  pub submit-IsValid :
      (job : LoaderJob S) (l : LoaderLane S) → IsValid l.queue → IsValid (submit job l).0.queue
  submit-IsValid job l v = elim (submit-Submission job l) [
    | refused e same ↦ subst (λ x. IsValid x.0.queue) (sym same) v
    | went_on m dropped same made ↦
        let (v', one) = Made-IsValid job l m dropped v made in
        subst (λ x. IsValid x.0.queue) (sym same) (enqueue-IsValid job m dropped v' one)
  ]

  Made-owed :
      (w : ReplyTo → ℕ) (job : LoaderJob S) (l m : LoaderLane S) (dropped : List (LoaderJob S))
      → Made job l (m, dropped)
      → answered w (reply_all dropped superseded) + owed w m.queue ≡ owed w l.queue
  unfolding reply_all answered
  Made-owed w job l m dropped (dropped_fetches e) =
      subst
        (λ (x : LoaderLane S × List (LoaderJob S)).
          answered w (reply_all x.1 superseded) + owed w x.0.queue ≡ owed w l.queue)
        (sym e) (owed-supersede w fetches l)
  Made-owed w job l m dropped (dropped_prefetches e none') =
      subst
        (λ (x : LoaderLane S × List (LoaderJob S)).
          answered w (reply_all x.1 superseded) + owed w x.0.queue ≡ owed w l.queue)
        (sym e) (owed-supersede w is_prefetch l)
  Made-owed w job l m dropped (dropped_none e plain) =
      subst
        (λ (x : LoaderLane S × List (LoaderJob S)).
          answered w (reply_all x.1 superseded) + owed w x.0.queue ≡ owed w l.queue)
        (sym e) (omega arith)

  enqueue-owed :
      (w : ReplyTo → ℕ) (job : LoaderJob S) (m : LoaderLane S) (dropped : List (LoaderJob S))
      → answered w (enqueue job (m, dropped)).1 + owed w (enqueue job (m, dropped)).0.queue
        ≡ w job.reply + (answered w (reply_all dropped superseded) + owed w m.queue)
  unfolding enqueue answered owed
  enqueue-owed w job m dropped = elim (Bool-cases (leb 32 (length m.queue))) [
    | inl e ↦ rw e (omega arith)
    | inr e ↦ rw e (omega (arith, owed-append w m.queue (job ∷ [])))
  ]

  -- `submit` answers each of the queued jobs and the new one at most once, and those that it does not
  -- answer are queued after it: whatever weights replies have, the sum of the calls of `done` and of
  -- the replies still owed is that of the jobs before.
  pub submit-owed :
      (w : ReplyTo → ℕ) (job : LoaderJob S) (l : LoaderLane S)
      → answered w (submit job l).1 + owed w (submit job l).0.queue ≡ w job.reply + owed w l.queue
  unfolding answered
  submit-owed w job l = elim (submit-Submission job l) [
    | refused e same ↦
        subst (λ x. answered w x.1 + owed w x.0.queue ≡ w job.reply + owed w l.queue) (sym same)
          (omega arith)
    | went_on m dropped same made ↦
        subst (λ x. answered w x.1 + owed w x.0.queue ≡ w job.reply + owed w l.queue) (sym same)
          (enqueue-owed w job m dropped
            ∙ ap (λ n. w job.reply + n) (Made-owed w job l m dropped made))
  ]

  Made-lasting :
      (job : LoaderJob S) (l m : LoaderLane S) (dropped : List (LoaderJob S))
      → Made job l (m, dropped)
      → lasting m.queue ≡ lasting l.queue
  unfolding supersede
  Made-lasting job l m dropped (dropped_fetches e) =
      ap (λ (x : LoaderLane S × List (LoaderJob S)). lasting x.0.queue) e
      ∙ (Kept-fetches l.queue).same
  Made-lasting job l m dropped (dropped_prefetches e none') =
      ap (λ (x : LoaderLane S × List (LoaderJob S)). lasting x.0.queue) e
      ∙ (ap (λ x. lasting x.1) (partition_queue-is_prefetch l.queue none')
          ∙ (Kept-fetches l.queue).same)
  Made-lasting job l m dropped (dropped_none e plain) =
      ap (λ (x : LoaderLane S × List (LoaderJob S)). lasting x.0.queue) e

  enqueue-lasting :
      (job : LoaderJob S) (m : LoaderLane S) (dropped : List (LoaderJob S))
      → (lasting (enqueue job (m, dropped)).0.queue ≡ lasting m.queue)
        ⊎ (lasting (enqueue job (m, dropped)).0.queue ≡ lasting m.queue ++ lasting (job ∷ []))
  unfolding enqueue
  enqueue-lasting job m dropped = elim (Bool-cases (leb 32 (length m.queue))) [
    | inl e ↦ inl (rw e)
    | inr e ↦ inr (rw e (lasting-append m.queue (job ∷ [])))
  ]

  -- `submit` never drops a navigation or a mutation that is queued, and keeps their order: the queued
  -- jobs that fetch nothing are those of before, or those of before with the new job at their end, where
  -- it fetches nothing either.
  pub submit-lasting :
      (job : LoaderJob S) (l : LoaderLane S)
      → (lasting (submit job l).0.queue ≡ lasting l.queue)
        ⊎ (lasting (submit job l).0.queue ≡ lasting l.queue ++ lasting (job ∷ []))
  submit-lasting job l = elim (submit-Submission job l) [
    | refused e same ↦ inl (ap (λ x. lasting x.0.queue) same)
    | went_on m dropped same made ↦
        let here = ap (λ x. lasting x.0.queue) same in
        let before = Made-lasting job l m dropped made in
        elim (enqueue-lasting job m dropped) [
          | inl e ↦ inl (here ∙ (e ∙ before))
          | inr e ↦ inr (here ∙ (e ∙ ap (λ x. x ++ lasting (job ∷ [])) before))
        ]
  ]

  enqueue-Alike :
      (job : LoaderJob S) (m : LoaderLane S) (dropped : List (LoaderJob S))
      → Alike m (enqueue job (m, dropped)).0
  unfolding enqueue
  enqueue-Alike job m dropped = elim (Bool-cases (leb 32 (length m.queue))) [
    | inl e ↦ rw e (Alike-refl m)
    | inr e ↦ rw e (record { results = refl; closed = refl; cancelled = refl; running = refl })
  ]

  Made-Alike :
      (job : LoaderJob S) (l m : LoaderLane S) (dropped : List (LoaderJob S))
      → Made job l (m, dropped)
      → Alike l m
  Made-Alike job l m dropped (dropped_fetches e) =
      subst (λ (x : LoaderLane S × List (LoaderJob S)). Alike l x.0) (sym e)
        (supersede-Alike fetches l)
  Made-Alike job l m dropped (dropped_prefetches e none') =
      subst (λ (x : LoaderLane S × List (LoaderJob S)). Alike l x.0) (sym e)
        (supersede-Alike is_prefetch l)
  Made-Alike job l m dropped (dropped_none e plain) =
      subst (λ (x : LoaderLane S × List (LoaderJob S)). Alike l x.0) (sym e) (Alike-refl l)

  -- `submit` leaves the results that wait for the player loop, the class of the running job and
  -- whether the lane is closed.
  pub submit-Alike : (job : LoaderJob S) (l : LoaderLane S) → Alike l (submit job l).0
  submit-Alike job l = elim (submit-Submission job l) [
    | refused e same ↦ subst (λ x. Alike l x.0) (sym same) (Alike-refl l)
    | went_on m dropped same made ↦
        let a = Made-Alike job l m dropped made in
        let b = enqueue-Alike job m dropped in
        subst (λ x. Alike l x.0) (sym same)
          (record {
            results = b.results ∙ a.results;
            closed = b.closed ∙ a.closed;
            cancelled = b.cancelled ∙ a.cancelled;
            running = b.running ∙ a.running;
          })
  ]

  -- A closed lane takes no job.
  pub submit-closed :
      (job : LoaderJob S) (l : LoaderLane S) → l.closed ≡ true → (submit job l).0.queue ≡ l.queue
  unfolding submit
  submit-closed job l e = ap (λ (x : LoaderLane S × List Reply). x.0.queue) (if_true l.closed _ _ e)
