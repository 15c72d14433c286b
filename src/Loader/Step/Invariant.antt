-- ===== src/Loader/Step/Invariant.antt =====
-- daemon/loader.go: what holds of the lane in every reachable state.
use go_librespot_termux.Prelude.{
  ℕ, ◌-◌, ◌≤◌, ◌≡◌, refl, ap, sym, ◌∙◌, subst, true, false, List, [], ◌∷◌, ◌++◌, Option, none, some,
  arith, Bool-cases, if_both, inl, inr, length, length-append,
}
use go_librespot_termux.Loader.{
  LoaderClass, LoaderJob, LoaderLane, ReplyTo, Reply, PlayerEvent, Player, fetches, submit,
  drop_loads, drop_loads_locked, supersede, next, taken_from, execute, close, new_loader_lane,
}
use go_librespot_termux.Loader.Queue.{
  answered, owed, fetching, fetching-append, IsValid, Kept-fetches, Alike, Alike-refl,
  supersede-Alike, running_class, running_class-cancel_if,
}
use go_librespot_termux.Loader.Submit.{submit-IsValid, submit-Alike, submit-closed}
use go_librespot_termux.Loader.Taken.{idle, held, took_head, took_mutation, next-Choice}
use go_librespot_termux.Loader.Step.{
  Worker, looking, waiting, working, delivering, stopped, System, started, replied, submitting,
  looked, executed, delivered, abandoned, applied, Step, Reachable, submits, drops_loads, closes,
  looks, wakes, timer, ends, executes, delivers, abandons, applies, plays, start, step,
}
use go_librespot_termux.Loader.Step.Accounts.{in_hand, unread, Reachable-Balanced}

module _ {S : Type 0} where
  abbrev pub job_class : Worker S → Option LoaderClass
  job_class looking = none
  job_class (waiting n) = none
  job_class (working j) = some j.class
  job_class (delivering r) = none
  job_class stopped = none

  -- The lane's own state, for what the goroutine runs.
  pub record SoundLane (l : LoaderLane S) (runs : Option LoaderClass) : Type 0 where
    pub queue : IsValid l.queue
    pub closed : l.closed ≡ true → l.queue ≡ []
    pub cancelled : l.cancelled ≡ l.closed
    pub results : length l.results ≤ 4
    pub running : running_class l.running ≡ runs

  abbrev pub Sound : System S → Type 0
  Sound s = SoundLane s.lane (job_class s.worker)

  SoundLane-Alike :
      (l m : LoaderLane S) (c : Option LoaderClass)
      → Alike l m
      → IsValid m.queue
      → (m.closed ≡ true → m.queue ≡ [])
      → SoundLane l c
      → SoundLane m c
  SoundLane-Alike l m c a q empty s = record {
    queue = q;
    closed = empty;
    cancelled = a.cancelled ∙ (s.cancelled ∙ sym a.closed);
    results = rw a.results s.results;
    running = a.running ∙ s.running;
  }

  submit-SoundLane :
      (j : LoaderJob S) (l : LoaderLane S) (c : Option LoaderClass)
      → SoundLane l c
      → SoundLane (submit j l).0 c
  submit-SoundLane j l c s =
      let a = submit-Alike j l in
      SoundLane-Alike l (submit j l).0 c a (submit-IsValid j l s.queue)
        (λ e. let was = sym a.closed ∙ e in submit-closed j l was ∙ s.closed was) s

  drop_loads-SoundLane :
      (l : LoaderLane S) (c : Option LoaderClass) → SoundLane l c → SoundLane (drop_loads l).0 c
  unfolding drop_loads drop_loads_locked
  drop_loads-SoundLane l c s =
      let k = Kept-fetches l.queue in
      if_both (λ (x : LoaderLane S × List Reply). SoundLane x.0 c) l.closed _ _ s
        (λ open'.
          SoundLane-Alike l (supersede fetches l).0 c (supersede-Alike fetches l)
            (unfold supersede in
              (record {
                bound = omega (arith, k.bound, s.queue.bound);
                one_fetch = omega (arith, k.none_left);
              }))
            (λ e. absurd (cc ((supersede-Alike fetches l).closed, open'))) s)

  IsValid-nil : IsValid {S = S} []
  unfolding fetching
  IsValid-nil = record { bound = omega arith; one_fetch = omega arith }

  fetching-tail : (j : LoaderJob S) (js : List (LoaderJob S)) → fetching js ≤ fetching (j ∷ js)
  unfolding fetching
  fetching-tail j js = elim (Bool-cases (fetches j.class)) [
    | inl e ↦ rw e (omega arith)
    | inr e ↦ rw e (omega arith)
  ]

  -- Taking a job off a valid queue leaves a valid one.
  IsValid-taken :
      (q a : List (LoaderJob S)) (k : LoaderJob S) (b : List (LoaderJob S))
      → q ≡ a ++ (k ∷ b)
      → IsValid q
      → IsValid (a ++ b)
  IsValid-taken q a k b e v =
      let u = subst IsValid e v in
      record {
        bound = omega (arith, u.bound, length-append a (k ∷ b), length-append a b);
        one_fetch =
            omega (
              arith,
              u.one_fetch,
              fetching-append a (k ∷ b),
              fetching-append a b,
              fetching-tail k b,
            );
      }

  close-SoundLane :
      (l : LoaderLane S) (c : Option LoaderClass) → SoundLane l c → SoundLane (close l).0 c
  unfolding close
  close-SoundLane l c s =
      if_both (λ (x : LoaderLane S × List Reply). SoundLane x.0 c) l.closed _ _ s
        (λ open'. record {
          queue = IsValid-nil;
          closed = λ _. refl;
          cancelled = refl;
          results = s.results;
          running = running_class-cancel_if (λ _. true) l.running ∙ s.running;
        })

  looked-none :
      (s : System S) (n : ℕ) → s.worker ≡ looking → Sound s → Sound (looked (s.lane, n, none) s)
  unfolding looked
  looked-none s n e v = subst (λ c. SoundLane s.lane c) (ap job_class e) v

  looked-taken :
      (s : System S) (q : List (LoaderJob S)) (k : LoaderJob S)
      → IsValid q
      → s.lane.closed ≡ false
      → Sound s
      → Sound (looked (taken_from s.lane q k) s)
  unfolding looked taken_from
  looked-taken s q k q' open' v = record {
    queue = q';
    closed = λ e. absurd (cc);
    cancelled = v.cancelled;
    results = v.results;
    running = refl;
  }

  open-of :
      (s : System S) (j : LoaderJob S) (js : List (LoaderJob S))
      → s.lane.queue ≡ j ∷ js
      → Sound s
      → s.lane.closed ≡ false
  open-of s j js q v = elim (Bool-cases s.lane.closed) [
    | inl e ↦ absurd (cc (v.closed e, q))
    | inr e ↦ e
  ]

  looked-Sound :
      (s : System S) (now : ℕ) → s.worker ≡ looking → Sound s → Sound (looked (next now s.lane) s)
  looked-Sound s now e v = elim (next-Choice now s.lane) [
    | idle _ same ↦ subst (λ r. Sound (looked r s)) (sym same) (looked-none s 0 e v)
    | held j js q early none' same ↦
        subst (λ r. Sound (looked r s)) (sym same) (looked-none s (j.not_before - now) e v)
    | took_head j js q due same ↦
        subst (λ r. Sound (looked r s)) (sym same)
          (looked-taken s js j (IsValid-taken s.lane.queue [] j js q v.queue) (open-of s j js q v)
            v)
    | took_mutation j js a k c q early split same ↦
        subst (λ r. Sound (looked r s)) (sym same)
          (looked-taken s (a ++ c) k (IsValid-taken s.lane.queue a k c split.whole v.queue)
            (open-of s j js q v) v)
  ]

  idle-Sound :
      (s : System S) (u : Worker S) (l : LoaderLane S)
      → job_class u ≡ job_class s.worker
      → Alike s.lane l
      → l.queue ≡ s.lane.queue
      → Sound s
      → SoundLane l (job_class u)
  idle-Sound s u l e a q v =
      subst (λ c. SoundLane l c) (sym e)
        (SoundLane-Alike s.lane l (job_class s.worker) a (subst IsValid (sym q) v.queue)
          (λ c. q ∙ v.closed (sym a.closed ∙ c)) v)

  module _ (handle : PlayerEvent → Player S → Player S) where
    Step-Sound : (s t : System S) → Step handle s t → Sound s → Sound t
    unfolding submitting replied executed execute delivered abandoned applied
    Step-Sound s t (submits j) v = submit-SoundLane j s.lane (job_class s.worker) v
    Step-Sound s t drops_loads v = drop_loads-SoundLane s.lane (job_class s.worker) v
    Step-Sound s t closes v = close-SoundLane s.lane (job_class s.worker) v
    Step-Sound s t (looks now e) v = looked-Sound s now e v
    Step-Sound s t (wakes n e woken) v =
        idle-Sound s looking (record (s.lane) { wake = false }) (sym (ap job_class e))
          (record { results = refl; closed = refl; cancelled = refl; running = refl }) refl v
    Step-Sound s t (timer n e pos) v =
        idle-Sound s looking s.lane (sym (ap job_class e)) (Alike-refl s.lane) refl v
    Step-Sound s t (ends n e over) v =
        idle-Sound s stopped s.lane (sym (ap job_class e)) (Alike-refl s.lane) refl v
    Step-Sound s t (executes world j e) v = record {
      queue = v.queue;
      closed = v.closed;
      cancelled = v.cancelled;
      results = v.results;
      running = refl;
    }
    Step-Sound s t (delivers r e room) v = record {
      queue = v.queue;
      closed = v.closed;
      cancelled = v.cancelled;
      results = omega (arith, length-append s.lane.results (r ∷ []), room);
      running = v.running ∙ ap job_class e;
    }
    Step-Sound s t (abandons r e over) v =
        idle-Sound s stopped s.lane (sym (ap job_class e)) (Alike-refl s.lane) refl v
    Step-Sound s t (applies r rs e) v = record {
      queue = v.queue;
      closed = v.closed;
      cancelled = v.cancelled;
      results = omega (arith, v.results, ap length e);
      running = v.running;
    }
    Step-Sound s t (plays p) v = v

    -- In every reachable state the queue holds at most 32 jobs, of which at most one fetches; a closed
    -- lane has an empty queue and a cancelled context; at most 4 results wait for the player loop; and
    -- the lane records a running job, of that class, just when the goroutine runs one.
    pub Reachable-Sound : (s : System S) → Reachable handle s → Sound s
    unfolding started new_loader_lane
    Reachable-Sound s (start p) = record {
      queue = IsValid-nil;
      closed = λ e. refl;
      cancelled = refl;
      results = omega arith;
      running = refl;
    }
    Reachable-Sound s (step {s = x} r last) = Step-Sound x s last (Reachable-Sound x r)

    -- Once the lane is closed, its goroutine has ended and every result is read, every job that was
    -- submitted has been answered exactly once: with any weights for the replies, the calls of `done`
    -- weigh as much as the jobs submitted.
    pub Reachable-answered :
        (w : ReplyTo → ℕ) (s : System S)
        → Reachable handle s
        → s.worker ≡ stopped
        → s.lane.closed ≡ true
        → s.lane.results ≡ []
        → answered w s.log ≡ owed w s.submitted
    unfolding in_hand unread owed
    Reachable-answered w s r e c none' = omega (
      arith,
      Reachable-Balanced w handle s r,
      ap (in_hand w) e,
      ap (unread w) none',
      ap (owed w) ((Reachable-Sound s r).closed c),
    )
