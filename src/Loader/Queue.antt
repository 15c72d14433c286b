-- ===== src/Loader/Queue.antt =====
-- daemon/loader.go: the jobs that are queued, and the replies that they owe.
use go_librespot_termux.Prelude.{
  ℕ, suc, ◌+◌, ◌≤◌, ◌≡◌, refl, ap, Bool, false, List, [], ◌∷◌, ◌++◌, Option, none, some, arith,
  Bool-cases, inl, inr, if◌then◌else◌, length,
}
use go_librespot_termux.Loader.{
  LoaderClass, RunningJob, cancel_if, class_load, class_nav, class_mutate, class_prefetch,
  LoaderJob, LoaderLane, ReplyTo, Reply, LoaderError, superseded, loads, fetches, is_prefetch,
  partition_queue, reply_all, queued_loads, supersede,
}

-- Replies are counted with any weights: with the weight 1 for one reply and 0 for the others, a sum
-- is the number of its occurrences.
abbrev pub running_class : Option RunningJob → Option LoaderClass
running_class none = none
running_class (some r) = some r.class

pub running_class-cancel_if :
    (drop : LoaderClass → Bool) (o : Option RunningJob)
    → running_class (cancel_if drop o) ≡ running_class o
unfolding cancel_if
running_class-cancel_if drop none = refl
running_class-cancel_if drop (some r) = elim (Bool-cases (drop r.class)) [
  | inl e ↦ rw e refl
  | inr e ↦ rw e refl
]

unfoldable pub answered : (ReplyTo → ℕ) → List Reply → ℕ
answered w [] = 0
answered w (r ∷ rs) = w r.to + answered w rs

unfoldable pub owed : {S : Type 0} → (ReplyTo → ℕ) → List (LoaderJob S) → ℕ
owed w [] = 0
owed w (j ∷ js) = w j.reply + owed w js

is_prefetch-eq-fetches : (c : LoaderClass) → loads c ≡ false → is_prefetch c ≡ fetches c
unfolding loads is_prefetch fetches
is_prefetch-eq-fetches class_load h = absurd (cc)
is_prefetch-eq-fetches class_nav h = refl
is_prefetch-eq-fetches class_mutate h = refl
is_prefetch-eq-fetches class_prefetch h = refl

module _ (w : ReplyTo → ℕ) where
  pub answered-append : (a b : List Reply) → answered w (a ++ b) ≡ answered w a + answered w b
  unfolding answered
  answered-append [] b = omega arith
  answered-append (j ∷ a) b = omega (arith, answered-append a b)

module _ {S : Type 0} (w : ReplyTo → ℕ) where
  pub owed-append : (a b : List (LoaderJob S)) → owed w (a ++ b) ≡ owed w a + owed w b
  unfolding owed
  owed-append [] b = omega arith
  owed-append (j ∷ a) b = omega (arith, owed-append a b)

  pub answered-reply_all :
      (js : List (LoaderJob S)) (e : LoaderError) → answered w (reply_all js e) ≡ owed w js
  unfolding reply_all answered owed
  answered-reply_all [] e = refl
  answered-reply_all (j ∷ js) e = omega (arith, answered-reply_all js e)

  owed-partition_queue :
      (drop : LoaderClass → Bool) (js : List (LoaderJob S))
      → owed w (partition_queue drop js).0 + owed w (partition_queue drop js).1 ≡ owed w js
  unfolding partition_queue owed
  owed-partition_queue drop [] = omega arith
  owed-partition_queue drop (j ∷ js) = elim (Bool-cases (drop j.class)) [
    | inl e ↦ rw e (omega (arith, owed-partition_queue drop js))
    | inr e ↦ rw e (omega (arith, owed-partition_queue drop js))
  ]

  pub owed-supersede :
      (drop : LoaderClass → Bool) (l : LoaderLane S)
      → answered w (reply_all (supersede drop l).1 superseded) + owed w (supersede drop l).0.queue
        ≡ owed w l.queue
  unfolding supersede
  owed-supersede drop l = omega (
    arith,
    answered-reply_all (partition_queue drop l.queue).0 superseded,
    owed-partition_queue drop l.queue,
  )

module _ {S : Type 0} where
  -- The jobs that fetch nothing: navigation and mutations, in order.
  unfoldable pub lasting : List (LoaderJob S) → List (LoaderJob S)
  lasting [] = []
  lasting (j ∷ js) = if fetches j.class then lasting js else j ∷ lasting js

  -- How many of the jobs fetch: loads and prefetches.
  unfoldable pub fetching : List (LoaderJob S) → ℕ
  fetching [] = 0
  fetching (j ∷ js) = if fetches j.class then suc (fetching js) else fetching js

  pub lasting-append : (a b : List (LoaderJob S)) → lasting (a ++ b) ≡ lasting a ++ lasting b
  unfolding lasting
  lasting-append [] b = refl
  lasting-append (j ∷ a) b = elim (Bool-cases (fetches j.class)) [
    | inl e ↦ rw e (lasting-append a b)
    | inr e ↦ rw e (ap (◌∷◌ j) (lasting-append a b))
  ]

  pub fetching-append : (a b : List (LoaderJob S)) → fetching (a ++ b) ≡ fetching a + fetching b
  unfolding fetching
  fetching-append [] b = omega arith
  fetching-append (j ∷ a) b = elim (Bool-cases (fetches j.class)) [
    | inl e ↦ rw e (omega (arith, fetching-append a b))
    | inr e ↦ rw e (fetching-append a b)
  ]

  -- What dropping jobs leaves.
  pub record Kept (js ks : List (LoaderJob S)) : Type 0 where
    pub bound : length ks ≤ length js
    pub same : lasting ks ≡ lasting js
    pub none_left : fetching ks ≡ 0

  pub Kept-fetches : (js : List (LoaderJob S)) → Kept js (partition_queue fetches js).1
  unfolding partition_queue lasting fetching
  Kept-fetches [] = record { bound = omega arith; same = refl; none_left = refl }
  Kept-fetches (j ∷ js) =
      let k = Kept-fetches js in
      elim (Bool-cases (fetches j.class)) [
        | inl e ↦
            rw e (record {
              bound = omega (arith, k.bound);
              same = rw e k.same;
              none_left = k.none_left;
            })
        | inr e ↦ rw e (record {
          bound = omega (arith, k.bound);
          same = rw e (ap (◌∷◌ j) k.same);
          none_left = rw e k.none_left;
        })
      ]

  -- With no load or navigation in the queue, the jobs that fetch are the prefetches.
  pub partition_queue-is_prefetch :
      (js : List (LoaderJob S))
      → queued_loads js ≡ false
      → partition_queue is_prefetch js ≡ partition_queue fetches js
  unfolding partition_queue queued_loads
  partition_queue-is_prefetch [] h = refl
  partition_queue-is_prefetch (j ∷ js) h = elim (Bool-cases (loads j.class)) [
    | inl e ↦ absurd (cc (rw e at h))
    | inr e ↦ rw (is_prefetch-eq-fetches j.class e, partition_queue-is_prefetch js (rw e at h)) refl
  ]

  -- A queue with at most 32 jobs, of which at most one fetches.
  pub record IsValid (js : List (LoaderJob S)) : Type 0 where
    pub bound : length js ≤ 32
    pub one_fetch : fetching js ≤ 1

  -- What the operations on the queue leave alone.
  pub record Alike (l m : LoaderLane S) : Type 0 where
    pub results : m.results ≡ l.results
    pub closed : m.closed ≡ l.closed
    pub cancelled : m.cancelled ≡ l.cancelled
    pub running : running_class m.running ≡ running_class l.running

  pub Alike-refl : (l : LoaderLane S) → Alike l l
  Alike-refl l = record { results = refl; closed = refl; cancelled = refl; running = refl }

  pub supersede-Alike :
      (drop : LoaderClass → Bool) (l : LoaderLane S) → Alike l (supersede drop l).0
  unfolding supersede
  supersede-Alike drop l = record {
    results = refl;
    closed = refl;
    cancelled = refl;
    running = running_class-cancel_if drop l.running;
  }
