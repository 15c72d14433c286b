-- ===== src/Loader/Step/Accounts.antt =====
-- daemon/loader.go: every job that is submitted is answered once.
use go_librespot_termux.Prelude.{
  ℕ, ◌+◌, ◌-◌, ◌≡◌, refl, ap, sym, ◌∙◌, subst, Bool, true, false, List, [], ◌∷◌, ◌++◌, none, some,
  arith, if_both,
}
use go_librespot_termux.Loader.{
  LoaderJob, LoaderLane, LoaderResult, ReplyTo, Reply, PlayerEvent, Player, superseded, no_session,
  reply_all, fetches, submit, drop_loads, drop_loads_locked, supersede, next, taken_from, execute,
  close, cancel_if, new_loader_lane,
}
use go_librespot_termux.Loader.Queue.{
  answered, owed, owed-append, answered-append, answered-reply_all, owed-supersede,
}
use go_librespot_termux.Loader.Submit.{submit-owed, submit-Alike}
use go_librespot_termux.Loader.Taken.{idle, held, took_head, took_mutation, next-Choice}
use go_librespot_termux.Loader.Apply.{apply_loader_result, lands, unlanded, stale, finish}
use go_librespot_termux.Loader.Step.{
  Worker, looking, waiting, working, delivering, stopped, System, started, replied, submitting,
  looked, executed, delivered, abandoned, applied, Step, Reachable, submits, drops_loads, closes,
  looks, wakes, timer, ends, executes, delivers, abandons, applies, plays, start, step,
}

module _ {S : Type 0} (w : ReplyTo → ℕ) where
  -- What the goroutine still has to answer, and what waits for the player loop.
  unfoldable pub in_hand : Worker S → ℕ
  in_hand looking = 0
  in_hand (waiting n) = 0
  in_hand (working j) = w j.reply
  in_hand (delivering r) = w r.reply
  in_hand stopped = 0

  unfoldable pub unread : List (LoaderResult S) → ℕ
  unread [] = 0
  unread (r ∷ rs) = w r.reply + unread rs

  unread-append : (a b : List (LoaderResult S)) → unread (a ++ b) ≡ unread a + unread b
  unfolding unread
  unread-append [] b = omega arith
  unread-append (r ∷ a) b = omega (arith, unread-append a b)

  -- The calls of `done` so far and the replies still owed are those of the jobs submitted.
  abbrev pub Balanced : System S → Type 0
  Balanced s =
      answered w s.log + owed w s.lane.queue + in_hand s.worker + unread s.lane.results
      ≡ owed w s.submitted

  -- An operation of the lane that answers what it takes off the queue.
  record Conserves (l : LoaderLane S) (more : ℕ) (r : LoaderLane S × List Reply) : Type 0 where
    balance : answered w r.1 + owed w r.0.queue ≡ more + owed w l.queue
    results : r.0.results ≡ l.results

  submit-Conserves : (j : LoaderJob S) (l : LoaderLane S) → Conserves l (w j.reply) (submit j l)
  submit-Conserves j l = record {
    balance = submit-owed w j l;
    results = (submit-Alike j l).results;
  }

  Conserves-none : (l : LoaderLane S) → Conserves l 0 (l, [])
  unfolding answered
  Conserves-none l = record { balance = omega arith; results = refl }

  drop_loads-Conserves : (l : LoaderLane S) → Conserves l 0 (drop_loads l)
  unfolding drop_loads drop_loads_locked
  drop_loads-Conserves l =
      if_both (Conserves l 0) l.closed (l, [])
        ((supersede fetches l).0, reply_all (supersede fetches l).1 superseded) (Conserves-none l)
        (λ _. record {
          balance = omega (arith, owed-supersede w fetches l);
          results = unfold supersede in refl;
        })

  close-Conserves : (l : LoaderLane S) → Conserves l 0 (close l)
  unfolding close owed
  close-Conserves l =
      if_both (Conserves l 0) l.closed (l, [])
        (
          record l {
            queue = [];
            closed = true;
            cancelled = true;
            running = cancel_if (λ _. true) l.running;
          },
          reply_all l.queue no_session,
        )
        (Conserves-none l)
        (λ _. record {
          balance = omega (arith, answered-reply_all w l.queue no_session);
          results = refl;
        })

  replied-Balanced :
      (s : System S) (m : ℕ) (r : LoaderLane S × List Reply) (t : System S)
      → Conserves s.lane m r
      → t.log ≡ s.log
      → t.worker ≡ s.worker
      → owed w t.submitted ≡ owed w s.submitted + m
      → Balanced s
      → Balanced (replied r t)
  unfolding replied
  replied-Balanced s m (l, rs) t c same hand more b =
      rw (same, hand)
        (omega (arith, answered-append w s.log rs, c.balance, ap unread c.results, more, b))

  owed-one : (j : LoaderJob S) → owed w (j ∷ []) ≡ w j.reply
  unfolding owed
  owed-one j = omega arith

  looked-none :
      (s : System S) (n : ℕ)
      → s.worker ≡ looking
      → Balanced s
      → Balanced (looked (s.lane, n, none) s)
  unfolding looked in_hand
  looked-none s n e b = omega (arith, b, ap in_hand e)

  looked-taken :
      (s : System S) (q : List (LoaderJob S)) (k : LoaderJob S)
      → s.worker ≡ looking
      → owed w s.lane.queue ≡ w k.reply + owed w q
      → Balanced s
      → Balanced (looked (taken_from s.lane q k) s)
  unfolding looked in_hand taken_from
  looked-taken s q k e paid b = omega (arith, b, ap in_hand e, paid)

  owed-cons : (j : LoaderJob S) (js : List (LoaderJob S)) → owed w (j ∷ js) ≡ w j.reply + owed w js
  unfolding owed
  owed-cons j js = refl

  owed-middle :
      (a : List (LoaderJob S)) (k : LoaderJob S) (b : List (LoaderJob S))
      → owed w (a ++ (k ∷ b)) ≡ w k.reply + owed w (a ++ b)
  owed-middle a k b = omega (arith, owed-append w a (k ∷ b), owed-cons k b, owed-append w a b)

  looked-Balanced :
      (s : System S) (now : ℕ)
      → s.worker ≡ looking
      → Balanced s
      → Balanced (looked (next now s.lane) s)
  looked-Balanced s now e b = elim (next-Choice now s.lane) [
    | idle _ same ↦ subst (λ r. Balanced (looked r s)) (sym same) (looked-none s 0 e b)
    | held j js q early none' same ↦
        subst (λ r. Balanced (looked r s)) (sym same) (looked-none s (j.not_before - now) e b)
    | took_head j js q due same ↦
        subst (λ r. Balanced (looked r s)) (sym same)
          (looked-taken s js j e (ap (owed w) q ∙ owed-cons j js) b)
    | took_mutation j js a k c q early split same ↦
        subst (λ r. Balanced (looked r s)) (sym same)
          (looked-taken s (a ++ c) k e (ap (owed w) split.whole ∙ owed-middle a k c) b)
  ]

  executed-Balanced :
      (s : System S) (world : ℕ) (j : LoaderJob S)
      → s.worker ≡ working j
      → Balanced s
      → Balanced (executed (execute world j s.lane) s)
  unfolding executed execute in_hand
  executed-Balanced s world j e b = omega (arith, b, ap in_hand e)

  delivered-Balanced :
      (s : System S) (r : LoaderResult S)
      → s.worker ≡ delivering r
      → Balanced s
      → Balanced (delivered r s)
  unfolding delivered in_hand unread
  delivered-Balanced s r e b = omega (arith, b, ap in_hand e, unread-append s.lane.results (r ∷ []))

  abandoned-Balanced :
      (s : System S) (r : LoaderResult S)
      → s.worker ≡ delivering r
      → Balanced s
      → Balanced (abandoned r s)
  unfolding abandoned in_hand answered
  abandoned-Balanced s r e b = omega (
    arith,
    b,
    ap in_hand e,
    answered-append w s.log (record { to = r.reply; value = none; err = some no_session } ∷ []),
  )

  finish-to :
      (handle : PlayerEvent → Player S → Player S) (r : LoaderResult S) (landed : Bool)
      (p : Player S) (late : Bool)
      → (finish handle r landed p late).1.to ≡ r.reply
  unfolding finish
  finish-to handle r landed p true = refl
  finish-to handle r landed p false = refl

  -- The player loop calls `done` of each result once.
  apply_loader_result-to :
      (handle : PlayerEvent → Player S → Player S) (r : LoaderResult S) (p : Player S)
      → (apply_loader_result handle r p).1.to ≡ r.reply
  unfolding apply_loader_result
  apply_loader_result-to handle r p =
      finish-to handle r (lands r p) (unlanded (lands r p) p) (stale r (unlanded (lands r p) p))

  applied-Balanced :
      (s : System S) (x : Player S × Reply × Bool) (r : LoaderResult S) (rs : List (LoaderResult S))
      → s.lane.results ≡ r ∷ rs
      → x.1.to ≡ r.reply
      → Balanced s
      → Balanced (applied x rs s)
  unfolding applied unread answered
  applied-Balanced s (p, reply, d) r rs e to b =
      omega (arith, b, ap unread e, answered-append w s.log (reply ∷ []), ap w to)

  module _ (handle : PlayerEvent → Player S → Player S) where
    Step-Balanced : (s t : System S) → Step handle s t → Balanced s → Balanced t
    unfolding submitting in_hand
    Step-Balanced s t (submits j) b =
        replied-Balanced s (w j.reply) (submit j s.lane)
          (record s { submitted = s.submitted ++ (j ∷ []) }) (submit-Conserves j s.lane) refl refl
          (omega (arith, owed-append w s.submitted (j ∷ []), owed-one j)) b
    Step-Balanced s t drops_loads b =
        replied-Balanced s 0 (drop_loads s.lane) s (drop_loads-Conserves s.lane) refl refl
          (omega arith) b
    Step-Balanced s t closes b =
        replied-Balanced s 0 (close s.lane) s (close-Conserves s.lane) refl refl (omega arith) b
    Step-Balanced s t (looks now e) b = looked-Balanced s now e b
    Step-Balanced s t (wakes n e woken) b = omega (arith, b, ap in_hand e)
    Step-Balanced s t (timer n e pos) b = omega (arith, b, ap in_hand e)
    Step-Balanced s t (ends n e over) b = omega (arith, b, ap in_hand e)
    Step-Balanced s t (executes world j e) b = executed-Balanced s world j e b
    Step-Balanced s t (delivers r e room) b = delivered-Balanced s r e b
    Step-Balanced s t (abandons r e over) b = abandoned-Balanced s r e b
    Step-Balanced s t (applies r rs e) b =
        applied-Balanced s (apply_loader_result handle r s.player) r rs e
          (apply_loader_result-to handle r s.player) b
    Step-Balanced s t (plays p) b = b

    -- In every reachable state the calls of `done` so far, the jobs queued, the job in the hands of the
    -- goroutine and the results not yet read make up the jobs submitted, whatever weights their replies
    -- have: no job is answered twice, and none is lost.
    pub Reachable-Balanced : (s : System S) → Reachable handle s → Balanced s
    unfolding started new_loader_lane answered owed unread in_hand
    Reachable-Balanced s (start p) = omega arith
    Reachable-Balanced s (step {s = x} r last) = Step-Balanced x s last (Reachable-Balanced x r)
