-- ===== src/Loader/Apply/Events.antt =====
-- daemon/loader.go: the player events that are held back.
use go_librespot_termux.Prelude.{
  ℕ, zero, suc, ◌+◌, ◌≤◌, ◌≡◌, ◌⊎◌, refl, sym, ◌∙◌, subst, Bool, true, false, List, [], ◌∷◌, ◌++◌,
  arith, Bool-cases, inl, inr, if◌then◌else◌, length, length-append, take, append_assoc, append-nil,
  leb, leb→le, leb-false→lt, le→leb, lt→leb-false, if_true, if_false,
}
use go_librespot_termux.Loader.{PlayerEvent, Player}
use go_librespot_termux.Loader.Apply.{
  live_events, defer_player_event, forget_replaced_stream_events, drain_pending_player_events,
  handle_all,
}

-- The events are those that are not the end of an older stream.
abbrev pub Survives : ℕ → PlayerEvent → Type 0
Survives gen e = (gen ≤ e.stream_gen) ⊎ (e.stopped ≡ false)

-- A list with some of its entries, in order: those that stay pass, those that go do not.
pub data Sieved (P : PlayerEvent → Type 0) : List PlayerEvent → List PlayerEvent → Type 0 where
  none_left : Sieved P [] []
  stays :
      {e : PlayerEvent} {es ks : List PlayerEvent}
      → P e
      → Sieved P es ks
      → Sieved P (e ∷ es) (e ∷ ks)
  goes :
      {e : PlayerEvent} {es ks : List PlayerEvent} → ¬ (P e) → Sieved P es ks → Sieved P (e ∷ es) ks

not_Survives :
    (gen : ℕ) (e : PlayerEvent)
    → leb gen e.stream_gen ≡ false
    → e.stopped ≡ true
    → ¬ (Survives gen e)
not_Survives gen e old s (inl new) = omega (arith, leb-false→lt _ _ old)
not_Survives gen e old s (inr k) = cc

live_events-Sieved :
    (gen : ℕ) (es : List PlayerEvent) → Sieved (Survives gen) es (live_events gen es)
unfolding live_events
live_events-Sieved gen [] = none_left
live_events-Sieved gen (e ∷ es) = elim (Bool-cases (leb gen e.stream_gen)) [
  | inl new ↦ rw new (stays (inl (leb→le _ _ new)) (live_events-Sieved gen es))
  | inr old ↦ elim (Bool-cases e.stopped) [
    | inl s ↦
        subst (Sieved (Survives gen) (e ∷ es))
          (sym (if_false (leb gen e.stream_gen) _ _ old ∙ if_true e.stopped _ _ s))
          (goes (not_Survives gen e old s) (live_events-Sieved gen es))
    | inr s ↦
        subst (Sieved (Survives gen) (e ∷ es))
          (sym (if_false (leb gen e.stream_gen) _ _ old ∙ if_false e.stopped _ _ s))
          (stays (inr s) (live_events-Sieved gen es))
  ]
]

take-nil : (n : ℕ) → take {A = PlayerEvent} n [] ≡ []
take-nil zero = refl
take-nil (suc n) = refl

module _ {S : Type 0} where
  -- Events that come one after the other: the state after, and whether all of them were taken.
  pub deferred : List PlayerEvent → Player S → Player S × Bool
  deferred [] p = (p, true)
  deferred (e ∷ es) p =
      let r = defer_player_event e p in
      let rest = deferred es r.0 in (rest.0, if r.1 then rest.1 else false)

  -- `forgetReplacedStreamEvents` drops the stops of streams older than the given one from the events
  -- that are held, and no others, keeps the order of the rest, and changes nothing else.
  forget_replaced_stream_events-Sieved :
      (gen : ℕ) (p : Player S)
      → (es : List PlayerEvent) × (forget_replaced_stream_events gen p ≡ record p { pending = es })
        × Sieved (Survives gen) p.pending es
  unfolding forget_replaced_stream_events
  forget_replaced_stream_events-Sieved gen p =
      (live_events gen p.pending, refl, live_events-Sieved gen p.pending)

  -- The first events fill the `n` places that are free.
  deferred-pending :
      (es q : List PlayerEvent) (n : ℕ) (p : Player S)
      → length q + n ≡ 32
      → deferred es (record p { load_in_flight = true; pending = q })
        ≡ (record p { load_in_flight = true; pending = q ++ take n es }, true)
  unfolding deferred defer_player_event
  deferred-pending [] q n p h = rw (take-nil n, append-nil q)
  deferred-pending (e ∷ es) q zero p h =
      rw (le→leb 32 (length q) (omega arith), deferred-pending es q zero p h)
  deferred-pending (e ∷ es) q (suc n) p h = rw (
    lt→leb-false 32 (length q) (omega arith),
    deferred-pending es (q ++ (e ∷ [])) n p (omega (arith, length-append q (e ∷ []))),
    append_assoc q (e ∷ []) (take n es),
  )

  -- While a load is in flight every player event is taken, and once it lands the player loop handles
  -- the first 32 of them, in the order in which they came. This is so if none was held before.
  drain_pending_player_events-deferred :
      (handle : PlayerEvent → Player S → Player S) (es : List PlayerEvent) (p : Player S)
      → p.load_in_flight ≡ true
      → p.pending ≡ []
      → (q : Player S) × (deferred es p ≡ (q, true))
        × (drain_pending_player_events handle q ≡ handle_all handle (take 32 es) p)
  unfolding drain_pending_player_events
  drain_pending_player_events-deferred handle es p = go p.load_in_flight p.pending
    where
      go :
          (b : Bool) (q : List PlayerEvent)
          → b ≡ true
          → q ≡ []
          → (r : Player S) × (deferred es (record p { load_in_flight = b; pending = q })
              ≡ (r, true))
            × (drain_pending_player_events handle r
                ≡ handle_all handle (take 32 es) (record p { load_in_flight = b; pending = q }))
      go true [] flag empty = (
        record p { load_in_flight = true; pending = take 32 es },
        deferred-pending es [] 32 p refl,
        refl,
      )
      go true (x ∷ q) flag empty = absurd (cc)
      go false q flag empty = absurd (cc)
