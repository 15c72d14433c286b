-- ===== src/Loader/Apply.antt =====
-- daemon/loader.go: how the player loop takes in the lane's results, and the player events that it
-- holds back while a load is outstanding. What the loop does with an event is a parameter.
pub mod Outcome
pub mod Events
use go_librespot_termux.Prelude.{
  ℕ, zero, suc, ◌+◌, Bool, true, false, ◌&&◌, not, List, [], ◌∷◌, ◌++◌, Option, none, some, ltb,
  leb, ◌==◌, if◌then◌else◌, length,
}
use go_librespot_termux.Loader.{
  LoaderClass, class_load, class_nav, class_mutate, class_prefetch, is_load, is_mutate, is_prefetch,
  LoaderError, superseded, Reply, PlayerEvent, Player, Answer, LoaderResult,
}

abbrev pub max_pending_player_events : ℕ
max_pending_player_events = 32

-- `slices.DeleteFunc`
unfoldable pub live_events : ℕ → List PlayerEvent → List PlayerEvent
live_events gen [] = []
live_events gen (e ∷ es) =
    let rest = live_events gen es in
    if leb gen e.stream_gen then e ∷ rest else if e.stopped then rest else e ∷ rest

module _ {S : Type 0} where
  unfoldable pub generation : LoaderClass → Player S → ℕ
  unfolding is_prefetch
  generation c p = if is_prefetch c then p.prefetch_gen else p.load_gen

  -- Whether the event was taken, and the state after.
  unfoldable pub defer_player_event : PlayerEvent → Player S → Player S × Bool
  defer_player_event e p =
      if p.load_in_flight
      then if leb max_pending_player_events (length p.pending)
        then (p, true)
        else (record p { pending = p.pending ++ (e ∷ []) }, true)
      else (p, false)

  unfoldable pub forget_replaced_stream_events : ℕ → Player S → Player S
  unfolding live_events
  forget_replaced_stream_events gen p = record p { pending = live_events gen p.pending }

  unfoldable pub handle_all :
      (PlayerEvent → Player S → Player S) → List PlayerEvent → Player S → Player S
  handle_all handle [] p = p
  handle_all handle (e ∷ es) p = handle_all handle es (handle e p)

  unfoldable pub drain_pending_player_events :
      (PlayerEvent → Player S → Player S) → Player S → Player S
  unfolding handle_all
  drain_pending_player_events handle p = handle_all handle p.pending (record p { pending = [] })

  -- A load of the current generation has landed.
  unfoldable pub lands : LoaderResult S → Player S → Bool
  unfolding is_load
  lands res p = is_load res.class && res.gen == p.load_gen

  unfoldable pub stale : LoaderResult S → Player S → Bool
  unfolding is_mutate generation
  stale res p = not (is_mutate res.class) && not (res.gen == generation res.class p)

  unfoldable pub committed : LoaderResult S → Player S → Player S
  committed res p = elim res.answer.commit [ none ↦ p | some c ↦ c res.answer.err p ]

  unfoldable pub unlanded : Bool → Player S → Player S
  unlanded true p = record p { load_in_flight = false }
  unlanded false p = p

  -- The deferred drain of a load that has landed.
  unfoldable pub leave : (PlayerEvent → Player S → Player S) → Bool → Player S → Player S
  unfolding drain_pending_player_events
  leave handle true p = drain_pending_player_events handle p
  leave handle false p = p

  -- Given whether the result is stale: the state after, the call of `done`, and whether the result's
  -- `discard` runs.
  unfoldable pub finish :
      (PlayerEvent → Player S → Player S)
      → LoaderResult S
      → Bool
      → Player S
      → Bool
      → Player S × Reply × Bool
  unfolding leave committed
  finish handle res landed p true = (
    leave handle landed p,
    record { to = res.reply; value = none; err = some superseded },
    res.answer.discard,
  )
  finish handle res landed p false = (
    leave handle landed (committed res p),
    record { to = res.reply; value = res.answer.value; err = res.answer.err },
    false,
  )

  unfoldable pub apply_loader_result :
      (PlayerEvent → Player S → Player S) → LoaderResult S → Player S → Player S × Reply × Bool
  unfolding lands unlanded stale finish
  apply_loader_result handle res p =
      let landed = lands res p in
      let q = unlanded landed p in finish handle res landed q (stale res q)
