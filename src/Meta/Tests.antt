-- ===== src/Meta/Tests.antt =====
-- Runs of the metadata caches, and the theorems about them at concrete values.
use go_librespot_termux.Prelude.{
  ℕ, ◌≡◌, refl, Bool, true, false, List, [], ◌∷◌, ◌++◌, Option, none, some, arith, ◌==◌,
  if◌then◌else◌, length, take, Text, codes, text_eq, text_eq_refl, ok, Kept, Bool-cases, inl, inr,
  text_eq→eq, if_true, if_false, ◌∙◌,
}
use go_librespot_termux.Ids.{type_track, strip}
use go_librespot_termux.Ids.Context.{one_of}
use go_librespot_termux.Tracks.Track.{ContextTrack}
use go_librespot_termux.Resolver.{has_prefix}
use go_librespot_termux.Meta.{
  Lru, LruLaws, ContextListEntry, ContextListCache, generation, set_generation, get_listing,
  put_listing, invalidate, begin_fetch, missing, missing_loop, meta_extension_kind, is_listable,
  context_track_uri, ListPage, items, end_of_list, listed, add_items, enumerate_loop,
  enumerate_context_tracks, sweep_loop, sweep,
}
use go_librespot_termux.Meta.Missing.{IsUnique, missing-order}
use go_librespot_termux.Meta.Listing.{reads, run_op, run_ops, put_listing-stale}
use go_librespot_termux.Meta.Enumerate.{no_more, one_more, uris_of, enumerate_context_tracks-first}
use go_librespot_termux.Meta.Sweeps.{Swept, sweep-Swept, Ends}
use go_librespot_termux.Meta.Sweeps.Queue.{
  SweepWorld, SweepReach, rest_first, step_after, submitted_job, looked, at_rest, submits, looks,
  IsSingle, SweepReach-IsSingle,
}

program : Unit {0}
unfolding generation set_generation get_listing put_listing invalidate begin_fetch missing
    missing_loop meta_extension_kind is_listable context_track_uri add_items enumerate_loop
    enumerate_context_tracks sweep_loop sweep has_prefix strip text_eq one_of run_op run_ops uris_of
    submits looks
program = tt

-- A cache that never evicts, as a function.
abbrev as_function : Lru ContextListEntry
as_function = record {
  Cache = Text → Option ContextListEntry;
  held = λ k c. c k;
  get = λ k c. (c, c k);
  add = λ k v c j. if text_eq k j then some v else c j;
  remove = λ k c j. if text_eq k j then none else c j;
}

as_function-LruLaws : LruLaws as_function
as_function-LruLaws = record {
  get_held = λ k c. refl;
  get_keeps = λ k j c. refl;
  add_held = λ k v c. if_true (text_eq k k) _ _ (text_eq_refl k);
  add_evicts = λ k j v c n e. elim (Bool-cases (text_eq k j)) [
    | inl y ↦ absurd (n (text_eq→eq k j y))
    | inr f ↦ if_false (text_eq k j) _ _ f ∙ e
  ];
  remove_held = λ k c. if_true (text_eq k k) _ _ (text_eq_refl k);
  remove_keeps = λ k j c e. elim (Bool-cases (text_eq k j)) [
    | inl y ↦ if_true (text_eq k j) _ _ y
    | inr f ↦ if_false (text_eq k j) _ _ f ∙ e
  ];
}

abbrev album : Text
album = codes "spotify:album:x"

abbrev flying : ContextListCache as_function
flying = record { lru = λ k. none; in_flight = (album, 0) ∷ [] }

flying_now : generation album flying.in_flight ≡ some 0
unfolding program
flying_now = refl

put_listing-stale_example :
    let c' = run_ops as_function (reads 7 album ∷ []) (invalidate as_function album flying) in
    (put_listing as_function 8 album (codes "old" ∷ []) 0 c' ≡ c')
    × ((get_listing as_function 9 album (put_listing as_function 8 album (codes "old" ∷ []) 0 c')).1
        ≡ none)
put_listing-stale_example =
    put_listing-stale as_function as_function-LruLaws album 0 8 9 (codes "old" ∷ [])
      (reads 7 album ∷ []) flying flying_now (refl, tt)

known : Text → Bool
known t = text_eq t (codes "b")

finds :
    missing known (codes "a" ∷ [] ∷ codes "b" ∷ codes "a" ∷ codes "c" ∷ [])
    ≡ codes "a" ∷ codes "c" ∷ []
unfolding program known
finds = refl

missing-order_example :
    Kept
      (missing known (codes "a" ∷ codes "b" ∷ codes "a" ∷ []))
      (codes "a" ∷ codes "b" ∷ codes "a" ∷ [])
    × IsUnique (missing known (codes "a" ∷ codes "b" ∷ codes "a" ∷ []))
    × ((t : Text)
        → one_of t (missing known (codes "a" ∷ codes "b" ∷ codes "a" ∷ [])) ≡ true
        → (one_of t (codes "a" ∷ codes "b" ∷ codes "a" ∷ []) ≡ true)
          × (known t ≡ false)
          × ((length t == 0) ≡ false))
    × ((t : Text)
        → one_of t (codes "a" ∷ codes "b" ∷ codes "a" ∷ []) ≡ true
        → known t ≡ false
        → (length t == 0) ≡ false
        → one_of t (missing known (codes "a" ∷ codes "b" ∷ codes "a" ∷ [])) ≡ true)
missing-order_example = missing-order known (codes "a" ∷ codes "b" ∷ codes "a" ∷ [])

abbrev a_track : Text → ContextTrack
a_track u = record { uri = u; uid = []; gid = []; metadata = none }

abbrev two_tracks : List ContextTrack
two_tracks = a_track (codes "spotify:track:a") ∷ a_track (codes "spotify:local:b") ∷ []

abbrev one_episode : List ContextTrack
one_episode = a_track (codes "spotify:episode:c") ∷ []

abbrev pages : ℕ → ListPage
pages n = if n == 0 then items two_tracks else if n == 1 then items one_episode else end_of_list

abbrev names : List Text
names = codes "spotify:track:a" ∷ codes "spotify:episode:c" ∷ []

named : uris_of type_track (two_tracks ++ (one_episode ++ [])) ≡ ok names
unfolding program
named = refl

enumerate_context_tracks-first_example :
    enumerate_context_tracks pages type_track 1 ≡ ok (listed (take 1 names))
enumerate_context_tracks-first_example =
    enumerate_context_tracks-first pages type_track 1 3 (two_tracks ++ (one_episode ++ [])) names
      (one_more 0 two_tracks (one_episode ++ []) 2 refl
        (one_more 1 one_episode [] 1 refl (no_more 2 refl)))
      (omega arith) named (omega arith)

cuts : enumerate_context_tracks pages type_track 1 ≡ ok (listed (codes "spotify:track:a" ∷ []))
unfolding program
cuts = refl

abbrev fetch_all : ℕ → List Text → Option ℕ
fetch_all k b = some (length b)

sweep-Swept_example :
    (s : Swept fetch_all (λ k. true) 0 0 names (sweep fetch_all (λ k. true) names)) × Ends fetch_all
      (λ k. true)
      (sweep fetch_all (λ k. true) names).0
      s.rest
      names
      (sweep fetch_all (λ k. true) names).1
sweep-Swept_example = sweep-Swept fetch_all (λ k. true) names

abbrev sweeping_one : SweepWorld ℕ
sweeping_one = looks (submits 5 at_rest)

sweeping_one-SweepReach : SweepReach sweeping_one
unfolding submits
sweeping_one-SweepReach =
    step_after (step_after rest_first (submitted_job at_rest 5))
      (looked (submits 5 at_rest) (omega arith))

SweepReach-IsSingle_example : IsSingle sweeping_one
SweepReach-IsSingle_example = SweepReach-IsSingle sweeping_one sweeping_one-SweepReach
