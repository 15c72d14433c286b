-- ===== src/Meta.antt =====
-- daemon/track_meta_cache.go: the metadata of the tracks around the one that plays, and the listings of
-- whole contexts. The cache of github.com/hashicorp/golang-lru is a parameter. Times are nanoseconds.
pub mod Missing
pub mod Listing
pub mod Enumerate
pub mod Sweeps
mod Tests
use go_librespot_termux.Prelude.{
  ℕ, zero, suc, ◌+◌, ◌-◌, ◌*◌, ◌≡◌, ◌≢◌, Bool, true, false, not, ◌&&◌, ◌||◌, List, [], ◌∷◌, ◌++◌,
  Option, none, some, ltb, leb, ◌==◌, if◌then◌else◌, length, take, drop, min, max, Text, codes,
  text_eq, Run, ok, panic, ◌>>=◌,
}
use go_librespot_termux.Ids.Context.{one_of, infer_type_from_context_uri}
use go_librespot_termux.Ids.{type_unknown}
use go_librespot_termux.Tracks.Track.{ContextTrack, gid_uri}
use go_librespot_termux.Resolver.{has_prefix}

-- An LRU cache by text. What it holds is what `Peek` would find.
pub record Lru (V : Type 0) : Type 1 where
  pub Cache : Type 0
  pub held : Text → Cache → Option V
  pub get : Text → Cache → Cache × Option V
  pub add : Text → V → Cache → Cache
  pub remove : Text → Cache → Cache

-- What the documentation of the library promises. `Add` may evict other entries.
pub record LruLaws {V : Type 0} (L : Lru V) : Type 0 where
  pub get_held : (k : Text) (c : L.Cache) → (L.get k c).1 ≡ L.held k c
  pub get_keeps : (k j : Text) (c : L.Cache) → L.held j (L.get k c).0 ≡ L.held j c
  pub add_held : (k : Text) (v : V) (c : L.Cache) → L.held k (L.add k v c) ≡ some v
  pub add_evicts :
      (k j : Text) (v : V) (c : L.Cache) → k ≢ j → L.held j c ≡ none → L.held j (L.add k v c) ≡ none
  pub remove_held : (k : Text) (c : L.Cache) → L.held k (L.remove k c) ≡ none
  pub remove_keeps : (k j : Text) (c : L.Cache) → L.held j c ≡ none → L.held j (L.remove k c) ≡ none

abbrev pub track_meta_cache_limit : ℕ
track_meta_cache_limit = 1000

abbrev pub track_meta_cache_headroom : ℕ
track_meta_cache_headroom = 200

abbrev pub default_meta_max_tracks : ℕ
default_meta_max_tracks = 800

abbrev pub max_meta_batch : ℕ
max_meta_batch = 100

abbrev pub max_context_pages : ℕ
max_context_pages = 256

abbrev pub context_list_ttl : ℕ
context_list_ttl = 300000000000

unfoldable pub track_meta_cache_capacity : ℕ → ℕ
track_meta_cache_capacity max_tracks =
    max track_meta_cache_limit (max_tracks + track_meta_cache_headroom)

-- For a setting that is not negative.
unfoldable pub effective_meta_max_tracks : ℕ → ℕ
effective_meta_max_tracks configured =
    if ltb 0 configured then configured else default_meta_max_tracks

-- The rounds of `missing`, for the uris seen before; `cached` is what `Contains` answers.
unfoldable pub missing_loop : (Text → Bool) → List Text → List Text → List Text
missing_loop cached seen [] = []
missing_loop cached seen (u ∷ us) =
    let skip = length u == 0 || one_of u seen in
    let rest = missing_loop cached (if skip then seen else u ∷ seen) us in
    if skip || cached u then rest else u ∷ rest

unfoldable pub missing : (Text → Bool) → List Text → List Text
unfolding missing_loop
missing cached uris = missing_loop cached [] uris

pub data ExtensionKind : Type 0 where
  track_v4 episode_v4 : ExtensionKind

unfoldable pub meta_extension_kind : Text → Option ExtensionKind
meta_extension_kind uri =
    if has_prefix uri (codes "spotify:track:")
    then some track_v4
    else if has_prefix uri (codes "spotify:episode:")
    then some episode_v4
    else none

unfoldable pub is_listable : Text → Bool
unfolding meta_extension_kind
is_listable uri = elim (meta_extension_kind uri) [ none ↦ false | some k ↦ true ]

unfoldable pub is_listable_context_uri : Text → Bool
is_listable_context_uri uri = not (text_eq (infer_type_from_context_uri uri) type_unknown)

-- A malformed track gives no uri.
unfoldable pub context_track_uri : Text → ContextTrack → Run Text
context_track_uri typ t =
    if ltb 0 (length t.uri)
    then ok t.uri
    else if length t.gid == 16
    then gid_uri typ t.gid
    else ok []

-- What the resolver answers for a page.
pub data ListPage : Type 0 where
  items : List ContextTrack → ListPage
  end_of_list : ListPage
  page_failed : ℕ → ListPage

pub data Listed : Type 0 where
  listed : List Text → Listed
  failed_at : ℕ → ℕ → Listed

-- The items of a page: the uris so far, and whether they are as many as may be.
unfoldable pub add_items : Text → ℕ → List Text → List ContextTrack → Run (List Text × Bool)
unfolding context_track_uri is_listable
add_items typ max_tracks uris [] = ok (uris, false)
add_items typ max_tracks uris (t ∷ ts) = context_track_uri typ t >>= λ u.
    let more = uris ++ u ∷ [] in
    let skip = add_items typ max_tracks uris ts in
    let go = add_items typ max_tracks more ts in
    if not (is_listable u) then skip else if length more == max_tracks then ok (more, true) else go

-- The pages from `page` on, `n` of them at most.
unfoldable pub enumerate_loop : (ℕ → ListPage) → Text → ℕ → ℕ → ℕ → List Text → Run Listed
unfolding add_items
enumerate_loop pages typ max_tracks zero page uris = ok (listed uris)
enumerate_loop pages typ max_tracks (suc n) page uris = elim (pages page) [
  | end_of_list ↦ ok (listed uris)
  | page_failed e ↦ ok (failed_at page e)
  | items ts ↦ add_items typ max_tracks uris ts >>= λ (more, full).
      if full then ok (listed more) else enumerate_loop pages typ max_tracks n (page + 1) more
]

unfoldable pub enumerate_context_tracks : (ℕ → ListPage) → Text → ℕ → Run Listed
unfolding enumerate_loop
enumerate_context_tracks pages typ max_tracks =
    enumerate_loop pages typ max_tracks max_context_pages 0 []

-- The batches that a sweep requests, and the number of tracks that it logs at its end, if it gets there.
-- `fetch` is the answer for a batch, by the number of batches before; `live` tells whether the context is
-- not done by the end of the pause after a batch. A round takes a uri at least, so their number is enough
-- fuel.
unfoldable pub sweep_loop :
    (ℕ → List Text → Option ℕ) → (ℕ → Bool) → ℕ → ℕ → ℕ → List Text → List (List Text) × Option ℕ
sweep_loop fetch live zero k cached uris = ([], if ltb 0 (length uris) then none else some cached)
sweep_loop fetch live (suc f) k cached uris =
    let batch = take (min (length uris) max_meta_batch) uris in
    let left = drop (length batch) uris in
    let rest = λ (n : ℕ). sweep_loop fetch live f (k + 1) (cached + n) left in
    let go = elim (fetch k batch) as (λ _. List (List Text) × Option ℕ) [
      | none ↦ (batch ∷ [], none)
      | some n ↦
          if ltb 0 (length left) && not (live k)
          then (batch ∷ [], none)
          else (batch ∷ (rest n).0, (rest n).1)
    ] in
    if ltb 0 (length uris) then go else ([], some cached)

unfoldable pub sweep :
    (ℕ → List Text → Option ℕ) → (ℕ → Bool) → List Text → List (List Text) × Option ℕ
unfolding sweep_loop
sweep fetch live uris = sweep_loop fetch live (length uris) 0 0 uris

pub record ContextListEntry : Type 0 where
  pub uris : List Text
  pub fetched : ℕ

unfoldable pub generation : Text → List (Text × ℕ) → Option ℕ
generation k [] = none
generation k ((j, g) ∷ m) = if text_eq j k then some g else generation k m

unfoldable pub set_generation : Text → ℕ → List (Text × ℕ) → List (Text × ℕ)
set_generation k g [] = (k, g) ∷ []
set_generation k g ((j, h) ∷ m) = if text_eq j k then (k, g) ∷ m else (j, h) ∷ set_generation k g m

unfoldable pub delete_generation : Text → List (Text × ℕ) → List (Text × ℕ)
delete_generation k [] = []
delete_generation k ((j, h) ∷ m) =
    let rest = delete_generation k m in if text_eq j k then rest else (j, h) ∷ rest

abbrev pub other_generation : ℕ → Option ℕ → Bool
other_generation gen none = false
other_generation gen (some started) = not (started == gen)

-- `in_flight` maps a uri to the generation of its enumeration.
module _ (L : Lru ContextListEntry) where
  open L use {Cache}

  pub record ContextListCache : Type 0 where
    pub lru : Cache
    pub in_flight : List (Text × ℕ)

  -- The listing of a uri that is not too old.
  unfoldable pub get_listing : ℕ → Text → ContextListCache → ContextListCache × Option (List Text)
  get_listing now uri c =
      let (lru', found) = L.get uri c.lru in
      let c' = record c { lru = lru' } in
      elim found [
        | none ↦ (c', none)
        | some e ↦ if ltb context_list_ttl (now - e.fetched) then (c', none) else (c', some e.uris)
      ]

  unfoldable pub put_listing : ℕ → Text → List Text → ℕ → ContextListCache → ContextListCache
  unfolding generation
  put_listing now uri uris gen c =
      if other_generation gen (generation uri c.in_flight)
      then c
      else record c { lru = L.add uri (record { uris = uris; fetched = now }) c.lru }

  unfoldable pub invalidate : Text → ContextListCache → ContextListCache
  unfolding generation set_generation
  invalidate uri c = record c {
    lru = L.remove uri c.lru;
    in_flight = elim (generation uri c.in_flight) [
      | none ↦ c.in_flight
      | some g ↦ set_generation uri (g + 1) c.in_flight
    ];
  }

  -- The generation of the enumeration that may begin. The look for a listing and the claim, which the
  -- source makes one after the other, are one step here.
  unfoldable pub begin_fetch : ℕ → Text → ContextListCache → ContextListCache × Option ℕ
  unfolding get_listing generation set_generation
  begin_fetch now uri c =
      let (c', listing) = get_listing now uri c in
      elim listing [
        | some uris ↦ (c', none)
        | none ↦ elim (generation uri c'.in_flight) [
          | some g ↦ (c', none)
          | none ↦ (record c' { in_flight = set_generation uri 0 c'.in_flight }, some 0)
        ]
      ]

  unfoldable pub end_fetch : Text → ContextListCache → ContextListCache
  unfolding delete_generation
  end_fetch uri c = record c { in_flight = delete_generation uri c.in_flight }

-- The queue of sweeps: whether one runs, and the one that waits.
pub record SweepQueue (J : Type 0) : Type 0 where
  pub running : Bool
  pub pending : Option J

module _ {J : Type 0} where
  -- Whether the caller must start the worker.
  unfoldable pub enqueue : J → SweepQueue J → SweepQueue J × Bool
  enqueue job q =
      if q.running
      then (record q { pending = some job }, false)
      else (record { running = true; pending = some job }, true)

  unfoldable pub next_sweep : SweepQueue J → SweepQueue J × Option J
  next_sweep q = elim q.pending [
    | none ↦ (record q { running = false }, none)
    | some job ↦ (record q { pending = none }, some job)
  ]
