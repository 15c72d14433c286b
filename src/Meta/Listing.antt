-- ===== src/Meta/Listing.antt =====
-- daemon/track_meta_cache.go: a listing that was invalidated while it was enumerated is not kept.
mod Generations
use go_librespot_termux.Prelude.{
  ℕ, ◌+◌, ◌-◌, ◌<◌, ◌≡◌, ◌≢◌, refl, ap, sym, ◌∙◌, Bool, true, false, not, List, [], ◌∷◌, Option,
  none, some, arith, ltb, Bool-cases, inl, inr, if_true, if_false, if_both, if◌then◌else◌, Text,
  text_eq, text_eq→eq, text_eq_refl,
}
use go_librespot_termux.Meta.{
  Lru, LruLaws, ContextListEntry, ContextListCache, generation, set_generation, delete_generation,
  get_listing, put_listing, invalidate, begin_fetch, end_fetch, other_generation,
}
use go_librespot_termux.Meta.Listing.Generations.{
  generation-set_self, text_eq_trans, generation-set_ne, generation-delete_ne,
}

-- What the goroutines of the daemon do with the listings, with the times at which they do it.
pub data ListOp : Type 0 where
  reads begins : ℕ → Text → ListOp
  puts : ℕ → Text → List Text → ℕ → ListOp
  invalidates ends : Text → ListOp

-- The operations are none that the enumeration of the uri makes at its end.
abbrev pub leaves : Text → ListOp → Bool
leaves uri (reads now u) = true
leaves uri (begins now u) = true
leaves uri (puts now u us g) = not (text_eq u uri)
leaves uri (invalidates u) = true
leaves uri (ends u) = not (text_eq u uri)

abbrev pub AllLeave : Text → List ListOp → Type 0
AllLeave uri [] = Unit {0}
AllLeave uri (o ∷ os) = (leaves uri o ≡ true) × AllLeave uri os

module _ (L : Lru ContextListEntry) where
  unfoldable pub run_op : ListOp → ContextListCache L → ContextListCache L
  run_op (reads now u) c = (get_listing L now u c).0
  run_op (begins now u) c = (begin_fetch L now u c).0
  run_op (puts now u us g) c = put_listing L now u us g c
  run_op (invalidates u) c = invalidate L u c
  run_op (ends u) c = end_fetch L u c

  unfoldable pub run_ops : List ListOp → ContextListCache L → ContextListCache L
  run_ops [] c = c
  run_ops (o ∷ os) c = run_ops os (run_op o c)

module _ (L : Lru ContextListEntry) (laws : LruLaws L) where
  -- The enumeration of the uri is under way and was invalidated after it began at `gen`; no listing is
  -- there.
  record IsStale (uri : Text) (gen : ℕ) (c : ContextListCache L) : Type 0 where
    now_at : ℕ
    later : gen < now_at
    flying : generation uri c.in_flight ≡ some now_at
    gone : L.held uri c.lru ≡ none

  not-true : (b : Bool) → not b ≡ true → b ≡ false
  not-true true e = absurd (cc)
  not-true false e = refl

  get_listing-IsStale :
      (now : ℕ) (u uri : Text) (gen : ℕ) (c : ContextListCache L)
      → IsStale uri gen c
      → IsStale uri gen (get_listing L now u c).0
        × ((get_listing L now u c).0.in_flight ≡ c.in_flight)
  unfolding get_listing
  get_listing-IsStale now u uri gen c s = go (L.get u c.lru).1
    where
      c' : ContextListCache L
      c' = record c { lru = (L.get u c.lru).0 }

      read : IsStale uri gen c'
      read = record {
        now_at = s.now_at;
        later = s.later;
        flying = s.flying;
        gone = laws.get_keeps u uri c.lru ∙ s.gone;
      }

      go :
          (o : Option ContextListEntry)
          → let x = elim o as (λ _. ContextListCache L × Option (List Text)) [
            | none ↦ (c', none)
            | some e ↦ if ltb 300000000000 (now - e.fetched) then (c', none) else (c', some e.uris)
          ] in
            IsStale uri gen x.0 × (x.0.in_flight ≡ c.in_flight)
      go none = (read, refl)
      go (some e) =
          if_both
            (λ (x : ContextListCache L × Option (List Text)).
              IsStale uri gen x.0 × (x.0.in_flight ≡ c.in_flight))
            (ltb 300000000000 (now - e.fetched)) _ _ (read, refl) (λ _. (read, refl))

  begin_fetch-IsStale :
      (now : ℕ) (u uri : Text) (gen : ℕ) (c : ContextListCache L)
      → IsStale uri gen c
      → IsStale uri gen (begin_fetch L now u c).0
  unfolding begin_fetch
  begin_fetch-IsStale now u uri gen c s =
      let (read, same) = get_listing-IsStale now u uri gen c s in
      listing (get_listing L now u c).0 read (get_listing L now u c).1
    where
      listing :
          (c' : ContextListCache L)
          → IsStale uri gen c'
          → (o : Option (List Text))
          → IsStale uri gen
              (elim o as (λ _. ContextListCache L × Option ℕ) [
                | some uris ↦ (c', none)
                | none ↦ elim (generation u c'.in_flight) as (λ _. ContextListCache L × Option ℕ) [
                  | some g ↦ (c', none)
                  | none ↦ (record c' { in_flight = set_generation u 0 c'.in_flight }, some 0)
                ]
              ]).0
      listing c' read (some uris) = read
      listing c' read none = claim (generation u c'.in_flight) refl
        where
          claim :
              (o : Option ℕ)
              → generation u c'.in_flight ≡ o
              → IsStale uri gen
                  (elim o as (λ _. ContextListCache L × Option ℕ) [
                    | some g ↦ (c', none)
                    | none ↦ (record c' { in_flight = set_generation u 0 c'.in_flight }, some 0)
                  ]).0
          claim (some g) e = read
          claim none e = record {
            now_at = read.now_at;
            later = read.later;
            flying = generation-set_ne u uri 0 c'.in_flight (other u e) ∙ read.flying;
            gone = read.gone;
          }
            where
              other : (u : Text) → generation u c'.in_flight ≡ none → text_eq u uri ≡ false
              other u e = elim (Bool-cases (text_eq u uri)) [
                | inl y ↦ absurd (
                    cc (
                      sym e
                      ∙ (ap (λ x. generation x c'.in_flight) (text_eq→eq u uri y) ∙ read.flying)))
                | inr n ↦ n
              ]

  text_ne : (u uri : Text) → text_eq u uri ≡ false → u ≢ uri
  text_ne u uri n e = cc (sym n ∙ (ap (λ x. text_eq x uri) e ∙ text_eq_refl uri))

  run_op-IsStale :
      (uri : Text) (gen : ℕ) (o : ListOp) (c : ContextListCache L)
      → leaves uri o ≡ true
      → IsStale uri gen c
      → IsStale uri gen (run_op L o c)
  unfolding run_op put_listing invalidate end_fetch
  run_op-IsStale uri gen (reads now u) c l s = (get_listing-IsStale now u uri gen c s).0
  run_op-IsStale uri gen (begins now u) c l s = begin_fetch-IsStale now u uri gen c s
  run_op-IsStale uri gen (puts now u us g) c l s =
      if_both (IsStale uri gen) (other_generation g (generation u c.in_flight)) _ _ s (λ _. record {
        now_at = s.now_at;
        later = s.later;
        flying = s.flying;
        gone =
            laws.add_evicts u uri (record { uris = us; fetched = now }) c.lru
              (text_ne u uri (not-true (text_eq u uri) l)) s.gone;
      })
  run_op-IsStale uri gen (invalidates u) c l s = elim (Bool-cases (text_eq u uri)) [
    | inl y ↦ record {
      now_at = s.now_at + 1;
      later = omega (arith, s.later);
      flying =
          ap
            (λ x. generation uri (elim (generation x c.in_flight) [
              | none ↦ c.in_flight
              | some g ↦ set_generation x (g + 1) c.in_flight
            ]))
            (text_eq→eq u uri y)
          ∙ (ap
                (λ o.
                  generation uri (elim o [
                    | none ↦ c.in_flight
                    | some g ↦ set_generation uri (g + 1) c.in_flight
                  ]))
                s.flying
              ∙ generation-set_self uri (s.now_at + 1) c.in_flight);
      gone = laws.remove_keeps u uri c.lru s.gone;
    }
    | inr n ↦ record {
      now_at = s.now_at;
      later = s.later;
      flying = raised (generation u c.in_flight) n;
      gone = laws.remove_keeps u uri c.lru s.gone;
    }
  ]
    where
      raised :
          (o : Option ℕ)
          → text_eq u uri ≡ false
          → generation uri
              (elim o [ none ↦ c.in_flight | some g ↦ set_generation u (g + 1) c.in_flight ])
            ≡ some s.now_at
      raised none n = s.flying
      raised (some g) n = generation-set_ne u uri (g + 1) c.in_flight n ∙ s.flying
  run_op-IsStale uri gen (ends u) c l s = record {
    now_at = s.now_at;
    later = s.later;
    flying = generation-delete_ne u uri c.in_flight (not-true (text_eq u uri) l) ∙ s.flying;
    gone = s.gone;
  }

  run_ops-IsStale :
      (uri : Text) (gen : ℕ) (os : List ListOp) (c : ContextListCache L)
      → AllLeave uri os
      → IsStale uri gen c
      → IsStale uri gen (run_ops L os c)
  unfolding run_ops
  run_ops-IsStale uri gen [] c l s = s
  run_ops-IsStale uri gen (o ∷ os) c l s =
      run_ops-IsStale uri gen os (run_op L o c) l.1 (run_op-IsStale uri gen o c l.0 s)

  -- With an LRU cache that keeps its laws: let an enumeration of the uri be in flight at the generation
  -- `gen` when the uri is invalidated, and let other goroutines then do anything but what ends that
  -- enumeration (they read and begin any, put and end others, and invalidate any). Then the listing that
  -- the enumeration puts at last is dropped: the cache stays as it was, and reading the uri finds nothing.
  pub put_listing-stale :
      (uri : Text) (gen now later_on : ℕ) (listing : List Text) (os : List ListOp)
      (c : ContextListCache L)
      → generation uri c.in_flight ≡ some gen
      → AllLeave uri os
      → let c' = run_ops L os (invalidate L uri c) in
        (put_listing L now uri listing gen c' ≡ c')
        × ((get_listing L later_on uri (put_listing L now uri listing gen c')).1 ≡ none)
  unfolding put_listing invalidate get_listing
  put_listing-stale uri gen now later_on listing os c flying l =
      let s = run_ops-IsStale uri gen os (invalidate L uri c) l (record {
        now_at = gen + 1;
        later = omega arith;
        flying =
            ap
              (λ o.
                generation uri
                  (elim o [ none ↦ c.in_flight | some g ↦ set_generation uri (g + 1) c.in_flight ]))
              flying
            ∙ generation-set_self uri (gen + 1) c.in_flight;
        gone = laws.remove_held uri c.lru;
      }) in
      let c' = run_ops L os (invalidate L uri c) in
      let dropped : put_listing L now uri listing gen c' ≡ c' =
        if_true (other_generation gen (generation uri c'.in_flight)) _ _
          (ap (other_generation gen) s.flying ∙ ground (arith, s.later)) in
      (
        dropped,
        ap (λ x. (get_listing L later_on uri x).1) dropped
            ∙ ap
                (λ o.
                  (elim o as (λ _. ContextListCache L × Option (List Text)) [
                    | none ↦ (record c' { lru = (L.get uri c'.lru).0 }, none)
                    | some e ↦
                        if ltb 300000000000 (later_on - e.fetched)
                        then (record c' { lru = (L.get uri c'.lru).0 }, none)
                        else (record c' { lru = (L.get uri c'.lru).0 }, some e.uris)
                  ]).1)
                (laws.get_held uri c'.lru ∙ s.gone),
      )
