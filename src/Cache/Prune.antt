-- ===== src/Cache/Prune.antt =====
-- cache/limiter.go: `prune` evicts the files that were used least recently, and no more than it has to.
use go_librespot_termux.Prelude.{
  ℕ, zero, suc, ◌+◌, ◌≤◌, ◌<◌, ◌≡◌, refl, ap, sym, ◌∙◌, ◌⊎◌, subst, Bool, true, false, List, [],
  ◌∷◌, Option, none, some, arith, Bool-cases, inl, inr, ltb, ltb→lt, ltb-false→le, if_true,
  if_false, if◌then◌else◌, length, Text,
}
use go_librespot_termux.Cache.{
  LimiterEntry, Files, SizeLimiter, Removal, removed, not_exist, refused, oldest_loop, oldest,
  evict, without, prune_round, prune_loop, prune,
}
use go_librespot_termux.Cache.Entries.{
  total, HasKeys-delete_file, In, here, there, IsAccurate, total-delete_file,
}

-- No file was used before the time.
abbrev pub AllSince : ℕ → Files → Type 0
AllSince t [] = Unit {0}
AllSince t ((p, e) ∷ fs) = (t ≤ e.atime) × AllSince t fs

AllSince-le : (t u : ℕ) (fs : Files) → t ≤ u → AllSince u fs → AllSince t fs
AllSince-le t u [] le h = tt
AllSince-le t u ((p, e) ∷ fs) le h = (omega (arith, h.0), AllSince-le t u fs le h.1)

oldest_loop_lem :
    (o : Text × LimiterEntry) (fs : Files)
    → ((oldest_loop o fs).1.atime ≤ o.1.atime)
      × AllSince (oldest_loop o fs).1.atime fs
      × ((oldest_loop o fs ≡ o) ⊎ In (oldest_loop o fs) fs)
unfolding oldest_loop
oldest_loop_lem o [] = (omega arith, tt, inl refl)
oldest_loop_lem o (f ∷ fs) = elim (Bool-cases (ltb f.1.atime o.1.atime)) [
  | inl h ↦
      let (le, since, place) = oldest_loop_lem f fs in
      subst
        (λ x.
          ((oldest_loop x fs).1.atime ≤ o.1.atime)
          × AllSince (oldest_loop x fs).1.atime (f ∷ fs)
          × ((oldest_loop x fs ≡ o) ⊎ In (oldest_loop x fs) (f ∷ fs)))
        (sym (pick f o (ltb f.1.atime o.1.atime) true h))
        (
          omega (arith, le, ltb→lt _ _ h),
          (le, since),
          inr (elim place [
            | inl e ↦ subst (λ x. In x (f ∷ fs)) (sym e) (here fs)
            | inr i ↦ there f fs i
          ]),
        )
  | inr h ↦
      let (le, since, place) = oldest_loop_lem o fs in
      subst
        (λ x.
          ((oldest_loop x fs).1.atime ≤ o.1.atime)
          × AllSince (oldest_loop x fs).1.atime (f ∷ fs)
          × ((oldest_loop x fs ≡ o) ⊎ In (oldest_loop x fs) (f ∷ fs)))
        (sym (pick f o (ltb f.1.atime o.1.atime) false h))
        (
          le,
          (omega (arith, le, ltb-false→le _ _ h), since),
          elim place [ inl e ↦ inl e | inr i ↦ inr (there f fs i) ],
        )
]
  where
    pick :
        (f o : Text × LimiterEntry) (b c : Bool)
        → b ≡ c
        → (if b then f else o) ≡ (if c then f else o)
    pick f o b c e = ap (λ x. if x then f else o) e

-- The file that a round picks is in the map, and none there was used before it.
oldest_lem :
    (fs : Files) (f : Text × LimiterEntry) → oldest fs ≡ some f → In f fs × AllSince f.1.atime fs
unfolding oldest
oldest_lem [] f h = absurd (cc)
oldest_lem (g ∷ fs) f h =
    let (le, since, place) = oldest_loop_lem g fs in
    let same : oldest_loop g fs ≡ f = cc in
    subst (λ x. In x (g ∷ fs) × AllSince x.1.atime (g ∷ fs)) same
      (
        elim place [ inl e ↦ subst (λ x. In x (g ∷ fs)) (sym e) (here fs) | inr i ↦ there g fs i ],
        (le, since),
      )

oldest-none : (fs : Files) → oldest fs ≡ none → fs ≡ []
unfolding oldest
oldest-none [] h = refl
oldest-none (g ∷ fs) h = absurd (cc)

module _ (remove : Text → Removal) where
  -- What pruning may do, and the files that it reports. It stops within the limit; a file that it takes
  -- while above the limit is one that no other was used before; and it gives up at a file that cannot be
  -- removed, which it no longer counts.
  pub data Prunes : SizeLimiter → List Text → SizeLimiter → Type 0 where
    within : (s : SizeLimiter) → s.in_use ≤ s.limit → Prunes s [] s
    evicts :
        (s : SizeLimiter) (f : Text × LimiterEntry) (ps : List Text) (t : SizeLimiter)
        → s.limit < s.in_use
        → In f s.files
        → AllSince f.1.atime s.files
        → (remove f.0 ≡ removed) ⊎ (remove f.0 ≡ not_exist)
        → Prunes (without remove f s) ps t
        → Prunes s (f.0 ∷ ps) t
    gives_up :
        (s : SizeLimiter) (f : Text × LimiterEntry)
        → s.limit < s.in_use
        → In f s.files
        → AllSince f.1.atime s.files
        → remove f.0 ≡ refused
        → Prunes s [] (without remove f s)

  abbrev Pruned : SizeLimiter → SizeLimiter × List Text → Type 0
  Pruned s r = Prunes s r.1 r.0 × IsAccurate r.0

  without-IsAccurate :
      (s : SizeLimiter) (f : Text × LimiterEntry)
      → In f s.files
      → IsAccurate s
      → IsAccurate (without remove f s)
  unfolding without
  without-IsAccurate s f i v = record {
    counted = omega (arith, (total-delete_file f s.files v.keys i).0, v.counted);
    keys = HasKeys-delete_file f.0 s.files v.keys;
  }

  without-length :
      (s : SizeLimiter) (f : Text × LimiterEntry)
      → In f s.files
      → IsAccurate s
      → length (without remove f s).files + 1 ≡ length s.files
  unfolding without
  without-length s f i v = (total-delete_file f s.files v.keys i).1

  evict-Pruned :
      (again : SizeLimiter → SizeLimiter × List Text) (s : SizeLimiter) (f : Text × LimiterEntry)
      (r : Removal)
      → remove f.0 ≡ r
      → s.limit < s.in_use
      → In f s.files
      → AllSince f.1.atime s.files
      → IsAccurate s
      → Pruned (without remove f s) (again (without remove f s))
      → Pruned s (evict remove again f.0 r (without remove f s))
  unfolding evict
  evict-Pruned again s f refused e over i since v rest =
      (gives_up s f over i since e, without-IsAccurate s f i v)
  evict-Pruned again s f removed e over i since v rest =
      (evicts s f _ _ over i since (inl e) rest.0, rest.1)
  evict-Pruned again s f not_exist e over i since v rest =
      (evicts s f _ _ over i since (inr e) rest.0, rest.1)

  empty-within : (s : SizeLimiter) → s.files ≡ [] → IsAccurate s → s.in_use ≡ 0
  unfolding total
  empty-within s e v = v.counted ∙ ap total e

  prune_round-Pruned :
      (again : SizeLimiter → SizeLimiter × List Text) (s : SizeLimiter)
      (o : Option (Text × LimiterEntry))
      → oldest s.files ≡ o
      → s.limit < s.in_use
      → IsAccurate s
      → ((f : Text × LimiterEntry)
          → In f s.files
          → Pruned (without remove f s) (again (without remove f s)))
      → Pruned s (prune_round remove again o s)
  unfolding prune_round
  prune_round-Pruned again s none e over v rest =
      absurd (omega (arith, over, empty-within s (oldest-none s.files e) v))
  prune_round-Pruned again s (some f) e over v rest =
      let (i, since) = oldest_lem s.files f e in
      evict-Pruned again s f (remove f.0) refl over i since v (rest f i)

  empty_of_length : (fs : Files) → length fs ≤ 0 → fs ≡ []
  empty_of_length [] h = refl
  empty_of_length (f ∷ fs) h = absurd (omega arith)

  prune_loop-Pruned :
      (n : ℕ) (s : SizeLimiter)
      → length s.files ≤ n
      → IsAccurate s
      → Pruned s (prune_loop remove n s)
  unfolding prune_loop
  prune_loop-Pruned zero s few v =
      (within s (omega (arith, empty-within s (empty_of_length s.files few) v)), v)
  prune_loop-Pruned (suc n) s few v = elim (Bool-cases (ltb s.limit s.in_use)) [
    | inl h ↦ subst (Pruned s) (sym (if_true (ltb s.limit s.in_use) _ _ h)) (
        prune_round-Pruned (prune_loop remove n) s (oldest s.files) refl (ltb→lt _ _ h) v (λ f i.
          prune_loop-Pruned n (without remove f s) (omega (arith, without-length s f i v, few))
            (without-IsAccurate s f i v)))
    | inr h ↦
        subst (Pruned s) (sym (if_false (ltb s.limit s.in_use) _ _ h))
          (within s (ltb-false→le _ _ h), v)
  ]

  -- On a limiter that counts its files right, `prune` ends, evicts only while the files take more than
  -- the limit and always one that no other was used before, reports those files in that order, and
  -- leaves a limiter that counts its files right. It ends within the limit unless a file could not be
  -- removed.
  pub prune-Prunes :
      (s : SizeLimiter)
      → IsAccurate s
      → Prunes s (prune remove s).1 (prune remove s).0 × IsAccurate (prune remove s).0
  unfolding prune
  prune-Prunes s v = prune_loop-Pruned (length s.files) s (omega arith) v
