-- ===== src/Audio/Sharing/Owners.antt =====
-- audio/chunked-reader.go: a chunk whose flag is set is downloaded by one goroutine, which wakes the others.
pub mod Waking
pub mod Basics
use go_librespot_termux.Prelude.{
  ℕ, zero, suc, ◌<◌, ◌≡◌, ◌≢◌, refl, ap, sym, ◌∙◌, subst, Bool, true, false, List, [], ◌∷◌, ◌++◌,
  map, none, some, Bool-cases, inl, inr, ◌==◌, ==_iff, if_true, if_false, length, get_elem?, set,
  get_elem?-set_self, get_elem?-set_ne, get_elem?-append, lt_of_get_elem?,
}
use go_librespot_termux.Audio.{Chunk}
use go_librespot_termux.Audio.Sharing.{
  Fetching, looking, waiting, downloading, marking, finishing, returned, put_flag, woken,
}
use go_librespot_termux.Audio.Sharing.Owners.Waking.{from_map, to_map, woken-downloading}
use go_librespot_termux.Audio.Sharing.Owners.Basics.{
  IsBacked, IsOwned, NotOwner, FromSet, from_set, still_at, put_flag-same, put_flag-other, new, old,
}

-- A goroutine that downloads nothing goes on to something else that is no download.
pub quiet-IsOwned :
    (gs : List Fetching) (f : ℕ → Bool) (cs : List Chunk) (i : ℕ) (g g' : Fetching)
    → IsOwned gs f cs
    → get_elem? gs i ≡ some g
    → NotOwner g
    → NotOwner g'
    → IsBacked f cs g'
    → IsOwned (set gs i g') f cs
quiet-IsOwned gs f cs i g g' o e n n' b = record {
  backed = λ j h at'. elim (from_set gs i g' j h (lt_of_get_elem? gs i e) at') [
    | new s t ↦ subst (IsBacked f cs) (sym t) b
    | old s was ↦ o.backed j h was
  ];
  sole = λ j l k a c. elim (from_set gs i g' j (downloading k) (lt_of_get_elem? gs i e) a) [
    | new s t ↦ absurd (n' k (sym t))
    | old s was ↦ elim (from_set gs i g' l (downloading k) (lt_of_get_elem? gs i e) c) [
      | new s' t ↦ absurd (n' k (sym t))
      | old s' was' ↦ o.sole j l k was was'
    ]
  ];
  owner =
      λ k h. let (j, was) = o.owner k h in (j, still_at gs i (downloading k) g g' j e (n k) was);
}

-- A goroutine that found the flag unset downloads.
pub claim-IsOwned :
    (gs : List Fetching) (f : ℕ → Bool) (cs : List Chunk) (i k : ℕ)
    → IsOwned gs f cs
    → get_elem? gs i ≡ some (looking k)
    → f k ≡ false
    → get_elem? cs k ≡ some none
    → IsOwned (set gs i (downloading k)) (put_flag f k true) cs
claim-IsOwned gs f cs i k o e free c = record {
  backed = λ j h at'. elim (from_set gs i (downloading k) j h lt at') [
    | new s t ↦ subst (IsBacked (put_flag f k true) cs) (sym t) (put_flag-same f k true, c)
    | old s was ↦ backed_on h (o.backed j h was)
  ];
  sole = λ j l m a b. elim (from_set gs i (downloading k) j (downloading m) lt a) [
    | new s t ↦ elim (from_set gs i (downloading k) l (downloading m) lt b) [
      | new s' t' ↦ sym s ∙ s'
      | old s' was ↦ absurd (nobody l m was (same m t))
    ]
    | old s was ↦ elim (from_set gs i (downloading k) l (downloading m) lt b) [
      | new s' t' ↦ absurd (nobody j m was (same m t'))
      | old s' was' ↦ o.sole j l m was was'
    ]
  ];
  owner = λ m h. elim (Bool-cases (k == m)) [
    | inl y ↦ (
      i,
      get_elem?-set_self gs i (downloading k) lt
          ∙ ap (λ x. some (downloading x)) ((==_iff k m).0 y),
    )
    | inr n ↦
        let (j, was) = o.owner m (sym (if_false (k == m) _ _ n) ∙ h) in
        (j, still_at gs i (downloading m) (looking k) (downloading k) j e (λ x. absurd (cc)) was)
  ];
}
  where
    lt : i < length gs
    lt = lt_of_get_elem? gs i e

    same : (m : ℕ) → downloading m ≡ downloading k → m ≡ k
    same m t = cc

    nobody : (j m : ℕ) → get_elem? gs j ≡ some (downloading m) → m ≢ k
    nobody j m was s = absurd (cc (sym (o.backed j (downloading m) was).0 ∙ (ap f s ∙ free)))

    on : (m : ℕ) → f m ≡ true → put_flag f k true m ≡ true
    on m h = elim (Bool-cases (k == m)) [
      | inl y ↦ if_true (k == m) _ _ y
      | inr n ↦ if_false (k == m) _ _ n ∙ h
    ]

    backed_on : (h : Fetching) → IsBacked f cs h → IsBacked (put_flag f k true) cs h
    backed_on (waiting m) b = on m b
    backed_on (downloading m) b = (on m b.0, b.1)
    backed_on (looking m) b = b
    backed_on (marking m d) b = b
    backed_on (finishing m d) b = b
    backed_on (returned m r) b = b

woken-IsBacked :
    (f : ℕ → Bool) (cs : List Chunk) (k : ℕ) (g : Fetching)
    → IsBacked f cs g
    → IsBacked f cs (woken k g)
woken-IsBacked f cs k (waiting j) b = elim (Bool-cases (k == j)) [
  | inl y ↦ subst (IsBacked f cs) (sym (if_true (k == j) (looking j) (waiting j) y)) tt
  | inr n ↦ subst (IsBacked f cs) (sym (if_false (k == j) (looking j) (waiting j) n)) b
]
woken-IsBacked f cs k (looking j) b = b
woken-IsBacked f cs k (downloading j) b = b
woken-IsBacked f cs k (marking j d) b = b
woken-IsBacked f cs k (finishing j d) b = b
woken-IsBacked f cs k (returned j r) b = b

pub broadcast-IsOwned :
    (gs : List Fetching) (f : ℕ → Bool) (cs : List Chunk) (k : ℕ)
    → IsOwned gs f cs
    → IsOwned (map (woken k) gs) f cs
broadcast-IsOwned gs f cs k o = record {
  backed = λ j h e.
      let (g, was, same) = from_map gs k j h e in
      subst (IsBacked f cs) (sym same) (woken-IsBacked f cs k g (o.backed j g was));
  sole = λ i j m a b. o.sole i j m (before i m a) (before j m b);
  owner = λ m h. let (i, was) = o.owner m h in (i, to_map gs k i (downloading m) was);
}
  where
    before :
        (i m : ℕ)
        → get_elem? (map (woken k) gs) i ≡ some (downloading m)
        → get_elem? gs i ≡ some (downloading m)
    before i m e =
        let (g, was, same) = from_map gs k i (downloading m) e in
        was ∙ ap some (woken-downloading k m g same)

-- Nobody waits for a chunk right after its broadcast.
pub broadcast-none_waiting :
    (gs : List Fetching) (k j : ℕ) → get_elem? (map (woken k) gs) j ≢ some (waiting k)
broadcast-none_waiting gs k j e = let (g, was, same) = from_map gs k j (waiting k) e in gone g same
  where
    gone : (g : Fetching) → waiting k ≢ woken k g
    gone (waiting m) t = elim (Bool-cases (k == m)) [
      | inl y ↦ absurd (cc (t ∙ if_true (k == m) (looking m) (waiting m) y))
      | inr n ↦
          let same : waiting k ≡ waiting m = t ∙ if_false (k == m) (looking m) (waiting m) n in
          let eq : k ≡ m = cc in absurd (cc (sym n ∙ (==_iff k m).1 eq))
    ]
    gone (looking m) t = absurd (cc)
    gone (downloading m) t = absurd (cc)
    gone (marking m d) t = absurd (cc)
    gone (finishing m d) t = absurd (cc)
    gone (returned m r) t = absurd (cc)

-- The one that downloads gives the chunk up, for whatever it found.
pub release-IsOwned :
    (gs : List Fetching) (f : ℕ → Bool) (cs cs' : List Chunk) (i k : ℕ) (g : Fetching)
    → IsOwned gs f cs
    → get_elem? gs i ≡ some (downloading k)
    → ((j : ℕ) → get_elem? gs j ≢ some (waiting k))
    → NotOwner g
    → ((f' : ℕ → Bool) → IsBacked f' cs' g)
    → ((j : ℕ) → k ≢ j → get_elem? cs' j ≡ get_elem? cs j)
    → IsOwned (set gs i g) (put_flag f k false) cs'
release-IsOwned gs f cs cs' i k g o e quiet n b c = record {
  backed = λ j h at'. elim (from_set gs i g j h lt at') [
    | new s t ↦ subst (IsBacked (put_flag f k false) cs') (sym t) (b (put_flag f k false))
    | old s was ↦ backed_on j h s was (o.backed j h was)
  ];
  sole = λ j l m a d. elim (from_set gs i g j (downloading m) lt a) [
    | new s t ↦ absurd (n m (sym t))
    | old s was ↦ elim (from_set gs i g l (downloading m) lt d) [
      | new s' t ↦ absurd (n m (sym t))
      | old s' was' ↦ o.sole j l m was was'
    ]
  ];
  owner = λ m h. elim (Bool-cases (k == m)) [
    | inl y ↦ absurd (cc (sym (if_true (k == m) false (f m) y) ∙ h))
    | inr z ↦
        let (j, was) = o.owner m (sym (if_false (k == m) false (f m) z) ∙ h) in
        let ne : downloading k ≢ downloading m =
          λ t. let same : k ≡ m = cc in absurd (cc (sym z ∙ (==_iff k m).1 same)) in
        (j, still_at gs i (downloading m) (downloading k) g j e ne was)
  ];
}
  where
    lt : i < length gs
    lt = lt_of_get_elem? gs i e

    backed_on :
        (j : ℕ) (h : Fetching)
        → i ≢ j
        → get_elem? gs j ≡ some h
        → IsBacked f cs h
        → IsBacked (put_flag f k false) cs' h
    backed_on j (waiting m) s was b =
        put_flag-other f k false m
          (λ t. absurd (quiet j (was ∙ ap (λ x. some (waiting x)) (sym t))))
        ∙ b
    backed_on j (downloading m) s was b =
        let other : k ≢ m =
          λ t. absurd (s (o.sole i j k e (was ∙ ap (λ x. some (downloading x)) (sym t)))) in
        (put_flag-other f k false m other ∙ b.0, c m other ∙ b.1)
    backed_on j (looking m) s was b = b
    backed_on j (marking m d) s was b = b
    backed_on j (finishing m d) s was b = b
    backed_on j (returned m r) s was b = b

-- A new goroutine is one more at the end.
data FromEnd (gs : List Fetching) (g : Fetching) (j : ℕ) (h : Fetching) : Type 0 where
  before : get_elem? gs j ≡ some h → FromEnd gs g j h
  at_end : h ≡ g → FromEnd gs g j h

from_end :
    (gs : List Fetching) (g : Fetching) (j : ℕ) (h : Fetching)
    → get_elem? (gs ++ g ∷ []) j ≡ some h
    → FromEnd gs g j h
from_end [] g zero h e = let same : g ≡ h = cc in at_end (sym same)
from_end [] g (suc j) h e = absurd (cc)
from_end (x ∷ gs) g zero h e = before e
from_end (x ∷ gs) g (suc j) h e = elim (from_end gs g j h e) [
  | before w ↦ before w
  | at_end s ↦ at_end s
]

pub spawned-IsOwned :
    (gs : List Fetching) (f : ℕ → Bool) (cs : List Chunk) (k : ℕ)
    → IsOwned gs f cs
    → IsOwned (gs ++ looking k ∷ []) f cs
spawned-IsOwned gs f cs k o = record {
  backed = λ j h e. elim (from_end gs (looking k) j h e) [
    | before w ↦ o.backed j h w
    | at_end s ↦ subst (IsBacked f cs) (sym s) tt
  ];
  sole = λ i j m a b. o.sole i j m (was i m a) (was j m b);
  owner = λ m h.
      let (i, w) = o.owner m h in
      (i, get_elem?-append gs (looking k ∷ []) i (lt_of_get_elem? gs i w) ∙ w);
}
  where
    was :
        (j m : ℕ)
        → get_elem? (gs ++ looking k ∷ []) j ≡ some (downloading m)
        → get_elem? gs j ≡ some (downloading m)
    was j m e = elim (from_end gs (looking k) j (downloading m) e) [
      | before w ↦ w
      | at_end s ↦ absurd (cc)
    ]
