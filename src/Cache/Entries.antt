-- ===== src/Cache/Entries.antt =====
-- cache/limiter.go: the files of the limiter and their total size.
use go_librespot_termux.Prelude.{
  ℕ, ◌+◌, ◌-◌, ◌≤◌, ◌≡◌, refl, ap, sym, ◌∙◌, subst, true, false, List, [], ◌∷◌, Option, none, some,
  arith, Bool-cases, if_true, if_false, inl, inr, length, Text, text_eq, text_eq→eq, text_eq_refl,
}
use go_librespot_termux.Cache.{
  LimiterEntry, Files, SizeLimiter, Walked, find_file, put_file, delete_file, freed, register, init,
  add, touched, touch, new_size_limiter,
}

unfoldable pub total : Files → ℕ
total [] = 0
total ((p, e) ∷ fs) = e.size + total fs

-- No file of the list has the path.
abbrev pub Absent : Text → Files → Type 0
Absent p [] = Unit {0}
Absent p ((q, e) ∷ fs) = (text_eq q p ≡ false) × Absent p fs

abbrev pub HasKeys : Files → Type 0
HasKeys [] = Unit {0}
HasKeys ((p, e) ∷ fs) = Absent p fs × HasKeys fs

pub data In (f : Text × LimiterEntry) : Files → Type 0 where
  here : (fs : Files) → In f (f ∷ fs)
  there : (g : Text × LimiterEntry) (fs : Files) → In f fs → In f (g ∷ fs)

-- The limiter counts what its files take, and has each path once.
pub record IsAccurate (s : SizeLimiter) : Type 0 where
  pub counted : s.in_use ≡ total s.files
  pub keys : HasKeys s.files

size_of : Option LimiterEntry → ℕ
size_of none = 0
size_of (some e) = e.size

total-put_file :
    (p : Text) (e : LimiterEntry) (fs : Files)
    → total (put_file p e fs) + size_of (find_file p fs) ≡ total fs + e.size
unfolding total put_file find_file size_of
total-put_file p e [] = omega arith
total-put_file p e ((q, f) ∷ fs) = elim (Bool-cases (text_eq q p)) [
  | inl h ↦ rw h (omega arith)
  | inr h ↦ rw h (omega (arith, total-put_file p e fs))
]

-- A file that is found takes part in the total.
size_of-le-total : (p : Text) (fs : Files) → size_of (find_file p fs) ≤ total fs
unfolding total find_file size_of
size_of-le-total p [] = omega arith
size_of-le-total p ((q, f) ∷ fs) = elim (Bool-cases (text_eq q p)) [
  | inl h ↦ rw h (omega arith)
  | inr h ↦ rw h (omega (arith, size_of-le-total p fs))
]

find_file-Absent : (p : Text) (fs : Files) → Absent p fs → find_file p fs ≡ none
unfolding find_file
find_file-Absent p [] h = refl
find_file-Absent p ((q, f) ∷ fs) h = rw h.0 (find_file-Absent p fs h.1)

Absent-put_file :
    (q p : Text) (e : LimiterEntry) (fs : Files)
    → text_eq p q ≡ false
    → Absent q fs
    → Absent q (put_file p e fs)
unfolding put_file
Absent-put_file q p e [] n h = (n, tt)
Absent-put_file q p e ((r, f) ∷ fs) n h = elim (Bool-cases (text_eq r p)) [
  | inl t ↦ rw t (n, h.1)
  | inr t ↦ rw t (h.0, Absent-put_file q p e fs n h.1)
]

text_eq-sym : (p q : Text) → text_eq q p ≡ false → text_eq p q ≡ false
text_eq-sym p q h = elim (Bool-cases (text_eq p q)) [
  | inl t ↦ absurd (cc (h, subst (λ x. text_eq x p ≡ true) (text_eq→eq p q t) (text_eq_refl p)))
  | inr t ↦ t
]

HasKeys-put_file :
    (p : Text) (e : LimiterEntry) (fs : Files) → HasKeys fs → HasKeys (put_file p e fs)
unfolding put_file
HasKeys-put_file p e [] h = (tt, tt)
HasKeys-put_file p e ((q, f) ∷ fs) h = elim (Bool-cases (text_eq q p)) [
  | inl t ↦ rw t (subst (λ x. Absent x fs) (text_eq→eq q p t) h.0, h.1)
  | inr t ↦ rw t (Absent-put_file q p e fs (text_eq-sym p q t) h.0, HasKeys-put_file p e fs h.1)
]

Absent-delete_file : (q p : Text) (fs : Files) → Absent q fs → Absent q (delete_file p fs)
unfolding delete_file
Absent-delete_file q p [] h = tt
Absent-delete_file q p ((r, f) ∷ fs) h = elim (Bool-cases (text_eq r p)) [
  | inl t ↦ rw t h.1
  | inr t ↦ rw t (h.0, Absent-delete_file q p fs h.1)
]

pub HasKeys-delete_file : (p : Text) (fs : Files) → HasKeys fs → HasKeys (delete_file p fs)
unfolding delete_file
HasKeys-delete_file p [] h = tt
HasKeys-delete_file p ((q, f) ∷ fs) h = elim (Bool-cases (text_eq q p)) [
  | inl t ↦ rw t h.1
  | inr t ↦ rw t (Absent-delete_file q p fs h.0, HasKeys-delete_file p fs h.1)
]

Absent-In :
    (p : Text) (f : Text × LimiterEntry) (fs : Files)
    → Absent p fs
    → In f fs
    → text_eq f.0 p ≡ false
Absent-In p f [] h i = elim i [ ]
Absent-In p f (g ∷ fs) h (here _) = h.0
Absent-In p f (g ∷ fs) h (there _ _ i) = Absent-In p f fs h.1 i

-- Taking a file off takes its size off, and one file.
pub total-delete_file :
    (f : Text × LimiterEntry) (fs : Files)
    → HasKeys fs
    → In f fs
    → (total (delete_file f.0 fs) + f.1.size ≡ total fs)
      × (length (delete_file f.0 fs) + 1 ≡ length fs)
unfolding total delete_file
total-delete_file f [] h i = elim i [ ]
total-delete_file f (g ∷ fs) h (here _) = rw (text_eq_refl f.0) (omega arith, omega arith)
total-delete_file f (g ∷ fs) h (there _ _ i) =
    let r = total-delete_file f fs h.1 i in
    rw (text_eq-sym g.0 f.0 (Absent-In g.0 f fs h.0 i)) (omega (arith, r.0), omega (arith, r.1))

freed-eq : (o : Option LimiterEntry) (n : ℕ) → freed o n ≡ n - size_of o
unfolding freed size_of
freed-eq none n = omega arith
freed-eq (some e) n = refl

-- Adding a file that is new or that the limiter has already keeps the count right.
add-IsAccurate :
    (now : ℕ) (path : Text) (size : ℕ) (s : SizeLimiter)
    → IsAccurate s
    → IsAccurate (add now path size s)
unfolding add
add-IsAccurate now path size s v =
    let e : LimiterEntry = record { size = size; atime = now } in
    record {
      counted = omega (
        arith,
        freed-eq (find_file path s.files) s.in_use,
        size_of-le-total path s.files,
        total-put_file path e s.files,
        v.counted,
      );
      keys = HasKeys-put_file path e s.files v.keys;
    }

touched_lem :
    (now : ℕ) (path : Text) (o : Option LimiterEntry) (fs : Files)
    → find_file path fs ≡ o
    → HasKeys fs
    → (total (touched now path o fs) ≡ total fs) × HasKeys (touched now path o fs)
unfolding touched size_of
touched_lem now path none fs e h = (refl, h)
touched_lem now path (some f) fs e h = (
  omega (arith, total-put_file path (record f { atime = now }) fs, ap size_of e),
  HasKeys-put_file path (record f { atime = now }) fs h,
)

-- Touching a file changes no size, and keeps the count right.
touch-IsAccurate :
    (now : ℕ) (path : Text) (s : SizeLimiter) → IsAccurate s → IsAccurate (touch now path s)
unfolding touch
touch-IsAccurate now path s v =
    let r = touched_lem now path (find_file path s.files) s.files refl v.keys in
    record { counted = v.counted ∙ sym r.0; keys = r.1 }

-- None of the walked files has the path.
abbrev pub NotWalked : Text → List Walked → Type 0
NotWalked p [] = Unit {0}
NotWalked p (f ∷ fs) = (text_eq p f.path ≡ false) × NotWalked p fs

-- The walk comes by each path once.
abbrev pub HasPathsOnce : List Walked → Type 0
HasPathsOnce [] = Unit {0}
HasPathsOnce (f ∷ fs) = NotWalked f.path fs × HasPathsOnce fs

abbrev AllAbsent : List Walked → Files → Type 0
AllAbsent [] gs = Unit {0}
AllAbsent (f ∷ fs) gs = Absent f.path gs × AllAbsent fs gs

AllAbsent-put_file :
    (p : Text) (e : LimiterEntry) (fs : List Walked) (gs : Files)
    → NotWalked p fs
    → AllAbsent fs gs
    → AllAbsent fs (put_file p e gs)
AllAbsent-put_file p e [] gs n a = tt
AllAbsent-put_file p e (f ∷ fs) gs n a =
    (Absent-put_file f.path p e gs n.0 a.0, AllAbsent-put_file p e fs gs n.1 a.1)

init-from :
    (fs : List Walked) (s : SizeLimiter)
    → HasPathsOnce fs
    → AllAbsent fs s.files
    → IsAccurate s
    → IsAccurate (init fs s)
unfolding init register size_of
init-from [] s once new v = v
init-from (f ∷ fs) s once new v =
    let e : LimiterEntry = record { size = f.size; atime = f.mod_time } in
    let t : SizeLimiter = record s {
      files = put_file f.path e s.files;
      in_use = s.in_use + f.size;
    } in
    let none' = find_file-Absent f.path s.files new.0 in
    let counted = total-put_file f.path e s.files in
    elim (Bool-cases f.temporary) [
      | inl h ↦
          subst (λ x. IsAccurate (init fs x)) (sym (if_true f.temporary s t h))
            (init-from fs s once.1 new.1 v)
      | inr h ↦
          subst (λ x. IsAccurate (init fs x)) (sym (if_false f.temporary s t h))
            (init-from fs t once.1 (AllAbsent-put_file f.path e fs s.files once.0 new.1) (record {
              counted = omega (arith, counted, ap size_of none', v.counted);
              keys = HasKeys-put_file f.path e s.files v.keys;
            }))
    ]

AllAbsent-nil : (fs : List Walked) → AllAbsent fs []
AllAbsent-nil [] = tt
AllAbsent-nil (f ∷ fs) = (tt, AllAbsent-nil fs)

-- After a walk of the cache directory that comes by each path once, a new limiter counts the files
-- there right, the temporary ones left out.
init-IsAccurate :
    (limit : ℕ) (fs : List Walked) → HasPathsOnce fs → IsAccurate (init fs (new_size_limiter limit))
unfolding new_size_limiter total
init-IsAccurate limit fs once =
    init-from fs (new_size_limiter limit) once (AllAbsent-nil fs)
      (record { counted = refl; keys = tt })
