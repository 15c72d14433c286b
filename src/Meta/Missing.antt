-- ===== src/Meta/Missing.antt =====
-- daemon/track_meta_cache.go: which uris `missing` finds.
use go_librespot_termux.Prelude.{
  ◌≡◌, ◌⊎◌, refl, ap, sym, ◌∙◌, Bool, true, false, ◌||◌, List, [], ◌∷◌, ◌==◌, Bool-cases, inl, inr,
  if◌then◌else◌, length, Text, text_eq, text_eq→eq, text_eq_refl, Kept, nothing, left_out, kept,
}
use go_librespot_termux.Ids.Context.{one_of}
use go_librespot_termux.Meta.{missing_loop, missing}

-- No text stands twice in the list.
abbrev pub IsUnique : List Text → Type 0
IsUnique [] = Unit {0}
IsUnique (t ∷ ts) = (one_of t ts ≡ false) × IsUnique ts

-- What the loop finds, the uris that it has seen being left out.
record Finds (cached : Text → Bool) (seen uris out : List Text) : Type 0 where
  order : Kept out uris
  unique : IsUnique out
  sound :
      (t : Text)
      → one_of t out ≡ true
      → (one_of t uris ≡ true)
        × (one_of t seen ≡ false)
        × (cached t ≡ false)
        × ((length t == 0) ≡ false)
  complete :
      (t : Text)
      → one_of t uris ≡ true
      → one_of t seen ≡ false
      → cached t ≡ false
      → (length t == 0) ≡ false
      → one_of t out ≡ true

or_true : (a b : Bool) → (a || b) ≡ true → (a ≡ true) ⊎ (b ≡ true)
or_true true b e = inl refl
or_true false b e = inr e

or_false : (a b : Bool) → (a || b) ≡ false → (a ≡ false) × (b ≡ false)
or_false true b e = absurd (cc)
or_false false b e = (refl, e)

or_intro : (a b : Bool) → b ≡ true → (a || b) ≡ true
or_intro true b e = refl
or_intro false b e = e

-- A uri that is passed over because it is empty or was seen.
Finds-skip :
    (cached : Text → Bool) (seen : List Text) (u : Text) (us out : List Text)
    → (length u == 0 || one_of u seen) ≡ true
    → Finds cached seen us out
    → Finds cached seen (u ∷ us) out
unfolding one_of
Finds-skip cached seen u us out skip f = record {
  order = left_out u out us f.order;
  unique = f.unique;
  sound =
      λ t h. let (a, b, c, d) = f.sound t h in (or_intro (text_eq t u) (one_of t us) a, b, c, d);
  complete = λ t h s c e. elim (or_true (text_eq t u) (one_of t us) h) [
    | inl y ↦
        let same = text_eq→eq t u y in
        absurd (
          cc (
            sym (ap (λ x. x || one_of t seen) e ∙ s)
            ∙ (ap (λ x. length x == 0 || one_of x seen) same ∙ skip)))
    | inr k ↦ f.complete t k s c e
  ];
}

Finds-cached :
    (cached : Text → Bool) (seen : List Text) (u : Text) (us out : List Text)
    → cached u ≡ true
    → Finds cached (u ∷ seen) us out
    → Finds cached seen (u ∷ us) out
unfolding one_of
Finds-cached cached seen u us out known f = record {
  order = left_out u out us f.order;
  unique = f.unique;
  sound = λ t h.
      let (a, b, c, d) = f.sound t h in
      (or_intro (text_eq t u) (one_of t us) a, (or_false (text_eq t u) (one_of t seen) b).1, c, d);
  complete = λ t h s c e. elim (Bool-cases (text_eq t u)) [
    | inl y ↦ absurd (cc (sym c ∙ (ap cached (text_eq→eq t u y) ∙ known)))
    | inr n ↦
        f.complete t (ap (λ b. b || one_of t us) (sym n) ∙ h) (ap (λ b. b || one_of t seen) n ∙ s) c
          e
  ];
}

Finds-new :
    (cached : Text → Bool) (seen : List Text) (u : Text) (us out : List Text)
    → (length u == 0) ≡ false
    → one_of u seen ≡ false
    → cached u ≡ false
    → Finds cached (u ∷ seen) us out
    → Finds cached seen (u ∷ us) (u ∷ out)
unfolding one_of
Finds-new cached seen u us out full fresh unknown f = record {
  order = kept u out us f.order;
  unique = (
    elim (Bool-cases (one_of u out)) [
      | inl y ↦ absurd (cc (sym (ap (λ b. b || one_of u seen) (text_eq_refl u)) ∙ (f.sound u y).1))
      | inr n ↦ n
    ],
    f.unique,
  );
  sound = λ t h. elim (Bool-cases (text_eq t u)) [
    | inl y ↦
        let same = sym (text_eq→eq t u y) in
        (
          ap (λ b. b || one_of t us) y,
          ap (λ x. one_of x seen) (sym same) ∙ fresh,
          ap cached (sym same) ∙ unknown,
          ap (λ x. length x == 0) (sym same) ∙ full,
        )
    | inr n ↦
        let (a, b, c, d) = f.sound t (ap (λ b. b || one_of t out) (sym n) ∙ h) in
        (or_intro (text_eq t u) (one_of t us) a, (or_false (text_eq t u) (one_of t seen) b).1, c, d)
  ];
  complete = λ t h s c e. elim (Bool-cases (text_eq t u)) [
    | inl y ↦ ap (λ b. b || one_of t out) y
    | inr n ↦ or_intro (text_eq t u) (one_of t out) (
        f.complete t (ap (λ b. b || one_of t us) (sym n) ∙ h) (ap (λ b. b || one_of t seen) n ∙ s) c
          e)
  ];
}

missing_loop-Finds :
    (cached : Text → Bool) (seen uris : List Text)
    → Finds cached seen uris (missing_loop cached seen uris)
unfolding missing_loop one_of
missing_loop-Finds cached seen [] = record {
  order = nothing;
  unique = tt;
  sound = λ t h. absurd (cc);
  complete = λ t h s c e. h;
}
missing_loop-Finds cached seen (u ∷ us) =
    choose (λ s. missing_loop cached s us) (λ s. missing_loop-Finds cached s us)
      (length u == 0 || one_of u seen) (cached u) refl refl
  where
    choose :
        (more : List Text → List Text)
        → ((s : List Text) → Finds cached s us (more s))
        → (skip known : Bool) → (length u == 0 || one_of u seen) ≡ skip
        → cached u ≡ known
        → Finds cached seen (u ∷ us) (
            if skip || known
            then more (if skip then seen else u ∷ seen)
            else u ∷ more (if skip then seen else u ∷ seen))
    choose more ih true known e k = Finds-skip cached seen u us (more seen) e (ih seen)
    choose more ih false true e k =
        Finds-cached cached seen u us (more (u ∷ seen)) k (ih (u ∷ seen))
    choose more ih false false e k =
        let (full, fresh) = or_false (length u == 0) (one_of u seen) e in
        Finds-new cached seen u us (more (u ∷ seen)) full fresh k (ih (u ∷ seen))

-- `missing` finds uris in the order of the list, each once: those of the list, and only those, that are
-- neither empty nor in the cache.
pub missing-order :
    (cached : Text → Bool) (uris : List Text)
    → Kept (missing cached uris) uris
      × IsUnique (missing cached uris)
      × ((t : Text)
          → one_of t (missing cached uris) ≡ true
          → (one_of t uris ≡ true) × (cached t ≡ false) × ((length t == 0) ≡ false))
      × ((t : Text)
          → one_of t uris ≡ true
          → cached t ≡ false
          → (length t == 0) ≡ false
          → one_of t (missing cached uris) ≡ true)
unfolding missing one_of
missing-order cached uris =
    let f = missing_loop-Finds cached [] uris in
    (
      f.order,
      f.unique,
      λ t h. ((f.sound t h).0, (f.sound t h).2, (f.sound t h).3),
      λ t h c e. f.complete t h refl c e,
    )
